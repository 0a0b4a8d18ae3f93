-- ===== src/Purchase/Handlers/Safety.antt =====
-- When `hold_purchase_order`, `resume_purchase_order` and `cancel_purchase_order` of
-- internal/tools/purchase_order_lifecycle_tools.go change an order.
use mathlib.Core.Option.{some-injective}
use inventree_mcp.Prelude.{
  String, Option, none, some, List, [], ◌∷◌, true, false, ◌==◌, ◌≡◌, ◌⊎◌, inl, inr, refl, ap, subst,
  sym, ◌∙◌, ℤ, Bool-cases, Option-cases, Result-cases,
}
use inventree_mcp.Batch.Store.History.{Event}
use inventree_mcp.Stock.Decimal.{Floats}
use inventree_mcp.Stock.Execute.{Confirming, Surroundings}
use inventree_mcp.Stock.Plans.History.{PlanCall, WasPlanned}
use inventree_mcp.Purchase.Orders.{
  PurchaseOrderLineItem, PurchaseOrderExtraLine, Transition, OrderClient, Sorting,
}
use inventree_mcp.Purchase.Plans.{
  LifecyclePlan, LifecycleDigest, LifecyclePlanStore, new_lifecycle_plan_store, consume_lifecycle,
}
use inventree_mcp.Purchase.Plans.Twin.{planned_of, run_lifecycle, accepted-WasPlanned}
use inventree_mcp.Purchase.Lifecycle.{Tool, LifecycleOutput}
use inventree_mcp.Purchase.Planning.{plan_lifecycle}
use inventree_mcp.Purchase.Handlers.{rejection, change_status, execute_lifecycle_plan, run_tool}
use inventree_mcp.Purchase.Handlers.Prepared.{
  May, Kind, tool_of, tool-May, recording, recording-ReadsKeep, Prepared, plan_lifecycle-Prepared,
  Prepared-recording,
}
use inventree_mcp.Purchase.Reading.{plan_lifecycle-keeps}

module _ {F W : Type 0} (client : OrderClient F W) where
  changes_once :
      (out : LifecycleOutput F) (plan : LifecyclePlan F) (m : Transition) (w : W)
      (log : List Transition)
      → (change_status (recording client) out plan m (w, log)).1.1 ≡ m ∷ log
  unfolding change_status
  changes_once out plan m w log = elim (Option-cases (rejection (client.transition m w).0)) [
    | inl e ↦ rw (change_status, e) refl
    | inr (x, e) ↦ rw (change_status, e) refl
  ]

module _ {F C : Type 0} ⦃d : LifecycleDigest F⦄ where
  -- The caller has confirmed, outside a dry run, with a token that the store accepts for the plan.
  pub record Authorizes (store : LifecyclePlanStore C) (env : Surroundings C) (c : Confirming)
      (plan : LifecyclePlan F) : Type 0 where
    pub for_real : c.dry_run ≡ false
    pub confirmed : c.confirm ≡ true
    pub accepted_token : (consume_lifecycle store env.ctx c.plan_hash env.now plan).0 ≡ true

  module _ {W : Type 0} (client : OrderClient F W) (env : Surroundings C) (c : Confirming)
      (plan : LifecyclePlan F) (warning : String) (m : Transition) where
    execute-Authorizes :
        (store : Option (LifecyclePlanStore C)) (w : W) (log : List Transition)
        → ((execute_lifecycle_plan (recording client) store env c plan warning m (w, log)).2.1
            ≡ log)
          ⊎ (((execute_lifecycle_plan (recording client) store env c plan warning m (w, log)).2.1
                ≡ m ∷ log)
              × ((s : LifecyclePlanStore C) × (store ≡ some s) × Authorizes s env c plan))
    unfolding execute_lifecycle_plan
    execute-Authorizes none w log = inl refl
    execute-Authorizes (some s) w log = elim (Bool-cases c.dry_run) [
      | inl dry ↦ inl (rw (execute_lifecycle_plan, dry) refl)
      | inr real ↦ elim (Bool-cases c.confirm) [
        | inr unsure ↦ inl (rw (execute_lifecycle_plan, real, unsure) refl)
        | inl sure ↦ elim (Bool-cases (c.plan_hash == "")) [
          | inl blank ↦ inl (rw (execute_lifecycle_plan, real, sure, blank) refl)
          | inr there ↦ elim (Bool-cases (consume_lifecycle s env.ctx c.plan_hash env.now plan).0) [
            | inr refused ↦ inl (rw (execute_lifecycle_plan, real, sure, there, refused) refl)
            | inl granted ↦ inr (
              rw (execute_lifecycle_plan, real, sure, there, granted)
                  (changes_once client _ plan m w log),
              (s, refl, record { for_real = real; confirmed = sure; accepted_token = granted }),
            )
          ]
        ]
      ]
    ]

module _ {F W C : Type 0} (project : String → String)
    ⦃lines_sorting : Sorting (PurchaseOrderLineItem F)⦄
    ⦃extra_sorting : Sorting (PurchaseOrderExtraLine F)⦄ ⦃d : LifecycleDigest F⦄
    (client : OrderClient F W) (env : Surroundings C) (c : Confirming) (id : ℤ) where
  pub run_tool-Authorizes :
      (tool : Tool F) (store : Option (LifecyclePlanStore C)) (w : W)
      → ((run_tool project (recording client) tool store env c id (w, [])).2.1 ≡ [])
        ⊎ ((plan : LifecyclePlan F) × ((run_tool project
                (recording client)
                tool
                store
                env
                c
                id
                (w, [])).2.1
              ≡ tool.request plan.order_id ∷ [])
            × Prepared project (recording client) tool id (w, []) plan
            × ((s : LifecyclePlanStore C) × (store ≡ some s) × Authorizes s env c plan))
  unfolding run_tool
  run_tool-Authorizes tool store w =
      let planned = plan_lifecycle project (recording client) tool c.dry_run id (w, []) in
      let kept =
        plan_lifecycle-keeps (recording client) (λ s. s.1 ≡ []) (recording-ReadsKeep client [])
          project tool c.dry_run id (w, []) refl in
      elim (Result-cases planned.0) [
        | inr (reply, e) ↦ inl (rw (run_tool, e) kept)
        | inl (plan, e) ↦
            let ready =
              plan_lifecycle-Prepared project (recording client) tool c.dry_run id (w, []) plan e in
            elim (execute-Authorizes client env c plan (tool.warning plan.order.status)
              (tool.request plan.order_id) store planned.1.0 planned.1.1) [
                | inl quiet ↦ inl (rw (run_tool, e) (quiet ∙ kept))
                | inr (asked, allowed) ↦ inr (
                  plan,
                  rw (run_tool, e) (asked ∙ ap (λ l. tool.request plan.order_id ∷ l) kept),
                  ready,
                  allowed,
                )
              ]
      ]

  -- A change of status that a tool asks for, with all that must have come before it.
  pub record Reviewed (principal : C → String) (past : List (Event (LifecyclePlan F) C))
      (tool : Tool F) (w : W) (m : Transition) : Type 0 where
    pub plan : LifecyclePlan F
    pub asked : m ≡ tool.request plan.order.pk
    pub prepared : Prepared project client tool id w plan
    pub may : May m plan.order.status
    pub for_real : c.dry_run ≡ false
    pub confirmed : c.confirm ≡ true
    pub was_planned : WasPlanned ⦃p = planned_of d⦄ principal past c.plan_hash env.ctx env.now plan

  module _ ⦃fl : Floats F⦄ (kind : Kind) (principal : C → String)
      (cs : List (PlanCall (LifecyclePlan F) C)) (w : W) where
    -- Each of the three tools asks InvenTree for no change of status, or for exactly one: that of the tool,
    -- for the order that it has just read, confirmed outside a dry run, with a token that a dry run gave to
    -- the same principal less than five minutes ago for a plan with the same digest, order and action. The
    -- order's status was pending or placed for hold, on hold for resume, and for cancel any status but
    -- complete and cancelled, which includes statuses that the documentation of the tool does not name.
    -- This holds after any calls of the store.
    pub run_tool-Reviewed :
        ((run_tool project
            (recording client)
            (tool_of kind)
            (some (run_lifecycle (new_lifecycle_plan_store principal) [] cs).0)
            env
            c
            id
            (w, [])).2.1
          ≡ [])
        ⊎ ((m : Transition) × ((run_tool project
                (recording client)
                (tool_of kind)
                (some (run_lifecycle (new_lifecycle_plan_store principal) [] cs).0)
                env
                c
                id
                (w, [])).2.1
              ≡ m ∷ [])
            × Reviewed principal
                (run_lifecycle (new_lifecycle_plan_store principal) [] cs).1
                (tool_of kind)
                w
                m)
    run_tool-Reviewed =
        let tool = tool_of {F = F} kind in
        let store = (run_lifecycle (new_lifecycle_plan_store principal) [] cs).0 in
        elim (run_tool-Authorizes tool (some store) w) [
          | inl quiet ↦ inl quiet
          | inr (plan, asked, ready, (s, same, allowed)) ↦ inr (
            tool.request plan.order_id,
            asked,
            record {
              plan = plan;
              asked = ap tool.request ready.same_order;
              prepared = Prepared-recording project client tool id w [] plan ready;
              may = tool-May F kind plan.order_id plan.order.status ready.status_admitted;
              for_real = allowed.for_real;
              confirmed = allowed.confirmed;
              was_planned = accepted-WasPlanned principal cs env.ctx c.plan_hash env.now plan (
                  subst (λ t. (consume_lifecycle t env.ctx c.plan_hash env.now plan).0 ≡ true)
                    (sym (some-injective _ _ same)) allowed.accepted_token);
            },
          )
        ]
