-- ===== src/Purchase/Statuses/Moves.antt =====
-- How one call of a tool of internal/tools/purchase_order_lifecycle_tools.go and
-- purchase_order_completion_tools.go moves the status of an order.
use inventree_mcp.Prelude.{
  String, Option, none, some, ◌==◌, ◌≡◌, ◌⊎◌, inl, inr, refl, ap, subst, sym, ◌∙◌, ℤ, Bool-cases,
  Option-cases, Result-cases,
}
use inventree_mcp.Stock.Decimal.{Floats}
use inventree_mcp.Stock.Execute.{Confirming, Surroundings}
use inventree_mcp.Purchase.Orders.{
  PurchaseOrderLineItem, PurchaseOrderExtraLine, Transition, complete, OrderClient, Sorting,
}
use inventree_mcp.Purchase.Plans.{
  LifecyclePlan, LifecycleDigest, LifecyclePlanStore, consume_lifecycle,
}
use inventree_mcp.Purchase.Lifecycle.{LifecycleOutput}
use inventree_mcp.Purchase.Planning.{plan_lifecycle}
use inventree_mcp.Purchase.Handlers.{rejection, change_status, execute_lifecycle_plan, run_tool}
use inventree_mcp.Purchase.Handlers.Prepared.{
  May, Kind, holding, resuming, cancelling, tool_of, tool-May, plan_lifecycle-Prepared,
}
use inventree_mcp.Purchase.Reading.{plan_lifecycle-keeps}
use inventree_mcp.Purchase.Completion.{
  CompletionHash, CompletionOutput, tool_name, with_plan, complete_order, decide_completion,
  plan_completion, complete_purchase_order,
}
use inventree_mcp.Purchase.Completion.Ready.{ready_of, plan_completion-keeps}
use inventree_mcp.Purchase.Statuses.{order_of, Move, move, Faithful}

module _ {F W : Type 0} (client : OrderClient F W) (status_of : W → ℤ → ℤ)
    (f : Faithful client status_of) where
  -- the status stays, or makes a move
  abbrev pub Moved : ℤ → W → W → Type 0
  Moved o w w' = (status_of w' o ≡ status_of w o) ⊎ Move (status_of w o) (status_of w' o)

  asked_Moved :
      (m : Transition) (w : W) (o : ℤ)
      → (o ≡ order_of m → May m (status_of w o))
      → Moved o w (client.transition m w).1
  asked_Moved m w o may = elim (f.effect m w o) [
    | inl same ↦ inl same
    | inr (of_order, changed) ↦ inr (move m (may of_order) changed)
  ]

  read-Moved : (id o : ℤ) (w w' : W) → Moved o w w' → Moved o w (client.get_purchase_order id w').1
  read-Moved id o w w' h =
      subst (λ s. (s ≡ status_of w o) ⊎ Move (status_of w o) s)
        (sym ((f.reads o (status_of w' o)).get_keeps id w' refl)) h

  change_status-Moved :
      (out : LifecycleOutput F) (plan : LifecyclePlan F) (m : Transition) (w : W) (o : ℤ)
      → (o ≡ order_of m → May m (status_of w o))
      → Moved o w (change_status client out plan m w).1
  unfolding change_status
  change_status-Moved out plan m w o may =
      elim (Option-cases (rejection (client.transition m w).0)) [
        | inr (e, k) ↦ rw (change_status, k) (asked_Moved m w o may)
        | inl k ↦
            rw (change_status, k)
              (read-Moved plan.order_id o w (client.transition m w).1 (asked_Moved m w o may))
      ]

  execute-Moved :
      {C : Type 0} ⦃d : LifecycleDigest F⦄ (store : Option (LifecyclePlanStore C))
      (env : Surroundings C) (c : Confirming) (plan : LifecyclePlan F) (warning : String)
      (m : Transition) (w : W) (o : ℤ)
      → (o ≡ order_of m → May m (status_of w o))
      → Moved o w (execute_lifecycle_plan client store env c plan warning m w).2
  unfolding execute_lifecycle_plan
  execute-Moved none env c plan warning m w o may = inl refl
  execute-Moved (some s) env c plan warning m w o may = elim (Bool-cases c.dry_run) [
    | inl dry ↦ rw (execute_lifecycle_plan, dry) (inl refl)
    | inr real ↦ elim (Bool-cases c.confirm) [
      | inr unsure ↦ rw (execute_lifecycle_plan, real, unsure) (inl refl)
      | inl sure ↦ elim (Bool-cases (c.plan_hash == "")) [
        | inl blank ↦ rw (execute_lifecycle_plan, real, sure, blank) (inl refl)
        | inr there ↦ elim (Bool-cases (consume_lifecycle s env.ctx c.plan_hash env.now plan).0) [
          | inr refused ↦ rw (execute_lifecycle_plan, real, sure, there, refused) (inl refl)
          | inl granted ↦
              rw (execute_lifecycle_plan, real, sure, there, granted)
                (change_status-Moved _ plan m w o may)
        ]
      ]
    ]
  ]

  complete-Moved :
      (out : CompletionOutput F) (id : ℤ) (w : W) (o : ℤ)
      → (o ≡ id → May (complete id) (status_of w o))
      → Moved o w (complete_order client out id w).1
  unfolding complete_order
  complete-Moved out id w o may =
      elim (Option-cases (rejection (client.transition (complete id) w).0)) [
        | inr (e, k) ↦ rw (complete_order, k) (asked_Moved (complete id) w o may)
        | inl k ↦
            rw (complete_order, k)
              (read-Moved id o w (client.transition (complete id) w).1
                (asked_Moved (complete id) w o may))
      ]

  decide-Moved :
      (c : Confirming) (id : ℤ) (out : CompletionOutput F) (pk : ℤ) (hash : String) (w : W) (o : ℤ)
      → (o ≡ id → May (complete id) (status_of w o))
      → Moved o w (decide_completion client c id out pk hash w).1
  unfolding decide_completion
  decide-Moved c id out pk hash w o may = elim (Bool-cases c.dry_run) [
    | inl dry ↦ rw (decide_completion, dry) (inl refl)
    | inr real ↦ elim (Bool-cases c.confirm) [
      | inr unsure ↦ rw (decide_completion, real, unsure) (inl refl)
      | inl sure ↦ elim (Bool-cases (c.plan_hash == "")) [
        | inl blank ↦ rw (decide_completion, real, sure, blank) (inl refl)
        | inr there ↦ elim (Bool-cases (c.plan_hash == hash)) [
          | inr other ↦ rw (decide_completion, real, sure, there, other) (inl refl)
          | inl same ↦
              rw (decide_completion, real, sure, there, same) (complete-Moved out id w o may)
        ]
      ]
    ]
  ]

  after_kept : (o : ℤ) (w w₁ w₂ : W) → status_of w₁ o ≡ status_of w o → Moved o w₁ w₂ → Moved o w w₂
  after_kept o w w₁ w₂ same moved =
      subst (λ s. (status_of w₂ o ≡ s) ⊎ Move s (status_of w₂ o)) same moved

request_order :
    (F : Type 0) ⦃fl : Floats F⦄ (kind : Kind) (i : ℤ)
    → order_of ((tool_of {F = F} kind).request i) ≡ i
request_order F holding i = refl
request_order F resuming i = refl
request_order F cancelling i = refl

module _ {F W : Type 0} (project : String → String)
    ⦃lines_sorting : Sorting (PurchaseOrderLineItem F)⦄ ⦃fl : Floats F⦄ (client : OrderClient F W)
    (status_of : W → ℤ → ℤ) (f : Faithful client status_of) where
  module _ {C : Type 0} ⦃extra_sorting : Sorting (PurchaseOrderExtraLine F)⦄
      ⦃d : LifecycleDigest F⦄ where
    pub run_tool-Moved :
        (kind : Kind) (store : Option (LifecyclePlanStore C)) (env : Surroundings C)
        (c : Confirming) (id : ℤ) (w : W) (o : ℤ)
        → Moved client status_of f o w (run_tool project client (tool_of kind) store env c id w).2
    unfolding run_tool
    run_tool-Moved kind store env c id w o =
        let tool = tool_of {F = F} kind in
        let w₁ = (plan_lifecycle project client tool c.dry_run id w).1 in
        let same =
          plan_lifecycle-keeps client (λ v. status_of v o ≡ status_of w o)
            (f.reads o (status_of w o)) project tool c.dry_run id w refl in
        elim (Result-cases (plan_lifecycle project client tool c.dry_run id w).0) [
          | inr (reply, e) ↦ rw (run_tool, e) (inl same)
          | inl (plan, e) ↦
              let ready = plan_lifecycle-Prepared project client tool c.dry_run id w plan e in
              let m = tool.request plan.order_id in
              let may = tool-May F kind plan.order_id plan.order.status ready.status_admitted in
              let at_id = ready.same_order ∙ f.same_pk id w plan.order ready.order_read in
              let read = f.same_status id w plan.order ready.order_read in
              rw (run_tool, e)
                (after_kept client status_of f o w w₁ _ same (
                  execute-Moved client status_of f store env c plan (tool.warning plan.order.status)
                    m w₁ o
                    (λ here_.
                      subst (May m)
                        (read
                          ∙ ap (status_of w)
                              (sym (here_ ∙ request_order F kind plan.order_id ∙ at_id))
                          ∙ sym same)
                        may)))
        ]

  module _ ⦃h : CompletionHash F⦄ where
    pub completion-Moved :
        (c : Confirming) (id : ℤ) (w : W) (o : ℤ)
        → Moved client status_of f o w (complete_purchase_order client project c id w).1
    unfolding complete_purchase_order
    completion-Moved c id w o =
        let planned = plan_completion client project c.dry_run id w in
        let same =
          plan_completion-keeps project client (λ v. status_of v o ≡ status_of w o)
            (f.reads o (status_of w o)) c.dry_run id w refl in
        elim (Result-cases planned.0) [
          | inr (reply, e) ↦ rw (complete_purchase_order, e) (inl same)
          | inl (plan, e) ↦ elim (Result-cases (h.hash plan)) [
            | inr (x, k) ↦ rw (complete_purchase_order, e, k) (inl same)
            | inl (hash, k) ↦
                let ready = ready_of project client c.dry_run id w plan e in
                let read = f.same_status id w plan.order ready.order_read in
                rw (complete_purchase_order, e, k)
                  (after_kept client status_of f o w planned.1 _ same (
                    decide-Moved client status_of f c id
                      (record (with_plan c.dry_run plan) { action = tool_name }) plan.order.pk hash
                      planned.1 o
                      (λ here_. same ∙ ap (status_of w) here_ ∙ sym read ∙ ready.placed)))
          ]
        ]
