-- ===== src/Purchase/Handlers/Outcome.antt =====
-- What a successful reply of `hold_purchase_order`, `resume_purchase_order` and `cancel_purchase_order` of
-- internal/tools/purchase_order_lifecycle_tools.go shows.
use inventree_mcp.Prelude.{
  String, Option, none, some, Bool, false, ◌==◌, ◌≡◌, inl, inr, refl, subst, ℤ, eq_int, eq_int_iff,
  is_positive, Bool-cases, Option-cases, Result-cases, Result, ok, err, arith,
}
use inventree_mcp.Stock.Item.{status_ok}
use inventree_mcp.Stock.Decimal.{Floats}
use inventree_mcp.Stock.Execute.{Confirming, Surroundings}
use inventree_mcp.Purchase.Orders.{
  PurchaseOrder, PurchaseOrderLineItem, PurchaseOrderExtraLine, Transition, OrderClient, Sorting,
  purchase_order_status_placed, purchase_order_status_on_hold, purchase_order_status_cancelled,
}
use inventree_mcp.Purchase.Plans.{
  LifecyclePlan, LifecycleDigest, LifecyclePlanStore, consume_lifecycle,
}
use inventree_mcp.Purchase.Lifecycle.{
  already, LifecycleOutput, LifecycleReply, hold_verdict, resume_verdict, cancel_verdict,
}
use inventree_mcp.Purchase.Planning.{load_lifecycle_context, plan_lifecycle}
use inventree_mcp.Purchase.Handlers.{
  plan_output, rejection, is_some, settled, refreshed, change_status, execute_lifecycle_plan,
  run_tool,
}
use inventree_mcp.Purchase.Handlers.Prepared.{
  Kind, holding, resuming, cancelling, tool_of, plan_lifecycle-Prepared,
}
use inventree_mcp.Purchase.Reading.{Verdict-cases}

hold_already : (s : ℤ) (a : String) → hold_verdict s ≡ already a → s ≡ purchase_order_status_on_hold
hold_already s a h = elim (Bool-cases (eq_int s purchase_order_status_on_hold)) [
  | inl held ↦ (eq_int_iff s purchase_order_status_on_hold).0 held
  | inr fresh ↦ absurd (ground (arith, h, fresh))
]

resume_already :
    (s : ℤ) (a : String) → resume_verdict s ≡ already a → s ≡ purchase_order_status_placed
resume_already s a h = elim (Bool-cases (eq_int s purchase_order_status_placed)) [
  | inl placed ↦ (eq_int_iff s purchase_order_status_placed).0 placed
  | inr fresh ↦ absurd (ground (arith, h, fresh))
]

cancel_already :
    (s : ℤ) (a : String) → cancel_verdict s ≡ already a → s ≡ purchase_order_status_cancelled
cancel_already s a h = elim (Bool-cases (eq_int s purchase_order_status_cancelled)) [
  | inl gone ↦ (eq_int_iff s purchase_order_status_cancelled).0 gone
  | inr fresh ↦ absurd (ground (arith, h, fresh))
]

tool_already :
    (F : Type 0) ⦃fl : Floats F⦄ (kind : Kind) (s : ℤ) (a : String)
    → (tool_of {F = F} kind).verdict s ≡ already a
    → s ≡ (tool_of {F = F} kind).target
tool_already F holding s a h = hold_already s a h
tool_already F resuming s a h = resume_already s a h
tool_already F cancelling s a h = cancel_already s a h

module _ {F W : Type 0} (client : OrderClient F W) where
  -- The output has an order that InvenTree answered with, in the status.
  pub record ShowsStatus (target : ℤ) (answer : Option PurchaseOrder) : Type 0 where
    pub order : PurchaseOrder
    pub shown : answer ≡ some order
    pub reached : order.status ≡ target
    pub id : ℤ
    pub world : W
    pub read : (client.get_purchase_order id world).0 ≡ ok order

  -- A reply that is no error and has the status `ok` shows the status.
  abbrev pub Honest : ℤ → LifecycleReply F → Type 0
  Honest target reply =
      reply.failed ≡ none → reply.out.status ≡ status_ok → ShowsStatus target reply.out.order

  refreshed-Honest :
      (out : LifecycleOutput F) (target id : ℤ) (failed : Bool) (w : W)
      → Honest target (refreshed out target failed (client.get_purchase_order id w).0)
  refreshed-Honest out target id failed w = elim (Result-cases (client.get_purchase_order id w).0) [
    | inr (e, k) ↦ rw (k) (λ fine good. absurd (cc good))
    | inl (order, k) ↦ elim (Bool-cases (eq_int order.status target)) [
      | inr other ↦ rw (k, settled, other) (λ fine good. absurd (cc good))
      | inl same ↦
          rw (k, settled, same)
            (λ fine good. record {
              order = order;
              shown = refl;
              reached = (eq_int_iff order.status target).0 same;
              id = id;
              world = w;
              read = k;
            })
    ]
  ]

  change_status-Honest :
      (out : LifecycleOutput F) (plan : LifecyclePlan F) (m : Transition) (w : W)
      → Honest plan.target_status (change_status client out plan m w).0
  unfolding change_status
  change_status-Honest out plan m w = elim (Option-cases (rejection (client.transition m w).0)) [
    | inr (e, k) ↦ rw (change_status, k) (λ fine good. absurd (cc fine))
    | inl k ↦
        rw (change_status, k)
          (refreshed-Honest out plan.target_status plan.order_id (is_some (client.transition m w).0)
            (client.transition m w).1)
  ]

  module _ {C : Type 0} ⦃d : LifecycleDigest F⦄ (env : Surroundings C) (c : Confirming)
      (plan : LifecyclePlan F) (warning : String) (m : Transition) where
    execute-Honest :
        (store : Option (LifecyclePlanStore C)) (w : W)
        → c.dry_run ≡ false
        → Honest plan.target_status (execute_lifecycle_plan client store env c plan warning m w).0
    unfolding execute_lifecycle_plan
    execute-Honest none w real = λ fine good. absurd (cc fine)
    execute-Honest (some s) w real = elim (Bool-cases c.confirm) [
      | inr unsure ↦ rw (execute_lifecycle_plan, real, unsure) (λ fine good. absurd (cc good))
      | inl sure ↦ elim (Bool-cases (c.plan_hash == "")) [
        | inl blank ↦ rw (execute_lifecycle_plan, real, sure, blank) (λ fine good. absurd (cc good))
        | inr there ↦ elim (Bool-cases (consume_lifecycle s env.ctx c.plan_hash env.now plan).0) [
          | inr refused ↦
              rw (execute_lifecycle_plan, real, sure, there, refused)
                (λ fine good. absurd (cc good))
          | inl granted ↦
              rw (execute_lifecycle_plan, real, sure, there, granted)
                (change_status-Honest (plan_output false plan warning) plan m w)
        ]
      ]
    ]

  module _ (project : String → String) ⦃lines_sorting : Sorting (PurchaseOrderLineItem F)⦄
      ⦃extra_sorting : Sorting (PurchaseOrderExtraLine F)⦄ ⦃fl : Floats F⦄ (kind : Kind) where
    -- a reply that comes before the plan
    abbrev EarlyHonest : Result (LifecycleReply F) (LifecyclePlan F) → Type 0
    EarlyHonest (err reply) = Honest (tool_of {F = F} kind).target reply
    EarlyHonest (ok plan) = Unit

    plan_lifecycle-EarlyHonest :
        (dry_run : Bool) (id : ℤ) (w : W)
        → EarlyHonest (plan_lifecycle project client (tool_of kind) dry_run id w).0
    unfolding plan_lifecycle
    plan_lifecycle-EarlyHonest dry_run id w =
        let tool = tool_of {F = F} kind in
        let w₁ = (client.get_purchase_order id w).1 in
        elim (Bool-cases (is_positive id)) [
          | inr negative ↦ rw (plan_lifecycle, negative) (λ fine good. absurd (cc good))
          | inl positive ↦ elim (Result-cases (client.get_purchase_order id w).0) [
            | inr (x, k) ↦ rw (plan_lifecycle, positive, k) (λ fine good. absurd (cc fine))
            | inl (order, k) ↦ elim (Verdict-cases (tool.verdict order.status)) [
              | inl (action, v) ↦
                  rw (plan_lifecycle, positive, k, v)
                    (λ fine good. record {
                      order = order;
                      shown = refl;
                      reached = tool_already F kind order.status action v;
                      id = id;
                      world = w;
                      read = k;
                    })
              | inr (inl (reason, v)) ↦
                  rw (plan_lifecycle, positive, k, v) (λ fine good. absurd (cc good))
              | inr (inr v) ↦
                  elim (Result-cases (load_lifecycle_context project client order.pk w₁).0) [
                    | inr (x, e) ↦
                        rw (plan_lifecycle, positive, k, v, e) (λ fine good. absurd (cc fine))
                    | inl ((lines, extra), e) ↦ elim (Option-cases (tool.objection lines)) [
                      | inr (o, obj) ↦
                          rw (plan_lifecycle, positive, k, v, e, obj)
                            (λ fine good. absurd (cc good))
                      | inl obj ↦ rw (plan_lifecycle, positive, k, v, e, obj) tt
                    ]
                  ]
            ]
          ]
        ]

    -- Outside a dry run, a reply of any of the three tools that is no error and has the status `ok` shows an
    -- order as InvenTree answered with it, and the order is in the status that the tool is for.
    pub run_tool-ShowsStatus :
        {C : Type 0} ⦃d : LifecycleDigest F⦄ (env : Surroundings C) (c : Confirming) (id : ℤ)
        (store : Option (LifecyclePlanStore C)) (w : W)
        → c.dry_run ≡ false
        → (run_tool project client (tool_of kind) store env c id w).0.failed ≡ none
        → (run_tool project client (tool_of kind) store env c id w).0.out.status ≡ status_ok
        → ShowsStatus
            (tool_of {F = F} kind).target
            (run_tool project client (tool_of kind) store env c id w).0.out.order
    unfolding run_tool
    run_tool-ShowsStatus env c id store w real =
        let tool = tool_of {F = F} kind in
        let early = plan_lifecycle-EarlyHonest c.dry_run id w in
        elim (Result-cases (plan_lifecycle project client tool c.dry_run id w).0) [
          | inr (reply, e) ↦ rw (run_tool, e) (rw (e) at early)
          | inl (plan, e) ↦
              let w' = (plan_lifecycle project client tool c.dry_run id w).1 in
              let ready = plan_lifecycle-Prepared project client tool c.dry_run id w plan e in
              let kept =
                execute-Honest env c plan (tool.warning plan.order.status)
                  (tool.request plan.order_id) store w' real in
              rw (run_tool, e)
                (subst
                  (λ t.
                    Honest t
                      (execute_lifecycle_plan client store env c plan
                        (tool.warning plan.order.status) (tool.request plan.order_id) w').0)
                  ready.targeted kept)
        ]
