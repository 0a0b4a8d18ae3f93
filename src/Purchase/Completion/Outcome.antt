-- ===== src/Purchase/Completion/Outcome.antt =====
-- What a successful reply of `complete_purchase_order` of internal/tools/purchase_order_completion_tools.go
-- shows.
use mathlib.Core.Option.{some-injective}
use inventree_mcp.Prelude.{
  String, none, some, Bool, false, ◌==◌, ◌≡◌, inl, inr, refl, ℤ, eq_int, eq_int_iff, is_positive,
  Bool-cases, Option-cases, Result-cases, Result, ok, err,
}
use inventree_mcp.Stock.Item.{status_ok}
use inventree_mcp.Stock.Decimal.{Floats}
use inventree_mcp.Stock.Execute.{Confirming}
use inventree_mcp.Purchase.Orders.{
  PurchaseOrder, PurchaseOrderLineItem, complete, OrderClient, Sorting, sanitize_lines,
  first_outstanding, purchase_order_status_placed, purchase_order_status_complete,
}
use inventree_mcp.Purchase.Handlers.{rejection, is_some}
use inventree_mcp.Purchase.Handlers.Outcome.{ShowsStatus}
use inventree_mcp.Purchase.Completion.{
  CompletionPlan, CompletionHash, CompletionOutput, CompletionReply, start, tool_name, settled,
  refreshed, barred, with_plan, complete_order, decide_completion, plan_completion,
  complete_purchase_order,
}

module _ {F W : Type 0} (client : OrderClient F W) where
  -- A reply that is no error and has the status `ok` shows an order that is complete.
  abbrev pub Honest : CompletionReply F → Type 0
  Honest reply =
      reply.failed ≡ none
      → reply.out.status ≡ status_ok
      → ShowsStatus client purchase_order_status_complete reply.out.order

  refreshed-Honest :
      (out : CompletionOutput F) (id : ℤ) (failed : Bool) (w : W)
      → Honest (refreshed out failed (client.get_purchase_order id w).0)
  refreshed-Honest out id failed w = elim (Result-cases (client.get_purchase_order id w).0) [
    | inr (e, k) ↦ rw (k) (λ fine good. absurd (cc good))
    | inl (order, k) ↦ elim (Bool-cases (eq_int order.status purchase_order_status_complete)) [
      | inr other ↦ rw (k, settled, other) (λ fine good. absurd (cc good))
      | inl same ↦
          rw (k, settled, same)
            (λ fine good. record {
              order = order;
              shown = refl;
              reached = (eq_int_iff order.status purchase_order_status_complete).0 same;
              id = id;
              world = w;
              read = k;
            })
    ]
  ]

  decide_completion-Honest :
      (c : Confirming) (id : ℤ) (out : CompletionOutput F) (pk : ℤ) (hash : String) (w : W)
      → c.dry_run ≡ false
      → Honest (decide_completion client c id out pk hash w).0
  unfolding decide_completion complete_order
  decide_completion-Honest c id out pk hash w real = elim (Bool-cases c.confirm) [
    | inr unsure ↦ rw (decide_completion, real, unsure) (λ fine good. absurd (cc good))
    | inl sure ↦ elim (Bool-cases (c.plan_hash == "")) [
      | inl blank ↦ rw (decide_completion, real, sure, blank) (λ fine good. absurd (cc good))
      | inr there ↦ elim (Bool-cases (c.plan_hash == hash)) [
        | inr other ↦
            rw (decide_completion, real, sure, there, other) (λ fine good. absurd (cc good))
        | inl same ↦ elim (Option-cases (rejection (client.transition (complete id) w).0)) [
          | inr (e, k) ↦
              rw (decide_completion, real, sure, there, same, complete_order, k)
                (λ fine good. absurd (cc fine))
          | inl k ↦
              rw (decide_completion, real, sure, there, same, complete_order, k)
                (refreshed-Honest out id (is_some (client.transition (complete id) w).0)
                  (client.transition (complete id) w).1)
        ]
      ]
    ]
  ]

  module _ (project : String → String) ⦃lines_sorting : Sorting (PurchaseOrderLineItem F)⦄
      ⦃fl : Floats F⦄ where
    -- a reply that comes before the plan
    abbrev EarlyHonest : Result (CompletionReply F) (CompletionPlan F) → Type 0
    EarlyHonest (err reply) = Honest reply
    EarlyHonest (ok plan) = Unit

    barred-Honest :
        (dry_run : Bool) (id : ℤ) (w : W) (order : PurchaseOrder) (reply : CompletionReply F)
        → (client.get_purchase_order id w).0 ≡ ok order
        → barred (record (start dry_run) { order = some order }) order.status ≡ some reply
        → Honest reply
    barred-Honest dry_run id w order reply k b =
        elim (Bool-cases (eq_int order.status purchase_order_status_complete)) [
          | inl done ↦ rw (← some-injective _ _ (rw (barred, done) at b)) (λ fine good. record {
            order = order;
            shown = refl;
            reached = (eq_int_iff order.status purchase_order_status_complete).0 done;
            id = id;
            world = w;
            read = k;
          })
          | inr open_ ↦ elim (Bool-cases (eq_int order.status purchase_order_status_placed)) [
            | inl placed ↦ absurd (cc (rw (barred, open_, placed) at b))
            | inr other ↦
                rw (← some-injective _ _ (rw (barred, open_, other) at b))
                  (λ fine good. absurd (cc good))
          ]
        ]

    plan_completion-EarlyHonest :
        (dry_run : Bool) (id : ℤ) (w : W)
        → EarlyHonest (plan_completion client project dry_run id w).0
    unfolding plan_completion
    plan_completion-EarlyHonest dry_run id w = elim (Bool-cases (is_positive id)) [
      | inr negative ↦ rw (plan_completion, negative) (λ fine good. absurd (cc good))
      | inl positive ↦ elim (Result-cases (client.get_purchase_order id w).0) [
        | inr (x, k) ↦ rw (plan_completion, positive, k) (λ fine good. absurd (cc fine))
        | inl (order, k) ↦
            elim (Option-cases
              (barred {F = F} (record (start dry_run) { order = some order }) order.status)) [
                | inr (reply, b) ↦
                    rw (plan_completion, positive, k, b)
                      (barred-Honest dry_run id w order reply k b)
                | inl b ↦
                    elim (Result-cases
                      (client.search_purchase_order_lines id
                        (client.get_purchase_order id w).1).0) [
                          | inr (x, l) ↦
                              rw (plan_completion, positive, k, b, l)
                                (λ fine good. absurd (cc fine))
                          | inl (raw, l) ↦
                              elim (Option-cases (
                                first_outstanding
                                  (sanitize_lines project (lines_sorting.sort raw)))) [
                                    | inr (line, o) ↦
                                        rw (plan_completion, positive, k, b, l, o)
                                          (λ fine good. absurd (cc good))
                                    | inl o ↦ rw (plan_completion, positive, k, b, l, o) tt
                                  ]
                        ]
              ]
      ]
    ]

    -- Outside a dry run, a reply of `complete_purchase_order` that is no error and has the status `ok` shows an
    -- order as InvenTree answered with it, and that order is complete.
    pub complete_purchase_order-ShowsStatus :
        ⦃h : CompletionHash F⦄ (c : Confirming) (id : ℤ) (w : W)
        → c.dry_run ≡ false
        → (complete_purchase_order client project c id w).0.failed ≡ none
        → (complete_purchase_order client project c id w).0.out.status ≡ status_ok
        → ShowsStatus client purchase_order_status_complete
            (complete_purchase_order client project c id w).0.out.order
    unfolding complete_purchase_order
    complete_purchase_order-ShowsStatus ⦃h⦄ c id w real =
        let planned = plan_completion client project c.dry_run id w in
        let early = plan_completion-EarlyHonest c.dry_run id w in
        elim (Result-cases planned.0) [
          | inr (reply, e) ↦ rw (complete_purchase_order, e) (rw (e) at early)
          | inl (plan, e) ↦ elim (Result-cases (h.hash plan)) [
            | inr (x, k) ↦ rw (complete_purchase_order, e, k) (λ fine good. absurd (cc fine))
            | inl (hash, k) ↦
                rw (complete_purchase_order, e, k)
                  (decide_completion-Honest c id
                    (record (with_plan c.dry_run plan) { action = tool_name }) plan.order.pk hash
                    planned.1 real)
          ]
        ]
