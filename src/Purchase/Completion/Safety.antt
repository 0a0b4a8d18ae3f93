-- ===== src/Purchase/Completion/Safety.antt =====
-- When `complete_purchase_order` of internal/tools/purchase_order_completion_tools.go completes an order.
use inventree_mcp.Prelude.{
  String, List, [], ◌∷◌, true, false, ◌==◌, ◌≡◌, ◌⊎◌, inl, inr, refl, ap, ◌∙◌, ℤ, eq_iff,
  Bool-cases, Option-cases, Result-cases, ok,
}
use inventree_mcp.Stock.Decimal.{Floats}
use inventree_mcp.Stock.Execute.{Confirming}
use inventree_mcp.Purchase.Orders.{
  PurchaseOrderLineItem, Transition, complete, OrderClient, Sorting,
}
use inventree_mcp.Purchase.Handlers.{rejection}
use inventree_mcp.Purchase.Handlers.Prepared.{recording, recording-ReadsKeep}
use inventree_mcp.Purchase.Completion.{
  CompletionPlan, CompletionHash, CompletionOutput, tool_name, with_plan, complete_order,
  decide_completion, plan_completion, complete_purchase_order,
}
use inventree_mcp.Purchase.Completion.Ready.{ReadyToComplete, ready_of, plan_completion-keeps}

-- The caller has confirmed, outside a dry run, with the hash of the current plan.
pub record Agrees (c : Confirming) (hash : String) : Type 0 where
  pub for_real : c.dry_run ≡ false
  pub confirmed : c.confirm ≡ true
  pub same_hash : c.plan_hash ≡ hash
  pub not_blank : (c.plan_hash == "") ≡ false

module _ {F W : Type 0} (client : OrderClient F W) (id : ℤ) where
  complete_order_asks :
      (out : CompletionOutput F) (w : W) (log : List Transition)
      → (complete_order (recording client) out id (w, log)).1.1 ≡ complete id ∷ log
  unfolding complete_order
  complete_order_asks out w log =
      elim (Option-cases (rejection (client.transition (complete id) w).0)) [
        | inl e ↦ rw (complete_order, e) refl
        | inr (x, e) ↦ rw (complete_order, e) refl
      ]

  decide_completion-Agrees :
      (c : Confirming) (out : CompletionOutput F) (pk : ℤ) (hash : String) (w : W)
      (log : List Transition)
      → ((decide_completion (recording client) c id out pk hash (w, log)).1.1 ≡ log)
        ⊎ (((decide_completion (recording client) c id out pk hash (w, log)).1.1
              ≡ complete id ∷ log)
            × Agrees c hash)
  unfolding decide_completion
  decide_completion-Agrees c out pk hash w log = elim (Bool-cases c.dry_run) [
    | inl dry ↦ inl (rw (decide_completion, dry) refl)
    | inr real ↦ elim (Bool-cases c.confirm) [
      | inr unsure ↦ inl (rw (decide_completion, real, unsure) refl)
      | inl sure ↦ elim (Bool-cases (c.plan_hash == "")) [
        | inl blank ↦ inl (rw (decide_completion, real, sure, blank) refl)
        | inr there ↦ elim (Bool-cases (c.plan_hash == hash)) [
          | inr other ↦ inl (rw (decide_completion, real, sure, there, other) refl)
          | inl same ↦ inr (
            rw (decide_completion, real, sure, there, same) (complete_order_asks out w log),
            record {
              for_real = real;
              confirmed = sure;
              same_hash = (eq_iff c.plan_hash hash).0 same;
              not_blank = there;
            },
          )
        ]
      ]
    ]
  ]

module _ {F W : Type 0} (project : String → String)
    ⦃lines_sorting : Sorting (PurchaseOrderLineItem F)⦄ ⦃fl : Floats F⦄
    (client : OrderClient F W) where
  ReadyToComplete-recording :
      (id : ℤ) (w : W) (log : List Transition) (plan : CompletionPlan F)
      → ReadyToComplete project (recording client) id (w, log) plan
      → ReadyToComplete project client id w plan
  ReadyToComplete-recording id w log plan r = record {
    order_read = r.order_read;
    placed = r.placed;
    lines_read = r.lines_read;
    searched = r.searched;
    lines_shown = r.lines_shown;
    all_received = r.all_received;
  }

  module _ ⦃h : CompletionHash F⦄ where
    -- `complete_purchase_order` asks InvenTree for nothing, or for exactly the completion of the order. Then
    -- InvenTree has just answered with the order, which is placed, and with lines that are all received in
    -- full (to the tolerance), and the caller has confirmed, outside a dry run, with the hash of the plan for
    -- that order and those lines.
    pub complete_purchase_order-ReadyToComplete :
        (c : Confirming) (id : ℤ) (w : W)
        → ((complete_purchase_order (recording client) project c id (w, [])).1.1 ≡ [])
          ⊎ (((complete_purchase_order (recording client) project c id (w, [])).1.1
                ≡ complete id ∷ [])
              × ((plan : CompletionPlan F) × (hash : String) × ReadyToComplete project client id w
                    plan
                  × (h.hash plan ≡ ok hash)
                  × Agrees c hash))
    unfolding complete_purchase_order
    complete_purchase_order-ReadyToComplete c id w =
        let planned = plan_completion (recording client) project c.dry_run id (w, []) in
        let quiet =
          plan_completion-keeps project (recording client) (λ s. s.1 ≡ [])
            (recording-ReadsKeep client []) c.dry_run id (w, []) refl in
        elim (Result-cases planned.0) [
          | inr (reply, e) ↦ inl (rw (complete_purchase_order, e) quiet)
          | inl (plan, e) ↦ elim (Result-cases (h.hash plan)) [
            | inr (x, k) ↦ inl (rw (complete_purchase_order, e, k) quiet)
            | inl (hash, k) ↦
                let ready =
                  ReadyToComplete-recording id w [] plan
                    (ready_of project (recording client) c.dry_run id (w, []) plan e) in
                let out = record (with_plan c.dry_run plan) { action = tool_name } in
                elim (decide_completion-Agrees client id c out plan.order.pk hash planned.1.0
                  planned.1.1) [
                    | inl none_ ↦ inl (rw (complete_purchase_order, e, k) (none_ ∙ quiet))
                    | inr (asked, agrees) ↦ inr (
                      rw (complete_purchase_order, e, k) (asked ∙ ap (λ l. complete id ∷ l) quiet),
                      (plan, hash, ready, k, agrees),
                    )
                  ]
          ]
        ]
