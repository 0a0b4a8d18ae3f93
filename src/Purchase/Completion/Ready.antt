-- ===== src/Purchase/Completion/Ready.antt =====
-- What is read before `complete_purchase_order` of internal/tools/purchase_order_completion_tools.go completes
-- an order.
use mathlib.Core.List.Perm
use inventree_mcp.Prelude.{
  String, none, some, List, [], ◌∷◌, Bool, ◌==◌, ◌≡◌, inl, inr, refl, ap, subst, ◌∙◌, not, ℤ,
  eq_int, eq_int_iff, is_positive, Bool-cases, Option-cases, Result-cases, ok, ok_unique, Always,
  Always-cons, Always-nil, Always-Perm,
}
use inventree_mcp.Stock.Decimal.{Floats, exceeds}
use inventree_mcp.Purchase.Orders.{
  PurchaseOrderLineItem, OrderClient, Sorting, sanitize_line, sanitize_lines, first_outstanding,
  purchase_order_status_placed, purchase_order_status_complete,
}
use inventree_mcp.Purchase.Reading.{ReadsKeep}
use inventree_mcp.Purchase.Completion.{
  CompletionPlan, CompletionOutput, barred, start, plan_completion,
}

module _ {F : Type 0} ⦃fl : Floats F⦄ where
  -- all of the line has been received
  abbrev pub fulfilled : PurchaseOrderLineItem F → Bool
  fulfilled line = not (exceeds (fl.sub line.quantity line.received) fl.tolerance)

  sanitize_line-outstanding :
      (project : String → String) (line : PurchaseOrderLineItem F)
      → fl.sub (sanitize_line project line).quantity (sanitize_line project line).received
        ≡ fl.sub line.quantity line.received
  sanitize_line-outstanding project line = elim (Bool-cases (line.link == "")) [
    | inl e ↦ rw (sanitize_line, e) refl
    | inr e ↦ rw (sanitize_line, e) refl
  ]

  first_outstanding-Always :
      (project : String → String) (lines : List (PurchaseOrderLineItem F))
      → first_outstanding (sanitize_lines project lines) ≡ none
      → Always fulfilled lines
  unfolding first_outstanding
  first_outstanding-Always project [] h = Always-nil fulfilled
  first_outstanding-Always project (line ∷ lines) h =
      let same = ap (λ r. exceeds r fl.tolerance) (sanitize_line-outstanding project line) in
      elim (Bool-cases (exceeds (fl.sub line.quantity line.received) fl.tolerance)) [
        | inl open_ ↦ absurd (cc (rw (first_outstanding, same ∙ open_) at h))
        | inr closed ↦
            Always-cons fulfilled line lines (ap not closed)
              (first_outstanding-Always project lines (rw (first_outstanding, same ∙ closed) at h))
      ]

module _ {F : Type 0} where
  barred-none :
      (out : CompletionOutput F) (s : ℤ) → barred out s ≡ none → s ≡ purchase_order_status_placed
  barred-none out s h = elim (Bool-cases (eq_int s purchase_order_status_complete)) [
    | inl done ↦ absurd (cc (rw (barred, done) at h))
    | inr open_ ↦ elim (Bool-cases (eq_int s purchase_order_status_placed)) [
      | inl placed ↦ (eq_int_iff s purchase_order_status_placed).0 placed
      | inr other ↦ absurd (cc (rw (barred, open_, other) at h))
    ]
  ]

module _ {F W : Type 0} (project : String → String)
    ⦃lines_sorting : Sorting (PurchaseOrderLineItem F)⦄ ⦃fl : Floats F⦄
    (client : OrderClient F W) where
  -- The plan is of the order and lines that InvenTree has just answered with; the order is placed and
  -- every line is received in full.
  pub record ReadyToComplete (id : ℤ) (w : W) (plan : CompletionPlan F) : Type 0 where
    pub order_read : (client.get_purchase_order id w).0 ≡ ok plan.order
    pub placed : plan.order.status ≡ purchase_order_status_placed
    pub lines_read : List (PurchaseOrderLineItem F)
    pub searched :
        (client.search_purchase_order_lines id (client.get_purchase_order id w).1).0 ≡ ok lines_read
    pub lines_shown : plan.lines ≡ sanitize_lines project (lines_sorting.sort lines_read)
    pub all_received : Always fulfilled lines_read

  pub ready_of :
      (dry_run : Bool) (id : ℤ) (w : W) (plan : CompletionPlan F)
      → (plan_completion client project dry_run id w).0 ≡ ok plan
      → ReadyToComplete id w plan
  unfolding plan_completion
  ready_of dry_run id w plan h = elim (Bool-cases (is_positive id)) [
    | inr negative ↦ absurd (cc (rw (plan_completion, negative) at h))
    | inl positive ↦ elim (Result-cases (client.get_purchase_order id w).0) [
      | inr (x, k) ↦ absurd (cc (rw (plan_completion, positive, k) at h))
      | inl (order, k) ↦
          elim (Option-cases
            (barred {F = F} (record (start dry_run) { order = some order }) order.status)) [
              | inr (reply, b) ↦ absurd (cc (rw (plan_completion, positive, k, b) at h))
              | inl b ↦
                  elim (Result-cases
                    (client.search_purchase_order_lines id (client.get_purchase_order id w).1).0) [
                      | inr (x, l) ↦ absurd (cc (rw (plan_completion, positive, k, b, l) at h))
                      | inl (raw, l) ↦
                          let sorted = lines_sorting.sort raw in
                          elim (Option-cases (first_outstanding (sanitize_lines project sorted))) [
                            | inr (line, o) ↦
                                absurd (cc (rw (plan_completion, positive, k, b, l, o) at h))
                            | inl o ↦
                                subst (ReadyToComplete id w)
                                  (ok_unique _ _ plan refl
                                    (rw (plan_completion, positive, k, b, l, o) at h))
                                  (record {
                                    order_read = k;
                                    placed =
                                        barred-none (record (start dry_run) { order = some order })
                                          order.status b;
                                    lines_read = raw;
                                    searched = l;
                                    lines_shown = refl;
                                    all_received =
                                        Always-Perm fulfilled raw sorted
                                          (Perm.symm (lines_sorting.permutes raw))
                                          (first_outstanding-Always project sorted o);
                                  })
                          ]
                    ]
            ]
    ]
  ]

module _ {F W : Type 0} (project : String → String)
    ⦃lines_sorting : Sorting (PurchaseOrderLineItem F)⦄ ⦃fl : Floats F⦄
    (client : OrderClient F W) where
  pub plan_completion-keeps :
      (P : W → Type 0) (keep : ReadsKeep client P) (dry_run : Bool) (id : ℤ) (w : W)
      → P w
      → P (plan_completion client project dry_run id w).1
  unfolding plan_completion
  plan_completion-keeps P keep dry_run id w h = elim (Bool-cases (is_positive id)) [
    | inr negative ↦ rw (plan_completion, negative) h
    | inl positive ↦
        let w₁ = (client.get_purchase_order id w).1 in
        let kept = keep.get_keeps id w h in
        let kept' = keep.search_keeps id w₁ kept in
        elim (Result-cases (client.get_purchase_order id w).0) [
          | inr (x, k) ↦ rw (plan_completion, positive, k) kept
          | inl (order, k) ↦
              elim (Option-cases
                (barred {F = F} (record (start dry_run) { order = some order }) order.status)) [
                  | inr (reply, b) ↦ rw (plan_completion, positive, k, b) kept
                  | inl b ↦ elim (Result-cases (client.search_purchase_order_lines id w₁).0) [
                    | inr (x, l) ↦ rw (plan_completion, positive, k, b, l) kept'
                    | inl (raw, l) ↦
                        elim (Option-cases
                          (first_outstanding (sanitize_lines project (lines_sorting.sort raw)))) [
                            | inr (line, o) ↦ rw (plan_completion, positive, k, b, l, o) kept'
                            | inl o ↦ rw (plan_completion, positive, k, b, l, o) kept'
                          ]
                  ]
                ]
        ]
  ]
