-- ===== src/Purchase/Handlers/Cancellation.antt =====
-- That `cancel_purchase_order` of internal/tools/purchase_order_lifecycle_tools.go leaves orders with received
-- stock alone.
use mathlib.Core.List.Perm
use inventree_mcp.Prelude.{
  String, Option, none, some, List, [], ◌∷◌, map, Bool, ◌≡◌, ◌⊎◌, inl, inr, refl, ap, sym, ◌∙◌, not,
  ℤ, Bool-cases, ok, Always, Always-cons, Always-nil, Always-Perm, arith,
}
use inventree_mcp.Stock.Decimal.{Floats, exceeds}
use inventree_mcp.Stock.Execute.{Confirming, Surroundings}
use inventree_mcp.Purchase.Orders.{
  PurchaseOrder, PurchaseOrderLineItem, PurchaseOrderExtraLine, OrderClient, Sorting,
  first_received, sanitize_line, sanitize_lines,
}
use inventree_mcp.Purchase.Plans.{LifecycleDigest, LifecyclePlanStore}
use inventree_mcp.Purchase.Lifecycle.{cancel_tool, received_objection, without_notes}
use inventree_mcp.Purchase.Handlers.{cancel_purchase_order}
use inventree_mcp.Purchase.Handlers.Prepared.{recording}
use inventree_mcp.Purchase.Handlers.Safety.{run_tool-Authorizes}

module _ {F : Type 0} ⦃fl : Floats F⦄ where
  -- nothing of the line has been received
  abbrev pub unreceived : PurchaseOrderLineItem F → Bool
  unreceived line = not (exceeds line.received fl.tolerance)

  received_objection-none :
      (found : Option (PurchaseOrderLineItem F)) → received_objection found ≡ none → found ≡ none
  received_objection-none none h = refl
  received_objection-none (some line) h = absurd (cc h)

  sanitize_line-received :
      (project : String → String) (line : PurchaseOrderLineItem F)
      → (without_notes (sanitize_line project line)).received ≡ line.received
  sanitize_line-received project line = ground arith

  first_received-Always :
      (project : String → String) (lines : List (PurchaseOrderLineItem F))
      → first_received (map without_notes (sanitize_lines project lines)) ≡ none
      → Always unreceived lines
  unfolding first_received
  first_received-Always project [] h = Always-nil unreceived
  first_received-Always project (line ∷ lines) h =
      let same = ap (λ r. exceeds r fl.tolerance) (sanitize_line-received project line) in
      elim (Bool-cases (exceeds line.received fl.tolerance)) [
        | inl some_ ↦ absurd (cc (rw (first_received, same ∙ some_) at h))
        | inr none_ ↦
            Always-cons unreceived line lines (ap not none_)
              (first_received-Always project lines (rw (first_received, same ∙ none_) at h))
      ]

module _ {F W C : Type 0} ⦃fl : Floats F⦄ (project : String → String)
    ⦃lines_sorting : Sorting (PurchaseOrderLineItem F)⦄
    ⦃extra_sorting : Sorting (PurchaseOrderExtraLine F)⦄ ⦃d : LifecycleDigest F⦄
    (client : OrderClient F W) (env : Surroundings C) (c : Confirming) (id : ℤ) where
  -- `cancel_purchase_order` asks InvenTree for no change, unless InvenTree has just answered with the order
  -- and with lines of which no line has received more than the tolerance.
  pub cancel_purchase_order-unreceived :
      (store : Option (LifecyclePlanStore C)) (w : W)
      → ((cancel_purchase_order project (recording client) store env c id (w, [])).2.1 ≡ [])
        ⊎ ((order : PurchaseOrder) × (lines : List (PurchaseOrderLineItem F))
            × ((client.get_purchase_order id w).0 ≡ ok order)
            × ((client.search_purchase_order_lines order.pk (client.get_purchase_order id w).1).0
                ≡ ok lines)
            × Always unreceived lines)
  cancel_purchase_order-unreceived store w =
      elim (run_tool-Authorizes project client env c id cancel_tool store w) [
        | inl quiet ↦ inl quiet
        | inr (plan, asked, ready, allowed) ↦
            let sorted = lines_sorting.sort ready.lines_read in
            let clear = received_objection-none (first_received plan.lines) ready.lines_admitted in
            let shown = ap first_received (sym ready.lines_shown) ∙ clear in
            inr (
              plan.order,
              ready.lines_read,
              ready.order_read,
              ready.searched,
              Always-Perm unreceived ready.lines_read sorted
                  (Perm.symm (lines_sorting.permutes ready.lines_read))
                  (first_received-Always project sorted shown),
            )
      ]
