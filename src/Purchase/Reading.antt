-- ===== src/Purchase/Reading.antt =====
-- What the reads of a purchase-order tool leave alone (internal/tools/purchase_order_lifecycle_tools.go and
-- purchase_order_extra_line_tools.go).
use inventree_mcp.Prelude.{
  ℕ, zero, suc, String, List, [], Bool, ◌≡◌, refl, ◌⊎◌, inl, inr, ltb, ℤ, pos, negsuc, is_positive,
  Bool-cases, Option-cases, Result-cases,
}
use inventree_mcp.Inventree.Pagination.{Page}
use inventree_mcp.Purchase.Orders.{
  PurchaseOrderLineItem, PurchaseOrderExtraLine, OrderClient, Sorting,
}
use inventree_mcp.Purchase.ExtraLines.{
  max_extra_line_scan, turn, scan_pages, scan_within, scan_from, scan_extra_lines,
}
use inventree_mcp.Purchase.ExtraLines.Scan.{Turn-cases}
use inventree_mcp.Purchase.Lifecycle.{Tool, Verdict, already, barred, eligible, scanned}
use inventree_mcp.Purchase.Planning.{load_lifecycle_context, plan_lifecycle}

pub Verdict-cases :
    (v : Verdict)
    → ((action : String) × (v ≡ already action))
      ⊎ ((reason : String) × (v ≡ barred reason))
      ⊎ (v ≡ eligible)
Verdict-cases (already action) = inl (action, refl)
Verdict-cases (barred reason) = inr (inl (reason, refl))
Verdict-cases eligible = inr (inr refl)

-- What the client's reads keep of the world.
pub record ReadsKeep {F W : Type 0} (client : OrderClient F W) (P : W → Type 0) : Type 0 where
  pub get_keeps : (id : ℤ) (w : W) → P w → P (client.get_purchase_order id w).1
  pub search_keeps : (id : ℤ) (w : W) → P w → P (client.search_purchase_order_lines id w).1
  pub page_keeps :
      (id limit offset : ℤ) (w : W) → P w → P (client.search_extra_lines_page id limit offset w).1

module _ {F W : Type 0} ⦃extra_sorting : Sorting (PurchaseOrderExtraLine F)⦄
    (client : OrderClient F W) (P : W → Type 0) (keep : ReadsKeep client P) where
  scan_pages-keeps :
      (id : ℤ) (fuel : ℕ) (page : Page (PurchaseOrderExtraLine F)) (offset : ℕ)
      (all : List (PurchaseOrderExtraLine F)) (w : W)
      → P w
      → P (scan_pages client id fuel page offset all w).1
  unfolding scan_pages
  scan_pages-keeps id zero page offset all w h = h
  scan_pages-keeps id (suc fuel) page offset all w h = elim (Turn-cases (turn id page offset all)) [
    | inl (r, e) ↦ rw (scan_pages, e) h
    | inr (offset', all', e) ↦
        elim (Result-cases (client.search_extra_lines_page id (pos 100) (pos offset') w).0) [
          | inr (x, k) ↦ rw (scan_pages, e, k) (keep.page_keeps id (pos 100) (pos offset') w h)
          | inl (page', k) ↦
              rw (scan_pages, e, k)
                (scan_pages-keeps id fuel page' offset' all'
                  (client.search_extra_lines_page id (pos 100) (pos offset') w).1
                  (keep.page_keeps id (pos 100) (pos offset') w h))
        ]
  ]

  scan_within-keeps :
      (id : ℤ) (page : Page (PurchaseOrderExtraLine F)) (n : ℤ) (w : W)
      → P w
      → P (scan_within client id page n w).1
  scan_within-keeps id page (negsuc n) w h = h
  scan_within-keeps id page (pos n) w h = elim (Bool-cases (ltb max_extra_line_scan n)) [
    | inl many ↦ rw (scan_within, many) h
    | inr few ↦ rw (scan_within, few) (scan_pages-keeps id (suc max_extra_line_scan) page 0 [] w h)
  ]

  pub scan_extra_lines-keeps : (id : ℤ) (w : W) → P w → P (scan_extra_lines client id w).1
  unfolding scan_extra_lines
  scan_extra_lines-keeps id w h =
      let kept = keep.page_keeps id (pos 100) (pos 0) w h in
      elim (Result-cases (client.search_extra_lines_page id (pos 100) (pos 0) w).0) [
        | inr (x, k) ↦ rw (scan_extra_lines, scan_from, k) kept
        | inl (page, k) ↦
            rw (scan_extra_lines, scan_from, k)
              (scan_within-keeps id page page.count
                (client.search_extra_lines_page id (pos 100) (pos 0) w).1 kept)
      ]

  module _ (project : String → String) ⦃lines_sorting : Sorting (PurchaseOrderLineItem F)⦄ where
    load-keeps : (id : ℤ) (w : W) → P w → P (load_lifecycle_context project client id w).1
    unfolding load_lifecycle_context
    load-keeps id w h =
        let kept = keep.search_keeps id w h in
        elim (Result-cases (client.search_purchase_order_lines id w).0) [
          | inr (x, k) ↦ rw (load_lifecycle_context, k) kept
          | inl (lines, k) ↦
              let kept' =
                scan_extra_lines-keeps id (client.search_purchase_order_lines id w).1 kept in
              elim (Result-cases (
                scanned
                  (scan_extra_lines client id (client.search_purchase_order_lines id w).1).0)) [
                    | inr (x, e) ↦ rw (load_lifecycle_context, k, e) kept'
                    | inl (extra_lines, e) ↦ rw (load_lifecycle_context, k, e) kept'
                  ]
        ]

    -- The part of a handler that comes before its plan keeps what the reads keep.
    pub plan_lifecycle-keeps :
        (tool : Tool F) (dry_run : Bool) (id : ℤ) (w : W)
        → P w
        → P (plan_lifecycle project client tool dry_run id w).1
    unfolding plan_lifecycle
    plan_lifecycle-keeps tool dry_run id w h = elim (Bool-cases (is_positive id)) [
      | inr negative ↦ rw (plan_lifecycle, negative) h
      | inl positive ↦
          let kept = keep.get_keeps id w h in
          elim (Result-cases (client.get_purchase_order id w).0) [
            | inr (x, k) ↦ rw (plan_lifecycle, positive, k) kept
            | inl (order, k) ↦ elim (Verdict-cases (tool.verdict order.status)) [
              | inl (action, v) ↦ rw (plan_lifecycle, positive, k, v) kept
              | inr (inl (reason, v)) ↦ rw (plan_lifecycle, positive, k, v) kept
              | inr (inr v) ↦
                  let w₁ = (client.get_purchase_order id w).1 in
                  let kept' = load-keeps order.pk w₁ kept in
                  elim (Result-cases (load_lifecycle_context project client order.pk w₁).0) [
                    | inr (x, e) ↦ rw (plan_lifecycle, positive, k, v, e) kept'
                    | inl ((lines, extra_lines), e) ↦ elim (Option-cases (tool.objection lines)) [
                      | inr (o, obj) ↦ rw (plan_lifecycle, positive, k, v, e, obj) kept'
                      | inl obj ↦ rw (plan_lifecycle, positive, k, v, e, obj) kept'
                    ]
                  ]
            ]
          ]
    ]
