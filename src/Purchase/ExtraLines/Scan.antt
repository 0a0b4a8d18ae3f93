-- ===== src/Purchase/ExtraLines/Scan.antt =====
-- That the scan of internal/tools/purchase_order_extra_line_tools.go comes to an end, and what it returns.
use inventree_mcp.Prelude.{
  ℕ, zero, suc, ◌+◌, ◌-◌, ◌<◌, List, [], ◌∷◌, ◌++◌, Bool, false, ◌||◌, ◌≡◌, ◌⊎◌, inl, inr, refl,
  subst, arith, leb, eq_int, reaches, ℤ, pos, negsuc, ltb, length, Result, ok, err, Bool-cases,
  Result-cases, Always, Always-nil, Always-cons, Always-append, Always-Perm, ok_unique,
}
use inventree_mcp.Inventree.Pagination.{Page}
use inventree_mcp.Stock.Execute.{Failure}
use inventree_mcp.Purchase.Orders.{PurchaseOrderExtraLine, OrderClient, Sorting}
use inventree_mcp.Purchase.ExtraLines.{
  max_extra_line_scan, no_next, is_empty, ScanEnd, returned, panicked, unfinished, Turn, finished,
  request, take_records, advance, turn, scan_pages, scan_within, scan_from, scan_extra_lines,
}

room :
    {A : Type 0} (results : List A) (offset : ℕ)
    → (is_empty results || leb max_extra_line_scan (offset + length results)) ≡ false
    → (offset < offset + length results) × (offset + length results < max_extra_line_scan)
room [] offset h = absurd (cc h)
room (x ∷ results) offset h = (omega arith, ground (arith, h))

pub Turn-cases :
    {A : Type 0} (t : Turn A)
    → ((r : Result Failure A) × (t ≡ finished r))
      ⊎ ((offset : ℕ) × (all : A) × (t ≡ request offset all))
Turn-cases (finished r) = inl (r, refl)
Turn-cases (request offset all) = inr (offset, all, refl)

module _ {F : Type 0} (order_id : ℤ) where
  abbrev pub is_of : PurchaseOrderExtraLine F → Bool
  is_of line = eq_int line.order order_id

  take_records-Always :
      (rs all all' : List (PurchaseOrderExtraLine F))
      → take_records order_id rs all ≡ ok all'
      → Always is_of all
      → Always is_of all'
  unfolding take_records
  take_records-Always [] all all' h kept = subst (Always is_of) (ok_unique _ all all' refl h) kept
  take_records-Always (r ∷ rs) all all' h kept = elim (Bool-cases (eq_int r.order order_id)) [
    | inl of_order ↦
        take_records-Always rs (all ++ (r ∷ [])) all' (rw (take_records, of_order) at h) (
          Always-append is_of all (r ∷ []) kept
            (Always-cons is_of r [] of_order (Always-nil is_of)))
    | inr other ↦ absurd (cc (rw (take_records, other) at h))
  ]

  module _ ⦃sorting : Sorting (PurchaseOrderExtraLine F)⦄ where
    -- What a turn does: it ends with records of the order, or goes on at a greater offset below the bound.
    abbrev Proceeds : ℕ → Turn (List (PurchaseOrderExtraLine F)) → Type 0
    Proceeds offset (finished (err e)) = Unit
    Proceeds offset (finished (ok lines)) = Always is_of lines
    Proceeds offset (request offset' all) =
        (offset < offset') × (offset' < max_extra_line_scan) × Always is_of all

    advance-Proceeds :
        (page : Page (PurchaseOrderExtraLine F)) (offset : ℕ)
        (all : List (PurchaseOrderExtraLine F))
        → Always is_of all
        → Proceeds offset (advance page (offset + length page.results) all)
    advance-Proceeds page offset all kept =
        elim (Bool-cases (no_next page.next || reaches (offset + length page.results) page.count)) [
          | inl ended ↦
              rw (advance, ended)
                (Always-Perm is_of (sorting.sort all) all (sorting.permutes all) kept)
          | inr going ↦
              elim (Bool-cases
                (is_empty page.results || leb max_extra_line_scan (offset + length page.results))) [
                  | inl stuck ↦ rw (advance, going, stuck) tt
                  | inr fine ↦
                      let (further, below) = room page.results offset fine in
                      rw (advance, going, fine) (further, below, kept)
                ]
        ]

    turn-Proceeds :
        (page : Page (PurchaseOrderExtraLine F)) (offset : ℕ)
        (all : List (PurchaseOrderExtraLine F))
        → Always is_of all
        → Proceeds offset (turn order_id page offset all)
    turn-Proceeds page offset all kept =
        elim (Result-cases (take_records order_id page.results all)) [
          | inl (all', taken) ↦
              rw (turn, taken)
                (advance-Proceeds page offset all'
                  (take_records-Always page.results all all' taken kept))
          | inr (e, refused) ↦ rw (turn, refused) tt
        ]

    -- How a scan may end, after the answer to its first request: a panic only at a page with a negative count,
    -- else an error, or records that are all of the order.
    abbrev pub OfOrder :
        Result Failure (Page (PurchaseOrderExtraLine F))
        → ScanEnd (List (PurchaseOrderExtraLine F))
        → Type 0
    OfOrder first unfinished = ⊥
    OfOrder first panicked =
        (page : Page (PurchaseOrderExtraLine F)) × (n : ℕ) × (first ≡ ok page)
        × (page.count ≡ negsuc n)
    OfOrder first (returned (err e)) = Unit
    OfOrder first (returned (ok lines)) = Always is_of lines

    module _ (first : Result Failure (Page (PurchaseOrderExtraLine F))) where
      ended-OfOrder :
          (offset : ℕ) (r : Result Failure (List (PurchaseOrderExtraLine F)))
          → Proceeds offset (finished r)
          → OfOrder first (returned r)
      ended-OfOrder offset (ok lines) h = h
      ended-OfOrder offset (err e) h = tt

      module _ {W : Type 0} (client : OrderClient F W) where
        scan_pages-OfOrder :
            (fuel : ℕ) (page : Page (PurchaseOrderExtraLine F)) (offset : ℕ)
            (all : List (PurchaseOrderExtraLine F)) (w : W)
            → Always is_of all
            → max_extra_line_scan - offset < fuel
            → OfOrder first (scan_pages client order_id fuel page offset all w).0
        unfolding scan_pages
        scan_pages-OfOrder zero page offset all w kept enough = absurd (omega (arith, enough))
        scan_pages-OfOrder (suc fuel) page offset all w kept enough =
            elim (Turn-cases (turn order_id page offset all)) [
              | inl (r, e) ↦
                  rw (scan_pages, e)
                    (ended-OfOrder offset r
                      (subst (Proceeds offset) e (turn-Proceeds page offset all kept)))
              | inr (offset', all', e) ↦
                  let (further, below, kept') =
                    subst (Proceeds offset) e (turn-Proceeds page offset all kept) in
                  elim (Result-cases
                    (client.search_extra_lines_page order_id (pos 100) (pos offset') w).0) [
                      | inr (x, failed) ↦ rw (scan_pages, e, failed) tt
                      | inl (page', got) ↦
                          rw (scan_pages, e, got)
                            (scan_pages-OfOrder fuel page' offset' all' _ kept'
                              (omega (arith, enough, further, below)))
                    ]
            ]

        scan_within-OfOrder :
            (page : Page (PurchaseOrderExtraLine F)) (n : ℤ) (w : W)
            → first ≡ ok page
            → page.count ≡ n
            → OfOrder first (scan_within client order_id page n w).0
        scan_within-OfOrder page (negsuc n) w answered counted = (page, n, answered, counted)
        scan_within-OfOrder page (pos n) w answered counted =
            elim (Bool-cases (ltb max_extra_line_scan n)) [
              | inl many ↦ rw (scan_within, many) tt
              | inr few ↦
                  rw (scan_within, few)
                    (scan_pages-OfOrder (suc max_extra_line_scan) page 0 [] w (Always-nil is_of)
                      (omega arith))
            ]

    module _ {W : Type 0} (client : OrderClient F W) where
      -- Whatever pages InvenTree answers with, the scan for extra lines comes to an end within the 1,001 turns
      -- that its loop is given. It panics only when the first page has a negative count; otherwise it
      -- returns, and if it is no error, every line that it returns is of the order that was asked for.
      pub scan_extra_lines-OfOrder :
          (w : W)
          → OfOrder
              (client.search_extra_lines_page order_id (pos 100) (pos 0) w).0
              (scan_extra_lines client order_id w).0
      unfolding scan_extra_lines
      scan_extra_lines-OfOrder w =
          let first = client.search_extra_lines_page order_id (pos 100) (pos 0) w in
          elim (Result-cases first.0) [
            | inr (e, failed) ↦ rw (scan_extra_lines, scan_from, failed) tt
            | inl (page, got) ↦
                rw (scan_extra_lines, scan_from, got)
                  (scan_within-OfOrder (ok page) client page page.count first.1 refl refl)
          ]

      -- The scan panics whenever the first page has a negative count.
      pub scan_extra_lines_panics :
          (w : W) (page : Page (PurchaseOrderExtraLine F)) (n : ℕ)
          → (client.search_extra_lines_page order_id (pos 100) (pos 0) w).0 ≡ ok page
          → page.count ≡ negsuc n
          → (scan_extra_lines client order_id w).0 ≡ panicked
      unfolding scan_extra_lines
      scan_extra_lines_panics w page n got negative =
          rw (scan_extra_lines, scan_from, got, scan_within, negative) refl
