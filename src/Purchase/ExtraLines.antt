-- ===== src/Purchase/ExtraLines.antt =====
-- `scanPurchaseOrderExtraLines` of internal/tools/purchase_order_extra_line_tools.go: all extra lines of an
-- order, page by page, within a bound. Error texts are kept as messages.
pub mod Scan
use inventree_mcp.Prelude.{
  ℕ, zero, suc, ◌+◌, String, Option, none, some, List, [], ◌∷◌, ◌++◌, Bool, true, false, ◌==◌, ◌||◌,
  not, leb, reaches, eq_int, if◌then◌else◌, ℤ, pos, negsuc, ltb, length, Result, ok, err,
}
use inventree_mcp.Inventree.Pagination.{Page}
use inventree_mcp.Stock.Execute.{Failure, message}
use inventree_mcp.Purchase.Orders.{PurchaseOrderExtraLine, OrderClient, Sorting}

abbrev pub max_extra_line_scan : ℕ
max_extra_line_scan = 1000

abbrev pub no_next : Option String → Bool
no_next none = true
no_next (some url) = url == ""

abbrev pub is_empty : {A : Type 0} → List A → Bool
is_empty [] = true
is_empty (x ∷ xs) = false

-- How a scan ends: Go returns, or panics, or (never, see `Scan`) the fuel has run out.
pub data ScanEnd (A : Type 0) : Type 0 where
  returned : Result Failure A → ScanEnd A
  panicked unfinished : ScanEnd A

-- What a turn of the loop does: the end, or the next request.
pub data Turn (A : Type 0) : Type 0 where
  finished : Result Failure A → Turn A
  request : (offset : ℕ) → A → Turn A

module _ {F : Type 0} where
  -- the records of a page, when all of them are of the order
  unfoldable pub take_records :
      ℤ
      → List (PurchaseOrderExtraLine F)
      → List (PurchaseOrderExtraLine F)
      → Result Failure (List (PurchaseOrderExtraLine F))
  take_records order_id [] all = ok all
  take_records order_id (r ∷ rs) all =
      let rest = take_records order_id rs (all ++ (r ∷ [])) in
      if eq_int r.order order_id
      then rest
      else err (message "extra-line recovery order verification")

module _ {F : Type 0} ⦃sorting : Sorting (PurchaseOrderExtraLine F)⦄ where
  -- the turn from the offset on
  abbrev pub advance :
      Page (PurchaseOrderExtraLine F)
      → ℕ
      → List (PurchaseOrderExtraLine F)
      → Turn (List (PurchaseOrderExtraLine F))
  advance page offset all =
      if no_next page.next || reaches offset page.count
      then finished (ok (sorting.sort all))
      else if is_empty page.results || leb max_extra_line_scan offset
      then finished
          (err (message "extra-line recovery scan could not prove a complete bounded result"))
      else request offset all

  abbrev pub turn_of :
      Page (PurchaseOrderExtraLine F)
      → ℕ
      → Result Failure (List (PurchaseOrderExtraLine F))
      → Turn (List (PurchaseOrderExtraLine F))
  turn_of page offset (err e) = finished (err e)
  turn_of page offset (ok all) = advance page (offset + length page.results) all

  abbrev pub turn :
      ℤ
      → Page (PurchaseOrderExtraLine F)
      → ℕ
      → List (PurchaseOrderExtraLine F)
      → Turn (List (PurchaseOrderExtraLine F))
  turn order_id page offset all = turn_of page offset (take_records order_id page.results all)

  module _ {W : Type 0} (client : OrderClient F W) (order_id : ℤ) where
    -- the loop
    unfoldable pub scan_pages :
        ℕ
        → Page (PurchaseOrderExtraLine F)
        → ℕ
        → List (PurchaseOrderExtraLine F)
        → W
        → ScanEnd (List (PurchaseOrderExtraLine F)) × W
    scan_pages zero page offset all w = (unfinished, w)
    scan_pages (suc fuel) page offset all w = elim (turn order_id page offset all) [
      | finished r ↦ (returned r, w)
      | request offset' all' ↦
          let (got, w') = client.search_extra_lines_page order_id (pos 100) (pos offset') w in
          elim got [
            | err e ↦ (returned (err (message "extra-line recovery scan")), w')
            | ok page' ↦ scan_pages fuel page' offset' all' w'
          ]
    ]

    -- `make([]…, 0, page.Count)` panics on a negative count
    abbrev pub scan_within :
        Page (PurchaseOrderExtraLine F) → ℤ → W → ScanEnd (List (PurchaseOrderExtraLine F)) × W
    scan_within page (negsuc n) w = (panicked, w)
    scan_within page (pos n) w =
        if ltb max_extra_line_scan n
        then (
          returned (err (message "purchase order has more than the 1000-extra-line safety bound")),
          w,
        )
        else scan_pages (suc max_extra_line_scan) page 0 [] w

    abbrev pub scan_from :
        Result Failure (Page (PurchaseOrderExtraLine F)) × W
        → ScanEnd (List (PurchaseOrderExtraLine F)) × W
    scan_from (err e, w) = (returned (err (message "extra-line recovery scan")), w)
    scan_from (ok page, w) = scan_within page page.count w

    unfoldable pub scan_extra_lines : W → ScanEnd (List (PurchaseOrderExtraLine F)) × W
    scan_extra_lines w = scan_from (client.search_extra_lines_page order_id (pos 100) (pos 0) w)
