-- ===== src/Purchase/Orders.antt =====
-- Purchase orders, their lines and what the tools ask of InvenTree about them (internal/inventree/models.go,
-- internal/tools/purchasing_tools.go and the files of the tools). The client works on a world `W`, which
-- may change in any way at each call. The links that the server adds to outputs are left out.
use mathlib.Core.List.{Perm}
use inventree_mcp.Prelude.{
  String, Option, none, some, List, [], ◌∷◌, map, ◌==◌, if◌then◌else◌, ℤ, pos, Result,
}
use inventree_mcp.Inventree.Pagination.{Page}
use inventree_mcp.Stock.Decimal.{Floats, exceeds}
use inventree_mcp.Stock.Execute.{Failure}

abbrev pub purchase_order_status_pending : ℤ
purchase_order_status_pending = pos 10

abbrev pub purchase_order_status_placed : ℤ
purchase_order_status_placed = pos 20

abbrev pub purchase_order_status_on_hold : ℤ
purchase_order_status_on_hold = pos 25

abbrev pub purchase_order_status_complete : ℤ
purchase_order_status_complete = pos 30

abbrev pub purchase_order_status_cancelled : ℤ
purchase_order_status_cancelled = pos 40

pub record PurchaseOrder : Type 0 where
  pub pk : ℤ
  pub reference : String
  pub supplier : ℤ
  pub supplier_reference : String
  pub description : String
  pub creation_date : Option String
  pub start_date : Option String
  pub target_date : Option String
  pub order_currency : Option String
  pub destination : Option ℤ
  pub status : ℤ
  pub total_price : Option String

pub record PurchaseOrderLineItem (F : Type 0) : Type 0 where
  pub pk : ℤ
  pub order : ℤ
  pub part : ℤ
  pub internal_part : Option ℤ
  pub destination : Option ℤ
  pub line : String
  pub reference : String
  pub notes : String
  pub quantity : F
  pub received : F
  pub target_date : Option String
  pub purchase_price : Option String
  pub purchase_price_currency : String
  pub link : String
  pub discount : F
  pub project_code : Option ℤ
  pub project_code_label : String

pub record PurchaseOrderExtraLine (F : Type 0) : Type 0 where
  pub pk : ℤ
  pub order : ℤ
  pub line : String
  pub reference : String
  pub description : String
  pub link : String
  pub notes : String
  pub quantity : F
  pub price : Option String
  pub price_currency : String
  pub target_date : Option String
  pub discount : F
  pub total_price : Option String
  pub project_code : Option ℤ
  pub project_code_label : String

-- The four requests that move an order.
pub data Transition : Type 0 where
  hold issue cancel complete : ℤ → Transition

pub record OrderClient (F W : Type 0) : Type 0 where
  pub get_purchase_order : ℤ → W → Result Failure PurchaseOrder × W
  pub search_purchase_order_lines : ℤ → W → Result Failure (List (PurchaseOrderLineItem F)) × W
  -- `SearchPurchaseOrderExtraLinesPage` with an order, a limit and an offset
  pub search_extra_lines_page :
      (order limit offset : ℤ) → W → Result Failure (Page (PurchaseOrderExtraLine F)) × W
  pub transition : Transition → W → Option Failure × W

-- `sort.Slice` by the primary key
pub record Sorting (A : Type 0) : Type 0 where
  pub sort : List A → List A
  pub permutes : (xs : List A) → Perm (sort xs) xs

module _ {F : Type 0} (project : String → String) where
  -- `sanitizePurchaseOrderLine`, with `projectExternalURL` as a parameter
  abbrev pub sanitize_line : PurchaseOrderLineItem F → PurchaseOrderLineItem F
  sanitize_line record_ =
      if record_.link == "" then record_ else record record_ { link = project record_.link }

  abbrev pub sanitize_lines : List (PurchaseOrderLineItem F) → List (PurchaseOrderLineItem F)
  sanitize_lines lines = map sanitize_line lines

  abbrev pub sanitize_extra_line : PurchaseOrderExtraLine F → PurchaseOrderExtraLine F
  sanitize_extra_line record_ =
      if record_.link == "" then record_ else record record_ { link = project record_.link }

module _ {F : Type 0} ⦃fl : Floats F⦄ where
  -- `firstReceivedPurchaseOrderLine`, as the line
  unfoldable pub first_received : List (PurchaseOrderLineItem F) → Option (PurchaseOrderLineItem F)
  first_received [] = none
  first_received (line ∷ lines) =
      let rest = first_received lines in
      if exceeds line.received fl.tolerance then some line else rest

  -- `firstOutstandingPurchaseOrderLine`, as the line
  unfoldable pub first_outstanding :
      List (PurchaseOrderLineItem F) → Option (PurchaseOrderLineItem F)
  first_outstanding [] = none
  first_outstanding (line ∷ lines) =
      let rest = first_outstanding lines in
      if exceeds (fl.sub line.quantity line.received) fl.tolerance then some line else rest
