-- ===== src/Stock/Item.antt =====
-- The data of the single-item stock tools (internal/tools/stock_adjustment_tools.go) and of stock items
-- (internal/inventree/models.go), without the links that the server adds to outputs. Go's `float64` is a type `F`.
use inventree_mcp.Prelude.{
  String, Option, none, some, Bool, true, false, ◌==◌, not, if◌then◌else◌, ℤ, eq_int,
}
use inventree_mcp.Text.{trim_space}

pub record StockItem (F : Type 0) : Type 0 where
  pub pk : ℤ
  pub part : ℤ
  pub location : Option ℤ
  pub quantity : F
  pub serial : Option String
  pub batch : Option String
  pub expiry_date : Option String
  pub packaging : Option String
  pub link : String
  pub status : ℤ
  pub status_text : Option String
  pub status_custom_key : Option ℤ
  pub delete_on_deplete : Bool
  pub in_stock : Bool
  pub is_building : Bool
  pub owner : Option ℤ
  pub supplier_part : Option ℤ
  pub build : Option ℤ
  pub consumed_by : Option ℤ
  pub customer : Option ℤ
  pub sales_order : Option ℤ
  pub belongs_to : Option ℤ
  pub parent : Option ℤ
  pub allocated : Option F
  pub installed_items : Option ℤ
  pub child_items : Option ℤ
  pub tracking_items : Option ℤ
  pub purchase_price : Option String
  pub purchase_price_currency : String
  pub creation_date : Option String
  pub stocktake_date : Option String
  pub updated : Option String
  pub purchase_order : Option ℤ
  pub purchase_order_reference : Option String

pub record StockStateSnapshot (F : Type 0) : Type 0 where
  pub stock_item_id : ℤ
  pub part_id : ℤ
  pub quantity : F
  pub location_id : Option ℤ
  pub status : ℤ
  pub batch : Option String
  pub serial : Option String
  pub packaging : Option String
  pub delete_on_deplete : Bool

pub record StockDepletionContext (F : Type 0) : Type 0 where
  pub in_stock : Bool
  pub allocated : Option F
  pub is_building : Bool
  pub build_id : Option ℤ
  pub consumed_by_id : Option ℤ
  pub belongs_to_id : Option ℤ
  pub parent_id : Option ℤ
  pub installed_items : Option ℤ
  pub child_items : Option ℤ
  pub tracking_items : Option ℤ
  pub owner_id : Option ℤ
  pub supplier_part_id : Option ℤ
  pub purchase_order_id : Option ℤ
  pub customer_id : Option ℤ
  pub sales_order_id : Option ℤ

-- `StockAdjustmentPlan`; the contexts of the transfer and install tools are no part of it here.
pub record StockAdjustmentPlan (F : Type 0) : Type 0 where
  pub action : String
  pub before : StockStateSnapshot F
  pub after : StockStateSnapshot F
  pub reason : String
  pub high_risk : Bool
  pub risk_reason : String
  pub will_delete : Bool
  pub depletion : Option (StockDepletionContext F)

pub record Clarification : Type 0 where
  pub question : String
  pub field : String
  pub reason : String
  pub retry : String

pub record StockAdjustmentFailure : Type 0 where
  pub action : String
  pub message : String
  pub recovery_plan : String

pub record StockAdjustmentOutput (F : Type 0) : Type 0 where
  pub status : String
  pub dry_run : Bool
  pub plan : Option (StockAdjustmentPlan F)
  pub plan_hash : String
  pub item : Option (StockItem F)
  pub failure : Option StockAdjustmentFailure
  pub clarification : Option Clarification
  pub verified : Bool
  pub recovered : Bool

abbrev pub status_ok : String
status_ok = "ok"

abbrev pub status_clarification_required : String
status_clarification_required = "clarification_required"

abbrev pub status_not_found : String
status_not_found = "not_found"

abbrev pub status_partial_failure : String
status_partial_failure = "partial_failure"

abbrev pub equal_int_ptr : Option ℤ → Option ℤ → Bool
equal_int_ptr none none = true
equal_int_ptr (some a) (some b) = eq_int a b
equal_int_ptr _ _ = false

abbrev pub equal_string_ptr : Option String → Option String → Bool
equal_string_ptr none none = true
equal_string_ptr (some a) (some b) = a == b
equal_string_ptr _ _ = false

module _ {F : Type 0} where
  -- `stockItemHasSerial`
  abbrev pub has_serial : StockItem F → Bool
  has_serial item = elim item.serial [ none ↦ false | some serial ↦ not (trim_space serial == "") ]

  abbrev pub snapshot_stock_item : StockItem F → StockStateSnapshot F
  snapshot_stock_item item = record {
    stock_item_id = item.pk;
    part_id = item.part;
    quantity = item.quantity;
    location_id = item.location;
    status = item.status;
    batch = item.batch;
    serial = item.serial;
    packaging = item.packaging;
    delete_on_deplete = item.delete_on_deplete;
  }

  abbrev pub stock_depletion_context : StockItem F → StockDepletionContext F
  stock_depletion_context item = record {
    in_stock = item.in_stock;
    allocated = item.allocated;
    is_building = item.is_building;
    build_id = item.build;
    consumed_by_id = item.consumed_by;
    belongs_to_id = item.belongs_to;
    parent_id = item.parent;
    installed_items = item.installed_items;
    child_items = item.child_items;
    tracking_items = item.tracking_items;
    owner_id = item.owner;
    supplier_part_id = item.supplier_part;
    purchase_order_id = item.purchase_order;
    customer_id = item.customer;
    sales_order_id = item.sales_order;
  }

  -- `StockAdjustmentOutput{Status: StatusOK, DryRun: dryRun}`
  abbrev pub start_output : Bool → StockAdjustmentOutput F
  start_output dry_run = record {
    status = status_ok;
    dry_run = dry_run;
    plan = none;
    plan_hash = "";
    item = none;
    failure = none;
    clarification = none;
    verified = false;
    recovered = false;
  }

  -- `sanitizedStockItem`, with `projectExternalURL` as a parameter
  abbrev pub sanitized_stock_item : (String → String) → StockItem F → StockItem F
  sanitized_stock_item project item =
      if item.link == "" then item else record item { link = project item.link }

  abbrev pub stock_item_recovery_projection : StockItem F → StockItem F
  stock_item_recovery_projection item = record item { link = "" }
