-- ===== src/Stock/Adjust/Replies.antt =====
-- The inputs of the stock tools of internal/tools/stock_adjustment_tools.go, the status codes, and what
-- the tools answer instead of a plan.
use inventree_mcp.Prelude.{
  String, Option, none, some, Bool, false, ◌||◌, if◌then◌else◌, ℤ, pos, eq_int, Result, ok, err,
}
use inventree_mcp.Stock.Item.{
  StockItem, StockAdjustmentPlan, StockAdjustmentOutput, snapshot_stock_item,
}
use inventree_mcp.Stock.Decimal.{Floats, normalized_stock_decimal}
use inventree_mcp.Stock.Execute.{message, Confirming, Reply, stock_clarification, refuse}

pub record AdjustStockQuantityInput (F : Type 0) : Type 0 where
  pub confirming : Confirming
  pub stock_item_id : ℤ
  pub delta : F
  pub reason : String

pub record SetStockStatusInput : Type 0 where
  pub confirming : Confirming
  pub stock_item_id : ℤ
  pub status : ℤ
  pub reason : String

pub record StocktakeAdjustmentInput (F : Type 0) : Type 0 where
  pub confirming : Confirming
  pub stock_item_id : ℤ
  pub observed_quantity : F
  pub reason : String

-- `stockStatusNames`
abbrev pub stock_status_name : ℤ → Option String
stock_status_name status =
    if eq_int status (pos 10)
    then some "OK"
    else if eq_int status (pos 50)
    then some "Attention needed"
    else if eq_int status (pos 55)
    then some "Damaged"
    else if eq_int status (pos 60)
    then some "Destroyed"
    else if eq_int status (pos 65)
    then some "Rejected"
    else if eq_int status (pos 70)
    then some "Lost"
    else if eq_int status (pos 75)
    then some "Quarantined"
    else if eq_int status (pos 85)
    then some "Returned"
    else none

abbrev pub high_risk_stock_status : ℤ → Bool
high_risk_stock_status status =
    eq_int status (pos 60) || eq_int status (pos 65) || eq_int status (pos 70)

abbrev pub risk_text : Bool → String → String
risk_text high text = if high then text else ""

module _ {F : Type 0} ⦃fl : Floats F⦄ where
  abbrev pub decimal : Reply F → F → Bool → Result (Reply F) (String × F)
  decimal failed quantity allow_zero = elim (normalized_stock_decimal quantity allow_zero) [
    | none ↦ err failed
    | some d ↦ ok d
  ]

  abbrev pub unless : Bool → Reply F → Result (Reply F) (Unit {0})
  unless test reply = if test then err reply else ok tt

  abbrev pub out_of_bounds : StockAdjustmentOutput F → Reply F
  out_of_bounds out = refuse out (message "InvenTree returned stock quantity outside schema bounds")

  abbrev pub relative_serialized : StockAdjustmentOutput F → Reply F
  relative_serialized out =
      stock_clarification out "How should this serialized stock item be handled?" "delta"
        "InvenTree does not apply relative quantity adjustments to serialized stock; adjust the individual serialized items instead"
        "stock_item_id"

  abbrev pub unusable_delta : StockAdjustmentOutput F → Reply F
  unusable_delta out =
      stock_clarification out "What non-zero schema-valid quantity change should be applied?"
        "delta" "delta must be finite, non-zero, and fit the InvenTree decimal bounds" "delta"

  abbrev pub negative_result : StockAdjustmentOutput F → Reply F
  negative_result out =
      stock_clarification out "What quantity change keeps the stock item non-negative?" "delta"
        "the requested delta would produce an invalid stock quantity" "delta"

  abbrev pub deleting_delta : StockAdjustmentOutput F → Reply F
  deleting_delta out =
      stock_clarification out "How should this delete-on-deplete stock item be handled?" "delta"
        "reducing this item to zero would delete it, which is outside the non-destructive stock adjustment contract"
        "delta"

  abbrev pub absolute_serialized : StockAdjustmentOutput F → Reply F
  absolute_serialized out =
      stock_clarification out "How should this serialized stock item be counted?"
        "observed_quantity"
        "InvenTree does not apply absolute quantity counts to serialized stock; count the individual serialized items instead"
        "stock_item_id"

  abbrev pub unusable_count : StockAdjustmentOutput F → Reply F
  unusable_count out =
      stock_clarification out "What non-negative schema-valid quantity was physically observed?"
        "observed_quantity"
        "observed_quantity must be finite, non-negative, and fit the InvenTree decimal bounds"
        "observed_quantity"

  abbrev pub deleting_count : StockAdjustmentOutput F → Reply F
  deleting_count out =
      stock_clarification out "How should this delete-on-deplete stock item be handled?"
        "observed_quantity"
        "counting this item to zero would delete it, which is outside the non-destructive stocktake contract"
        "observed_quantity"

  abbrev pub unchanged_count : StockAdjustmentOutput F → Reply F
  unchanged_count out =
      stock_clarification out "What different absolute quantity was physically observed?"
        "observed_quantity"
        "the observed quantity already matches current stock; no mutation is needed"
        "observed_quantity"

  abbrev pub unchanged_status : StockAdjustmentOutput F → Reply F
  unchanged_status out =
      stock_clarification out "Which different stock status should be applied?" "status"
        "the selected stock item already has this status; no mutation is needed" "status"

  abbrev pub plan_of :
      (action : String)
      → (before after : StockItem F) → (reason : String) → Bool
      → String
      → StockAdjustmentPlan F
  plan_of action before after reason high risk = record {
    action = action;
    before = snapshot_stock_item before;
    after = snapshot_stock_item after;
    reason = reason;
    high_risk = high;
    risk_reason = risk;
    will_delete = false;
    depletion = none;
  }
