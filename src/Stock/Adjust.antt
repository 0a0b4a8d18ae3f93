-- ===== src/Stock/Adjust.antt =====
-- The tools adjust_stock_quantity, set_stock_status and stocktake_adjustment of
-- internal/tools/stock_adjustment_tools.go.
pub mod Bounds
pub mod Outcome
mod Replies
pub use Replies.*
pub mod Refusal
pub mod Safety
use inventree_mcp.Prelude.{
  String, Option, none, some, true, false, ◌&&◌, if◌then◌else◌, ℤ, eq_int, Result, ok, err, ◌>>=◌,
}
use Prim.Native.String.{◌++◌ as ◌⧺◌}
use inventree_mcp.Text.{trim_space}
use inventree_mcp.Stock.Plans.{Planned, PlanStore}
use inventree_mcp.Stock.Item.{StockItem, StockAdjustmentPlan, has_serial, start_output}
use inventree_mcp.Stock.Decimal.{Floats}
use inventree_mcp.Stock.Execute.{
  Mutation, add_stock, remove_stock, count_stock, change_stock_status, StockClient, Confirming,
  Surroundings, Reply, stock_clarification, near, prepare_stock_adjustment, execute_stock_plan,
}

module _ {F : Type 0} ⦃fl : Floats F⦄ where
  -- `adjustStockQuantity` between the read and the execution
  unfoldable pub adjust_plan :
      AdjustStockQuantityInput F → StockItem F → Result (Reply F) (StockAdjustmentPlan F × Mutation)
  adjust_plan input before = do
    let out = start_output input.confirming.dry_run
    _ ← unless (has_serial before) (relative_serialized out)
    delta ← decimal (unusable_delta out) (fl.abs input.delta) false
    was ← decimal (out_of_bounds out) before.quantity true
    after ← decimal (negative_result out) (fl.add was.1 (fl.copysign delta.1 input.delta)) true
    _ ← unless (fl.same after.1 fl.nought && before.delete_on_deplete) (deleting_delta out)
    let before = record before { quantity = was.1 }
    let decrease = fl.less input.delta fl.nought
    let plan =
        plan_of "adjust_stock_quantity" before (record before { quantity = after.1 })
          (trim_space input.reason) decrease (risk_text decrease "quantity decrease removes stock")
    ok (
      plan,
      if fl.less fl.nought input.delta
          then add_stock input.stock_item_id delta.0 plan.reason
          else remove_stock input.stock_item_id delta.0 plan.reason,
    )

  -- `setStockStatus` between the read and the execution
  unfoldable pub status_plan :
      SetStockStatusInput → StockItem F → Result (Reply F) (StockAdjustmentPlan F × Mutation)
  status_plan input before = elim (stock_status_name input.status) [
    | none ↦ err (
        stock_clarification (start_output input.confirming.dry_run)
          "Which schema-supported stock status should be used?" "status"
          "status must be one of the InvenTree stock status codes documented for this API version"
          "status")
    | some name ↦
        unless (eq_int input.status before.status)
          (unchanged_status (start_output input.confirming.dry_run))
        >>= λ _. ok (
          plan_of "set_stock_status" before (record before { status = input.status })
              (trim_space input.reason) (high_risk_stock_status input.status)
              (risk_text (high_risk_stock_status input.status)
                ("status transition to " ⧺ (name ⧺ " is a write-off state"))),
          change_stock_status input.stock_item_id input.status (trim_space input.reason),
        )
  ]

  -- `stocktakeAdjustment` between the read and the execution
  unfoldable pub stocktake_plan :
      StocktakeAdjustmentInput F → StockItem F → Result (Reply F) (StockAdjustmentPlan F × Mutation)
  stocktake_plan input before = do
    let out = start_output input.confirming.dry_run
    _ ← unless (has_serial before) (absolute_serialized out)
    seen ← decimal (unusable_count out) input.observed_quantity true
    was ← decimal (out_of_bounds out) before.quantity true
    _ ← unless (fl.same seen.1 fl.nought && before.delete_on_deplete) (deleting_count out)
    _ ← unless (near seen.1 was.1) (unchanged_count out)
    let before = record before { quantity = was.1 }
    let lower = fl.less seen.1 was.1
    ok (
      plan_of "stocktake_adjustment" before (record before { quantity = seen.1 })
          (trim_space input.reason) lower
          (risk_text lower "observed quantity is lower than recorded quantity"),
      count_stock input.stock_item_id seen.0 (trim_space input.reason),
    )

  module _ {W C : Type 0} ⦃planned : Planned (StockAdjustmentPlan F)⦄ (project : String → String)
      (client : StockClient F W) where
    -- the shape that the three handlers share
    unfoldable pub run_stock_tool :
        Option (PlanStore C)
        → Surroundings C
        → Confirming
        → ℤ
        → String
        → (StockItem F → Result (Reply F) (StockAdjustmentPlan F × Mutation))
        → W
        → Reply F × Option (PlanStore C) × W
    run_stock_tool store env c id reason plan_for w =
        let (got, w₁) = prepare_stock_adjustment client c.dry_run id reason w in
        elim (got >>= plan_for) [
          | err reply ↦ (reply, store, w₁)
          | ok (plan, m) ↦ execute_stock_plan project client store env c plan m w₁
        ]

    abbrev pub adjust_stock_quantity :
        Option (PlanStore C)
        → Surroundings C
        → AdjustStockQuantityInput F
        → W
        → Reply F × Option (PlanStore C) × W
    adjust_stock_quantity store env input w =
        run_stock_tool store env input.confirming input.stock_item_id input.reason
          (adjust_plan input) w

    abbrev pub set_stock_status :
        Option (PlanStore C)
        → Surroundings C
        → SetStockStatusInput
        → W
        → Reply F × Option (PlanStore C) × W
    set_stock_status store env input w =
        run_stock_tool store env input.confirming input.stock_item_id input.reason
          (status_plan input) w

    abbrev pub stocktake_adjustment :
        Option (PlanStore C)
        → Surroundings C
        → StocktakeAdjustmentInput F
        → W
        → Reply F × Option (PlanStore C) × W
    stocktake_adjustment store env input w =
        run_stock_tool store env input.confirming input.stock_item_id input.reason
          (stocktake_plan input) w
