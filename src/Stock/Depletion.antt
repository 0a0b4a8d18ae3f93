-- ===== src/Stock/Depletion.antt =====
-- The tool deplete_stock_item (internal/tools/stock_depletion_tools.go): the complete removal of an item
-- that InvenTree then deletes. As for the other stock tools, what a nil result and `TextResult` add to
-- the status, the fields of a retry and the text of an error are left out.
mod Replies
pub use Replies.*
pub mod Hazards
pub mod Removal
pub mod Refusal
pub mod Absence
use inventree_mcp.Prelude.{
  String, Option, none, some, true, false, ◌==◌, ◌||◌, not, if◌then◌else◌, pos, eq_int, Result, ok,
  err, ◌>>=◌,
}
use inventree_mcp.Text.{trim_space}
use inventree_mcp.Stock.Plans
use inventree_mcp.Stock.Plans.{Planned, PlanStore, issue_plan, consume_plan}
use inventree_mcp.Stock.Item.{
  StockItem, StockAdjustmentPlan, StockAdjustmentOutput, has_serial, snapshot_stock_item,
  stock_depletion_context, start_output,
}
use inventree_mcp.Stock.Decimal.{Floats}
use inventree_mcp.Stock.Execute.{
  message, Mutation, remove_stock, StockClient, Surroundings, Reply, refuse, is_rejection,
}
use inventree_mcp.Stock.Adjust.{unless, decimal}

module _ {F : Type 0} where
  module _ ⦃fl : Floats F⦄ where
    -- `unsafeStockDepletion`: the reply, or nothing when the item is safe to deplete
    unfoldable pub unsafe_stock_depletion :
        StockAdjustmentOutput F → StockItem F → Result (Reply F) (Unit {0})
    unsafe_stock_depletion out item = do
      _ ← unless (has_serial item) (hazard out serialized)
      _ ← unless (not item.delete_on_deplete) (hazard out kept_when_depleted)
      _ ← unless (not item.in_stock) (hazard out out_of_stock)
      amount ← known item.allocated (hazard out allocation_unknown)
      _ ← unless (not (fl.same amount fl.nought)) (hazard out allocated)
      _ ← unless item.is_building (hazard out building)
      _ ← unless (is_some item.consumed_by) (hazard out consumed)
      _ ← unless (is_some item.belongs_to) (hazard out installed)
      _ ← unless (is_some item.parent) (hazard out child)
      inside ← known item.installed_items (hazard out installed_unknown)
      _ ← unless (not (eq_int inside (pos 0))) (hazard out has_installed)
      below ← known item.child_items (hazard out children_unknown)
      unless (not (eq_int below (pos 0))) (hazard out has_children)

    abbrev pub depletion_of : StockItem F → String → StockAdjustmentPlan F
    depletion_of before reason = record {
      action = "deplete_stock_item";
      before = snapshot_stock_item before;
      after = record (snapshot_stock_item before) { quantity = fl.nought };
      reason = reason;
      high_risk = true;
      risk_reason = "complete depletion will delete the stock-item record";
      will_delete = true;
      depletion = some (stock_depletion_context before);
    }

    -- the handler between the read and the execution
    unfoldable pub depletion_plan :
        DepleteStockItemInput → StockItem F → Result (Reply F) (StockAdjustmentPlan F × String)
    depletion_plan input before = do
      let out = start_output input.confirming.dry_run
      _ ← unless (not (eq_int before.pk input.stock_item_id)) (mismatched out)
      quantity ← decimal (not_positive out) before.quantity false
      _ ← unsafe_stock_depletion out (record before { quantity = quantity.1 })
      ok (
        depletion_of (record before { quantity = quantity.1 }) (trim_space input.reason),
        quantity.0,
      )

    module _ {W : Type 0} (project : String → String) (client : StockClient F W) where
      -- `executeStockDepletion` from the mutation on
      unfoldable pub remove_and_verify :
          StockAdjustmentOutput F → StockAdjustmentPlan F → Mutation → W → Reply F × W
      remove_and_verify out plan m w =
          let (answered, w₁) = client.mutate m w in
          let (current, w₂) = client.get_stock_item plan.before.stock_item_id w₁ in
          elim answered [
            | none ↦ (verify_stock_depletion project out false current, w₂)
            | some e ↦
                if is_context_error e || is_rejection e
                then (refuse out e, w₁)
                else (verify_stock_depletion project out true current, w₂)
          ]

    module _ {W C : Type 0} ⦃planned : Planned (StockAdjustmentPlan F)⦄ (project : String → String)
        (client : StockClient F W) where
      -- `executeStockDepletion`; a nil store is `none`
      unfoldable pub execute_stock_depletion :
          Option (PlanStore C)
          → Surroundings C
          → DepleteStockItemInput
          → StockAdjustmentPlan F
          → String
          → W
          → Reply F × Option (PlanStore C) × W
      execute_stock_depletion none env input plan quantity w = (
        refuse (record (start_output input.confirming.dry_run) { plan = some plan })
            (message "stock plan store is unavailable"),
        none,
        w,
      )
      execute_stock_depletion (some store) env input plan quantity w =
          let out = record (start_output input.confirming.dry_run) { plan = some plan } in
          let (answered, after_issue) = issue_plan store env.ctx env.now env.draw plan in
          let (valid, after_consume) =
            consume_plan store env.ctx input.confirming.plan_hash env.now plan in
          let (reply, w₁) =
            remove_and_verify project client out plan
              (remove_stock input.stock_item_id quantity plan.reason) w in
          if input.confirming.dry_run
          then (issued_depletion out answered, some after_issue, w)
          else if not input.confirming.confirm
          then (undecided out, some store, w)
          else if input.confirming.plan_hash == ""
          then (unbacked out, some store, w)
          else if valid
          then (reply, some after_consume, w₁)
          else (unbacked out, some after_consume, w)

      unfoldable pub deplete_stock_item :
          Option (PlanStore C)
          → Surroundings C
          → DepleteStockItemInput
          → W
          → Reply F × Option (PlanStore C) × W
      deplete_stock_item store env input w =
          let out = start_output input.confirming.dry_run in
          elim (check_depletion out input) [
            | err reply ↦ (reply, store, w)
            | ok _ ↦
                let (got, w₁) = client.get_stock_item input.stock_item_id w in
                elim (read_depleted out got >>= depletion_plan input) [
                  | err reply ↦ (reply, store, w₁)
                  | ok (plan, quantity) ↦ execute_stock_depletion store env input plan quantity w₁
                ]
          ]
