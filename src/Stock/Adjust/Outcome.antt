-- ===== src/Stock/Adjust/Outcome.antt =====
-- adjust_stock_quantity and stocktake_adjustment of internal/tools/stock_adjustment_tools.go: what
-- reaches InvenTree, and what a success says.
use inventree_mcp.Prelude.{String, Option, some, List, [], false, ◌≡◌, ◌⊎◌, inl, inr}
use inventree_mcp.Stock.Plans.{Planned, PlanStore, new_plan_store}
use inventree_mcp.Stock.Plans.History.{PlanCall, run_plans}
use inventree_mcp.Stock.Item.{StockAdjustmentPlan}
use inventree_mcp.Stock.Decimal.{Floats}
use inventree_mcp.Stock.Execute.{Mutation, StockClient, Surroundings}
use inventree_mcp.Stock.Execute.Authority.{recording}
use inventree_mcp.Stock.Execute.Request.{Succeeds}
use inventree_mcp.Stock.Adjust.{
  SetStockStatusInput, set_stock_status, status_plan, AdjustStockQuantityInput,
  StocktakeAdjustmentInput, adjust_plan, stocktake_plan, adjust_stock_quantity,
  stocktake_adjustment,
}
use inventree_mcp.Stock.Adjust.Bounds.{
  Transitions, status_plan-Transitions, Adjusts, Counts, adjust_plan-Adjusts, stocktake_plan-Counts,
}
use inventree_mcp.Stock.Adjust.Safety.{Reviewed, Shows, stock_tool-Reviewed, stock_tool-Shows}
use inventree_mcp.Stock.Adjust.Refusal.{adjust_plan-Refused, stocktake_plan-Refused}

module _ {F W C : Type 0} ⦃fl : Floats F⦄ ⦃planned : Planned (StockAdjustmentPlan F)⦄
    (project : String → String) (client : StockClient F W) (env : Surroundings C) where
  module _ (input : AdjustStockQuantityInput F) where
    -- On a plan store that any dry runs and confirmations have led to, adjust_stock_quantity asks InvenTree
    -- for nothing, or for one mutation, the addition or removal of the exact decimal of the requested
    -- change. Then the request was a confirmed execution with a reason and a positive item number, and its
    -- token was returned less than five minutes ago by a dry run of the same principal, for a plan with the
    -- same hash, action and stock item. The plan is of the item as just read, which is not serialized; it
    -- changes the quantity only, and never leaves nothing of an item that would then be deleted.
    pub adjust_stock_quantity-Reviewed :
        (principal : C → String) (cs : List (PlanCall (StockAdjustmentPlan F) C)) (w : W)
        (log : List Mutation)
        → let asked =
            (adjust_stock_quantity project
              (recording client)
              (some (run_plans (new_plan_store principal) [] cs).0)
              env
              input
              (w, log)).2.1 in
          (asked ≡ log)
          ⊎ ((r : Reviewed project client env input.confirming input.stock_item_id input.reason
                (adjust_plan input)
                principal
                cs
                w
                asked
                log)
              × Adjusts input r.item r.plan r.m)
    adjust_stock_quantity-Reviewed principal cs w log =
        elim (stock_tool-Reviewed project client env input.confirming input.stock_item_id
          input.reason (adjust_plan input) principal cs w log) [
            | inl silent ↦ inl silent
            | inr r ↦ inr (r, adjust_plan-Adjusts input r.item r.plan r.m r.was_made)
          ]

    -- A success of adjust_stock_quantity that is no dry run comes from a mutation that InvenTree accepted,
    -- and shows the item that InvenTree answered with when it was asked again after that mutation: in
    -- every field of the snapshot it is what the plan says, its quantity to the tolerance.
    pub adjust_stock_quantity-Shows :
        (store : Option (PlanStore C)) (w : W)
        → input.confirming.dry_run ≡ false
        → Succeeds (adjust_stock_quantity project client store env input w).0
        → (s : Shows project client input.stock_item_id
            (adjust_plan input)
            w
            (adjust_stock_quantity project client store env input w).0.out)
          × Adjusts input s.item s.plan s.m
    adjust_stock_quantity-Shows store w real good =
        let s =
          stock_tool-Shows project client env input.confirming input.stock_item_id input.reason
            (adjust_plan input) store w (adjust_plan-Refused input) real good in
        (s, adjust_plan-Adjusts input s.item s.plan s.m s.was_made)

  module _ (input : StocktakeAdjustmentInput F) where
    -- On a plan store that any dry runs and confirmations have led to, stocktake_adjustment asks InvenTree
    -- for nothing, or for one count of the item, to the exact decimal of the observed quantity. Then the
    -- request was a confirmed execution with a reason and a positive item number, and its token was
    -- returned less than five minutes ago by a dry run of the same principal, for a plan with the same
    -- hash, action and stock item. The plan is of the item as just read, which is not serialized; it changes the quantity only, by more than
    -- the tolerance, and never leaves nothing of an item that would then be deleted.
    pub stocktake_adjustment-Reviewed :
        (principal : C → String) (cs : List (PlanCall (StockAdjustmentPlan F) C)) (w : W)
        (log : List Mutation)
        → let asked =
            (stocktake_adjustment project
              (recording client)
              (some (run_plans (new_plan_store principal) [] cs).0)
              env
              input
              (w, log)).2.1 in
          (asked ≡ log)
          ⊎ ((r : Reviewed project client env input.confirming input.stock_item_id input.reason
                (stocktake_plan input)
                principal
                cs
                w
                asked
                log)
              × Counts input r.item r.plan r.m)
    stocktake_adjustment-Reviewed principal cs w log =
        elim (stock_tool-Reviewed project client env input.confirming input.stock_item_id
          input.reason (stocktake_plan input) principal cs w log) [
            | inl silent ↦ inl silent
            | inr r ↦ inr (r, stocktake_plan-Counts input r.item r.plan r.m r.was_made)
          ]

    pub stocktake_adjustment-Shows :
        (store : Option (PlanStore C)) (w : W)
        → input.confirming.dry_run ≡ false
        → Succeeds (stocktake_adjustment project client store env input w).0
        → (s : Shows project client input.stock_item_id
            (stocktake_plan input)
            w
            (stocktake_adjustment project client store env input w).0.out)
          × Counts input s.item s.plan s.m
    stocktake_adjustment-Shows store w real good =
        let s =
          stock_tool-Shows project client env input.confirming input.stock_item_id input.reason
            (stocktake_plan input) store w (stocktake_plan-Refused input) real good in
        (s, stocktake_plan-Counts input s.item s.plan s.m s.was_made)

  -- On a plan store that any dry runs and confirmations have led to, set_stock_status asks InvenTree for
  -- nothing, or for one change of the item's status, to one of the supported codes, which the item did
  -- not have when it was just read. Then the request was a confirmed execution with a reason and a
  -- positive item number, and its token was returned less than five minutes ago by a dry run of the same
  -- principal, for a plan with the same hash, action and stock item; the plan changes the status only and flags a write-off.
  pub set_stock_status-Reviewed :
      (input : SetStockStatusInput) (principal : C → String)
      (cs : List (PlanCall (StockAdjustmentPlan F) C)) (w : W) (log : List Mutation)
      → let asked =
          (set_stock_status project
            (recording client)
            (some (run_plans (new_plan_store principal) [] cs).0)
            env
            input
            (w, log)).2.1 in
        (asked ≡ log)
        ⊎ ((r : Reviewed project client env input.confirming input.stock_item_id input.reason
              (status_plan input)
              principal
              cs
              w
              asked
              log)
            × Transitions input r.item r.plan r.m)
  set_stock_status-Reviewed input principal cs w log =
      elim (stock_tool-Reviewed project client env input.confirming input.stock_item_id input.reason
        (status_plan input) principal cs w log) [
          | inl silent ↦ inl silent
          | inr r ↦ inr (r, status_plan-Transitions input r.item r.plan r.m r.was_made)
        ]
