-- ===== src/Stock/Tests.antt =====
-- Tests of the stock tools, and the theorems about them at concrete inputs.
use inventree_mcp.Prelude.{
  ℕ, String, Option, none, some, List, [], ◌∷◌, true, false, ◌≡◌, ◌⊎◌, refl, pos, ok, err, map,
}
use inventree_mcp.Batch.Store.History
use inventree_mcp.Batch.Store.History.{accepts_of, issues_of}
use inventree_mcp.Stock.Plans.{Planned, PlanStore, new_plan_store, issue_plan, consume_plan}
use inventree_mcp.Stock.Plans.Twin.{twin, plain_key, plan_digest}
use inventree_mcp.Stock.Plans.History.{
  PlanCall, planning, confirming, run_plans, AllPlanned, run_plans-AllPlanned, run_plans_single_use,
  run_plans-run, call_of,
}
use inventree_mcp.Stock.Item.{StockItem, StockAdjustmentPlan}
use inventree_mcp.Stock.Decimal.{Floats}
use inventree_mcp.Stock.Execute.{
  Failure, api, Mutation, StockClient, Confirming, Surroundings, Reply,
}
use inventree_mcp.Stock.Execute.Authority.{recording}
use inventree_mcp.Stock.Execute.Request.{Succeeds}
use inventree_mcp.Stock.Adjust.{
  AdjustStockQuantityInput, StocktakeAdjustmentInput, SetStockStatusInput, plan_of, adjust_plan,
  stocktake_plan, status_plan, adjust_stock_quantity, stocktake_adjustment, set_stock_status,
}
use inventree_mcp.Stock.Adjust.Safety.{Reviewed, Shows}
use inventree_mcp.Stock.Adjust.Bounds.{Adjusts}
use inventree_mcp.Stock.Adjust.Outcome.{adjust_stock_quantity-Reviewed, adjust_stock_quantity-Shows}
use inventree_mcp.Stock.Depletion.{DepleteStockItemInput, depletion_of, deplete_stock_item}
use inventree_mcp.Stock.Depletion.Removal.{Removal, deplete_stock_item_reviewed}
use inventree_mcp.Stock.Depletion.Absence.{Depleted, deplete_stock_item_verified}
use inventree_mcp.Stock.Samples.{
  numbers, plans, shelf, changed, server, same_url, same_name, surroundings, go_ahead,
  reviewed_depletion, deplete,
}

deplete_stock_item_reviewed_example :
    let asked =
      (deplete_stock_item same_url
        (recording server)
        (some (run_plans (new_plan_store same_name) [] reviewed_depletion).0)
        surroundings
        deplete
        (some 3, [])).2.1 in
    (asked ≡ [])
    ⊎ Removal same_url server surroundings deplete same_name reviewed_depletion (some 3) asked []
deplete_stock_item_reviewed_example =
    deplete_stock_item_reviewed same_url server surroundings deplete same_name reviewed_depletion
      (some 3) []

abbrev after_review : Option (PlanStore String)
after_review = some (run_plans (new_plan_store same_name) [] reviewed_depletion).0

deplete-Succeeds :
    Succeeds (deplete_stock_item same_url server after_review surroundings deplete (some 3)).0
unfolding deplete_stock_item inventree_mcp.Stock.Depletion.depletion_plan
    inventree_mcp.Stock.Depletion.unsafe_stock_depletion
    inventree_mcp.Stock.Depletion.execute_stock_depletion
    inventree_mcp.Stock.Depletion.remove_and_verify inventree_mcp.Text.trim_right
    inventree_mcp.Text.trim_left inventree_mcp.Stock.Decimal.normalized_stock_decimal
    inventree_mcp.Text.split_first consume_plan inventree_mcp.Stock.Plans.consume_plan_locked
    inventree_mcp.GoMap.get inventree_mcp.GoMap.retain run_plans issue_plan
    inventree_mcp.Stock.Plans.issue_plan_locked inventree_mcp.Stock.Plans.replace
    inventree_mcp.GoMap.put inventree_mcp.GoMap.delete inventree_mcp.Stock.Plans.History.step_plans
deplete-Succeeds = record { unfailed = refl; fine = refl }

deplete_stock_item_verified_example :
    Depleted same_url server surroundings deplete
      (some 3)
      (deplete_stock_item same_url server after_review surroundings deplete (some 3)).0.out
deplete_stock_item_verified_example =
    deplete_stock_item_verified same_url server surroundings deplete after_review (some 3) refl
      deplete-Succeeds

abbrev durable : ℕ → StockItem ℕ
durable q = record (shelf q) { delete_on_deplete = false }

-- The same server for an item that stays when it is depleted.
abbrev depot : StockClient ℕ (Option ℕ)
depot = record {
  get_stock_item = λ id w. (elim w [ none ↦ err (api 404 true) | some q ↦ ok (durable q) ], w);
  mutate = λ m w. (none, changed m w);
}

abbrev adjust : AdjustStockQuantityInput ℕ
adjust = record { confirming = go_ahead; stock_item_id = pos 7; delta = 2; reason = "found" }

abbrev reviewed_adjustment : List (PlanCall (StockAdjustmentPlan ℕ) String)
reviewed_adjustment =
    planning "alice" 3 (ok "t1")
      (plan_of "adjust_stock_quantity" (durable 3) (durable 5) "found" false "")
    ∷ []

adjust_stock_quantity-Reviewed_example :
    let asked =
      (adjust_stock_quantity same_url
        (recording depot)
        (some (run_plans (new_plan_store same_name) [] reviewed_adjustment).0)
        surroundings
        adjust
        (some 3, [])).2.1 in
    (asked ≡ [])
    ⊎ ((r : Reviewed same_url depot surroundings go_ahead
          (pos 7)
          "found"
          (adjust_plan adjust)
          same_name
          reviewed_adjustment
          (some 3)
          asked
          [])
        × Adjusts adjust r.item r.plan r.m)
adjust_stock_quantity-Reviewed_example =
    adjust_stock_quantity-Reviewed same_url depot surroundings adjust same_name reviewed_adjustment
      (some 3) []

abbrev after_adjustment : Option (PlanStore String)
after_adjustment = some (run_plans (new_plan_store same_name) [] reviewed_adjustment).0

adjust-Succeeds :
    Succeeds (adjust_stock_quantity same_url depot after_adjustment surroundings adjust (some 3)).0
unfolding inventree_mcp.Stock.Adjust.run_stock_tool adjust_plan
    inventree_mcp.Stock.Execute.prepare_stock_adjustment
    inventree_mcp.Stock.Execute.execute_stock_plan inventree_mcp.Stock.Execute.mutate_stock
    inventree_mcp.Text.trim_right inventree_mcp.Text.trim_left
    inventree_mcp.Stock.Decimal.normalized_stock_decimal inventree_mcp.Text.split_first consume_plan
    inventree_mcp.Stock.Plans.consume_plan_locked inventree_mcp.GoMap.get inventree_mcp.GoMap.retain
    run_plans issue_plan inventree_mcp.Stock.Plans.issue_plan_locked
    inventree_mcp.Stock.Plans.replace inventree_mcp.GoMap.put inventree_mcp.GoMap.delete
    inventree_mcp.Stock.Plans.History.step_plans
adjust-Succeeds = record { unfailed = refl; fine = refl }

adjust_stock_quantity-Shows_example :
    (s : Shows same_url depot
      (pos 7)
      (adjust_plan adjust)
      (some 3)
      (adjust_stock_quantity same_url depot after_adjustment surroundings adjust (some 3)).0.out)
    × Adjusts adjust s.item s.plan s.m
adjust_stock_quantity-Shows_example =
    adjust_stock_quantity-Shows same_url depot surroundings adjust after_adjustment (some 3) refl
      adjust-Succeeds

abbrev recount : StocktakeAdjustmentInput ℕ
recount = record {
  confirming = go_ahead;
  stock_item_id = pos 7;
  observed_quantity = 2;
  reason = "count";
}

abbrev reviewed_count : List (PlanCall (StockAdjustmentPlan ℕ) String)
reviewed_count =
    planning "alice" 3 (ok "t1") (
      plan_of "stocktake_adjustment" (durable 3) (durable 2) "count" true
        "observed quantity is lower than recorded quantity")
    ∷ []

abbrev write_off : SetStockStatusInput
write_off = record {
  confirming = go_ahead;
  stock_item_id = pos 7;
  status = pos 60;
  reason = "burnt";
}

abbrev reviewed_status : List (PlanCall (StockAdjustmentPlan ℕ) String)
reviewed_status =
    planning "alice" 3 (ok "t1") (
      plan_of "set_stock_status" (durable 3) (record (durable 3) { status = pos 60 }) "burnt" true
        "status transition to Destroyed is a write-off state")
    ∷ []

abbrev confirmed_twice : List (PlanCall (StockAdjustmentPlan ℕ) String)
confirmed_twice =
    planning "alice" 3 (ok "t1") (depletion_of (shelf 3) "lost")
    ∷ confirming "alice" "t1" 4 (depletion_of (shelf 3) "lost")
    ∷ confirming "alice" "t1" 5 (depletion_of (shelf 3) "lost")
    ∷ []

run_plans-AllPlanned_example :
    AllPlanned same_name (run_plans (new_plan_store same_name) [] confirmed_twice).1
run_plans-AllPlanned_example = run_plans-AllPlanned same_name confirmed_twice

abbrev fresh : PlanStore String
fresh = new_plan_store same_name

run_plans-run_example :
    History.run ⦃d = plan_digest plain_key plans⦄
      (twin plain_key fresh)
      []
      (map (call_of plain_key) confirmed_twice)
    ≡ (
      twin plain_key (run_plans fresh [] confirmed_twice).0,
      (run_plans fresh [] confirmed_twice).1,
    )
run_plans-run_example = run_plans-run plain_key fresh [] confirmed_twice
