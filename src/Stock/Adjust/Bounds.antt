-- ===== src/Stock/Adjust/Bounds.antt =====
-- What the plans of internal/tools/stock_adjustment_tools.go leave alone.
use inventree_mcp.Prelude.{
  String, some, Bool, true, false, ◌&&◌, ◌≡◌, inl, inr, refl, subst, Option-cases, ok, ok_unique,
  bind-ok, eq_int, if◌then◌else◌,
}
use inventree_mcp.Text.{trim_space}
use inventree_mcp.Stock.Item.{
  StockItem, StockAdjustmentPlan, has_serial, snapshot_stock_item, start_output,
}
use inventree_mcp.Stock.Decimal.{Floats, normalized_stock_decimal}
use inventree_mcp.Stock.Execute.{
  Mutation, add_stock, remove_stock, count_stock, change_stock_status, Reply, near,
}
use inventree_mcp.Stock.Adjust.{
  AdjustStockQuantityInput, SetStockStatusInput, stock_status_name, high_risk_stock_status,
  status_plan, unchanged_status, StocktakeAdjustmentInput, adjust_plan, stocktake_plan, decimal,
  unless, out_of_bounds, relative_serialized, unusable_delta, negative_result, deleting_delta,
  absolute_serialized, unusable_count, deleting_count, unchanged_count,
}

module _ {F : Type 0} ⦃fl : Floats F⦄ where
  pub unless-ok : (b : Bool) (r : Reply F) (x : Unit {0}) → unless b r ≡ ok x → b ≡ false
  unless-ok true r x h = absurd (cc h)
  unless-ok false r x h = refl

  pub decimal-ok :
      (r : Reply F) (q : F) (zero_allowed : Bool) (d : String × F)
      → decimal r q zero_allowed ≡ ok d
      → normalized_stock_decimal q zero_allowed ≡ some d
  decimal-ok r q zero_allowed d h = elim (Option-cases (normalized_stock_decimal q zero_allowed)) [
    | inl e ↦ absurd (cc (rw (decimal, e) at h))
    | inr (x, e) ↦ cc (e, rw (decimal, e) at h)
  ]

  -- What every plan for the quantity of one item keeps.
  pub record KeepsItem (item : StockItem F) (plan : StockAdjustmentPlan F) (reason : String)
      : Type 0 where
    pub unserialized : has_serial item ≡ false
    pub undeleted : (fl.same plan.after.quantity fl.nought && item.delete_on_deplete) ≡ false
    pub before_read :
        plan.before ≡ record (snapshot_stock_item item) { quantity = plan.before.quantity }
    pub only_quantity :
        plan.after ≡ record (snapshot_stock_item item) { quantity = plan.after.quantity }
    pub noted : plan.reason ≡ trim_space reason

  pub record Adjusts (input : AdjustStockQuantityInput F) (item : StockItem F)
      (plan : StockAdjustmentPlan F) (m : Mutation) : Type 0 where
    pub keeps : KeepsItem item plan input.reason
    pub amount : String × F
    pub amount_is : normalized_stock_decimal (fl.abs input.delta) false ≡ some amount
    pub after_is :
        (text : String) × (normalized_stock_decimal
            (fl.add plan.before.quantity (fl.copysign amount.1 input.delta))
            true
          ≡ some (text, plan.after.quantity))
    pub asks : m ≡ (
        if fl.less fl.nought input.delta
        then add_stock input.stock_item_id amount.0 plan.reason
        else remove_stock input.stock_item_id amount.0 plan.reason)
    pub flagged : plan.high_risk ≡ fl.less input.delta fl.nought

  pub adjust_plan-Adjusts :
      (input : AdjustStockQuantityInput F) (item : StockItem F) (plan : StockAdjustmentPlan F)
      (m : Mutation)
      → adjust_plan input item ≡ ok (plan, m)
      → Adjusts input item plan m
  unfolding adjust_plan
  adjust_plan-Adjusts input item plan m h =
      let out = start_output input.confirming.dry_run in
      let (x₁, serial, h₁) = bind-ok (unless (has_serial item) (relative_serialized out)) _ _ h in
      let (delta, delta_ok, h₂) =
        bind-ok (decimal (unusable_delta out) (fl.abs input.delta) false) _ _ h₁ in
      let (was, was_ok, h₃) = bind-ok (decimal (out_of_bounds out) item.quantity true) _ _ h₂ in
      let (after, after_ok, h₄) =
        bind-ok
          (decimal (negative_result out) (fl.add was.1 (fl.copysign delta.1 input.delta)) true) _ _
          h₃ in
      let (x₂, kept, h₅) =
        bind-ok (unless (fl.same after.1 fl.nought && item.delete_on_deplete) (deleting_delta out))
          _ _ h₄ in
      subst (λ r. Adjusts input item r.0 r.1) (ok_unique {E = Reply F} _ _ _ refl h₅)
        (record {
          keeps = record {
            unserialized = unless-ok (has_serial item) (relative_serialized out) x₁ serial;
            undeleted =
                unless-ok (fl.same after.1 fl.nought && item.delete_on_deplete) (deleting_delta out)
                  x₂ kept;
            before_read = refl;
            only_quantity = refl;
            noted = refl;
          };
          amount = delta;
          amount_is = decimal-ok (unusable_delta out) (fl.abs input.delta) false delta delta_ok;
          after_is = (
            after.0,
            decimal-ok (negative_result out) (fl.add was.1 (fl.copysign delta.1 input.delta)) true
                after after_ok,
          );
          asks = refl;
          flagged = refl;
        })

  pub record Counts (input : StocktakeAdjustmentInput F) (item : StockItem F)
      (plan : StockAdjustmentPlan F) (m : Mutation) : Type 0 where
    pub keeps : KeepsItem item plan input.reason
    pub text : String
    pub after_is :
        normalized_stock_decimal input.observed_quantity true ≡ some (text, plan.after.quantity)
    pub differs : near plan.after.quantity plan.before.quantity ≡ false
    pub asks : m ≡ count_stock input.stock_item_id text plan.reason
    pub flagged : plan.high_risk ≡ fl.less plan.after.quantity plan.before.quantity

  pub stocktake_plan-Counts :
      (input : StocktakeAdjustmentInput F) (item : StockItem F) (plan : StockAdjustmentPlan F)
      (m : Mutation)
      → stocktake_plan input item ≡ ok (plan, m)
      → Counts input item plan m
  unfolding stocktake_plan
  stocktake_plan-Counts input item plan m h =
      let out = start_output input.confirming.dry_run in
      let (x₁, serial, h₁) = bind-ok (unless (has_serial item) (absolute_serialized out)) _ _ h in
      let (seen, seen_ok, h₂) =
        bind-ok (decimal (unusable_count out) input.observed_quantity true) _ _ h₁ in
      let (was, was_ok, h₃) = bind-ok (decimal (out_of_bounds out) item.quantity true) _ _ h₂ in
      let (x₂, kept, h₄) =
        bind-ok (unless (fl.same seen.1 fl.nought && item.delete_on_deplete) (deleting_count out)) _
          _ h₃ in
      let (x₃, differs, h₅) = bind-ok (unless (near seen.1 was.1) (unchanged_count out)) _ _ h₄ in
      subst (λ r. Counts input item r.0 r.1) (ok_unique {E = Reply F} _ _ _ refl h₅)
        (record {
          keeps = record {
            unserialized = unless-ok (has_serial item) (absolute_serialized out) x₁ serial;
            undeleted =
                unless-ok (fl.same seen.1 fl.nought && item.delete_on_deplete) (deleting_count out)
                  x₂ kept;
            before_read = refl;
            only_quantity = refl;
            noted = refl;
          };
          text = seen.0;
          after_is = decimal-ok (unusable_count out) input.observed_quantity true seen seen_ok;
          differs = unless-ok (near seen.1 was.1) (unchanged_count out) x₃ differs;
          asks = refl;
          flagged = refl;
        })

  pub record Transitions (input : SetStockStatusInput) (item : StockItem F)
      (plan : StockAdjustmentPlan F) (m : Mutation) : Type 0 where
    pub name : String
    pub supported : stock_status_name input.status ≡ some name
    pub differs : eq_int input.status item.status ≡ false
    pub before_read : plan.before ≡ snapshot_stock_item item
    pub only_status : plan.after ≡ record (snapshot_stock_item item) { status = input.status }
    pub asks : m ≡ change_stock_status input.stock_item_id input.status plan.reason
    pub noted : plan.reason ≡ trim_space input.reason
    pub flagged : plan.high_risk ≡ high_risk_stock_status input.status

  pub status_plan-Transitions :
      (input : SetStockStatusInput) (item : StockItem F) (plan : StockAdjustmentPlan F)
      (m : Mutation)
      → status_plan input item ≡ ok (plan, m)
      → Transitions input item plan m
  unfolding status_plan
  status_plan-Transitions input item plan m h =
      elim (Option-cases (stock_status_name input.status)) [
        | inl unknown ↦ absurd (cc (rw (status_plan, unknown) at h))
        | inr (name, known) ↦
            let (x, differs, h₁) =
              bind-ok
                (unless (eq_int input.status item.status)
                  (unchanged_status (start_output input.confirming.dry_run)))
                _ _ (rw (status_plan, known) at h) in
            subst (λ r. Transitions input item r.0 r.1) (ok_unique {E = Reply F} _ _ _ refl h₁)
              (record {
                name = name;
                supported = known;
                differs =
                    unless-ok (eq_int input.status item.status)
                      (unchanged_status (start_output input.confirming.dry_run)) x differs;
                before_read = refl;
                only_status = refl;
                asks = refl;
                noted = refl;
                flagged = refl;
              })
      ]
