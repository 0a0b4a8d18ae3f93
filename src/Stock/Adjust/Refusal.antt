-- ===== src/Stock/Adjust/Refusal.antt =====
-- The errors of the plans of internal/tools/stock_adjustment_tools.go are no successes.
use inventree_mcp.Prelude.{
  String, Bool, true, false, ◌&&◌, ◌≡◌, inl, inr, refl, subst, Option-cases, Result, err,
  err_unique, ◌>>=◌,
}
use inventree_mcp.Stock.Item.{StockItem, StockAdjustmentOutput, has_serial, start_output}
use inventree_mcp.Stock.Decimal.{Floats, normalized_stock_decimal}
use inventree_mcp.Stock.Execute.{Reply, stock_clarification, near}
use inventree_mcp.Stock.Execute.Request.{Succeeds}
use inventree_mcp.Stock.Adjust.{
  AdjustStockQuantityInput, StocktakeAdjustmentInput, adjust_plan, stocktake_plan, decimal, unless,
  out_of_bounds, relative_serialized, unusable_delta, negative_result, deleting_delta,
  absolute_serialized, unusable_count, deleting_count, unchanged_count,
}

module _ {F : Type 0} ⦃fl : Floats F⦄ where
  abbrev pub Refused : Reply F → Type 0
  Refused reply = ¬ Succeeds reply

  pub clarification-Refused :
      (out : StockAdjustmentOutput F) (q s r t : String) → Refused (stock_clarification out q s r t)
  clarification-Refused out q s r t good = absurd (cc (good.fine))

  module _ {A : Type 0} (e : Reply F) where
    pub unless_step :
        (b : Bool) (r : Reply F) (k : Unit {0} → Result (Reply F) A)
        → Refused r
        → (k tt ≡ err e → Refused e)
        → (unless b r >>= k) ≡ err e
        → Refused e
    unless_step true r k bad later h = subst Refused (err_unique {A = A} _ r e refl h) bad
    unless_step false r k bad later h = later h

    pub decimal_step :
        (r : Reply F) (q : F) (z : Bool) (k : String × F → Result (Reply F) A)
        → Refused r
        → ((d : String × F) → k d ≡ err e → Refused e)
        → (decimal r q z >>= k) ≡ err e
        → Refused e
    decimal_step r q z k bad later h = elim (Option-cases (normalized_stock_decimal q z)) [
      | inl missing ↦ subst Refused (err_unique {A = A} _ r e refl (rw (decimal, missing) at h)) bad
      | inr (d, there) ↦ later d (rw (decimal, there) at h)
    ]

  pub adjust_plan-Refused :
      (input : AdjustStockQuantityInput F) (item : StockItem F) (reply : Reply F)
      → adjust_plan input item ≡ err reply
      → Refused reply
  unfolding adjust_plan
  adjust_plan-Refused input item reply h =
      let out = start_output input.confirming.dry_run in
      let asked = clarification-Refused out in
      unless_step reply (has_serial item) (relative_serialized out) _ (asked _ _ _ _)
        (decimal_step reply (unusable_delta out) (fl.abs input.delta) false _ (asked _ _ _ _)
          (λ delta.
            decimal_step reply (out_of_bounds out) item.quantity true _
              (λ good. absurd (cc (good.unfailed)))
              (λ was.
                decimal_step reply (negative_result out)
                  (fl.add was.1 (fl.copysign delta.1 input.delta)) true _ (asked _ _ _ _)
                  (λ after.
                    unless_step reply (fl.same after.1 fl.nought && item.delete_on_deplete)
                      (deleting_delta out) _ (asked _ _ _ _)
                      (λ none_left. absurd (cc none_left))))))
        h

  pub stocktake_plan-Refused :
      (input : StocktakeAdjustmentInput F) (item : StockItem F) (reply : Reply F)
      → stocktake_plan input item ≡ err reply
      → Refused reply
  unfolding stocktake_plan
  stocktake_plan-Refused input item reply h =
      let out = start_output input.confirming.dry_run in
      let asked = clarification-Refused out in
      unless_step reply (has_serial item) (absolute_serialized out) _ (asked _ _ _ _)
        (decimal_step reply (unusable_count out) input.observed_quantity true _ (asked _ _ _ _)
          (λ seen.
            decimal_step reply (out_of_bounds out) item.quantity true _
              (λ good. absurd (cc (good.unfailed)))
              (λ was.
                unless_step reply (fl.same seen.1 fl.nought && item.delete_on_deplete)
                  (deleting_count out) _ (asked _ _ _ _)
                  (unless_step reply (near seen.1 was.1) (unchanged_count out) _ (asked _ _ _ _)
                    (λ none_left. absurd (cc none_left))))))
        h
