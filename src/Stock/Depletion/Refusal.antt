-- ===== src/Stock/Depletion/Refusal.antt =====
-- The refusals of deplete_stock_item (internal/tools/stock_depletion_tools.go) are no successes.
use inventree_mcp.Prelude.{
  Option, none, some, Bool, true, false, ◌==◌, not, ◌≡◌, inl, inr, refl, subst, Bool-cases, pos,
  eq_int, is_positive, Result, ok, err, err_unique, bind_fails, ◌>>=◌,
}
use inventree_mcp.Text.{trim_space}
use inventree_mcp.Stock.Item.{StockItem, StockAdjustmentOutput, has_serial, start_output}
use inventree_mcp.Stock.Decimal.{Floats}
use inventree_mcp.Stock.Execute.{Failure, Reply, is_not_found}
use inventree_mcp.Stock.Adjust.{unless}
use inventree_mcp.Stock.Adjust.Refusal.{Refused, clarification-Refused, unless_step, decimal_step}
use inventree_mcp.Stock.Depletion.{
  DepleteStockItemInput, Hazard, serialized, kept_when_depleted, out_of_stock, allocation_unknown,
  allocated, building, consumed, installed, child, installed_unknown, has_installed,
  children_unknown, has_children, hazard, known, is_some, unsafe_stock_depletion, depletion_plan,
  mismatched, not_positive, check_depletion, read_depleted,
}

module _ {F : Type 0} ⦃fl : Floats F⦄ (out : StockAdjustmentOutput F) (e : Reply F) where
  known_step :
      {A B : Type 0} (o : Option B) (r : Reply F) (k : B → Result (Reply F) A)
      → Refused r
      → ((b : B) → k b ≡ err e → Refused e)
      → (known o r >>= k) ≡ err e
      → Refused e
  known_step none r k bad later h = subst Refused (err_unique _ r e refl h) bad
  known_step (some b) r k bad later h = later b h

  last_step : (b : Bool) (r : Reply F) → Refused r → unless b r ≡ err e → Refused e
  last_step true r bad h = subst Refused (err_unique _ r e refl h) bad
  last_step false r bad h = absurd (cc h)

  hazard-Refused : (h : Hazard) → Refused (hazard out h)
  hazard-Refused h = clarification-Refused out _ _ _ _

  hazard_step :
      {A : Type 0} (b : Bool) (h : Hazard) (k : Unit {0} → Result (Reply F) A)
      → (k tt ≡ err e → Refused e)
      → (unless b (hazard out h) >>= k) ≡ err e
      → Refused e
  hazard_step b h k later = unless_step e b (hazard out h) k (hazard-Refused h) later

  pub unsafe-Refused : (item : StockItem F) → unsafe_stock_depletion out item ≡ err e → Refused e
  unfolding unsafe_stock_depletion
  unsafe-Refused item = hazard_step (has_serial item) serialized _ (
      hazard_step (not item.delete_on_deplete) kept_when_depleted _ (
        hazard_step (not item.in_stock) out_of_stock _ (
          known_step item.allocated (hazard out allocation_unknown) _
            (hazard-Refused allocation_unknown)
            (λ amount. hazard_step (not (fl.same amount fl.nought)) allocated _ (
              hazard_step item.is_building building _ (
                hazard_step (is_some item.consumed_by) consumed _ (
                  hazard_step (is_some item.belongs_to) installed _ (
                    hazard_step (is_some item.parent) child _ (
                      known_step item.installed_items (hazard out installed_unknown) _
                        (hazard-Refused installed_unknown)
                        (λ inside. hazard_step (not (eq_int inside (pos 0))) has_installed _ (
                          known_step item.child_items (hazard out children_unknown) _
                            (hazard-Refused children_unknown)
                            (λ below.
                              last_step (not (eq_int below (pos 0))) (hazard out has_children)
                                (hazard-Refused has_children)))))))))))))

  pub check-Refused :
      (input : DepleteStockItemInput) → check_depletion out input ≡ err e → Refused e
  check-Refused input h = elim (Bool-cases (is_positive input.stock_item_id)) [
    | inr nowhere ↦
        subst Refused (err_unique {A = Unit} _ _ e refl (rw (check_depletion, nowhere) at h))
          (clarification-Refused out _ _ _ _)
    | inl addressed ↦ elim (Bool-cases (trim_space input.reason == "")) [
      | inl blank ↦
          subst Refused
            (err_unique {A = Unit} _ _ e refl (rw (check_depletion, addressed, blank) at h))
            (clarification-Refused out _ _ _ _)
      | inr explained ↦ absurd (cc (rw (check_depletion, addressed, explained) at h))
    ]
  ]

  pub read-Refused :
      (got : Result Failure (StockItem F)) → read_depleted out got ≡ err e → Refused e
  read-Refused (ok item) h good = absurd (cc h)
  read-Refused (err x) h good = elim (Bool-cases (is_not_found x)) [
    | inl gone ↦
        subst Refused (err_unique {A = StockItem F} _ _ e refl (rw (read_depleted, gone) at h))
          (λ g. absurd (cc (g.fine))) good
    | inr failed ↦ absurd (cc (good.unfailed, rw (read_depleted, failed) at h))
  ]

module _ {F : Type 0} ⦃fl : Floats F⦄ (input : DepleteStockItemInput) (e : Reply F) where
  pub depletion_plan-Refused : (item : StockItem F) → depletion_plan input item ≡ err e → Refused e
  unfolding depletion_plan
  depletion_plan-Refused item h =
      let out = start_output input.confirming.dry_run in
      unless_step e (not (eq_int item.pk input.stock_item_id)) (mismatched out) _
        (λ good. absurd (cc (good.unfailed)))
        (decimal_step e (not_positive out) item.quantity false _ (clarification-Refused out _ _ _ _)
          (λ q.
            bind_fails Refused (unsafe_stock_depletion out (record item { quantity = q.1 })) _ e
              (unsafe-Refused out e (record item { quantity = q.1 }))
              (λ _ _ none_left. absurd (cc none_left))))
        h
