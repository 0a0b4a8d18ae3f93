-- ===== src/Stock/Depletion/Hazards.antt =====
-- What `unsafeStockDepletion` of internal/tools/stock_depletion_tools.go lets through.
use inventree_mcp.Prelude.{
  Option, none, some, Bool, true, false, not, ◌≡◌, refl, ap, ◌∙◌, ℤ, pos, eq_int, eq_int_iff, ok,
  ok_unique, bind-ok,
}
use inventree_mcp.Stock.Item.{StockItem, StockAdjustmentOutput, has_serial}
use inventree_mcp.Stock.Decimal.{Floats}
use inventree_mcp.Stock.Execute.{Reply}
use inventree_mcp.Stock.Adjust.{unless}
use inventree_mcp.Stock.Adjust.Bounds.{unless-ok}
use inventree_mcp.Stock.Depletion.{
  serialized, kept_when_depleted, out_of_stock, allocation_unknown, allocated, building, consumed,
  installed, child, installed_unknown, has_installed, children_unknown, has_children, hazard, known,
  is_some, unsafe_stock_depletion,
}

module _ {F : Type 0} ⦃fl : Floats F⦄ where
  -- Nothing is left that the removal of the item could break.
  pub record SafeToDeplete (item : StockItem F) : Type 0 where
    pub unserialized : has_serial item ≡ false
    pub deleted_then : item.delete_on_deplete ≡ true
    pub available : item.in_stock ≡ true
    pub amount : F
    pub amount_known : item.allocated ≡ some amount
    pub unallocated : fl.same amount fl.nought ≡ true
    pub finished : item.is_building ≡ false
    pub unconsumed : item.consumed_by ≡ none
    pub uninstalled : item.belongs_to ≡ none
    pub parentless : item.parent ≡ none
    pub empty_inside : item.installed_items ≡ some (pos 0)
    pub childless : item.child_items ≡ some (pos 0)

  pub unless-not : (b : Bool) (r : Reply F) (x : Unit {0}) → unless (not b) r ≡ ok x → b ≡ true
  unless-not true r x h = refl
  unless-not false r x h = absurd (cc h)

  unless-none :
      {A : Type 0} (o : Option A) (r : Reply F) (x : Unit {0})
      → unless (is_some o) r ≡ ok x
      → o ≡ none
  unless-none none r x h = refl
  unless-none (some a) r x h = absurd (cc h)

  known-ok : {A : Type 0} (o : Option A) (r : Reply F) (a : A) → known o r ≡ ok a → o ≡ some a
  known-ok none r a h = absurd (cc h)
  known-ok (some b) r a h = ap some (ok_unique {E = Reply F} _ b a refl h)

  zero_known :
      (o : Option ℤ) (r r' : Reply F) (a : ℤ) (x : Unit {0})
      → known o r ≡ ok a
      → unless (not (eq_int a (pos 0))) r' ≡ ok x
      → o ≡ some (pos 0)
  zero_known o r r' a x h k =
      known-ok o r a h ∙ ap some ((eq_int_iff a (pos 0)).0 (unless-not (eq_int a (pos 0)) r' x k))

  pub unsafe_stock_depletion-SafeToDeplete :
      (out : StockAdjustmentOutput F) (item : StockItem F) (x : Unit {0})
      → unsafe_stock_depletion out item ≡ ok x
      → SafeToDeplete item
  unfolding unsafe_stock_depletion
  unsafe_stock_depletion-SafeToDeplete out item x h =
      let (x₁, h₁, r₁) = bind-ok (unless (has_serial item) (hazard out serialized)) _ _ h in
      let (x₂, h₂, r₂) =
        bind-ok (unless (not item.delete_on_deplete) (hazard out kept_when_depleted)) _ _ r₁ in
      let (x₃, h₃, r₃) = bind-ok (unless (not item.in_stock) (hazard out out_of_stock)) _ _ r₂ in
      let (amount, h₄, r₄) =
        bind-ok (known item.allocated (hazard out allocation_unknown)) _ _ r₃ in
      let (x₅, h₅, r₅) =
        bind-ok (unless (not (fl.same amount fl.nought)) (hazard out allocated)) _ _ r₄ in
      let (x₆, h₆, r₆) = bind-ok (unless item.is_building (hazard out building)) _ _ r₅ in
      let (x₇, h₇, r₇) = bind-ok (unless (is_some item.consumed_by) (hazard out consumed)) _ _ r₆ in
      let (x₈, h₈, r₈) = bind-ok (unless (is_some item.belongs_to) (hazard out installed)) _ _ r₇ in
      let (x₉, h₉, r₉) = bind-ok (unless (is_some item.parent) (hazard out child)) _ _ r₈ in
      let (inside, k₁, s₁) =
        bind-ok (known item.installed_items (hazard out installed_unknown)) _ _ r₉ in
      let (y₁, k₂, s₂) =
        bind-ok (unless (not (eq_int inside (pos 0))) (hazard out has_installed)) _ _ s₁ in
      let (below, k₃, k₄) = bind-ok (known item.child_items (hazard out children_unknown)) _ _ s₂ in
      record {
        unserialized = unless-ok (has_serial item) (hazard out serialized) x₁ h₁;
        deleted_then = unless-not item.delete_on_deplete (hazard out kept_when_depleted) x₂ h₂;
        available = unless-not item.in_stock (hazard out out_of_stock) x₃ h₃;
        amount = amount;
        amount_known = known-ok item.allocated (hazard out allocation_unknown) amount h₄;
        unallocated = unless-not (fl.same amount fl.nought) (hazard out allocated) x₅ h₅;
        finished = unless-ok item.is_building (hazard out building) x₆ h₆;
        unconsumed = unless-none item.consumed_by (hazard out consumed) x₇ h₇;
        uninstalled = unless-none item.belongs_to (hazard out installed) x₈ h₈;
        parentless = unless-none item.parent (hazard out child) x₉ h₉;
        empty_inside =
            zero_known item.installed_items (hazard out installed_unknown)
              (hazard out has_installed) inside y₁ k₁ k₂;
        childless =
            zero_known item.child_items (hazard out children_unknown) (hazard out has_children)
              below x k₃ k₄;
      }
