-- ===== src/Batch/Execute/Disjoint.antt =====
-- Items that share no upstream state, and what a step of `Execute` (internal/batch/execute.go) finds for one
-- of them.
use inventree_mcp.Prelude.{
  ℕ, none, some, List, false, ◌&&◌, ◌≡◌, ◌≢◌, refl, sym, ap, subst, ◌∙◌, arith, get_elem?, set,
  set_self, count, inl, inr, Option-cases, Bool-cases, eqb,
}
use inventree_mcp.Batch.Execute.{
  Result, Adapter, Group, Phase, pending, launched, started, checked, finished, reported,
  preflighted, mutated, verified, Slot, Config, advance_slot, is_active, next_pending, enter, call,
  after_preflight, after_mutate, after_verify, continue, run_one,
}

-- What the adapter answers for an item, and what its calls make of the item's view of the upstream
-- state, depend on that view alone.
pub record IsLocal {T W V : Type 0} (a : Adapter T W) (view : T → W → V) : Type 0 where
  pub preflight_answer :
      (t : T) (w w' : W) → view t w ≡ view t w' → (a.preflight t w).0 ≡ (a.preflight t w').0
  pub preflight_view :
      (t : T) (w w' : W)
      → view t w ≡ view t w'
      → view t (a.preflight t w).1 ≡ view t (a.preflight t w').1
  pub mutate_answer :
      (t : T) (w w' : W) → view t w ≡ view t w' → (a.mutate t w).0 ≡ (a.mutate t w').0
  pub mutate_view :
      (t : T) (w w' : W) → view t w ≡ view t w' → view t (a.mutate t w).1 ≡ view t (a.mutate t w').1
  pub verify_answer :
      (t : T) (w w' : W) → view t w ≡ view t w' → (a.verify t w).0 ≡ (a.verify t w').0

-- The calls for an item leave the view of another one as it was.
pub record Spares {T W V : Type 0} (a : Adapter T W) (view : T → W → V) (t other : T) : Type 0 where
  pub preflight : (w : W) → view other (a.preflight t w).1 ≡ view other w
  pub mutate : (w : W) → view other (a.mutate t w).1 ≡ view other w
  pub verify : (w : W) → view other (a.verify t w).1 ≡ view other w

-- The calls for any item leave the views of the items at all other places as they were.
abbrev pub AreDisjoint : {T W V : Type 0} → Adapter T W → (T → W → V) → List T → Type 0
AreDisjoint {T} a view items =
    (i j : ℕ) (t other : T)
    → get_elem? items i ≡ some t
    → get_elem? items j ≡ some other
    → i ≢ j
    → Spares a view t other

module _ {T W V : Type 0} (g : Group) (a : Adapter T W) (view : T → W → V) (loc : IsLocal a view)
    (w₀ : W) where
  abbrev pub expected : T → Result T
  expected t = (run_one a t w₀).0

  -- the upstream state of `runOne` on the item alone, after the first and the second call
  abbrev after_check : T → W
  after_check t = (a.preflight t w₀).1

  abbrev after_write : T → W
  after_write t = (a.mutate t (after_check t)).1

  -- What a goroutine in a phase has found, as `runOne` on its item alone does, and what its item sees.
  abbrev pub Agrees : T → Phase T → W → Type 0
  Agrees t checked w =
      (after_preflight t (a.preflight t w₀).0 ≡ none) × (view t w ≡ view t (after_check t))
  Agrees t Phase.mutated w =
      (after_preflight t (a.preflight t w₀).0 ≡ none)
      × (after_mutate t (a.mutate t (after_check t)).0 ≡ none)
      × (view t w ≡ view t (after_write t))
  Agrees t (finished r) w = r ≡ expected t
  Agrees t (reported r) w = r ≡ expected t
  Agrees t _ w = view t w ≡ view t w₀

  pub Agrees-view :
      (t : T) (p : Phase T) (w w' : W) → view t w' ≡ view t w → Agrees t p w → Agrees t p w'
  Agrees-view t pending w w' e h = e ∙ h
  Agrees-view t launched w w' e h = e ∙ h
  Agrees-view t started w w' e h = e ∙ h
  Agrees-view t checked w w' e h = (h.0, e ∙ h.1)
  Agrees-view t Phase.mutated w w' e h = (h.0, h.1, e ∙ h.2)
  Agrees-view t (finished r) w w' e h = h
  Agrees-view t (reported r) w w' e h = h

  run_one_failed :
      (t : T) (r : Result T) → after_preflight t (a.preflight t w₀).0 ≡ some r → r ≡ expected t
  unfolding run_one
  run_one_failed t r e = ground arith

  run_one_ambiguous :
      (t : T) (r : Result T)
      → after_preflight t (a.preflight t w₀).0 ≡ none
      → after_mutate t (a.mutate t (after_check t)).0 ≡ some r
      → r ≡ expected t
  unfolding run_one
  run_one_ambiguous t r e f = ground arith

  run_one_verified :
      (t : T)
      → after_preflight t (a.preflight t w₀).0 ≡ none
      → after_mutate t (a.mutate t (after_check t)).0 ≡ none
      → after_verify t (a.verify t (after_write t)).0 ≡ expected t
  unfolding run_one
  run_one_verified t e f = ground arith

  pub record Slotwise (c : Config T W) (i : ℕ) (s : Slot T) (c' : Config T W) : Type 0 where
    pub slot : Slot T
    pub written : c'.slots ≡ set c.slots i slot
    pub same_item : slot.item ≡ s.item
    pub uncancelled : c'.cancelled ≡ c.cancelled
    pub spared : (t : T) → Spares a view s.item t → view t c'.world ≡ view t c.world
    pub agrees : Agrees slot.item slot.phase c'.world

  module _ (c : Config T W) (i : ℕ) (s : Slot T) (there : get_elem? c.slots i ≡ some s)
      (on : c.cancelled ≡ false) where
    pub advance_slot-Slotwise :
        (p : Phase T)
        → s.phase ≡ p
        → Agrees s.item p c.world
        → Slotwise c i s (advance_slot g a c i s p)
    unfolding advance_slot
    advance_slot-Slotwise pending e h =
        elim (Bool-cases
          (eqb i (next_pending c.slots) && g.admits (count is_active c.slots) c.limit)) [
            | inl go ↦ rw go (record {
              slot = enter s launched;
              written = refl;
              same_item = refl;
              uncancelled = refl;
              spared = λ t k. refl;
              agrees = h;
            })
            | inr stay ↦ rw stay (record {
              slot = s;
              written = sym (set_self c.slots i s there);
              same_item = refl;
              uncancelled = refl;
              spared = λ t k. refl;
              agrees = subst (λ p. Agrees s.item p c.world) (sym e) h;
            })
          ]
    advance_slot-Slotwise launched e h = rw on (record {
      slot = record s { phase = started; start = c.elapsed };
      written = refl;
      same_item = refl;
      uncancelled = refl;
      spared = λ t k. refl;
      agrees = h;
    })
    advance_slot-Slotwise started e h =
        let same = loc.preflight_answer s.item c.world w₀ h in
        elim (Option-cases (after_preflight s.item (a.preflight s.item c.world).0)) [
          | inl more ↦
              rw (more, continue)
                (record {
                  slot = enter (call s preflighted) checked;
                  written = refl;
                  same_item = refl;
                  uncancelled = refl;
                  spared = λ t k. k.preflight c.world;
                  agrees = (
                    ap (after_preflight s.item) (sym same) ∙ more,
                    loc.preflight_view s.item c.world w₀ h,
                  );
                })
          | inr (r, done) ↦
              rw (done, continue)
                (record {
                  slot = enter (call s preflighted) (finished r);
                  written = refl;
                  same_item = refl;
                  uncancelled = refl;
                  spared = λ t k. k.preflight c.world;
                  agrees = run_one_failed s.item r (ap (after_preflight s.item) (sym same) ∙ done);
                })
        ]
    advance_slot-Slotwise checked e h =
        let same = loc.mutate_answer s.item c.world (after_check s.item) h.1 in
        elim (Option-cases (after_mutate s.item (a.mutate s.item c.world).0)) [
          | inl more ↦
              rw (more, continue)
                (record {
                  slot = enter (call s mutated) Phase.mutated;
                  written = refl;
                  same_item = refl;
                  uncancelled = refl;
                  spared = λ t k. k.mutate c.world;
                  agrees = (
                    h.0,
                    ap (after_mutate s.item) (sym same) ∙ more,
                    loc.mutate_view s.item c.world (after_check s.item) h.1,
                  );
                })
          | inr (r, done) ↦
              rw (done, continue)
                (record {
                  slot = enter (call s mutated) (finished r);
                  written = refl;
                  same_item = refl;
                  uncancelled = refl;
                  spared = λ t k. k.mutate c.world;
                  agrees =
                      run_one_ambiguous s.item r h.0 (ap (after_mutate s.item) (sym same) ∙ done);
                })
        ]
    advance_slot-Slotwise Phase.mutated e h = record {
      slot = enter (call s verified) (finished (after_verify s.item (a.verify s.item c.world).0));
      written = refl;
      same_item = refl;
      uncancelled = refl;
      spared = λ t k. k.verify c.world;
      agrees =
          ap (after_verify s.item) (loc.verify_answer s.item c.world (after_write s.item) h.2)
          ∙ run_one_verified s.item h.0 h.1;
    }
    advance_slot-Slotwise (finished r) e h = record {
      slot = enter s (reported r);
      written = refl;
      same_item = refl;
      uncancelled = refl;
      spared = λ t k. refl;
      agrees = h;
    }
    advance_slot-Slotwise (reported r) e h = record {
      slot = s;
      written = sym (set_self c.slots i s there);
      same_item = refl;
      uncancelled = refl;
      spared = λ t k. refl;
      agrees = subst (λ p. Agrees s.item p c.world) (sym e) h;
    }
