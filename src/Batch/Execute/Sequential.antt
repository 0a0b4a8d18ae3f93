-- ===== src/Batch/Execute/Sequential.antt =====
-- internal/batch/execute.go on items that share no upstream state: concurrency and schedule make no
-- difference.
use mathlib.Core.Path.{ap₂}
use mathlib.Core.Option.{some-injective}
use inventree_mcp.Prelude.{
  ℕ, zero, suc, ◌+◌, some, List, [], ◌∷◌, false, ◌≡◌, ◌≢◌, refl, sym, ap, subst, ◌∙◌, arith, ℤ, All,
  All-of_get, get_elem?, get_elem?-set, map, inl, inr, Option-cases,
}
use inventree_mcp.Batch.Execute.{
  Result, Adapter, Group, pending, Slot, Config, initial, advance, advance_slot, Move, move, go_on,
  cancel, tick, interfere, play, results, result_of, run_one,
}
use inventree_mcp.Batch.Execute.Items.{advance-eq, play_items}
use inventree_mcp.Batch.Execute.Disjoint.{
  IsLocal, Spares, AreDisjoint, expected, Agrees, Agrees-view, Slotwise, advance_slot-Slotwise,
}

module _ {T W V : Type 0} (g : Group) (a : Adapter T W) (view : T → W → V) where
  -- Moves that do not cancel the context; what others do to the upstream state leaves the views of the
  -- items as they were.
  abbrev pub IsCalm : Config T W → List (Move W) → Type 0
  IsCalm c [] = Unit
  IsCalm c (go_on i ∷ ms) = IsCalm (move g a c (go_on i)) ms
  IsCalm c (cancel ∷ ms) = ⊥
  IsCalm c (tick d ∷ ms) = IsCalm (move g a c (tick d)) ms
  IsCalm c (interfere w ∷ ms) =
      ((t : T) → view t w ≡ view t c.world) × IsCalm (move g a c (interfere w)) ms

  module _ (loc : IsLocal a view) (w₀ : W) where
    -- The invariant of a run: every goroutine agrees, and the items are disjoint.
    record Follows (c : Config T W) : Type 0 where
      on : c.cancelled ≡ false
      agreed :
          (i : ℕ) (s : Slot T)
          → get_elem? c.slots i ≡ some s
          → Agrees g a view loc w₀ s.item s.phase c.world
      disjoint :
          (i j : ℕ) (s other : Slot T)
          → get_elem? c.slots i ≡ some s
          → get_elem? c.slots j ≡ some other
          → i ≢ j
          → Spares a view s.item other.item

    -- the item of a slot that a step has written, or left
    old_item :
        (c c' : Config T W) (i j : ℕ) (s z : Slot T)
        → get_elem? c.slots i ≡ some s
        → Slotwise g a view loc w₀ c i s c'
        → get_elem? c'.slots j ≡ some z
        → (y : Slot T) × (get_elem? c.slots j ≡ some y) × (y.item ≡ z.item)
    old_item c c' i j s z there k h =
        elim (get_elem?-set c.slots i j k.slot z (ap (λ l. get_elem? l j) (sym k.written) ∙ h)) [
          | inl (same, e) ↦ (
            s,
            subst (λ n. get_elem? c.slots n ≡ some s) same there,
            sym k.same_item ∙ ap (λ x. x.item) e,
          )
          | inr (apart, left) ↦ (z, left, refl)
        ]

    Slotwise-Follows :
        (c c' : Config T W) (i : ℕ) (s : Slot T)
        → get_elem? c.slots i ≡ some s
        → Slotwise g a view loc w₀ c i s c'
        → Follows c
        → Follows c'
    Slotwise-Follows c c' i s there k h = record {
      on = k.uncancelled ∙ h.on;
      agreed = λ j z here.
          elim (get_elem?-set c.slots i j k.slot z
            (ap (λ l. get_elem? l j) (sym k.written) ∙ here)) [
              | inl (same, e) ↦
                  subst (λ x. Agrees g a view loc w₀ x.item x.phase c'.world) e k.agrees
              | inr (apart, left) ↦
                  Agrees-view g a view loc w₀ z.item z.phase c.world c'.world
                    (k.spared z.item (h.disjoint i j s z there left apart)) (h.agreed j z left)
            ];
      disjoint = λ j l z z' here here' apart.
          let (y, at, e) = old_item c c' i j s z there k here in
          let (y', at', e') = old_item c c' i l s z' there k here' in
          subst (λ t. Spares a view t z'.item) e
            (subst (λ t. Spares a view y.item t) e' (h.disjoint j l y y' at at' apart));
    }

    play-Follows :
        (c : Config T W) (ms : List (Move W)) → IsCalm c ms → Follows c → Follows (play g a c ms)
    unfolding play move
    play-Follows c [] q h = h
    play-Follows c (go_on i ∷ ms) q h = elim (Option-cases (get_elem? c.slots i)) [
      | inl missing ↦
          play-Follows (advance g a c i) ms q (subst Follows (sym (rw (missing, advance) refl)) h)
      | inr (s, there) ↦
          let k : Slotwise g a view loc w₀ c i s (advance_slot g a c i s s.phase) =
            advance_slot-Slotwise g a view loc w₀ c i s there h.on s.phase refl
              (h.agreed i s there) in
          play-Follows (advance g a c i) ms q (
            Slotwise-Follows c (advance g a c i) i s there
              (subst (Slotwise g a view loc w₀ c i s) (sym (advance-eq g a c i s there)) k) h)
    ]
    play-Follows c (cancel ∷ ms) q h = absurd q
    play-Follows c (tick d ∷ ms) q h =
        play-Follows (record c { elapsed = c.elapsed + d }) ms q
          (record { on = h.on; agreed = h.agreed; disjoint = h.disjoint })
    play-Follows c (interfere w ∷ ms) q h =
        play-Follows (record c { world = w }) ms q.1
          (record {
            on = h.on;
            agreed = λ i s there.
                Agrees-view g a view loc w₀ s.item s.phase c.world w (q.0 s.item)
                  (h.agreed i s there);
            disjoint = h.disjoint;
          })

    initial_slot :
        (items : List T) (z : ℤ) (i : ℕ) (s : Slot T)
        → get_elem? (initial items w₀ z).slots i ≡ some s
        → (get_elem? items i ≡ some s.item) × (s.phase ≡ pending)
    initial_slot [] z i s h = absurd (cc h)
    initial_slot (t ∷ items) z zero s h =
        let e = some-injective _ _ h in (ap (λ x. some x.item) e, ap (λ x. x.phase) (sym e))
    initial_slot (t ∷ items) z (suc i) s h = initial_slot items z i s h

    reported-Agrees :
        (s : Slot T) (w : W)
        → Agrees g a view loc w₀ s.item s.phase w
        → (r : Result T) → result_of s ≡ some r
        → r ≡ expected g a view loc w₀ s.item
    reported-Agrees s w h r e = ground (arith, h)

    results_agree :
        (l : List (Slot T)) (rs : List (Result T))
        → All (λ s. (r : Result T) → result_of s ≡ some r → r ≡ expected g a view loc w₀ s.item) l
        → results l ≡ some rs
        → rs ≡ map (expected g a view loc w₀) (map (λ s. s.item) l)
    results_agree [] rs h e = sym (some-injective _ _ e)
    results_agree (s ∷ l) rs h e = elim (Option-cases (result_of s)) [
      | inl missing ↦ absurd (cc (rw (missing, results) at e))
      | inr (r, found) ↦ elim (Option-cases (results l)) [
        | inl missing ↦ absurd (cc (rw (found, results, missing) at e))
        | inr (rest, more) ↦
            sym (some-injective _ _ (rw (found, results, more) at e))
            ∙ ap₂ ◌∷◌ (h.0 r found) (results_agree l rest h.1 more)
      ]
    ]

    -- For items that share no upstream state (what the adapter answers for an item depends only on the
    -- item's own view of it, which the calls for the other items, and others, leave as it was) and a context
    -- that is not cancelled, concurrency and schedule make no difference: once `Execute` returns, its
    -- results are those of `runOne` on each item alone from the first state, in the order of the items.
    pub execute_sequential :
        (items : List T) (concurrency : ℤ) (ms : List (Move W)) (rs : List (Result T))
        → AreDisjoint a view items
        → IsCalm (initial items w₀ concurrency) ms
        → results (play g a (initial items w₀ concurrency) ms).slots ≡ some rs
        → rs ≡ map (λ t. (run_one a t w₀).0) items
    execute_sequential items z ms rs apart q done =
        let last = play g a (initial items w₀ z) ms in
        let h = play-Follows (initial items w₀ z) ms q (record {
          on = refl;
          agreed = λ i s there.
              subst (λ p. Agrees g a view loc w₀ s.item p w₀)
                (sym (initial_slot items z i s there).1) refl;
          disjoint = λ i j s other there there' differ.
              apart i j s.item other.item (initial_slot items z i s there).0
                (initial_slot items z j other there').0 differ;
        }) in
        results_agree last.slots rs
          (All-of_get
            (λ s. (r : Result T) → result_of s ≡ some r → r ≡ expected g a view loc w₀ s.item)
            last.slots (λ i s there. reported-Agrees s last.world (h.agreed i s there)))
          done
        ∙ ap (map (expected g a view loc w₀)) (play_items g a items w₀ z ms)
