-- ===== src/Batch/Execute/Items.antt =====
-- What a result of internal/batch/execute.go tells of the adapter calls made for its item.
use mathlib.Core.Path.{ap₂}
use mathlib.Core.Option.{some-injective}
use inventree_mcp.Prelude.{
  ℕ, Option, none, some, List, [], ◌∷◌, Bool, true, false, ◌≡◌, refl, sym, subst, ap, ◌∙◌, eqb,
  count, ◌&&◌, set_self, Bool-cases, arith, ℤ, All, All-set, All-get, map-set, get_elem?, set, map,
  inl, inr, Option-cases,
}
use inventree_mcp.Batch.Execute.{
  Outcome, applied, skipped, failed, ambiguous, unverified, Result, Adapter, Group, Phase, pending,
  launched, started, checked, finished, reported, AdapterCall, preflighted, mutated, verified, Slot,
  Config, initial, advance, Move, move, go_on, cancel, tick, interfere, play, result_of, results,
  continue, call, not_attempted, enter, is_active, next_pending, after_preflight, after_mutate,
  after_verify, advance_slot,
}

-- the adapter calls behind an outcome, the latest first
abbrev pub calls_of : Outcome → Bool → List AdapterCall
calls_of applied _ = verified ∷ mutated ∷ preflighted ∷ []
calls_of skipped _ = preflighted ∷ []
calls_of failed _ = preflighted ∷ []
calls_of ambiguous _ = mutated ∷ preflighted ∷ []
calls_of unverified true = verified ∷ mutated ∷ preflighted ∷ []
calls_of unverified false = []

module _ {T : Type 0} where
  abbrev calls_at : Phase T → List AdapterCall
  calls_at checked = preflighted ∷ []
  calls_at Phase.mutated = mutated ∷ preflighted ∷ []
  calls_at (finished r) = calls_of r.outcome r.attempted
  calls_at (reported r) = calls_of r.outcome r.attempted
  calls_at _ = []

  abbrev OfItem : T → Phase T → Type 0
  OfItem t (finished r) = r.item ≡ t
  OfItem t (reported r) = r.item ≡ t
  OfItem t _ = Unit

  record IsTold (s : Slot T) : Type 0 where
    told : s.calls ≡ calls_at s.phase
    own : OfItem s.item s.phase

module _ {T W : Type 0} (g : Group) (a : Adapter T W) where
  -- Invariants of a schedule.
  pub play_induction :
      {P : Config T W → Type 0}
      → ((c : Config T W) (m : Move W) → P c → P (move g a c m))
      → (c : Config T W) (ms : List (Move W)) → P c
      → P (play g a c ms)
  unfolding play
  play_induction keep c [] h = h
  play_induction keep c (m ∷ ms) h = play_induction keep (move g a c m) ms (keep c m h)

  -- `advance` at a slot that is there, by its phase
  pub advance-eq :
      (c : Config T W) (i : ℕ) (s : Slot T)
      → get_elem? c.slots i ≡ some s
      → advance g a c i ≡ advance_slot g a c i s s.phase
  unfolding advance
  advance-eq c i s e = rw (e, advance)

  -- `advance` changes at most the slot that it looks at.
  record Slotwise (c : Config T W) (i : ℕ) (s : Slot T) (c' : Config T W) : Type 0 where
    slot : Slot T
    written : c'.slots ≡ set c.slots i slot
    same_item : slot.item ≡ s.item
    tidy : IsTold s → IsTold slot

  module _ (c : Config T W) (i : ℕ) (s : Slot T) (there : get_elem? c.slots i ≡ some s) where
    unchanged : Slotwise c i s c
    unchanged = record {
      slot = s;
      written = sym (set_self c.slots i s there);
      same_item = refl;
      tidy = λ h. h;
    }

    -- one answered adapter call `k`: the goroutine goes on in phase `q`, or has its result
    answered :
        (w : W) (k : AdapterCall) (o : Option (Result T)) (p q : Phase T)
        → s.phase ≡ p
        → OfItem s.item q
        → k ∷ calls_at p ≡ calls_at q
        → ((r : Result T)
            → o ≡ some r
            → (r.item ≡ s.item) × (k ∷ calls_at p ≡ calls_of r.outcome r.attempted))
        → Slotwise c i s (continue (record c { world = w }) i (call s k) o q)
    answered w k none p q e own same ends = record {
      slot = enter (call s k) q;
      written = refl;
      same_item = refl;
      tidy = λ h. record { told = ap (◌∷◌ k) (h.told ∙ ap calls_at e) ∙ same; own = own };
    }
    answered w k (some r) p q e own same ends = record {
      slot = enter (call s k) (finished r);
      written = refl;
      same_item = refl;
      tidy = λ h. record {
        told = ap (◌∷◌ k) (h.told ∙ ap calls_at e) ∙ (ends r refl).1;
        own = (ends r refl).0;
      };
    }

    advance_slot-Slotwise : (p : Phase T) → s.phase ≡ p → Slotwise c i s (advance_slot g a c i s p)
    unfolding advance_slot
    advance_slot-Slotwise pending e =
        elim (Bool-cases
          (eqb i (next_pending c.slots) && g.admits (count is_active c.slots) c.limit)) [
            | inl go ↦ rw go (record {
              slot = enter s launched;
              written = refl;
              same_item = refl;
              tidy = λ h. record { told = h.told ∙ ap calls_at e; own = tt };
            })
            | inr stay ↦ rw stay unchanged
          ]
    advance_slot-Slotwise launched e = elim (Bool-cases c.cancelled) [
      | inl off ↦ rw off (record {
        slot = enter s (finished (not_attempted s.item));
        written = refl;
        same_item = refl;
        tidy = λ h. record { told = h.told ∙ ap calls_at e; own = refl };
      })
      | inr on ↦ rw on (record {
        slot = record s { phase = started; start = c.elapsed };
        written = refl;
        same_item = refl;
        tidy = λ h. record { told = h.told ∙ ap calls_at e; own = tt };
      })
    ]
    advance_slot-Slotwise started e =
        answered (a.preflight s.item c.world).1 preflighted
          (after_preflight s.item (a.preflight s.item c.world).0) started checked e tt refl
          (λ r h. ground arith)
    advance_slot-Slotwise checked e =
        answered (a.mutate s.item c.world).1 mutated
          (after_mutate s.item (a.mutate s.item c.world).0) checked Phase.mutated e tt refl
          (λ r h. ground arith)
    advance_slot-Slotwise Phase.mutated e =
        answered (a.verify s.item c.world).1 verified
          (some (after_verify s.item (a.verify s.item c.world).0)) Phase.mutated
          (finished (after_verify s.item (a.verify s.item c.world).0)) e (ground arith)
          (ground arith) (λ r h. ground arith)
    advance_slot-Slotwise (finished r) e = record {
      slot = enter s (reported r);
      written = refl;
      same_item = refl;
      tidy = λ h. record { told = h.told ∙ ap calls_at e; own = subst (OfItem s.item) e h.own };
    }
    advance_slot-Slotwise (reported r) e = unchanged

  advance-Slotwise :
      (c : Config T W) (i : ℕ) (s : Slot T)
      → get_elem? c.slots i ≡ some s
      → Slotwise c i s (advance g a c i)
  advance-Slotwise c i s there =
      rw (advance-eq c i s there) (advance_slot-Slotwise c i s there s.phase refl)

  record IsTidy (items : List T) (slots : List (Slot T)) : Type 0 where
    told : All IsTold slots
    ordered : map (λ s. s.item) slots ≡ items

  move-IsTidy :
      (items : List T) (c : Config T W) (m : Move W)
      → IsTidy items c.slots
      → IsTidy items (move g a c m).slots
  unfolding move
  move-IsTidy items c (go_on i) h = elim (Option-cases (get_elem? c.slots i)) [
    | inl missing ↦ rw (missing, advance) h
    | inr (s, there) ↦
        let k : Slotwise c i s (advance g a c i) = advance-Slotwise c i s there in
        record {
          told = rw (k.written) (
              All-set IsTold c.slots i k.slot h.told
                (k.tidy (All-get IsTold c.slots i s h.told there)));
          ordered =
              rw (k.written)
                (map-set (λ t. t.item) c.slots i s k.slot there k.same_item ∙ h.ordered);
        }
  ]
  move-IsTidy items c cancel h = h
  move-IsTidy items c (tick d) h = h
  move-IsTidy items c (interfere w) h = h

  initial-IsTold : (items : List T) (w : W) (z : ℤ) → All IsTold (initial items w z).slots
  initial-IsTold [] w z = tt
  initial-IsTold (t ∷ items) w z = (record { told = refl; own = tt }, initial-IsTold items w z)

  initial-items :
      (items : List T) (w : W) (z : ℤ) → map (λ s. s.item) (initial items w z).slots ≡ items
  initial-items [] w z = refl
  initial-items (t ∷ items) w z = ap (◌∷◌ t) (initial-items items w z)

  reported_told :
      (s : Slot T) (r : Result T)
      → IsTold s
      → result_of s ≡ some r
      → (r.item ≡ s.item) × (calls_of r.outcome r.attempted ≡ s.calls)
  reported_told s r h e = ground (arith, h.told, h.own)

  results_told :
      (l : List (Slot T)) (rs : List (Result T))
      → All IsTold l
      → results l ≡ some rs
      → (map (λ r. r.item) rs ≡ map (λ s. s.item) l)
        × (map (λ r. calls_of r.outcome r.attempted) rs ≡ map (λ s. s.calls) l)
  results_told [] rs h e = rw (← some-injective _ _ e) (refl, refl)
  results_told (s ∷ l) rs h e = elim (Option-cases (result_of s)) [
    | inl missing ↦ absurd (cc (rw (missing, results) at e))
    | inr (r, found) ↦ elim (Option-cases (results l)) [
      | inl missing ↦ absurd (cc (rw (found, results, missing) at e))
      | inr (rest, more) ↦
          let (item, calls) = reported_told s r h.0 found in
          let (items, traces) = results_told l rest h.1 more in
          rw (← some-injective _ _ (rw (found, results, more) at e))
            (ap₂ ◌∷◌ item items, ap₂ ◌∷◌ calls traces)
    ]
  ]

  played-IsTidy :
      (items : List T) (w : W) (z : ℤ) (ms : List (Move W))
      → IsTidy items (play g a (initial items w z) ms).slots
  played-IsTidy items w z ms =
      play_induction {P = λ c. IsTidy items c.slots} (move-IsTidy items) (initial items w z) ms
        (record { told = initial-IsTold items w z; ordered = initial-items items w z })

  pub play_items :
      (items : List T) (w : W) (z : ℤ) (ms : List (Move W))
      → map (λ s. s.item) (play g a (initial items w z) ms).slots ≡ items
  play_items items w z ms = (played-IsTidy items w z ms).ordered

  -- Under every schedule, with interference, cancellation and any concurrency, once `Execute` returns
  -- it has one result for each item, in the order of the items, and the outcome of each tells exactly
  -- which adapter calls were made for its item: no call for an item that was not attempted, no
  -- mutation for a failed or skipped one, one mutation and no verification for an ambiguous one, and
  -- all three calls for an applied one and an attempted unverified one.
  pub execute_results :
      (items : List T) (w : W) (concurrency : ℤ) (ms : List (Move W)) (rs : List (Result T))
      → results (play g a (initial items w concurrency) ms).slots ≡ some rs
      → (map (λ r. r.item) rs ≡ items)
        × (map (λ r. calls_of r.outcome r.attempted) rs
            ≡ map (λ s. s.calls) (play g a (initial items w concurrency) ms).slots)
  execute_results items w z ms rs done =
      let h = played-IsTidy items w z ms in
      let (same, calls) = results_told (play g a (initial items w z) ms).slots rs h.told done in
      (same ∙ h.ordered, calls)
