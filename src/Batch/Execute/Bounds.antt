-- ===== src/Batch/Execute/Bounds.antt =====
-- The counters of internal/batch/execute.go: the worker limit, the aggregate upstream time and the
-- progress reports.
use native.Mathlib.Nat.{mul-le-mul_right}
use inventree_mcp.Prelude.{
  ℕ, zero, suc, ◌+◌, ◌-◌, ◌*◌, ◌≤◌, Option, none, some, List, [], ◌∷◌, Bool, true, false, ◌&&◌, ◌≡◌,
  refl, sym, ap, ◌∙◌, if◌then◌else◌, arith, ℤ, get_elem?, set, count, count-set, sum_by, sum_by-set,
  count-cons-mul, length, length-set, inl, inr, Option-cases, Bool-cases, eqb,
}
use inventree_mcp.Batch.Execute.{
  Result, Adapter, Group, Phase, pending, launched, started, checked, finished, reported,
  AdapterCall, preflighted, mutated, verified, Slot, Config, initial, advance, advance_slot, Move,
  move, go_on, cancel, tick, interfere, play, results, result_of, clamp_concurrency, is_active,
  next_pending, enter, call, not_attempted, after_preflight, after_mutate, after_verify, continue,
}
use inventree_mcp.Batch.Execute.Items.{play_induction, advance-eq}

module _ {T : Type 0} where
  abbrev pub is_reported : Slot T → Bool
  is_reported s = elim s.phase [ reported _ ↦ true | _ ↦ false ]

  -- the time that an item has taken so far, while its adapter calls run
  abbrev charge : ℕ → Slot T → ℕ
  charge now s = elim s.phase [
    | started ↦ now - s.start
    | checked ↦ now - s.start
    | Phase.mutated ↦ now - s.start
    | _ ↦ 0
  ]

  abbrev accrued : ℕ → List (Slot T) → ℕ
  accrued now = sum_by (charge now)

  -- When time passes, only active goroutines take it.
  charge-tick :
      (now d : ℕ) (s : Slot T) → charge (now + d) s ≤ charge now s + (if is_active s then d else 0)
  charge-tick now d s = ground arith

  accrued-tick :
      (now d : ℕ) (l : List (Slot T)) → accrued (now + d) l ≤ accrued now l + count is_active l * d
  accrued-tick now d [] = omega arith
  accrued-tick now d (s ∷ l) =
      omega (arith, charge-tick now d s, accrued-tick now d l, count-cons-mul is_active s l d)

-- n, n - 1, …, 1
abbrev pub countdown : ℕ → List ℕ
countdown zero = []
countdown (suc n) = suc n ∷ countdown n

module _ {T W : Type 0} where
  record InBounds (limit size : ℕ) (c : Config T W) : Type 0 where
    same_limit : c.limit ≡ limit
    same_size : length c.slots ≡ size
    active : count is_active c.slots ≤ limit
    spent : c.upstream + accrued c.elapsed c.slots ≤ limit * c.elapsed
    counted : c.completed ≡ count is_reported c.slots
    reports : c.progress ≡ countdown c.completed

module _ {T W : Type 0} (g : Group) (a : Adapter T W) (limit size : ℕ) where
  module _ (c : Config T W) (i : ℕ) (s : Slot T) (there : get_elem? c.slots i ≡ some s)
      (h : InBounds limit size c) where
    -- a write of a slot, and what it must not raise
    wrote :
        (y : Slot T) (c' : Config T W)
        → c'.slots ≡ set c.slots i y
        → c'.limit ≡ c.limit
        → c'.elapsed ≡ c.elapsed
        → count is_active (set c.slots i y) ≤ limit
        → c'.upstream + charge c.elapsed y ≤ c.upstream + charge c.elapsed s
        → c'.completed + (if is_reported s then 1 else 0)
          ≡ c.completed + (if is_reported y then 1 else 0)
        → c'.progress ≡ countdown c'.completed
        → InBounds limit size c'
    wrote y c' slots lim time fits cost done said = record {
      same_limit = lim ∙ h.same_limit;
      same_size = rw slots (length-set c.slots i y ∙ h.same_size);
      active = rw slots fits;
      spent =
          rw (slots, time)
            (omega (arith, h.spent, cost, sum_by-set (charge c.elapsed) c.slots i s y there));
      counted =
          rw slots (omega (arith, h.counted, done, count-set is_reported c.slots i s y there));
      reports = said;
    }

    -- a slot that was active stays within the limit
    stays : (y : Slot T) → is_active s ≡ true → count is_active (set c.slots i y) ≤ limit
    stays y e = ground (arith, count-set is_active c.slots i s y there, h.active)

    answered :
        (w : W) (k : AdapterCall) (o : Option (Result T)) (p q : Phase T)
        → s.phase ≡ p
        → charge c.elapsed (enter (call s k) q) ≡ charge c.elapsed (enter s p)
        → is_active (enter s p) ≡ true
        → is_reported (enter s q) ≡ false
        → charge c.elapsed (enter s p) ≡ c.elapsed - s.start
        → InBounds limit size (continue (record c { world = w }) i (call s k) o q)
    answered w k none p q e same on off full =
        wrote (enter (call s k) q) (continue (record c { world = w }) i (call s k) none q) refl refl
          refl (stays (enter (call s k) q) (ground arith)) (ground arith) (ground arith) h.reports
    answered w k (some r) p q e same on off full =
        wrote (enter (call s k) (finished r))
          (continue (record c { world = w }) i (call s k) (some r) q) refl refl refl
          (stays (enter (call s k) (finished r)) (ground arith)) (ground arith) (ground arith)
          h.reports

    advance_slot-InBounds :
        (p : Phase T) → s.phase ≡ p → InBounds limit size (advance_slot g a c i s p)
    unfolding advance_slot
    advance_slot-InBounds pending e =
        elim (Bool-cases
          (eqb i (next_pending c.slots) && g.admits (count is_active c.slots) c.limit)) [
            | inl go ↦ rw go (
                wrote (enter s launched) (record c { slots = set c.slots i (enter s launched) })
                  refl refl refl
                  (ground (
                    arith,
                    count-set is_active c.slots i s (enter s launched) there,
                    g.bounded (count is_active c.slots) c.limit,
                    h.same_limit,
                  ))
                  (ground arith) (ground arith) h.reports)
            | inr stay ↦ rw stay h
          ]
    advance_slot-InBounds launched e = elim (Bool-cases c.cancelled) [
      | inl off ↦ rw off (
          wrote (enter s (finished (not_attempted s.item)))
            (record c {
              slots = set c.slots i (enter s (finished (not_attempted s.item)));
              cancelled = true;
            })
            refl refl refl (stays (enter s (finished (not_attempted s.item))) (ground arith))
            (ground arith) (ground arith) h.reports)
      | inr on ↦ rw on (
          wrote (record s { phase = started; start = c.elapsed })
            (record c {
              slots = set c.slots i (record s { phase = started; start = c.elapsed });
              cancelled = false;
            })
            refl refl refl (stays (record s { phase = started; start = c.elapsed }) (ground arith))
            (ground arith) (ground arith) h.reports)
    ]
    advance_slot-InBounds started e =
        answered (a.preflight s.item c.world).1 preflighted
          (after_preflight s.item (a.preflight s.item c.world).0) started checked e refl refl refl
          refl
    advance_slot-InBounds checked e =
        answered (a.mutate s.item c.world).1 mutated
          (after_mutate s.item (a.mutate s.item c.world).0) checked Phase.mutated e refl refl refl
          refl
    advance_slot-InBounds Phase.mutated e =
        answered (a.verify s.item c.world).1 verified
          (some (after_verify s.item (a.verify s.item c.world).0)) Phase.mutated Phase.mutated e
          refl refl refl refl
    advance_slot-InBounds (finished r) e =
        wrote (enter s (reported r))
          (record c {
            slots = set c.slots i (enter s (reported r));
            completed = suc c.completed;
            progress = suc c.completed ∷ c.progress;
          })
          refl refl refl (stays (enter s (reported r)) (ground arith)) (ground arith) (ground arith)
          (ap (◌∷◌ (suc c.completed)) h.reports)
    advance_slot-InBounds (reported r) e = h

  move-InBounds :
      (c : Config T W) (m : Move W) → InBounds limit size c → InBounds limit size (move g a c m)
  unfolding move
  move-InBounds c (go_on i) h = elim (Option-cases (get_elem? c.slots i)) [
    | inl missing ↦ rw (missing, advance) h
    | inr (s, there) ↦
        rw (advance-eq g a c i s there) (advance_slot-InBounds c i s there h s.phase refl)
  ]
  move-InBounds c cancel h = record {
    same_limit = h.same_limit;
    same_size = h.same_size;
    active = h.active;
    spent = h.spent;
    counted = h.counted;
    reports = h.reports;
  }
  move-InBounds c (tick d) h = record {
    same_limit = h.same_limit;
    same_size = h.same_size;
    active = h.active;
    spent = omega (arith, h.spent, accrued-tick c.elapsed d c.slots, mul-le-mul_right d h.active);
    counted = h.counted;
    reports = h.reports;
  }
  move-InBounds c (interfere w) h = record {
    same_limit = h.same_limit;
    same_size = h.same_size;
    active = h.active;
    spent = h.spent;
    counted = h.counted;
    reports = h.reports;
  }

module _ {T W : Type 0} where
  initial-counts :
      (items : List T) (w : W) (z : ℤ)
      → (length (initial items w z).slots ≡ length items)
        × (count is_active (initial items w z).slots ≡ 0)
        × (accrued 0 (initial items w z).slots ≡ 0)
        × (count is_reported (initial items w z).slots ≡ 0)
  initial-counts [] w z = (refl, refl, refl, refl)
  initial-counts (t ∷ items) w z =
      let (a, b, c, d) = initial-counts items w z in (ap suc a, b, omega (arith, c), d)

module _ {T : Type 0} where
  results-reported :
      (l : List (Slot T)) (rs : List (Result T))
      → results l ≡ some rs
      → count is_reported l ≡ length l
  results-reported [] rs e = refl
  results-reported (s ∷ l) rs e = elim (Option-cases (result_of s)) [
    | inl missing ↦ absurd (cc (rw (missing, results) at e))
    | inr (r, found) ↦ elim (Option-cases (results l)) [
      | inl missing ↦ absurd (cc (rw (found, results, missing) at e))
      | inr (rest, more) ↦ ground (arith, found, results-reported l rest more)
    ]
  ]

module _ {T W : Type 0} (g : Group) (a : Adapter T W) where
  reached :
      (items : List T) (w : W) (z : ℤ) (ms : List (Move W))
      → InBounds (clamp_concurrency z) (length items) (play g a (initial items w z) ms)
  reached items w z ms =
      let (same, idle, free, fresh) = initial-counts items w z in
      play_induction g a (move-InBounds g a (clamp_concurrency z) (length items))
        (initial items w z) ms
        (record {
          same_limit = refl;
          same_size = same;
          active = omega (arith, idle);
          spent = omega (arith, free);
          counted = sym fresh;
          reports = refl;
        })

  -- Under every schedule, at most `Concurrency` (at least 1) goroutines are running, and the
  -- aggregate upstream time is at most that many times the wall-clock time of the batch.
  pub execute_limits :
      (items : List T) (w : W) (concurrency : ℤ) (ms : List (Move W))
      → (count is_active (play g a (initial items w concurrency) ms).slots
          ≤ clamp_concurrency concurrency)
        × ((play g a (initial items w concurrency) ms).upstream
            ≤ clamp_concurrency concurrency * (play g a (initial items w concurrency) ms).elapsed)
  execute_limits items w z ms = let h = reached items w z ms in (h.active, omega (arith, h.spent))

  -- Under every schedule, cancelled or not, once `Execute` returns, `OnProgress` has been given each
  -- of 1, …, total exactly once.
  pub execute_progress :
      (items : List T) (w : W) (concurrency : ℤ) (ms : List (Move W)) (rs : List (Result T))
      → results (play g a (initial items w concurrency) ms).slots ≡ some rs
      → (play g a (initial items w concurrency) ms).progress ≡ countdown (length items)
  execute_progress items w z ms rs done =
      let h = reached items w z ms in
      h.reports
      ∙ ap countdown (
          h.counted
          ∙ results-reported (play g a (initial items w z) ms).slots rs done
          ∙ h.same_size)
