-- ===== src/Batch/Execute/Completion.antt =====
-- internal/batch/execute.go comes to an end: some goroutine can always go on, and every step of one
-- brings `group.Wait` closer.
use inventree_mcp.Prelude.{
  ℕ, zero, suc, ◌*◌, ◌≤◌, ◌<◌, Option, none, some, List, [], ◌∷◌, true, ◌&&◌, ◌≡◌, refl, ◌∙◌, ◌⊎◌,
  length, arith, ℤ, get_elem?, set, map, count, sum_by, sum_by-set, inl, inr, Option-cases,
  Bool-cases, eqb, eqb_iff,
}
use inventree_mcp.Batch.Execute.{
  Result, Adapter, Group, Phase, pending, launched, started, checked, finished, reported, Slot,
  Config, initial, advance, advance_slot, Move, move, go_on, play, results, result_of, is_active,
  is_pending, cancel, tick, interfere, next_pending, enter, call, AdapterCall, continue,
  clamp_concurrency, after_preflight, after_mutate, after_verify, not_attempted, preflighted,
  mutated, verified,
}
use inventree_mcp.Batch.Execute.Items.{advance-eq}

module _ {T : Type 0} where
  -- how many steps a goroutine has left, at most
  abbrev pub steps_left : Slot T → ℕ
  steps_left s = elim s.phase [
    | pending ↦ 6
    | launched ↦ 5
    | started ↦ 4
    | checked ↦ 3
    | Phase.mutated ↦ 2
    | finished _ ↦ 1
    | reported _ ↦ 0
  ]

  abbrev pub work_left : List (Slot T) → ℕ
  work_left = sum_by steps_left

  results_idle :
      (l : List (Slot T)) (rs : List (Result T)) → results l ≡ some rs → count is_active l ≡ 0
  results_idle [] rs e = refl
  results_idle (s ∷ l) rs e = elim (Option-cases (result_of s)) [
    | inl missing ↦ absurd (cc (rw (missing, results) at e))
    | inr (r, found) ↦ elim (Option-cases (results l)) [
      | inl missing ↦ absurd (cc (rw (found, results, missing) at e))
      | inr (rest, more) ↦ ground (arith, found, results_idle l rest more)
    ]
  ]

  -- Either every goroutine is done, or one is running, or none is and the next item waits.
  data Where (l : List (Slot T)) : Type 0 where
    over : (rs : List (Result T)) → results l ≡ some rs → Where l
    running : (i : ℕ) (s : Slot T) → get_elem? l i ≡ some s → is_active s ≡ true → Where l
    waiting :
        (s : Slot T)
        → get_elem? l (next_pending l) ≡ some s
        → s.phase ≡ pending
        → count is_active l ≡ 0
        → Where l

  behind_pending : (s : Slot T) (l : List (Slot T)) → s.phase ≡ pending → Where l → Where (s ∷ l)
  behind_pending s l e (over rs h) =
      waiting s (rw (e, is_pending)) e (ground (arith, results_idle l rs h))
  behind_pending s l e (running i t h on) = running (suc i) t h on
  behind_pending s l e (waiting t h p idle) =
      waiting s (rw (e, is_pending)) e (ground (arith, idle))

  behind_reported :
      (s : Slot T) (r : Result T) (l : List (Slot T))
      → s.phase ≡ reported r
      → Where l
      → Where (s ∷ l)
  behind_reported s r l e (over rs h) = over (r ∷ rs) (ground (arith, h))
  behind_reported s r l e (running i t h on) = running (suc i) t h on
  behind_reported s r l e (waiting t h p idle) =
      waiting t (rw (e, is_pending) h) p (ground (arith, idle))

  behind : (s : Slot T) (l : List (Slot T)) (p : Phase T) → s.phase ≡ p → Where l → Where (s ∷ l)
  behind s l pending e w = behind_pending s l e w
  behind s l (reported r) e w = behind_reported s r l e w
  behind s l launched e w = running 0 s refl (ground arith)
  behind s l _ e w = running 0 s refl (ground arith)

  where_next : (l : List (Slot T)) → Where l
  where_next [] = over [] refl
  where_next (s ∷ l) = behind s l s.phase refl (where_next l)

module _ {T W : Type 0} (g : Group) (a : Adapter T W) where
  module _ (c : Config T W) (i : ℕ) (s : Slot T) (there : get_elem? c.slots i ≡ some s) where
    less :
        (y : Slot T) → steps_left y < steps_left s → work_left (set c.slots i y) < work_left c.slots
    less y h = omega (arith, sum_by-set steps_left c.slots i s y there)

    answered :
        (w : W) (k : AdapterCall) (o : Option (Result T)) (q : Phase T)
        → steps_left (enter s q) < steps_left s
        → 1 < steps_left s
        → work_left (continue (record c { world = w }) i (call s k) o q).slots < work_left c.slots
    answered w k none q h one = less (enter (call s k) q) h
    answered w k (some r) q h one = less (enter (call s k) (finished r)) (omega arith)

    running_goes :
        (p : Phase T)
        → s.phase ≡ p
        → is_active s ≡ true
        → work_left (advance_slot g a c i s p).slots < work_left c.slots
    unfolding advance_slot
    running_goes pending e on = absurd (ground arith)
    running_goes launched e on = elim (Bool-cases c.cancelled) [
      | inl off ↦ ground (arith, off, less (enter s (finished (not_attempted s.item))))
      | inr go ↦ ground (arith, go, less (record s { phase = started; start = c.elapsed }))
    ]
    running_goes started e on =
        answered (a.preflight s.item c.world).1 preflighted
          (after_preflight s.item (a.preflight s.item c.world).0) checked (ground arith)
          (ground arith)
    running_goes checked e on =
        answered (a.mutate s.item c.world).1 mutated
          (after_mutate s.item (a.mutate s.item c.world).0) Phase.mutated (ground arith)
          (ground arith)
    running_goes Phase.mutated e on =
        less (enter (call s verified) (finished (after_verify s.item (a.verify s.item c.world).0)))
          (ground arith)
    running_goes (finished r) e on = less (enter s (reported r)) (ground arith)
    running_goes (reported r) e on = absurd (ground arith)

    waiting_goes :
        s.phase ≡ pending
        → i ≡ next_pending c.slots
        → count is_active c.slots ≡ 0
        → 0 < c.limit
        → work_left (advance_slot g a c i s pending).slots < work_left c.slots
    unfolding advance_slot
    waiting_goes e here idle room =
        let go : (eqb i (next_pending c.slots) && g.admits (count is_active c.slots) c.limit)
            ≡ true =
          ground
            (arith, g.eager (count is_active c.slots) c.limit, eqb_iff i (next_pending c.slots)) in
        rw go (less (enter s launched) (ground arith))

    advance_slot-le :
        (p : Phase T) → s.phase ≡ p → work_left (advance_slot g a c i s p).slots ≤ work_left c.slots
    unfolding advance_slot
    advance_slot-le pending e =
        elim (Bool-cases
          (eqb i (next_pending c.slots) && g.admits (count is_active c.slots) c.limit)) [
            | inl go ↦ rw go (omega (arith, less (enter s launched) (ground arith)))
            | inr stay ↦ rw stay (omega arith)
          ]
    advance_slot-le (reported r) e = omega arith
    advance_slot-le launched e = omega (arith, running_goes launched e (ground arith))
    advance_slot-le started e = omega (arith, running_goes started e (ground arith))
    advance_slot-le checked e = omega (arith, running_goes checked e (ground arith))
    advance_slot-le Phase.mutated e = omega (arith, running_goes Phase.mutated e (ground arith))
    advance_slot-le (finished r) e = omega (arith, running_goes (finished r) e (ground arith))

  move-le : (c : Config T W) (m : Move W) → work_left (move g a c m).slots ≤ work_left c.slots
  unfolding move
  move-le c (go_on i) = elim (Option-cases (get_elem? c.slots i)) [
    | inl missing ↦ rw (missing, advance) (omega arith)
    | inr (s, there) ↦ rw (advance-eq g a c i s there) (advance_slot-le c i s there s.phase refl)
  ]
  move-le c cancel = omega arith
  move-le c (tick d) = omega arith
  move-le c (interfere w) = omega arith

  limit-move : (c : Config T W) (m : Move W) → (move g a c m).limit ≡ c.limit
  unfolding move advance advance_slot
  limit-move c (go_on i) = ground arith
  limit-move c cancel = refl
  limit-move c (tick d) = refl
  limit-move c (interfere w) = refl

  play-le :
      (c : Config T W) (ms : List (Move W)) → work_left (play g a c ms).slots ≤ work_left c.slots
  unfolding play
  play-le c [] = omega arith
  play-le c (m ∷ ms) = omega (arith, move-le c m, play-le (move g a c m) ms)

  limit-play : (c : Config T W) (ms : List (Move W)) → (play g a c ms).limit ≡ c.limit
  unfolding play
  limit-play c [] = refl
  limit-play c (m ∷ ms) = limit-play (move g a c m) ms ∙ limit-move c m

  -- some goroutine can go on, and gets closer to its end
  not_stuck :
      (c : Config T W)
      → 0 < c.limit
      → ((rs : List (Result T)) × (results c.slots ≡ some rs))
        ⊎ ((i : ℕ) × (work_left (move g a c (go_on i)).slots < work_left c.slots))
  unfolding move
  not_stuck c room = elim (where_next c.slots) [
    | over rs h ↦ inl (rs, h)
    | running i s there on ↦
        inr (i, rw (advance-eq g a c i s there) (running_goes c i s there s.phase refl on))
    | waiting s there e idle ↦ inr (
      next_pending c.slots,
      rw (advance-eq g a c (next_pending c.slots) s there, e)
          (waiting_goes c (next_pending c.slots) s there e refl idle room),
    )
  ]

  completes :
      (n : ℕ) (c : Config T W)
      → work_left c.slots ≤ n
      → 0 < c.limit
      → (is : List ℕ) × (rs : List (Result T)) × (results (play g a c (map go_on is)).slots
          ≡ some rs)
        × (length is ≤ n)
  unfolding play
  completes zero c fuel room = elim (not_stuck c room) [
    | inl (rs, h) ↦ ([], rs, h, omega arith)
    | inr (i, closer) ↦ absurd (omega arith)
  ]
  completes (suc n) c fuel room = elim (not_stuck c room) [
    | inl (rs, h) ↦ ([], rs, h, omega arith)
    | inr (i, closer) ↦
        let (is, rs, h, short) =
          completes n (move g a c (go_on i)) (omega arith) (rw (limit-move c (go_on i)) room) in
        (i ∷ is, rs, h, omega arith)
  ]

module _ {T W : Type 0} where
  initial-work :
      (items : List T) (w : W) (z : ℤ) → work_left (initial items w z).slots ≡ 6 * length items
  initial-work [] w z = refl
  initial-work (t ∷ items) w z = omega (arith, initial-work items w z)

clamp-pos : (z : ℤ) → 0 < clamp_concurrency z
clamp-pos z = ground arith

-- No deadlock: whatever has happened to a batch so far, its goroutines can bring it to its end, in
-- at most six steps for each item.
pub execute_completes :
    {T W : Type 0} (g : Group) (a : Adapter T W) (items : List T) (w : W) (concurrency : ℤ)
    (ms : List (Move W))
    → (is : List ℕ) × (rs : List (Result T)) × (results
          (play g a (play g a (initial items w concurrency) ms) (map go_on is)).slots
        ≡ some rs)
      × (length is ≤ 6 * length items)
execute_completes g a items w z ms =
    completes g a (6 * length items) (play g a (initial items w z) ms)
      (omega (arith, play-le g a (initial items w z) ms, initial-work items w z))
      (rw (limit-play g a (initial items w z) ms) (clamp-pos z))
