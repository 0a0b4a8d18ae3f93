-- ===== src/Batch/Execute.antt =====
-- internal/batch/execute.go: bounded-concurrency execution of independent batch items.
-- `run_one` is `runOne`. `Execute` is a schedule of moves on a configuration: a goroutine goes on
-- by one adapter call at a time, and between two calls anything may happen (other goroutines go on,
-- time passes, the context is cancelled, somebody else changes the upstream state `W`).
pub mod Items
pub mod Bounds
pub mod Disjoint
pub mod Sequential
pub mod Completion
use inventree_mcp.Prelude.{
  ℕ, suc, ◌+◌, ◌-◌, ◌<◌, ◌≡◌, String, Option, none, some, List, [], ◌∷◌, Bool, true, false, ◌&&◌,
  eqb, if◌then◌else◌, ℤ, is_positive, to_nat, get_elem?, set, count, map,
}

pub data Outcome : Type 0 where
  applied skipped failed ambiguous unverified : Outcome

pub record Result (T : Type 0) : Type 0 where
  pub item : T
  pub outcome : Outcome
  pub attempted : Bool
  pub message : String
  pub recovery_plan : String

-- The caller's adapter. An error is a text; `none` is nil.
pub record Adapter (T W : Type 0) : Type 0 where
  pub preflight : T → W → (Bool × String × Option String) × W
  pub mutate : T → W → Option String × W
  pub verify : T → W → Option String × W

abbrev pub not_attempted_message : String
not_attempted_message =
    "not attempted: batch context was cancelled or its deadline expired before this item's turn"

abbrev pub not_attempted_recovery : String
not_attempted_recovery =
    "Re-run a fresh dry run for the remaining items; this item was never touched."

abbrev pub failed_preflight_recovery : String
failed_preflight_recovery =
    "No write was attempted. Prepare a fresh dry run for this item once the reported condition is resolved."

abbrev pub ambiguous_message : String
ambiguous_message = "mutation attempted; result unknown"

abbrev pub ambiguous_recovery : String
ambiguous_recovery =
    "Do not retry blindly. Prepare a fresh dry run and inspect current state before deciding what, if anything, still needs to change."

abbrev pub unverified_attempt_message : String
unverified_attempt_message = "mutation may have completed but could not be confirmed"

abbrev pub unverified_recovery : String
unverified_recovery = ambiguous_recovery

module _ {T : Type 0} where
  abbrev pub result : T → Outcome → Bool → String → String → Result T
  result t o attempted message recovery = record {
    item = t;
    outcome = o;
    attempted = attempted;
    message = message;
    recovery_plan = recovery;
  }

  abbrev pub not_attempted : T → Result T
  not_attempted t = result t unverified false not_attempted_message not_attempted_recovery

  -- The three tests of `runOne`: a result where it returns, `none` where it goes on.
  abbrev pub after_preflight : T → Bool × String × Option String → Option (Result T)
  after_preflight t (skip, reason, some e) =
      some (result t failed true reason failed_preflight_recovery)
  after_preflight t (skip, reason, none) =
      if skip then some (result t skipped true reason "") else none

  abbrev pub after_mutate : T → Option String → Option (Result T)
  after_mutate t (some e) = some (result t ambiguous true ambiguous_message ambiguous_recovery)
  after_mutate t none = none

  abbrev pub after_verify : T → Option String → Result T
  after_verify t (some e) = result t unverified true unverified_attempt_message unverified_recovery
  after_verify t none = result t applied true "" ""

  unfoldable pub run_one : {W : Type 0} → Adapter T W → T → W → Result T × W
  run_one a t w =
      let (checked, w₁) = a.preflight t w in
      elim (after_preflight t checked) [
        | some r ↦ (r, w₁)
        | none ↦
            let (written, w₂) = a.mutate t w₁ in
            elim (after_mutate t written) [
              | some r ↦ (r, w₂)
              | none ↦ let (read, w₃) = a.verify t w₂ in (after_verify t read, w₃)
            ]
      ]

-- Where the goroutine of an item stands. `launched` has a worker slot, `finished` has written its
-- result, `reported` has counted it and called `OnProgress`.
pub data Phase (T : Type 0) : Type 0 where
  pending launched started checked mutated : Phase T
  finished reported : Result T → Phase T

pub data AdapterCall : Type 0 where
  preflighted mutated verified : AdapterCall

-- An item, its goroutine, when it began, and (not in the source) the adapter calls made for it,
-- the latest first.
pub record Slot (T : Type 0) : Type 0 where
  pub item : T
  pub phase : Phase T
  pub start : ℕ
  pub calls : List AdapterCall

pub record Config (T W : Type 0) : Type 0 where
  pub slots : List (Slot T)
  pub world : W
  pub limit : ℕ
  pub cancelled : Bool
  pub elapsed : ℕ
  pub upstream : ℕ
  pub completed : ℕ
  -- the first argument of each `OnProgress` call, the latest first
  pub progress : List ℕ

module _ {T : Type 0} where
  -- the goroutine holds one of the slots of `SetLimit`
  abbrev pub is_active : Slot T → Bool
  is_active s = elim s.phase [ pending ↦ false | reported _ ↦ false | _ ↦ true ]

  abbrev pub is_pending : Slot T → Bool
  is_pending s = elim s.phase [ pending ↦ true | _ ↦ false ]

  -- the first item that `group.Go` has not been called for
  abbrev pub next_pending : List (Slot T) → ℕ
  next_pending [] = 0
  next_pending (s ∷ l) = let rest = next_pending l in if is_pending s then 0 else suc rest

  abbrev pub enter : Slot T → Phase T → Slot T
  enter s p = record s { phase = p }

  abbrev pub call : Slot T → AdapterCall → Slot T
  call s c = record s { calls = c ∷ s.calls }

-- `if concurrency < 1 { concurrency = 1 }`
abbrev pub clamp_concurrency : ℤ → ℕ
clamp_concurrency z = if is_positive z then to_nat z else 1

-- `errgroup.Group` of golang.org/x/sync after `SetLimit`: whether `Go` starts one more goroutine
-- beside `active` others. It blocks while the limit is reached, and only then.
pub record Group : Type 0 where
  pub admits : (active limit : ℕ) → Bool
  pub bounded : (active limit : ℕ) → admits active limit ≡ true → active < limit
  pub eager : (active limit : ℕ) → active < limit → admits active limit ≡ true

module _ {T W : Type 0} where
  abbrev pub initial : List T → W → ℤ → Config T W
  initial items w concurrency = record {
    slots = map (λ t. record { item = t; phase = pending; start = 0; calls = [] }) items;
    world = w;
    limit = clamp_concurrency concurrency;
    cancelled = false;
    elapsed = 0;
    upstream = 0;
    completed = 0;
    progress = [];
  }

  abbrev pub put_slot : Config T W → ℕ → Slot T → Config T W
  put_slot c i s = record c { slots = set c.slots i s }

  -- the goroutine has its result, and adds its own duration
  abbrev pub finish : Config T W → ℕ → Slot T → Result T → Config T W
  finish c i s r = record c {
    slots = set c.slots i (enter s (finished r));
    upstream = c.upstream + (c.elapsed - s.start);
  }

  -- go on in `phase`, or finish
  abbrev pub continue : Config T W → ℕ → Slot T → Option (Result T) → Phase T → Config T W
  continue c i s none phase = put_slot c i (enter s phase)
  continue c i s (some r) phase = finish c i s r

  module _ (g : Group) (a : Adapter T W) where
    pub advance_slot : Config T W → ℕ → Slot T → Phase T → Config T W
    advance_slot c i s pending =
        if eqb i (next_pending c.slots) && g.admits (count is_active c.slots) c.limit
        then put_slot c i (enter s launched)
        else c
    advance_slot c i s launched =
        if c.cancelled
        then put_slot c i (enter s (finished (not_attempted s.item)))
        else put_slot c i (record s { phase = started; start = c.elapsed })
    advance_slot c i s started =
        let (answer, w) = a.preflight s.item c.world in
        continue (record c { world = w }) i (call s AdapterCall.preflighted)
          (after_preflight s.item answer) checked
    advance_slot c i s checked =
        let (answer, w) = a.mutate s.item c.world in
        continue (record c { world = w }) i (call s AdapterCall.mutated)
          (after_mutate s.item answer) Phase.mutated
    advance_slot c i s Phase.mutated =
        let (answer, w) = a.verify s.item c.world in
        finish (record c { world = w }) i (call s AdapterCall.verified) (after_verify s.item answer)
    advance_slot c i s (finished r) = record c {
      slots = set c.slots i (enter s (reported r));
      completed = suc c.completed;
      progress = suc c.completed ∷ c.progress;
    }
    advance_slot c i s (reported r) = c

    -- one step of the goroutine of item `i`, if it can make one
    unfoldable pub advance : Config T W → ℕ → Config T W
    unfolding advance_slot
    advance c i = elim (get_elem? c.slots i) [ none ↦ c | some s ↦ advance_slot c i s s.phase ]

pub data Move (W : Type 0) : Type 0 where
  go_on : ℕ → Move W
  cancel : Move W
  tick : ℕ → Move W
  interfere : W → Move W

module _ {T W : Type 0} (g : Group) (a : Adapter T W) where
  pub move : Config T W → Move W → Config T W
  unfolding advance
  move c (go_on i) = advance g a c i
  move c cancel = record c { cancelled = true }
  move c (tick d) = record c { elapsed = c.elapsed + d }
  move c (interfere w) = record c { world = w }

  unfoldable pub play : Config T W → List (Move W) → Config T W
  unfolding move
  play c [] = c
  play c (m ∷ ms) = play (move c m) ms

module _ {T : Type 0} where
  abbrev pub result_of : Slot T → Option (Result T)
  result_of s = elim s.phase [ reported r ↦ some r | _ ↦ none ]

  -- `group.Wait` returns when every goroutine has returned; then `Execute` returns the results.
  abbrev pub results : List (Slot T) → Option (List (Result T))
  results [] = some []
  results (s ∷ l) = elim (result_of s) [
    | none ↦ none
    | some r ↦ elim (results l) [ none ↦ none | some rs ↦ some (r ∷ rs) ]
  ]
