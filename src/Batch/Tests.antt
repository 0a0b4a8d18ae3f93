-- ===== src/Batch/Tests.antt =====
-- Tests of internal/batch, and the theorems about it at concrete inputs.
use inventree_mcp.Prelude.{
  ℕ, eqb, if◌then◌else◌, ◌+◌, ◌*◌, ◌≤◌, String, none, some, List, [], ◌∷◌, true, false, ◌≡◌, refl,
  arith, ltb, ltb→lt, lt→ltb, pos, negsuc, is_positive, ok, err, map, count, length,
}
use inventree_mcp.GoMap.{get, put, delete, retain}
use inventree_mcp.Batch.Store.{
  capacity, RawOptions, Store, Digestible, unexpired, supersede, new_store, issue_locked, issue,
  consume,
}
use inventree_mcp.Batch.Store.Invariant.{IsValid, new_store-IsValid, issue-IsValid}
use inventree_mcp.Batch.Store.Refusal.{refused_issue}
use inventree_mcp.Batch.Store.Refinement.{
  Ledger, Shows, ledger_after, ledger_consume, requested, ledger_accepts, issue-Shows,
  consume-Shows,
}
use inventree_mcp.Batch.Store.History.{
  run-IsValid, Call, issuing, consuming, run, issues_of, accepts_of, Justified, single_use,
  consume_needs_issue,
}
use inventree_mcp.Batch.Execute
use inventree_mcp.Batch.Execute.{
  Adapter, Group, Config, Slot, Move, go_on, initial, play, advance, results, run_one, is_active,
  cancel,
}
use inventree_mcp.Batch.Execute.Items.{calls_of, execute_results}
use inventree_mcp.Batch.Execute.Bounds.{execute_limits}
use inventree_mcp.Batch.Execute.Disjoint.{IsLocal, Spares, AreDisjoint}
use inventree_mcp.Batch.Execute.Sequential.{execute_sequential}
use inventree_mcp.Batch.Execute.Completion.{execute_completes}

program : Unit {0}
unfolding new_store issue consume supersede get put delete retain play advance run_one
program = tt

-- A plan is a text that is its own digest; two plans share a key if they are the same text.
instance abbrev text_plan : Digestible String
text_plan = record { digest = λ p. ok p }

-- The limits of one entry leave no room for a second one.
abbrev raw : RawOptions String String (Unit {0})
raw = record {
  id_generator = some tt;
  principal = some (λ ctx. ctx);
  supersede_key = some (λ plan. plan);
  lifetime = negsuc 0;
  max_entries = pos 1;
  max_entries_per_principal = pos 0;
}

abbrev fresh : Store String String (Unit {0})
fresh = record {
  entries = [];
  opts = record {
    id_generator = tt;
    principal = λ ctx. ctx;
    supersede_key = λ plan. plan;
    lifetime = pos 300000000000;
    max_entries = pos 1;
    max_entries_per_principal = pos 64;
  };
}

fresh_lem : new_store raw ≡ ok fresh
unfolding program
fresh_lem = refl

fresh-IsValid : IsValid fresh
fresh-IsValid = (new_store-IsValid raw fresh_lem).0

abbrev one : Store String String (Unit {0})
one = (issue fresh "alice" 10 (ok "t1") "plan").1

one-IsValid : IsValid one
one-IsValid = issue-IsValid fresh "alice" 10 (ok "t1") "plan" fresh-IsValid

issue_twice : (issue one "alice" 11 (ok "t2") "plan").0 ≡ ok "t2"
unfolding program
issue_twice = refl

issue_full : (issue one "bob" 11 (ok "t2") "plan").0 ≡ err capacity
unfolding program
issue_full = refl

consume_once : (consume one "alice" "t1" 11 "plan").0 ≡ true
unfolding program
consume_once = refl

consume_stranger : (consume one "bob" "t1" 11 "plan").0 ≡ false
unfolding program
consume_stranger = refl

consume_late : (consume one "alice" "t1" 300000000010 "plan").0 ≡ false
unfolding program
consume_late = refl

refused_issue_example :
    (issue_locked one 11 "bob" "plan" "plan" "t2").1.entries ≡ retain (unexpired 11) one.entries
unfolding program
refused_issue_example = refused_issue one 11 "bob" "plan" "plan" "t2" one-IsValid refl

abbrev blank : Ledger
blank j = none

fresh-Shows : Shows 10 fresh blank
unfolding program
fresh-Shows = record { at = λ later j h. refl }

abbrev noted : Ledger
noted =
    ledger_after blank (requested fresh.opts "alice" 10 "plan")
      (issue fresh "alice" 10 (ok "t1") "plan").0

issue-Shows_example : Shows 10 one noted
issue-Shows_example = issue-Shows fresh "alice" 10 (ok "t1") "plan" blank fresh-IsValid fresh-Shows

consume-Shows_example :
    ((consume one "alice" "t1" 10 "plan").0 ≡ ledger_accepts noted one "alice" "t1" 10 "plan")
    × Shows 10 (consume one "alice" "t1" 10 "plan").1 (ledger_consume noted "t1")
unfolding program
consume-Shows_example =
    consume-Shows one "alice" "t1" 10 "plan" noted one-IsValid issue-Shows_example

abbrev calls : List (Call String String)
calls =
    issuing "alice" 10 (ok "t1") "plan"
    ∷ consuming "bob" "t1" 11 "plan"
    ∷ consuming "alice" "t1" 12 "plan"
    ∷ consuming "alice" "t1" 13 "plan"
    ∷ []

run-IsValid_example :
    IsValid (run fresh [] calls).0
    × (is_positive fresh.opts.max_entries ≡ true)
    × (is_positive fresh.opts.max_entries_per_principal ≡ true)
run-IsValid_example = run-IsValid raw fresh calls fresh_lem

single_use_example :
    count (accepts_of "t1") (run fresh [] calls).1 ≤ count (issues_of "t1") (run fresh [] calls).1
single_use_example = single_use raw fresh calls "t1" fresh_lem

consume_needs_issue_example : Justified fresh.opts (run fresh [] calls).1
consume_needs_issue_example = consume_needs_issue raw fresh calls fresh_lem

-- `errgroup` as documented: a goroutine starts exactly while fewer than the limit run.
abbrev documented : Group
documented = record { admits = ltb; bounded = ltb→lt; eager = lt→ltb }

-- An upstream number that each item adds itself to; item 3 fails its preflight.
abbrev adder : Adapter ℕ ℕ
adder = record {
  preflight = λ t w. ((false, "", if eqb t 3 then some "drift" else none), w);
  mutate = λ t w. (none, w + t);
  verify = λ t w. (none, w);
}

-- Two workers: item 1 and item 3 start together, item 5 only when one of them is done.
abbrev schedule : List (Move ℕ)
schedule = map go_on (0 ∷ 1 ∷ 2 ∷ 0 ∷ 1 ∷ 0 ∷ 1 ∷ 0 ∷ 1 ∷ 2 ∷ 0 ∷ 0 ∷ 2 ∷ 2 ∷ 2 ∷ 2 ∷ 2 ∷ [])

abbrev finished : Config ℕ ℕ
finished = play documented adder (initial (1 ∷ 3 ∷ 5 ∷ []) 0 (pos 2)) schedule

abbrev outcomes : List (Execute.Result ℕ)
outcomes = map (λ t. (run_one adder t 0).0) (1 ∷ 3 ∷ 5 ∷ [])

finished_lem : results finished.slots ≡ some outcomes
unfolding program
finished_lem = refl

execute_results_example :
    (map (λ r. r.item) outcomes ≡ 1 ∷ 3 ∷ 5 ∷ [])
    × (map (λ r. calls_of r.outcome r.attempted) outcomes ≡ map (λ s. s.calls) finished.slots)
execute_results_example =
    execute_results documented adder (1 ∷ 3 ∷ 5 ∷ []) 0 (pos 2) schedule outcomes finished_lem

execute_limits_example :
    (count is_active finished.slots ≤ 2) × (finished.upstream ≤ 2 * finished.elapsed)
execute_limits_example = execute_limits documented adder (1 ∷ 3 ∷ 5 ∷ []) 0 (pos 2) schedule

-- An adapter that adds one to the quantity of its own item, and reads it back.
abbrev shelf : Adapter ℕ (ℕ → ℕ)
shelf = record {
  preflight = λ t w. ((false, "", if eqb t 3 then some "drift" else none), w);
  mutate = λ t w. (none, λ k. if eqb k t then w k + 1 else w k);
  verify = λ t w. (if eqb (w t) 8 then none else some "stale", w);
}

abbrev quantity : ℕ → (ℕ → ℕ) → ℕ
quantity t w = w t

shelf-IsLocal : IsLocal shelf quantity
shelf-IsLocal = record {
  preflight_answer = λ t w w' h. refl;
  preflight_view = λ t w w' h. h;
  mutate_answer = λ t w w' h. refl;
  mutate_view = λ t w w' h. rw h refl;
  verify_answer = λ t w w' h. rw h refl;
}

shelf-Spares : (t other : ℕ) → eqb other t ≡ false → Spares shelf quantity t other
shelf-Spares t other h = record {
  preflight = λ w. refl;
  mutate = λ w. rw h refl;
  verify = λ w. refl;
}

shelf-AreDisjoint : AreDisjoint shelf quantity (1 ∷ 3 ∷ 5 ∷ [])
shelf-AreDisjoint i j t other here there apart = shelf-Spares t other (grind arith)

-- Seven of each at first; item 5 is stale in the end, for it began with one more.
abbrev stocked : ℕ → ℕ
stocked k = if eqb k 5 then 8 else 7

-- Two workers, as in `schedule`.
abbrev shelf_schedule : List (Move (ℕ → ℕ))
shelf_schedule = map go_on (0 ∷ 1 ∷ 2 ∷ 0 ∷ 1 ∷ 0 ∷ 1 ∷ 0 ∷ 1 ∷ 2 ∷ 0 ∷ 0 ∷ 2 ∷ 2 ∷ 2 ∷ 2 ∷ 2 ∷ [])

abbrev shelf_outcomes : List (Execute.Result ℕ)
shelf_outcomes =
    Execute.result 1 Execute.applied true "" ""
    ∷ Execute.result 3 Execute.failed true "" Execute.failed_preflight_recovery
    ∷ Execute.result 5 Execute.unverified true Execute.unverified_attempt_message
        Execute.unverified_recovery
    ∷ []

abbrev shelved : Config ℕ (ℕ → ℕ)
shelved = play documented shelf (initial (1 ∷ 3 ∷ 5 ∷ []) stocked (pos 2)) shelf_schedule

shelved_lem : results shelved.slots ≡ some shelf_outcomes
unfolding program
shelved_lem = refl

execute_sequential_example :
    shelf_outcomes ≡ map (λ t. (run_one shelf t stocked).0) (1 ∷ 3 ∷ 5 ∷ [])
execute_sequential_example =
    execute_sequential documented shelf quantity shelf-IsLocal stocked (1 ∷ 3 ∷ 5 ∷ []) (pos 2)
      shelf_schedule shelf_outcomes shelf-AreDisjoint tt shelved_lem

-- A batch that is cancelled at once still reports every item.
execute_completes_example :
    (is : List ℕ) × (rs : List (Execute.Result ℕ)) × (results
        (play documented adder
          (play documented adder (initial (1 ∷ 3 ∷ []) 0 (pos 1)) (cancel ∷ []))
          (map go_on is)).slots
      ≡ some rs)
    × (length is ≤ 6 * 2)
execute_completes_example = execute_completes documented adder (1 ∷ 3 ∷ []) 0 (pos 1) (cancel ∷ [])
