-- ===== src/Batch/Store/Refusal.antt =====
-- A refused `Issue` of internal/batch/store.go: the loop that drops superseded entries has run by
-- then, so it must be shown that it dropped none.
use inventree_mcp.Prelude.{ℕ, ◌+◌, String, [], ◌∷◌, ◌≡◌, refl, arith, length, err}
use inventree_mcp.GoMap.{Assoc, retain, count_values}
use inventree_mcp.GoMap.Laws.{length-retain-le, count_values-retain-le}
use inventree_mcp.Batch.Store.{capacity, Entry, Store, unexpired, supersede, issue_locked}
use inventree_mcp.Batch.Store.Invariant.{IsValid, is_of, is_for}

module _ (p k : String) where
  length-supersede :
      (m : Assoc Entry) → length (supersede p k m).0 + count_values (is_for p k) m ≡ length m
  unfolding supersede count_values
  length-supersede [] = omega arith
  length-supersede ((t, e) ∷ m) = ground (arith, length-supersede m)

  supersede-split :
      (m : Assoc Entry)
      → (supersede p k m).1 + count_values (is_for p k) m ≡ count_values (is_of p) m
  unfolding supersede count_values
  supersede-split [] = omega arith
  supersede-split ((t, e) ∷ m) = ground (arith, supersede-split m)

  supersede_nothing : (m : Assoc Entry) → count_values (is_for p k) m ≡ 0 → (supersede p k m).0 ≡ m
  unfolding supersede count_values
  supersede_nothing [] h = refl
  supersede_nothing ((t, e) ∷ m) h = ground (arith, supersede_nothing m)

module _ {P C G : Type 0} where
  -- In a store that satisfies the invariant, an `Issue` refused for capacity has dropped only
  -- expired entries: the token that it would have superseded cannot have been there.
  pub refused_issue :
      (s : Store P C G) (now : ℕ) (p k dg token : String)
      → IsValid s
      → (issue_locked s now p k dg token).0 ≡ err capacity
      → (issue_locked s now p k dg token).1.entries ≡ retain (unexpired now) s.entries
  unfolding issue_locked
  refused_issue s now p k dg token v refused =
      let live : Assoc Entry = retain (unexpired now) s.entries in
      ground (
        arith,
        length-supersede p k live,
        supersede-split p k live,
        supersede_nothing p k live,
        length-retain-le (unexpired now) s.entries,
        count_values-retain-le (is_of p) (unexpired now) s.entries,
        v.bounded,
        v.shared p,
      )
