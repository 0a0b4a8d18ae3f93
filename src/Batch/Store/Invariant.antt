-- ===== src/Batch/Store/Invariant.antt =====
-- The invariant of internal/batch/store.go: distinct tokens, one entry for each principal and key,
-- and the two capacities.
use inventree_mcp.Prelude.{
  ℕ, ◌≤◌, String, [], ◌∷◌, Bool, true, not, ◌&&◌, ◌≡◌, refl, ◌==◌, eq_iff, length, arith,
  is_positive, to_nat, Result, ok, Result-cases, inl, inr,
}
use inventree_mcp.GoMap.{Assoc, retain, count_values, IsMap}
use inventree_mcp.GoMap.Laws.{
  retain-IsMap, put-IsMap, delete-IsMap, length-retain-le, length-put-le, length-delete-le,
  count_values-retain-le, count_values-put-le, count_values-delete-le,
}
use inventree_mcp.Batch.Store.{
  Error, RawOptions, Entry, Store, Digestible, unexpired, supersede, new_store, new_entry,
  issue_locked, issue, consume_locked, consume,
}

-- the entries of a principal, and those for one of its keys
abbrev pub is_of : String → Entry → Bool
is_of principal e = e.principal == principal

abbrev pub is_for : String → String → Entry → Bool
is_for principal key e = e.principal == principal && e.supersede_key == key

pub record IsValid {P C G : Type 0} (s : Store P C G) : Type 0 where
  pub distinct : IsMap s.entries
  pub positive_lifetime : is_positive s.opts.lifetime ≡ true
  pub bounded : length s.entries ≤ to_nat s.opts.max_entries
  pub shared :
      (p : String) → count_values (is_of p) s.entries ≤ to_nat s.opts.max_entries_per_principal
  pub single : (p k : String) → count_values (is_for p k) s.entries ≤ 1

-- The loop of `Issue` is a filter.
pub supersede-retain :
    (p k : String) (m : Assoc Entry) → (supersede p k m).0 ≡ retain (λ e. not (is_for p k e)) m
unfolding supersede retain
supersede-retain p k [] = refl
supersede-retain p k ((t, e) ∷ m) = ground (arith, supersede-retain p k m)

-- What it counts are the principal's entries that stay.
pub supersede-count :
    (p k : String) (m : Assoc Entry)
    → (supersede p k m).1 ≡ count_values (is_of p) (supersede p k m).0
unfolding supersede count_values
supersede-count p k [] = refl
supersede-count p k ((t, e) ∷ m) = ground (arith, supersede-count p k m)

pub supersede-none :
    (p k : String) (m : Assoc Entry) → count_values (is_for p k) (supersede p k m).0 ≡ 0
unfolding supersede count_values
supersede-none p k [] = refl
supersede-none p k ((t, e) ∷ m) = ground (arith, supersede-none p k m)

module _ {P C G : Type 0} where
  -- A new store, whatever the options left out, satisfies the invariant with positive limits.
  pub new_store-IsValid :
      (raw : RawOptions P C G) {s : Store P C G}
      → new_store raw ≡ ok s
      → IsValid s
        × (is_positive s.opts.max_entries ≡ true)
        × (is_positive s.opts.max_entries_per_principal ≡ true)
  unfolding new_store count_values
  new_store-IsValid raw h = ground arith

  module _ (s : Store P C G) (now : ℕ) (p k dg token : String) (v : IsValid s) where
    abbrev kept : Assoc Entry
    kept = (supersede p k (retain (unexpired now) s.entries)).0

    kept-IsMap : IsMap kept
    kept-IsMap = rw (supersede-retain p k (retain (unexpired now) s.entries)) (
        retain-IsMap (λ e. not (is_for p k e)) (retain (unexpired now) s.entries)
          (retain-IsMap (unexpired now) s.entries v.distinct))

    length-kept-le : length kept ≤ length s.entries
    length-kept-le = rw (supersede-retain p k (retain (unexpired now) s.entries)) (
        omega (
          arith,
          length-retain-le (λ e. not (is_for p k e)) (retain (unexpired now) s.entries),
          length-retain-le (unexpired now) s.entries,
        ))

    count-kept-le : (test : Entry → Bool) → count_values test kept ≤ count_values test s.entries
    count-kept-le test = rw (supersede-retain p k (retain (unexpired now) s.entries)) (
        omega (
          arith,
          count_values-retain-le test (λ e. not (is_for p k e)) (retain (unexpired now) s.entries),
          count_values-retain-le test (unexpired now) s.entries,
        ))

    issue_locked-IsValid : IsValid (issue_locked s now p k dg token).1
    unfolding issue_locked
    issue_locked-IsValid = record {
      distinct =
          ground (arith, kept-IsMap, put-IsMap token (new_entry s.opts now p k dg) kept kept-IsMap);
      positive_lifetime = ground (arith, v.positive_lifetime);
      bounded = ground (
        arith,
        length-kept-le,
        length-put-le token (new_entry s.opts now p k dg) kept,
        v.bounded,
      );
      shared = λ q. ground (
        arith,
        count-kept-le (is_of q),
        count_values-put-le (is_of q) token (new_entry s.opts now p k dg) kept,
        v.shared q,
        supersede-count p k (retain (unexpired now) s.entries),
        eq_iff p q,
      );
      single = λ q l. ground (
        arith,
        count-kept-le (is_for q l),
        count_values-put-le (is_for q l) token (new_entry s.opts now p k dg) kept,
        v.single q l,
        supersede-none p k (retain (unexpired now) s.entries),
        eq_iff p q,
        eq_iff k l,
      );
    }

    consume_locked-IsValid : IsValid (consume_locked s now p k dg token).1
    unfolding consume_locked
    consume_locked-IsValid = record {
      distinct = ground (
        arith,
        retain-IsMap (unexpired now) s.entries v.distinct,
        delete-IsMap token (retain (unexpired now) s.entries),
      );
      positive_lifetime = ground (arith, v.positive_lifetime);
      bounded = ground (
        arith,
        length-retain-le (unexpired now) s.entries,
        length-delete-le token (retain (unexpired now) s.entries),
        v.bounded,
      );
      shared = λ q. ground (
        arith,
        count_values-retain-le (is_of q) (unexpired now) s.entries,
        count_values-delete-le (is_of q) token (retain (unexpired now) s.entries),
        v.shared q,
      );
      single = λ q l. ground (
        arith,
        count_values-retain-le (is_for q l) (unexpired now) s.entries,
        count_values-delete-le (is_for q l) token (retain (unexpired now) s.entries),
        v.single q l,
      );
    }

  module _ ⦃d : Digestible P⦄ where
    -- Whatever `Issue` returns, it keeps the invariant: distinct tokens, one entry for each
    -- principal and key, and both capacities.
    pub issue-IsValid :
        (s : Store P C G) (ctx : C) (now : ℕ) (draw : Result Error String) (plan : P)
        → IsValid s
        → IsValid (issue s ctx now draw plan).1
    unfolding issue
    issue-IsValid s ctx now draw plan v = elim (Result-cases (d.digest plan)) [
      | inr (e, bad) ↦ rw (bad, issue) v
      | inl (dg, good) ↦ elim (Result-cases draw) [
        | inr (e, bad) ↦ rw (good, issue, bad) v
        | inl (token, drawn) ↦
            rw (good, issue, drawn)
              (issue_locked-IsValid s now (s.opts.principal ctx) (s.opts.supersede_key plan) dg
                token v)
      ]
    ]

    -- Whether or not `Consume` accepts, it keeps the invariant.
    pub consume-IsValid :
        (s : Store P C G) (ctx : C) (token : String) (now : ℕ) (plan : P)
        → IsValid s
        → IsValid (consume s ctx token now plan).1
    unfolding consume
    consume-IsValid s ctx token now plan v = elim (Result-cases (d.digest plan)) [
      | inr (e, bad) ↦ rw (bad, consume) v
      | inl (dg, good) ↦
          rw (good, consume)
            (consume_locked-IsValid s now (s.opts.principal ctx) (s.opts.supersede_key plan) dg
              token v)
    ]
