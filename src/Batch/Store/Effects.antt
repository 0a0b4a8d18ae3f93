-- ===== src/Batch/Store/Effects.antt =====
-- What `Issue` and `Consume` of internal/batch/store.go leave in the map.
use inventree_mcp.Prelude.{
  ℕ, String, Option, none, some, Bool, true, not, ◌≡◌, sym, ap, ◌∙◌, eq_iff, arith, Result, ok, err,
  inl, inr, ◌⊎◌, Result-cases, Option-cases,
}
use inventree_mcp.GoMap.{get, retain, filter_value}
use inventree_mcp.GoMap.Laws.{get-put, get-delete, get-retain, retain-IsMap}
use inventree_mcp.Batch.Store.{
  Error, Entry, Store, Digestible, unexpired, new_entry, supersede, issue_locked, issue,
  consume_locked, consume,
}
use inventree_mcp.Batch.Store.Invariant.{IsValid, is_for, supersede-retain}
use inventree_mcp.Batch.Store.Refinement.{requested}

-- Every entry of the second store is one of the first.
pub record Shrinks {P C G : Type 0} (s s' : Store P C G) : Type 0 where
  pub entry : (j : String) (x : Entry) → get j s'.entries ≡ some x → get j s.entries ≡ some x

filter_value-some :
    (keep : Entry → Bool) (o : Option Entry) (x : Entry) → filter_value keep o ≡ some x → o ≡ some x
filter_value-some keep o x h = ground arith

module _ {P C G : Type 0} (s : Store P C G) (now : ℕ) (p k dg token : String) (v : IsValid s) where
  swept_entry :
      (j : String) (x : Entry)
      → get j (retain (unexpired now) s.entries) ≡ some x
      → get j s.entries ≡ some x
  swept_entry j x h =
      filter_value-some (unexpired now) (get j s.entries) x
        (rw (get-retain (unexpired now) j s.entries v.distinct) at h)

  kept_entry :
      (j : String) (x : Entry)
      → get j (supersede p k (retain (unexpired now) s.entries)).0 ≡ some x
      → get j s.entries ≡ some x
  kept_entry j x h = swept_entry j x (
      filter_value-some (λ e. not (is_for p k e)) (get j (retain (unexpired now) s.entries)) x
        (rw
          (get-retain (λ e. not (is_for p k e)) j (retain (unexpired now) s.entries)
            (retain-IsMap (unexpired now) s.entries v.distinct))
          at (rw (supersede-retain p k (retain (unexpired now) s.entries)) at h)))

  refused_Shrinks :
      {e : Error}
      → (issue_locked s now p k dg token).0 ≡ err e
      → Shrinks s (issue_locked s now p k dg token).1
  unfolding issue_locked
  refused_Shrinks refused = record { entry = λ j x h. ground (arith, kept_entry j x) }

  issued_entry :
      {t : String}
      → (issue_locked s now p k dg token).0 ≡ ok t
      → (j : String) (x : Entry) → get j (issue_locked s now p k dg token).1.entries ≡ some x
      → ((t ≡ j) × (x ≡ new_entry s.opts now p k dg)) ⊎ (get j s.entries ≡ some x)
  unfolding issue_locked
  issued_entry accepted j x h = ground (
    arith,
    kept_entry j x,
    get-put token j (new_entry s.opts now p k dg)
        (supersede p k (retain (unexpired now) s.entries)).0,
    eq_iff token j,
  )

  consumed_entry :
      (j : String) (x : Entry)
      → get j (consume_locked s now p k dg token).1.entries ≡ some x
      → get j s.entries ≡ some x
  unfolding consume_locked
  consumed_entry j x h =
      ground (arith, swept_entry j x, get-delete token j (retain (unexpired now) s.entries))

  consumed_gone :
      (consume_locked s now p k dg token).0 ≡ true
      → get token (consume_locked s now p k dg token).1.entries ≡ none
  unfolding consume_locked
  consumed_gone h =
      ground (arith, get-delete token token (retain (unexpired now) s.entries), eq_iff token token)

  consumed_match :
      (consume_locked s now p k dg token).0 ≡ true
      → (e : Entry) × (get token s.entries ≡ some e)
        × (e.digest ≡ dg)
        × (e.principal ≡ p)
        × (e.supersede_key ≡ k)
        × (unexpired now e ≡ true)
  unfolding consume_locked
  consumed_match h = elim (Option-cases (get token (retain (unexpired now) s.entries))) [
    | inl missing ↦ absurd (ground arith)
    | inr (e, found) ↦ (
      e,
      swept_entry token e found,
      ground (arith, eq_iff e.digest dg),
      ground (arith, eq_iff e.principal p),
      ground (arith, eq_iff e.supersede_key k),
      ground arith,
    )
  ]

module _ {P C G : Type 0} ⦃d : Digestible P⦄ where
  pub record Issued (s : Store P C G) (ctx : C) (now : ℕ) (plan : P) (t : String) (s' : Store P C G)
      : Type 0 where
    pub entry : Entry
    pub asked : requested s.opts ctx now plan ≡ some entry
    pub origin :
        (j : String) (x : Entry)
        → get j s'.entries ≡ some x
        → ((t ≡ j) × (x ≡ entry)) ⊎ (get j s.entries ≡ some x)

  pub record Consumed (s : Store P C G) (ctx : C) (t : String) (now : ℕ) (plan : P)
      (s' : Store P C G) : Type 0 where
    pub entry : Entry
    pub held : get t s.entries ≡ some entry
    pub same_digest : d.digest plan ≡ ok entry.digest
    pub same_principal : entry.principal ≡ s.opts.principal ctx
    pub same_key : entry.supersede_key ≡ s.opts.supersede_key plan
    pub in_time : unexpired now entry ≡ true
    pub gone : get t s'.entries ≡ none

  module _ (s : Store P C G) (v : IsValid s) (ctx : C) (now : ℕ) (plan : P) where
    abbrev principal : String
    principal = s.opts.principal ctx

    abbrev key : String
    key = s.opts.supersede_key plan

    locked :
        (dg : String)
        → d.digest plan ≡ ok dg
        → (token : String)
        → ((t : String) × ((issue_locked s now principal key dg token).0 ≡ ok t)
            × Issued s ctx now plan t (issue_locked s now principal key dg token).1)
          ⊎ ((e : Error) × ((issue_locked s now principal key dg token).0 ≡ err e)
              × Shrinks s (issue_locked s now principal key dg token).1)
    locked dg good token = elim (Result-cases (issue_locked s now principal key dg token).0) [
      | inl (t, accepted) ↦ inl (
        t,
        accepted,
        record {
          entry = new_entry s.opts now principal key dg;
          asked = rw (good, requested);
          origin = issued_entry s now principal key dg token v accepted;
        },
      )
      | inr (e, refused) ↦ inr (e, refused, refused_Shrinks s now principal key dg token v refused)
    ]

    pub issue_effect :
        (draw : Result Error String)
        → ((t : String) × ((issue s ctx now draw plan).0 ≡ ok t)
            × Issued s ctx now plan t (issue s ctx now draw plan).1)
          ⊎ ((e : Error) × ((issue s ctx now draw plan).0 ≡ err e)
              × Shrinks s (issue s ctx now draw plan).1)
    unfolding issue
    issue_effect draw = elim (Result-cases (d.digest plan)) [
      | inr (e, bad) ↦ inr (e, rw (bad, issue), rw (bad, issue) (record { entry = λ j x h. h }))
      | inl (dg, good) ↦ elim (Result-cases draw) [
        | inr (e, bad) ↦
            inr (e, rw (good, issue, bad), rw (good, issue, bad) (record { entry = λ j x h. h }))
        | inl (token, drawn) ↦ rw (good, issue, drawn) (locked dg good token)
      ]
    ]

    pub consume_effect :
        (token : String)
        → Shrinks s (consume s ctx token now plan).1
          × ((consume s ctx token now plan).0 ≡ true
              → Consumed s ctx token now plan (consume s ctx token now plan).1)
    unfolding consume
    consume_effect token = elim (Result-cases (d.digest plan)) [
      | inr (e, bad) ↦ rw (bad, consume) (record { entry = λ j x h. h }, λ h. cc)
      | inl (dg, good) ↦
          rw (good, consume)
            (
              record { entry = consumed_entry s now principal key dg token v },
              λ h.
                  let (e, found, a, b, c, t) = consumed_match s now principal key dg token v h in
                  record {
                    entry = e;
                    held = found;
                    same_digest = good ∙ ap ok (sym a);
                    same_principal = b;
                    same_key = c;
                    in_time = t;
                    gone = consumed_gone s now principal key dg token v h;
                  },
            )
    ]
