-- ===== src/Batch/Store/Refinement.antt =====
-- The store of internal/batch/store.go against a ledger that forgets nothing by itself: a function
-- from tokens to entries, changed only by an accepted `Issue` or `Consume`.
use inventree_mcp.Prelude.{
  ℕ, ◌≤◌, String, Option, none, some, Bool, false, not, ◌≡◌, refl, ◌∙◌, ◌==◌, if◌then◌else◌, arith,
  Result, ok, err, Result-cases, inl, inr,
}
use inventree_mcp.GoMap.{get, retain, filter_value}
use inventree_mcp.GoMap.Laws.{get-put, get-delete, get-retain, retain-IsMap}
use inventree_mcp.Batch.Store.{
  Error, capacity, Entry, Options, Store, Digestible, unexpired, authorizes, supersede, new_entry,
  issue_locked, issue, consume_locked, consume,
}
use inventree_mcp.Batch.Store.Invariant.{IsValid, is_for, supersede-retain}
use inventree_mcp.Batch.Store.Refusal.{refused_issue}

abbrev pub Ledger : Type 0
Ledger = String → Option Entry

-- A new entry takes the place of the one for its principal and key.
abbrev pub ledger_issue : Ledger → Entry → String → Ledger
ledger_issue l e token j =
    if token == j
    then some e
    else filter_value (λ o. not (is_for e.principal e.supersede_key o)) (l j)

abbrev pub ledger_consume : Ledger → String → Ledger
ledger_consume l token j = if token == j then none else l j

-- What the ledger records of an `Issue`, by what `Issue` returned.
abbrev pub ledger_after : Ledger → Option Entry → Result Error String → Ledger
ledger_after l (some e) (ok token) = ledger_issue l e token
ledger_after l _ _ = l

-- From `now` on, the store and the ledger show the same unexpired entries.
pub record Shows {P C G : Type 0} (now : ℕ) (s : Store P C G) (l : Ledger) : Type 0 where
  pub at :
      (later : ℕ) (j : String)
      → now ≤ later
      → filter_value (unexpired later) (get j s.entries) ≡ filter_value (unexpired later) (l j)

-- What has expired stays expired.
sweep_later :
    (now later : ℕ) (o : Option Entry)
    → now ≤ later
    → filter_value (unexpired later) (filter_value (unexpired now) o)
      ≡ filter_value (unexpired later) o
sweep_later now later o h = ground arith

sweep_swap :
    (later : ℕ) (keep : Entry → Bool) (o : Option Entry)
    → filter_value (unexpired later) (filter_value keep o)
      ≡ filter_value keep (filter_value (unexpired later) o)
sweep_swap later keep o = ground arith

-- The comparison tests the expiry itself.
authorizes_sweep :
    (now : ℕ) (p k dg : String) (o : Option Entry)
    → authorizes now dg p k (filter_value (unexpired now) o) ≡ authorizes now dg p k o
authorizes_sweep now p k dg o = ground arith

module _ {P C G : Type 0} (s : Store P C G) (now : ℕ) (p k dg token : String) (v : IsValid s) where
  abbrev granted : Entry
  granted = new_entry s.opts now p k dg

  abbrev keep : Entry → Bool
  keep e = not (is_for p k e)

  get-kept :
      (j : String)
      → get j (supersede p k (retain (unexpired now) s.entries)).0
        ≡ filter_value keep (filter_value (unexpired now) (get j s.entries))
  get-kept j = rw (supersede-retain p k (retain (unexpired now) s.entries)) (
      rw
        (get-retain keep j (retain (unexpired now) s.entries)
          (retain-IsMap (unexpired now) s.entries v.distinct))
        (rw (get-retain (unexpired now) j s.entries v.distinct)))

  module _ (l : Ledger) (shows : Shows now s l) where
    issued_Shows :
        {t : String}
        → (issue_locked s now p k dg token).0 ≡ ok t
        → Shows now (issue_locked s now p k dg token).1 (ledger_issue l granted token)
    unfolding issue_locked
    issued_Shows accepted = record {
      at = λ later j h. ground (
        arith,
        get-put token j granted (supersede p k (retain (unexpired now) s.entries)).0,
        get-kept j,
        sweep_later now later (get j s.entries) h,
        sweep_swap later keep (filter_value (unexpired now) (get j s.entries)),
        sweep_swap later keep (l j),
        shows.at later j h,
      );
    }

    refused_Shows :
        {e : Error}
        → (issue_locked s now p k dg token).0 ≡ err e
        → Shows now (issue_locked s now p k dg token).1 l
    refused_Shows refused = record {
      at = λ later j h. rw (refused_issue s now p k dg token v (only_capacity refused)) (
          rw (get-retain (unexpired now) j s.entries v.distinct)
            (sweep_later now later (get j s.entries) h ∙ shows.at later j h));
    }
      where
        only_capacity :
            {e : Error}
            → (issue_locked s now p k dg token).0 ≡ err e
            → (issue_locked s now p k dg token).0 ≡ err capacity
        only_capacity r = unfold issue_locked in ground arith

    locked_Shows :
        Shows now
          (issue_locked s now p k dg token).1
          (ledger_after l (some granted) (issue_locked s now p k dg token).0)
    locked_Shows = elim (Result-cases (issue_locked s now p k dg token).0) [
      | inl (t, accepted) ↦ rw accepted (rw (issued_token accepted) (issued_Shows accepted))
      | inr (e, refused) ↦ rw refused (refused_Shows refused)
    ]
      where
        issued_token : {t : String} → (issue_locked s now p k dg token).0 ≡ ok t → t ≡ token
        issued_token accepted = unfold issue_locked in ground arith

    decision : (consume_locked s now p k dg token).0 ≡ authorizes now dg p k (l token)
    unfolding consume_locked
    decision = rw (get-retain (unexpired now) token s.entries v.distinct) (
        ground (
          arith,
          authorizes_sweep now p k dg (get token s.entries),
          authorizes_sweep now p k dg (l token),
          shows.at now token (omega arith),
        ))

    consumed_Shows :
        Shows now
          (consume_locked s now p k dg token).1
          (if authorizes now dg p k (l token) then ledger_consume l token else l)
    consumed_Shows = rw (← decision) (record {
      at = λ later j h.
          unfold consume_locked in
          ground (
            arith,
            get-delete token j (retain (unexpired now) s.entries),
            get-retain (unexpired now) j s.entries v.distinct,
            sweep_later now later (get j s.entries) h,
            shows.at later j h,
          );
    })

module _ {P C G : Type 0} ⦃d : Digestible P⦄ where
  -- the entry that `Issue` asks for
  abbrev pub requested : Options P C G → C → ℕ → P → Option Entry
  requested opts ctx now plan = elim (d.digest plan) [
    | err e ↦ none
    | ok dg ↦ some (new_entry opts now (opts.principal ctx) (opts.supersede_key plan) dg)
  ]

  -- what the ledger says of a `Consume`
  abbrev pub ledger_accepts : Ledger → Store P C G → C → String → ℕ → P → Bool
  ledger_accepts l s ctx token now plan = elim (d.digest plan) [
    | err e ↦ false
    | ok dg ↦ authorizes now dg (s.opts.principal ctx) (s.opts.supersede_key plan) (l token)
  ]

  -- `Issue` refines the ledger: an accepted one replaces the entry of its principal and key by the
  -- new one, and a refused or failed one leaves every unexpired entry as it was.
  pub issue-Shows :
      (s : Store P C G) (ctx : C) (now : ℕ) (draw : Result Error String) (plan : P) (l : Ledger)
      → IsValid s
      → Shows now s l
      → Shows now
          (issue s ctx now draw plan).1
          (ledger_after l (requested s.opts ctx now plan) (issue s ctx now draw plan).0)
  unfolding issue
  issue-Shows s ctx now draw plan l v shows = elim (Result-cases (d.digest plan)) [
    | inr (e, bad) ↦ rw (bad, issue, requested) shows
    | inl (dg, good) ↦ elim (Result-cases draw) [
      | inr (e, bad) ↦ rw (good, issue, requested, bad) shows
      | inl (token, drawn) ↦
          rw (good, issue, requested, drawn)
            (locked_Shows s now (s.opts.principal ctx) (s.opts.supersede_key plan) dg token v l
              shows)
    ]
  ]

  -- `Consume` refines the ledger: from a store that satisfies the invariant it accepts exactly what
  -- the ledger accepts, an accepted token is spent, and otherwise every unexpired entry stays.
  pub consume-Shows :
      (s : Store P C G) (ctx : C) (token : String) (now : ℕ) (plan : P) (l : Ledger)
      → IsValid s
      → Shows now s l
      → ((consume s ctx token now plan).0 ≡ ledger_accepts l s ctx token now plan)
        × Shows now
            (consume s ctx token now plan).1
            (if ledger_accepts l s ctx token now plan then ledger_consume l token else l)
  unfolding consume
  consume-Shows s ctx token now plan l v shows = elim (Result-cases (d.digest plan)) [
    | inr (e, bad) ↦ rw (bad, consume, ledger_accepts) (refl, shows)
    | inl (dg, good) ↦
        let principal : String = s.opts.principal ctx in
        let key : String = s.opts.supersede_key plan in
        rw (good, consume, ledger_accepts)
          (
            decision s now principal key dg token v l shows,
            consumed_Shows s now principal key dg token v l shows,
          )
  ]
