-- ===== src/Batch/Store/History.antt =====
-- Any sequence of `Issue` and `Consume` calls on one store of internal/batch/store.go, in the order
-- in which they take its mutex. The clock may go backwards between two calls.
use inventree_mcp.Prelude.{
  is_positive, ℕ, ◌+◌, ◌≤◌, String, Option, none, some, List, [], ◌∷◌, Bool, true, false, ◌≡◌, refl,
  sym, ap, ◌∙◌, ◌==◌, eq_iff, arith, Result, ok, err, Occurs, count, inl, inr, Option-cases,
  Bool-cases,
}
use inventree_mcp.GoMap.{get}
use inventree_mcp.Batch.Store.{
  Error, RawOptions, Options, Entry, Store, Digestible, unexpired, new_store, issue_locked, issue,
  consume_locked, consume,
}
use inventree_mcp.Batch.Store.Invariant.{IsValid, issue-IsValid, consume-IsValid, new_store-IsValid}
use inventree_mcp.Batch.Store.Refinement.{requested}
use inventree_mcp.Batch.Store.Effects.{Shrinks, Issued, Consumed, issue_effect, consume_effect}

pub data Call (P C : Type 0) : Type 0 where
  issuing : C → ℕ → Result Error String → P → Call P C
  consuming : C → String → ℕ → P → Call P C

-- What a call did; `idle` is a refused or failed one.
pub data Event (P C : Type 0) : Type 0 where
  issued : String → C → ℕ → P → Event P C
  accepted : String → C → ℕ → P → Event P C
  idle : Event P C

module _ {P C : Type 0} where
  abbrev pub event_of_issue : Result Error String → C → ℕ → P → Event P C
  event_of_issue (ok token) ctx now plan = issued token ctx now plan
  event_of_issue (err _) ctx now plan = idle

  abbrev pub event_of_consume : Bool → String → C → ℕ → P → Event P C
  event_of_consume true token ctx now plan = accepted token ctx now plan
  event_of_consume false token ctx now plan = idle

module _ {P C G : Type 0} ⦃d : Digestible P⦄ where
  unfoldable pub step : Store P C G → Call P C → Store P C G × Event P C
  step s (issuing ctx now draw plan) =
      let (r, s') = issue s ctx now draw plan in (s', event_of_issue r ctx now plan)
  step s (consuming ctx token now plan) =
      let (r, s') = consume s ctx token now plan in (s', event_of_consume r token ctx now plan)

  -- The events, the latest first, after those of `past`.
  unfoldable pub run :
      Store P C G → List (Event P C) → List (Call P C) → Store P C G × List (Event P C)
  run s past [] = (s, past)
  run s past (c ∷ cs) = let (s', e) = step s c in run s' (e ∷ past) cs

abbrev pub issues_of : {P C : Type 0} → String → Event P C → Bool
issues_of t (issued token _ _ _) = token == t
issues_of t _ = false

abbrev pub accepts_of : {P C : Type 0} → String → Event P C → Bool
accepts_of t (accepted token _ _ _) = token == t
accepts_of t _ = false

abbrev held : Option Entry → ℕ
held none = 0
held (some _) = 1

module _ {P C G : Type 0} ⦃d : Digestible P⦄ where
  -- `Issue` for this plan in this context, at this instant, would have asked for the entry.
  abbrev pub Backed : Options P C G → List (Event P C) → String → Entry → Type 0
  Backed o past t e =
      (ctx : C) × (now : ℕ) × (plan : P) × Occurs (issued t ctx now plan) past
      × (requested o ctx now plan ≡ some e)

  -- Every accepted `Consume` comes after an `Issue` that returned the token for the same
  -- principal, digest and key, and whose lifetime has not passed.
  abbrev pub Justified : Options P C G → List (Event P C) → Type 0
  Justified o [] = Unit
  Justified o (accepted t ctx now plan ∷ past) =
      ((e : Entry) × Backed o past t e
        × (d.digest plan ≡ ok e.digest)
        × (e.principal ≡ o.principal ctx)
        × (e.supersede_key ≡ o.supersede_key plan)
        × (unexpired now e ≡ true))
      × Justified o past
  Justified o (issued _ _ _ _ ∷ past) = Justified o past
  Justified o (idle ∷ past) = Justified o past

  record Sound (o : Options P C G) (past : List (Event P C)) (s : Store P C G) : Type 0 where
    same_opts : s.opts ≡ o
    valid : IsValid s
    backed : (t : String) (e : Entry) → get t s.entries ≡ some e → Backed o past t e
    spent :
        (t : String) → count (accepts_of t) past + held (get t s.entries) ≤ count (issues_of t) past
    justified : Justified o past

  opts-step : (s : Store P C G) (c : Call P C) → (step s c).0.opts ≡ s.opts
  unfolding step issue issue_locked consume consume_locked
  opts-step s (issuing ctx now draw plan) = ground arith
  opts-step s (consuming ctx token now plan) = ground arith

  step-IsValid : (s : Store P C G) (c : Call P C) → IsValid s → IsValid (step s c).0
  unfolding step
  step-IsValid s (issuing ctx now draw plan) v = issue-IsValid s ctx now draw plan v
  step-IsValid s (consuming ctx token now plan) v = consume-IsValid s ctx token now plan v

  held-le :
      (s s' : Store P C G)
      → Shrinks s s'
      → (t : String) → held (get t s'.entries) ≤ held (get t s.entries)
  held-le s s' h t = elim (Option-cases (get t s'.entries)) [
    | inl e ↦ rw e (omega arith)
    | inr (x, e) ↦ rw (e, h.entry t x e) (omega arith)
  ]

  module _ (o : Options P C G) (past : List (Event P C)) (s : Store P C G)
      (h : Sound o past s) where
    -- a call that accepts nothing and issues nothing
    idle-Sound :
        (s' : Store P C G) → s'.opts ≡ s.opts → IsValid s' → Shrinks s s' → Sound o (idle ∷ past) s'
    idle-Sound s' e v less = record {
      same_opts = e ∙ h.same_opts;
      valid = v;
      backed = λ t x f.
          let (ctx, now, plan, there, asked) = h.backed t x (less.entry t x f) in
          (ctx, now, plan, inr there, asked);
      spent = λ t. omega (arith, h.spent t, held-le s s' less t);
      justified = h.justified;
    }

    issued-Sound :
        (ctx : C) (now : ℕ) (plan : P) (t : String) (s' : Store P C G)
        → s'.opts ≡ s.opts
        → IsValid s'
        → Issued s ctx now plan t s'
        → Sound o (issued t ctx now plan ∷ past) s'
    issued-Sound ctx now plan t s' e v i = record {
      same_opts = e ∙ h.same_opts;
      valid = v;
      backed = λ j x f. elim (i.origin j x f) [
        | inl (t≡j, x≡e) ↦ (
          ctx,
          now,
          plan,
          inl (ap (λ u. issued u ctx now plan) t≡j),
          ap (λ q. requested q ctx now plan) (sym h.same_opts) ∙ i.asked ∙ ap some (sym x≡e),
        )
        | inr old ↦
            let (ctx', now', plan', there, asked) = h.backed j x old in
            (ctx', now', plan', inr there, asked)
      ];
      spent = λ j. elim (Option-cases (get j s'.entries)) [
        | inl gone ↦ rw gone (ground (arith, h.spent j))
        | inr (x, f) ↦ rw f (elim (i.origin j x f) [
          | inl (t≡j, _) ↦ rw ((eq_iff t j).1 t≡j) (omega (arith, h.spent j))
          | inr old ↦ ground (arith, h.spent j, old)
        ])
      ];
      justified = h.justified;
    }

    accepted-Sound :
        (ctx : C) (now : ℕ) (plan : P) (t : String) (s' : Store P C G)
        → s'.opts ≡ s.opts
        → IsValid s'
        → Shrinks s s'
        → Consumed s ctx t now plan s'
        → Sound o (accepted t ctx now plan ∷ past) s'
    accepted-Sound ctx now plan t s' e v less c = record {
      same_opts = e ∙ h.same_opts;
      valid = v;
      backed = λ j x f.
          let (ctx', now', plan', there, asked) = h.backed j x (less.entry j x f) in
          (ctx', now', plan', inr there, asked);
      spent = λ j. ground (arith, h.spent j, held-le s s' less j, eq_iff t j, c.held, c.gone);
      justified = (
        (
          c.entry,
          h.backed t c.entry c.held,
          c.same_digest,
          c.same_principal ∙ ap (λ q. q.principal ctx) h.same_opts,
          c.same_key ∙ ap (λ q. q.supersede_key plan) h.same_opts,
          c.in_time,
        ),
        h.justified,
      );
    }

    step-Sound : (c : Call P C) → Sound o ((step s c).1 ∷ past) (step s c).0
    unfolding step
    step-Sound (issuing ctx now draw plan) = elim (issue_effect s h.valid ctx now plan draw) [
      | inl (t, returned, effect) ↦ rw returned (
          issued-Sound ctx now plan t (issue s ctx now draw plan).1
            (opts-step s (issuing ctx now draw plan)) (issue-IsValid s ctx now draw plan h.valid)
            effect)
      | inr (e, returned, less) ↦ rw returned (
          idle-Sound (issue s ctx now draw plan).1 (opts-step s (issuing ctx now draw plan))
            (issue-IsValid s ctx now draw plan h.valid) less)
    ]
    step-Sound (consuming ctx token now plan) =
        let effect = consume_effect s h.valid ctx now plan token in
        elim (Bool-cases (consume s ctx token now plan).0) [
          | inl yes_ ↦ rw yes_ (
              accepted-Sound ctx now plan token (consume s ctx token now plan).1
                (opts-step s (consuming ctx token now plan))
                (consume-IsValid s ctx token now plan h.valid) effect.0 (effect.1 yes_))
          | inr no_ ↦ rw no_ (
              idle-Sound (consume s ctx token now plan).1
                (opts-step s (consuming ctx token now plan))
                (consume-IsValid s ctx token now plan h.valid) effect.0)
        ]

  run-Sound :
      (o : Options P C G) (s : Store P C G) (past : List (Event P C)) (cs : List (Call P C))
      → Sound o past s
      → Sound o (run s past cs).1 (run s past cs).0
  unfolding run
  run-Sound o s past [] h = h
  run-Sound o s past (c ∷ cs) h =
      run-Sound o (step s c).0 ((step s c).1 ∷ past) cs (step-Sound o past s h c)

  new_store_empty :
      (raw : RawOptions P C G) (s : Store P C G)
      → new_store raw ≡ ok s
      → (t : String) → get t s.entries ≡ none
  unfolding new_store get
  new_store_empty raw s h t = ground arith

  new_store-Sound :
      (raw : RawOptions P C G) (s : Store P C G) → new_store raw ≡ ok s → Sound s.opts [] s
  new_store-Sound raw s h = record {
    same_opts = refl;
    valid = (new_store-IsValid raw h).0;
    backed = λ t e f. absurd (cc (f, new_store_empty raw s h t));
    spent = λ t. rw (new_store_empty raw s h t) (omega arith);
    justified = tt;
  }

  -- In any run of a new store, a token is accepted at most as often as it was returned by `Issue`:
  -- with an id generator that never repeats itself, at most once.
  pub single_use :
      (raw : RawOptions P C G) (s : Store P C G) (cs : List (Call P C)) (t : String)
      → new_store raw ≡ ok s
      → count (accepts_of t) (run s [] cs).1 ≤ count (issues_of t) (run s [] cs).1
  single_use raw s cs t h =
      omega (arith, (run-Sound s.opts s [] cs (new_store-Sound raw s h)).spent t)

  -- In any run of a new store, every accepted `Consume` comes after an `Issue` that returned its
  -- token to the same principal, for a plan with the same digest and supersede key, less than the
  -- lifetime ago.
  pub consume_needs_issue :
      (raw : RawOptions P C G) (s : Store P C G) (cs : List (Call P C))
      → new_store raw ≡ ok s
      → Justified s.opts (run s [] cs).1
  consume_needs_issue raw s cs h = (run-Sound s.opts s [] cs (new_store-Sound raw s h)).justified

  -- In any run of a new store, whatever the options leave out, the store keeps its invariant: distinct
  -- tokens, one entry for each principal and key, and both capacities, which are positive.
  pub run-IsValid :
      (raw : RawOptions P C G) (s : Store P C G) (cs : List (Call P C))
      → new_store raw ≡ ok s
      → IsValid (run s [] cs).0
        × (is_positive s.opts.max_entries ≡ true)
        × (is_positive s.opts.max_entries_per_principal ≡ true)
  run-IsValid raw s cs h = (
    (run-Sound s.opts s [] cs (new_store-Sound raw s h)).valid,
    (new_store-IsValid raw h).1,
    (new_store-IsValid raw h).2,
  )
