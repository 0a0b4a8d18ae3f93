-- ===== src/Stock/Plans/History.antt =====
-- Any sequence of calls on one stock plan store of internal/tools/stock_adjustment_tools.go.
use inventree_mcp.Prelude.{
  ℕ, ◌+◌, ◌<◌, ◌≤◌, String, some, List, [], ◌∷◌, true, ◌≡◌, refl, sym, ap, subst, pos, ◌∙◌, arith,
  Result, ok, err, Result-cases, ok_unique, Occurs, count, map, inl, inr,
}
use mathlib.Core.Option.{some-injective}
use inventree_mcp.Batch.Store
use inventree_mcp.Batch.Store.{RawOptions, Entry, unexpired}
use inventree_mcp.Batch.Store.Refinement.{requested}
use inventree_mcp.Batch.Store.History
use inventree_mcp.Batch.Store.History.{
  Call, Event, issuing, consuming, issued, accepted, idle, Justified, issues_of, accepts_of,
  event_of_issue, event_of_consume, consume_needs_issue, single_use,
}
use inventree_mcp.Stock.Plans
use inventree_mcp.Stock.Plans.{
  Planned, PlanStore, issue_plan, consume_plan, new_plan_store, stock_plan_lifetime,
}
use inventree_mcp.Stock.Plans.Twin.{
  KeyText, plan_digest, twin, answer_of, upstream_of, plain_key, issue_plan-issue,
  consume_plan-consume,
}

pub data PlanCall (P C : Type 0) : Type 0 where
  planning : C → ℕ → Result String String → P → PlanCall P C
  confirming : C → String → ℕ → P → PlanCall P C

abbrev pub event_of_plan : {E P C : Type 0} → Result E String → C → ℕ → P → Event P C
event_of_plan (ok token) ctx now plan = issued token ctx now plan
event_of_plan (err _) ctx now plan = idle

upstream-ok :
    (k : KeyText) (r : Result String String) (x : String) → upstream_of k r ≡ ok x → r ≡ ok x
upstream-ok k (ok y) x h = ap ok (ok_unique (ok y) y x refl h)
upstream-ok k (err e) x h = absurd (cc)

module _ {P C : Type 0} ⦃p : Planned P⦄ where
  unfoldable pub step_plans : PlanStore C → PlanCall P C → PlanStore C × Event P C
  step_plans s (planning ctx now draw plan) =
      let (r, s') = issue_plan s ctx now draw plan in (s', event_of_plan r ctx now plan)
  step_plans s (confirming ctx token now plan) =
      let (r, s') = consume_plan s ctx token now plan in (s', event_of_consume r token ctx now plan)

  -- The events, the latest first, after those of `past`.
  unfoldable pub run_plans :
      PlanStore C → List (Event P C) → List (PlanCall P C) → PlanStore C × List (Event P C)
  unfolding step_plans
  run_plans s past [] = (s, past)
  run_plans s past (c ∷ cs) = let (s', e) = step_plans s c in run_plans s' (e ∷ past) cs

  -- A dry run for a plan with the same hash, action and item returned the token to the same principal,
  -- less than the lifetime ago.
  pub record WasPlanned (principal : C → String) (past : List (Event P C)) (t : String) (ctx : C)
      (now : ℕ) (plan : P) : Type 0 where
    pub ctx' : C
    pub now' : ℕ
    pub plan' : P
    pub issued_before : Occurs (issued t ctx' now' plan') past
    pub same_principal : principal ctx' ≡ principal ctx
    pub same_hash : p.hash plan' ≡ p.hash plan
    pub same_action : p.action plan' ≡ p.action plan
    pub same_item : p.stock_item_id plan' ≡ p.stock_item_id plan
    pub in_time : now < now' + stock_plan_lifetime

  abbrev pub AllPlanned : (C → String) → List (Event P C) → Type 0
  AllPlanned principal [] = Unit
  AllPlanned principal (accepted t ctx now plan ∷ past) =
      WasPlanned principal past t ctx now plan × AllPlanned principal past
  AllPlanned principal (issued _ _ _ _ ∷ past) = AllPlanned principal past
  AllPlanned principal (idle ∷ past) = AllPlanned principal past

  module _ (k : KeyText) where
    abbrev pub call_of : PlanCall P C → Call P C
    call_of (planning ctx now draw plan) = issuing ctx now (upstream_of k draw) plan
    call_of (confirming ctx token now plan) = consuming ctx token now plan

    same_event :
        (r : Result Plans.Error String) (ctx : C) (now : ℕ) (plan : P)
        → event_of_issue (answer_of k r) ctx now plan ≡ event_of_plan r ctx now plan
    same_event (ok t) ctx now plan = refl
    same_event (err e) ctx now plan = refl

    -- Any run of the stock plan store and the run of the batch store on the same calls have the same events
    -- and end in stores that correspond, when the batch store's supersede key is any text that tells the
    -- actions and items apart and its lifetime and limits are those of the stock plan store.
    pub run_plans-run :
        (s : PlanStore C) (past : List (Event P C)) (cs : List (PlanCall P C))
        → History.run ⦃d = plan_digest k p⦄ (twin k s) past (map call_of cs)
          ≡ (twin k (run_plans s past cs).0, (run_plans s past cs).1)
    unfolding run_plans History.run History.step
    run_plans-run s past [] = refl
    run_plans-run s past (planning ctx now draw plan ∷ cs) =
        rw
          (
            run_plans,
            step_plans,
            History.run,
            History.step,
            issue_plan-issue k s ctx now draw plan,
            same_event (issue_plan s ctx now draw plan).0 ctx now plan,
          )
          (run_plans-run (issue_plan s ctx now draw plan).1
            (event_of_plan (issue_plan s ctx now draw plan).0 ctx now plan ∷ past) cs)
    run_plans-run s past (confirming ctx token now plan ∷ cs) =
        rw
          (
            run_plans,
            step_plans,
            History.run,
            History.step,
            consume_plan-consume k s ctx token now plan,
          )
          (run_plans-run (consume_plan s ctx token now plan).1
            (event_of_consume (consume_plan s ctx token now plan).0 token ctx now plan ∷ past) cs)

    -- what a justification of the twin says here
    planned_from :
        (s : PlanStore C) (past : List (Event P C)) (t : String) (ctx : C) (now : ℕ) (plan : P)
        (e : Entry) (ctx' : C) (now' : ℕ) (plan' : P)
        → Occurs (issued t ctx' now' plan') past
        → requested ⦃d = plan_digest k p⦄ (twin k s).opts ctx' now' plan' ≡ some e
        → upstream_of k (p.hash plan) ≡ ok e.digest
        → e.principal ≡ s.principal ctx
        → e.supersede_key ≡ k.text (p.action plan) (p.stock_item_id plan)
        → unexpired now e ≡ true
        → WasPlanned s.principal past t ctx now plan
    planned_from s past t ctx now plan e ctx' now' plan' there asked same_digest same_p same_key
          live =
        elim (Result-cases (p.hash plan')) [
          | inr (x, h) ↦ absurd (cc (rw (requested, h) at asked))
          | inl (dg, h) ↦
              let entry = some-injective _ _ (rw (requested, h) at asked) in
              let key =
                k.tells (p.action plan') (p.action plan) (p.stock_item_id plan')
                  (p.stock_item_id plan) (ap (λ x. x.supersede_key) entry ∙ same_key) in
              record {
                ctx' = ctx';
                now' = now';
                plan' = plan';
                issued_before = there;
                same_principal = ap (λ x. x.principal) entry ∙ same_p;
                same_hash =
                    h
                    ∙ sym (
                        upstream-ok k (p.hash plan) dg
                          (same_digest ∙ ap (λ x. ok x.digest) (sym entry)));
                same_action = key.0;
                same_item = key.1;
                in_time = ground (arith, live, ap (λ x. x.expires_at) entry);
              }
        ]

    planned :
        (s : PlanStore C) (past : List (Event P C))
        → Justified ⦃d = plan_digest k p⦄ (twin k s).opts past
        → AllPlanned s.principal past
    planned s [] h = tt
    planned s (accepted t ctx now plan ∷ past)
          ((e, (ctx', now', plan', there, asked), dg, pr, key, live), rest) =
        (
          planned_from s past t ctx now plan e ctx' now' plan' there asked dg pr key live,
          planned s past rest,
        )
    planned s (issued _ _ _ _ ∷ past) h = planned s past h
    planned s (idle ∷ past) h = planned s past h

    -- The options of `newStockPlanStore`, for the batch store.
    abbrev raw_of : (C → String) → RawOptions P C (Unit {0})
    raw_of principal = record {
      id_generator = some tt;
      principal = some principal;
      supersede_key = some (λ plan. k.text (p.action plan) (p.stock_item_id plan));
      lifetime = pos 0;
      max_entries = pos 0;
      max_entries_per_principal = pos 0;
    }

    new_twin :
        (principal : C → String)
        → Store.new_store (raw_of principal) ≡ ok (twin k (new_plan_store principal))
    unfolding Store.new_store
    new_twin principal = refl

  -- In any run of a new stock plan store, every accepted token was returned by a dry run to the same
  -- principal, for a plan with the same hash, action and stock item, less than five minutes ago.
  pub run_plans-AllPlanned :
      (principal : C → String) (cs : List (PlanCall P C))
      → AllPlanned principal (run_plans (new_plan_store principal) [] cs).1
  run_plans-AllPlanned principal cs =
      let s = new_plan_store principal in
      planned plain_key s (run_plans s [] cs).1 (
        subst (λ r. Justified ⦃d = plan_digest plain_key p⦄ (twin plain_key s).opts r.1)
          (run_plans-run plain_key s [] cs)
          (consume_needs_issue ⦃d = plan_digest plain_key p⦄ (raw_of plain_key principal)
            (twin plain_key s) (map (call_of plain_key) cs) (new_twin plain_key principal)))

  -- In any run of a new stock plan store, a token is accepted at most as often as a dry run returned it.
  pub run_plans_single_use :
      (principal : C → String) (cs : List (PlanCall P C)) (t : String)
      → count (accepts_of t) (run_plans (new_plan_store principal) [] cs).1
        ≤ count (issues_of t) (run_plans (new_plan_store principal) [] cs).1
  run_plans_single_use principal cs t =
      let s = new_plan_store principal in
      subst (λ r. count (accepts_of t) r.1 ≤ count (issues_of t) r.1)
        (run_plans-run plain_key s [] cs)
        (single_use ⦃d = plan_digest plain_key p⦄ (raw_of plain_key principal) (twin plain_key s)
          (map (call_of plain_key) cs) t (new_twin plain_key principal))
