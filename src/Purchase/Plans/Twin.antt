-- ===== src/Purchase/Plans/Twin.antt =====
-- The plan store of internal/tools/purchase_order_lifecycle_tools.go and that of
-- stock_adjustment_tools.go are one store, written twice.
use inventree_mcp.Prelude.{
  ℕ, suc, String, Option, none, some, List, [], ◌∷◌, true, ◌≡◌, ◌∙◌, refl, ap, subst, arith, inl,
  inr, length, ℤ, Result, Result-cases,
}
use inventree_mcp.GoMap.{Assoc, get, delete, put, retain}
use inventree_mcp.Batch.Store.History.{Event, event_of_consume}
use inventree_mcp.Stock.Plans
use inventree_mcp.Stock.Plans.{Planned, Confirmation, PlanStore}
use inventree_mcp.Stock.Plans.History.{
  PlanCall, run_plans, step_plans, WasPlanned, planning, confirming, event_of_plan,
}
use inventree_mcp.Stock.Execute.Authority.{accepted_planned}
use inventree_mcp.Purchase.Plans.{
  LifecyclePlan, LifecycleDigest, LifecycleConfirmation, LifecyclePlanStore,
  new_lifecycle_plan_store, current, replace, confirms, issue_lifecycle, consume_lifecycle,
  issue_locked, consume_locked, delete_expired,
}

abbrev pub confirmation_of : LifecycleConfirmation → Confirmation
confirmation_of c = record {
  digest = c.digest;
  principal = c.principal;
  expires_at = c.expires_at;
  action = c.action;
  stock_item_id = c.order_id;
}

abbrev pub entries_of : Assoc LifecycleConfirmation → Assoc Confirmation
entries_of [] = []
entries_of ((t, c) ∷ m) = (t, confirmation_of c) ∷ entries_of m

abbrev option_of : Option LifecycleConfirmation → Option Confirmation
option_of none = none
option_of (some c) = some (confirmation_of c)

get-entries_of :
    (t : String) (m : Assoc LifecycleConfirmation) → get t (entries_of m) ≡ option_of (get t m)
unfolding get
get-entries_of t [] = refl
get-entries_of t ((j, c) ∷ m) = ground (arith, get-entries_of t m)

length-entries_of : (m : Assoc LifecycleConfirmation) → length (entries_of m) ≡ length m
length-entries_of [] = refl
length-entries_of (x ∷ m) = ap suc (length-entries_of m)

retain-entries_of :
    (now : ℕ) (m : Assoc LifecycleConfirmation)
    → retain (Plans.current now) (entries_of m) ≡ entries_of (retain (current now) m)
unfolding retain
retain-entries_of now [] = refl
retain-entries_of now ((j, c) ∷ m) = ground (arith, retain-entries_of now m)

delete-entries_of :
    (t : String) (m : Assoc LifecycleConfirmation)
    → delete t (entries_of m) ≡ entries_of (delete t m)
unfolding delete
delete-entries_of t [] = refl
delete-entries_of t ((j, c) ∷ m) = ground (arith, delete-entries_of t m)

replace-entries_of :
    (p a : String) (i : ℤ) (m : Assoc LifecycleConfirmation)
    → Plans.replace p a i (entries_of m) ≡ (entries_of (replace p a i m).0, (replace p a i m).1)
unfolding Plans.replace replace
replace-entries_of p a i [] = refl
replace-entries_of p a i ((t, c) ∷ m) = ground (arith, replace-entries_of p a i m)

confirms-option_of :
    (now : ℕ) (digest p a : String) (i : ℤ) (o : Option LifecycleConfirmation)
    → Plans.confirms now digest p a i (option_of o) ≡ confirms now digest p a i o
confirms-option_of now digest p a i none = refl
confirms-option_of now digest p a i (some c) = ground arith

abbrev pub planned_of : {F : Type 0} → LifecycleDigest F → Planned (LifecyclePlan F)
planned_of d = record {
  hash = d.digest;
  action = λ plan. plan.action;
  stock_item_id = λ plan. plan.order_id;
}

module _ {C : Type 0} where
  abbrev pub twin : LifecyclePlanStore C → PlanStore C
  twin s = record {
    entries = entries_of s.entries;
    principal = s.principal;
    max_entries = s.max_entries;
    max_entries_per_principal = s.max_entries_per_principal;
  }

  locked_issue :
      (s : LifecyclePlanStore C) (now : ℕ) (p a : String) (i : ℤ) (digest token : String)
      → Plans.issue_plan_locked (twin s) now p a i digest token ≡ (
        (issue_locked s now p a i digest token).0,
        twin (issue_locked s now p a i digest token).1,
      )
  unfolding Plans.issue_plan_locked Plans.delete_expired issue_locked delete_expired put
  locked_issue s now p a i digest token =
      let kept = (replace p a i (retain (current now) s.entries)).0 in
      rw
        (retain-entries_of now s.entries, replace-entries_of p a i (retain (current now) s.entries))
        (ground (arith, length-entries_of kept, delete-entries_of token kept))

  locked_consume :
      (s : LifecyclePlanStore C) (now : ℕ) (p a : String) (i : ℤ) (digest token : String)
      → Plans.consume_plan_locked (twin s) now p a i digest token ≡ (
        (consume_locked s now p a i digest token).0,
        twin (consume_locked s now p a i digest token).1,
      )
  unfolding Plans.consume_plan_locked Plans.delete_expired consume_locked delete_expired
  locked_consume s now p a i digest token =
      let swept = retain (current now) s.entries in
      let same = confirms-option_of now digest p a i (get token swept) in
      rw (retain-entries_of now s.entries, get-entries_of token swept, same)
        (ground (arith, delete-entries_of token swept))

  module _ {F : Type 0} (d : LifecycleDigest F) where
    -- The lifecycle store issues as the stock plan store of the same state does.
    issue_lifecycle-issue_plan :
        (s : LifecyclePlanStore C) (ctx : C) (now : ℕ) (draw : Result String String)
        (plan : LifecyclePlan F)
        → Plans.issue_plan ⦃p = planned_of d⦄ (twin s) ctx now draw plan ≡ (
          (issue_lifecycle ⦃d = d⦄ s ctx now draw plan).0,
          twin (issue_lifecycle ⦃d = d⦄ s ctx now draw plan).1,
        )
    unfolding Plans.issue_plan issue_lifecycle
    issue_lifecycle-issue_plan s ctx now draw plan = elim (Result-cases (d.digest plan)) [
      | inr (e, h) ↦ rw (Plans.issue_plan, issue_lifecycle, h) refl
      | inl (digest, h) ↦ elim (Result-cases draw) [
        | inr (e, k) ↦ rw (Plans.issue_plan, issue_lifecycle, h, k) refl
        | inl (token, k) ↦
            rw (Plans.issue_plan, issue_lifecycle, h, k)
              (locked_issue s now (s.principal ctx) plan.action plan.order_id digest token)
      ]
    ]

    -- The lifecycle store accepts as the stock plan store of the same state does.
    consume_lifecycle-consume_plan :
        (s : LifecyclePlanStore C) (ctx : C) (token : String) (now : ℕ) (plan : LifecyclePlan F)
        → Plans.consume_plan ⦃p = planned_of d⦄ (twin s) ctx token now plan ≡ (
          (consume_lifecycle ⦃d = d⦄ s ctx token now plan).0,
          twin (consume_lifecycle ⦃d = d⦄ s ctx token now plan).1,
        )
    unfolding Plans.consume_plan consume_lifecycle
    consume_lifecycle-consume_plan s ctx token now plan = elim (Result-cases (d.digest plan)) [
      | inr (e, h) ↦ rw (Plans.consume_plan, consume_lifecycle, h) refl
      | inl (digest, h) ↦
          rw (Plans.consume_plan, consume_lifecycle, h)
            (locked_consume s now (s.principal ctx) plan.action plan.order_id digest token)
    ]

  module _ {F : Type 0} ⦃d : LifecycleDigest F⦄ where
    unfoldable pub step_lifecycle :
        LifecyclePlanStore C
        → PlanCall (LifecyclePlan F) C
        → LifecyclePlanStore C × Event (LifecyclePlan F) C
    step_lifecycle s (planning ctx now draw plan) =
        let (r, s') = issue_lifecycle s ctx now draw plan in (s', event_of_plan r ctx now plan)
    step_lifecycle s (confirming ctx token now plan) =
        let (r, s') = consume_lifecycle s ctx token now plan in
        (s', event_of_consume r token ctx now plan)

    -- The events of any calls of the store, the latest first, after those of `past`.
    unfoldable pub run_lifecycle :
        LifecyclePlanStore C
        → List (Event (LifecyclePlan F) C)
        → List (PlanCall (LifecyclePlan F) C)
        → LifecyclePlanStore C × List (Event (LifecyclePlan F) C)
    unfolding step_lifecycle
    run_lifecycle s past [] = (s, past)
    run_lifecycle s past (c ∷ cs) =
        let (s', e) = step_lifecycle s c in run_lifecycle s' (e ∷ past) cs

    -- On the same calls the lifecycle store and the stock plan store of the same state have the same events
    -- and end in the same state.
    pub run_lifecycle-run_plans :
        (s : LifecyclePlanStore C) (past : List (Event (LifecyclePlan F) C))
        (cs : List (PlanCall (LifecyclePlan F) C))
        → run_plans ⦃p = planned_of d⦄ (twin s) past cs
          ≡ (twin (run_lifecycle s past cs).0, (run_lifecycle s past cs).1)
    unfolding run_plans step_plans run_lifecycle
    run_lifecycle-run_plans s past [] = refl
    run_lifecycle-run_plans s past (planning ctx now draw plan ∷ cs) =
        rw
          (
            run_plans,
            step_plans,
            run_lifecycle,
            step_lifecycle,
            issue_lifecycle-issue_plan d s ctx now draw plan,
          )
          (run_lifecycle-run_plans (issue_lifecycle s ctx now draw plan).1
            (event_of_plan (issue_lifecycle s ctx now draw plan).0 ctx now plan ∷ past) cs)
    run_lifecycle-run_plans s past (confirming ctx token now plan ∷ cs) =
        rw
          (
            run_plans,
            step_plans,
            run_lifecycle,
            step_lifecycle,
            consume_lifecycle-consume_plan d s ctx token now plan,
          )
          (run_lifecycle-run_plans (consume_lifecycle s ctx token now plan).1
            (event_of_consume (consume_lifecycle s ctx token now plan).0 token ctx now plan ∷ past)
            cs)

    -- A token that the store accepts, after any calls on a new store, was planned.
    pub accepted-WasPlanned :
        (principal : C → String) (cs : List (PlanCall (LifecyclePlan F) C)) (ctx : C)
        (token : String) (now : ℕ) (plan : LifecyclePlan F)
        → (consume_lifecycle
            (run_lifecycle (new_lifecycle_plan_store principal) [] cs).0
            ctx
            token
            now
            plan).0
          ≡ true
        → WasPlanned ⦃p = planned_of d⦄ principal
            (run_lifecycle (new_lifecycle_plan_store principal) [] cs).1
            token
            ctx
            now
            plan
    accepted-WasPlanned principal cs ctx token now plan h =
        let s = new_lifecycle_plan_store principal in
        let same = run_lifecycle-run_plans s [] cs in
        let there = consume_lifecycle-consume_plan d (run_lifecycle s [] cs).0 ctx token now plan in
        subst (λ r. WasPlanned ⦃p = planned_of d⦄ principal r.1 token ctx now plan) same
          (accepted_planned ⦃p = planned_of d⦄ principal cs ctx token now plan (
            ap (λ r. (Plans.consume_plan ⦃p = planned_of d⦄ r.0 ctx token now plan).0) same
            ∙ ap (λ r. r.0) there
            ∙ h))
