-- ===== src/Stock/Execute/Authority.antt =====
-- When `executeStockPlan` of internal/tools/stock_adjustment_tools.go mutates InvenTree, and what a
-- successful reply shows.
use inventree_mcp.Prelude.{
  ℕ, String, Option, none, some, List, [], ◌∷◌, ◌++◌, true, false, ◌==◌, ◌≡◌, ◌⊎◌, inl, inr, refl,
  ap, subst, ◌∙◌, Bool-cases, Option-cases, Result, ok, err,
}
use inventree_mcp.Batch.Store.History.{Event, event_of_consume}
use inventree_mcp.Stock.Plans.{Planned, PlanStore, new_plan_store, consume_plan}
use inventree_mcp.Stock.Plans.History.{
  PlanCall, confirming, step_plans, run_plans, WasPlanned, AllPlanned, run_plans-AllPlanned,
}
use inventree_mcp.Stock.Item.{
  StockItem, StockAdjustmentPlan, StockAdjustmentOutput, status_ok, start_output,
  sanitized_stock_item,
}
use inventree_mcp.Stock.Decimal.{Floats}
use inventree_mcp.Stock.Execute.{
  Mutation, StockClient, Confirming, Surroundings, Failure, is_rejection, stock_state_matches,
  verified_reply, mutate_stock, execute_stock_plan,
}

module _ {F W : Type 0} where
  -- The client, with the mutations that it was asked for, the latest first.
  abbrev pub recording : StockClient F W → StockClient F (W × List Mutation)
  recording client = record {
    get_stock_item = λ id (w, log). let (r, w') = client.get_stock_item id w in (r, (w', log));
    mutate = λ m (w, log). let (r, w') = client.mutate m w in (r, (w', m ∷ log));
  }

module _ {C P : Type 0} ⦃p : Planned P⦄ where
  run_plans-snoc :
      (s : PlanStore C) (past : List (Event P C)) (cs : List (PlanCall P C)) (c : PlanCall P C)
      → (run_plans s past (cs ++ (c ∷ []))).1
        ≡ (step_plans (run_plans s past cs).0 c).1 ∷ (run_plans s past cs).1
  unfolding run_plans
  run_plans-snoc s past [] c = refl
  run_plans-snoc s past (d ∷ cs) c =
      run_plans-snoc (step_plans s d).0 ((step_plans s d).1 ∷ past) cs c

  -- A token that a store accepts, after any calls, was planned.
  pub accepted_planned :
      (principal : C → String) (cs : List (PlanCall P C)) (ctx : C) (token : String) (now : ℕ)
      (plan : P)
      → (consume_plan (run_plans (new_plan_store principal) [] cs).0 ctx token now plan).0 ≡ true
      → WasPlanned principal (run_plans (new_plan_store principal) [] cs).1 token ctx now plan
  unfolding step_plans
  accepted_planned principal cs ctx token now plan h =
      let s = new_plan_store principal in
      let last = confirming ctx token now plan in
      (subst (AllPlanned principal)
        (run_plans-snoc s [] cs last
          ∙ ap (λ b. event_of_consume b token ctx now plan ∷ (run_plans s [] cs).1) h)
        (run_plans-AllPlanned principal (cs ++ (last ∷ [])))).0

module _ {F W : Type 0} ⦃fl : Floats F⦄ (project : String → String) (client : StockClient F W) where
  mutates_once :
      (out : StockAdjustmentOutput F) (plan : StockAdjustmentPlan F) (m : Mutation) (w : W)
      (log : List Mutation)
      → (mutate_stock project (recording client) out plan m (w, log)).1.1 ≡ m ∷ log
  unfolding mutate_stock
  mutates_once out plan m w log = elim (Option-cases (client.mutate m w).0) [
    | inl e ↦ rw (mutate_stock, e) refl
    | inr (x, e) ↦ rw (mutate_stock, e) refl
  ]

module _ {F C : Type 0} ⦃planned : Planned (StockAdjustmentPlan F)⦄ where
  -- The caller has confirmed, outside a dry run, with a token that the store accepts for the plan.
  pub record Authorizes (store : PlanStore C) (env : Surroundings C) (c : Confirming)
      (plan : StockAdjustmentPlan F) : Type 0 where
    pub for_real : c.dry_run ≡ false
    pub confirmed : c.confirm ≡ true
    pub accepted_token : (consume_plan store env.ctx c.plan_hash env.now plan).0 ≡ true

module _ {F W : Type 0} ⦃fl : Floats F⦄ (project : String → String) (client : StockClient F W)
    (plan : StockAdjustmentPlan F) (m : Mutation) (w : W) where
  -- What a successful reply shows: the mutation was accepted, and the item that the client answered with
  -- when it was asked again after the mutation is as the plan says.
  pub record ShowsPlan (out : StockAdjustmentOutput F) : Type 0 where
    pub accepted : (client.mutate m w).0 ≡ none
    pub after : StockItem F
    pub read_back :
        (client.get_stock_item plan.before.stock_item_id (client.mutate m w).1).0 ≡ ok after
    pub shown : out.item ≡ some (sanitized_stock_item project after)
    pub matches : stock_state_matches after plan.after ≡ true

  verified_shows :
      (out : StockAdjustmentOutput F) (got : Result Failure (StockItem F))
      → (client.mutate m w).0 ≡ none
      → (client.get_stock_item plan.before.stock_item_id (client.mutate m w).1).0 ≡ got
      → (verified_reply project out plan got).out.status ≡ status_ok
      → ShowsPlan (verified_reply project out plan got).out
  verified_shows out (err e) done read good = absurd (cc good)
  verified_shows out (ok after) done read good =
      elim (Bool-cases (stock_state_matches after plan.after)) [
        | inr differs ↦ absurd (cc (rw (differs) at good))
        | inl same ↦ rw (same) (record {
          accepted = done;
          after = after;
          read_back = read;
          shown = refl;
          matches = same;
        })
      ]

module _ {F W C : Type 0} ⦃fl : Floats F⦄ ⦃planned : Planned (StockAdjustmentPlan F)⦄
    (project : String → String) (client : StockClient F W) (env : Surroundings C) (c : Confirming)
    (plan : StockAdjustmentPlan F) (m : Mutation) where
  pub execute_mutates :
      (store : Option (PlanStore C)) (w : W) (log : List Mutation)
      → ((execute_stock_plan project (recording client) store env c plan m (w, log)).2.1 ≡ log)
        ⊎ (((execute_stock_plan project (recording client) store env c plan m (w, log)).2.1
              ≡ m ∷ log)
            × ((s : PlanStore C) × (store ≡ some s) × Authorizes s env c plan))
  unfolding execute_stock_plan
  execute_mutates none w log = inl refl
  execute_mutates (some s) w log = elim (Bool-cases c.dry_run) [
    | inl dry ↦ inl (rw (execute_stock_plan, dry) refl)
    | inr real ↦ elim (Bool-cases c.confirm) [
      | inr unsure ↦ inl (rw (execute_stock_plan, real, unsure) refl)
      | inl sure ↦ elim (Bool-cases (c.plan_hash == "")) [
        | inl blank ↦ inl (rw (execute_stock_plan, real, sure, blank) refl)
        | inr there ↦ elim (Bool-cases (consume_plan s env.ctx c.plan_hash env.now plan).0) [
          | inr refused ↦ inl (rw (execute_stock_plan, real, sure, there, refused) refl)
          | inl granted ↦ inr (
            rw (execute_stock_plan, real, sure, there, granted)
                (mutates_once project client (record (start_output false) { plan = some plan }) plan
                  m w log),
            (s, refl, record { for_real = real; confirmed = sure; accepted_token = granted }),
          )
        ]
      ]
    ]
  ]

  mutate_shows :
      (out : StockAdjustmentOutput F) (w : W)
      → (mutate_stock project client out plan m w).0.failed ≡ none
      → (mutate_stock project client out plan m w).0.out.status ≡ status_ok
      → ShowsPlan project client plan m w (mutate_stock project client out plan m w).0.out
  unfolding mutate_stock
  mutate_shows out w fine good = elim (Option-cases (client.mutate m w).0) [
    | inl e ↦
        rw (mutate_stock, e)
          (verified_shows project client plan m w out
            (client.get_stock_item plan.before.stock_item_id (client.mutate m w).1).0 e refl
            (rw (mutate_stock, e) at good))
    | inr (x, e) ↦ elim (Bool-cases (is_rejection x)) [
      | inl rejected ↦ absurd (cc (rw (mutate_stock, e, rejected) at fine))
      | inr unknown ↦ absurd (cc (rw (mutate_stock, e, unknown) at good))
    ]
  ]

  pub execute_shows :
      (store : Option (PlanStore C)) (w : W)
      → c.dry_run ≡ false
      → (execute_stock_plan project client store env c plan m w).0.failed ≡ none
      → (execute_stock_plan project client store env c plan m w).0.out.status ≡ status_ok
      → ShowsPlan project client plan m w
          (execute_stock_plan project client store env c plan m w).0.out
  unfolding execute_stock_plan
  execute_shows none w real fine good = absurd (cc fine)
  execute_shows (some s) w real fine good = elim (Bool-cases c.confirm) [
    | inr unsure ↦ absurd (cc (rw (execute_stock_plan, real, unsure) at good))
    | inl sure ↦ elim (Bool-cases (c.plan_hash == "")) [
      | inl blank ↦ absurd (cc (rw (execute_stock_plan, real, sure, blank) at good))
      | inr there ↦ elim (Bool-cases (consume_plan s env.ctx c.plan_hash env.now plan).0) [
        | inr refused ↦ absurd (cc (rw (execute_stock_plan, real, sure, there, refused) at good))
        | inl granted ↦
            rw (execute_stock_plan, real, sure, there, granted)
              (mutate_shows (record (start_output false) { plan = some plan }) w
                (rw (execute_stock_plan, real, sure, there, granted) at fine)
                (rw (execute_stock_plan, real, sure, there, granted) at good))
      ]
    ]
  ]
