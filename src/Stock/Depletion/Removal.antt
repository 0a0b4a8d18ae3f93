-- ===== src/Stock/Depletion/Removal.antt =====
-- When deplete_stock_item (internal/tools/stock_depletion_tools.go) removes stock, and of which item.
use inventree_mcp.Prelude.{
  String, some, List, [], ◌∷◌, false, ◌==◌, ◌||◌, not, ◌≡◌, ◌⊎◌, inl, inr, refl, ap, subst,
  Bool-cases, Option-cases, Result-cases, eq_int, eq_int_iff, Result, ok, err, ok_unique, bind-ok,
  ◌>>=◌,
}
use inventree_mcp.Text.{trim_space}
use inventree_mcp.Stock.Plans.{Planned, PlanStore, new_plan_store, consume_plan}
use inventree_mcp.Stock.Plans.History.{PlanCall, run_plans, WasPlanned}
use inventree_mcp.Stock.Item.{StockItem, StockAdjustmentPlan, StockAdjustmentOutput, start_output}
use inventree_mcp.Stock.Decimal.{Floats, normalized_stock_decimal}
use inventree_mcp.Stock.Execute.{
  Failure, Mutation, remove_stock, StockClient, Surroundings, Reply, is_rejection,
}
use inventree_mcp.Stock.Execute.Authority.{recording, accepted_planned, Authorizes}
use inventree_mcp.Stock.Adjust.{unless, decimal}
use inventree_mcp.Stock.Adjust.Bounds.{decimal-ok}
use inventree_mcp.Stock.Depletion.Hazards.{
  SafeToDeplete, unsafe_stock_depletion-SafeToDeplete, unless-not,
}
use inventree_mcp.Stock.Depletion.{
  DepleteStockItemInput, unsafe_stock_depletion, depletion_plan, depletion_of, mismatched,
  not_positive, remove_and_verify, execute_stock_depletion, deplete_stock_item, check_depletion,
  read_depleted, is_context_error,
}

module _ {F : Type 0} ⦃fl : Floats F⦄ where
  -- What a plan for the depletion of an item rests on.
  pub record Depletes (input : DepleteStockItemInput) (item : StockItem F)
      (plan : StockAdjustmentPlan F) (text : String) : Type 0 where
    pub same_item : item.pk ≡ input.stock_item_id
    pub number : F
    pub whole : normalized_stock_decimal item.quantity false ≡ some (text, number)
    pub safe : SafeToDeplete item
    pub planned : plan ≡ depletion_of (record item { quantity = number }) (trim_space input.reason)

  pub depletion_plan-Depletes :
      (input : DepleteStockItemInput) (item : StockItem F) (plan : StockAdjustmentPlan F)
      (text : String)
      → depletion_plan input item ≡ ok (plan, text)
      → Depletes input item plan text
  unfolding depletion_plan
  depletion_plan-Depletes input item plan text h =
      let out = start_output input.confirming.dry_run in
      let (x₁, same, h₁) =
        bind-ok (unless (not (eq_int item.pk input.stock_item_id)) (mismatched out)) _ _ h in
      let (q, q_ok, h₂) = bind-ok (decimal (not_positive out) item.quantity false) _ _ h₁ in
      let (x₂, checked, h₃) =
        bind-ok (unsafe_stock_depletion out (record item { quantity = q.1 })) _ _ h₂ in
      let s =
        unsafe_stock_depletion-SafeToDeplete out (record item { quantity = q.1 }) x₂ checked in
      subst (λ r. Depletes input item r.0 r.1) (ok_unique {E = Reply F} _ _ _ refl h₃)
        (record {
          same_item =
              (eq_int_iff item.pk input.stock_item_id).0
                (unless-not (eq_int item.pk input.stock_item_id) (mismatched out) x₁ same);
          number = q.1;
          whole = decimal-ok (not_positive out) item.quantity false q q_ok;
          safe = record {
            unserialized = s.unserialized;
            deleted_then = s.deleted_then;
            available = s.available;
            amount = s.amount;
            amount_known = s.amount_known;
            unallocated = s.unallocated;
            finished = s.finished;
            unconsumed = s.unconsumed;
            uninstalled = s.uninstalled;
            parentless = s.parentless;
            empty_inside = s.empty_inside;
            childless = s.childless;
          };
          planned = refl;
        })

module _ {F W : Type 0} ⦃fl : Floats F⦄ (project : String → String) (client : StockClient F W) where
  removes_once :
      (out : StockAdjustmentOutput F) (plan : StockAdjustmentPlan F) (m : Mutation) (w : W)
      (log : List Mutation)
      → (remove_and_verify project (recording client) out plan m (w, log)).1.1 ≡ m ∷ log
  unfolding remove_and_verify
  removes_once out plan m w log = elim (Option-cases (client.mutate m w).0) [
    | inl done ↦ rw (remove_and_verify, done) refl
    | inr (e, failed) ↦ elim (Bool-cases (is_context_error e || is_rejection e)) [
      | inl refused ↦ rw (remove_and_verify, failed, refused) refl
      | inr unknown ↦ rw (remove_and_verify, failed, unknown) refl
    ]
  ]

module _ {F : Type 0} where
  pub read_back :
      (out : StockAdjustmentOutput F) (got : Result Failure (StockItem F)) (item : StockItem F)
      → read_depleted out got ≡ ok item
      → got ≡ ok item
  read_back out (ok a) item h = ap ok (ok_unique {E = Reply F} _ a item refl h)
  read_back out (err e) item h = absurd (cc h)

module _ {F W C : Type 0} ⦃fl : Floats F⦄ ⦃planned : Planned (StockAdjustmentPlan F)⦄
    (project : String → String) (client : StockClient F W) (env : Surroundings C)
    (input : DepleteStockItemInput) where
  execute_removes :
      (s : PlanStore C) (plan : StockAdjustmentPlan F) (text : String) (w : W) (log : List Mutation)
      → let asked =
          (execute_stock_depletion project
            (recording client)
            (some s)
            env
            input
            plan
            text
            (w, log)).2.1 in
        (asked ≡ log)
        ⊎ ((asked ≡ remove_stock input.stock_item_id text plan.reason ∷ log)
            × Authorizes s env input.confirming plan)
  unfolding execute_stock_depletion
  execute_removes s plan text w log =
      let c = input.confirming in
      elim (Bool-cases c.dry_run) [
        | inl dry ↦ inl (rw (execute_stock_depletion, dry) refl)
        | inr real ↦ elim (Bool-cases c.confirm) [
          | inr unsure ↦ inl (rw (execute_stock_depletion, real, unsure) refl)
          | inl sure ↦ elim (Bool-cases (c.plan_hash == "")) [
            | inl blank ↦ inl (rw (execute_stock_depletion, real, sure, blank) refl)
            | inr there ↦ elim (Bool-cases (consume_plan s env.ctx c.plan_hash env.now plan).0) [
              | inr refused ↦ inl (rw (execute_stock_depletion, real, sure, there, refused) refl)
              | inl granted ↦ inr (
                rw (execute_stock_depletion, real, sure, there, granted)
                    (removes_once project client (record (start_output false) { plan = some plan })
                      plan (remove_stock input.stock_item_id text plan.reason) w log),
                record { for_real = real; confirmed = sure; accepted_token = granted },
              )
            ]
          ]
        ]
      ]

  -- What a removal of stock rests on.
  pub record Removal (principal : C → String) (cs : List (PlanCall (StockAdjustmentPlan F) C))
      (w : W) (log' log : List Mutation) : Type 0 where
    pub item : StockItem F
    pub plan : StockAdjustmentPlan F
    pub text : String
    pub asked : log' ≡ remove_stock input.stock_item_id text plan.reason ∷ log
    pub was_read : (client.get_stock_item input.stock_item_id w).0 ≡ ok item
    pub depletes : Depletes input item plan text
    pub authorized :
        Authorizes (run_plans (new_plan_store principal) [] cs).0 env input.confirming plan
    pub was_planned :
        WasPlanned principal
          (run_plans (new_plan_store principal) [] cs).1
          input.confirming.plan_hash
          env.ctx
          env.now
          plan

  -- On a plan store that any dry runs and confirmations have led to, deplete_stock_item asks InvenTree for
  -- nothing, or for one removal of the whole quantity of the requested item, as it was just read. Then the
  -- item has the requested number, is unserialized, in stock, deleted on depletion, unallocated, not being
  -- built, consumed, installed or a child, and has no installed or child items; the request was a confirmed
  -- execution, and its token was returned less than five minutes ago by a dry run of the same principal,
  -- for a plan with the same hash, action and stock item.
  pub deplete_stock_item_reviewed :
      (principal : C → String) (cs : List (PlanCall (StockAdjustmentPlan F) C)) (w : W)
      (log : List Mutation)
      → let asked =
          (deplete_stock_item project
            (recording client)
            (some (run_plans (new_plan_store principal) [] cs).0)
            env
            input
            (w, log)).2.1 in
        (asked ≡ log) ⊎ Removal principal cs w asked log
  unfolding deplete_stock_item
  deplete_stock_item_reviewed principal cs w log =
      let out = start_output input.confirming.dry_run in
      let got = client.get_stock_item input.stock_item_id w in
      elim (Result-cases (check_depletion {F = F} out input)) [
        | inr (e, refused) ↦ inl (rw (deplete_stock_item, refused) refl)
        | inl (x, passed) ↦ elim (Result-cases (read_depleted out got.0 >>= depletion_plan input)) [
          | inr (e, unplanned) ↦ inl (rw (deplete_stock_item, passed, unplanned) refl)
          | inl ((plan, text), planning) ↦
              let (item, read, made) = bind-ok (read_depleted out got.0) _ _ planning in
              elim (execute_removes (run_plans (new_plan_store principal) [] cs).0 plan text got.1
                log) [
                  | inl silent ↦ inl (rw (deplete_stock_item, passed, planning) silent)
                  | inr (loud, granted) ↦ inr (record {
                    item = item;
                    plan = plan;
                    text = text;
                    asked = rw (deplete_stock_item, passed, planning) loud;
                    was_read = read_back out got.0 item read;
                    depletes = depletion_plan-Depletes input item plan text made;
                    authorized = granted;
                    was_planned =
                        accepted_planned principal cs env.ctx input.confirming.plan_hash env.now
                          plan granted.accepted_token;
                  })
                ]
        ]
      ]
