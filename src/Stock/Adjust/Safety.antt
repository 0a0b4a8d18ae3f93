-- ===== src/Stock/Adjust/Safety.antt =====
-- What the three tools of internal/tools/stock_adjustment_tools.go ask InvenTree for, and when.
use inventree_mcp.Prelude.{
  String, Option, some, List, [], ◌∷◌, true, false, ◌==◌, ◌≡◌, ◌⊎◌, inl, inr, ap, subst, ◌∙◌,
  Result-cases, ℤ, is_positive, Result, ok, err, bind-ok, ◌>>=◌,
}
use mathlib.Core.Option.{some-injective}
use inventree_mcp.Text.{trim_space}
use inventree_mcp.Stock.Plans.{Planned, PlanStore, new_plan_store, consume_plan}
use inventree_mcp.Stock.Plans.History.{PlanCall, run_plans, WasPlanned}
use inventree_mcp.Stock.Item.{StockItem, StockAdjustmentPlan, StockAdjustmentOutput}
use inventree_mcp.Stock.Decimal.{Floats}
use inventree_mcp.Stock.Execute.{
  Mutation, StockClient, Confirming, Surroundings, Reply, prepare_stock_adjustment,
  execute_stock_plan,
}
use inventree_mcp.Stock.Execute.Request.{
  prepare_keeps, prepare_reads, prepare_reads_world, prepare_refuses, Succeeds,
}
use inventree_mcp.Stock.Execute.Authority.{
  recording, accepted_planned, execute_mutates, execute_shows, ShowsPlan,
}
use inventree_mcp.Stock.Adjust.{run_stock_tool}

module _ {F W : Type 0} ⦃fl : Floats F⦄ (project : String → String) (client : StockClient F W)
    (id : ℤ) (plan_for : StockItem F → Result (Reply F) (StockAdjustmentPlan F × Mutation)) where
  -- A success that is no dry run: what was read and planned, and that the reply shows it carried out.
  pub record Shows (w : W) (out : StockAdjustmentOutput F) : Type 0 where
    pub item : StockItem F
    pub plan : StockAdjustmentPlan F
    pub m : Mutation
    pub was_read : (client.get_stock_item id w).0 ≡ ok item
    pub was_made : plan_for item ≡ ok (plan, m)
    pub carried_out : ShowsPlan project client plan m (client.get_stock_item id w).1 out

module _ {F W C : Type 0} ⦃fl : Floats F⦄ ⦃planned : Planned (StockAdjustmentPlan F)⦄
    (project : String → String) (client : StockClient F W) (env : Surroundings C) (c : Confirming)
    (id : ℤ) (reason : String)
    (plan_for : StockItem F → Result (Reply F) (StockAdjustmentPlan F × Mutation)) where
  -- What a mutation rests on: the item as it was just read, the plan that the code makes of it, and a dry
  -- run of the same principal that returned the token, less than five minutes ago, for a plan with the
  -- same hash, action and stock item.
  pub record Reviewed (principal : C → String) (cs : List (PlanCall (StockAdjustmentPlan F) C))
      (w : W) (log' log : List Mutation) : Type 0 where
    pub item : StockItem F
    pub plan : StockAdjustmentPlan F
    pub m : Mutation
    pub asked : log' ≡ m ∷ log
    pub addressed : is_positive id ≡ true
    pub explained : (trim_space reason == "") ≡ false
    pub was_read : (client.get_stock_item id w).0 ≡ ok item
    pub was_made : plan_for item ≡ ok (plan, m)
    pub for_real : c.dry_run ≡ false
    pub confirmed : c.confirm ≡ true
    pub was_planned :
        WasPlanned principal
          (run_plans (new_plan_store principal) [] cs).1
          c.plan_hash
          env.ctx
          env.now
          plan

  pub stock_tool-Reviewed :
      (principal : C → String) (cs : List (PlanCall (StockAdjustmentPlan F) C)) (w : W)
      (log : List Mutation)
      → ((run_stock_tool project
            (recording client)
            (some (run_plans (new_plan_store principal) [] cs).0)
            env
            c
            id
            reason
            plan_for
            (w, log)).2.1
          ≡ log)
        ⊎ Reviewed principal cs w
            (run_stock_tool project
              (recording client)
              (some (run_plans (new_plan_store principal) [] cs).0)
              env
              c
              id
              reason
              plan_for
              (w, log)).2.1
            log
  unfolding run_stock_tool
  stock_tool-Reviewed principal cs w log =
      let store = (run_plans (new_plan_store principal) [] cs).0 in
      let got = prepare_stock_adjustment (recording client) c.dry_run id reason (w, log) in
      let kept = prepare_keeps client c.dry_run id reason w log in
      elim (Result-cases (got.0 >>= plan_for)) [
        | inr (e, refused) ↦ inl (rw (run_stock_tool, refused) kept)
        | inl ((plan, m), planning) ↦
            let (item, read, was_made) = bind-ok got.0 plan_for (plan, m) planning in
            let (addressed, explained, was_read) =
              prepare_reads (recording client) c.dry_run id reason (w, log) item read in
            elim (execute_mutates project client env c plan m (some store) got.1.0 got.1.1) [
              | inl silent ↦ inl (rw (run_stock_tool, planning) (silent ∙ kept))
              | inr (loud, (s, same, granted)) ↦ inr (record {
                item = item;
                plan = plan;
                m = m;
                asked = rw (run_stock_tool, planning) (loud ∙ ap (λ l. m ∷ l) kept);
                addressed = addressed;
                explained = explained;
                was_read = was_read;
                was_made = was_made;
                for_real = granted.for_real;
                confirmed = granted.confirmed;
                was_planned = accepted_planned principal cs env.ctx c.plan_hash env.now plan (
                    ap (λ x. (consume_plan x env.ctx c.plan_hash env.now plan).0)
                      (some-injective _ _ same)
                    ∙ granted.accepted_token);
              })
            ]
      ]

  pub stock_tool-Shows :
      (store : Option (PlanStore C)) (w : W)
      → ((item : StockItem F) (reply : Reply F) → plan_for item ≡ err reply → ¬ Succeeds reply)
      → c.dry_run ≡ false
      → Succeeds (run_stock_tool project client store env c id reason plan_for w).0
      → Shows project client id plan_for w
          (run_stock_tool project client store env c id reason plan_for w).0.out
  unfolding run_stock_tool
  stock_tool-Shows store w refuses real good =
      let got = prepare_stock_adjustment client c.dry_run id reason w in
      elim (Result-cases got.0) [
        | inr (e, unread) ↦ absurd (
            prepare_refuses client c.dry_run id reason w e unread
              (rw (run_stock_tool, unread) at good))
        | inl (item, read) ↦ elim (Result-cases (plan_for item)) [
          | inr (e, unplanned) ↦
              absurd (refuses item e unplanned (rw (run_stock_tool, read, unplanned) at good))
          | inl ((plan, m), was_made) ↦
              let there = rw (run_stock_tool, read, was_made) at good in
              rw (run_stock_tool, read, was_made)
                (record {
                  item = item;
                  plan = plan;
                  m = m;
                  was_read = (prepare_reads client c.dry_run id reason w item read).2;
                  was_made = was_made;
                  carried_out =
                      subst
                        (λ w'.
                          ShowsPlan project client plan m w'
                            (execute_stock_plan project client store env c plan m got.1).0.out)
                        (prepare_reads_world client c.dry_run id reason w item read)
                        (execute_shows project client env c plan m store got.1 real there.unfailed
                          there.fine);
                })
        ]
      ]
