-- ===== src/Stock/Depletion/Absence.antt =====
-- What a success of deplete_stock_item (internal/tools/stock_depletion_tools.go) says.
use inventree_mcp.Prelude.{
  String, Option, none, some, Bool, true, false, ◌==◌, ◌||◌, ◌≡◌, inl, inr, refl, ap, subst, ◌∙◌,
  Bool-cases, Option-cases, Result-cases, ℤ, Result, ok, err, bind-ok, bind_fails, ◌>>=◌,
}
use inventree_mcp.Stock.Plans.{Planned, PlanStore, consume_plan}
use inventree_mcp.Stock.Item.{StockItem, StockAdjustmentPlan, StockAdjustmentOutput, start_output}
use inventree_mcp.Stock.Decimal.{Floats}
use inventree_mcp.Stock.Execute.{
  Failure, Mutation, remove_stock, StockClient, Surroundings, is_not_found, is_rejection,
}
use inventree_mcp.Stock.Execute.Request.{Succeeds}
use inventree_mcp.Stock.Depletion.Removal.{Depletes, depletion_plan-Depletes, read_back}
use inventree_mcp.Stock.Adjust.Refusal.{Refused}
use inventree_mcp.Stock.Depletion.Refusal.{check-Refused, read-Refused, depletion_plan-Refused}
use inventree_mcp.Stock.Depletion.{
  DepleteStockItemInput, depletion_plan, remove_and_verify, execute_stock_depletion,
  deplete_stock_item, check_depletion, read_depleted, is_context_error, verify_stock_depletion,
}

module _ {F : Type 0} (project : String → String) where
  verified_absent :
      (out : StockAdjustmentOutput F) (b : Bool) (got : Result Failure (StockItem F))
      → Succeeds (verify_stock_depletion project out b got)
      → ((e : Failure) × (got ≡ err e) × (is_not_found e ≡ true))
        × ((verify_stock_depletion project out b got).out.verified ≡ true)
  verified_absent out b (ok item) good = absurd (cc (good.fine))
  verified_absent out b (err e) good = elim (Bool-cases (is_not_found e)) [
    | inl gone ↦ ((e, refl, gone), rw (verify_stock_depletion, gone) refl)
    | inr there ↦ elim (Bool-cases (is_context_error e)) [
      | inl cancelled ↦ absurd (cc (rw (verify_stock_depletion, there, cancelled) at good.unfailed))
      | inr failed ↦ absurd (cc (rw (verify_stock_depletion, there, failed) at good.fine))
    ]
  ]

module _ {F W : Type 0} (client : StockClient F W) where
  -- After the removal an item is asked for again, and InvenTree does not find it.
  pub record Absent (id : ℤ) (m : Mutation) (w : W) : Type 0 where
    pub answer : Failure
    pub answered : (client.get_stock_item id (client.mutate m w).1).0 ≡ err answer
    pub gone : is_not_found answer ≡ true

module _ {F W : Type 0} ⦃fl : Floats F⦄ (project : String → String) (client : StockClient F W) where
  removal_verified :
      (out : StockAdjustmentOutput F) (plan : StockAdjustmentPlan F) (m : Mutation) (w : W)
      → Succeeds (remove_and_verify project client out plan m w).0
      → Absent client plan.before.stock_item_id m w
        × ((remove_and_verify project client out plan m w).0.out.verified ≡ true)
  unfolding remove_and_verify
  removal_verified out plan m w good =
      let got = (client.get_stock_item plan.before.stock_item_id (client.mutate m w).1).0 in
      elim (Option-cases (client.mutate m w).0) [
        | inl done ↦
            let ((e, answered, gone), seen) =
              verified_absent project out false got (rw (remove_and_verify, done) at good) in
            (
              record { answer = e; answered = answered; gone = gone },
              rw (remove_and_verify, done) seen,
            )
        | inr (x, failed) ↦ elim (Bool-cases (is_context_error x || is_rejection x)) [
          | inl refused ↦ absurd (cc (rw (remove_and_verify, failed, refused) at good.unfailed))
          | inr unknown ↦
              let ((e, answered, gone), seen) =
                verified_absent project out true got
                  (rw (remove_and_verify, failed, unknown) at good) in
              (
                record { answer = e; answered = answered; gone = gone },
                rw (remove_and_verify, failed, unknown) seen,
              )
        ]
      ]

module _ {F W C : Type 0} ⦃fl : Floats F⦄ ⦃planned : Planned (StockAdjustmentPlan F)⦄
    (project : String → String) (client : StockClient F W) (env : Surroundings C)
    (input : DepleteStockItemInput) where
  execution_verified :
      (store : Option (PlanStore C)) (plan : StockAdjustmentPlan F) (text : String) (w : W)
      → input.confirming.dry_run ≡ false
      → Succeeds (execute_stock_depletion project client store env input plan text w).0
      → Absent client plan.before.stock_item_id
          (remove_stock input.stock_item_id text plan.reason)
          w
        × ((execute_stock_depletion project client store env input plan text w).0.out.verified
            ≡ true)
  unfolding execute_stock_depletion
  execution_verified none plan text w real good = absurd (cc (good.unfailed))
  execution_verified (some s) plan text w real good =
      let c = input.confirming in
      let out = record (start_output false) { plan = some plan } in
      elim (Bool-cases c.confirm) [
        | inr unsure ↦ absurd (cc (rw (execute_stock_depletion, real, unsure) at good.fine))
        | inl sure ↦ elim (Bool-cases (c.plan_hash == "")) [
          | inl blank ↦ absurd (cc (rw (execute_stock_depletion, real, sure, blank) at good.fine))
          | inr there ↦ elim (Bool-cases (consume_plan s env.ctx c.plan_hash env.now plan).0) [
            | inr refused ↦
                absurd (cc (rw (execute_stock_depletion, real, sure, there, refused) at good.fine))
            | inl granted ↦
                rw (execute_stock_depletion, real, sure, there, granted)
                  (removal_verified project client out plan
                    (remove_stock input.stock_item_id text plan.reason) w
                    (rw (execute_stock_depletion, real, sure, there, granted) at good))
          ]
        ]
      ]

  -- What a success that is no dry run rests on.
  pub record Depleted (w : W) (out : StockAdjustmentOutput F) : Type 0 where
    pub item : StockItem F
    pub plan : StockAdjustmentPlan F
    pub text : String
    pub was_read : (client.get_stock_item input.stock_item_id w).0 ≡ ok item
    pub depletes : Depletes input item plan text
    pub absent :
        Absent client input.stock_item_id
          (remove_stock input.stock_item_id text plan.reason)
          (client.get_stock_item input.stock_item_id w).1
    pub verified : out.verified ≡ true

  -- A success of deplete_stock_item that is no dry run says that the item is gone: it was read, safe to
  -- deplete, and after the request to remove its whole quantity InvenTree answered that it does not find
  -- the item under its number, whether or not the removal itself was answered.
  pub deplete_stock_item_verified :
      (store : Option (PlanStore C)) (w : W)
      → input.confirming.dry_run ≡ false
      → Succeeds (deplete_stock_item project client store env input w).0
      → Depleted w (deplete_stock_item project client store env input w).0.out
  unfolding deplete_stock_item
  deplete_stock_item_verified store w real good =
      let out = start_output input.confirming.dry_run in
      let got = client.get_stock_item input.stock_item_id w in
      elim (Result-cases (check_depletion {F = F} out input)) [
        | inr (e, refused) ↦
            absurd (check-Refused out e input refused (rw (deplete_stock_item, refused) at good))
        | inl (x, passed) ↦ elim (Result-cases (read_depleted out got.0 >>= depletion_plan input)) [
          | inr (e, unplanned) ↦ absurd (
              bind_fails Refused (read_depleted out got.0) (depletion_plan input) e
                (read-Refused out e got.0) (λ item _. depletion_plan-Refused input e item) unplanned
                (rw (deplete_stock_item, passed, unplanned) at good))
          | inl ((plan, text), planning) ↦
              let (item, read, made) = bind-ok (read_depleted out got.0) _ _ planning in
              let d = depletion_plan-Depletes input item plan text made in
              let (absent, seen) =
                execution_verified store plan text got.1 real
                  (rw (deplete_stock_item, passed, planning) at good) in
              rw (deplete_stock_item, passed, planning)
                (record {
                  item = item;
                  plan = plan;
                  text = text;
                  was_read = read_back out got.0 item read;
                  depletes = d;
                  absent =
                      subst
                        (λ i.
                          Absent client i (remove_stock input.stock_item_id text plan.reason) got.1)
                        (ap (λ p. p.before.stock_item_id) d.planned ∙ d.same_item) absent;
                  verified = seen;
                })
        ]
      ]
