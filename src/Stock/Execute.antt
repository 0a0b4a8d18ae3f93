-- ===== src/Stock/Execute.antt =====
-- How a reviewed plan is executed: `prepareStockAdjustment`, `executeStockPlan` and what they call in
-- internal/tools/stock_adjustment_tools.go, with `definiteMutationRejection` of validation_errors.go.
-- The InvenTree client works on a world `W`, which may change in any way at each call. What a nil
-- result and `TextResult` add to the status, the fields of a retry and the text of an error are left out.
pub mod Authority
pub mod Request
use inventree_mcp.Prelude.{
  ℕ, String, Option, none, some, Bool, true, false, ◌==◌, ◌&&◌, not, eqb, leb, ltb, if◌then◌else◌,
  ℤ, is_positive, eq_int, Result, ok, err,
}
use inventree_mcp.Text.{trim_space}
use inventree_mcp.Stock.Plans
use inventree_mcp.Stock.Plans.{Planned, PlanStore, issue_plan, consume_plan}
use inventree_mcp.Stock.Item.{
  StockItem, StockStateSnapshot, StockAdjustmentPlan, StockAdjustmentOutput,
  status_clarification_required, status_partial_failure, start_output, snapshot_stock_item,
  equal_int_ptr, equal_string_ptr, sanitized_stock_item, stock_item_recovery_projection,
}
use inventree_mcp.Stock.Decimal.{Floats}

-- What the code asks of an error: `errors.Is` of the two context errors, `errors.As` of `APIError`
-- with its status and whether its kind is `not_found`.
pub data Failure : Type 0 where
  canceled deadline_exceeded : Failure
  api : ℕ → Bool → Failure
  message : String → Failure

-- A mutation by one of the client's methods: `AddStock`, `RemoveStock`, `CountStock` with one item,
-- and `ChangeStockStatus`.
pub data Mutation : Type 0 where
  add_stock remove_stock count_stock : (pk : ℤ) → (quantity notes : String) → Mutation
  change_stock_status : (pk status : ℤ) → (note : String) → Mutation

pub record StockClient (F W : Type 0) : Type 0 where
  pub get_stock_item : ℤ → W → Result Failure (StockItem F) × W
  pub mutate : Mutation → W → Option Failure × W

-- What the caller says of the confirmation, in every input.
pub record Confirming : Type 0 where
  pub dry_run : Bool
  pub confirm : Bool
  pub plan_hash : String

-- What a call reads from outside, apart from the client: the context, the clock at the store, and the
-- token source.
pub record Surroundings (C : Type 0) : Type 0 where
  pub ctx : C
  pub now : ℕ
  pub draw : Result String String

-- A tool's output and its error, if any.
pub record Reply (F : Type 0) : Type 0 where
  pub out : StockAdjustmentOutput F
  pub failed : Option Failure

abbrev pub definite_mutation_rejection : ℕ → Bool
definite_mutation_rejection status =
    leb 400 status
    && ltb status 500
    && not (eqb status 408)
    && not (eqb status 425)
    && not (eqb status 429)

abbrev pub is_rejection : Failure → Bool
is_rejection (api status not_found) = definite_mutation_rejection status
is_rejection _ = false

abbrev pub is_not_found : Failure → Bool
is_not_found (api status not_found) = not_found
is_not_found _ = false

-- what `issue` said, as an error that the tool returns
abbrev pub failure_of : Plans.Error → Failure
failure_of Plans.capacity = message "too many outstanding stock confirmation plans"
failure_of (Plans.other e) = message e

abbrev pub recovery_advice : String
recovery_advice =
    "Do not retry the mutation blindly. Run the same tool again with dry_run:true and the stable stock_item_id to read current state and prepare a new plan only if needed."

module _ {F : Type 0} where
  abbrev pub answer : StockAdjustmentOutput F → Reply F
  answer out = record { out = out; failed = none }

  abbrev pub refuse : StockAdjustmentOutput F → Failure → Reply F
  refuse out e = record { out = out; failed = some e }

  abbrev pub stock_clarification :
      StockAdjustmentOutput F → (question subject reason retry : String) → Reply F
  stock_clarification out question subject reason retry = answer (record out {
    status = status_clarification_required;
    clarification =
        some (record { question = question; field = subject; reason = reason; retry = retry });
  })

  abbrev pub action_of : Option (StockAdjustmentPlan F) → String
  action_of plan = elim plan [ none ↦ "" | some plan ↦ plan.action ]

  abbrev pub projected : Option (StockItem F) → Option (StockItem F)
  projected item = elim item [
    | none ↦ none
    | some item ↦ some (stock_item_recovery_projection item)
  ]

  -- `stockUnknownResult`; the plan is set wherever it is called
  abbrev pub stock_unknown_result : StockAdjustmentOutput F → String → Reply F
  stock_unknown_result out text = answer (record out {
    status = status_partial_failure;
    item = projected out.item;
    failure =
        some
          (record { action = action_of out.plan; message = text; recovery_plan = recovery_advice });
  })

  -- `prepareStockAdjustment` up to the read
  abbrev pub check_stock_request : Bool → ℤ → String → Result (Reply F) (Unit {0})
  check_stock_request dry_run id reason =
      if not (is_positive id)
      then err (
          stock_clarification (start_output dry_run) "Which stock item should be adjusted?"
            "stock_item" "stock_item_id must be positive" "stock_item_id")
      else if trim_space reason == ""
      then err (
          stock_clarification (start_output dry_run)
            "What audit reason should be recorded for this stock change?" "reason"
            "a nonblank operator reason is required for every stock adjustment" "reason")
      else ok tt

  abbrev pub read_item : Bool → Result Failure (StockItem F) → Result (Reply F) (StockItem F)
  read_item dry_run (ok item) = ok item
  read_item dry_run (err e) = err (refuse (start_output dry_run) e)

  unfoldable pub prepare_stock_adjustment :
      {W : Type 0} → StockClient F W → Bool → ℤ → String → W → Result (Reply F) (StockItem F) × W
  prepare_stock_adjustment client dry_run id reason w =
      elim (check_stock_request dry_run id reason) [
        | err reply ↦ (err reply, w)
        | ok _ ↦ let (got, w') = client.get_stock_item id w in (read_item dry_run got, w')
      ]

  abbrev pub issued_reply : StockAdjustmentOutput F → Result Plans.Error String → Reply F
  issued_reply out (ok token) = answer (record out { plan_hash = token })
  issued_reply out (err Plans.capacity) =
      stock_clarification out "When should a new stock confirmation plan be prepared?"
        "confirmation"
        "too many confirmation plans are outstanding; wait for an existing five-minute token to expire or execute a reviewed plan before preparing another"
        "dry_run"
  issued_reply out (err (Plans.other e)) = refuse out (message e)

  abbrev pub unconfirmed : StockAdjustmentOutput F → Reply F
  unconfirmed out =
      stock_clarification out "Should this reviewed stock adjustment now be executed?"
        "confirmation" "confirm must be true after reviewing the latest dry-run plan" "confirm"

  abbrev pub unauthorized : StockAdjustmentOutput F → Reply F
  unauthorized out =
      stock_clarification out "Which current dry-run plan should authorize this stock adjustment?"
        "confirmation"
        "plan_hash must be the unexpired, single-use token from a matching dry run by the same principal"
        "plan_hash"

  abbrev pub with_item :
      (String → String) → StockAdjustmentOutput F → StockItem F → StockAdjustmentOutput F
  with_item project out item = record out { item = some (sanitized_stock_item project item) }

  module _ ⦃fl : Floats F⦄ where
    abbrev pub near : F → F → Bool
    near a b = fl.less (fl.abs (fl.sub a b)) fl.tolerance

    abbrev pub stock_state_matches : StockItem F → StockStateSnapshot F → Bool
    stock_state_matches item expected =
        let actual = snapshot_stock_item item in
        eq_int actual.stock_item_id expected.stock_item_id
        && eq_int actual.part_id expected.part_id
        && near actual.quantity expected.quantity
        && equal_int_ptr actual.location_id expected.location_id
        && eq_int actual.status expected.status
        && equal_string_ptr actual.batch expected.batch
        && equal_string_ptr actual.serial expected.serial
        && equal_string_ptr actual.packaging expected.packaging
        && (if actual.delete_on_deplete
            then expected.delete_on_deplete
            else not expected.delete_on_deplete)

    abbrev pub verified_reply :
        (String → String)
        → StockAdjustmentOutput F
        → StockAdjustmentPlan F
        → Result Failure (StockItem F)
        → Reply F
    verified_reply project out plan (err e) =
        stock_unknown_result out
          "stock adjustment completed but refreshed stock state is unavailable"
    verified_reply project out plan (ok after) =
        if stock_state_matches after plan.after
        then answer (with_item project out after)
        else stock_unknown_result (with_item project out after)
            "refreshed stock state does not match the reviewed plan"

    module _ {W : Type 0} (project : String → String) (client : StockClient F W) where
      -- `executeStockPlan` from the mutation on
      unfoldable pub mutate_stock :
          StockAdjustmentOutput F → StockAdjustmentPlan F → Mutation → W → Reply F × W
      mutate_stock out plan m w =
          let (answered, w₁) = client.mutate m w in
          elim answered [
            | some e ↦ (
              if is_rejection e
                  then refuse out e
                  else stock_unknown_result out "stock adjustment result is unknown",
              w₁,
            )
            | none ↦
                let (after, w₂) = client.get_stock_item plan.before.stock_item_id w₁ in
                (verified_reply project out plan after, w₂)
          ]

    module _ {W C : Type 0} ⦃planned : Planned (StockAdjustmentPlan F)⦄ (project : String → String)
        (client : StockClient F W) where
      -- `executeStockPlan`; a nil store is `none`
      unfoldable pub execute_stock_plan :
          Option (PlanStore C)
          → Surroundings C
          → Confirming
          → StockAdjustmentPlan F
          → Mutation
          → W
          → Reply F × Option (PlanStore C) × W
      execute_stock_plan none env c plan m w = (
        refuse (record (start_output c.dry_run) { plan = some plan })
            (message "stock plan store is unavailable"),
        none,
        w,
      )
      execute_stock_plan (some store) env c plan m w =
          let out = record (start_output c.dry_run) { plan = some plan } in
          if c.dry_run
          then (
            issued_reply out (issue_plan store env.ctx env.now env.draw plan).0,
            some (issue_plan store env.ctx env.now env.draw plan).1,
            w,
          )
          else if not c.confirm
          then (unconfirmed out, some store, w)
          else if c.plan_hash == ""
          then (unauthorized out, some store, w)
          else if (consume_plan store env.ctx c.plan_hash env.now plan).0
          then (
            (mutate_stock project client out plan m w).0,
            some (consume_plan store env.ctx c.plan_hash env.now plan).1,
            (mutate_stock project client out plan m w).1,
          )
          else (unauthorized out, some (consume_plan store env.ctx c.plan_hash env.now plan).1, w)
