-- ===== src/Stock/Depletion/Replies.antt =====
-- The input of deplete_stock_item, and what the tool answers at each point
-- (internal/tools/stock_depletion_tools.go).
use inventree_mcp.Prelude.{
  String, Option, none, some, Bool, true, false, ◌==◌, not, if◌then◌else◌, ℤ, is_positive, Result,
  ok, err,
}
use inventree_mcp.Text.{trim_space}
use inventree_mcp.Stock.Plans
use inventree_mcp.Stock.Plans.{Planned, PlanStore, issue_plan, consume_plan}
use inventree_mcp.Stock.Item.{
  StockItem, StockAdjustmentOutput, status_not_found, status_partial_failure, sanitized_stock_item,
}
use inventree_mcp.Stock.Execute.{
  Failure, canceled, deadline_exceeded, message, Confirming, Reply, answer, refuse,
  stock_clarification, projected, is_not_found,
}

pub record DepleteStockItemInput : Type 0 where
  pub confirming : Confirming
  pub stock_item_id : ℤ
  pub reason : String

-- The cases of `unsafeStockDepletion`, in their order.
pub data Hazard : Type 0 where
  serialized kept_when_depleted out_of_stock allocation_unknown allocated building consumed
        installed child installed_unknown has_installed children_unknown has_children :
      Hazard

-- `errors.Is` of `context.Canceled` or of `context.DeadlineExceeded`
abbrev pub is_context_error : Failure → Bool
is_context_error canceled = true
is_context_error deadline_exceeded = true
is_context_error _ = false

abbrev pub is_some : {A : Type 0} → Option A → Bool
is_some none = false
is_some (some a) = true

-- the question, the subject and the reason of each
abbrev pub hazard_text : Hazard → String × String × String
hazard_text serialized = (
  "How should the serialized stock item be handled?", "serial",
  "serialized stock cannot be depleted through this deletion workflow",
)
hazard_text kept_when_depleted = (
  "Which delete-on-deplete stock item should be removed?", "delete_on_deplete",
  "the selected stock item does not have delete_on_deplete enabled",
)
hazard_text out_of_stock = (
  "Which available stock item should be removed?", "in_stock",
  "the selected stock item is not currently in stock",
)
hazard_text allocation_unknown = (
  "What is the current stock allocation state?", "allocated",
  "allocation context is unavailable, so safe depletion cannot be proven",
)
hazard_text allocated = (
  "How should the allocated stock be released first?", "allocated",
  "allocated stock cannot be depleted and deleted",
)
hazard_text building = (
  "How should the in-production stock item be completed or cancelled first?", "is_building",
  "stock currently being built cannot be depleted and deleted",
)
hazard_text consumed = (
  "How should the consumed stock history be handled?", "consumed_by",
  "stock consumed by a build cannot be depleted and deleted",
)
hazard_text installed = (
  "How should the installed stock item be uninstalled first?", "belongs_to",
  "stock installed in another item cannot be depleted and deleted",
)
hazard_text child = (
  "How should the child stock relationship be removed first?", "parent",
  "a child stock item cannot be depleted and deleted",
)
hazard_text installed_unknown = (
  "What is the current installed-item state?", "installed_items",
  "installed-item context is unavailable, so safe depletion cannot be proven",
)
hazard_text has_installed = (
  "How should installed child items be removed first?", "installed_items",
  "stock containing installed items cannot be depleted and deleted",
)
hazard_text children_unknown = (
  "What is the current child-item state?", "child_items",
  "child-item context is unavailable, so safe depletion cannot be proven",
)
hazard_text has_children = (
  "How should child stock items be separated first?", "child_items",
  "stock with child items cannot be depleted and deleted",
)

module _ {F : Type 0} where
  abbrev pub about : StockAdjustmentOutput F → (question subject reason : String) → Reply F
  about out question subject reason =
      stock_clarification out question subject reason "stock_item_id"

  abbrev pub hazard : StockAdjustmentOutput F → Hazard → Reply F
  hazard out h =
      let (question, subject, reason) = hazard_text h in about out question subject reason

  -- a pointer that the code takes when it is not nil
  abbrev pub known : {A : Type 0} → Option A → Reply F → Result (Reply F) A
  known none reply = err reply
  known (some a) reply = ok a

  -- the checks of the handler before it reads the item
  abbrev pub check_depletion :
      StockAdjustmentOutput F → DepleteStockItemInput → Result (Reply F) (Unit {0})
  check_depletion out input =
      if not (is_positive input.stock_item_id)
      then err (
          about out "Which stock item should be depleted?" "stock_item"
            "stock_item_id must be positive")
      else if trim_space input.reason == ""
      then err (
          stock_clarification out "What audit reason should be recorded for this stock depletion?"
            "reason" "a nonblank operator reason is required" "reason")
      else ok tt

  abbrev pub read_depleted :
      StockAdjustmentOutput F → Result Failure (StockItem F) → Result (Reply F) (StockItem F)
  read_depleted out (ok item) = ok item
  read_depleted out (err e) =
      err
        (if is_not_found e then answer (record out { status = status_not_found }) else refuse out e)

  abbrev pub mismatched : StockAdjustmentOutput F → Reply F
  mismatched out = refuse out (message "InvenTree returned a mismatched stock-item identity")

  abbrev pub not_positive : StockAdjustmentOutput F → Reply F
  not_positive out =
      about out "Which positive stock item should be depleted?" "quantity"
        "the current stock quantity must be positive and fit the InvenTree decimal bounds"

  -- `stockDepletionPartial`
  abbrev pub stock_depletion_partial :
      StockAdjustmentOutput F → Option (StockItem F) → String → Reply F
  stock_depletion_partial out item recovery = answer (record out {
    status = status_partial_failure;
    item = projected item;
    failure = some (record {
      action = "deplete_stock_item";
      message = "stock deletion result could not be verified";
      recovery_plan = recovery;
    });
  })

  -- `verifyStockDepletion`, on what the read answered
  abbrev pub verify_stock_depletion :
      (String → String) → StockAdjustmentOutput F → Bool → Result Failure (StockItem F) → Reply F
  verify_stock_depletion project out recovered (ok current) =
      stock_depletion_partial out (some (sanitized_stock_item project current))
        "the stock item still exists after the removal attempt; inspect its current state with get_stock_item and do not retry blindly"
  verify_stock_depletion project out recovered (err e) =
      if is_not_found e
      then answer (record out { verified = true; recovered = recovered })
      else if is_context_error e
      then refuse out e
      else stock_depletion_partial out none
          "stock removal may have completed, but exact-ID absence verification failed; use get_stock_item before preparing any new plan"

  abbrev pub issued_depletion : StockAdjustmentOutput F → Result Plans.Error String → Reply F
  issued_depletion out (ok token) = answer (record out { plan_hash = token })
  issued_depletion out (err Plans.capacity) =
      stock_clarification out "When should a new stock-depletion plan be prepared?" "confirmation"
        "too many confirmation plans are outstanding; wait for a token to expire or execute a reviewed plan"
        "dry_run"
  issued_depletion out (err (Plans.other e)) = refuse out (message e)

  abbrev pub undecided : StockAdjustmentOutput F → Reply F
  undecided out =
      stock_clarification out "Should this reviewed stock item now be depleted and deleted?"
        "confirmation" "confirm must be true after reviewing the latest high-risk dry-run plan"
        "confirm"

  abbrev pub unbacked : StockAdjustmentOutput F → Reply F
  unbacked out =
      stock_clarification out "Which current dry-run plan should authorize this stock deletion?"
        "confirmation"
        "plan_hash must be the unexpired, single-use token from a matching dry run by the same principal"
        "plan_hash"
