-- ===== src/Purchase/Lifecycle.antt =====
-- `hold_purchase_order`, `resume_purchase_order` and `cancel_purchase_order` of
-- internal/tools/purchase_order_lifecycle_tools.go. The three handlers are one handler with a table for each
-- tool. What a nil result and `TextResult` add to the status and the fields of a retry are left out.
use inventree_mcp.Prelude.{
  String, Option, none, some, List, [], Bool, false, ◌&&◌, not, if◌then◌else◌, ℤ, eq_int, Result,
  err,
}
use inventree_mcp.Stock.Item.{
  Clarification, status_ok, status_clarification_required, status_partial_failure,
}
use inventree_mcp.Stock.Decimal.{Floats}
use inventree_mcp.Stock.Execute.{Failure, message}
use inventree_mcp.Purchase.Orders.{
  PurchaseOrder, PurchaseOrderLineItem, PurchaseOrderExtraLine, Transition, hold, issue, cancel,
  sanitize_extra_line, first_received, purchase_order_status_pending, purchase_order_status_placed,
  purchase_order_status_on_hold, purchase_order_status_complete, purchase_order_status_cancelled,
}
use inventree_mcp.Purchase.ExtraLines.{ScanEnd, returned, panicked, unfinished}
use inventree_mcp.Purchase.Plans.{LifecyclePlan}

pub record PlannedChange : Type 0 where
  pub action : String
  pub record_type : String
  pub id : ℤ
  -- the fields `status` and `accept_incomplete` of the change
  pub status : ℤ
  pub accept_incomplete : Option Bool

pub record WorkflowFailure : Type 0 where
  pub action : String
  pub message : String
  pub recovery_plan : String

pub record LifecycleOutput (F : Type 0) : Type 0 where
  pub status : String
  pub dry_run : Bool
  pub order : Option PurchaseOrder
  pub lines : List (PurchaseOrderLineItem F)
  pub extra_lines : List (PurchaseOrderExtraLine F)
  pub action : String
  pub planned_changes : List PlannedChange
  pub plan_hash : String
  pub warning : String
  pub recovered : Bool
  pub failure : Option WorkflowFailure
  pub clarification : Option Clarification

-- A tool's output and its error, if any.
pub record LifecycleReply (F : Type 0) : Type 0 where
  pub out : LifecycleOutput F
  pub failed : Option Failure

-- What a handler decides on the status that it has read.
pub data Verdict : Type 0 where
  already : (action : String) → Verdict
  barred : (reason : String) → Verdict
  eligible : Verdict

-- Where the three handlers differ.
pub record Tool (F : Type 0) : Type 0 where
  pub name : String
  pub question : String
  pub verdict : ℤ → Verdict
  -- a question and a reason, for lines that stand against the change
  pub objection : List (PurchaseOrderLineItem F) → Option (String × String)
  pub warning : ℤ → String
  pub target : ℤ
  pub request : ℤ → Transition

abbrev pub hold_verdict : ℤ → Verdict
hold_verdict status =
    if eq_int status purchase_order_status_on_hold
    then already "already_on_hold"
    else if not (eq_int status purchase_order_status_pending)
        && not (eq_int status purchase_order_status_placed)
    then barred "only a pending or placed purchase order can be held"
    else eligible

abbrev pub hold_warning : ℤ → String
hold_warning status =
    if eq_int status purchase_order_status_pending
    then "This order has not been placed with its supplier. InvenTree has no native transition back to PENDING, so resuming this hold will place the order with its supplier."
    else ""

abbrev pub resume_verdict : ℤ → Verdict
resume_verdict status =
    if eq_int status purchase_order_status_placed
    then already "already_placed"
    else if not (eq_int status purchase_order_status_on_hold)
    then barred "only an on-hold purchase order can be resumed"
    else eligible

abbrev pub cancel_verdict : ℤ → Verdict
cancel_verdict status =
    if eq_int status purchase_order_status_cancelled
    then already "already_cancelled"
    else if eq_int status purchase_order_status_complete
    then barred "a completed purchase order cannot be cancelled"
    else eligible

module _ {F : Type 0} where
  abbrev pub hold_tool : Tool F
  hold_tool = record {
    name = "hold_purchase_order";
    question = "Which pending or placed purchase order should be held?";
    verdict = hold_verdict;
    objection = λ lines. none;
    warning = hold_warning;
    target = purchase_order_status_on_hold;
    request = hold;
  }

  abbrev pub resume_tool : Tool F
  resume_tool = record {
    name = "resume_purchase_order";
    question = "Which on-hold purchase order should be resumed?";
    verdict = resume_verdict;
    objection = λ lines. none;
    warning = λ status. "";
    target = purchase_order_status_placed;
    request = issue;
  }

  abbrev pub received_objection : Option (PurchaseOrderLineItem F) → Option (String × String)
  received_objection none = none
  received_objection (some line) = some (
    "Should the received stock on this purchase order be resolved before cancelling?",
    "cancellation is refused while any ordinary line has received quantity greater than zero; InvenTree would otherwise leave that received stock orphaned but still linked to the cancelled order with no auto-disposal",
  )

  abbrev pub cancel_tool : ⦃fl : Floats F⦄ → Tool F
  cancel_tool = record {
    name = "cancel_purchase_order";
    question = "Which purchase order should be cancelled?";
    verdict = cancel_verdict;
    objection = λ lines. received_objection (first_received lines);
    warning = λ status. "";
    target = purchase_order_status_cancelled;
    request = cancel;
  }

  abbrev pub start : Bool → LifecycleOutput F
  start dry_run = record {
    status = status_ok;
    dry_run = dry_run;
    order = none;
    lines = [];
    extra_lines = [];
    action = "";
    planned_changes = [];
    plan_hash = "";
    warning = "";
    recovered = false;
    failure = none;
    clarification = none;
  }

  abbrev pub answer : LifecycleOutput F → LifecycleReply F
  answer out = record { out = out; failed = none }

  abbrev pub refuse : LifecycleOutput F → Failure → LifecycleReply F
  refuse out e = record { out = out; failed = some e }

  -- `purchaseOrderLifecycleClarification`
  abbrev pub clarify : LifecycleOutput F → (question reason retry : String) → LifecycleReply F
  clarify out question reason retry = answer (record out {
    status = status_clarification_required;
    clarification =
        some (record {
          question = question;
          field = "purchase_order";
          reason = reason;
          retry = retry;
        });
  })

  -- `purchaseOrderLifecycleUnknown`
  abbrev pub unknown : LifecycleOutput F → String → LifecycleReply F
  unknown out text = answer (record out {
    status = status_partial_failure;
    failure = some (record {
      action = out.action;
      message = text;
      recovery_plan =
          "Do not retry the mutation blindly. Read the purchase order again with a fresh dry_run:true plan before preparing another confirmation.";
    });
  })

  abbrev pub plan_of :
      Tool F
      → PurchaseOrder
      → List (PurchaseOrderLineItem F)
      → List (PurchaseOrderExtraLine F)
      → LifecyclePlan F
  plan_of tool order lines extra_lines = record {
    action = tool.name;
    order_id = order.pk;
    order = order;
    lines = lines;
    extra_lines = extra_lines;
    target_status = tool.target;
  }

  abbrev pub without_notes : PurchaseOrderLineItem F → PurchaseOrderLineItem F
  without_notes line = record line { notes = "" }

  abbrev pub safe_extra_line :
      (String → String) → PurchaseOrderExtraLine F → PurchaseOrderExtraLine F
  safe_extra_line project line = record (sanitize_extra_line project line) { notes = "" }

  -- What the scan gives a handler. A panic, which no code of the repository recovers from, ends the handler
  -- here as an error does: there is no plan, and InvenTree is asked for nothing more.
  abbrev pub scanned :
      ScanEnd (List (PurchaseOrderExtraLine F)) → Result Failure (List (PurchaseOrderExtraLine F))
  scanned (returned r) = r
  scanned panicked = err (message "runtime error: makeslice: cap out of range")
  scanned unfinished = err (message "")
