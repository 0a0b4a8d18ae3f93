-- ===== src/Purchase/Completion.antt =====
-- `complete_purchase_order` of internal/tools/purchase_order_completion_tools.go. It keeps no tokens: the
-- caller confirms with the hash of the plan. What a nil result and `TextResult` add to the status and the
-- fields of a retry are left out.
pub mod Ready
pub mod Safety
pub mod Outcome
use inventree_mcp.Prelude.{
  String, Option, none, some, List, [], ◌∷◌, Bool, true, false, ◌==◌, ◌||◌, not, if◌then◌else◌, ℤ,
  is_positive, eq_int, Result, ok, err,
}
use inventree_mcp.Stock.Item.{
  Clarification, status_ok, status_clarification_required, status_partial_failure,
}
use inventree_mcp.Stock.Decimal.{Floats}
use inventree_mcp.Stock.Execute.{Failure, message, Confirming}
use inventree_mcp.Purchase.Orders.{
  PurchaseOrder, PurchaseOrderLineItem, complete, OrderClient, Sorting, sanitize_lines,
  first_outstanding, purchase_order_status_placed, purchase_order_status_complete,
}
use inventree_mcp.Purchase.Lifecycle.{PlannedChange, WorkflowFailure}
use inventree_mcp.Purchase.Handlers.{rejection, is_some}

pub record CompletionPlan (F : Type 0) : Type 0 where
  pub order : PurchaseOrder
  pub lines : List (PurchaseOrderLineItem F)
  pub target_status : ℤ

-- `completePurchaseOrderPlanHash`: SHA-256 of JSON, or an error of JSON
pub record CompletionHash (F : Type 0) : Type 0 where
  pub hash : CompletionPlan F → Result String String

pub record CompletionOutput (F : Type 0) : Type 0 where
  pub status : String
  pub dry_run : Bool
  pub order : Option PurchaseOrder
  pub lines : List (PurchaseOrderLineItem F)
  pub action : String
  pub planned_changes : List PlannedChange
  pub plan_hash : String
  pub recovered : Bool
  pub failure : Option WorkflowFailure
  pub clarification : Option Clarification

-- The tool's output and its error, if any.
pub record CompletionReply (F : Type 0) : Type 0 where
  pub out : CompletionOutput F
  pub failed : Option Failure

abbrev pub tool_name : String
tool_name = "complete_purchase_order"

abbrev pub reviewed_change : ℤ → PlannedChange
reviewed_change id = record {
  action = tool_name;
  record_type = "purchase_order";
  id = id;
  status = purchase_order_status_complete;
  accept_incomplete = some false;
}

module _ {F : Type 0} where
  abbrev pub start : Bool → CompletionOutput F
  start dry_run = record {
    status = status_ok;
    dry_run = dry_run;
    order = none;
    lines = [];
    action = "";
    planned_changes = [];
    plan_hash = "";
    recovered = false;
    failure = none;
    clarification = none;
  }

  abbrev pub answer : CompletionOutput F → CompletionReply F
  answer out = record { out = out; failed = none }

  abbrev pub refuse : CompletionOutput F → Failure → CompletionReply F
  refuse out e = record { out = out; failed = some e }

  -- `completePurchaseOrderClarification`
  abbrev pub clarify : CompletionOutput F → (question reason retry : String) → CompletionReply F
  clarify out question reason retry = answer (record out {
    status = status_clarification_required;
    clarification =
        some (record {
          question = question;
          field = "purchase_order";
          reason = reason;
          retry = retry;
        });
  })

  -- `completePurchaseOrderUnknown`
  abbrev pub unknown : CompletionOutput F → String → CompletionReply F
  unknown out text = answer (record out {
    status = status_partial_failure;
    failure = some (record {
      action = tool_name;
      message = text;
      recovery_plan =
          "Do not repeat any purchase-order receipt. Read the purchase order and every ordinary line; if the order is not COMPLETE and all lines remain fully received, prepare a fresh complete_purchase_order dry-run plan.";
    });
  })

  abbrev pub settled : CompletionOutput F → Bool → PurchaseOrder → CompletionReply F
  settled out failed order =
      if not (eq_int order.status purchase_order_status_complete)
      then unknown (record out { order = some order })
          "purchase-order completion did not produce verified COMPLETE state"
      else answer (record out { order = some order; recovered = failed })

  -- the reply to the refreshed order
  abbrev pub refreshed :
      CompletionOutput F → Bool → Result Failure PurchaseOrder → CompletionReply F
  refreshed out failed (err e) =
      unknown out
        "purchase-order completion result is unknown because refreshed order state is unavailable"
  refreshed out failed (ok order) = settled out failed order

  abbrev pub with_plan : Bool → CompletionPlan F → CompletionOutput F
  with_plan dry_run plan = record (start dry_run) { order = some plan.order; lines = plan.lines }

  abbrev pub plan_of : PurchaseOrder → List (PurchaseOrderLineItem F) → CompletionPlan F
  plan_of order lines = record {
    order = order;
    lines = lines;
    target_status = purchase_order_status_complete;
  }

  -- the checks on the status that was read
  abbrev pub barred : CompletionOutput F → ℤ → Option (CompletionReply F)
  barred out status =
      if eq_int status purchase_order_status_complete
      then some (answer (record out { action = "already_complete" }))
      else if not (eq_int status purchase_order_status_placed)
      then some (
          clarify out "Which placed purchase order should be completed?"
            "only a PLACED purchase order can be completed" "order_id")
      else none

  module _ {W : Type 0} (client : OrderClient F W) where
    -- from the mutation on
    unfoldable pub complete_order : CompletionOutput F → ℤ → W → CompletionReply F × W
    complete_order out id w =
        let (answered, w₁) = client.transition (complete id) w in
        elim (rejection answered) [
          | some e ↦ (refuse out e, w₁)
          | none ↦
              let (got, w₂) = client.get_purchase_order id w₁ in
              (refreshed out (is_some answered) got, w₂)
        ]

    -- the handler from the plan's hash on
    unfoldable pub decide_completion :
        Confirming → ℤ → CompletionOutput F → ℤ → String → W → CompletionReply F × W
    unfolding complete_order
    decide_completion c id out pk hash w =
        if c.dry_run
        then (
          answer (record out { plan_hash = hash; planned_changes = reviewed_change pk ∷ [] }),
          w,
        )
        else if not c.confirm
        then (
          clarify out "Should this fully received purchase order now be completed?"
              "confirm_complete must be true after reviewing the current-state completion plan"
              "dry_run",
          w,
        )
        else if c.plan_hash == "" || not (c.plan_hash == hash)
        then (
          clarify out "Which current completion plan should authorize this status transition?"
              "plan_hash must match a dry run for the current order metadata and every ordinary line"
              "dry_run",
          w,
        )
        else complete_order out id w

    module _ (project : String → String) ⦃lines_sorting : Sorting (PurchaseOrderLineItem F)⦄
        ⦃fl : Floats F⦄ where
      -- the handler up to its plan: a reply, or the plan
      unfoldable pub plan_completion :
          Bool → ℤ → W → Result (CompletionReply F) (CompletionPlan F) × W
      plan_completion dry_run id w =
          if not (is_positive id)
          then (
            err (
                clarify (start dry_run) "Which fully received purchase order should be completed?"
                  "order_id must be positive" "order_id"),
            w,
          )
          else let (got, w₁) = client.get_purchase_order id w in
            elim got [
              | err e ↦ (err (refuse (start dry_run) e), w₁)
              | ok order ↦
                  let out = record (start dry_run) { order = some order } in
                  elim (barred out order.status) [
                    | some reply ↦ (err reply, w₁)
                    | none ↦
                        let (found, w₂) = client.search_purchase_order_lines id w₁ in
                        elim found [
                          | err e ↦ (err (refuse out e), w₂)
                          | ok lines ↦
                              let plan =
                                plan_of order (sanitize_lines project (lines_sorting.sort lines)) in
                              elim (first_outstanding plan.lines) [
                                | some line ↦ (
                                  err (
                                      clarify (with_plan dry_run plan)
                                        "Should the outstanding purchase-order lines be received before completion?"
                                        "purchase order still has outstanding ordinary line quantity; incomplete completion is not supported"
                                        "line_item_id"),
                                  w₂,
                                )
                                | none ↦ (ok plan, w₂)
                              ]
                        ]
                  ]
            ]

      unfoldable pub complete_purchase_order :
          ⦃h : CompletionHash F⦄ → Confirming → ℤ → W → CompletionReply F × W
      complete_purchase_order ⦃h⦄ c id w =
          let (planned, w') = plan_completion c.dry_run id w in
          elim planned [
            | err reply ↦ (reply, w')
            | ok plan ↦ elim (h.hash plan) [
              | err e ↦ (refuse (with_plan c.dry_run plan) (message e), w')
              | ok hash ↦
                  decide_completion c id (record (with_plan c.dry_run plan) { action = tool_name })
                    plan.order.pk hash w'
            ]
          ]
