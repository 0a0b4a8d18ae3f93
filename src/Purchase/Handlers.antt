-- ===== src/Purchase/Handlers.antt =====
-- How `hold_purchase_order`, `resume_purchase_order` and `cancel_purchase_order` change an order:
-- `executePurchaseOrderLifecyclePlan` of internal/tools/purchase_order_lifecycle_tools.go and the handlers.
pub mod Prepared
pub mod Safety
pub mod Outcome
pub mod Cancellation
use inventree_mcp.Prelude.{
  String, Option, none, some, [], ◌∷◌, Bool, true, false, ◌==◌, not, if◌then◌else◌, ℤ, eq_int,
  Result, ok, err,
}
use inventree_mcp.Stock.Plans
use inventree_mcp.Stock.Decimal.{Floats}
use inventree_mcp.Stock.Execute.{Failure, message, is_rejection, Confirming, Surroundings}
use inventree_mcp.Purchase.Orders.{
  PurchaseOrder, PurchaseOrderLineItem, PurchaseOrderExtraLine, Transition, OrderClient, Sorting,
}
use inventree_mcp.Purchase.Plans.{
  LifecyclePlan, LifecycleDigest, LifecyclePlanStore, issue_lifecycle, consume_lifecycle,
}
use inventree_mcp.Purchase.Lifecycle.{
  LifecycleOutput, LifecycleReply, Tool, hold_tool, resume_tool, cancel_tool, start, answer, refuse,
  clarify, unknown,
}
use inventree_mcp.Purchase.Planning.{plan_lifecycle}

-- an answer that surely refused the change
abbrev pub rejection : Option Failure → Option Failure
rejection none = none
rejection (some e) = if is_rejection e then some e else none

abbrev pub is_some : Option Failure → Bool
is_some none = false
is_some (some e) = true

module _ {F : Type 0} where
  abbrev pub plan_output : Bool → LifecyclePlan F → String → LifecycleOutput F
  plan_output dry_run plan warning = record (start dry_run) {
    order = some plan.order;
    lines = plan.lines;
    extra_lines = plan.extra_lines;
    action = plan.action;
    warning = warning;
  }

  abbrev pub issued :
      LifecycleOutput F → LifecyclePlan F → Result Plans.Error String → LifecycleReply F
  issued out plan (ok token) = answer (record out {
    plan_hash = token;
    planned_changes =
        record {
          action = plan.action;
          record_type = "purchase_order";
          id = plan.order_id;
          status = plan.target_status;
          accept_incomplete = none;
        }
        ∷ [];
  })
  issued out plan (err Plans.capacity) =
      clarify out "When should a new purchase-order lifecycle plan be prepared?"
        "too many confirmation plans are outstanding; wait for an existing five-minute token to expire or execute a reviewed plan before preparing another"
        "dry_run"
  issued out plan (err (Plans.other e)) = refuse out (message e)

  abbrev pub unconfirmed : LifecycleOutput F → LifecycleReply F
  unconfirmed out =
      clarify out "Should this reviewed purchase-order lifecycle change now be executed?"
        "confirm must be true after reviewing the latest dry-run plan" "confirm"

  abbrev pub unauthorized : LifecycleOutput F → LifecycleReply F
  unauthorized out =
      clarify out
        "Which current dry-run plan should authorize this purchase-order lifecycle change?"
        "plan_hash must be the unexpired, single-use token from a matching dry run by the same principal"
        "plan_hash"

  abbrev pub settled : LifecycleOutput F → ℤ → Bool → PurchaseOrder → LifecycleReply F
  settled out target failed order =
      if not (eq_int order.status target)
      then unknown (record out { order = some order })
          "refreshed order status does not match the reviewed lifecycle plan"
      else answer (record out { order = some order; recovered = failed })

  -- the reply to the refreshed order
  abbrev pub refreshed :
      LifecycleOutput F → ℤ → Bool → Result Failure PurchaseOrder → LifecycleReply F
  refreshed out target failed (err e) =
      unknown out
        "purchase-order lifecycle result is unknown because refreshed order state is unavailable"
  refreshed out target failed (ok order) = settled out target failed order

  module _ {W : Type 0} (client : OrderClient F W) where
    -- `executePurchaseOrderLifecyclePlan` from the mutation on
    unfoldable pub change_status :
        LifecycleOutput F → LifecyclePlan F → Transition → W → LifecycleReply F × W
    change_status out plan m w =
        let (answered, w₁) = client.transition m w in
        elim (rejection answered) [
          | some e ↦ (refuse out e, w₁)
          | none ↦
              let (got, w₂) = client.get_purchase_order plan.order_id w₁ in
              (refreshed out plan.target_status (is_some answered) got, w₂)
        ]

    module _ {C : Type 0} ⦃d : LifecycleDigest F⦄ where
      -- `executePurchaseOrderLifecyclePlan`; a nil store is `none`
      unfoldable pub execute_lifecycle_plan :
          Option (LifecyclePlanStore C)
          → Surroundings C
          → Confirming
          → LifecyclePlan F
          → String
          → Transition
          → W
          → LifecycleReply F × Option (LifecyclePlanStore C) × W
      execute_lifecycle_plan none env c plan warning m w = (
        refuse (plan_output c.dry_run plan warning)
            (message "purchase-order lifecycle plan store is unavailable"),
        none,
        w,
      )
      execute_lifecycle_plan (some store) env c plan warning m w =
          let out = plan_output c.dry_run plan warning in
          if c.dry_run
          then (
            issued out plan (issue_lifecycle store env.ctx env.now env.draw plan).0,
            some (issue_lifecycle store env.ctx env.now env.draw plan).1,
            w,
          )
          else if not c.confirm
          then (unconfirmed out, some store, w)
          else if c.plan_hash == ""
          then (unauthorized out, some store, w)
          else if (consume_lifecycle store env.ctx c.plan_hash env.now plan).0
          then (
            (change_status out plan m w).0,
            some (consume_lifecycle store env.ctx c.plan_hash env.now plan).1,
            (change_status out plan m w).1,
          )
          else (
            unauthorized out,
            some (consume_lifecycle store env.ctx c.plan_hash env.now plan).1,
            w,
          )

module _ {F W C : Type 0} (project : String → String)
    ⦃lines_sorting : Sorting (PurchaseOrderLineItem F)⦄
    ⦃extra_sorting : Sorting (PurchaseOrderExtraLine F)⦄ ⦃d : LifecycleDigest F⦄
    (client : OrderClient F W) where
  -- the part that the three handlers share
  unfoldable pub run_tool :
      Tool F
      → Option (LifecyclePlanStore C)
      → Surroundings C
      → Confirming
      → ℤ
      → W
      → LifecycleReply F × Option (LifecyclePlanStore C) × W
  run_tool tool store env c id w =
      let (planned, w') = plan_lifecycle project client tool c.dry_run id w in
      elim planned [
        | err reply ↦ (reply, store, w')
        | ok plan ↦
            execute_lifecycle_plan client store env c plan (tool.warning plan.order.status)
              (tool.request plan.order_id) w'
      ]

  abbrev pub hold_purchase_order :
      Option (LifecyclePlanStore C)
      → Surroundings C
      → Confirming
      → ℤ
      → W
      → LifecycleReply F × Option (LifecyclePlanStore C) × W
  hold_purchase_order = run_tool hold_tool

  abbrev pub resume_purchase_order :
      Option (LifecyclePlanStore C)
      → Surroundings C
      → Confirming
      → ℤ
      → W
      → LifecycleReply F × Option (LifecyclePlanStore C) × W
  resume_purchase_order = run_tool resume_tool

  abbrev pub cancel_purchase_order :
      ⦃fl : Floats F⦄
      → Option (LifecyclePlanStore C)
      → Surroundings C
      → Confirming
      → ℤ
      → W
      → LifecycleReply F × Option (LifecyclePlanStore C) × W
  cancel_purchase_order = run_tool cancel_tool
