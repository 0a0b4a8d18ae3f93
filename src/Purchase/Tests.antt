-- ===== src/Purchase/Tests.antt =====
-- The theorems about the purchase-order tools at concrete inputs.
use inventree_mcp.Prelude.{
  ℕ, String, Option, none, some, List, [], ◌∷◌, pos, ◌≡◌, ◌⊎◌, refl, ok, Always,
}
use inventree_mcp.Stock.Samples.{numbers, same_url, same_name, surroundings, go_ahead}
use inventree_mcp.Stock.Plans.History.{run_plans}
use inventree_mcp.Purchase.Orders.{
  PurchaseOrder, PurchaseOrderLineItem, Transition, hold, complete, purchase_order_status_on_hold,
  purchase_order_status_complete,
}
use inventree_mcp.Purchase.Lifecycle.{eligible, cancel_verdict}
use inventree_mcp.Purchase.ExtraLines.{scan_extra_lines}
use inventree_mcp.Purchase.ExtraLines.Scan.{OfOrder, scan_extra_lines-OfOrder}
use inventree_mcp.Purchase.Plans.{LifecyclePlanStore, new_lifecycle_plan_store}
use inventree_mcp.Purchase.Plans.Twin.{planned_of, twin, run_lifecycle, run_lifecycle-run_plans}
use inventree_mcp.Purchase.Handlers.{run_tool, cancel_purchase_order}
use inventree_mcp.Purchase.Handlers.Prepared.{holding, tool_of, recording}
use inventree_mcp.Purchase.Handlers.Safety.{Reviewed, run_tool-Reviewed}
use inventree_mcp.Purchase.Handlers.Cancellation.{unreceived, cancel_purchase_order-unreceived}
use inventree_mcp.Purchase.Handlers.Outcome.{ShowsStatus, run_tool-ShowsStatus}
use inventree_mcp.Purchase.Completion.{CompletionPlan, CompletionHash, complete_purchase_order}
use inventree_mcp.Purchase.Completion.Ready.{ReadyToComplete}
use inventree_mcp.Purchase.Completion.Safety.{Agrees, complete_purchase_order-ReadyToComplete}
use inventree_mcp.Purchase.Completion.Outcome.{complete_purchase_order-ShowsStatus}
use inventree_mcp.Purchase.Statuses.{Reach, lifecycle, completing, serve_all}
use inventree_mcp.Purchase.Statuses.Final.{serve_all-Reach}
use inventree_mcp.Purchase.Samples.{
  as_given, by_action, by_reference, office, office-Faithful, all_placed, agreed, reviewed_hold,
  reviewed_cancel,
}

-- The documentation of the cancel tool names pending, on hold and placed; another status passes too.
other_status_lem : cancel_verdict (pos 50) ≡ eligible
other_status_lem = refl

scan_extra_lines-OfOrder_example :
    OfOrder
      (pos 7)
      ((office 0).search_extra_lines_page (pos 7) (pos 100) (pos 0) all_placed).0
      (scan_extra_lines (office 0) (pos 7) all_placed).0
scan_extra_lines-OfOrder_example = scan_extra_lines-OfOrder (pos 7) (office 0) all_placed

run_lifecycle-run_plans_example :
    run_plans ⦃p = planned_of by_action⦄
      (twin (new_lifecycle_plan_store same_name))
      []
      reviewed_hold
    ≡ (
      twin (run_lifecycle (new_lifecycle_plan_store same_name) [] reviewed_hold).0,
      (run_lifecycle (new_lifecycle_plan_store same_name) [] reviewed_hold).1,
    )
run_lifecycle-run_plans_example =
    run_lifecycle-run_plans (new_lifecycle_plan_store same_name) [] reviewed_hold

abbrev after_review : Option (LifecyclePlanStore String)
after_review = some (run_lifecycle (new_lifecycle_plan_store same_name) [] reviewed_hold).0

run_tool-Reviewed_example :
    let asked =
      (run_tool same_url
        (recording (office 0))
        (tool_of holding)
        after_review
        surroundings
        go_ahead
        (pos 7)
        (all_placed, [])).2.1 in
    (asked ≡ [])
    ⊎ ((m : Transition) × (asked ≡ m ∷ [])
        × Reviewed same_url
            (office 0)
            surroundings
            go_ahead
            (pos 7)
            same_name
            (run_lifecycle (new_lifecycle_plan_store same_name) [] reviewed_hold).1
            (tool_of holding)
            all_placed
            m)
run_tool-Reviewed_example =
    run_tool-Reviewed same_url (office 0) surroundings go_ahead (pos 7) holding same_name
      reviewed_hold all_placed

abbrev after_cancel_review : Option (LifecyclePlanStore String)
after_cancel_review = some (run_lifecycle (new_lifecycle_plan_store same_name) [] reviewed_cancel).0

cancel_purchase_order-unreceived_example :
    ((cancel_purchase_order same_url
        (recording (office 0))
        after_cancel_review
        surroundings
        go_ahead
        (pos 7)
        (all_placed, [])).2.1
      ≡ [])
    ⊎ ((order : PurchaseOrder) × (lines : List (PurchaseOrderLineItem ℕ)) × (((office
              0).get_purchase_order
            (pos 7)
            all_placed).0
          ≡ ok order)
        × (((office 0).search_purchase_order_lines order.pk
              ((office 0).get_purchase_order (pos 7) all_placed).1).0
            ≡ ok lines)
        × Always unreceived lines)
cancel_purchase_order-unreceived_example =
    cancel_purchase_order-unreceived same_url (office 0) surroundings go_ahead (pos 7)
      after_cancel_review all_placed

held_fine :
    (run_tool same_url
      (office 0)
      (tool_of holding)
      after_review
      surroundings
      go_ahead
      (pos 7)
      all_placed).0.failed
    ≡ none
unfolding run_tool inventree_mcp.Purchase.Planning.plan_lifecycle
    inventree_mcp.Purchase.Planning.load_lifecycle_context scan_extra_lines
    inventree_mcp.Purchase.ExtraLines.scan_pages inventree_mcp.Purchase.ExtraLines.take_records
    inventree_mcp.Purchase.Handlers.execute_lifecycle_plan
    inventree_mcp.Purchase.Handlers.change_status inventree_mcp.Purchase.Plans.consume_lifecycle
    inventree_mcp.Purchase.Plans.consume_locked inventree_mcp.Purchase.Plans.delete_expired
    inventree_mcp.Purchase.Plans.issue_lifecycle inventree_mcp.Purchase.Plans.issue_locked
    inventree_mcp.Purchase.Plans.replace inventree_mcp.GoMap.get inventree_mcp.GoMap.retain
    inventree_mcp.GoMap.put inventree_mcp.GoMap.delete run_lifecycle
    inventree_mcp.Purchase.Plans.Twin.step_lifecycle
held_fine = refl

held_good :
    (run_tool same_url
      (office 0)
      (tool_of holding)
      after_review
      surroundings
      go_ahead
      (pos 7)
      all_placed).0.out.status
    ≡ "ok"
unfolding run_tool inventree_mcp.Purchase.Planning.plan_lifecycle
    inventree_mcp.Purchase.Planning.load_lifecycle_context scan_extra_lines
    inventree_mcp.Purchase.ExtraLines.scan_pages inventree_mcp.Purchase.ExtraLines.take_records
    inventree_mcp.Purchase.Handlers.execute_lifecycle_plan
    inventree_mcp.Purchase.Handlers.change_status inventree_mcp.Purchase.Plans.consume_lifecycle
    inventree_mcp.Purchase.Plans.consume_locked inventree_mcp.Purchase.Plans.delete_expired
    inventree_mcp.Purchase.Plans.issue_lifecycle inventree_mcp.Purchase.Plans.issue_locked
    inventree_mcp.Purchase.Plans.replace inventree_mcp.GoMap.get inventree_mcp.GoMap.retain
    inventree_mcp.GoMap.put inventree_mcp.GoMap.delete run_lifecycle
    inventree_mcp.Purchase.Plans.Twin.step_lifecycle
held_good = refl

held_asks :
    (run_tool same_url
      (recording (office 0))
      (tool_of holding)
      after_review
      surroundings
      go_ahead
      (pos 7)
      (all_placed, [])).2.1
    ≡ hold (pos 7) ∷ []
unfolding run_tool inventree_mcp.Purchase.Planning.plan_lifecycle
    inventree_mcp.Purchase.Planning.load_lifecycle_context scan_extra_lines
    inventree_mcp.Purchase.ExtraLines.scan_pages inventree_mcp.Purchase.ExtraLines.take_records
    inventree_mcp.Purchase.Handlers.execute_lifecycle_plan
    inventree_mcp.Purchase.Handlers.change_status inventree_mcp.Purchase.Plans.consume_lifecycle
    inventree_mcp.Purchase.Plans.consume_locked inventree_mcp.Purchase.Plans.delete_expired
    inventree_mcp.Purchase.Plans.issue_lifecycle inventree_mcp.Purchase.Plans.issue_locked
    inventree_mcp.Purchase.Plans.replace inventree_mcp.GoMap.get inventree_mcp.GoMap.retain
    inventree_mcp.GoMap.put inventree_mcp.GoMap.delete run_lifecycle
    inventree_mcp.Purchase.Plans.Twin.step_lifecycle
held_asks = refl

-- Stock has been received on the line.
cancelled_never :
    (cancel_purchase_order same_url
      (recording (office 4))
      after_cancel_review
      surroundings
      go_ahead
      (pos 7)
      (all_placed, [])).2.1
    ≡ []
unfolding run_tool inventree_mcp.Purchase.Orders.first_received
    inventree_mcp.Purchase.Planning.plan_lifecycle
    inventree_mcp.Purchase.Planning.load_lifecycle_context scan_extra_lines
    inventree_mcp.Purchase.ExtraLines.scan_pages inventree_mcp.Purchase.ExtraLines.take_records
    inventree_mcp.Purchase.Handlers.execute_lifecycle_plan
    inventree_mcp.Purchase.Handlers.change_status inventree_mcp.Purchase.Plans.consume_lifecycle
    inventree_mcp.Purchase.Plans.consume_locked inventree_mcp.Purchase.Plans.delete_expired
    inventree_mcp.Purchase.Plans.issue_lifecycle inventree_mcp.Purchase.Plans.issue_locked
    inventree_mcp.Purchase.Plans.replace inventree_mcp.GoMap.get inventree_mcp.GoMap.retain
    inventree_mcp.GoMap.put inventree_mcp.GoMap.delete run_lifecycle
    inventree_mcp.Purchase.Plans.Twin.step_lifecycle
cancelled_never = refl

run_tool-ShowsStatus_example :
    ShowsStatus
      (office 0)
      purchase_order_status_on_hold
      (run_tool same_url
        (office 0)
        (tool_of holding)
        after_review
        surroundings
        go_ahead
        (pos 7)
        all_placed).0.out.order
run_tool-ShowsStatus_example =
    run_tool-ShowsStatus (office 0) same_url holding surroundings go_ahead (pos 7) after_review
      all_placed refl held_fine held_good

serve_all-Reach_example : Reach (all_placed (pos 7)) (
    (serve_all same_url
        (office 4)
        after_review
        all_placed
        (lifecycle holding surroundings go_ahead (pos 7) ∷ completing agreed (pos 7) ∷ [])).1
      (pos 7))
serve_all-Reach_example =
    serve_all-Reach same_url (office 4) (λ w o. w o) (office-Faithful 4) after_review all_placed
      (lifecycle holding surroundings go_ahead (pos 7) ∷ completing agreed (pos 7) ∷ []) (pos 7)

complete_purchase_order-ReadyToComplete_example :
    ((complete_purchase_order (recording (office 4)) same_url agreed (pos 7) (all_placed, [])).1.1
      ≡ [])
    ⊎ (((complete_purchase_order
            (recording (office 4))
            same_url
            agreed
            (pos 7)
            (all_placed, [])).1.1
          ≡ complete (pos 7) ∷ [])
        × ((plan : CompletionPlan ℕ) × (hash : String) × ReadyToComplete same_url
              (office 4)
              (pos 7)
              all_placed
              plan
            × (by_reference.hash plan ≡ ok hash)
            × Agrees agreed hash))
complete_purchase_order-ReadyToComplete_example =
    complete_purchase_order-ReadyToComplete same_url (office 4) agreed (pos 7) all_placed

completed_fine :
    (complete_purchase_order (office 4) same_url agreed (pos 7) all_placed).0.failed ≡ none
unfolding complete_purchase_order inventree_mcp.Purchase.Completion.plan_completion
    inventree_mcp.Purchase.Completion.decide_completion
    inventree_mcp.Purchase.Completion.complete_order inventree_mcp.Purchase.Orders.first_outstanding
completed_fine = refl

completed_good :
    (complete_purchase_order (office 4) same_url agreed (pos 7) all_placed).0.out.status ≡ "ok"
unfolding complete_purchase_order inventree_mcp.Purchase.Completion.plan_completion
    inventree_mcp.Purchase.Completion.decide_completion
    inventree_mcp.Purchase.Completion.complete_order inventree_mcp.Purchase.Orders.first_outstanding
completed_good = refl

complete_purchase_order-ShowsStatus_example :
    ShowsStatus
      (office 4)
      purchase_order_status_complete
      (complete_purchase_order (office 4) same_url agreed (pos 7) all_placed).0.out.order
complete_purchase_order-ShowsStatus_example =
    complete_purchase_order-ShowsStatus (office 4) same_url agreed (pos 7) all_placed refl
      completed_fine completed_good
