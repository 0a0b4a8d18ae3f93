-- ===== src/Purchase/Planning.antt =====
-- What `hold_purchase_order`, `resume_purchase_order` and `cancel_purchase_order` of
-- internal/tools/purchase_order_lifecycle_tools.go read and decide before they execute a plan.
use inventree_mcp.Prelude.{
  String, none, some, List, map, Bool, not, if◌then◌else◌, ℤ, is_positive, Result, ok, err,
}
use inventree_mcp.Stock.Execute.{Failure}
use inventree_mcp.Purchase.Orders.{
  PurchaseOrderLineItem, PurchaseOrderExtraLine, OrderClient, Sorting, sanitize_lines,
}
use inventree_mcp.Purchase.ExtraLines.{scan_extra_lines}
use inventree_mcp.Purchase.Plans.{LifecyclePlan}
use inventree_mcp.Purchase.Lifecycle.{
  Tool, LifecycleReply, already, barred, eligible, start, answer, refuse, clarify, plan_of,
  without_notes, safe_extra_line, scanned,
}

module _ {F W : Type 0} (project : String → String)
    ⦃lines_sorting : Sorting (PurchaseOrderLineItem F)⦄
    ⦃extra_sorting : Sorting (PurchaseOrderExtraLine F)⦄ (client : OrderClient F W) where
  -- the lines as they are shown
  abbrev pub shown_lines : List (PurchaseOrderLineItem F) → List (PurchaseOrderLineItem F)
  shown_lines lines = map without_notes (sanitize_lines project (lines_sorting.sort lines))

  unfoldable pub load_lifecycle_context :
      ℤ → W → Result Failure (List (PurchaseOrderLineItem F) × List (PurchaseOrderExtraLine F)) × W
  load_lifecycle_context order_id w =
      let (got, w₁) = client.search_purchase_order_lines order_id w in
      elim got [
        | err e ↦ (err e, w₁)
        | ok lines ↦
            let (extra, w₂) = scan_extra_lines client order_id w₁ in
            elim (scanned extra) [
              | err e ↦ (err e, w₂)
              | ok extra_lines ↦
                  (ok (shown_lines lines, map (safe_extra_line project) extra_lines), w₂)
            ]
      ]

  -- a handler up to its plan: a reply, or the plan
  unfoldable pub plan_lifecycle :
      Tool F → Bool → ℤ → W → Result (LifecycleReply F) (LifecyclePlan F) × W
  plan_lifecycle tool dry_run id w =
      if not (is_positive id)
      then (err (clarify (start dry_run) tool.question "order_id must be positive" "order_id"), w)
      else let (got, w₁) = client.get_purchase_order id w in
        elim got [
          | err e ↦ (err (refuse (start dry_run) e), w₁)
          | ok order ↦
              let out = record (start dry_run) { order = some order } in
              elim (tool.verdict order.status) [
                | already action ↦ (err (answer (record out { action = action })), w₁)
                | barred reason ↦ (err (clarify out tool.question reason "order_id"), w₁)
                | eligible ↦
                    let (context, w₂) = load_lifecycle_context order.pk w₁ in
                    elim context [
                      | err e ↦ (err (refuse out e), w₂)
                      | ok (lines, extra_lines) ↦ elim (tool.objection lines) [
                        | some (question, reason) ↦ (
                          err (
                              clarify (record out { lines = lines; extra_lines = extra_lines })
                                question reason "line_item_id"),
                          w₂,
                        )
                        | none ↦ (ok (plan_of tool order lines extra_lines), w₂)
                      ]
                    ]
              ]
        ]
