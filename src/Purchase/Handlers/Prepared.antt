-- ===== src/Purchase/Handlers/Prepared.antt =====
-- What is read before `hold_purchase_order`, `resume_purchase_order` or `cancel_purchase_order` of
-- internal/tools/purchase_order_lifecycle_tools.go changes an order, and the statuses that it may have.
use inventree_mcp.Prelude.{
  String, none, List, ◌∷◌, Bool, ◌≡◌, ◌≢◌, ◌⊎◌, inl, inr, refl, subst, ℤ, eq_int, eq_int_iff,
  is_positive, Bool-cases, Option-cases, Result-cases, ok, ok_unique,
}
use inventree_mcp.Stock.Decimal.{Floats}
use inventree_mcp.Purchase.Orders.{
  PurchaseOrderLineItem, PurchaseOrderExtraLine, Transition, hold, issue, cancel, complete,
  OrderClient, Sorting, purchase_order_status_pending, purchase_order_status_placed,
  purchase_order_status_on_hold, purchase_order_status_complete, purchase_order_status_cancelled,
}
use inventree_mcp.Purchase.Plans.{LifecyclePlan}
use inventree_mcp.Purchase.Lifecycle.{
  Tool, eligible, hold_tool, resume_tool, cancel_tool, hold_verdict, resume_verdict, cancel_verdict,
  scanned,
}
use inventree_mcp.Purchase.Planning.{shown_lines, load_lifecycle_context, plan_lifecycle}
use inventree_mcp.Purchase.ExtraLines.{scan_extra_lines}
use inventree_mcp.Purchase.Reading.{Verdict-cases, ReadsKeep}

-- The statuses from which the code lets a request through. For cancel the documentation of the tool names
-- only pending, on hold and placed; the code refuses only complete and cancelled.
abbrev pub May : Transition → ℤ → Type 0
May (hold id) s = (s ≡ purchase_order_status_pending) ⊎ (s ≡ purchase_order_status_placed)
May (issue id) s = s ≡ purchase_order_status_on_hold
May (cancel id) s = (s ≢ purchase_order_status_complete) × (s ≢ purchase_order_status_cancelled)
May (complete id) s = s ≡ purchase_order_status_placed

-- the three tools
pub data Kind : Type 0 where
  holding resuming cancelling : Kind

module _ {F : Type 0} ⦃fl : Floats F⦄ where
  abbrev pub tool_of : Kind → Tool F
  tool_of holding = hold_tool
  tool_of resuming = resume_tool
  tool_of cancelling = cancel_tool

hold_may :
    (s : ℤ)
    → hold_verdict s ≡ eligible
    → (s ≡ purchase_order_status_pending) ⊎ (s ≡ purchase_order_status_placed)
hold_may s h = elim (Bool-cases (eq_int s purchase_order_status_on_hold)) [
  | inl held ↦ absurd (cc (rw (hold_verdict, held) at h))
  | inr fresh ↦ elim (Bool-cases (eq_int s purchase_order_status_pending)) [
    | inl pending ↦ inl ((eq_int_iff s purchase_order_status_pending).0 pending)
    | inr further ↦ elim (Bool-cases (eq_int s purchase_order_status_placed)) [
      | inl placed ↦ inr ((eq_int_iff s purchase_order_status_placed).0 placed)
      | inr other ↦ absurd (cc (rw (hold_verdict, fresh, further, other) at h))
    ]
  ]
]

resume_may : (s : ℤ) → resume_verdict s ≡ eligible → s ≡ purchase_order_status_on_hold
resume_may s h = elim (Bool-cases (eq_int s purchase_order_status_placed)) [
  | inl placed ↦ absurd (cc (rw (resume_verdict, placed) at h))
  | inr fresh ↦ elim (Bool-cases (eq_int s purchase_order_status_on_hold)) [
    | inl held ↦ (eq_int_iff s purchase_order_status_on_hold).0 held
    | inr other ↦ absurd (cc (rw (resume_verdict, fresh, other) at h))
  ]
]

cancel_may :
    (s : ℤ)
    → cancel_verdict s ≡ eligible
    → (s ≢ purchase_order_status_complete) × (s ≢ purchase_order_status_cancelled)
cancel_may s h = (λ e. cc (rw (cancel_verdict, e) at h), λ e. cc (rw (cancel_verdict, e) at h))

pub tool-May :
    (F : Type 0) ⦃fl : Floats F⦄ (kind : Kind) (id s : ℤ)
    → (tool_of {F = F} kind).verdict s ≡ eligible
    → May ((tool_of {F = F} kind).request id) s
tool-May F holding id s h = hold_may s h
tool-May F resuming id s h = resume_may s h
tool-May F cancelling id s h = cancel_may s h

module _ {F W : Type 0} where
  -- The client, with the changes of status that it was asked for, the latest first.
  abbrev pub recording : OrderClient F W → OrderClient F (W × List Transition)
  recording client = record {
    get_purchase_order =
        λ id (w, log). let (r, w') = client.get_purchase_order id w in (r, (w', log));
    search_purchase_order_lines =
        λ id (w, log). let (r, w') = client.search_purchase_order_lines id w in (r, (w', log));
    search_extra_lines_page = λ id limit offset (w, log).
        let (r, w') = client.search_extra_lines_page id limit offset w in (r, (w', log));
    transition = λ m (w, log). let (r, w') = client.transition m w in (r, (w', m ∷ log));
  }

  pub recording-ReadsKeep :
      (client : OrderClient F W) (log : List Transition)
      → ReadsKeep (recording client) (λ s. s.1 ≡ log)
  recording-ReadsKeep client log = record {
    get_keeps = λ id w h. h;
    search_keeps = λ id w h. h;
    page_keeps = λ id limit offset w h. h;
  }

module _ {F W : Type 0} (project : String → String)
    ⦃lines_sorting : Sorting (PurchaseOrderLineItem F)⦄
    ⦃extra_sorting : Sorting (PurchaseOrderExtraLine F)⦄ (client : OrderClient F W)
    (tool : Tool F) where
  -- The plan is of the order and lines that InvenTree has just answered with, in a status and with lines
  -- that the tool admits.
  pub record Prepared (id : ℤ) (w : W) (plan : LifecyclePlan F) : Type 0 where
    pub order_read : (client.get_purchase_order id w).0 ≡ ok plan.order
    pub same_order : plan.order_id ≡ plan.order.pk
    pub status_admitted : tool.verdict plan.order.status ≡ eligible
    pub lines_read : List (PurchaseOrderLineItem F)
    pub searched :
        (client.search_purchase_order_lines plan.order.pk (client.get_purchase_order id w).1).0
        ≡ ok lines_read
    pub lines_shown : plan.lines ≡ shown_lines project client lines_read
    pub lines_admitted : tool.objection plan.lines ≡ none
    pub named : plan.action ≡ tool.name
    pub targeted : plan.target_status ≡ tool.target

  pub plan_lifecycle-Prepared :
      (dry_run : Bool) (id : ℤ) (w : W) (plan : LifecyclePlan F)
      → (plan_lifecycle project client tool dry_run id w).0 ≡ ok plan
      → Prepared id w plan
  unfolding plan_lifecycle load_lifecycle_context
  plan_lifecycle-Prepared dry_run id w plan h = elim (Bool-cases (is_positive id)) [
    | inr negative ↦ absurd (cc (rw (plan_lifecycle, negative) at h))
    | inl positive ↦ elim (Result-cases (client.get_purchase_order id w).0) [
      | inr (x, k) ↦ absurd (cc (rw (plan_lifecycle, positive, k) at h))
      | inl (order, k) ↦ elim (Verdict-cases (tool.verdict order.status)) [
        | inl (action, v) ↦ absurd (cc (rw (plan_lifecycle, positive, k, v) at h))
        | inr (inl (reason, v)) ↦ absurd (cc (rw (plan_lifecycle, positive, k, v) at h))
        | inr (inr v) ↦
            let w₁ = (client.get_purchase_order id w).1 in
            elim (Result-cases (client.search_purchase_order_lines order.pk w₁).0) [
              | inr (x, s) ↦
                  absurd (cc (rw (plan_lifecycle, positive, k, v, load_lifecycle_context, s) at h))
              | inl (raw, s) ↦
                  elim (Result-cases (
                    scanned
                      (scan_extra_lines client order.pk
                        (client.search_purchase_order_lines order.pk w₁).1).0)) [
                          | inr (x, e) ↦ absurd (
                              cc (
                                rw (plan_lifecycle, positive, k, v, load_lifecycle_context, s, e) at
                                  h))
                          | inl (extra, e) ↦
                              elim (Option-cases
                                (tool.objection (shown_lines project client raw))) [
                                  | inr (o, obj) ↦ absurd (
                                      cc (
                                        rw
                                          (
                                            plan_lifecycle, positive, k, v, load_lifecycle_context,
                                            s, e, obj,
                                          )
                                          at h))
                                  | inl obj ↦
                                      subst (Prepared id w)
                                        (ok_unique _ _ plan refl (
                                          rw
                                            (
                                              plan_lifecycle, positive, k, v,
                                              load_lifecycle_context, s, e, obj,
                                            )
                                            at h))
                                        (record {
                                          order_read = k;
                                          same_order = refl;
                                          status_admitted = v;
                                          lines_read = raw;
                                          searched = s;
                                          lines_shown = refl;
                                          lines_admitted = obj;
                                          named = refl;
                                          targeted = refl;
                                        })
                                ]
                        ]
            ]
      ]
    ]
  ]

module _ {F W : Type 0} (project : String → String)
    ⦃lines_sorting : Sorting (PurchaseOrderLineItem F)⦄
    ⦃extra_sorting : Sorting (PurchaseOrderExtraLine F)⦄ (client : OrderClient F W)
    (tool : Tool F) where
  pub Prepared-recording :
      (id : ℤ) (w : W) (log : List Transition) (plan : LifecyclePlan F)
      → Prepared project (recording client) tool id (w, log) plan
      → Prepared project client tool id w plan
  Prepared-recording id w log plan p = record {
    order_read = p.order_read;
    same_order = p.same_order;
    status_admitted = p.status_admitted;
    lines_read = p.lines_read;
    searched = p.searched;
    lines_shown = p.lines_shown;
    lines_admitted = p.lines_admitted;
    named = p.named;
    targeted = p.targeted;
  }
