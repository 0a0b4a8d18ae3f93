-- ===== src/Purchase/Samples.antt =====
-- A small InvenTree server and requests to it, for the tests of the purchase-order tools.
use mathlib.Core.List.Perm
use inventree_mcp.Prelude.{
  ℕ, String, none, List, [], ◌∷◌, true, false, if◌then◌else◌, ℤ, pos, eq_int, ok, ◌≡◌, ◌⊎◌, inl,
  inr, refl, ap, sym, Bool-cases, eq_int_iff, ok_unique,
}
use inventree_mcp.Stock.Plans.History.{PlanCall, planning}
use inventree_mcp.Stock.Samples.{numbers}
use inventree_mcp.Stock.Execute.{Failure, Confirming}
use inventree_mcp.Purchase.Orders.{
  PurchaseOrder, PurchaseOrderLineItem, PurchaseOrderExtraLine, Transition, OrderClient, Sorting,
  purchase_order_status_placed, purchase_order_status_on_hold,
}
use inventree_mcp.Purchase.Plans.{LifecyclePlan, LifecycleDigest}
use inventree_mcp.Purchase.Completion.{CompletionHash}
use inventree_mcp.Purchase.Lifecycle.{hold_tool, cancel_tool, plan_of}
use inventree_mcp.Purchase.Statuses.{order_of, status_after, Faithful}

instance abbrev pub as_given : {A : Type 0} → Sorting A
as_given = record { sort = λ xs. xs; permutes = Perm.refl }

instance abbrev pub by_action : LifecycleDigest ℕ
by_action = record { digest = λ plan. ok plan.action }

instance abbrev pub by_reference : CompletionHash ℕ
by_reference = record { hash = λ plan. ok plan.order.reference }

abbrev pub order_in : ℤ → ℤ → PurchaseOrder
order_in id status = record {
  pk = id;
  reference = "PO-1";
  supplier = pos 2;
  supplier_reference = "";
  description = "";
  creation_date = none;
  start_date = none;
  target_date = none;
  order_currency = none;
  destination = none;
  status = status;
  total_price = none;
}

abbrev pub line_of : ℤ → ℕ → PurchaseOrderLineItem ℕ
line_of order received = record {
  pk = pos 11;
  order = order;
  part = pos 3;
  internal_part = none;
  destination = none;
  line = "";
  reference = "";
  notes = "check the seals";
  quantity = 4;
  received = received;
  target_date = none;
  purchase_price = none;
  purchase_price_currency = "";
  link = "";
  discount = 0;
  project_code = none;
  project_code_label = "";
}

abbrev pub extra_line_of : ℤ → PurchaseOrderExtraLine ℕ
extra_line_of order = record {
  pk = pos 21;
  order = order;
  line = "";
  reference = "freight";
  description = "";
  link = "";
  notes = "";
  quantity = 1;
  price = none;
  price_currency = "";
  target_date = none;
  discount = 0;
  total_price = none;
  project_code = none;
  project_code_label = "";
}

-- The world is the status of every order; each order has one line, with the quantity received that is given.
abbrev pub office : ℕ → OrderClient ℕ (ℤ → ℤ)
office received = record {
  get_purchase_order = λ id w. (ok (order_in id (w id)), w);
  search_purchase_order_lines = λ id w. (ok (line_of id received ∷ []), w);
  search_extra_lines_page = λ id limit offset w. (
    ok (record { count = pos 1; next = none; previous = none; results = extra_line_of id ∷ [] }),
    w,
  );
  transition = λ m w. (none, λ o. if eq_int o (order_of m) then status_after m else w o);
}

changes :
    (m : Transition) (w : ℤ → ℤ) (o : ℤ)
    → ((if eq_int o (order_of m) then status_after m else w o) ≡ w o)
      ⊎ ((o ≡ order_of m)
          × ((if eq_int o (order_of m) then status_after m else w o) ≡ status_after m))
changes m w o = elim (Bool-cases (eq_int o (order_of m))) [
  | inl this ↦ inr ((eq_int_iff o (order_of m)).0 this, rw this refl)
  | inr other ↦ inl (rw other refl)
]

pub office-Faithful : (received : ℕ) → Faithful (office received) (λ w o. w o)
office-Faithful received = record {
  reads = λ o s. record {
    get_keeps = λ id w h. h;
    search_keeps = λ id w h. h;
    page_keeps = λ id limit offset w h. h;
  };
  same_pk = λ id w order h.
      sym (ap (λ (o : PurchaseOrder). o.pk) (ok_unique {E = Failure} _ _ order refl h));
  same_status = λ id w order h.
      sym (ap (λ (o : PurchaseOrder). o.status) (ok_unique {E = Failure} _ _ order refl h));
  effect = changes;
}

abbrev pub all_placed : ℤ → ℤ
all_placed o = purchase_order_status_placed

abbrev pub all_on_hold : ℤ → ℤ
all_on_hold o = purchase_order_status_on_hold

abbrev pub agreed : Confirming
agreed = record { dry_run = false; confirm = true; plan_hash = "PO-1" }

abbrev pub reviewed_hold : List (PlanCall (LifecyclePlan ℕ) String)
reviewed_hold =
    planning "alice" 3 (ok "t1") (
      plan_of hold_tool (order_in (pos 7) purchase_order_status_placed) (line_of (pos 7) 0 ∷ [])
        (extra_line_of (pos 7) ∷ []))
    ∷ []

abbrev pub reviewed_cancel : List (PlanCall (LifecyclePlan ℕ) String)
reviewed_cancel =
    planning "alice" 3 (ok "t1") (
      plan_of cancel_tool (order_in (pos 7) purchase_order_status_placed) (line_of (pos 7) 0 ∷ [])
        (extra_line_of (pos 7) ∷ []))
    ∷ []
