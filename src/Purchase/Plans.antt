-- ===== src/Purchase/Plans.antt =====
-- `purchaseOrderLifecyclePlanStore` of internal/tools/purchase_order_lifecycle_tools.go: confirmation tokens
-- for the plans of hold, resume and cancel. The clock, the token source and the context are arguments.
pub mod Twin
use inventree_mcp.Prelude.{
  ℕ, suc, ◌+◌, String, Option, none, some, List, [], ◌∷◌, Bool, true, false, ◌&&◌, ◌||◌, not, ◌==◌,
  ltb, if◌then◌else◌, length, ℤ, eq_int, reaches, pos, Result, ok, err,
}
use inventree_mcp.GoMap.{Assoc, get, delete, put, retain}
use inventree_mcp.Stock.Plans
use inventree_mcp.Stock.Plans.{stock_plan_lifetime}
use inventree_mcp.Purchase.Orders.{PurchaseOrder, PurchaseOrderLineItem, PurchaseOrderExtraLine}

pub record LifecyclePlan (F : Type 0) : Type 0 where
  pub action : String
  pub order_id : ℤ
  pub order : PurchaseOrder
  pub lines : List (PurchaseOrderLineItem F)
  pub extra_lines : List (PurchaseOrderExtraLine F)
  pub target_status : ℤ

-- `purchaseOrderLifecyclePlanDigest`: SHA-256 of JSON, or an error of JSON
pub record LifecycleDigest (F : Type 0) : Type 0 where
  pub digest : LifecyclePlan F → Result String String

pub record LifecycleConfirmation : Type 0 where
  pub digest : String
  pub principal : String
  pub order_id : ℤ
  pub action : String
  pub expires_at : ℕ

pub record LifecyclePlanStore (C : Type 0) : Type 0 where
  pub entries : Assoc LifecycleConfirmation
  pub principal : C → String
  pub max_entries : ℤ
  pub max_entries_per_principal : ℤ

abbrev pub new_lifecycle_plan_store : {C : Type 0} → (C → String) → LifecyclePlanStore C
new_lifecycle_plan_store principal = record {
  entries = [];
  principal = principal;
  max_entries = pos 4096;
  max_entries_per_principal = pos 64;
}

-- `now.Before(entry.expiresAt)`
abbrev pub current : ℕ → LifecycleConfirmation → Bool
current now c = ltb now c.expires_at

-- the loop of `issue`: what stays, and how many entries of the principal stay
unfoldable pub replace :
    (principal action : String) → ℤ → Assoc LifecycleConfirmation → Assoc LifecycleConfirmation × ℕ
replace principal action id [] = ([], 0)
replace principal action id ((token, c) ∷ m) =
    let (kept, n) = replace principal action id m in
    if c.principal == principal && eq_int c.order_id id && c.action == action
    then (kept, n)
    else ((token, c) ∷ kept, if c.principal == principal then suc n else n)

abbrev pub confirms :
    ℕ → (digest principal action : String) → ℤ → Option LifecycleConfirmation → Bool
confirms now digest principal action id none = false
confirms now digest principal action id (some c) = not (
    not (c.digest == digest)
    || not (c.principal == principal)
    || not (eq_int c.order_id id)
    || not (c.action == action)
    || not (current now c))

module _ {C : Type 0} where
  unfoldable pub delete_expired : ℕ → LifecyclePlanStore C → LifecyclePlanStore C
  delete_expired now s = record s { entries = retain (current now) s.entries }

  -- `issue` from the lock on
  unfoldable pub issue_locked :
      LifecyclePlanStore C
      → ℕ
      → (principal action : String) → ℤ
      → (digest token : String) → Result Plans.Error String × LifecyclePlanStore C
  unfolding delete_expired
  issue_locked s now principal action id digest token =
      let swept = delete_expired now s in
      let (kept, principal_entries) = replace principal action id swept.entries in
      if reaches (length kept) s.max_entries
        || reaches principal_entries s.max_entries_per_principal
      then (err Plans.capacity, record s { entries = kept })
      else (
        ok token,
        record s {
          entries =
              put token
                (record {
                  digest = digest;
                  principal = principal;
                  order_id = id;
                  action = action;
                  expires_at = now + stock_plan_lifetime;
                })
                kept;
        },
      )

  -- `consume` from the lock on
  unfoldable pub consume_locked :
      LifecyclePlanStore C
      → ℕ
      → (principal action : String) → ℤ
      → (digest token : String) → Bool × LifecyclePlanStore C
  unfolding delete_expired
  consume_locked s now principal action id digest token =
      let swept = delete_expired now s in
      if confirms now digest principal action id (get token swept.entries)
      then (true, record swept { entries = delete token swept.entries })
      else (false, swept)

  module _ {F : Type 0} ⦃d : LifecycleDigest F⦄ where
    unfoldable pub issue_lifecycle :
        LifecyclePlanStore C
        → C
        → ℕ
        → Result String String
        → LifecyclePlan F
        → Result Plans.Error String × LifecyclePlanStore C
    issue_lifecycle s ctx now draw plan = elim (d.digest plan) [
      | err e ↦ (err (Plans.other e), s)
      | ok digest ↦ elim draw [
        | err e ↦ (err (Plans.other e), s)
        | ok token ↦ issue_locked s now (s.principal ctx) plan.action plan.order_id digest token
      ]
    ]

    unfoldable pub consume_lifecycle :
        LifecyclePlanStore C → C → String → ℕ → LifecyclePlan F → Bool × LifecyclePlanStore C
    consume_lifecycle s ctx token now plan = elim (d.digest plan) [
      | err e ↦ (false, s)
      | ok digest ↦ consume_locked s now (s.principal ctx) plan.action plan.order_id digest token
    ]
