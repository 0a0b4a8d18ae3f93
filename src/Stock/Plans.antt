-- ===== src/Stock/Plans.antt =====
-- `stockPlanStore` of internal/tools/stock_adjustment_tools.go: single-use confirmation tokens for the
-- plans of the single-item stock tools. The clock, the token source and the context are arguments.
pub mod Twin
pub mod History
use inventree_mcp.Prelude.{
  ℕ, suc, ◌+◌, String, Option, none, some, [], ◌∷◌, Bool, false, ◌&&◌, ◌||◌, ◌==◌, ltb,
  if◌then◌else◌, length, ℤ, eq_int, reaches, pos, Result, ok, err,
}
use inventree_mcp.GoMap.{Assoc, get, delete, put, retain}

-- `errStockPlanCapacity`, or an error that is passed on
pub data Error : Type 0 where
  capacity : Error
  other : String → Error

-- What the store reads of a plan: `stockPlanHash`, `plan.Action` and `plan.Before.StockItemID`.
pub record Planned (P : Type 0) : Type 0 where
  pub hash : P → Result String String
  pub action : P → String
  pub stock_item_id : P → ℤ

pub record Confirmation : Type 0 where
  pub digest : String
  pub principal : String
  pub expires_at : ℕ
  pub action : String
  pub stock_item_id : ℤ

pub record PlanStore (C : Type 0) : Type 0 where
  pub entries : Assoc Confirmation
  pub principal : C → String
  pub max_entries : ℤ
  pub max_entries_per_principal : ℤ

-- Five minutes, in nanoseconds.
abbrev pub stock_plan_lifetime : ℕ
stock_plan_lifetime = 300000000000

abbrev pub new_plan_store : {C : Type 0} → (C → String) → PlanStore C
new_plan_store principal = record {
  entries = [];
  principal = principal;
  max_entries = pos 4096;
  max_entries_per_principal = pos 64;
}

-- `now.Before(confirmation.expiresAt)`
abbrev pub current : ℕ → Confirmation → Bool
current now c = ltb now c.expires_at

-- the loop of `issue`: what stays, and how many entries of the principal stay
unfoldable pub replace :
    (principal action : String) → ℤ → Assoc Confirmation → Assoc Confirmation × ℕ
replace principal action id [] = ([], 0)
replace principal action id ((token, c) ∷ m) =
    let (kept, n) = replace principal action id m in
    if c.principal == principal && c.action == action && eq_int c.stock_item_id id
    then (kept, n)
    else ((token, c) ∷ kept, if c.principal == principal then suc n else n)

abbrev pub confirms : ℕ → (digest principal action : String) → ℤ → Option Confirmation → Bool
confirms now digest principal action id none = false
confirms now digest principal action id (some c) =
    c.digest == digest
    && c.principal == principal
    && c.action == action
    && eq_int c.stock_item_id id
    && current now c

-- `randomStockPlanToken` or a test's token source answered; its error is passed on
abbrev pub passed_on : {A : Type 0} → Result String A → Result Error A
passed_on (ok a) = ok a
passed_on (err e) = err (other e)

abbrev pub confirmation : ℕ → (digest principal action : String) → ℤ → Confirmation
confirmation now digest principal action id = record {
  digest = digest;
  principal = principal;
  expires_at = now + stock_plan_lifetime;
  action = action;
  stock_item_id = id;
}

module _ {C : Type 0} where
  unfoldable pub delete_expired : ℕ → PlanStore C → PlanStore C
  delete_expired now s = record s { entries = retain (current now) s.entries }

  -- `issue` from the lock on
  unfoldable pub issue_plan_locked :
      PlanStore C
      → ℕ
      → (principal action : String) → ℤ
      → (digest token : String) → Result Error String × PlanStore C
  unfolding delete_expired
  issue_plan_locked s now principal action id digest token =
      let swept = delete_expired now s in
      let (kept, principal_entries) = replace principal action id swept.entries in
      if reaches (length kept) s.max_entries
        || reaches principal_entries s.max_entries_per_principal
      then (err capacity, record s { entries = kept })
      else (
        ok token,
        record s { entries = put token (confirmation now digest principal action id) kept },
      )

  -- `consume` from the lock on
  unfoldable pub consume_plan_locked :
      PlanStore C
      → ℕ
      → (principal action : String) → ℤ
      → (digest token : String) → Bool × PlanStore C
  unfolding delete_expired
  consume_plan_locked s now principal action id digest token =
      let swept = delete_expired now s in
      let valid = confirms now digest principal action id (get token swept.entries) in
      (valid, if valid then record swept { entries = delete token swept.entries } else swept)

  module _ {P : Type 0} ⦃p : Planned P⦄ where
    unfoldable pub issue_plan :
        PlanStore C → C → ℕ → Result String String → P → Result Error String × PlanStore C
    issue_plan s ctx now draw plan = elim (p.hash plan) [
      | err e ↦ (err (other e), s)
      | ok digest ↦ elim draw [
        | err e ↦ (err (other e), s)
        | ok token ↦
            issue_plan_locked s now (s.principal ctx) (p.action plan) (p.stock_item_id plan) digest
              token
      ]
    ]

    unfoldable pub consume_plan : PlanStore C → C → String → ℕ → P → Bool × PlanStore C
    consume_plan s ctx token now plan = elim (p.hash plan) [
      | err e ↦ (false, s)
      | ok digest ↦
          consume_plan_locked s now (s.principal ctx) (p.action plan) (p.stock_item_id plan) digest
            token
    ]
