-- ===== src/Oauth/CodeStore.antt =====
-- internal/oauth/code_store.go: authorization codes that can be redeemed once.
-- `now` is read twice in each method, so both readings are arguments.
pub mod Redeeming
use inventree_mcp.Prelude.{
  ℕ, String, Option, none, some, [], Bool, ◌==◌, ltb, not, ◌||◌, if◌then◌else◌, length, ℤ, pos,
  reaches, or_default, Result, ok, err,
}
use inventree_mcp.GoMap.{Assoc, get, delete, put, retain}

pub data Error : Type 0 where
  id_required expiry_not_in_future store_full id_exists code_already_used : Error

pub record CodeStore : Type 0 where
  pub max : ℤ
  pub entries : Assoc ℕ

unfoldable pub new_code_store : ℤ → CodeStore
new_code_store max_entries = record { max = or_default max_entries (pos 1024); entries = [] }

-- `expiresAt.After(now)`
abbrev pub after : ℕ → ℕ → Bool
after now expires_at = ltb now expires_at

pub purge_expired_locked : CodeStore → ℕ → CodeStore
purge_expired_locked s now = record s { entries = retain (after now) s.entries }

abbrev pub exists : {V : Type 0} → Option V → Bool
exists none = Bool.false
exists (some _) = Bool.true

unfoldable pub store : CodeStore → ℕ → ℕ → String → ℕ → Result Error (Unit {0}) × CodeStore
unfolding purge_expired_locked
store s now now' id expires_at =
    let s = purge_expired_locked s now in
    if id == ""
    then (err id_required, s)
    else if not (after now' expires_at)
    then (err expiry_not_in_future, s)
    else if reaches (length s.entries) s.max
    then (err store_full, s)
    else if exists (get id s.entries)
    then (err id_exists, s)
    else (ok tt, record s { entries = put id expires_at s.entries })

abbrev pub redeemable : ℕ → Option ℕ → Bool
redeemable now none = Bool.false
redeemable now (some expires_at) = after now expires_at

unfoldable pub consume : CodeStore → ℕ → ℕ → String → Result Error (Unit {0}) × CodeStore
unfolding purge_expired_locked
consume s now now' id =
    let s = purge_expired_locked s now in
    if redeemable now' (get id s.entries)
    then (ok tt, record s { entries = delete id s.entries })
    else (err code_already_used, s)
