-- ===== src/Oauth/Replay.antt =====
-- `AssertionReplayStore` of internal/oauth/private_key_jwt.go: each client assertion is used once.
pub mod Safety
use inventree_mcp.Prelude.{
  ℕ, String, Option, none, some, [], Bool, ◌==◌, not, ◌||◌, if◌then◌else◌, length, ℤ, reaches,
  is_positive, Result, ok, err,
}
use inventree_mcp.GoMap.{Assoc, get, put, retain}
use inventree_mcp.Oauth.CodeStore.{after, exists}

pub data Error : Type 0 where
  invalid_client_assertion : Error

pub record ReplayStore : Type 0 where
  pub entries : Assoc ℕ
  pub max_entries : ℤ

unfoldable pub new_replay_store : ℤ → ReplayStore
new_replay_store max_entries = record { entries = []; max_entries = max_entries }

-- `Use`; a nil store is `none`. The clock is read before the lock and again under it.
unfoldable pub use_id :
    Option ReplayStore → ℕ → ℕ → String → ℕ → Result Error (Unit {0}) × Option ReplayStore
use_id none now now' id expires_at = (err invalid_client_assertion, none)
use_id (some s) now now' id expires_at =
    if id == "" || not (after now expires_at)
    then (err invalid_client_assertion, some s)
    else let swept = record s { entries = retain (after now') s.entries } in
      if exists (get id swept.entries)
        || not (is_positive s.max_entries)
        || reaches (length swept.entries) s.max_entries
      then (err invalid_client_assertion, some swept)
      else (ok tt, some (record swept { entries = put id expires_at swept.entries }))
