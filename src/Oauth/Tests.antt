-- ===== src/Oauth/Tests.antt =====
-- Tests of internal/oauth, and the theorems about it at concrete inputs.
use inventree_mcp.Prelude.{
  ℕ, ◌≤◌, ◌<◌, String, none, some, List, [], ◌∷◌, ◌≡◌, refl, arith, pos, ok, count, length, not,
}
use inventree_mcp.GoMap.{get, put, delete, retain, filter_value}
use inventree_mcp.Oauth.CodeStore
use inventree_mcp.Oauth.CodeStore.{CodeStore, new_code_store, code_already_used}
use inventree_mcp.Oauth.CodeStore.Redeeming
use inventree_mcp.Oauth.CodeStore.Redeeming.{
  Op, storing, redeeming, is_stored, is_redeemed, store-IsValid, store-consume, redeemed-le-stored,
}
use inventree_mcp.Oauth.Replay.{ReplayStore, new_replay_store, use_id}
use inventree_mcp.Oauth.Replay.Safety
use inventree_mcp.Oauth.Replay.Safety.{Attempt, attempt, is_id, no_replay}
use inventree_mcp.Oauth.RateLimiter.{Limiter, new_limiter, allow, over}
use inventree_mcp.Oauth.RateLimiter.Quota
use inventree_mcp.Oauth.RateLimiter.Quota.{passed, new_limiter-IsValid, window_quota, first_allowed}

program : Unit {0}
unfolding get put delete retain new_code_store CodeStore.store CodeStore.consume new_replay_store
    use_id new_limiter allow Redeeming.run Safety.run Quota.run
program = tt

abbrev codes : CodeStore
codes = record { entries = []; max = pos 2 }

codes-IsValid : Redeeming.IsValid codes
codes-IsValid = record { distinct = tt; positive = refl; bounded = omega arith }

stored_lem : (CodeStore.store codes 10 11 "a" 20).0 ≡ ok tt
unfolding program
stored_lem = refl

abbrev ops : List Op
ops = storing 1 1 "a" 9 ∷ redeeming 2 2 "a" ∷ redeeming 3 3 "a" ∷ []

abbrev replays : ReplayStore
replays = record { entries = []; max_entries = pos 2 }

abbrev once : Attempt
once = record { now = 5; now' = 5; id = "j"; expires_at = 50 }

once_lem : (attempt (some replays) once).0 ≡ ok tt
unfolding program
once_lem = refl

abbrev again : List Attempt
again =
    record { now = 6; now' = 6; id = "j"; expires_at = 60 }
    ∷ record { now = 7; now' = 7; id = "k"; expires_at = 60 }
    ∷ record { now = 49; now' = 49; id = "j"; expires_at = 60 }
    ∷ []

no_replay_example : count (is_id "j") (Safety.run (attempt (some replays) once).1 again).1 ≡ 0
no_replay_example = no_replay (some replays) once again tt once_lem (omega arith)

abbrev limiter : Limiter
limiter = record { entries = []; limit = pos 2; window = pos 10 }

limiter-IsValid : Quota.IsValid limiter
limiter-IsValid = record { distinct = tt; positive_limit = refl; positive_window = refl }

abbrev asks : List (ℕ × String)
asks = (3, "k") ∷ (4, "k") ∷ (5, "l") ∷ (6, "k") ∷ []

limiter_empty : get "k" limiter.entries ≡ none
unfolding program
limiter_empty = refl

window_quota_example : count (passed "k") (Quota.run (some limiter) asks).1 ≤ 2
window_quota_example =
    window_quota limiter "k" 3 asks limiter-IsValid limiter_empty (omega arith) (omega arith)

limiter_unexpired :
    filter_value (λ e. not (over limiter.window 3 e)) (get "k" limiter.entries) ≡ none
unfolding program
limiter_unexpired = refl

limiter_room : length (retain (λ e. not (over limiter.window 3 e)) limiter.entries) < 1024
unfolding program
limiter_room = omega arith
