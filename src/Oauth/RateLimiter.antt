-- ===== src/Oauth/RateLimiter.antt =====
-- `RequestRateLimiter` of internal/oauth/authorization_server.go: a fixed window for each key.
pub mod Quota
use inventree_mcp.Prelude.{
  ℕ, zero, suc, String, Option, none, some, [], Bool, true, false, not, eqb, leb, ◌&&◌, ◌||◌,
  if◌then◌else◌, length, ℤ, pos, within, or_default, add_duration,
}
use inventree_mcp.GoMap.{Assoc, get, put, retain}

pub record Entry : Type 0 where
  pub started : ℕ
  pub count : ℕ

pub record Limiter : Type 0 where
  pub entries : Assoc Entry
  pub limit : ℤ
  pub window : ℤ

-- One minute, in nanoseconds.
abbrev pub default_window : ℤ
default_window = pos 60000000000

unfoldable pub new_limiter : ℤ → ℤ → Limiter
new_limiter limit window = record {
  entries = [];
  limit = or_default limit (pos 10);
  window = or_default window default_window;
}

-- `now.Sub(e.started) >= l.window`, for the positive window of a limiter
abbrev pub over : ℤ → ℕ → Entry → Bool
over window now e = leb (add_duration e.started window) now

abbrev pub zero_entry : Entry
zero_entry = record { started = 0; count = 0 }

-- `l.entries[key]`, the zero value where it is missing
abbrev pub entry_or_zero : Option Entry → Entry
entry_or_zero none = zero_entry
entry_or_zero (some e) = e

abbrev pub is_zero : Entry → Bool
is_zero e = eqb e.started 0

-- `Allow`; a nil limiter is `none`
unfoldable pub allow : Option Limiter → ℕ → String → Bool × Option Limiter
allow none now key = (true, none)
allow (some l) now key =
    let swept = record l { entries = retain (λ e. not (over l.window now e)) l.entries } in
    let found = entry_or_zero (get key swept.entries) in
    if is_zero found && leb 1024 (length swept.entries)
    then (false, some swept)
    else let entry =
        if is_zero found || over l.window now found
        then record zero_entry { started = now }
        else found in
      let counted = record entry { count = suc entry.count } in
      (
        within counted.count l.limit,
        some (record swept { entries = put key counted swept.entries }),
      )
