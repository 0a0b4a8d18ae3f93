-- ===== src/Oauth/RateLimiter/Quota.antt =====
-- The quota of internal/oauth/authorization_server.go's limiter in one window.
use inventree_mcp.Prelude.{
  ℕ, suc, ◌+◌, ◌≤◌, ◌<◌, String, Option, none, some, List, [], ◌∷◌, Bool, true, ◌==◌, eq_iff, ◌≡◌,
  subst, not, if◌then◌else◌, arith, length, ℤ, pos, ◌||◌, is_positive, to_nat, count, All,
  add_duration, ◌&&◌,
}
use inventree_mcp.GoMap.{Assoc, get, retain, IsMap, filter_value}
use inventree_mcp.GoMap.Laws.{get-put, get-retain, put-IsMap, retain-IsMap}
use inventree_mcp.Oauth.RateLimiter.{
  Limiter, Entry, new_limiter, over, zero_entry, entry_or_zero, is_zero, allow,
}

-- The calls that were allowed, as `true`, each with its key.
unfoldable pub run : Option Limiter → List (ℕ × String) → Option Limiter × List (String × Bool)
run l [] = (l, [])
run l ((now, key) ∷ calls) =
    let (r, l') = allow l now key in let (m, rest) = run l' calls in (m, (key, r) ∷ rest)

abbrev pub passed : String → String × Bool → Bool
passed key (j, r) = j == key && r

pub record IsValid (l : Limiter) : Type 0 where
  pub distinct : IsMap l.entries
  pub positive_limit : is_positive l.limit ≡ true
  pub positive_window : is_positive l.window ≡ true

-- From `start` on, the key has been allowed `n` times, and its entry, if any, counts them.
abbrev Counts : String → ℕ → ℕ → Option Entry → Type 0
Counts key start n none = n ≡ 0
Counts key start n (some e) = (start ≤ e.started) × (n ≤ e.count)

module _ (key : String) (start window limit : ℕ) where
  abbrev Tracks : ℕ → Option Limiter → Type 0
  Tracks n none = ⊥
  Tracks n (some l) =
      IsMap l.entries
      × (l.window ≡ pos window)
      × (l.limit ≡ pos limit)
      × (n ≤ limit)
      × Counts key start n (get key l.entries)

  swept_key :
      (l : Limiter) (now n : ℕ)
      → Tracks n (some l)
      → start ≤ now
      → now < start + window
      → get key (retain (λ e. not (over l.window now e)) l.entries) ≡ get key l.entries
  swept_key l now n h after early =
      ground (arith, get-retain (λ e. not (over l.window now e)) key l.entries h.0)

  stepped :
      (l : Limiter) (now n : ℕ) (j : String)
      → 0 < start
      → Tracks n (some l)
      → start ≤ now
      → now < start + window
      → Tracks
          (n + (if passed key (j, (allow (some l) now j).0) then 1 else 0))
          (allow (some l) now j).1
  unfolding allow
  stepped l now n j pos_start h after early =
      let live : Assoc Entry = retain (λ e. not (over l.window now e)) l.entries in
      let found : Entry = entry_or_zero (get j live) in
      let entry : Entry =
        if is_zero found || over l.window now found
        then record zero_entry { started = now }
        else found in
      let counted : Entry = record entry { count = suc entry.count } in
      ground (
        arith,
        swept_key l now n h after early,
        retain-IsMap (λ e. not (over l.window now e)) l.entries h.0,
        put-IsMap j counted live,
        get-put j key counted live,
        eq_iff j key,
      )

  run-Tracks :
      (l : Option Limiter) (n : ℕ) (calls : List (ℕ × String))
      → 0 < start
      → Tracks n l
      → All (λ c. (start ≤ c.0) × (c.0 < start + window)) calls
      → n + count (passed key) (run l calls).1 ≤ limit
  unfolding run
  run-Tracks none n calls p h inside = absurd h
  run-Tracks (some l) n [] p h inside = omega (arith, h)
  run-Tracks (some l) n ((now, j) ∷ calls) p h inside =
      let r : String × Bool = (j, (allow (some l) now j).0) in
      ground (
        arith,
        run-Tracks (allow (some l) now j).1 (n + (if passed key r then 1 else 0)) calls p
            (stepped l now n j p h inside.0.0 inside.0.1) inside.1,
      )

pos_of : (z : ℤ) → is_positive z ≡ true → z ≡ pos (to_nat z)
pos_of z h = ground arith

-- A valid limiter that has no entry for a key allows the key at most `limit` times within one
-- window, whatever other keys are asked for in between.
pub window_quota :
    (l : Limiter) (key : String) (start : ℕ) (calls : List (ℕ × String))
    → IsValid l
    → get key l.entries ≡ none
    → 0 < start
    → All (λ c. (start ≤ c.0) × (c.0 < add_duration start l.window)) calls
    → count (passed key) (run (some l) calls).1 ≤ to_nat l.limit
window_quota l key start calls v none_yet p inside =
    let w = pos_of l.window v.positive_window in
    let q = pos_of l.limit v.positive_limit in
    omega (
      arith,
      run-Tracks key start (to_nat l.window) (to_nat l.limit) (some l) 0 calls p
          (v.distinct, w, q, omega arith, rw none_yet)
          (subst (λ z. All (λ c. (start ≤ c.0) × (c.0 < add_duration start z)) calls) w inside),
    )

-- A new limiter is valid, whatever it is given.
pub new_limiter-IsValid : (limit window : ℤ) → IsValid (new_limiter limit window)
unfolding new_limiter
new_limiter-IsValid limit window = record {
  distinct = tt;
  positive_limit = ground arith;
  positive_window = ground arith;
}

-- A key with no unexpired entry is allowed while the limiter holds fewer than 1024 unexpired keys.
pub first_allowed :
    (l : Limiter) (key : String) (now : ℕ)
    → IsValid l
    → filter_value (λ e. not (over l.window now e)) (get key l.entries) ≡ none
    → length (retain (λ e. not (over l.window now e)) l.entries) < 1024
    → (allow (some l) now key).0 ≡ true
unfolding allow
first_allowed l key now v gone room =
    ground (
      arith,
      get-retain (λ e. not (over l.window now e)) key l.entries v.distinct,
      v.positive_limit,
    )
