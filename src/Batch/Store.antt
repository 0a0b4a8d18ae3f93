-- ===== src/Batch/Store.antt =====
-- internal/batch/store.go: single-use confirmation tokens for batch plans.
-- A method takes what it reads from outside as arguments: the clock's `now`, the context, and the
-- answer `draw` of the id generator. It runs under the store's mutex, so it is one step.
pub mod Invariant
pub mod Refusal
pub mod Refinement
pub mod Effects
pub mod History
use inventree_mcp.Prelude.{
  ℕ, suc, String, Option, none, some, [], ◌∷◌, Bool, false, not, ◌&&◌, ◌||◌, ◌==◌, ltb,
  if◌then◌else◌, length, ℤ, pos, reaches, add_duration, or_default, Result, ok, err, ◌>>=◌,
}
use inventree_mcp.GoMap.{Assoc, get, delete, put, retain}

pub data Error : Type 0 where
  id_generator_required principal_required supersede_key_required capacity : Error
  -- an error of the plan's `Digest` or of the id generator
  upstream : String → Error

-- A plan type with a digest of the plan's complete state.
pub record Digestible (P : Type 0) : Type 0 where
  pub digest : P → Result Error String

-- `Options` as the caller writes it. A nil function is `none`.
pub record RawOptions (P C G : Type 0) : Type 0 where
  pub id_generator : Option G
  pub principal : Option (C → String)
  pub supersede_key : Option (P → String)
  pub lifetime : ℤ
  pub max_entries : ℤ
  pub max_entries_per_principal : ℤ

pub record Options (P C G : Type 0) : Type 0 where
  pub id_generator : G
  pub principal : C → String
  pub supersede_key : P → String
  pub lifetime : ℤ
  pub max_entries : ℤ
  pub max_entries_per_principal : ℤ

pub record Entry : Type 0 where
  pub digest : String
  pub principal : String
  pub supersede_key : String
  pub expires_at : ℕ

pub record Store (P C G : Type 0) : Type 0 where
  pub entries : Assoc Entry
  pub opts : Options P C G

-- Five minutes, in nanoseconds.
abbrev pub default_lifetime : ℤ
default_lifetime = pos 300000000000

abbrev pub default_max_entries : ℤ
default_max_entries = pos 4096

abbrev pub default_max_entries_per_principal : ℤ
default_max_entries_per_principal = pos 64

abbrev required : {A : Type 0} → Option A → Error → Result Error A
required (some a) e = ok a
required none e = err e

-- `now.Before(e.expiresAt)`
abbrev pub unexpired : ℕ → Entry → Bool
unexpired now e = ltb now e.expires_at

-- the loop of `Issue`: what stays, and how many entries of the principal stay
unfoldable pub supersede : String → String → Assoc Entry → Assoc Entry × ℕ
supersede principal key [] = ([], 0)
supersede principal key ((token, e) ∷ m) =
    let (kept, n) = supersede principal key m in
    if not (e.principal == principal)
    then ((token, e) ∷ kept, n)
    else if e.supersede_key == key
    then (kept, n)
    else ((token, e) ∷ kept, suc n)

-- the comparison of `Consume`
abbrev pub authorizes : ℕ → (digest principal key : String) → Option Entry → Bool
authorizes now digest principal key none = false
authorizes now digest principal key (some e) =
    e.digest == digest && e.principal == principal && e.supersede_key == key && unexpired now e

module _ {P C G : Type 0} where
  unfoldable pub new_store : RawOptions P C G → Result Error (Store P C G)
  new_store raw = do
    generator ← required raw.id_generator id_generator_required
    principal ← required raw.principal principal_required
    key ← required raw.supersede_key supersede_key_required
    ok (record {
      entries = [];
      opts = record {
        id_generator = generator;
        principal = principal;
        supersede_key = key;
        lifetime = or_default raw.lifetime default_lifetime;
        max_entries = or_default raw.max_entries default_max_entries;
        max_entries_per_principal =
            or_default raw.max_entries_per_principal default_max_entries_per_principal;
      };
    })

  unfoldable pub delete_expired_locked : ℕ → Store P C G → Store P C G
  delete_expired_locked now s = record s { entries = retain (unexpired now) s.entries }

  abbrev pub new_entry : Options P C G → ℕ → (principal key digest : String) → Entry
  new_entry opts now principal key digest = record {
    digest = digest;
    principal = principal;
    supersede_key = key;
    expires_at = add_duration now opts.lifetime;
  }

  -- `Issue` from the lock on
  unfoldable pub issue_locked :
      Store P C G → ℕ → (principal key digest token : String) → Result Error String × Store P C G
  unfolding delete_expired_locked
  issue_locked s now principal key digest token =
      let swept = delete_expired_locked now s in
      let (kept, principal_entries) = supersede principal key swept.entries in
      if reaches (length kept) s.opts.max_entries
        || reaches principal_entries s.opts.max_entries_per_principal
      then (err capacity, record s { entries = kept })
      else (
        ok token,
        record s { entries = put token (new_entry s.opts now principal key digest) kept },
      )

  module _ ⦃d : Digestible P⦄ where
    unfoldable pub issue :
        Store P C G → C → ℕ → Result Error String → P → Result Error String × Store P C G
    unfolding issue_locked
    issue s ctx now draw plan = elim (d.digest plan) [
      | err e ↦ (err e, s)
      | ok digest ↦ elim draw [
        | err e ↦ (err e, s)
        | ok token ↦
            issue_locked s now (s.opts.principal ctx) (s.opts.supersede_key plan) digest token
      ]
    ]

  -- `Consume` from the lock on
  unfoldable pub consume_locked :
      Store P C G → ℕ → (principal key digest token : String) → Bool × Store P C G
  unfolding delete_expired_locked
  consume_locked s now principal key digest token =
      let swept = delete_expired_locked now s in
      let valid = authorizes now digest principal key (get token swept.entries) in
      (valid, if valid then record swept { entries = delete token swept.entries } else swept)

  module _ ⦃d : Digestible P⦄ where
    unfoldable pub consume : Store P C G → C → String → ℕ → P → Bool × Store P C G
    unfolding consume_locked
    consume s ctx token now plan = elim (d.digest plan) [
      | err e ↦ (false, s)
      | ok digest ↦
          consume_locked s now (s.opts.principal ctx) (s.opts.supersede_key plan) digest token
    ]
