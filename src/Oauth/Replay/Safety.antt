-- ===== src/Oauth/Replay/Safety.antt =====
-- An accepted client assertion of internal/oauth/private_key_jwt.go is refused until it expires.
use inventree_mcp.Prelude.{
  ℕ, ◌<◌, String, Option, none, some, List, [], ◌∷◌, Bool, false, ◌==◌, eq_iff, ◌≡◌, refl, arith,
  Result, ok, err, count, All,
}
use inventree_mcp.GoMap.{get, retain, IsMap}
use inventree_mcp.GoMap.Laws.{get-put, get-retain, put-IsMap, retain-IsMap}
use inventree_mcp.Oauth.CodeStore.{after}
use inventree_mcp.Oauth.Replay.{ReplayStore, Error, use_id}

-- One call of `Use`: the two readings of the clock, the id and its expiry.
pub record Attempt : Type 0 where
  pub now : ℕ
  pub now' : ℕ
  pub id : String
  pub expires_at : ℕ

abbrev pub attempt : Option ReplayStore → Attempt → Result Error (Unit {0}) × Option ReplayStore
attempt s a = use_id s a.now a.now' a.id a.expires_at

abbrev pub accepted_id : Result Error (Unit {0}) → String → Option String
accepted_id (ok _) id = some id
accepted_id (err _) id = none

-- the ids that were accepted, in order
unfoldable pub run : Option ReplayStore → List Attempt → Option ReplayStore × List (Option String)
run s [] = (s, [])
run s (a ∷ rest) =
    let (r, s') = attempt s a in let (t, ids) = run s' rest in (t, accepted_id r a.id ∷ ids)

abbrev pub is_id : String → Option String → Bool
is_id id none = false
is_id id (some j) = j == id

abbrev pub HasId : String → ℕ → Option ReplayStore → Type 0
HasId id x none = ⊥
HasId id x (some s) = IsMap s.entries × (get id s.entries ≡ some x)

abbrev pub IsDistinct : Option ReplayStore → Type 0
IsDistinct none = Unit
IsDistinct (some s) = IsMap s.entries

accepted-HasId :
    (s : Option ReplayStore) (a : Attempt)
    → IsDistinct s
    → (attempt s a).0 ≡ ok tt
    → HasId a.id a.expires_at (attempt s a).1
unfolding use_id
accepted-HasId none a d h = cc
accepted-HasId (some s) a d h = ground (
  arith,
  retain-IsMap (after a.now') s.entries d,
  put-IsMap a.id a.expires_at (retain (after a.now') s.entries),
  get-put a.id a.id a.expires_at (retain (after a.now') s.entries),
  eq_iff a.id a.id,
)

module _ (id : String) (x : ℕ) where
  kept_entry :
      (s : ReplayStore) (a : Attempt)
      → IsMap s.entries
      → get id s.entries ≡ some x
      → a.now' < x
      → get id (retain (after a.now') s.entries) ≡ some x
  kept_entry s a d there early = ground (arith, get-retain (after a.now') id s.entries d)

  kept-HasId :
      (s : Option ReplayStore) (a : Attempt)
      → HasId id x s
      → a.now' < x
      → HasId id x (attempt s a).1 × (is_id id (accepted_id (attempt s a).0 a.id) ≡ false)
  unfolding use_id
  kept-HasId none a h early = absurd h
  kept-HasId (some s) a h early = ground (
    arith,
    h,
    kept_entry s a h.0 h.1,
    retain-IsMap (after a.now') s.entries h.0,
    put-IsMap a.id a.expires_at (retain (after a.now') s.entries),
    get-put a.id id a.expires_at (retain (after a.now') s.entries),
    eq_iff a.id id,
  )

  run_refuses :
      (s : Option ReplayStore) (l : List Attempt)
      → HasId id x s
      → All (λ a. a.now' < x) l
      → count (is_id id) (run s l).1 ≡ 0
  unfolding run
  run_refuses s [] h early = refl
  run_refuses s (a ∷ l) h early =
      let k = kept-HasId s a h early.0 in rw (k.1) (run_refuses (attempt s a).1 l k.0 early.1)

-- Once an assertion id is accepted, no attempt in any later sequence of attempts, with this id or
-- another, is accepted for it as long as the clock stands before its expiry.
pub no_replay :
    (s : Option ReplayStore) (a : Attempt) (l : List Attempt)
    → IsDistinct s
    → (attempt s a).0 ≡ ok tt
    → All (λ b. b.now' < a.expires_at) l
    → count (is_id a.id) (run (attempt s a).1 l).1 ≡ 0
no_replay s a l d h early =
    run_refuses a.id a.expires_at (attempt s a).1 l (accepted-HasId s a d h) early
