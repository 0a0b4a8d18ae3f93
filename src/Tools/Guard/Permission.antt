-- ===== src/Tools/Guard/Permission.antt =====
-- Who may run a tool behind the guard of internal/tools/auth_guard.go.
use inventree_mcp.Prelude.{
  String, Option, none, some, List, [], ◌∷◌, true, ◌==◌, eq_iff, ◌≡◌, ◌↔◌, ◌⊎◌, inl, inr, refl,
  arith, All, Occurs, Option-cases, Bool-cases,
}
use inventree_mcp.GoMap.{Assoc, get}
use inventree_mcp.Tools.Guard.{
  Denial, denied, answered, has_scope, missing_scope, denial_of, authorize_scopes, authorize_tool,
  guard_tool,
}

-- The tool is in the table, and the token has every scope that it requires, if it requires any.
abbrev Permits : Option (List String) → Option (List String) → Type 0
Permits none token = ⊥
Permits (some []) token = Unit
Permits (some (r ∷ rs)) none = ⊥
Permits (some (r ∷ rs)) (some scopes) = All (λ required. Occurs required scopes) (r ∷ rs)

abbrev pub IsPermitted : Assoc (List String) → String → Option (List String) → Type 0
IsPermitted table name token = Permits (get name table) token

has-Occurs : (scopes : List String) (r : String) → has_scope scopes r ≡ true → Occurs r scopes
has-Occurs [] r h = absurd (cc)
has-Occurs (x ∷ xs) r h = elim (Bool-cases (x == r)) [
  | inl e ↦ inl ((eq_iff x r).0 e)
  | inr e ↦ inr (has-Occurs xs r (ground arith))
]

Occurs-has : (scopes : List String) (r : String) → Occurs r scopes → has_scope scopes r ≡ true
Occurs-has [] r h = absurd h
Occurs-has (x ∷ xs) r (inl e) = ground (arith, (eq_iff x r).1 e)
Occurs-has (x ∷ xs) r (inr o) = ground (arith, Occurs-has xs r o)

none-All :
    (rs scopes : List String) → missing_scope rs scopes ≡ none → All (λ r. Occurs r scopes) rs
unfolding missing_scope
none-All [] scopes h = tt
none-All (r ∷ rs) scopes h = (has-Occurs scopes r (ground arith), none-All rs scopes (ground arith))

All-none :
    (rs scopes : List String) → All (λ r. Occurs r scopes) rs → missing_scope rs scopes ≡ none
unfolding missing_scope
All-none [] scopes h = refl
All-none (r ∷ rs) scopes h = ground (arith, Occurs-has scopes r h.0, All-none rs scopes h.1)

denied_none : (rs : List String) (o : Option String) → denial_of rs o ≡ none → o ≡ none
denied_none rs none h = refl
denied_none rs (some r) h = absurd (cc)

scopes-Permits :
    (entry token : Option (List String))
    → (authorize_scopes entry token ≡ none) ↔ Permits entry token
unfolding authorize_scopes
scopes-Permits none token = (λ h. absurd (cc), λ h. absurd h)
scopes-Permits (some []) token = (λ h. tt, λ h. refl)
scopes-Permits (some (r ∷ rs)) none = (λ h. absurd (cc), λ h. absurd h)
scopes-Permits (some (r ∷ rs)) (some scopes) = (
  λ h. none-All (r ∷ rs) scopes (denied_none (r ∷ rs) (missing_scope (r ∷ rs) scopes) h),
  λ h. rw (All-none (r ∷ rs) scopes h) refl,
)

-- `authorizeTool` lets a call through just when the tool is in the table and the token, which is not
-- asked for where the tool requires no scope, has every required scope.
pub authorize-IsPermitted :
    (table : Assoc (List String)) (name : String) (token : Option (List String))
    → (authorize_tool table name token ≡ none) ↔ IsPermitted table name token
unfolding authorize_tool
authorize-IsPermitted table name token = scopes-Permits (get name table) token

-- Where OAuth is on, a tool behind the guard either is permitted and does what its handler does, or is
-- not permitted, is answered with a challenge, and changes nothing.
pub guard_tool-IsPermitted :
    {A W : Type 0} (table : Assoc (List String)) (name : String) (token : Option (List String))
    (handler : W → A × W) (w : W)
    → (IsPermitted table name token
        × (guard_tool true table name token handler w ≡ (answered (handler w).0, (handler w).1)))
      ⊎ ((IsPermitted table name token → ⊥)
          × ((d : Denial) × (guard_tool true table name token handler w ≡ (denied d, w))))
unfolding guard_tool
guard_tool-IsPermitted table name token handler w =
    elim (Option-cases (authorize_tool table name token)) [
      | inl e ↦ inl ((authorize-IsPermitted table name token).0 e, rw e refl)
      | inr (d, e) ↦ inr (λ h. cc ((authorize-IsPermitted table name token).1 h, e), (d, rw e refl))
    ]
