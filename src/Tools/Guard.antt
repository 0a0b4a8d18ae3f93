-- ===== src/Tools/Guard.antt =====
-- internal/tools/auth_guard.go: `GuardTool` and `authorizeTool`. The table `ToolAuthorizations` and the
-- scopes of the token in the context are arguments; the challenge's text and the outcome that is
-- recorded for logging are left out.
pub mod Permission
use inventree_mcp.Prelude.{
  String, Option, none, some, List, [], ◌∷◌, Bool, true, false, ◌==◌, ◌||◌, if◌then◌else◌,
}
use inventree_mcp.GoMap.{Assoc, get}

-- Which challenge is returned, with the scopes that it names.
pub data Denial : Type 0 where
  metadata_missing : Denial
  token_required : List String → Denial
  scope_missing : List String → String → Denial

abbrev pub has_scope : List String → String → Bool
has_scope [] required = false
has_scope (scope ∷ scopes) required =
    let rest = has_scope scopes required in scope == required || rest

-- the loop of `authorizeTool`: the first required scope that the token does not have
unfoldable pub missing_scope : List String → List String → Option String
missing_scope [] scopes = none
missing_scope (required ∷ more) scopes =
    let rest = missing_scope more scopes in
    if has_scope scopes required then rest else some required

abbrev pub denial_of : List String → Option String → Option Denial
denial_of scopes none = none
denial_of scopes (some required) = some (scope_missing scopes required)

-- the body of `authorizeTool`, by the table's entry
unfoldable pub authorize_scopes : Option (List String) → Option (List String) → Option Denial
authorize_scopes none token = some metadata_missing
authorize_scopes (some []) token = none
authorize_scopes (some (required ∷ more)) none = some (token_required (required ∷ more))
authorize_scopes (some (required ∷ more)) (some scopes) =
    denial_of (required ∷ more) (missing_scope (required ∷ more) scopes)

-- `authorizeTool`; `none` is not denied, and a token is the list of its scopes
unfoldable pub authorize_tool : Assoc (List String) → String → Option (List String) → Option Denial
authorize_tool table name token = authorize_scopes (get name table) token

pub data Answer (A : Type 0) : Type 0 where
  denied : Denial → Answer A
  answered : A → Answer A

-- `GuardTool`: the handler changes a world `W`; `oauth` is the authorization mode.
unfoldable pub guard_tool :
    {A W : Type 0}
    → Bool
    → Assoc (List String)
    → String
    → Option (List String)
    → (W → A × W)
    → W
    → Answer A × W
guard_tool oauth table name token handler w =
    let (a, w') = handler w in
    if oauth
    then elim (authorize_tool table name token) [ some d ↦ (denied d, w) | none ↦ (answered a, w') ]
    else (answered a, w')
