-- ===== src/Oauth/Text.antt =====
-- The text functions that internal/oauth/envelope.go calls: `strings.Split` and `strings.Join` at
-- dots, `strings.ContainsAny` for the characters a key id must not have, and `[]byte(s)`.
-- A text is a sequence of code points; the code's separators are all ASCII.
pub mod Laws
use Prim.Native.Char.{Char, code}
use Prim.Native.String.{◌++◌ as ◌⧺◌}
use inventree_mcp.Prelude.{ℕ, String, List, [], ◌∷◌, Bool, true, false, ◌||◌, eqb, if◌then◌else◌}

abbrev pub is_dot : Char → Bool
is_dot c = eqb (code c) 46

-- one of `. \t\r\n`
abbrev pub is_separator : Char → Bool
is_separator c =
    eqb (code c) 46 || eqb (code c) 32 || eqb (code c) 9 || eqb (code c) 13 || eqb (code c) 10

-- `strings.ContainsFunc(s, test)`
abbrev pub contains : (Char → Bool) → String → Bool
contains test String.[] = false
contains test (String.◌∷◌ c s) = let rest = contains test s in test c || rest

-- the character joins the first field
abbrev pub cons_field : Char → List String → List String
cons_field c [] = (String.◌∷◌ c "") ∷ []
cons_field c (f ∷ fs) = (String.◌∷◌ c f) ∷ fs

-- `strings.Split(s, ".")`
unfoldable pub split_dots : String → List String
split_dots String.[] = "" ∷ []
split_dots (String.◌∷◌ c s) =
    let rest = split_dots s in if is_dot c then "" ∷ rest else cons_field c rest

-- `strings.Join(fields, ".")`
abbrev pub join_dots : List String → String
join_dots [] = ""
join_dots (f ∷ []) = f
join_dots (f ∷ g ∷ fs) = f ⧺ ("." ⧺ join_dots (g ∷ fs))

-- `[]byte(s)`, by code points
abbrev pub codes : String → List ℕ
codes String.[] = []
codes (String.◌∷◌ c s) = code c ∷ codes s
