-- ===== src/Oauth/Text/Laws.antt =====
-- A text that is joined of fields without dots splits into the same fields.
use Prim.Native.String.{◌++◌ as ◌⧺◌}
use text.Mathlib.TextLemmas.{nil-append, cons-append}
use inventree_mcp.Prelude.{String, [], ◌∷◌, false, ◌≡◌, refl, arith}
use inventree_mcp.Oauth.Text.{is_dot, contains, split_dots, join_dots}

abbrev pub HasNoDot : String → Type 0
HasNoDot s = contains is_dot s ≡ false

split_plain : (s : String) → HasNoDot s → split_dots s ≡ s ∷ []
unfolding split_dots
split_plain String.[] h = refl
split_plain (String.◌∷◌ c s) h = ground (arith, split_plain s)

dot_then : (t : String) → split_dots ("." ⧺ t) ≡ "" ∷ split_dots t
unfolding split_dots
dot_then t = rw (cons-append, nil-append) refl

split_field : (s t : String) → HasNoDot s → split_dots (s ⧺ ("." ⧺ t)) ≡ s ∷ split_dots t
unfolding split_dots
split_field String.[] t h = rw nil-append (dot_then t)
split_field (String.◌∷◌ c s) t h = rw cons-append (ground (arith, split_field s t))

-- Splitting undoes joining, for fields without dots.
pub split-join :
    (f g h : String)
    → HasNoDot f
    → HasNoDot g
    → HasNoDot h
    → split_dots (join_dots (f ∷ g ∷ h ∷ [])) ≡ f ∷ g ∷ h ∷ []
split-join f g h nf ng nh =
    rw (split_field f (g ⧺ ("." ⧺ h)) nf, split_field g h ng, split_plain h nh) refl
