-- ===== src/Text.antt =====
-- Go's `strings` functions on texts, as far as the code calls them. A text is a sequence of code
-- points, so a length counts bytes where the text is ASCII.
pub mod Trim
use Prim.Native.Char.{Char, code}
use inventree_mcp.Prelude.{
  ℕ, suc, String, Bool, true, false, ◌||◌, ◌&&◌, eqb, leb, if◌then◌else◌, Option, none, some,
}

-- `unicode.IsSpace`
abbrev pub is_space : Char → Bool
is_space c =
    leb 9 (code c) && leb (code c) 13
    || eqb (code c) 32
    || eqb (code c) 133
    || eqb (code c) 160
    || eqb (code c) 5760
    || leb 8192 (code c) && leb (code c) 8202
    || eqb (code c) 8232
    || eqb (code c) 8233
    || eqb (code c) 8239
    || eqb (code c) 8287
    || eqb (code c) 12288

unfoldable pub trim_left : (Char → Bool) → String → String
trim_left test String.[] = ""
trim_left test (String.◌∷◌ c s) =
    let rest = trim_left test s in if test c then rest else String.◌∷◌ c s

abbrev pub cons_unless : Bool → Char → String → String
cons_unless true c String.[] = ""
cons_unless _ c s = String.◌∷◌ c s

unfoldable pub trim_right : (Char → Bool) → String → String
trim_right test String.[] = ""
trim_right test (String.◌∷◌ c s) = cons_unless (test c) c (trim_right test s)

-- `strings.TrimSpace`
abbrev pub trim_space : String → String
trim_space s = trim_right is_space (trim_left is_space s)

-- `len(s)`
abbrev pub text_length : String → ℕ
text_length String.[] = 0
text_length (String.◌∷◌ c s) = suc (text_length s)

abbrev pub cons_first : Char → String × Option String → String × Option String
cons_first c (s, rest) = (String.◌∷◌ c s, rest)

-- `strings.SplitN(s, sep, 2)` at a character
unfoldable pub split_first : (Char → Bool) → String → String × Option String
split_first test String.[] = ("", none)
split_first test (String.◌∷◌ c s) =
    let rest = split_first test s in if test c then ("", some s) else cons_first c rest

abbrev pub cons_last : Bool → Char → String → Option (String × String) → Option (String × String)
cons_last _ c s (some (before, after)) = some (String.◌∷◌ c before, after)
cons_last true c s none = some ("", s)
cons_last false c s none = none

-- `strings.LastIndexByte` of an ASCII character, as what stands before it and after it
unfoldable pub split_last : (Char → Bool) → String → Option (String × String)
split_last test String.[] = none
split_last test (String.◌∷◌ c s) = cons_last (test c) c s (split_last test s)
