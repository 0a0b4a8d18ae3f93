-- ===== src/Stock/Decimal.antt =====
-- `normalizedStockDecimal` of internal/tools/stock_adjustment_tools.go.
-- Go's `float64`, math and strconv are a parameter without laws.
use Prim.Native.Char.{Char, code}
use inventree_mcp.Prelude.{
  String, Option, none, some, Bool, ◌==◌, ◌&&◌, ◌||◌, not, eqb, ltb, if◌then◌else◌,
}
use inventree_mcp.Text.{trim_right, text_length, split_first}

pub record Floats (F : Type 0) : Type 0 where
  pub nought : F
  -- `1e-9`
  pub tolerance : F
  pub is_nan : F → Bool
  pub is_inf : F → Bool
  -- `<` and `==`
  pub less : F → F → Bool
  pub same : F → F → Bool
  pub add : F → F → F
  pub sub : F → F → F
  pub abs : F → F
  pub copysign : F → F → F
  -- `strconv.FormatFloat(x, 'f', 5, 64)` and `strconv.ParseFloat(s, 64)`
  pub format_float : F → String
  pub parse_float : String → Option F

abbrev pub is_zero_digit : Char → Bool
is_zero_digit c = eqb (code c) 48

abbrev pub is_point : Char → Bool
is_point c = eqb (code c) 46

abbrev pub or_zero : String → String
or_zero s = if s == "" then "0" else s

-- the two `TrimRight`, and `"0"` for nothing
abbrev pub trimmed : String → String
trimmed fixed = or_zero (trim_right is_point (trim_right is_zero_digit fixed))

-- the two bounds on the parts
abbrev pub too_long : String × Option String → Bool
too_long (whole, none) = ltb 10 (text_length whole)
too_long (whole, some fraction) = ltb 10 (text_length whole) || ltb 5 (text_length fraction)

module _ {F : Type 0} ⦃fl : Floats F⦄ where
  -- `a > b`
  abbrev pub exceeds : F → F → Bool
  exceeds a b = fl.less b a

  unfoldable pub normalized_stock_decimal : F → Bool → Option (String × F)
  normalized_stock_decimal quantity allow_zero =
      if fl.is_nan quantity
        || fl.is_inf quantity
        || fl.less quantity fl.nought
        || not allow_zero && fl.same quantity fl.nought
      then none
      else elim (fl.parse_float (fl.format_float quantity)) [
        | none ↦ none
        | some normalized ↦
            if not allow_zero && fl.same normalized fl.nought
              || exceeds (fl.abs (fl.sub normalized quantity)) fl.tolerance
              || too_long (split_first is_point (trimmed (fl.format_float quantity)))
            then none
            else some (trimmed (fl.format_float quantity), normalized)
      ]
