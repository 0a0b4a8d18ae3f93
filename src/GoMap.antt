-- ===== src/GoMap.antt =====
-- Go's `map[string]V`, as the token stores use it (internal/batch/store.go,
-- internal/oauth/code_store.go, internal/oauth/private_key_jwt.go,
-- internal/tools/stock_adjustment_tools.go). The order of entries is not observable there: each
-- `range` loop deletes or counts entries by a test of the value alone, so it is a filter or a count.
pub mod Laws
use inventree_mcp.Prelude.{
  String, Option, none, some, List, [], ◌∷◌, Bool, ◌==◌, if◌then◌else◌, length, ℕ, zero, suc, ◌≡◌,
}

abbrev pub Assoc {ℓ} : Type ℓ → Type ℓ
Assoc V = List (String × V)

module _ {ℓ} {V : Type ℓ} where
  -- `v, ok := m[k]`
  unfoldable pub get : String → Assoc V → Option V
  get k [] = none
  get k ((j, v) ∷ m) = if j == k then some v else get k m

  -- `delete(m, k)`
  unfoldable pub delete : String → Assoc V → Assoc V
  delete k [] = []
  delete k ((j, v) ∷ m) = let rest = delete k m in if j == k then rest else (j, v) ∷ rest

  -- `m[k] = v`
  unfoldable pub put : String → V → Assoc V → Assoc V
  unfolding delete
  put k v m = (k, v) ∷ delete k m

  -- `for k, v := range m { if !keep(v) { delete(m, k) } }`
  unfoldable pub retain : (V → Bool) → Assoc V → Assoc V
  retain keep [] = []
  retain keep ((k, v) ∷ m) = let rest = retain keep m in if keep v then (k, v) ∷ rest else rest

  -- `for _, v := range m { if test(v) { n++ } }`
  unfoldable pub count_values : (V → Bool) → Assoc V → ℕ
  count_values test [] = 0
  count_values test ((k, v) ∷ m) =
      let rest = count_values test m in if test v then suc rest else rest

  -- No key stands twice.
  abbrev pub IsMap : Assoc V → Type ℓ
  IsMap [] = Unit
  IsMap ((k, v) ∷ m) = (get k m ≡ none) × IsMap m

  -- Every value has the property.
  abbrev pub AllValues {κ} : (V → Type κ) → Assoc V → Type κ
  AllValues P [] = Unit
  AllValues P ((k, v) ∷ m) = P v × AllValues P m

  abbrev pub filter_value : (V → Bool) → Option V → Option V
  filter_value keep none = none
  filter_value keep (some v) = if keep v then some v else none
