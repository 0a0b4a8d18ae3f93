-- ===== src/GoMap/Laws.antt =====
-- The laws of the map operations that the stores rest on.
use inventree_mcp.Prelude.{
  suc, ◌+◌, ◌≤◌, String, none, some, [], ◌∷◌, Bool, ◌≡◌, refl, ◌==◌, eq_iff, if◌then◌else◌, length,
  arith,
}
use inventree_mcp.GoMap.{Assoc, get, delete, put, retain, count_values, IsMap, filter_value}

module _ {ℓ} {V : Type ℓ} where
  pub get-delete :
      (k j : String) (m : Assoc V) → get j (delete k m) ≡ (if k == j then none else get j m)
  unfolding get delete
  get-delete k j [] = ground arith
  get-delete k j ((i, v) ∷ m) = ground (arith, get-delete k j m, eq_iff i k, eq_iff i j, eq_iff k j)

  pub get-put :
      (k j : String) (v : V) (m : Assoc V)
      → get j (put k v m) ≡ (if k == j then some v else get j m)
  unfolding get put
  get-put k j v m = ground (arith, get-delete k j m)

  -- On a map, a filtered entry is what is left of the entry.
  pub get-retain :
      (keep : V → Bool) (k : String) (m : Assoc V)
      → IsMap m
      → get k (retain keep m) ≡ filter_value keep (get k m)
  unfolding get retain
  get-retain keep k [] h = refl
  get-retain keep k ((j, v) ∷ m) h = ground (arith, get-retain keep k m h.1, eq_iff j k, h.0)

  pub delete-IsMap : (k : String) (m : Assoc V) → IsMap m → IsMap (delete k m)
  unfolding delete
  delete-IsMap k [] h = h
  delete-IsMap k ((j, v) ∷ m) h = ground (arith, delete-IsMap k m h.1, get-delete k j m)

  pub put-IsMap : (k : String) (v : V) (m : Assoc V) → IsMap m → IsMap (put k v m)
  unfolding put
  put-IsMap k v m h = ground (arith, delete-IsMap k m h, get-delete k k m, eq_iff k k)

  pub retain-IsMap : (keep : V → Bool) (m : Assoc V) → IsMap m → IsMap (retain keep m)
  unfolding retain
  retain-IsMap keep [] h = h
  retain-IsMap keep ((j, v) ∷ m) h =
      ground (arith, retain-IsMap keep m h.1, get-retain keep j m h.1)

  pub length-delete-le : (k : String) (m : Assoc V) → length (delete k m) ≤ length m
  unfolding delete
  length-delete-le k [] = omega arith
  length-delete-le k ((j, v) ∷ m) = ground (arith, length-delete-le k m)

  pub length-put-le : (k : String) (v : V) (m : Assoc V) → length (put k v m) ≤ length m + 1
  unfolding put
  length-put-le k v m = omega (arith, length-delete-le k m)

  pub length-retain-le : (keep : V → Bool) (m : Assoc V) → length (retain keep m) ≤ length m
  unfolding retain
  length-retain-le keep [] = omega arith
  length-retain-le keep ((j, v) ∷ m) = ground (arith, length-retain-le keep m)

  pub count_values-delete-le :
      (test : V → Bool) (k : String) (m : Assoc V)
      → count_values test (delete k m) ≤ count_values test m
  unfolding count_values delete
  count_values-delete-le test k [] = omega arith
  count_values-delete-le test k ((j, v) ∷ m) = ground (arith, count_values-delete-le test k m)

  pub count_values-put-le :
      (test : V → Bool) (k : String) (v : V) (m : Assoc V)
      → count_values test (put k v m)
        ≤ (if test v then suc (count_values test m) else count_values test m)
  unfolding count_values put
  count_values-put-le test k v m = ground (arith, count_values-delete-le test k m)

  pub count_values-retain-le :
      (test keep : V → Bool) (m : Assoc V) → count_values test (retain keep m) ≤ count_values test m
  unfolding count_values retain
  count_values-retain-le test keep [] = omega arith
  count_values-retain-le test keep ((j, v) ∷ m) = ground (arith, count_values-retain-le test keep m)

  -- A second filter by the same test changes nothing.
  pub retain-retain : (keep : V → Bool) (m : Assoc V) → retain keep (retain keep m) ≡ retain keep m
  unfolding retain
  retain-retain keep [] = refl
  retain-retain keep ((j, v) ∷ m) = ground (arith, retain-retain keep m)
