-- ===== src/Tools/Tests.antt =====
-- Tests of internal/tools, and the theorems about it at concrete inputs.
use inventree_mcp.Prelude.{ℕ, suc, String, some, List, [], ◌∷◌, true, ◌≡◌, ◌⊎◌}
use inventree_mcp.GoMap.{Assoc}
use inventree_mcp.Tools.Guard.{Denial, denied, answered, guard_tool}
use inventree_mcp.Tools.Guard.Permission.{IsPermitted, guard_tool-IsPermitted}

abbrev table : Assoc (List String)
table = ("list_parts", "read" ∷ []) ∷ ("delete_part", "read" ∷ "write" ∷ []) ∷ []

abbrev token : List String
token = "read" ∷ []

abbrev counted : ℕ → ℕ × ℕ
counted n = (n, suc n)

guard_tool-IsPermitted_example :
    (IsPermitted table "list_parts" (some token)
      × (guard_tool true table "list_parts" (some token) counted 4 ≡ (answered 4, 5)))
    ⊎ ((IsPermitted table "list_parts" (some token) → ⊥)
        × ((d : Denial) × (guard_tool true table "list_parts" (some token) counted 4
              ≡ (denied d, 4))))
guard_tool-IsPermitted_example = guard_tool-IsPermitted table "list_parts" (some token) counted 4
