-- ===== src/Inventree/Tests.antt =====
-- Tests of internal/inventree, and the theorems about it at concrete inputs.
use inventree_mcp.Prelude.{
  ℕ, suc, ◌≤◌, String, none, some, [], ◌∷◌, ◌==◌, ◌≡◌, ◌↔◌, refl, if◌then◌else◌, pos, ok, err,
}
use inventree_mcp.Inventree.Pagination.{Page, PageClient, list_all, list_page}
use inventree_mcp.Inventree.Pagination.Pages.{Pages, list_all-Pages}

abbrev first_page : Page ℕ
first_page = record {
  count = pos 3;
  next = some "/api/part/?offset=2";
  previous = none;
  results = 4 ∷ 5 ∷ [];
}

abbrev second_page : Page ℕ
second_page = record { count = pos 3; next = some ""; previous = none; results = 6 ∷ [] }

-- Two pages, in a world that counts the requests.
abbrev two_pages : PageClient ℕ String (Page ℕ) ℕ
two_pages = record {
  fetch = λ path query w. (ok (if query == "offset=2" then second_page else first_page), suc w);
  page_of = ok;
  records_of = λ _. err "no list";
  parse_url = λ url. ok ("/api/part/", "offset=2");
}

list_two_pages : list_all (some two_pages) 2 "/api/part/" "" 0 ≡ (some (ok (4 ∷ 5 ∷ 6 ∷ [])), 2)
unfolding inventree_mcp.Inventree.Pagination.list_pages
list_two_pages = refl

list_out_of_fuel : list_all (some two_pages) 1 "/api/part/" "" 0 ≡ (none, 1)
unfolding inventree_mcp.Inventree.Pagination.list_pages
list_out_of_fuel = refl

list_one_page : list_page two_pages "/api/part/" "offset=2" 0 ≡ (ok second_page, 1)
list_one_page = refl

list_all-Pages_example :
    (list_all (some two_pages) 2 "/api/part/" "" 0 ≡ (some (ok (4 ∷ 5 ∷ 6 ∷ [])), 2))
    ↔ ((n : ℕ) × Pages two_pages n "/api/part/" "" 0 (ok (4 ∷ 5 ∷ 6 ∷ [])) 2 × (n ≤ 1))
list_all-Pages_example = list_all-Pages two_pages "/api/part/" "" 0 2 (ok (4 ∷ 5 ∷ 6 ∷ [])) 1
