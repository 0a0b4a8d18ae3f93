-- ===== src/Inventree/Pagination/Pages.antt =====
-- When `ListAll` of internal/inventree/pagination.go returns, and what.
use mathlib.Core.List.{append_assoc}
use mathlib.Core.Option.{some-injective}
use inventree_mcp.Prelude.{
  ℕ, zero, suc, ◌≤◌, ◌<◌, String, Option, none, some, List, [], ◌++◌, ◌==◌, ◌≡◌, ◌↔◌, inl, inr,
  refl, sym, ap, subst, ◌∙◌, arith, if◌then◌else◌, Bool-cases, Option-cases, Result-cases, Result,
  ok, err,
}
use inventree_mcp.Inventree.Pagination.{
  Error, upstream, Page, PageClient, finished, next_page, follow, decode_page, list_pages, list_all,
}

module _ {T : Type 0} where
  abbrev pub prepend : List T → Result Error (List T) → Result Error (List T)
  prepend all (ok records) = ok (all ++ records)
  prepend all (err e) = err e

  prepend_nil : (r : Result Error (List T)) → prepend [] r ≡ r
  prepend_nil (ok records) = refl
  prepend_nil (err e) = refl

  prepend-append :
      (xs ys : List T) (r : Result Error (List T))
      → prepend xs (prepend ys r) ≡ prepend (xs ++ ys) r
  prepend-append xs ys (ok records) = ap ok (sym (append_assoc xs ys records))
  prepend-append xs ys (err e) = refl

-- The next link of a page, if there is one.
abbrev pub link_of : Option String → Option String
link_of none = none
link_of (some url) = if url == "" then none else some url

module _ {T Q J W : Type 0} (client : PageClient T Q J W) where
  -- The answers to `suc n` requests in turn, which end the list: by an error, by a list of records, or by a page
  -- without a next link. The records of the pages before it are put in front.
  pub data Pages : ℕ → String → Q → W → Result Error (List T) → W → Type 0 where
    unanswered :
        (path : String) (query : Q) (w : W) (e : String)
        → (client.fetch path query w).0 ≡ err e
        → Pages 0 path query w (err (upstream e)) (client.fetch path query w).1
    unreadable :
        (path : String) (query : Q) (w : W) (payload : J) (e d : String)
        → (client.fetch path query w).0 ≡ ok payload
        → client.page_of payload ≡ err e
        → client.records_of payload ≡ err d
        → Pages 0 path query w (err (upstream e)) (client.fetch path query w).1
    records :
        (path : String) (query : Q) (w : W) (payload : J) (e : String) (xs : List T)
        → (client.fetch path query w).0 ≡ ok payload
        → client.page_of payload ≡ err e
        → client.records_of payload ≡ ok xs
        → Pages 0 path query w (ok xs) (client.fetch path query w).1
    last :
        (path : String) (query : Q) (w : W) (payload : J) (page : Page T)
        → (client.fetch path query w).0 ≡ ok payload
        → client.page_of payload ≡ ok page
        → link_of page.next ≡ none
        → Pages 0 path query w (ok page.results) (client.fetch path query w).1
    unlinked :
        (path : String) (query : Q) (w : W) (payload : J) (page : Page T) (url e : String)
        → (client.fetch path query w).0 ≡ ok payload
        → client.page_of payload ≡ ok page
        → link_of page.next ≡ some url
        → client.parse_url url ≡ err e
        → Pages 0 path query w (err (upstream e)) (client.fetch path query w).1
    more :
        (n : ℕ) (path : String) (query : Q) (w : W) (payload : J) (page : Page T)
        (url path' : String) (query' : Q) (r : Result Error (List T)) (w' : W)
        → (client.fetch path query w).0 ≡ ok payload
        → client.page_of payload ≡ ok page
        → link_of page.next ≡ some url
        → client.parse_url url ≡ ok (path', query')
        → Pages n path' query' (client.fetch path query w).1 r w'
        → Pages (suc n) path query w (prepend page.results r) w'

  next_none :
      (all : List T) (link : Option String)
      → link_of link ≡ none
      → next_page client all link ≡ finished (ok all)
  next_none all none h = refl
  next_none all (some url) h = elim (Bool-cases (url == "")) [
    | inl blank ↦ rw (next_page, blank) refl
    | inr there ↦ absurd (cc (rw (link_of, there) at h))
  ]

  next_some :
      (all : List T) (link : Option String) (url : String)
      → link_of link ≡ some url
      → next_page client all link ≡ follow client all (client.parse_url url)
  next_some all none url h = absurd (cc h)
  next_some all (some other) url h = elim (Bool-cases (other == "")) [
    | inl blank ↦ absurd (cc (rw (link_of, blank) at h))
    | inr there ↦
        rw (next_page, there)
          (ap (λ u. follow client all (client.parse_url u)) (same (rw (link_of, there) at h)))
  ]
    where
      same : some other ≡ some url → other ≡ url
      same k = cc k

  -- With fuel for every request, the loop returns what the pages say, behind the records that it has.
  list_pages-Pages :
      {n : ℕ} {path : String} {query : Q} {w w' : W} {r : Result Error (List T)} (k : ℕ)
      (all : List T)
      → Pages n path query w r w'
      → n ≤ k
      → list_pages client (suc k) path query all w ≡ (some (prepend all r), w')
  unfolding list_pages
  list_pages-Pages k all (unanswered path query w e f) enough = rw (list_pages, f) refl
  list_pages-Pages k all (unreadable path query w payload e d f g h) enough =
      rw (list_pages, f, decode_page, g, h) refl
  list_pages-Pages k all (records path query w payload e xs f g h) enough =
      rw (list_pages, f, decode_page, g, h, h) refl
  list_pages-Pages k all (last path query w payload page f g h) enough =
      rw (list_pages, f, decode_page, g, next_none (all ++ page.results) page.next h) refl
  list_pages-Pages k all (unlinked path query w payload page url e f g h i) enough =
      rw (list_pages, f, decode_page, g, next_some (all ++ page.results) page.next url h, i) refl
  list_pages-Pages zero all (more n path query w payload page url path' query' r w' f g h i rest)
        enough =
      absurd (omega (arith, enough))
  list_pages-Pages (suc k) all (more n path query w payload page url path' query' r w' f g h i rest)
        enough =
      rw (list_pages, f, decode_page, g, next_some (all ++ page.results) page.next url h, i)
        (list_pages-Pages k (all ++ page.results) rest (omega (arith, enough))
          ∙ ap (λ x. (some x, w')) (sym (prepend-append all page.results r)))

  -- A loop that has returned has answers like these behind it.
  record Returned (k : ℕ) (path : String) (query : Q) (all : List T) (w w' : W)
      (r : Result Error (List T)) : Type 0 where
    n : ℕ
    rest : Result Error (List T)
    pages : Pages n path query w rest w'
    within : n < k
    whole : r ≡ prepend all rest

  finish :
      {k n : ℕ} {path : String} {query : Q} {w w' w'' : W} {r : Result Error (List T)}
      (all : List T) (rest : Result Error (List T))
      → Pages n path query w rest w''
      → n < k
      → ◌≡◌ {A = Option (Result Error (List T)) × W} (some (prepend all rest), w'') (some r, w')
      → Returned k path query all w w' r
  finish {n = n} {path = path} {query = query} {w = w} all rest p less h = record {
    n = n;
    rest = rest;
    pages = subst (Pages n path query w rest) (ap (λ x. x.1) h) p;
    within = less;
    whole = sym (some-injective _ _ (ap (λ x. x.0) h));
  }

  list_pages-Returned :
      (k : ℕ) (path : String) (query : Q) (all : List T) (w w' : W) (r : Result Error (List T))
      → list_pages client k path query all w ≡ (some r, w')
      → Returned k path query all w w' r
  unfolding list_pages
  list_pages-Returned zero path query all w w' r h = absurd (cc h)
  list_pages-Returned (suc k) path query all w w' r h =
      elim (Result-cases (client.fetch path query w).0) [
        | inr (e, f) ↦
            finish all _ (unanswered path query w e f) (omega arith) (rw (list_pages, f) at h)
        | inl (payload, f) ↦ elim (Result-cases (client.page_of payload)) [
          | inr (e, g) ↦ elim (Result-cases (client.records_of payload)) [
            | inr (d, i) ↦
                finish all _ (unreadable path query w payload e d f g i) (omega arith)
                  (rw (list_pages, f, decode_page, g, i) at h)
            | inl (xs, i) ↦
                finish all _ (records path query w payload e xs f g i) (omega arith)
                  (rw (list_pages, f, decode_page, g, i, i) at h)
          ]
          | inl (page, g) ↦ elim (Option-cases (link_of page.next)) [
            | inl i ↦ finish all _ (last path query w payload page f g i) (omega arith) (
                rw (list_pages, f, decode_page, g, next_none (all ++ page.results) page.next i) at
                  h)
            | inr (url, i) ↦ elim (Result-cases (client.parse_url url)) [
              | inr (e, j) ↦
                  finish all _ (unlinked path query w payload page url e f g i j) (omega arith) (
                    rw
                      (
                        list_pages,
                        f,
                        decode_page,
                        g,
                        next_some (all ++ page.results) page.next url i,
                        j,
                      )
                      at h)
              | inl ((path', query'), j) ↦
                  let later =
                    list_pages-Returned k path' query' (all ++ page.results)
                      (client.fetch path query w).1 w' r
                      (rw
                        (
                          list_pages,
                          f,
                          decode_page,
                          g,
                          next_some (all ++ page.results) page.next url i,
                          j,
                        )
                        at h) in
                  record {
                    n = suc later.n;
                    rest = prepend page.results later.rest;
                    pages =
                        more later.n path query w payload page url path' query' later.rest w' f g i
                          j later.pages;
                    within = omega (arith, later.within);
                    whole = later.whole ∙ sym (prepend-append all page.results later.rest);
                  }
            ]
          ]
        ]
      ]

  -- `ListAll` returns just when the answers to its requests come to an end, and then it returns their
  -- error, or their records in their order; `suc n` requests take no more fuel than `suc n`.
  pub list_all-Pages :
      (path : String) (query : Q) (w w' : W) (r : Result Error (List T)) (k : ℕ)
      → (list_all (some client) (suc k) path query w ≡ (some r, w'))
        ↔ ((n : ℕ) × Pages n path query w r w' × (n ≤ k))
  list_all-Pages path query w w' r k = (
    λ h.
        let found = list_pages-Returned (suc k) path query [] w w' r h in
        (
          found.n,
          subst (λ x. Pages found.n path query w x w') (sym (found.whole ∙ prepend_nil found.rest))
              found.pages,
          omega (arith, found.within),
        ),
    λ (n, p, enough). list_pages-Pages k [] p enough ∙ ap (λ x. (some x, w')) (prepend_nil r),
  )
