-- ===== src/Inventree/Pagination.antt =====
-- The pages of a list: internal/inventree/pagination.go.
-- A client answers requests in a world `W` that may change at each request; JSON and URLs are its
-- functions too. Nothing in the code bounds the number of pages: `list_pages` runs on fuel.
pub mod Pages
use inventree_mcp.Prelude.{
  ℕ, zero, suc, String, Option, none, some, List, [], ◌∷◌, ◌++◌, Bool, true, false, ◌==◌,
  if◌then◌else◌, ℤ, pos, length, Result, ok, err, ◌>>=◌,
}

pub data Error : Type 0 where
  client_required : Error
  -- an error of the request, of JSON or of a URL, which is passed on
  upstream : String → Error

pub record Page (T : Type 0) : Type 0 where
  pub count : ℤ
  pub next : Option String
  pub previous : Option String
  pub results : List T

pub record PageClient (T Q J W : Type 0) : Type 0 where
  -- `NewRequest` for GET and `DoJSON`
  pub fetch : String → Q → W → Result String J × W
  -- `json.Unmarshal` into a page and into a list of records
  pub page_of : J → Result String (Page T)
  pub records_of : J → Result String (List T)
  -- `url.Parse`, as the path and the query
  pub parse_url : String → Result String (String × Q)

-- What a turn of the loop does.
pub data Turn (T Q : Type 0) : Type 0 where
  finished : Result Error (List T) → Turn T Q
  again : String → Q → List T → Turn T Q

abbrev pub passed_on : {A : Type 0} → Result String A → Result Error A
passed_on (ok a) = ok a
passed_on (err e) = err (upstream e)

abbrev pub bare_page : {T : Type 0} → List T → Page T
bare_page records = record { count = pos 0; next = none; previous = none; results = records }

module _ {T Q J W : Type 0} (client : PageClient T Q J W) where
  abbrev pub decoded :
      Result String (Page T) → Result String (List T) → Result Error (Page T × Bool)
  decoded (ok page) records = ok (page, true)
  decoded (err e) (ok records) = ok (bare_page records, false)
  decoded (err e) (err _) = err (upstream e)

  -- `decodePage`
  abbrev pub decode_page : J → Result Error (Page T × Bool)
  decode_page payload = decoded (client.page_of payload) (client.records_of payload)

  abbrev pub with_records : List T → Result String (List T) → Turn T Q
  with_records all (ok records) = finished (ok (all ++ records))
  with_records all (err e) = finished (err (upstream e))

  abbrev pub follow : List T → Result String (String × Q) → Turn T Q
  follow all (ok (path, query)) = again path query all
  follow all (err e) = finished (err (upstream e))

  abbrev pub next_page : List T → Option String → Turn T Q
  next_page all none = finished (ok all)
  next_page all (some url) =
      if url == "" then finished (ok all) else follow all (client.parse_url url)

  abbrev pub with_page : List T → J → Result Error (Page T × Bool) → Turn T Q
  with_page all payload (err e) = finished (err e)
  with_page all payload (ok (page, false)) = with_records all (client.records_of payload)
  with_page all payload (ok (page, true)) = next_page (all ++ page.results) page.next

  abbrev pub with_payload : List T → Result String J → Turn T Q
  with_payload all (err e) = finished (err (upstream e))
  with_payload all (ok payload) = with_page all payload (decode_page payload)

  -- the loop of `ListAll`; `none` when the fuel has run out
  unfoldable pub list_pages : ℕ → String → Q → List T → W → Option (Result Error (List T)) × W
  list_pages zero path query all w = (none, w)
  list_pages (suc fuel) path query all w = elim (with_payload all (client.fetch path query w).0) [
    | finished r ↦ (some r, (client.fetch path query w).1)
    | again path' query' all' ↦ list_pages fuel path' query' all' (client.fetch path query w).1
  ]

  abbrev pub whole : Result Error (Page T × Bool) → Result Error (Page T)
  whole (err e) = err e
  whole (ok (page, true)) = ok page
  whole (ok (page, false)) =
      ok (record (bare_page page.results) { count = pos (length page.results) })

  -- `listPage`
  abbrev pub list_page : String → Q → W → Result Error (Page T) × W
  list_page path query w =
      let (got, w') = client.fetch path query w in
      (passed_on got >>= λ payload. whole (decode_page payload), w')

module _ {T Q J W : Type 0} where
  -- `ListAll`; a nil client is `none`
  abbrev pub list_all :
      Option (PageClient T Q J W) → ℕ → String → Q → W → Option (Result Error (List T)) × W
  list_all none fuel path query w = (some (err client_required), w)
  list_all (some client) fuel path query w = list_pages client fuel path query [] w
