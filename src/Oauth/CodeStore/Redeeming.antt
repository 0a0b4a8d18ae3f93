-- ===== src/Oauth/CodeStore/Redeeming.antt =====
-- A code of internal/oauth/code_store.go is redeemed at most as often as it was stored.
use inventree_mcp.Prelude.{
  ℕ, ◌+◌, ◌≤◌, ◌<◌, String, Option, none, some, List, [], ◌∷◌, Bool, true, false, ◌==◌, eq_iff, ◌≡◌,
  if◌then◌else◌, arith, length, ℤ, is_positive, to_nat, Result, ok, err, count, All,
}
use inventree_mcp.GoMap.{get, retain, IsMap}
use inventree_mcp.GoMap.Laws.{
  get-put, get-delete, get-retain, put-IsMap, delete-IsMap, retain-IsMap, length-put-le,
  length-delete-le, length-retain-le,
}
use inventree_mcp.Oauth.CodeStore.{
  CodeStore, Error, code_already_used, new_code_store, after, store, consume,
}

pub record IsValid (s : CodeStore) : Type 0 where
  pub distinct : IsMap s.entries
  pub positive : is_positive s.max ≡ true
  pub bounded : length s.entries ≤ to_nat s.max

new_code_store-IsValid : (max : ℤ) → IsValid (new_code_store max)
unfolding new_code_store
new_code_store-IsValid max = record {
  distinct = tt;
  positive = ground arith;
  bounded = omega arith;
}

module _ (s : CodeStore) (now now' : ℕ) (id : String) (v : IsValid s) where
  -- `Store` keeps the ids distinct and the size within the maximum, whatever it returns.
  pub store-IsValid : (x : ℕ) → IsValid (store s now now' id x).1
  unfolding store
  store-IsValid x = record {
    distinct = ground (
      arith,
      retain-IsMap (after now) s.entries v.distinct,
      put-IsMap id x (retain (after now) s.entries),
    );
    positive = ground (arith, v.positive);
    bounded = ground (
      arith,
      v.bounded,
      v.positive,
      length-retain-le (after now) s.entries,
      length-put-le id x (retain (after now) s.entries),
    );
  }

  pub consume-IsValid : IsValid (consume s now now' id).1
  unfolding consume
  consume-IsValid = record {
    distinct = ground (
      arith,
      retain-IsMap (after now) s.entries v.distinct,
      delete-IsMap id (retain (after now) s.entries),
    );
    positive = ground (arith, v.positive);
    bounded = ground (
      arith,
      v.bounded,
      length-retain-le (after now) s.entries,
      length-delete-le id (retain (after now) s.entries),
    );
  }

module _ (s : CodeStore) (now now' : ℕ) (id : String) where
  pub stored_entry :
      (x : ℕ)
      → (store s now now' id x).0 ≡ ok tt
      → get id (store s now now' id x).1.entries ≡ some x
  unfolding store
  stored_entry x h = ground (arith, get-put id id x (retain (after now) s.entries), eq_iff id id)

  pub redeems :
      (x : ℕ)
      → IsValid s
      → get id s.entries ≡ some x
      → now < x
      → now' < x
      → (consume s now now' id).0 ≡ ok tt
  unfolding consume
  redeems x v there h h' = ground (arith, get-retain (after now) id s.entries v.distinct)

  pub redeemed_gone :
      (consume s now now' id).0 ≡ ok tt → get id (consume s now now' id).1.entries ≡ none
  unfolding consume
  redeemed_gone h = ground (arith, get-delete id id (retain (after now) s.entries), eq_iff id id)

  pub gone_refused :
      IsValid s → get id s.entries ≡ none → (consume s now now' id).0 ≡ err code_already_used
  unfolding consume
  gone_refused v gone = ground (arith, get-retain (after now) id s.entries v.distinct)

-- A code that was stored can be redeemed once before its expiry, and not a second time.
pub store-consume :
    (s : CodeStore) (now now' m m' k k' : ℕ) (id : String) (x : ℕ)
    → IsValid s
    → (store s now now' id x).0 ≡ ok tt
    → m < x
    → m' < x
    → ((consume (store s now now' id x).1 m m' id).0 ≡ ok tt)
      × ((consume (consume (store s now now' id x).1 m m' id).1 k k' id).0 ≡ err code_already_used)
store-consume s now now' m m' k k' id x v stored h h' =
    let t : CodeStore = (store s now now' id x).1 in
    let w : IsValid t = store-IsValid s now now' id v x in
    let first = redeems t m m' id x w (stored_entry s now now' id x stored) h h' in
    (
      first,
      gone_refused (consume t m m' id).1 k k' id (consume-IsValid t m m' id w)
          (redeemed_gone t m m' id first),
    )

pub data Op : Type 0 where
  storing : (now now' : ℕ) → String → ℕ → Op
  redeeming : (now now' : ℕ) → String → Op

pub data Event : Type 0 where
  stored redeemed : String → Event
  idle : Event

abbrev event : Result Error (Unit {0}) → Event → Event
event (ok _) e = e
event (err _) e = idle

pub step : CodeStore → Op → CodeStore × Event
step s (storing now now' id x) = let (r, s') = store s now now' id x in (s', event r (stored id))
step s (redeeming now now' id) = let (r, s') = consume s now now' id in (s', event r (redeemed id))

unfoldable pub run : CodeStore → List Op → CodeStore × List Event
unfolding step
run s [] = (s, [])
run s (o ∷ os) = let (s', e) = step s o in let (t, es) = run s' os in (t, e ∷ es)

abbrev pub is_stored : String → Event → Bool
is_stored id (stored j) = j == id
is_stored id _ = false

abbrev pub is_redeemed : String → Event → Bool
is_redeemed id (redeemed j) = j == id
is_redeemed id _ = false

abbrev held : Option ℕ → ℕ
held none = 0
held (some _) = 1

step-IsValid : (s : CodeStore) (o : Op) → IsValid s → IsValid (step s o).0
unfolding step
step-IsValid s (storing now now' id x) v = store-IsValid s now now' id v x
step-IsValid s (redeeming now now' id) v = consume-IsValid s now now' id v

-- whether a call stores the id
abbrev pub is_storing : String → Op → Bool
is_storing id (storing now now' j x) = j == id
is_storing id (redeeming now now' j) = false

step_gone :
    (s : CodeStore) (o : Op) (id : String)
    → IsValid s
    → is_storing id o ≡ false
    → get id s.entries ≡ none
    → get id (step s o).0.entries ≡ none
unfolding step store consume
step_gone s (storing now now' j x) id v other gone = ground (
  arith,
  other,
  get-put j id x (retain (after now) s.entries),
  get-retain (after now) id s.entries v.distinct,
  eq_iff j id,
)
step_gone s (redeeming now now' j) id v other gone = ground (
  arith,
  get-delete j id (retain (after now) s.entries),
  get-retain (after now) id s.entries v.distinct,
  eq_iff j id,
)

run-IsValid : (s : CodeStore) (os : List Op) → IsValid s → IsValid (run s os).0
unfolding run
run-IsValid s [] v = v
run-IsValid s (o ∷ os) v = run-IsValid (step s o).0 os (step-IsValid s o v)

run_gone :
    (s : CodeStore) (os : List Op) (id : String)
    → IsValid s
    → All (λ o. is_storing id o ≡ false) os
    → get id s.entries ≡ none
    → get id (run s os).0.entries ≡ none
unfolding run
run_gone s [] id v others gone = gone
run_gone s (o ∷ os) id v others gone =
    run_gone (step s o).0 os id (step-IsValid s o v) others.1 (step_gone s o id v others.0 gone)

-- An id that has been redeemed is refused after any calls that do not store it again.
pub run_refused :
    (s : CodeStore) (now now' m m' : ℕ) (os : List Op) (id : String)
    → IsValid s
    → (consume s now now' id).0 ≡ ok tt
    → All (λ o. is_storing id o ≡ false) os
    → (consume (run (consume s now now' id).1 os).0 m m' id).0 ≡ err code_already_used
run_refused s now now' m m' os id v once others =
    let t : CodeStore = (consume s now now' id).1 in
    let w : IsValid t = consume-IsValid s now now' id v in
    gone_refused (run t os).0 m m' id (run-IsValid t os w)
      (run_gone t os id w others (redeemed_gone s now now' id once))

step-held :
    (s : CodeStore) (o : Op) (id : String)
    → IsValid s
    → (if is_redeemed id (step s o).1 then 1 else 0) + held (get id (step s o).0.entries)
      ≤ (if is_stored id (step s o).1 then 1 else 0) + held (get id s.entries)
unfolding step store consume
step-held s (storing now now' j x) id v = ground (
  arith,
  get-put j id x (retain (after now) s.entries),
  get-retain (after now) id s.entries v.distinct,
  eq_iff j id,
)
step-held s (redeeming now now' j) id v = ground (
  arith,
  get-delete j id (retain (after now) s.entries),
  get-retain (after now) id s.entries v.distinct,
  eq_iff j id,
)

run-held :
    (s : CodeStore) (os : List Op) (id : String)
    → IsValid s
    → count (is_redeemed id) (run s os).1 + held (get id (run s os).0.entries)
      ≤ count (is_stored id) (run s os).1 + held (get id s.entries)
unfolding run
run-held s [] id v = omega arith
run-held s (o ∷ os) id v =
    ground (arith, step-held s o id v, run-held (step s o).0 os id (step-IsValid s o v))

-- In any run of a new store, with any clock, an id is redeemed at most as often as it was stored.
pub redeemed-le-stored :
    (max : ℤ) (os : List Op) (id : String)
    → count (is_redeemed id) (run (new_code_store max) os).1
      ≤ count (is_stored id) (run (new_code_store max) os).1
unfolding new_code_store get
redeemed-le-stored max os id =
    omega (arith, run-held (new_code_store max) os id (new_code_store-IsValid max))
