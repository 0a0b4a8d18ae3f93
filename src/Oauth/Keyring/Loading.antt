-- ===== src/Oauth/Keyring/Loading.antt =====
-- What `NewKeyring` of internal/oauth/envelope.go guarantees of the keyring it returns.
use inventree_mcp.Prelude.{
  String, none, some, List, [], ◌∷◌, false, eq_iff, ◌≡◌, refl, eqb_iff, length, ok, arith,
  Option-cases, inl, inr, sym, subst, Occurs, ◌⊎◌, ◌≢◌, ok_unique, bind-ok,
}
use inventree_mcp.GoMap.{Assoc, get, put}
use inventree_mcp.GoMap.Laws.{get-put}
use inventree_mcp.Oauth.Text.{is_separator, contains}
use inventree_mcp.Oauth.Text.Laws.{HasNoDot}
use inventree_mcp.Oauth.Keyring.{
  Key, Keyring, Loaded, key_state_active, load_key, load_keys, finish, new_keyring,
}

-- The key is usable: its id can stand between dots, and its material has the length of the cipher.
pub record IsUsable (key : Key) : Type 0 where
  pub no_dot : HasNoDot key.id
  pub key_length : length key.material ≡ 32

no_separator : (s : String) → contains is_separator s ≡ false → HasNoDot s
no_separator String.[] h = refl
no_separator (String.◌∷◌ c s) h = ground (arith, no_separator s)

-- Every key stands under its own id and is usable, and the active one stands among them.
abbrev Stands : Assoc Key → Key → Type 0
Stands m key = get key.id m ≡ some key

record IsLoaded (s : Loaded) : Type 0 where
  usable : (j : String) (key : Key) → get j s.key_map ≡ some key → IsUsable key × (key.id ≡ j)
  active_stands :
      (key : Key) → s.active ≡ some key → Stands s.key_map key × (key.state ≡ key_state_active)

-- What a round that goes on has checked and done.
record Loads (s s' : Loaded) (key : Key) : Type 0 where
  clean : contains is_separator key.id ≡ false
  long : length key.material ≡ 32
  fresh : get key.id s.key_map ≡ none
  added : s'.key_map ≡ put key.id key s.key_map
  active_kept : (a : Key) → s.active ≡ some a → s'.active ≡ some a
  activated :
      (a : Key)
      → s'.active ≡ some a
      → s.active ≢ some a
      → (a ≡ key) × (key.state ≡ key_state_active)

loads : (s s' : Loaded) (key : Key) → load_key s key ≡ ok s' → Loads s s' key
unfolding load_key
loads s s' key e = record {
  clean = ground arith;
  long = ground (arith, eqb_iff (length key.material) 32);
  fresh = ground arith;
  added = ground arith;
  active_kept = λ a h. ground arith;
  activated = λ a h n. ground (arith, eq_iff key.state key_state_active);
}

-- A key that stands in the map still stands there after the round, and so does the new one.
stays :
    (s s' : Loaded) (key : Key) (j : String) (k : Key)
    → Loads s s' key
    → get j s.key_map ≡ some k
    → get j s'.key_map ≡ some k
stays s s' key j k l h =
    rw (l.added) (ground (arith, get-put key.id j key s.key_map, eq_iff key.id j, l.fresh))

new-Stands : (s s' : Loaded) (key : Key) → Loads s s' key → Stands s'.key_map key
new-Stands s s' key l =
    rw (l.added) (ground (arith, get-put key.id key.id key s.key_map, eq_iff key.id key.id))

old_or_new :
    (s s' : Loaded) (key : Key) (j : String) (k : Key)
    → Loads s s' key
    → get j s'.key_map ≡ some k
    → (get j s.key_map ≡ some k) ⊎ ((k ≡ key) × (key.id ≡ j))
old_or_new s s' key j k l h =
    ground (arith, l.added, get-put key.id j key s.key_map, eq_iff key.id j)

active_old_or_new :
    (s s' : Loaded) (key k : Key)
    → Loads s s' key
    → s'.active ≡ some k
    → (s.active ≡ some k) ⊎ ((k ≡ key) × (key.state ≡ key_state_active))
active_old_or_new s s' key k l h = elim (Option-cases s.active) [
  | inl n ↦ inr (l.activated k h (cc))
  | inr (a, e) ↦ inl (cc (l.active_kept a e))
]

load_key-IsLoaded : (s s' : Loaded) (key : Key) → IsLoaded s → Loads s s' key → IsLoaded s'
load_key-IsLoaded s s' key h l = record {
  usable = λ j k e. elim (old_or_new s s' key j k l e) [
    | inl old ↦ h.usable j k old
    | inr (new, here) ↦ (
      subst IsUsable (sym new)
          (record { no_dot = no_separator key.id l.clean; key_length = l.long }),
      cc,
    )
  ];
  active_stands = λ k e. elim (active_old_or_new s s' key k l e) [
    | inl old ↦ (stays s s' key k.id k l (h.active_stands k old).0, (h.active_stands k old).1)
    | inr (new, now) ↦
        subst (λ a. Stands s'.key_map a × (a.state ≡ key_state_active)) (sym new)
          (new-Stands s s' key l, now)
  ];
}

pub record IsKeyring (keys : List Key) (r : Keyring) : Type 0 where
  pub found : (key : Key) → Occurs key keys → get key.id r.keys ≡ some key
  pub usable : (j : String) (key : Key) → get j r.keys ≡ some key → IsUsable key × (key.id ≡ j)
  pub active_found : get r.active.id r.keys ≡ some r.active
  pub active_state : r.active.state ≡ key_state_active

-- Loading keeps what stands, adds every key, and keeps the invariant.
record Extends (s s' : Loaded) (keys : List Key) : Type 0 where
  loaded : IsLoaded s'
  kept : (j : String) (k : Key) → get j s.key_map ≡ some k → get j s'.key_map ≡ some k
  all : (key : Key) → Occurs key keys → Stands s'.key_map key

load_keys-Extends :
    (s s' : Loaded) (keys : List Key) → IsLoaded s → load_keys s keys ≡ ok s' → Extends s s' keys
unfolding load_keys
load_keys-Extends s s' [] h e =
    subst (λ t. Extends s t []) (ok_unique (load_keys s []) s s' refl e)
      (record { loaded = h; kept = λ j k g. g; all = λ key o. absurd o })
load_keys-Extends s s' (key ∷ keys) h e =
    let (t, loaded, more) = bind-ok (load_key s key) (λ t. load_keys t keys) s' e in
    let l = loads s t key loaded in
    let rest = load_keys-Extends t s' keys (load_key-IsLoaded s t key h l) more in
    record {
      loaded = rest.loaded;
      kept = λ j k g. rest.kept j k (stays s t key j k l g);
      all = λ k o. elim o [
        | inl here ↦ subst (Stands s'.key_map) here (rest.kept key.id key (new-Stands s t key l))
        | inr there ↦ rest.all k there
      ];
    }

abbrev start : Loaded
start = record { key_map = []; active = none }

start-IsLoaded : IsLoaded start
unfolding get
start-IsLoaded = record { usable = λ j k h. absurd (cc); active_stands = λ k h. absurd (cc) }

finish-IsKeyring :
    (s : Loaded) (keys : List Key) (r : Keyring)
    → Extends start s keys
    → finish s ≡ ok r
    → IsKeyring keys r
finish-IsKeyring s keys r x e = elim (Option-cases s.active) [
  | inl none_yet ↦ absurd (ground arith)
  | inr (a, is) ↦
      subst (IsKeyring keys)
        (ok_unique (finish s) (record { keys = s.key_map; active = a }) r (rw is refl) e)
        (record {
          found = x.all;
          usable = x.loaded.usable;
          active_found = (x.loaded.active_stands a is).0;
          active_state = (x.loaded.active_stands a is).1;
        })
]

-- A keyring that `NewKeyring` returns holds every key it was given under the key's id, and the
-- active key among them; every id in it is free of dots, and every key has 32 bytes.
pub new_keyring-IsKeyring :
    (keys : List Key) (r : Keyring) → new_keyring keys ≡ ok r → IsKeyring keys r
unfolding new_keyring
new_keyring-IsKeyring [] r e = absurd (cc)
new_keyring-IsKeyring (key ∷ keys) r e =
    let (s, loaded, done) = bind-ok (load_keys start (key ∷ keys)) finish r e in
    finish-IsKeyring s (key ∷ keys) r (load_keys-Extends start s (key ∷ keys) start-IsLoaded loaded)
      done
