-- ===== src/Oauth/Keyring.antt =====
-- `Key`, `Keyring` and `NewKeyring` of internal/oauth/envelope.go.
pub mod Loading
use inventree_mcp.Prelude.{
  ℕ, String, Option, none, some, List, [], ◌∷◌, Bool, ◌==◌, eqb, not, if◌then◌else◌, length, Result,
  ok, err, ◌>>=◌, ensure, ◌>>◌,
}
use inventree_mcp.GoMap.{Assoc, get, put}
use inventree_mcp.Oauth.CodeStore.{exists}
use inventree_mcp.Oauth.Text.{is_separator, contains}

pub record Key : Type 0 where
  pub id : String
  pub material : List ℕ
  pub state : String

abbrev pub key_state_active : String
key_state_active = "active"

abbrev pub key_state_decrypt_only : String
key_state_decrypt_only = "decrypt_only"

-- `keyBytes`
abbrev pub key_bytes : ℕ
key_bytes = 32

pub record Keyring : Type 0 where
  pub keys : Assoc Key
  pub active : Key

-- The errors of `NewKeyring`, with the id where the message has it.
pub data Error : Type 0 where
  no_keys id_required not_one_active : Error
  unsupported_characters wrong_length duplicated : String → Error
  unsupported_state : String → String → Error

-- `keyMap` and `active` in the loop
pub record Loaded : Type 0 where
  pub key_map : Assoc Key
  pub active : Option Key

-- the `switch` on the key's state: the new `active`
abbrev pub activate : Option Key → Key → Result Error (Option Key)
activate active key =
    if key.state == key_state_active
    then (if exists active then err not_one_active else ok (some key))
    else if key.state == key_state_decrypt_only
    then ok active
    else err (unsupported_state key.id key.state)

-- one round of the loop
pub load_key : Loaded → Key → Result Error Loaded
load_key s key =
    ensure (not (key.id == "")) id_required
    >> (ensure (not (contains is_separator key.id)) (unsupported_characters key.id)
        >> (ensure (eqb (length key.material) key_bytes) (wrong_length key.id)
            >> (ensure (not (exists (get key.id s.key_map))) (duplicated key.id)
                >> (activate s.active key >>= λ active.
                    ok (record { key_map = put key.id key s.key_map; active = active })))))

unfoldable pub load_keys : Loaded → List Key → Result Error Loaded
unfolding load_key
load_keys s [] = ok s
load_keys s (key ∷ keys) = load_key s key >>= λ s'. load_keys s' keys

abbrev pub finish : Loaded → Result Error Keyring
finish s = elim s.active [
  | none ↦ err not_one_active
  | some active ↦ ok (record { keys = s.key_map; active = active })
]

unfoldable pub new_keyring : List Key → Result Error Keyring
new_keyring [] = err no_keys
new_keyring (key ∷ keys) =
    load_keys (record { key_map = []; active = none }) (key ∷ keys) >>= finish
