-- ===== src/Oauth/Envelope.antt =====
-- `EnvelopeCodec` of internal/oauth/envelope.go: `Seal` and `Open` of token envelopes.
-- The cipher (crypto/aes with crypto/cipher's GCM), encoding/base64 and encoding/json are not code
-- of the repository: they are parameters, with the laws that their documentation states.
-- Bytes are numbers; what `random` fills the nonce with is an argument.
pub mod Opening
use inventree_mcp.Prelude.{
  ℕ, ◌<◌, ◌≡◌, ◌≢◌, String, Option, none, some, List, [], ◌∷◌, ◌++◌, Bool, true, false, ◌==◌, ltb,
  not, ◌||◌, if◌then◌else◌, length, Result, ok, err, ◌>>=◌, ensure, ◌>>◌, or_fail,
}
use inventree_mcp.GoMap.{get}
use inventree_mcp.Oauth.CodeStore
use inventree_mcp.Oauth.Text.{split_dots, join_dots, codes}
use inventree_mcp.Oauth.Text.Laws.{HasNoDot}
use inventree_mcp.Oauth.Keyring.{Key, Keyring}

pub record AssociatedData : Type 0 where
  pub issuer : String
  pub audience : String
  pub client_id : String
  pub kind : String

-- An error that is passed on from a library keeps its text.
pub data Error : Type 0 where
  invalid_client_metadata invalid_token invalid_code : Error
  message : String → Error
  code_store : CodeStore.Error → Error

-- `keyAEAD` and the two methods of `cipher.AEAD`, and `base64.RawURLEncoding`.
pub record Crypto : Type 0 where
  pub new_cipher : List ℕ → Option String
  pub seal : (key nonce plaintext associated : List ℕ) → List ℕ
  pub open_sealed : (key nonce ciphertext associated : List ℕ) → Option (List ℕ)
  pub encode : List ℕ → String
  pub decode : String → Option (List ℕ)

-- What the documentation of those packages states.
pub record IsDocumented (c : Crypto) : Type 0 where
  -- AES takes keys of 32 bytes
  pub accepts : (key : List ℕ) → length key ≡ 32 → c.new_cipher key ≡ none
  -- `Open` decrypts what `Seal` made, whose tag makes it longer than the plaintext
  pub opens :
      (key nonce plain aad : List ℕ)
      → c.open_sealed key nonce (c.seal key nonce plain aad) aad ≡ some plain
  pub tagged : (key nonce plain aad : List ℕ) → 0 < length (c.seal key nonce plain aad)
  -- `Open` authenticates the associated data
  pub authenticates :
      (key nonce plain aad other : List ℕ)
      → aad ≢ other
      → c.open_sealed key nonce (c.seal key nonce plain aad) other ≡ none
  -- base64url is decoded to what was encoded, and has no dot in its alphabet
  pub decodes : (bytes : List ℕ) → c.decode (c.encode bytes) ≡ some bytes
  pub no_dot : (bytes : List ℕ) → HasNoDot (c.encode bytes)

-- `json.Marshal` and `json.Unmarshal` at one type of claims.
pub record Json (C : Type 0) : Type 0 where
  pub marshal : C → Result String (List ℕ)
  pub unmarshal : List ℕ → Option C
  pub unmarshals :
      (claims : C) (bytes : List ℕ) → marshal claims ≡ ok bytes → unmarshal bytes ≡ some claims

abbrev pub token_prefix : String
token_prefix = "mcp1"

abbrev pub nonce_bytes : ℕ
nonce_bytes = 12

-- `associatedDataBytes`
unfoldable pub associated_data_bytes : AssociatedData → List ℕ
associated_data_bytes aad =
    codes aad.issuer
    ++ (0 ∷ (codes aad.audience ++ (0 ∷ (codes aad.client_id ++ (0 ∷ codes aad.kind)))))

-- `payload[:n]` and `payload[n:]`
abbrev pub take : {A : Type 0} → ℕ → List A → List A
take n [] = []
take ℕ.zero (x ∷ xs) = []
take (ℕ.suc n) (x ∷ xs) = x ∷ take n xs

abbrev pub drop : {A : Type 0} → ℕ → List A → List A
drop n [] = []
drop ℕ.zero (x ∷ xs) = x ∷ xs
drop (ℕ.suc n) (x ∷ xs) = drop n xs

abbrev pub checked : Option String → Result Error (Unit {0})
checked none = ok tt
checked (some e) = err (message e)

abbrev pub passed_on : {A : Type 0} → Result String A → Result Error A
passed_on (ok a) = ok a
passed_on (err e) = err (message e)

abbrev pub required : {A : Type 0} → Option A → Error → Result Error A
required (some a) e = ok a
required none e = err e

-- `len(parts) != 3 || parts[0] != tokenPrefix`: the other two parts
abbrev pub token_parts : List String → Option (String × String)
token_parts (prefix ∷ id ∷ body ∷ []) = if prefix == token_prefix then some (id, body) else none
token_parts _ = none

module _ (c : Crypto) where
  module _ {C : Type 0} (j : Json C) where
    unfoldable pub seal_token :
        Keyring → Result String (List ℕ) → AssociatedData → C → Result Error String
    seal_token r draw aad claims =
        checked (c.new_cipher r.active.material)
        >> (passed_on draw >>= λ nonce. passed_on (j.marshal claims) >>= λ plaintext. ok (
            join_dots (
              token_prefix
              ∷ r.active.id
              ∷ c.encode
                  (nonce ++ c.seal r.active.material nonce plaintext (associated_data_bytes aad))
              ∷ [])))

    unfoldable pub open_token : Keyring → String → AssociatedData → Result Error C
    open_token r token aad = do
      parts ← required (token_parts (split_dots token)) invalid_token
      key ← required (get parts.0 r.keys) invalid_token
      payload ← required (c.decode parts.1) invalid_token
      _ ← ensure (ltb nonce_bytes (length payload)) invalid_token
      _ ← checked (c.new_cipher key.material)
      plaintext ←
          required
            (c.open_sealed key.material (take nonce_bytes payload) (drop nonce_bytes payload)
              (associated_data_bytes aad))
            invalid_token
      required (j.unmarshal plaintext) invalid_token
