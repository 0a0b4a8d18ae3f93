-- ===== src/Oauth/TokenTests.antt =====
-- The theorems about keyrings, envelopes and the token service of internal/oauth at concrete inputs.
use inventree_mcp.Prelude.{
  ℕ, ◌<◌, ◌≡◌, ◌≢◌, refl, ap, arith, String, Option, none, some, List, [], ◌∷◌, true, false, ◌==◌,
  All, eq_iff, Result, ok, err, pos, replicate, inl, inr,
}
use inventree_mcp.GoMap.{get, put, delete, retain}
use inventree_mcp.Oauth.CodeStore
use inventree_mcp.Oauth.CodeStore.{CodeStore}
use inventree_mcp.Oauth.CodeStore.Redeeming
use inventree_mcp.Oauth.Text.{split_dots}
use inventree_mcp.Oauth.Keyring.{Key, Keyring, load_keys, new_keyring}
use inventree_mcp.Oauth.Envelope.{
  AssociatedData, Error, invalid_token, associated_data_bytes, seal_token, open_token, Json,
}
use inventree_mcp.Oauth.Envelope.Opening.{IsClean, seal-open, seal-open_other}
use inventree_mcp.Oauth.Claims.{
  TokenClaims, AuthorizationCodeClaims, validate_for_envelope, validate_token, validate_code,
}
use inventree_mcp.Oauth.Samples.{plain_crypto, plain_crypto-IsDocumented, unsealed, written, read}
use inventree_mcp.Oauth.Samples.Claims.{
  sample_json, same_token, same_token_sound, same_code, same_code_sound, place,
}
use inventree_mcp.Oauth.Service.{
  Service, TokenPair, AuthorizationRequest, aad_of, issue_pair, issue_authorization_code,
  exchange_authorization_code, refresh, verify_access_token,
}
use inventree_mcp.Oauth.Service.Lifetime.{
  KeepsSession, Round, refresh_all, refresh_all-KeepsSession,
}
use inventree_mcp.Oauth.Service.{typed, aad_of_request}
use inventree_mcp.Oauth.Service.Exchange.{
  Attempt, exchange, Honours, exchange_once, exchange-Honours,
}
use inventree_mcp.Oauth.Service.Kinds.{refresh_not_access}

program : Unit {0}
unfolding get put delete retain CodeStore.store CodeStore.consume split_dots load_keys new_keyring
    associated_data_bytes seal_token open_token validate_for_envelope validate_token validate_code
    unsealed written read place issue_pair issue_authorization_code exchange_authorization_code
    refresh verify_access_token refresh_all
program = tt

abbrev key : Key
key = record { id = "k1"; material = replicate 32 7; state = "active" }

abbrev other_key : Key
other_key = record { id = "k2"; material = replicate 32 8; state = "active" }

abbrev keys : List Key
keys = key ∷ []

abbrev rotated : List Key
rotated = other_key ∷ (record key { state = "decrypt_only" }) ∷ []

abbrev ring : Keyring
ring = record { keys = ("k1", key) ∷ []; active = key }

abbrev rotated_ring : Keyring
rotated_ring = record {
  keys = ("k1", record key { state = "decrypt_only" }) ∷ ("k2", other_key) ∷ [];
  active = other_key;
}

ring_lem : new_keyring keys ≡ ok ring
unfolding program
ring_lem = refl

rotated_lem : new_keyring rotated ≡ ok rotated_ring
unfolding program
rotated_lem = refl

abbrev nonce : List ℕ
nonce = replicate 12 0

abbrev base : TokenClaims
base = record {
  kind = "";
  issuer = "i";
  audience = "a";
  subject = "u";
  client_id = "c";
  scopes = "r" ∷ [];
  issued_at = 0;
  expires_at = 0;
  session_expires_at = 0;
  credential = record { scheme = "Token"; token = "t" };
  credential_source = "dedicated_token";
}

abbrev claimed : String → (now expires : ℕ) → TokenClaims
claimed kind now expires = record base {
  kind = kind;
  issued_at = now;
  expires_at = expires;
  session_expires_at = 1000;
}

abbrev token_json : Json TokenClaims
token_json = sample_json same_token same_token_sound (
    claimed "access" 100 150
    ∷ claimed "refresh" 100 600
    ∷ claimed "access" 200 250
    ∷ claimed "refresh" 200 700
    ∷ [])

abbrev request : AuthorizationRequest
request = record {
  issuer = "i";
  audience = "a";
  subject = "u";
  client_id = "c";
  redirect_uri = "w";
  pkce_challenge = "v";
  scopes = "r" ∷ [];
  credential = record { scheme = "Token"; token = "t" };
  credential_source = "dedicated_token";
}

abbrev code_opened : AuthorizationCodeClaims
code_opened = record {
  kind = "authorization_code";
  code_id = "z";
  issuer = "i";
  audience = "a";
  subject = "u";
  client_id = "c";
  redirect_uri = "w";
  pkce_challenge = "v";
  pkce_challenge_method = "S256";
  scopes = "r" ∷ [];
  issued_at = 50;
  expires_at = 90;
  credential = record { scheme = "Token"; token = "t" };
  credential_source = "dedicated_token";
}

abbrev code_json : Json AuthorizationCodeClaims
code_json = sample_json same_code same_code_sound (code_opened ∷ [])

-- The challenge of a verifier is the verifier itself.
abbrev service : Service
service = record {
  crypto = plain_crypto;
  token_json = token_json;
  code_json = code_json;
  s256 = λ verifier. verifier;
  keyring = ring;
  access_lifetime = pos 50;
  refresh_lifetime = pos 500;
  session_lifetime = pos 930;
  code_lifetime = pos 40;
}

abbrev no_pair : TokenPair
no_pair = record {
  access_token = "";
  refresh_token = "";
  scopes = [];
  access_expires_at = 0;
  refresh_expires_at = 0;
  session_expires_at = 0;
  credential_source = "";
}

abbrev pair_of : Result Error TokenPair → TokenPair
pair_of r = elim r [ ok p ↦ p | err _ ↦ no_pair ]

pair : TokenPair
unfolding program
pair = pair_of (issue_pair service 100 (ok nonce) (ok nonce) base 1000)

pair_lem : issue_pair service 100 (ok nonce) (ok nonce) base 1000 ≡ ok pair
unfolding program pair
pair_lem = refl

named : base.subject ≢ ""
named h = ground (arith, h, eq_iff base.subject "")

fit : validate_for_envelope base.credential ≡ ok tt
unfolding program
fit = refl

refresh_early : 200 < pair.refresh_expires_at
unfolding program pair
refresh_early = omega arith

abbrev rounds : List Round
rounds = record { now = 200; issued = 200; access_nonce = nonce; nonce = nonce } ∷ []

next : TokenPair
unfolding program pair
next = pair_of (refresh_all service none (aad_of base "") pair rounds)

next_lem : refresh_all service none (aad_of base "") pair rounds ≡ ok next
unfolding program pair next
next_lem = refl

refresh_all-KeepsSession_example : KeepsSession service next base 1000
refresh_all-KeepsSession_example =
    refresh_all-KeepsSession service plain_crypto-IsDocumented keys ring_lem 100 nonce nonce base
      1000 pair next none "" rounds refl refl ((refl, refl), tt) pair_lem next_lem

base-IsClean : IsClean (aad_of base "access")
base-IsClean = record { issuer = refl; audience = refl; client_id = refl }

refresh_not_access_example :
    verify_access_token plain_crypto token_json ring "i" "a" 120 ("c" ∷ []) true pair.refresh_token
    ≡ err invalid_token
refresh_not_access_example =
    refresh_not_access service plain_crypto-IsDocumented keys ring_lem 100 nonce nonce refl refl
      base 1000 pair pair_lem base-IsClean "i" "a" refl refl 120 ("c" ∷ []) true (refl, tt)

access_early : 120 < pair.access_expires_at
unfolding program pair
access_early = omega arith

abbrev text_of : Result Error String → String
text_of r = elim r [ ok t ↦ t | err _ ↦ "" ]

token : String
unfolding program
token = text_of (
    seal_token plain_crypto token_json ring (ok nonce) (aad_of base "access")
      (claimed "access" 100 150))

token_lem :
    seal_token plain_crypto token_json ring
      (ok nonce)
      (aad_of base "access")
      (claimed "access" 100 150)
    ≡ ok token
unfolding program token
token_lem = refl

seal-open_example :
    open_token plain_crypto token_json rotated_ring token (aad_of base "access")
    ≡ ok (claimed "access" 100 150)
seal-open_example =
    seal-open plain_crypto plain_crypto-IsDocumented token_json keys rotated ring rotated_ring
      "decrypt_only" nonce (aad_of base "access") (claimed "access" 100 150) token ring_lem
      rotated_lem (inr (inl refl)) refl token_lem

other_kind : aad_of base "access" ≢ aad_of base "refresh"
other_kind h = ground (arith, ap (λ t. t.kind) h, eq_iff "access" "refresh")

seal-open_other_example :
    open_token plain_crypto token_json ring token (aad_of base "refresh") ≡ err invalid_token
seal-open_other_example =
    seal-open_other plain_crypto plain_crypto-IsDocumented token_json keys ring nonce
      (aad_of base "access") (aad_of base "refresh") (claimed "access" 100 150) token ring_lem refl
      base-IsClean (record { issuer = refl; audience = refl; client_id = refl }) other_kind
      token_lem

abbrev codes : CodeStore
codes = record { entries = []; max = pos 4 }

code : String
unfolding program
code =
    text_of
      (issue_authorization_code service (some codes) (ok tt) (ok "z") 50 50 50 (ok nonce) request).0

abbrev given : Result Error String × Option CodeStore
given = issue_authorization_code service (some codes) (ok tt) (ok "z") 50 50 50 (ok nonce) request

code_lem : given.0 ≡ ok code
unfolding program code
code_lem = refl

abbrev holding : CodeStore
holding = record { entries = ("z", 90) ∷ []; max = pos 4 }

holding_lem : given.1 ≡ some holding
unfolding program
holding_lem = refl

holding-IsValid : Redeeming.IsValid holding
unfolding program
holding-IsValid = record { distinct = (refl, tt); positive = refl; bounded = omega arith }

abbrev right : Attempt
right = record {
  redirect_uri = "w";
  verifier = "v";
  now = 70;
  purged = 70;
  checked = 70;
  at = 70;
  issued = 100;
  draw = ok nonce;
  draw' = ok nonce;
}

abbrev asked : AssociatedData
asked = record { issuer = "i"; audience = "a"; client_id = "c"; kind = "" }

exchanged : TokenPair
unfolding program code
exchanged = pair_of (exchange service (some holding) code asked right).0

exchanged_lem : (exchange service (some holding) code asked right).0 ≡ ok exchanged
unfolding program code exchanged
exchanged_lem = refl

abbrev emptied : CodeStore
emptied = record { entries = []; max = pos 4 }

emptied_lem : exchange service (some holding) code asked right ≡ (ok exchanged, some emptied)
unfolding program code exchanged
emptied_lem = refl

opened_lem :
    open_token plain_crypto code_json ring code (typed asked "authorization_code") ≡ ok code_opened
unfolding program code
opened_lem = refl

abbrev between : List Redeeming.Op
between = Redeeming.storing 71 71 "y" 200 ∷ Redeeming.redeeming 72 72 "z" ∷ []

other_id : ("y" == "z") ≡ false
other_id = refl

between_other : All (λ o. Redeeming.is_storing "z" o ≡ false) between
between_other = (other_id, (refl, tt))

exchange_once_example :
    (exchange service (some (Redeeming.run emptied between).0) code asked right).0 ≢ ok exchanged
exchange_once_example =
    exchange_once service holding emptied code asked right right exchanged exchanged code_opened
      between holding-IsValid opened_lem emptied_lem between_other

request-IsClean : IsClean (aad_of_request service request)
request-IsClean = record { issuer = refl; audience = refl; client_id = refl }

asked-IsClean : IsClean asked
asked-IsClean = record { issuer = refl; audience = refl; client_id = refl }

exchange-Honours_example : Honours service request 50 asked right exchanged
exchange-Honours_example =
    exchange-Honours service plain_crypto-IsDocumented keys ring_lem codes (ok tt) (ok "z") 50 50 50
      nonce refl request code code_lem holding asked right exchanged request-IsClean asked-IsClean
      exchanged_lem

other-IsClean : IsClean (record asked { client_id = "d" })
other-IsClean = record { issuer = refl; audience = refl; client_id = refl }

other_client :
    typed (record asked { client_id = "d" }) "authorization_code" ≢ aad_of_request service request
other_client h = ground (arith, ap (λ t. t.client_id) h, eq_iff "d" "c")
