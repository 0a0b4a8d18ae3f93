-- ===== src/Oauth/BootstrapTests.antt =====
-- The theorems about the bootstrap endpoint of internal/oauth/bootstrap.go at concrete inputs.
use inventree_mcp.Prelude.{
  ℕ, zero, suc, ◌≡◌, ◌⊎◌, refl, String, Option, none, some, List, [], ◌∷◌, true, false, ◌==◌,
  length, Result, ok, err, pos, replicate, if◌then◌else◌, eqb, ◌||◌, ap, sym, ok_unique,
}
use inventree_mcp.GoMap.{get, put, delete, retain}
use inventree_mcp.Text.{trim_left, trim_right, split_first}
use inventree_mcp.Oauth.Text.{split_dots}
use inventree_mcp.Oauth.Keyring.{Key, Keyring, load_keys, new_keyring}
use inventree_mcp.Oauth.Envelope.{associated_data_bytes, seal_token, open_token, Json}
use inventree_mcp.Oauth.Claims.{Credential, TokenClaims, validate, validate_for_envelope}
use inventree_mcp.Oauth.RateLimiter.{Limiter, new_limiter, allow}
use inventree_mcp.Oauth.Samples.{plain_crypto, plain_crypto-IsDocumented, unsealed, written, read}
use inventree_mcp.Oauth.Samples.Claims.{sample_json, same_token, same_token_sound, place}
use inventree_mcp.Oauth.Bootstrap.{
  Library, Upstream, BootstrapServer, Request, Response, issued, associated_data,
  parse_bootstrap_authorization, ip_key, credential_key, admit, create_dedicated, seal_dedicated,
  exchange_credential, handle_bootstrap, max_dedicated_token_attempts,
}
use inventree_mcp.Oauth.Bootstrap.Header.{parse_bootstrap_authorization-validate}
use inventree_mcp.Oauth.Bootstrap.Issuing.{MadeFor}
use inventree_mcp.Oauth.Bootstrap.Sealing.{handle_bootstrap-open}
use inventree_mcp.Oauth.Bootstrap.Attempts.{
  recording, validated, created, Creations, handle_bootstrap-Creations,
}

program : Unit {0}
unfolding get put delete retain split_dots load_keys new_keyring associated_data_bytes seal_token
    open_token validate_for_envelope unsealed written read place trim_left trim_right split_first
    new_limiter allow create_dedicated seal_dedicated exchange_credential handle_bootstrap
program = tt

abbrev key : Key
key = record { id = "k1"; material = replicate 32 7; state = "active" }

abbrev ring : Keyring
ring = record { keys = ("k1", key) ∷ []; active = key }

ring_lem : new_keyring (key ∷ []) ≡ ok ring
unfolding program
ring_lem = refl

abbrev lib : Library
lib = record {
  byte_length = λ s. 20;
  equal_fold = λ s t. s == t || s == "basic";
  split_host = λ s. none;
  sha256_base64 = λ bytes. "digest";
  format_rfc3339 = λ t. if eqb t 150 then "1970-01-01T00:00:00Z" else "";
}

abbrev fresh : Credential
fresh = record { scheme = "Token"; token = "fresh" }

abbrev claims : TokenClaims
claims = record {
  kind = "bootstrap_access";
  issuer = "i";
  audience = "a";
  subject = "alice";
  client_id = "";
  scopes = "r" ∷ [];
  issued_at = 100;
  expires_at = 150;
  session_expires_at = 150;
  credential = fresh;
  credential_source = "dedicated_token";
}

abbrev token_json : Json TokenClaims
token_json = sample_json same_token same_token_sound (claims ∷ [])

abbrev server : BootstrapServer
server = record {
  issuer = "i";
  resource = "a";
  crypto = plain_crypto;
  token_json = token_json;
  ring = ring;
  scopes = "r" ∷ [];
  envelope_lifetime = pos 50;
}

abbrev made_at : ℕ → Result String Credential
made_at zero = err "busy"
made_at (suc n) = ok fresh

-- The world counts the requests for a dedicated token; the first fails.
abbrev up : Upstream ℕ
up = record {
  validate_credential = λ c w. (ok "alice", w);
  create_dedicated_credential = λ c name w. (made_at w, suc w);
  new_id = λ w. (ok "x", w);
  context_error = λ w. (none, w);
  now = λ w. (100, w);
  limiter_now = λ w. (5, w);
  random_nonce = λ w. (ok (replicate 12 0), w);
}

abbrev limiter : Option Limiter
limiter = some (new_limiter (pos 3) (pos 1000))

abbrev req : Request
req = record {
  method = "POST";
  path = "/bootstrap";
  source_ip = some "192.0.2.1";
  remote_addr = "";
  body = ok 0;
  authorization = " Basic  dTpw ";
}

abbrev basic : Credential
basic = record { scheme = "Basic"; token = "dTpw" }

header_lem : parse_bootstrap_authorization lib " Basic  dTpw " ≡ some basic
unfolding program
header_lem = refl

parse_bootstrap_authorization-validate_example : validate basic ≡ ok tt
parse_bootstrap_authorization-validate_example =
    parse_bootstrap_authorization-validate lib " Basic  dTpw " basic header_lem

asked_twice :
    (handle_bootstrap (recording up) server lib limiter req (0, [])).2.1
    ≡ created basic "inventree-mcp-static-x"
      ∷ created basic "inventree-mcp-static-x"
      ∷ validated basic
      ∷ []
unfolding program
asked_twice = refl

handle_bootstrap-Creations_example :
    let first = admit (recording up) limiter (ip_key lib req) (0, []) in
    ((handle_bootstrap (recording up) server lib limiter req (0, [])).2.1 ≡ [])
    ⊎ ((credential : Credential) × (parse_bootstrap_authorization lib req.authorization
          ≡ some credential)
        × (first.0 ≡ true)
        × ((admit (recording up) first.1 (credential_key lib credential) first.2).0 ≡ true)
        × Creations credential max_dedicated_token_attempts
            (validated credential ∷ [])
            (handle_bootstrap (recording up) server lib limiter req (0, [])).2.1)
handle_bootstrap-Creations_example = handle_bootstrap-Creations up server lib limiter req 0

abbrev token_of : Response → String
token_of (issued token e) = token
token_of _ = ""

abbrev token : String
unfolding program
token = token_of (handle_bootstrap up server lib limiter req 0).0

issued_lem : (handle_bootstrap up server lib limiter req 0).0 ≡ issued token "1970-01-01T00:00:00Z"
unfolding program token
issued_lem = refl

twelve : (v : ℕ) (nonce : List ℕ) → (up.random_nonce v).0 ≡ ok nonce → length nonce ≡ 12
twelve v nonce h = ap length (sym (ok_unique {E = String} _ _ nonce refl h))

handle_bootstrap-open_example :
    (c : TokenClaims) × (open_token plain_crypto token_json ring token (associated_data server)
      ≡ ok c)
    × (c.kind ≡ "bootstrap_access")
    × (lib.format_rfc3339 c.expires_at ≡ "1970-01-01T00:00:00Z")
    × ((c.credential.scheme == "Basic") ≡ false)
    × ((credential : Credential) × (v : ℕ) × (parse_bootstrap_authorization lib req.authorization
          ≡ some credential)
        × ((up.validate_credential credential v).0 ≡ ok c.subject)
        × MadeFor up credential c.credential)
handle_bootstrap-open_example =
    handle_bootstrap-open up server lib plain_crypto-IsDocumented (key ∷ []) limiter req 0 token
      "1970-01-01T00:00:00Z" ring_lem twelve issued_lem
