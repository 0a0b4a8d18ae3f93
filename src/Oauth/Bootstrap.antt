-- ===== src/Oauth/Bootstrap.antt =====
-- `BootstrapServer` of internal/oauth/bootstrap.go: a user's InvenTree credential is exchanged for an envelope
-- with a new dedicated token. The broker, the id generator, the request's context, the clocks and the random
-- source answer from a world that may change in any way. Log lines and headers of responses are left out.
pub mod Header
pub mod Issuing
pub mod Sealing
pub mod Attempts
use Prim.Native.Char.{Char, code}
use Prim.Native.String.{◌++◌ as ◌⧺◌}
use inventree_mcp.Prelude.{
  ℕ, zero, suc, String, Option, none, some, List, ◌∷◌, ◌++◌, Bool, true, false, ◌==◌, ◌||◌, not,
  eqb, leb, ltb, if◌then◌else◌, ℤ, pos, add_duration, Result, ok, err,
}
use inventree_mcp.Text.{trim_space, split_first}
use inventree_mcp.Oauth.Text.{codes}
use inventree_mcp.Oauth.Keyring.{Keyring}
use inventree_mcp.Oauth.Envelope.{AssociatedData, Crypto, Json, seal_token}
use inventree_mcp.Oauth.Claims.{
  Credential, TokenClaims, validate_for_envelope, token_type_bootstrap_access,
}
use inventree_mcp.Oauth.RateLimiter.{Limiter, allow}
use inventree_mcp.Oauth.Service.{default_duration}

abbrev pub bootstrap_request_max_bytes : ℕ
bootstrap_request_max_bytes = 4096

abbrev pub max_bootstrap_auth_header_bytes : ℕ
max_bootstrap_auth_header_bytes = 8192

abbrev pub max_dedicated_token_attempts : ℕ
max_dedicated_token_attempts = 3

-- Thirty days, in nanoseconds.
abbrev pub default_bootstrap_envelope_lifetime : ℤ
default_bootstrap_envelope_lifetime = pos 2592000000000000

-- What a request brings: a body that cannot be read is an error, else its length.
pub record Request : Type 0 where
  pub method : String
  pub path : String
  pub source_ip : Option String
  pub remote_addr : String
  pub body : Result String ℕ
  pub authorization : String

pub data Response : Type 0 where
  method_not_allowed too_many_attempts invalid_request credential_rejected token_unavailable
        bootstrap_unavailable :
      Response
  issued : (token expires_at : String) → Response

-- Functions of Go's packages: `len` of a text in bytes, `strings.EqualFold`, the host of
-- `net.SplitHostPort`, SHA-256 in base64url, and `UTC().Format(time.RFC3339)` of an instant.
pub record Library : Type 0 where
  pub byte_length : String → ℕ
  pub equal_fold : String → String → Bool
  pub split_host : String → Option String
  pub sha256_base64 : List ℕ → String
  pub format_rfc3339 : ℕ → String

-- What the server calls, and reads from outside. `context_error` is `ctx.Err()`.
pub record Upstream (W : Type 0) : Type 0 where
  pub validate_credential : Credential → W → Result String String × W
  pub create_dedicated_credential : Credential → String → W → Result String Credential × W
  pub new_id : W → Result String String × W
  pub context_error : W → Option String × W
  pub now : W → ℕ × W
  pub limiter_now : W → ℕ × W
  pub random_nonce : W → Result String (List ℕ) × W

pub record BootstrapServer : Type 0 where
  pub issuer : String
  pub resource : String
  pub crypto : Crypto
  pub token_json : Json TokenClaims
  pub ring : Keyring
  pub scopes : List String
  pub envelope_lifetime : ℤ

abbrev pub dedicated_bootstrap_token_name : String → String
dedicated_bootstrap_token_name random = "inventree-mcp-static-" ⧺ random

abbrev pub is_blank : Char → Bool
is_blank c = eqb (code c) 32

module _ (lib : Library) where
  -- the dispatch on the scheme
  abbrev pub credential_of : (scheme value : String) → Option Credential
  credential_of scheme value =
      if lib.equal_fold scheme "Basic"
      then some (record { scheme = "Basic"; token = value })
      else if lib.equal_fold scheme "Token"
      then some (record { scheme = "Token"; token = value })
      else if lib.equal_fold scheme "Bearer"
      then some (record { scheme = "Bearer"; token = value })
      else none

  -- `strings.Cut(header, " ")` and what follows
  abbrev pub cut : String × Option String → Option Credential
  cut (scheme, none) = none
  cut (scheme, some value) = credential_of scheme (trim_space value)

  abbrev pub parse_trimmed : String → Option Credential
  parse_trimmed header =
      if header == "" || ltb max_bootstrap_auth_header_bytes (lib.byte_length header)
      then none
      else cut (split_first is_blank header)

  -- `parseBootstrapAuthorization`; its one error is `none`
  abbrev pub parse_bootstrap_authorization : String → Option Credential
  parse_bootstrap_authorization header = parse_trimmed (trim_space header)

  abbrev pub remote_host : Option String → String → String
  remote_host (some host) addr = host
  remote_host none addr = if not (addr == "") then addr else "unknown"

  abbrev pub host_of : Option String → String → String
  host_of (some ip) addr = ip
  host_of none addr = remote_host (lib.split_host addr) addr

  -- the key of `allow`
  abbrev pub ip_key : Request → String
  ip_key req = req.path ⧺ ("\0ip:" ⧺ host_of req.source_ip req.remote_addr)

  -- the key of `allowCredential`
  abbrev pub credential_key : Credential → String
  credential_key c = "credential:" ⧺ lib.sha256_base64 (codes c.scheme ++ (0 ∷ codes c.token))

-- `io.Copy` from the reader of at most so many bytes
abbrev pub reads_body : Result String ℕ → Bool
reads_body (err e) = false
reads_body (ok n) = leb n bootstrap_request_max_bytes

module _ (server : BootstrapServer) where
  abbrev pub associated_data : AssociatedData
  associated_data = record {
    issuer = server.issuer;
    audience = server.resource;
    client_id = "";
    kind = token_type_bootstrap_access;
  }

  abbrev pub expiry : ℕ → ℕ
  expiry now =
      add_duration now
        (default_duration server.envelope_lifetime default_bootstrap_envelope_lifetime)

  abbrev pub bootstrap_claims : String → Credential → ℕ → TokenClaims
  bootstrap_claims subject dedicated now = record {
    kind = token_type_bootstrap_access;
    issuer = server.issuer;
    audience = server.resource;
    subject = subject;
    client_id = "";
    scopes = server.scopes;
    issued_at = now;
    expires_at = expiry now;
    session_expires_at = expiry now;
    credential = dedicated;
    credential_source = "dedicated_token";
  }

module _ {W : Type 0} (up : Upstream W) where
  -- The loop of `createDedicatedCredential`, with the attempts that are left.
  unfoldable pub create_dedicated :
      ℕ → (last : String) → Credential → W → Result String Credential × W
  create_dedicated zero last credential w = (err last, w)
  create_dedicated (suc left) last credential w =
      let (done, w₁) = up.context_error w in
      elim done [
        | some e ↦ (err e, w₁)
        | none ↦
            let (drawn, w₂) = up.new_id w₁ in
            elim drawn [
              | err e ↦ (err e, w₂)
              | ok name ↦
                  let (made, w₃) =
                    up.create_dedicated_credential credential (dedicated_bootstrap_token_name name)
                      w₂ in
                  elim made [
                    | ok dedicated ↦ (ok dedicated, w₃)
                    | err e ↦ create_dedicated left e credential w₃
                  ]
            ]
      ]

  -- `RequestRateLimiter.Allow`; a nil limiter allows
  abbrev pub admit : Option Limiter → String → W → Bool × Option Limiter × W
  admit none key w = (true, none, w)
  admit (some l) key w =
      let (t, w') = up.limiter_now w in ((allow (some l) t key).0, (allow (some l) t key).1, w')

  module _ (server : BootstrapServer) (lib : Library) where
    -- `handleBootstrap` from the new token on
    unfoldable pub seal_dedicated : String → Credential → W → Response × W
    seal_dedicated subject dedicated w = elim (validate_for_envelope dedicated) [
      | err e ↦ (token_unavailable, w)
      | ok _ ↦
          let (now, w₁) = up.now w in
          let (draw, w₂) = up.random_nonce w₁ in
          elim (seal_token server.crypto server.token_json server.ring draw (associated_data server)
            (bootstrap_claims server subject dedicated now)) [
              | err e ↦ (bootstrap_unavailable, w₂)
              | ok token ↦ (issued token (lib.format_rfc3339 (expiry server now)), w₂)
            ]
    ]

    -- `handleBootstrap` from the credential on
    unfoldable pub exchange_credential : Credential → W → Response × W
    exchange_credential credential w =
        let (validated, w₁) = up.validate_credential credential w in
        elim validated [
          | err e ↦ (credential_rejected, w₁)
          | ok subject ↦
              let (made, w₂) = create_dedicated max_dedicated_token_attempts "" credential w₁ in
              elim made [
                | err e ↦ (token_unavailable, w₂)
                | ok dedicated ↦ seal_dedicated subject dedicated w₂
              ]
        ]

    -- `handleBootstrap` after the first test of the limiter
    abbrev pub handle_admitted : Request → Bool × Option Limiter × W → Response × Option Limiter × W
    handle_admitted req (passed, lim, w) =
        if not passed
        then (too_many_attempts, lim, w)
        else if not (reads_body req.body)
        then (invalid_request, lim, w)
        else elim (parse_bootstrap_authorization lib req.authorization) [
          | none ↦ (invalid_request, lim, w)
          | some credential ↦
              let (allowed, lim', w') = admit lim (credential_key lib credential) w in
              if not allowed then (too_many_attempts, lim', w') else (
                (exchange_credential credential w').0,
                lim',
                (exchange_credential credential w').1,
              )
        ]

    unfoldable pub handle_bootstrap : Option Limiter → Request → W → Response × Option Limiter × W
    handle_bootstrap lim req w =
        if not (req.method == "POST")
        then (method_not_allowed, lim, w)
        else handle_admitted req (admit lim (ip_key lib req) w)
