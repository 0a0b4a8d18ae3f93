-- ===== src/Oauth/Service.antt =====
-- `Service` and `AccessTokenVerifier` of internal/oauth/service.go.
-- A method takes what it reads from outside as arguments: each reading of the clock, what the random
-- source and the id generator answer, and whether the client's metadata and the credential are valid.
pub mod Lifetime
pub mod Exchange
pub mod Kinds
use inventree_mcp.Prelude.{
  ℕ, String, Option, none, some, List, [], ◌∷◌, Bool, true, false, ◌==◌, ltb, eqb, not, ◌||◌, ◌&&◌,
  if◌then◌else◌, Result, ok, err, ensure, ◌>>◌, ◌>>=◌, or_fail, ℤ, pos, add_duration,
}
use inventree_mcp.Oauth.CodeStore
use inventree_mcp.Oauth.CodeStore.{CodeStore, store, consume}
use inventree_mcp.Oauth.Keyring.{Keyring}
use inventree_mcp.Oauth.Envelope.{
  AssociatedData, Error, invalid_token, invalid_code, message, code_store, Crypto, Json, seal_token,
  open_token, passed_on,
}
use inventree_mcp.Oauth.Claims.{
  Credential, TokenClaims, AuthorizationCodeClaims, validate_for_envelope, validate_token,
  validate_code, token_type_access, token_type_refresh, token_type_code,
  token_type_bootstrap_access,
}

-- `defaultDuration`
abbrev pub default_duration : ℤ → ℤ → ℤ
default_duration (pos ℕ.zero) fallback = fallback
default_duration value fallback = value

abbrev pub default_access_token_lifetime : ℤ
default_access_token_lifetime = pos 900000000000

abbrev pub default_refresh_token_lifetime : ℤ
default_refresh_token_lifetime = pos 2592000000000000

abbrev pub default_session_lifetime : ℤ
default_session_lifetime = pos 7776000000000000

abbrev pub default_code_lifetime : ℤ
default_code_lifetime = pos 300000000000

-- The configuration that the methods read; the store is their state.
pub record Service : Type 0 where
  pub crypto : Crypto
  pub token_json : Json TokenClaims
  pub code_json : Json AuthorizationCodeClaims
  pub s256 : String → String
  pub keyring : Keyring
  pub access_lifetime : ℤ
  pub refresh_lifetime : ℤ
  pub session_lifetime : ℤ
  pub code_lifetime : ℤ

pub record AuthorizationRequest : Type 0 where
  pub issuer : String
  pub audience : String
  pub subject : String
  pub client_id : String
  pub redirect_uri : String
  pub pkce_challenge : String
  pub scopes : List String
  pub credential : Credential
  pub credential_source : String

pub record TokenPair : Type 0 where
  pub access_token : String
  pub refresh_token : String
  pub scopes : List String
  pub access_expires_at : ℕ
  pub refresh_expires_at : ℕ
  pub session_expires_at : ℕ
  pub credential_source : String

-- what the random source answers when it is asked for a nonce
abbrev pub Draw : Type 0
Draw = Result String (List ℕ)

-- the earlier of two instants
abbrev pub earlier : ℕ → ℕ → ℕ
earlier session t = if ltb session t then session else t

abbrev pub aad_of : TokenClaims → String → AssociatedData
aad_of c kind = record {
  issuer = c.issuer;
  audience = c.audience;
  client_id = c.client_id;
  kind = kind;
}

abbrev pub typed : AssociatedData → String → AssociatedData
typed aad kind = record aad { kind = kind }

module _ (s : Service) where
  abbrev pub access_expiry : (now session : ℕ) → ℕ
  access_expiry now session =
      earlier session
        (add_duration now (default_duration s.access_lifetime default_access_token_lifetime))

  abbrev pub refresh_expiry : (now session : ℕ) → ℕ
  refresh_expiry now session =
      earlier session
        (add_duration now (default_duration s.refresh_lifetime default_refresh_token_lifetime))

  abbrev pub access_claims : TokenClaims → (now session : ℕ) → TokenClaims
  access_claims base now session = record base {
    kind = token_type_access;
    issued_at = now;
    expires_at = access_expiry now session;
    session_expires_at = session;
  }

  abbrev pub refresh_claims : TokenClaims → (now session : ℕ) → TokenClaims
  refresh_claims base now session = record base {
    kind = token_type_refresh;
    issued_at = now;
    expires_at = refresh_expiry now session;
    session_expires_at = session;
  }

  -- `issuePair`
  unfoldable pub issue_pair :
      (now : ℕ) → Draw → Draw → TokenClaims → (session : ℕ) → Result Error TokenPair
  issue_pair now draw draw' base session = do
    access ←
        seal_token s.crypto s.token_json s.keyring draw (aad_of base token_type_access)
          (access_claims base now session)
    refresh ←
        seal_token s.crypto s.token_json s.keyring draw' (aad_of base token_type_refresh)
          (refresh_claims base now session)
    ok (record {
      access_token = access;
      refresh_token = refresh;
      scopes = base.scopes;
      access_expires_at = access_expiry now session;
      refresh_expires_at = refresh_expiry now session;
      session_expires_at = session;
      credential_source = base.credential_source;
    })

  -- The claims that are carried over; the other fields are Go's zero values.
  abbrev pub base_of_code : AuthorizationCodeClaims → TokenClaims
  base_of_code c = record {
    kind = "";
    issuer = c.issuer;
    audience = c.audience;
    subject = c.subject;
    client_id = c.client_id;
    scopes = c.scopes;
    issued_at = 0;
    expires_at = 0;
    session_expires_at = 0;
    credential = c.credential;
    credential_source = c.credential_source;
  }

  abbrev pub base_of_token : TokenClaims → TokenClaims
  base_of_token c = record c { kind = ""; issued_at = 0; expires_at = 0; session_expires_at = 0 }

  abbrev pub code_claims : AuthorizationRequest → String → (now : ℕ) → AuthorizationCodeClaims
  code_claims req id now = record {
    kind = token_type_code;
    code_id = id;
    issuer = req.issuer;
    audience = req.audience;
    subject = req.subject;
    client_id = req.client_id;
    redirect_uri = req.redirect_uri;
    pkce_challenge = req.pkce_challenge;
    pkce_challenge_method = "S256";
    scopes = req.scopes;
    issued_at = now;
    expires_at = add_duration now (default_duration s.code_lifetime default_code_lifetime);
    credential = req.credential;
    credential_source = req.credential_source;
  }

  abbrev pub aad_of_request : AuthorizationRequest → AssociatedData
  aad_of_request req = record {
    issuer = req.issuer;
    audience = req.audience;
    client_id = req.client_id;
    kind = token_type_code;
  }

  abbrev pub stored : Result CodeStore.Error (Unit {0}) → String → Result Error String
  stored (ok _) code = ok code
  stored (err e) code = err (code_store e)

  -- `IssueAuthorizationCode` before it stores the code's id
  pub prepare_code :
      Bool
      → Result Error (Unit {0})
      → Result String String
      → (now : ℕ) → Draw
      → AuthorizationRequest
      → Result Error (String × String)
  prepare_code has_store metadata drawn_id now draw req =
      ensure
        (not
          (req.issuer == "" || req.audience == "" || req.subject == "" || req.pkce_challenge == ""))
        (message "authorization request is incomplete")
      >> (validate_for_envelope req.credential
          >> (metadata
              >> (ensure has_store (message "authorization code store is required")
                  >> (passed_on drawn_id >>= λ id.
                      seal_token s.crypto s.code_json s.keyring draw (aad_of_request req)
                        (code_claims req id now)
                      >>= λ code. ok (id, code)))))

  unfoldable pub issue_authorization_code :
      Option CodeStore
      → Result Error (Unit {0})
      → Result String String
      → (now purged checked : ℕ) → Draw
      → AuthorizationRequest
      → Result Error String × Option CodeStore
  unfolding prepare_code
  issue_authorization_code none metadata drawn_id now purged checked draw req =
      (prepare_code false metadata drawn_id now draw req >>= λ (id, code). ok code, none)
  issue_authorization_code (some c) metadata drawn_id now purged checked draw req =
      elim (prepare_code true metadata drawn_id now draw req) [
        | err e ↦ (err e, some c)
        | ok (id, code) ↦
            let (r, c') = store c purged checked id (code_claims req id now).expires_at in
            (stored r code, some c')
      ]

  -- `ExchangeAuthorizationCode` before it consumes the code
  pub open_code :
      String
      → AssociatedData
      → (redirect_uri verifier : String) → (now : ℕ) → Result Error AuthorizationCodeClaims
  open_code code aad redirect_uri verifier now =
      or_fail (open_token s.crypto s.code_json s.keyring code (typed aad token_type_code))
        invalid_code
      >>= λ claims. validate_code s.s256 claims now aad redirect_uri verifier >> ok claims

  unfoldable pub exchange_authorization_code :
      Option CodeStore
      → String
      → AssociatedData
      → (redirect_uri verifier : String) → (now purged checked at issued : ℕ) → Draw
      → Draw
      → Result Error TokenPair × Option CodeStore
  unfolding open_code
  exchange_authorization_code c code aad redirect_uri verifier now purged checked at issued draw
        draw' =
      elim (open_code code aad redirect_uri verifier now) [
        | err e ↦ (err e, c)
        | ok claims ↦ elim c [
          | none ↦ (err (message "authorization code store is required"), none)
          | some c ↦
              let (r, c') = consume c purged checked claims.code_id in
              elim r [
                | err e ↦ (err (code_store e), some c')
                | ok _ ↦ (
                  issue_pair issued draw draw' (base_of_code claims) (
                      add_duration at
                        (default_duration s.session_lifetime default_session_lifetime)),
                  some c',
                )
              ]
        ]
      ]

  -- `Refresh`; a nil validator is `none`
  unfoldable pub refresh :
      Option (Credential → Result Error (Unit {0}))
      → String
      → AssociatedData
      → (now issued : ℕ) → Draw
      → Draw
      → Result Error TokenPair
  refresh validator token aad now issued draw draw' = do
    claims ←
        or_fail (open_token s.crypto s.token_json s.keyring token (typed aad token_type_refresh))
          invalid_token
    _ ← validate_token claims now token_type_refresh aad
    _ ← elim validator [ none ↦ ok tt | some valid ↦ valid claims.credential ]
    issue_pair issued draw draw' (base_of_token claims) claims.session_expires_at

-- What the verifier tells the MCP library of an accepted token.
pub record TokenInfo : Type 0 where
  pub scopes : List String
  pub expiration : ℕ
  pub user_id : String
  pub credential : Credential

abbrev pub token_info : TokenClaims → TokenInfo
token_info c = record {
  scopes = c.scopes;
  expiration = c.expires_at;
  user_id = c.subject;
  credential = c.credential;
}

module _ (crypto : Crypto) (json : Json TokenClaims) (keyring : Keyring) (issuer audience : String)
    (now : ℕ) where
  abbrev pub verifier_aad : String → String → AssociatedData
  verifier_aad client_id kind = record {
    issuer = issuer;
    audience = audience;
    client_id = client_id;
    kind = kind;
  }

  -- the bootstrap part of `AccessTokenVerifier`
  abbrev pub verify_bootstrap : Bool → String → Result Error TokenInfo
  verify_bootstrap enabled token =
      ensure enabled invalid_token
      >> (or_fail
            (open_token crypto json keyring token (verifier_aad "" token_type_bootstrap_access))
            invalid_token
          >>= λ claims.
              or_fail
                (validate_token claims now token_type_bootstrap_access
                  (verifier_aad "" token_type_bootstrap_access))
                invalid_token
              >> ok (token_info claims))

  -- the loop over the client ids, then the bootstrap part
  unfoldable pub verify_access_token : List String → Bool → String → Result Error TokenInfo
  verify_access_token [] enabled token = verify_bootstrap enabled token
  verify_access_token (client_id ∷ ids) enabled token =
      let rest = verify_access_token ids enabled token in
      elim (open_token crypto json keyring token (verifier_aad client_id token_type_access)) [
        | err _ ↦ rest
        | ok claims ↦
            or_fail
              (validate_token claims now token_type_access
                (verifier_aad client_id token_type_access))
              invalid_token
            >> ok (token_info claims)
      ]
