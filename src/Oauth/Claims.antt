-- ===== src/Oauth/Claims.antt =====
-- The claims of internal/oauth/types.go and their checks, with `Credential.Validate` of
-- internal/inventree/auth.go and `verifyPKCES256` of internal/oauth/pkce.go.
use inventree_mcp.Prelude.{
  ℕ, String, List, Bool, ◌==◌, eqb, not, ◌||◌, ◌&&◌, Result, ensure, ◌>>◌, or_fail,
}
use inventree_mcp.Oauth.Envelope.{AssociatedData, Error, invalid_token, invalid_code, message}
use inventree_mcp.Oauth.CodeStore.{after}

abbrev pub token_type_access : String
token_type_access = "access"

abbrev pub token_type_refresh : String
token_type_refresh = "refresh"

abbrev pub token_type_code : String
token_type_code = "authorization_code"

abbrev pub token_type_bootstrap_access : String
token_type_bootstrap_access = "bootstrap_access"

pub record Credential : Type 0 where
  pub scheme : String
  pub token : String

-- the message of `Validate`, whose `%q` quotes the three schemes
abbrev scheme_message : String
scheme_message = "InvenTree auth scheme must be \"Token\", \"Bearer\", or \"Basic\""

abbrev pub validate : Credential → Result Error (Unit {0})
validate c =
    ensure (c.scheme == "Token" || c.scheme == "Bearer" || c.scheme == "Basic")
      (message scheme_message)
    >> ensure (not (c.token == "")) (message "InvenTree token is required")

unfoldable pub validate_for_envelope : Credential → Result Error (Unit {0})
validate_for_envelope c =
    validate c
    >> ensure (not (c.scheme == "Basic"))
        (message "InvenTree auth scheme \"Basic\" must not be sealed into a token envelope")

pub record TokenClaims : Type 0 where
  pub kind : String
  pub issuer : String
  pub audience : String
  pub subject : String
  pub client_id : String
  pub scopes : List String
  pub issued_at : ℕ
  pub expires_at : ℕ
  pub session_expires_at : ℕ
  pub credential : Credential
  pub credential_source : String

abbrev pub is_zero : ℕ → Bool
is_zero t = eqb t 0

-- `validateForUse` of `TokenClaims`
unfoldable pub validate_token : TokenClaims → ℕ → String → AssociatedData → Result Error (Unit {0})
validate_token c now expected aad =
    ensure (expected == "" || c.kind == expected) invalid_token
    >> (ensure
          (c.issuer == aad.issuer && c.audience == aad.audience && c.client_id == aad.client_id)
          invalid_token
        >> (ensure (not (c.subject == "" || is_zero c.issued_at || after now c.issued_at))
              invalid_token
            >> (ensure (after now c.expires_at) invalid_token
                >> (ensure (after c.issued_at c.expires_at) invalid_token
                    >> (ensure
                          (not (
                            is_zero c.session_expires_at
                            || not (after now c.session_expires_at)
                            || after c.session_expires_at c.expires_at))
                          invalid_token
                        >> or_fail (validate_for_envelope c.credential) invalid_token)))))

pub record AuthorizationCodeClaims : Type 0 where
  pub kind : String
  pub code_id : String
  pub issuer : String
  pub audience : String
  pub subject : String
  pub client_id : String
  pub redirect_uri : String
  pub pkce_challenge : String
  pub pkce_challenge_method : String
  pub scopes : List String
  pub issued_at : ℕ
  pub expires_at : ℕ
  pub credential : Credential
  pub credential_source : String

-- `verifyPKCES256`, with `PKCEChallengeS256` (SHA-256 in base64url) as a parameter
abbrev pub verify_pkce_s256 : (String → String) → (verifier challenge : String) → Bool
verify_pkce_s256 s256 verifier challenge =
    not (verifier == "" || challenge == "") && s256 verifier == challenge

-- `validateForUse` of `AuthorizationCodeClaims`
unfoldable pub validate_code :
    (String → String)
    → AuthorizationCodeClaims
    → ℕ
    → AssociatedData
    → (redirect_uri verifier : String) → Result Error (Unit {0})
validate_code s256 c now aad redirect_uri verifier =
    ensure (c.kind == token_type_code) invalid_code
    >> (ensure
          (c.issuer == aad.issuer && c.audience == aad.audience && c.client_id == aad.client_id)
          invalid_code
        >> (ensure (c.redirect_uri == redirect_uri) invalid_code
            >> (ensure
                  (not (
                    c.code_id == ""
                    || c.pkce_challenge == ""
                    || not (c.pkce_challenge_method == "S256")))
                  invalid_code
                >> (ensure (verify_pkce_s256 s256 verifier c.pkce_challenge) invalid_code
                    >> (ensure (after now c.expires_at) invalid_code
                        >> or_fail (validate_for_envelope c.credential) invalid_code)))))
