-- ===== src/Oauth/Bootstrap/Sealing.antt =====
-- That what the bootstrap endpoint of internal/oauth/bootstrap.go issues opens to a dedicated credential.
use inventree_mcp.Prelude.{
  ℕ, String, Option, some, List, false, ◌≡◌, inl, inr, refl, subst, ◌∙◌, ◌==◌, length, Bool-cases,
  Option-cases, Result-cases, Result, ok, err,
}
use inventree_mcp.Oauth.Keyring.{Key, Keyring, new_keyring}
use inventree_mcp.Oauth.Envelope.{
  AssociatedData, Crypto, Json, seal_token, open_token, IsDocumented,
}
use inventree_mcp.Oauth.Envelope.Opening.{seal-open_same}
use inventree_mcp.Oauth.Claims.{
  Credential, TokenClaims, validate, validate_for_envelope, token_type_bootstrap_access,
}
use inventree_mcp.Oauth.RateLimiter.{Limiter}
use inventree_mcp.Oauth.Bootstrap.{
  Library, Upstream, BootstrapServer, Request, issued, parse_bootstrap_authorization,
  associated_data, bootstrap_claims, handle_bootstrap,
}
use inventree_mcp.Oauth.Bootstrap.Issuing.{MadeFor, handle-Issued}

not_basic : (c : Credential) → validate_for_envelope c ≡ ok tt → (c.scheme == "Basic") ≡ false
unfolding validate_for_envelope
not_basic c h = elim (Bool-cases (c.scheme == "Basic")) [
  | inr other ↦ other
  | inl basic ↦ elim (Result-cases (validate c)) [
    | inl (u, k) ↦ absurd (cc (rw (validate_for_envelope, k, basic) at h))
    | inr (e, k) ↦ absurd (cc (rw (validate_for_envelope, k) at h))
  ]
]

seal_draws :
    (c : Crypto) {C : Type 0} (j : Json C) (r : Keyring) (draw : Result String (List ℕ))
    (aad : AssociatedData) (claims : C) (token : String)
    → seal_token c j r draw aad claims ≡ ok token
    → (nonce : List ℕ) × (draw ≡ ok nonce)
unfolding seal_token
seal_draws c j r (ok nonce) aad claims token h = (nonce, refl)
seal_draws c j r (err e) aad claims token h = elim (Option-cases (c.new_cipher r.active.material)) [
  | inl fine ↦ absurd (cc (rw (seal_token, fine) at h))
  | inr (x, bad) ↦ absurd (cc (rw (seal_token, bad) at h))
]

module _ {W : Type 0} (up : Upstream W) (server : BootstrapServer) (lib : Library)
    (doc : IsDocumented server.crypto) (keys : List Key) where
  -- A token that the endpoint issues opens, with the server's keyring, to bootstrap claims whose expiry,
  -- written by the library's RFC 3339 format, is the one that the response names. Their credential is not a Basic one: the broker made it, under a
  -- name of the server, for the credential that the request carried, and it had validated that one as
  -- the subject of the claims. This is under the laws of the cipher, for a loaded keyring and a random
  -- source that fills nonces of twelve bytes.
  pub handle_bootstrap-open :
      (lim : Option Limiter) (req : Request) (w : W) (token e : String)
      → new_keyring keys ≡ ok server.ring
      → ((v : W) (nonce : List ℕ) → (up.random_nonce v).0 ≡ ok nonce → length nonce ≡ 12)
      → (handle_bootstrap up server lib lim req w).0 ≡ issued token e
      → (claims : TokenClaims) × (open_token server.crypto server.token_json server.ring token
            (associated_data server)
          ≡ ok claims)
        × (claims.kind ≡ token_type_bootstrap_access)
        × (lib.format_rfc3339 claims.expires_at ≡ e)
        × ((claims.credential.scheme == "Basic") ≡ false)
        × ((credential : Credential) × (v : W) × (parse_bootstrap_authorization lib
                req.authorization
              ≡ some credential)
            × ((up.validate_credential credential v).0 ≡ ok claims.subject)
            × MadeFor up credential claims.credential)
  handle_bootstrap-open lim req w token e ring twelve h =
      let (credential, parsed, i) = handle-Issued up server lib lim req w token e h in
      let claims = bootstrap_claims server i.subject i.dedicated i.now in
      let (nonce, drawn) =
        seal_draws server.crypto server.token_json server.ring i.nonce (associated_data server)
          claims token i.sealed in
      (
        claims,
        seal-open_same server.crypto doc server.token_json keys server.ring nonce
            (associated_data server) claims token ring (twelve i.drawn_at nonce (i.drawn ∙ drawn))
            (subst
              (λ n.
                seal_token server.crypto server.token_json server.ring n (associated_data server)
                  claims
                ≡ ok token)
              drawn i.sealed),
        refl,
        i.expires,
        not_basic i.dedicated i.sealable,
        (credential, i.validated_at, parsed, i.validated, i.made_for),
      )
