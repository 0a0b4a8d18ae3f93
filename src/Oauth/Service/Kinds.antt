-- ===== src/Oauth/Service/Kinds.antt =====
-- `AccessTokenVerifier` of internal/oauth/service.go tells the tokens of a pair apart.
use inventree_mcp.Prelude.{
  ℕ, ◌≤◌, ◌<◌, ◌≡◌, ◌≢◌, refl, sym, subst, ap, arith, String, List, [], ◌∷◌, Bool, true, false,
  ◌==◌, eq_iff, ok, err, length, All, Occurs, Bool-cases, inl, inr,
}
use inventree_mcp.Oauth.Keyring.{Key, new_keyring}
use inventree_mcp.Oauth.Envelope.{AssociatedData, invalid_token, IsDocumented, open_token}
use inventree_mcp.Oauth.Envelope.Opening.{IsClean, HasNoNul, seal-open_same, seal-open_other}
use inventree_mcp.Oauth.Claims.{
  TokenClaims, validate_for_envelope, validate_token, token_type_access, token_type_refresh,
  token_type_bootstrap_access,
}
use inventree_mcp.Oauth.Service.{
  Service, TokenPair, token_info, Draw, aad_of, access_expiry, access_claims, refresh_claims,
  issue_pair, verifier_aad, verify_access_token,
}
use inventree_mcp.Oauth.Service.Lifetime.{issue_pair-IsPair}

module _ (s : Service) (d : IsDocumented s.crypto) (keys : List Key)
    (made : new_keyring keys ≡ ok s.keyring) (now : ℕ) (nonce nonce' : List ℕ)
    (n : length nonce ≡ 12) (n' : length nonce' ≡ 12) (base : TokenClaims) (session : ℕ)
    (p : TokenPair) (issued : issue_pair s now (ok nonce) (ok nonce') base session ≡ ok p)
    (clean : IsClean (aad_of base token_type_access)) (issuer audience : String)
    (clean_issuer : HasNoNul issuer) (clean_audience : HasNoNul audience) (now' : ℕ) where
  abbrev asked : String → String → AssociatedData
  asked client kind = record {
    issuer = issuer;
    audience = audience;
    client_id = client;
    kind = kind;
  }

  refresh_refused :
      (client kind : String)
      → HasNoNul client
      → (token_type_refresh == kind) ≡ false
      → open_token s.crypto s.token_json s.keyring p.refresh_token (asked client kind)
        ≡ err invalid_token
  refresh_refused client kind clean_client other =
      seal-open_other s.crypto d s.token_json keys s.keyring nonce' (aad_of base token_type_refresh)
        (asked client kind) (refresh_claims s base now session) p.refresh_token made n'
        (record { issuer = clean.issuer; audience = clean.audience; client_id = clean.client_id })
        (record { issuer = clean_issuer; audience = clean_audience; client_id = clean_client })
        (λ same.
          absurd (ground (arith, other, ap (λ t. t.kind) same, eq_iff token_type_refresh kind)))
        (issue_pair-IsPair s now (ok nonce) (ok nonce') base session p issued).refresh_sealed

  -- The refresh token of a pair is no access token: whatever the clients, with or without bootstrap,
  -- and at any time, the verifier refuses it, if no issuer, audience or client has a NUL in it.
  pub refresh_not_access :
      (clients : List String) (bootstrap : Bool)
      → All HasNoNul clients
      → verify_access_token s.crypto s.token_json s.keyring issuer audience now' clients bootstrap
          p.refresh_token
        ≡ err invalid_token
  unfolding verify_access_token
  refresh_not_access [] true h = rw (refresh_refused "" token_type_bootstrap_access refl refl) refl
  refresh_not_access [] false h = refl
  refresh_not_access (client ∷ clients) bootstrap h =
      rw (verify_access_token, refresh_refused client token_type_access h.0 refl)
        (refresh_not_access clients bootstrap h.1)

module _ (s : Service) (d : IsDocumented s.crypto) (keys : List Key)
    (made : new_keyring keys ≡ ok s.keyring) (now : ℕ) (nonce : List ℕ) (n : length nonce ≡ 12)
    (draw' : Draw) (base : TokenClaims) (session : ℕ) (p : TokenPair)
    (issued : issue_pair s now (ok nonce) draw' base session ≡ ok p) (now' : ℕ) where
  abbrev wanted : String → AssociatedData
  wanted client =
      verifier_aad s.crypto s.token_json s.keyring base.issuer base.audience now' client
        token_type_access

  access_fit :
      base.subject ≢ ""
      → validate_for_envelope base.credential ≡ ok tt
      → 0 < now
      → now ≤ now'
      → now' < access_expiry s now session
      → validate_token
          (access_claims s base now session)
          now'
          token_type_access
          (wanted base.client_id)
        ≡ ok tt
  unfolding validate_token
  access_fit named fit positive later early = rw fit (
      ground (
        arith,
        eq_iff base.issuer base.issuer,
        eq_iff base.audience base.audience,
        eq_iff base.client_id base.client_id,
        eq_iff base.subject "",
        eq_iff token_type_access token_type_access,
      ))

  -- Until it expires, the access token of a pair is accepted for its subject, scopes and credential,
  -- where it was issued for a named subject and a credential fit for envelopes, its client is among
  -- the configured ones, and no issuer, audience or client has a NUL in it.
  pub access_accepted :
      (clients : List String) (bootstrap : Bool)
      → IsClean (aad_of base token_type_access)
      → All HasNoNul clients
      → Occurs base.client_id clients
      → base.subject ≢ ""
      → validate_for_envelope base.credential ≡ ok tt
      → 0 < now
      → now ≤ now'
      → now' < p.access_expires_at
      → verify_access_token s.crypto s.token_json s.keyring base.issuer base.audience now' clients
          bootstrap p.access_token
        ≡ ok (token_info (access_claims s base now session))
  unfolding verify_access_token
  access_accepted [] bootstrap clean h there named fit positive later early = absurd there
  access_accepted (client ∷ clients) bootstrap clean h there named fit positive later early =
      let q = issue_pair-IsPair s now (ok nonce) draw' base session p issued in
      let claims = access_claims s base now session in
      elim (Bool-cases (client == base.client_id)) [
        | inl e ↦
            let same : client ≡ base.client_id = ground (arith, e, eq_iff client base.client_id) in
            let opened =
              subst
                (λ x.
                  open_token s.crypto s.token_json s.keyring p.access_token (wanted x) ≡ ok claims)
                (sym same)
                (seal-open_same s.crypto d s.token_json keys s.keyring nonce
                  (aad_of base token_type_access) claims p.access_token made n q.access_sealed) in
            let good =
              subst (λ x. validate_token claims now' token_type_access (wanted x) ≡ ok tt)
                (sym same) (access_fit named fit positive later (omega (arith, q.access_told))) in
            rw (verify_access_token, opened, good) refl
        | inr e ↦
            let refused =
              seal-open_other s.crypto d s.token_json keys s.keyring nonce
                (aad_of base token_type_access) (wanted client) claims p.access_token made n clean
                (record { issuer = clean.issuer; audience = clean.audience; client_id = h.0 })
                (λ same.
                  absurd
                    (ground (arith, e, ap (λ t. t.client_id) same, eq_iff client base.client_id)))
                q.access_sealed in
            rw (verify_access_token, refused)
              (access_accepted clients bootstrap clean h.1
                (elim there [
                  | inl x ↦ absurd (ground (arith, e, x, eq_iff client base.client_id))
                  | inr y ↦ y
                ])
                named fit positive later early)
      ]
