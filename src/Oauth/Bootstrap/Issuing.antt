-- ===== src/Oauth/Bootstrap/Issuing.antt =====
-- What the bootstrap endpoint of internal/oauth/bootstrap.go issues, and what it asks of InvenTree.
use inventree_mcp.Prelude.{
  ℕ, zero, suc, String, Option, some, List, ◌≡◌, inl, inr, refl, ap, ◌∙◌, ◌==◌, Bool-cases,
  Option-cases, Result-cases, Result, ok,
}
use inventree_mcp.Oauth.Envelope.{seal_token}
use inventree_mcp.Oauth.Claims.{Credential, validate_for_envelope}
use inventree_mcp.Oauth.RateLimiter.{Limiter}
use inventree_mcp.Oauth.Bootstrap.{
  Library, Upstream, BootstrapServer, Request, Response, issued, max_dedicated_token_attempts,
  dedicated_bootstrap_token_name, parse_bootstrap_authorization, ip_key, credential_key, reads_body,
  create_dedicated, admit, associated_data, expiry, bootstrap_claims, seal_dedicated,
  exchange_credential, handle_admitted, handle_bootstrap,
}

issued-injective :
    (t t' e e' : String) → ◌≡◌ {A = Response} (issued t e) (issued t' e') → (t ≡ t') × (e ≡ e')
issued-injective t t' e e' h = (cc, cc)

module _ {W : Type 0} (up : Upstream W) where
  -- The broker made the credential for the one that was submitted, under a fresh name.
  pub record MadeFor (credential dedicated : Credential) : Type 0 where
    pub id : String
    pub before : W
    pub made :
        (up.create_dedicated_credential credential (dedicated_bootstrap_token_name id) before).0
        ≡ ok dedicated

  create_dedicated-MadeFor :
      (left : ℕ) (last : String) (credential dedicated : Credential) (w : W)
      → (create_dedicated up left last credential w).0 ≡ ok dedicated
      → MadeFor credential dedicated
  unfolding create_dedicated
  create_dedicated-MadeFor zero last credential dedicated w h = absurd (cc h)
  create_dedicated-MadeFor (suc left) last credential dedicated w h =
      elim (Option-cases (up.context_error w).0) [
        | inr (e, k) ↦ absurd (cc (rw (create_dedicated, k) at h))
        | inl k ↦ elim (Result-cases (up.new_id (up.context_error w).1).0) [
          | inr (e, n) ↦ absurd (cc (rw (create_dedicated, k, n) at h))
          | inl (name, n) ↦
              let w₂ = (up.new_id (up.context_error w).1).1 in
              let answer =
                up.create_dedicated_credential credential (dedicated_bootstrap_token_name name)
                  w₂ in
              elim (Result-cases answer.0) [
                | inl (d, m) ↦ record {
                  id = name;
                  before = w₂;
                  made = m ∙ rw (create_dedicated, k, n, m) at h;
                }
                | inr (e, m) ↦
                    create_dedicated-MadeFor left e credential dedicated answer.1
                      (rw (create_dedicated, k, n, m) at h)
              ]
        ]
      ]

  module _ (server : BootstrapServer) (lib : Library) where
    -- The token holds a new credential, which the broker made for a credential that it had validated.
    pub record Issued (credential : Credential) (token expires_at : String) : Type 0 where
      pub subject : String
      pub dedicated : Credential
      pub now : ℕ
      pub nonce : Result String (List ℕ)
      pub drawn_at : W
      pub drawn : (up.random_nonce drawn_at).0 ≡ nonce
      pub validated_at : W
      pub validated : (up.validate_credential credential validated_at).0 ≡ ok subject
      pub made_for : MadeFor credential dedicated
      pub sealable : validate_for_envelope dedicated ≡ ok tt
      pub sealed :
          seal_token server.crypto server.token_json server.ring nonce
            (associated_data server)
            (bootstrap_claims server subject dedicated now)
          ≡ ok token
      pub expires : lib.format_rfc3339 (expiry server now) ≡ expires_at

    -- what is known before the seal
    seal_dedicated-Issued :
        (credential : Credential) (subject : String) (dedicated : Credential) (w v : W)
        (token e : String)
        → (up.validate_credential credential v).0 ≡ ok subject
        → MadeFor credential dedicated
        → (seal_dedicated up server lib subject dedicated w).0 ≡ issued token e
        → Issued credential token e
    unfolding seal_dedicated
    seal_dedicated-Issued credential subject dedicated w v token e valid made h =
        elim (Result-cases (validate_for_envelope dedicated)) [
          | inr (x, k) ↦ absurd (cc (rw (seal_dedicated, k) at h))
          | inl (u, k) ↦
              let now = (up.now w).0 in
              let draw = up.random_nonce (up.now w).1 in
              let claims = bootstrap_claims server subject dedicated now in
              elim (Result-cases (
                seal_token server.crypto server.token_json server.ring draw.0
                  (associated_data server) claims)) [
                    | inr (x, s) ↦ absurd (cc (rw (seal_dedicated, k, s) at h))
                    | inl (t, s) ↦
                        let (same, same_e) =
                          issued-injective t token (lib.format_rfc3339 (expiry server now)) e
                            (rw (seal_dedicated, k, s) at h) in
                        record {
                          subject = subject;
                          dedicated = dedicated;
                          now = now;
                          nonce = draw.0;
                          drawn_at = (up.now w).1;
                          drawn = refl;
                          validated_at = v;
                          validated = valid;
                          made_for = made;
                          sealable = k;
                          sealed = s ∙ ap ok same;
                          expires = same_e;
                        }
                  ]
        ]

    exchange-Issued :
        (credential : Credential) (w : W) (token e : String)
        → (exchange_credential up server lib credential w).0 ≡ issued token e
        → Issued credential token e
    unfolding exchange_credential
    exchange-Issued credential w token e h =
        elim (Result-cases (up.validate_credential credential w).0) [
          | inr (x, k) ↦ absurd (cc (rw (exchange_credential, k) at h))
          | inl (subject, k) ↦
              let made =
                create_dedicated up max_dedicated_token_attempts "" credential
                  (up.validate_credential credential w).1 in
              elim (Result-cases made.0) [
                | inr (x, m) ↦ absurd (cc (rw (exchange_credential, k, m) at h))
                | inl (dedicated, m) ↦
                    seal_dedicated-Issued credential subject dedicated made.1 w token e k
                      (create_dedicated-MadeFor max_dedicated_token_attempts "" credential dedicated
                        (up.validate_credential credential w).1 m)
                      (rw (exchange_credential, k, m) at h)
              ]
        ]

    -- A token is issued only for a credential that the request carried and the broker validated.
    pub handle-Issued :
        (lim : Option Limiter) (req : Request) (w : W) (token e : String)
        → (handle_bootstrap up server lib lim req w).0 ≡ issued token e
        → (credential : Credential) × (parse_bootstrap_authorization lib req.authorization
            ≡ some credential)
          × Issued credential token e
    unfolding handle_bootstrap
    handle-Issued lim req w token e h = elim (Bool-cases (req.method == "POST")) [
      | inr other ↦ absurd (cc (rw (handle_bootstrap, other) at h))
      | inl post ↦
          let first = admit up lim (ip_key lib req) w in
          elim (Bool-cases first.0) [
            | inr many ↦ absurd (cc (rw (handle_bootstrap, post, handle_admitted, many) at h))
            | inl few ↦ elim (Bool-cases (reads_body req.body)) [
              | inr long ↦
                  absurd (cc (rw (handle_bootstrap, post, handle_admitted, few, long) at h))
              | inl read ↦
                  elim (Option-cases (parse_bootstrap_authorization lib req.authorization)) [
                    | inl bad ↦
                        absurd
                          (cc (rw (handle_bootstrap, post, handle_admitted, few, read, bad) at h))
                    | inr (credential, p) ↦
                        let second = admit up first.1 (credential_key lib credential) first.2 in
                        elim (Bool-cases second.0) [
                          | inr many ↦ absurd (
                              cc (
                                rw (handle_bootstrap, post, handle_admitted, few, read, p, many) at
                                  h))
                          | inl again ↦ (
                            credential,
                            p,
                            exchange-Issued credential second.2 token e (
                                rw (handle_bootstrap, post, handle_admitted, few, read, p, again) at
                                  h),
                          )
                        ]
                  ]
            ]
          ]
    ]
