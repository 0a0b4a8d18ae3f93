-- ===== src/Oauth/Service/Exchange.antt =====
-- Authorization codes of internal/oauth/service.go: issued, exchanged once, and only by whom they
-- were issued for.
use inventree_mcp.Prelude.{
  ℕ, ◌<◌, ◌≡◌, ◌≢◌, refl, sym, subst, ap, arith, String, Option, some, List, Bool, true, ◌==◌,
  eq_iff, Result, ok, err, bind-ok, ok_unique, ensure, ◌||◌, not, length, Result-cases, inl, inr,
  List, All, ◌∙◌, Bool-cases, false, ◌⊎◌,
}
use mathlib.Core.Option.{some-injective}
use inventree_mcp.Oauth.CodeStore.{CodeStore, code_already_used, consume, store}
use inventree_mcp.Oauth.CodeStore.Redeeming.{IsValid, Op, is_storing, run, run_refused}
use inventree_mcp.Oauth.Keyring.{Key, new_keyring}
use inventree_mcp.Oauth.Envelope.{
  AssociatedData, Error, invalid_code, IsDocumented, seal_token, open_token, passed_on,
}
use inventree_mcp.Oauth.Envelope.Opening.{IsClean, seal-open_same, seal-open_other}
use inventree_mcp.Oauth.Claims.{
  AuthorizationCodeClaims, validate_for_envelope, validate_code, token_type_code,
}
use inventree_mcp.Oauth.Service.{
  Service, TokenPair, Draw, AuthorizationRequest, typed, aad_of_request, code_claims, base_of_code,
  prepare_code, open_code, issue_pair, issue_authorization_code, exchange_authorization_code,
}
use inventree_mcp.Oauth.Service.Lifetime.{issue_pair-IsWithin}

-- The arguments of an exchange other than the code and the associated data.
pub record Attempt : Type 0 where
  pub redirect_uri : String
  pub verifier : String
  pub now : ℕ
  pub purged : ℕ
  pub checked : ℕ
  pub at : ℕ
  pub issued : ℕ
  pub draw : Draw
  pub draw' : Draw

module _ (s : Service) where
  abbrev pub exchange :
      Option CodeStore
      → String
      → AssociatedData
      → Attempt
      → Result Error TokenPair × Option CodeStore
  exchange c code aad a =
      exchange_authorization_code s c code aad a.redirect_uri a.verifier a.now a.purged a.checked
        a.at a.issued a.draw a.draw'

  -- What a successful exchange has checked and done.
  pub record Exchanged (c : CodeStore) (code : String) (aad : AssociatedData) (a : Attempt)
      (p : TokenPair) : Type 0 where
    pub claims : AuthorizationCodeClaims
    pub opened :
        open_token s.crypto s.code_json s.keyring code (typed aad token_type_code) ≡ ok claims
    pub valid : validate_code s.s256 claims a.now aad a.redirect_uri a.verifier ≡ ok tt
    pub redeemed : (consume c a.purged a.checked claims.code_id).0 ≡ ok tt
    pub left :
        (exchange (some c) code aad a).1 ≡ some (consume c a.purged a.checked claims.code_id).1
    pub session : ℕ
    pub issued : issue_pair s a.issued a.draw a.draw' (base_of_code s claims) session ≡ ok p

  exchange-Exchanged :
      (c : CodeStore) (code : String) (aad : AssociatedData) (a : Attempt) (p : TokenPair)
      → (exchange (some c) code aad a).0 ≡ ok p
      → Exchanged c code aad a p
  unfolding exchange_authorization_code open_code
  exchange-Exchanged c code aad a p h =
      elim (Result-cases
        (open_token s.crypto s.code_json s.keyring code (typed aad token_type_code))) [
          | inr (e, failed) ↦
              absurd (cc (rw (exchange, exchange_authorization_code, open_code, failed) at h))
          | inl (claims, opened) ↦
              elim (Result-cases
                (validate_code s.s256 claims a.now aad a.redirect_uri a.verifier)) [
                  | inr (e, failed) ↦ absurd (
                      cc (
                        rw (exchange, exchange_authorization_code, open_code, opened, failed) at h))
                  | inl (u, valid) ↦
                      elim (Result-cases (consume c a.purged a.checked claims.code_id).0) [
                        | inr (e, failed) ↦ absurd (
                            cc (
                              rw
                                (
                                  exchange, exchange_authorization_code, open_code, opened, valid,
                                  failed,
                                )
                                at h))
                        | inl (u, redeemed) ↦ record {
                          claims = claims;
                          opened = opened;
                          valid = valid;
                          redeemed = redeemed;
                          left =
                              rw
                                (
                                  exchange, exchange_authorization_code, open_code, opened, valid,
                                  redeemed,
                                )
                                refl;
                          session = _;
                          issued =
                              rw
                                (
                                  exchange, exchange_authorization_code, open_code, opened, valid,
                                  redeemed,
                                )
                                at h;
                        }
                      ]
                ]
        ]

  -- On a code store with distinct ids and within its maximum, a code that has been exchanged is not exchanged
  -- again with the same associated data, at any time, with any redirect URI or verifier, and after any
  -- calls of Store and Consume on the code store, with any clock, none of which stores the id of the code
  -- again.
  pub exchange_once :
      (c c' : CodeStore) (code : String) (aad : AssociatedData) (a b : Attempt) (p q : TokenPair)
      (claims : AuthorizationCodeClaims) (os : List Op)
      → IsValid c
      → open_token s.crypto s.code_json s.keyring code (typed aad token_type_code) ≡ ok claims
      → exchange (some c) code aad a ≡ (ok p, some c')
      → All (λ o. is_storing claims.code_id o ≡ false) os
      → (exchange (some (run c' os).0) code aad b).0 ≢ ok q
  exchange_once c c' code aad a b p q claims os v opened first others second =
      let x = exchange-Exchanged c code aad a p (ap (λ r. r.0) first) in
      let id = claims.code_id in
      let same =
        ok_unique (open_token s.crypto s.code_json s.keyring code (typed aad token_type_code))
          x.claims claims x.opened opened in
      let redeemed =
        subst (λ k. (consume c a.purged a.checked k.code_id).0 ≡ ok tt) same x.redeemed in
      let left =
        subst
          (λ k. (exchange (some c) code aad a).1 ≡ some (consume c a.purged a.checked k.code_id).1)
          same x.left in
      let kept = some-injective _ _ (sym left ∙ ap (λ r. r.1) first) in
      let y = exchange-Exchanged (run c' os).0 code aad b q second in
      let same' =
        ok_unique (open_token s.crypto s.code_json s.keyring code (typed aad token_type_code))
          y.claims claims y.opened opened in
      let again =
        subst (λ k. (consume (run c' os).0 b.purged b.checked k.code_id).0 ≡ ok tt) same'
          y.redeemed in
      let refused =
        subst (λ t. (consume (run t os).0 b.purged b.checked id).0 ≡ err code_already_used) kept
          (run_refused c a.purged a.checked b.purged b.checked os id v redeemed others) in
      cc (refused, again)

  -- An exchange has the issuer, the audience, the client, the redirect URI and a PKCE verifier of the
  -- request, comes before the code expires, and yields the requested scopes.
  pub record Honours (req : AuthorizationRequest) (now : ℕ) (aad : AssociatedData) (a : Attempt)
      (p : TokenPair) : Type 0 where
    pub same_issuer : aad.issuer ≡ req.issuer
    pub same_audience : aad.audience ≡ req.audience
    pub same_client : aad.client_id ≡ req.client_id
    pub same_redirect : a.redirect_uri ≡ req.redirect_uri
    pub same_challenge : s.s256 a.verifier ≡ req.pkce_challenge
    pub in_time : a.now < (code_claims s req "" now).expires_at
    pub same_scopes : p.scopes ≡ req.scopes
    pub fit : validate_for_envelope req.credential ≡ ok tt

  valid_claims :
      (claims : AuthorizationCodeClaims) (now : ℕ) (aad : AssociatedData) (uri verifier : String)
      → validate_code s.s256 claims now aad uri verifier ≡ ok tt
      → (claims.redirect_uri ≡ uri)
        × (s.s256 verifier ≡ claims.pkce_challenge)
        × (now < claims.expires_at)
  unfolding validate_code
  valid_claims claims now aad uri verifier h = (
    ground (arith, eq_iff claims.redirect_uri uri),
    ground (arith, eq_iff (s.s256 verifier) claims.pkce_challenge),
    ground arith,
  )

  prepared :
      (has_store : Bool) (metadata : Result Error (Unit {0})) (drawn_id : Result String String)
      (now : ℕ) (draw : Draw) (req : AuthorizationRequest) (id code : String)
      → prepare_code s has_store metadata drawn_id now draw req ≡ ok (id, code)
      → (seal_token s.crypto s.code_json s.keyring draw
            (aad_of_request s req)
            (code_claims s req id now)
          ≡ ok code)
        × (validate_for_envelope req.credential ≡ ok tt)
  unfolding prepare_code
  prepared has_store metadata drawn_id now draw req id code h =
      let (u, complete, h1) =
        bind-ok
          (ensure
            (not (
              req.issuer == ""
              || req.audience == ""
              || req.subject == ""
              || req.pkce_challenge == ""))
            _)
          _ _ h in
      let (u1, fit, h2) = bind-ok (validate_for_envelope req.credential) _ _ h1 in
      let (u2, registered, h3) = bind-ok metadata _ _ h2 in
      let (u3, there, h4) = bind-ok (ensure has_store _) _ _ h3 in
      let (i, drawn, h5) = bind-ok (passed_on drawn_id) _ _ h4 in
      let (t, sealed, h6) =
        bind-ok
          (seal_token s.crypto s.code_json s.keyring draw (aad_of_request s req)
            (code_claims s req i now))
          _ _ h5 in
      let same = ok_unique (ok (i, t)) (i, t) (id, code) refl h6 in
      (
        subst
            (λ p.
              seal_token s.crypto s.code_json s.keyring draw (aad_of_request s req)
                (code_claims s req p.0 now)
              ≡ ok p.1)
            same sealed,
        fit,
      )

  -- What `IssueAuthorizationCode` has sealed where it succeeds.
  issued_code :
      (c : CodeStore) (metadata : Result Error (Unit {0})) (drawn_id : Result String String)
      (now purged checked : ℕ) (draw : Draw) (req : AuthorizationRequest) (code : String)
      → (issue_authorization_code s (some c) metadata drawn_id now purged checked draw req).0
        ≡ ok code
      → (id : String) × (seal_token s.crypto s.code_json s.keyring draw
            (aad_of_request s req)
            (code_claims s req id now)
          ≡ ok code)
        × (validate_for_envelope req.credential ≡ ok tt)
  unfolding issue_authorization_code
  issued_code c metadata drawn_id now purged checked draw req code h =
      elim (Result-cases (prepare_code s true metadata drawn_id now draw req)) [
        | inr (e, failed) ↦ absurd (cc (rw (issue_authorization_code, failed) at h))
        | inl ((id, t), done) ↦
            elim (Result-cases
              (store c purged checked id (code_claims s req id now).expires_at).0) [
                | inr (e, failed) ↦ absurd (cc (rw (issue_authorization_code, done, failed) at h))
                | inl (u, kept) ↦
                    let same =
                      ok_unique (ok t) t code refl
                        (rw (issue_authorization_code, done, kept) at h) in
                    let (sealed, fit) =
                      prepared true metadata drawn_id now draw req id code (rw same at done) in
                    (id, sealed, fit)
              ]
      ]

  same_request :
      (req : AuthorizationRequest) (aad : AssociatedData)
      → (typed aad token_type_code ≡ aad_of_request s req)
        ⊎ (typed aad token_type_code ≢ aad_of_request s req)
  same_request req aad = elim (Bool-cases (aad.issuer == req.issuer)) [
    | inr differs ↦
        inr (λ e. ground (arith, differs, ap (λ t. t.issuer) e, eq_iff aad.issuer req.issuer))
    | inl i ↦ elim (Bool-cases (aad.audience == req.audience)) [
      | inr differs ↦
          inr
            (λ e. ground (arith, differs, ap (λ t. t.audience) e, eq_iff aad.audience req.audience))
      | inl u ↦ elim (Bool-cases (aad.client_id == req.client_id)) [
        | inr differs ↦ inr (λ e.
            ground (arith, differs, ap (λ t. t.client_id) e, eq_iff aad.client_id req.client_id))
        | inl l ↦
            let same_issuer = (eq_iff aad.issuer req.issuer).0 i in
            let same_audience = (eq_iff aad.audience req.audience).0 u in
            let same_client = (eq_iff aad.client_id req.client_id).0 l in
            inl (cc (same_issuer, same_audience, same_client))
      ]
    ]
  ]

  module _ (d : IsDocumented s.crypto) (keys : List Key) (made : new_keyring keys ≡ ok s.keyring)
      (c : CodeStore) (metadata : Result Error (Unit {0})) (drawn_id : Result String String)
      (now purged checked : ℕ) (nonce : List ℕ) (n : length nonce ≡ 12) (req : AuthorizationRequest)
      (code : String)
      (given : (issue_authorization_code s
          (some c)
          metadata
          drawn_id
          now
          purged
          checked
          (ok nonce)
          req).0
        ≡ ok code) where
    -- A code that `IssueAuthorizationCode` returned is refused for another issuer, audience or client,
    -- and leaves the store as it was, if none of these has a NUL in it.
    pub exchange_other :
        (c' : Option CodeStore) (aad : AssociatedData) (a : Attempt)
        → IsClean (aad_of_request s req)
        → IsClean aad
        → typed aad token_type_code ≢ aad_of_request s req
        → exchange c' code aad a ≡ (err invalid_code, c')
    unfolding exchange_authorization_code open_code
    exchange_other c' aad a clean clean' differ =
        let (id, sealed, fit) =
          issued_code c metadata drawn_id now purged checked (ok nonce) req code given in
        let refused =
          seal-open_other s.crypto d s.code_json keys s.keyring nonce (aad_of_request s req)
            (typed aad token_type_code) (code_claims s req id now) code made n clean
            (record {
              issuer = clean'.issuer;
              audience = clean'.audience;
              client_id = clean'.client_id;
            })
            (λ e. differ (sym e)) sealed in
        rw (exchange, exchange_authorization_code, open_code, refused) refl

    redeemed_as_asked :
        (c' : CodeStore) (aad : AssociatedData) (a : Attempt) (p : TokenPair)
        → typed aad token_type_code ≡ aad_of_request s req
        → (exchange (some c') code aad a).0 ≡ ok p
        → Honours req now aad a p
    redeemed_as_asked c' aad a p e h =
        let (id, sealed, fit) =
          issued_code c metadata drawn_id now purged checked (ok nonce) req code given in
        let opened =
          seal-open_same s.crypto d s.code_json keys s.keyring nonce (aad_of_request s req)
            (code_claims s req id now) code made n sealed in
        let x = exchange-Exchanged c' code aad a p h in
        let same =
          ok_unique (open_token s.crypto s.code_json s.keyring code (aad_of_request s req)) x.claims
            (code_claims s req id now)
            (subst (λ t. open_token s.crypto s.code_json s.keyring code t ≡ ok x.claims) e x.opened)
            opened in
        let v = valid_claims x.claims a.now aad a.redirect_uri a.verifier x.valid in
        let w =
          issue_pair-IsWithin s a.issued a.draw a.draw' (base_of_code s x.claims) x.session p
            x.issued in
        record {
          same_issuer = ap (λ t. t.issuer) e;
          same_audience = ap (λ t. t.audience) e;
          same_client = ap (λ t. t.client_id) e;
          same_redirect = cc (v.0, ap (λ t. t.redirect_uri) same);
          same_challenge = cc (v.1, ap (λ t. t.pkce_challenge) same);
          in_time = subst (λ t. a.now < t.expires_at) same v.2;
          same_scopes = cc (w.same_scopes, ap (λ t. t.scopes) same);
          fit = fit;
        }

    -- A code that `IssueAuthorizationCode` returned is exchanged only with the issuer, the audience, the client
    -- and the redirect URI of its request, and a verifier of its PKCE challenge, before it expires, and
    -- for the scopes that were requested. This is under the laws of the cipher, for a loaded keyring and a
    -- nonce of twelve bytes, when no issuer, audience or client has a NUL in it.
    pub exchange-Honours :
        (c' : CodeStore) (aad : AssociatedData) (a : Attempt) (p : TokenPair)
        → IsClean (aad_of_request s req)
        → IsClean aad
        → (exchange (some c') code aad a).0 ≡ ok p
        → Honours req now aad a p
    exchange-Honours c' aad a p clean clean' h = elim (same_request req aad) [
      | inl e ↦ redeemed_as_asked c' aad a p e h
      | inr differ ↦
          absurd (cc (h, ap (λ r. r.0) (exchange_other (some c') aad a clean clean' differ)))
    ]
