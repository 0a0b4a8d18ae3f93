-- ===== src/Oauth/Service/Lifetime.antt =====
-- How long the tokens of internal/oauth/service.go live: `issuePair` and `Refresh`.
use inventree_mcp.Prelude.{
  ℕ, ◌≤◌, ◌<◌, ◌≡◌, ◌≢◌, refl, arith, String, Option, none, some, List, [], ◌∷◌, eq_iff, Result, ok,
  ◌>>=◌, bind-ok, ok_unique, subst, sym, length, All,
}
use inventree_mcp.Oauth.Keyring.{Key, new_keyring}
use inventree_mcp.Oauth.Envelope.{AssociatedData, Error, IsDocumented, seal_token, open_token}
use inventree_mcp.Oauth.Envelope.Opening.{seal-open_same}
use inventree_mcp.Oauth.Claims.{
  Credential, TokenClaims, validate_for_envelope, validate_token, token_type_access,
  token_type_refresh,
}
use inventree_mcp.Oauth.Service.{
  Service, TokenPair, Draw, aad_of, typed, access_expiry, refresh_expiry, access_claims,
  refresh_claims, base_of_token, issue_pair, refresh,
}

-- What a pair says of the claims and the session that it was issued for.
pub record IsWithin (p : TokenPair) (base : TokenClaims) (session : ℕ) : Type 0 where
  pub session_kept : p.session_expires_at ≡ session
  pub access_within : p.access_expires_at ≤ session
  pub refresh_within : p.refresh_expires_at ≤ session
  pub same_scopes : p.scopes ≡ base.scopes

-- One refresh: the readings of the clock, and the nonces of the two tokens.
pub record Round : Type 0 where
  pub now : ℕ
  pub issued : ℕ
  pub access_nonce : List ℕ
  pub nonce : List ℕ

module _ (s : Service) where
  -- The two tokens of a pair, and what it says of them.
  pub record IsPair (now : ℕ) (draw draw' : Draw) (base : TokenClaims) (session : ℕ) (p : TokenPair)
      : Type 0 where
    pub access_sealed :
        seal_token s.crypto s.token_json s.keyring draw
          (aad_of base token_type_access)
          (access_claims s base now session)
        ≡ ok p.access_token
    pub refresh_sealed :
        seal_token s.crypto s.token_json s.keyring draw'
          (aad_of base token_type_refresh)
          (refresh_claims s base now session)
        ≡ ok p.refresh_token
    pub access_told : p.access_expires_at ≡ access_expiry s now session
    pub refresh_told : p.refresh_expires_at ≡ refresh_expiry s now session
    pub within : IsWithin p base session

  pub issue_pair-IsPair :
      (now : ℕ) (draw draw' : Draw) (base : TokenClaims) (session : ℕ) (p : TokenPair)
      → issue_pair s now draw draw' base session ≡ ok p
      → IsPair now draw draw' base session p
  unfolding issue_pair
  issue_pair-IsPair now draw draw' base session p h =
      let (a, sealed, h1) =
        bind-ok
          (seal_token s.crypto s.token_json s.keyring draw (aad_of base token_type_access)
            (access_claims s base now session))
          _ p h in
      let (r, sealed', h2) =
        bind-ok
          (seal_token s.crypto s.token_json s.keyring draw' (aad_of base token_type_refresh)
            (refresh_claims s base now session))
          _ p h1 in
      subst (IsPair now draw draw' base session) (ok_unique (ok _) _ p refl h2) (record {
        access_sealed = sealed;
        refresh_sealed = sealed';
        access_told = refl;
        refresh_told = refl;
        within = record {
          session_kept = refl;
          access_within = ground arith;
          refresh_within = ground arith;
          same_scopes = refl;
        };
      })

  -- Neither token of a pair outlives the session, which is the one that was asked for, and the
  -- scopes are those of the claims.
  pub issue_pair-IsWithin :
      (now : ℕ) (draw draw' : Draw) (base : TokenClaims) (session : ℕ) (p : TokenPair)
      → issue_pair s now draw draw' base session ≡ ok p
      → IsWithin p base session
  issue_pair-IsWithin now draw draw' base session p h =
      (issue_pair-IsPair now draw draw' base session p h).within

  -- What the claims of a token hold of those and of the session that it was issued for.
  pub record KeepsClaims (claims base : TokenClaims) (session expires_at : ℕ) : Type 0 where
    pub within : claims.expires_at ≤ session
    pub told : claims.expires_at ≡ expires_at
    pub same_session : claims.session_expires_at ≡ session
    pub same_scopes : claims.scopes ≡ base.scopes
    pub same_subject : claims.subject ≡ base.subject
    pub same_credential : claims.credential ≡ base.credential

  -- Both tokens of a pair open, with the keyring of the service, to claims of the session.
  pub record KeepsSession (p : TokenPair) (base : TokenClaims) (session : ℕ) : Type 0 where
    pub told : IsWithin p base session
    pub access : TokenClaims
    pub access_opens :
        open_token s.crypto s.token_json s.keyring p.access_token (aad_of base token_type_access)
        ≡ ok access
    pub access_keeps : KeepsClaims access base session p.access_expires_at
    pub refresh : TokenClaims
    pub refresh_opens :
        open_token s.crypto s.token_json s.keyring p.refresh_token (aad_of base token_type_refresh)
        ≡ ok refresh
    pub refresh_keeps : KeepsClaims refresh base session p.refresh_expires_at

  abbrev pub Validator : Type 0
  Validator = Option (Credential → Result Error (Unit {0}))

  -- Refreshing again and again, each time with the refresh token of the last pair.
  unfoldable pub refresh_all :
      Validator → AssociatedData → TokenPair → List Round → Result Error TokenPair
  refresh_all validator aad p [] = ok p
  refresh_all validator aad p (r ∷ rs) =
      refresh s validator p.refresh_token aad r.now r.issued (ok r.access_nonce) (ok r.nonce)
      >>= λ p'. refresh_all validator aad p' rs

  refreshed :
      (validator : Validator) (token : String) (aad : AssociatedData) (now issued : ℕ) (e e' : Draw)
      (claims : TokenClaims) (p : TokenPair)
      → open_token s.crypto s.token_json s.keyring token (typed aad token_type_refresh) ≡ ok claims
      → refresh s validator token aad now issued e e' ≡ ok p
      → issue_pair s issued e e' (base_of_token s claims) claims.session_expires_at ≡ ok p
  unfolding refresh
  refreshed validator token aad now issued e e' claims p opened r =
      let (u, v, r1) =
        bind-ok (validate_token claims now token_type_refresh aad) _ p (rw opened at r) in
      let (u', v', r2) =
        bind-ok (elim validator [ none ↦ ok tt | some valid ↦ valid claims.credential ]) _ p r1 in
      r2

  still_fit :
      (base : TokenClaims) (now session now' : ℕ) (kind : String)
      → base.subject ≢ ""
      → validate_for_envelope base.credential ≡ ok tt
      → 0 < now
      → now ≤ now'
      → now' < refresh_expiry s now session
      → validate_token
          (refresh_claims s base now session)
          now'
          token_type_refresh
          (aad_of base kind)
        ≡ ok tt
  unfolding validate_token
  still_fit base now session now' kind named fit positive later early = rw fit (
      ground (
        arith,
        eq_iff base.issuer base.issuer,
        eq_iff base.audience base.audience,
        eq_iff base.client_id base.client_id,
        eq_iff base.subject "",
        eq_iff token_type_refresh token_type_refresh,
      ))

  module _ (d : IsDocumented s.crypto) (keys : List Key)
      (made : new_keyring keys ≡ ok s.keyring) where
    refresh_opens :
        (now : ℕ) (draw : Draw) (nonce : List ℕ) (base : TokenClaims) (session : ℕ) (p : TokenPair)
        → length nonce ≡ 12
        → issue_pair s now draw (ok nonce) base session ≡ ok p
        → open_token s.crypto s.token_json s.keyring p.refresh_token
            (aad_of base token_type_refresh)
          ≡ ok (refresh_claims s base now session)
    refresh_opens now draw nonce base session p n h =
        seal-open_same s.crypto d s.token_json keys s.keyring nonce (aad_of base token_type_refresh)
          (refresh_claims s base now session) p.refresh_token made n
          (issue_pair-IsPair now draw (ok nonce) base session p h).refresh_sealed

    -- A refresh with the refresh token of a pair, if it succeeds, issues the next pair
    -- for the same session, with the same scopes, and within that session.
    pub refresh_keeps_session :
        (now : ℕ) (draw : Draw) (nonce : List ℕ) (base : TokenClaims) (session : ℕ)
        (p p' : TokenPair) (validator : Option (Credential → Result Error (Unit {0})))
        (kind : String) (now' issued : ℕ) (e e' : Draw)
        → length nonce ≡ 12
        → issue_pair s now draw (ok nonce) base session ≡ ok p
        → refresh s validator p.refresh_token (aad_of base kind) now' issued e e' ≡ ok p'
        → IsWithin p' base p.session_expires_at
    refresh_keeps_session now draw nonce base session p p' validator kind now' issued e e' n h r =
        let claims : TokenClaims = refresh_claims s base now session in
        let w = (issue_pair-IsPair now draw (ok nonce) base session p h).within in
        let w' = issue_pair-IsWithin issued e e' (base_of_token s claims) session p' (
          refreshed validator p.refresh_token (aad_of base kind) now' issued e e' claims p'
            (refresh_opens now draw nonce base session p n h) r) in
        subst (IsWithin p' base) (sym w.session_kept) (record {
          session_kept = w'.session_kept;
          access_within = w'.access_within;
          refresh_within = w'.refresh_within;
          same_scopes = w'.same_scopes;
        })

    -- Without a validator, and until it expires, the refresh token of a pair gets the next pair of the
    -- same session, where the pair was issued for a named subject and a credential fit for envelopes.
    pub refresh-issue_pair :
        (now : ℕ) (draw : Draw) (nonce : List ℕ) (base : TokenClaims) (session : ℕ) (p : TokenPair)
        (kind : String) (now' issued : ℕ) (e e' : Draw)
        → length nonce ≡ 12
        → issue_pair s now draw (ok nonce) base session ≡ ok p
        → base.subject ≢ ""
        → validate_for_envelope base.credential ≡ ok tt
        → 0 < now
        → now ≤ now'
        → now' < p.refresh_expires_at
        → refresh s none p.refresh_token (aad_of base kind) now' issued e e'
          ≡ issue_pair s issued e e' (base_of_token s base) session
    unfolding refresh
    refresh-issue_pair now draw nonce base session p kind now' issued e e' n h named fit positive
          later early =
        let claims : TokenClaims = refresh_claims s base now session in
        let q = issue_pair-IsPair now draw (ok nonce) base session p h in
        rw
          (
            refresh_opens now draw nonce base session p n h,
            still_fit base now session now' kind named fit positive later
                (omega (arith, q.refresh_told)),
          )
          refl

    issue_pair-KeepsSession :
        (now : ℕ) (access_nonce nonce : List ℕ) (base : TokenClaims) (session : ℕ) (p : TokenPair)
        → length access_nonce ≡ 12
        → length nonce ≡ 12
        → issue_pair s now (ok access_nonce) (ok nonce) base session ≡ ok p
        → KeepsSession p base session
    issue_pair-KeepsSession now access_nonce nonce base session p n n' h =
        let q = issue_pair-IsPair now (ok access_nonce) (ok nonce) base session p h in
        record {
          told = q.within;
          access = access_claims s base now session;
          access_opens =
              seal-open_same s.crypto d s.token_json keys s.keyring access_nonce
                (aad_of base token_type_access) (access_claims s base now session) p.access_token
                made n q.access_sealed;
          access_keeps = record {
            within = omega (arith, q.within.access_within, q.access_told);
            told = sym q.access_told;
            same_session = refl;
            same_scopes = refl;
            same_subject = refl;
            same_credential = refl;
          };
          refresh = refresh_claims s base now session;
          refresh_opens = refresh_opens now (ok access_nonce) nonce base session p n' h;
          refresh_keeps = record {
            within = omega (arith, q.within.refresh_within, q.refresh_told);
            told = sym q.refresh_told;
            same_session = refl;
            same_scopes = refl;
            same_subject = refl;
            same_credential = refl;
          };
        }

    same_claims :
        (claims base : TokenClaims) (now session session' at : ℕ)
        → KeepsClaims claims (base_of_token s (refresh_claims s base now session')) session at
        → KeepsClaims claims base session at
    same_claims claims base now session session' at k = record {
      within = k.within;
      told = k.told;
      same_session = k.same_session;
      same_scopes = k.same_scopes;
      same_subject = k.same_subject;
      same_credential = k.same_credential;
    }

    -- However often the tokens of a pair are refreshed, with nonces of twelve bytes: the last pair names the
    -- session that the first was issued for. Both of its tokens open, with the keyring of the service, to
    -- claims of that session with the scopes, the subject and the credential of the first pair, which
    -- expire when the pair says and never after the session. This is under the laws of the cipher, for a
    -- loaded keyring.
    pub refresh_all-KeepsSession :
        (now : ℕ) (access_nonce nonce : List ℕ) (base : TokenClaims) (session : ℕ) (p q : TokenPair)
        (validator : Validator) (kind : String) (rounds : List Round)
        → length access_nonce ≡ 12
        → length nonce ≡ 12
        → All (λ r. (length r.access_nonce ≡ 12) × (length r.nonce ≡ 12)) rounds
        → issue_pair s now (ok access_nonce) (ok nonce) base session ≡ ok p
        → refresh_all validator (aad_of base kind) p rounds ≡ ok q
        → KeepsSession q base session
    unfolding refresh_all
    refresh_all-KeepsSession now access_nonce nonce base session p q validator kind [] n n' ns h r =
        subst (λ t. KeepsSession t base session) (ok_unique (ok p) p q refl r)
          (issue_pair-KeepsSession now access_nonce nonce base session p n n' h)
    refresh_all-KeepsSession now access_nonce nonce base session p q validator kind (round ∷ rounds)
          n n' ns h r =
        let claims : TokenClaims = refresh_claims s base now session in
        let (p', once, more) =
          bind-ok
            (refresh s validator p.refresh_token (aad_of base kind) round.now round.issued
              (ok round.access_nonce) (ok round.nonce))
            _ q r in
        let issued =
          refreshed validator p.refresh_token (aad_of base kind) round.now round.issued
            (ok round.access_nonce) (ok round.nonce) claims p'
            (refresh_opens now (ok access_nonce) nonce base session p n' h) once in
        let rest =
          refresh_all-KeepsSession round.issued round.access_nonce round.nonce
            (base_of_token s claims) session p' q validator kind rounds ns.0.0 ns.0.1 ns.1 issued
            more in
        record {
          told = record {
            session_kept = rest.told.session_kept;
            access_within = rest.told.access_within;
            refresh_within = rest.told.refresh_within;
            same_scopes = rest.told.same_scopes;
          };
          access = rest.access;
          access_opens = rest.access_opens;
          access_keeps =
              same_claims rest.access base now session session q.access_expires_at
                rest.access_keeps;
          refresh = rest.refresh;
          refresh_opens = rest.refresh_opens;
          refresh_keeps =
              same_claims rest.refresh base now session session q.refresh_expires_at
                rest.refresh_keeps;
        }
