-- ===== src/Oauth/Samples/Claims.antt =====
-- A concrete encoding/json for the claims of internal/oauth/types.go: it knows a list of claims.
use inventree_mcp.Prelude.{
  ℕ, zero, suc, ◌≡◌, refl, arith, String, Option, none, some, List, [], ◌∷◌, Bool, true, false,
  ◌==◌, eq_iff, eqb, eqb_iff, ◌&&◌, if◌then◌else◌, get_elem?, Result, ok, err, subst, ok_unique,
}
use inventree_mcp.Oauth.Envelope.{Json}
use inventree_mcp.Oauth.Claims.{TokenClaims, AuthorizationCodeClaims}

-- Claims are written as their place in a list.
unfoldable pub place : {C : Type 0} → (C → C → Bool) → C → List C → Option ℕ
place test c [] = none
place test c (x ∷ xs) =
    let rest = place test c xs in
    if test x c then some 0 else elim rest [ none ↦ none | some i ↦ some (suc i) ]

place-get :
    {C : Type 0} (test : C → C → Bool)
    → ((a b : C) → test a b ≡ true → a ≡ b)
    → (c : C) (xs : List C) (i : ℕ) → place test c xs ≡ some i
    → get_elem? xs i ≡ some c
unfolding place
place-get test sound c [] i h = absurd (cc)
place-get test sound c (x ∷ xs) zero h = ground (arith, sound x c)
place-get test sound c (x ∷ xs) (suc i) h = ground (arith, place-get test sound c xs i)

abbrev pub placed : Option ℕ → Result String (List ℕ)
placed none = err "no sample"
placed (some i) = ok (i ∷ [])

abbrev pub picked : {C : Type 0} → List C → List ℕ → Option C
picked xs (i ∷ []) = get_elem? xs i
picked xs _ = none

module _ {C : Type 0} (test : C → C → Bool) (sound : (a b : C) → test a b ≡ true → a ≡ b)
    (xs : List C) where
  pub picked_back :
      (c : C) (bytes : List ℕ) (o : Option ℕ)
      → place test c xs ≡ o
      → placed o ≡ ok bytes
      → picked xs bytes ≡ some c
  picked_back c bytes none e h = absurd (cc)
  picked_back c bytes (some i) e h =
      subst (λ b. picked xs b ≡ some c) (ok_unique (ok (i ∷ [])) (i ∷ []) bytes refl h)
        (place-get test sound c xs i e)

  abbrev pub sample_json : Json C
  sample_json = record {
    marshal = λ c. placed (place test c xs);
    unmarshal = picked xs;
    unmarshals = λ c bytes h. picked_back c bytes (place test c xs) refl h;
  }

abbrev pub same_scopes : List String → List String → Bool
same_scopes [] [] = true
same_scopes (a ∷ l) (b ∷ m) = let rest = same_scopes l m in a == b && rest
same_scopes _ _ = false

same_scopes_sound : (a b : List String) → same_scopes a b ≡ true → a ≡ b
same_scopes_sound [] [] h = refl
same_scopes_sound [] (y ∷ b) h = absurd (cc)
same_scopes_sound (x ∷ a) [] h = absurd (cc)
same_scopes_sound (x ∷ a) (y ∷ b) h = ground (arith, eq_iff x y, same_scopes_sound a b)

abbrev pub same_token : TokenClaims → TokenClaims → Bool
same_token a b =
    a.kind == b.kind
    && a.issuer == b.issuer
    && a.audience == b.audience
    && a.subject == b.subject
    && a.client_id == b.client_id
    && same_scopes a.scopes b.scopes
    && eqb a.issued_at b.issued_at
    && eqb a.expires_at b.expires_at
    && eqb a.session_expires_at b.session_expires_at
    && a.credential.scheme == b.credential.scheme
    && a.credential.token == b.credential.token
    && a.credential_source == b.credential_source

pub same_token_sound : (a b : TokenClaims) → same_token a b ≡ true → a ≡ b
same_token_sound a b h =
    let kind : a.kind ≡ b.kind = ground (arith, eq_iff a.kind b.kind) in
    let issuer : a.issuer ≡ b.issuer = ground (arith, eq_iff a.issuer b.issuer) in
    let audience : a.audience ≡ b.audience = ground (arith, eq_iff a.audience b.audience) in
    let subject : a.subject ≡ b.subject = ground (arith, eq_iff a.subject b.subject) in
    let client : a.client_id ≡ b.client_id = ground (arith, eq_iff a.client_id b.client_id) in
    let scopes : a.scopes ≡ b.scopes = ground (arith, same_scopes_sound a.scopes b.scopes) in
    let issued : a.issued_at ≡ b.issued_at = ground (arith, eqb_iff a.issued_at b.issued_at) in
    let expires : a.expires_at ≡ b.expires_at = ground (arith, eqb_iff a.expires_at b.expires_at) in
    let session : a.session_expires_at ≡ b.session_expires_at =
      ground (arith, eqb_iff a.session_expires_at b.session_expires_at) in
    let scheme : a.credential.scheme ≡ b.credential.scheme =
      ground (arith, eq_iff a.credential.scheme b.credential.scheme) in
    let token : a.credential.token ≡ b.credential.token =
      ground (arith, eq_iff a.credential.token b.credential.token) in
    let source : a.credential_source ≡ b.credential_source =
      ground (arith, eq_iff a.credential_source b.credential_source) in
    cc (
      kind, issuer, audience, subject, client, scopes, issued, expires, session, scheme, token,
      source,
    )

abbrev pub same_code : AuthorizationCodeClaims → AuthorizationCodeClaims → Bool
same_code a b =
    a.kind == b.kind
    && a.code_id == b.code_id
    && a.issuer == b.issuer
    && a.audience == b.audience
    && a.subject == b.subject
    && a.client_id == b.client_id
    && a.redirect_uri == b.redirect_uri
    && a.pkce_challenge == b.pkce_challenge
    && a.pkce_challenge_method == b.pkce_challenge_method
    && same_scopes a.scopes b.scopes
    && eqb a.issued_at b.issued_at
    && eqb a.expires_at b.expires_at
    && a.credential.scheme == b.credential.scheme
    && a.credential.token == b.credential.token
    && a.credential_source == b.credential_source

pub same_code_sound : (a b : AuthorizationCodeClaims) → same_code a b ≡ true → a ≡ b
same_code_sound a b h =
    let kind : a.kind ≡ b.kind = ground (arith, eq_iff a.kind b.kind) in
    let id : a.code_id ≡ b.code_id = ground (arith, eq_iff a.code_id b.code_id) in
    let issuer : a.issuer ≡ b.issuer = ground (arith, eq_iff a.issuer b.issuer) in
    let audience : a.audience ≡ b.audience = ground (arith, eq_iff a.audience b.audience) in
    let subject : a.subject ≡ b.subject = ground (arith, eq_iff a.subject b.subject) in
    let client : a.client_id ≡ b.client_id = ground (arith, eq_iff a.client_id b.client_id) in
    let uri : a.redirect_uri ≡ b.redirect_uri =
      ground (arith, eq_iff a.redirect_uri b.redirect_uri) in
    let pkce : a.pkce_challenge ≡ b.pkce_challenge =
      ground (arith, eq_iff a.pkce_challenge b.pkce_challenge) in
    let method : a.pkce_challenge_method ≡ b.pkce_challenge_method =
      ground (arith, eq_iff a.pkce_challenge_method b.pkce_challenge_method) in
    let scopes : a.scopes ≡ b.scopes = ground (arith, same_scopes_sound a.scopes b.scopes) in
    let issued : a.issued_at ≡ b.issued_at = ground (arith, eqb_iff a.issued_at b.issued_at) in
    let expires : a.expires_at ≡ b.expires_at = ground (arith, eqb_iff a.expires_at b.expires_at) in
    let scheme : a.credential.scheme ≡ b.credential.scheme =
      ground (arith, eq_iff a.credential.scheme b.credential.scheme) in
    let token : a.credential.token ≡ b.credential.token =
      ground (arith, eq_iff a.credential.token b.credential.token) in
    let source : a.credential_source ≡ b.credential_source =
      ground (arith, eq_iff a.credential_source b.credential_source) in
    cc (
      kind, id, issuer, audience, subject, client, uri, pkce, method, scopes, issued, expires,
      scheme, token, source,
    )
