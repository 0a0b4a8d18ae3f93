-- ===== src/Oauth/Envelope/Opening.antt =====
-- Tokens of internal/oauth/envelope.go open again, under any keyring that still has their key, and
-- only with the associated data that they were sealed with.
use Prim.Native.Char.{code}
use text.Mathlib.TextEquality.{Char-path}
use mathlib.Core.List.{head-eq_of_cons-eq, tail-eq_of_cons-eq}
use inventree_mcp.Prelude.{
  ℕ, ◌<◌, ◌≡◌, ◌≢◌, String, some, List, [], ◌∷◌, ◌++◌, true, false, ltb, length, Result, ok, err,
  ◌>>=◌, refl, arith, eqb, ap, sym, ok_unique, length-append, lt→ltb, subst, Result-cases, inl, inr,
  Option-cases, Occurs,
}
use inventree_mcp.GoMap.{get}
use inventree_mcp.Oauth.Text.{contains, join_dots, codes}
use inventree_mcp.Oauth.Text.Laws.{HasNoDot, split-join}
use inventree_mcp.Oauth.Keyring.{Key, Keyring, new_keyring}
use inventree_mcp.Oauth.Keyring.Loading.{IsUsable, new_keyring-IsKeyring}
use inventree_mcp.Oauth.Envelope.{
  AssociatedData, invalid_token, Crypto, IsDocumented, Json, token_prefix, associated_data_bytes,
  take, drop, required, seal_token, open_token,
}

abbrev pub HasNoNul : String → Type 0
HasNoNul s = contains (λ c. eqb (code c) 0) s ≡ false

-- Two texts without NUL before a NUL: what stands before it is the same, and what stands after it.
split_nul :
    (s t : String) (x y : List ℕ)
    → HasNoNul s
    → HasNoNul t
    → codes s ++ (0 ∷ x) ≡ codes t ++ (0 ∷ y)
    → (s ≡ t) × (x ≡ y)
split_nul String.[] String.[] x y ns nt h = (refl, cc)
split_nul String.[] (String.◌∷◌ d t) x y ns nt h = absurd (ground arith)
split_nul (String.◌∷◌ c s) String.[] x y ns nt h = absurd (ground arith)
split_nul (String.◌∷◌ c s) (String.◌∷◌ d t) x y ns nt h =
    let same = Char-path c d (head-eq_of_cons-eq h) in
    let r = split_nul s t x y (ground arith) (ground arith) (tail-eq_of_cons-eq h) in
    (cc (same, r.0), r.1)

take_all : {A : Type 0} (xs ys : List A) → take (length xs) (xs ++ ys) ≡ xs
take_all [] [] = refl
take_all [] (y ∷ ys) = refl
take_all (x ∷ xs) ys = ap (◌∷◌ x) (take_all xs ys)

drop_all : {A : Type 0} (xs ys : List A) → drop (length xs) (xs ++ ys) ≡ ys
drop_all [] [] = refl
drop_all [] (y ∷ ys) = refl
drop_all (x ∷ xs) ys = drop_all xs ys

codes-injective : (s t : String) → codes s ≡ codes t → s ≡ t
codes-injective String.[] String.[] h = refl
codes-injective String.[] (String.◌∷◌ d t) h = absurd (cc)
codes-injective (String.◌∷◌ c s) String.[] h = absurd (cc)
codes-injective (String.◌∷◌ c s) (String.◌∷◌ d t) h =
    let same = Char-path c d (head-eq_of_cons-eq h) in
    let rest = codes-injective s t (tail-eq_of_cons-eq h) in cc (same, rest)

-- Three fields of the associated data are free of NUL.
pub record IsClean (a : AssociatedData) : Type 0 where
  pub issuer : HasNoNul a.issuer
  pub audience : HasNoNul a.audience
  pub client_id : HasNoNul a.client_id

-- The bytes that the cipher authenticates determine the issuer, the audience, the client and the
-- type, as long as the first three are free of NUL.
pub associated_data_bytes-injective :
    (a b : AssociatedData)
    → IsClean a
    → IsClean b
    → associated_data_bytes a ≡ associated_data_bytes b
    → a ≡ b
unfolding associated_data_bytes
associated_data_bytes-injective a b ca cb h =
    let (i, h1) = split_nul a.issuer b.issuer _ _ ca.issuer cb.issuer h in
    let (u, h2) = split_nul a.audience b.audience _ _ ca.audience cb.audience h1 in
    let (c, h3) = split_nul a.client_id b.client_id _ _ ca.client_id cb.client_id h2 in
    let k = codes-injective a.kind b.kind h3 in cc (i, u, c, k)

prefix-HasNoDot : HasNoDot token_prefix
prefix-HasNoDot = refl

module _ (c : Crypto) (d : IsDocumented c) {C : Type 0} (j : Json C) where
  abbrev body : (key nonce plain aad : List ℕ) → List ℕ
  body key nonce plain aad = nonce ++ c.seal key nonce plain aad

  abbrev token_of : String → List ℕ → String
  token_of id payload = join_dots (token_prefix ∷ id ∷ c.encode payload ∷ [])

  -- What is left of `Open` for a sealed token whose key is in the keyring.
  opened_body :
      (r : Keyring) (key : Key) (aad : AssociatedData) (nonce sealed : List ℕ)
      → get key.id r.keys ≡ some key
      → IsUsable key
      → length nonce ≡ 12
      → 0 < length sealed
      → open_token c j r (token_of key.id (nonce ++ sealed)) aad ≡ (
          required
            (c.open_sealed key.material nonce sealed (associated_data_bytes aad))
            invalid_token
          >>= λ plain. required (j.unmarshal plain) invalid_token)
  unfolding open_token
  opened_body r key aad nonce sealed found usable n positive =
      let parts =
        split-join token_prefix key.id (c.encode (nonce ++ sealed)) prefix-HasNoDot usable.no_dot
          (d.no_dot (nonce ++ sealed)) in
      let long : ltb 12 (length (nonce ++ sealed)) ≡ true =
        lt→ltb 12 (length (nonce ++ sealed)) (omega (arith, length-append nonce sealed)) in
      let first : take 12 (nonce ++ sealed) ≡ nonce =
        subst (λ m. take m (nonce ++ sealed) ≡ nonce) n (take_all nonce sealed) in
      let last : drop 12 (nonce ++ sealed) ≡ sealed =
        subst (λ m. drop m (nonce ++ sealed) ≡ sealed) n (drop_all nonce sealed) in
      rw
        (
          parts,
          found,
          d.decodes (nonce ++ sealed),
          long,
          d.accepts key.material usable.key_length,
          first,
          last,
        )
        refl

  -- What `Seal` has done where it succeeds.
  sealed_token :
      (r : Keyring) (draw : Result String (List ℕ)) (aad : AssociatedData) (claims : C)
      (token : String)
      → seal_token c j r draw aad claims ≡ ok token
      → (nonce : List ℕ) × (plain : List ℕ) × (draw ≡ ok nonce)
        × (j.marshal claims ≡ ok plain)
        × (token
            ≡ token_of r.active.id (body r.active.material nonce plain (associated_data_bytes aad)))
  unfolding seal_token
  sealed_token r draw aad claims token h = elim (Option-cases (c.new_cipher r.active.material)) [
    | inr (e, refused) ↦ absurd (ground arith)
    | inl accepted ↦ elim (Result-cases draw) [
      | inr (e, failed) ↦ absurd (ground arith)
      | inl (nonce, drawn) ↦ elim (Result-cases (j.marshal claims)) [
        | inr (e, failed) ↦ absurd (ground arith)
        | inl (plain, marshalled) ↦ (
          nonce,
          plain,
          drawn,
          marshalled,
          ok_unique (ok token) _ _ refl (sym (rw (accepted, drawn, marshalled) at h)),
        )
      ]
    ]
  ]

  reopened :
      (r r' : Keyring) (state : String) (nonce : List ℕ) (aad : AssociatedData) (claims : C)
      (token : String)
      → get r.active.id r'.keys ≡ some (record r.active { state = state })
      → IsUsable (record r.active { state = state })
      → length nonce ≡ 12
      → seal_token c j r (ok nonce) aad claims ≡ ok token
      → open_token c j r' token aad ≡ ok claims
  reopened r r' state nonce aad claims token found u n h =
      let k : Key = record r.active { state = state } in
      let (m, plain, drawn, marshalled, is) = sealed_token r (ok nonce) aad claims token h in
      let bytes = associated_data_bytes aad in
      let m12 : length m ≡ 12 = cc (ap length (ok_unique (ok nonce) nonce m refl drawn), n) in
      rw
        (
          is,
          opened_body r' k aad m (c.seal k.material m plain bytes) found u m12
              (d.tagged k.material m plain bytes),
          d.opens k.material m plain bytes,
          j.unmarshals claims plain marshalled,
        )
        refl

  -- A token opens again to the claims that were sealed, with the same associated data, under every
  -- keyring that still has the key, be it active or for decryption only.
  pub seal-open :
      (keys keys' : List Key) (r r' : Keyring) (state : String) (nonce : List ℕ)
      (aad : AssociatedData) (claims : C) (token : String)
      → new_keyring keys ≡ ok r
      → new_keyring keys' ≡ ok r'
      → Occurs (record r.active { state = state }) keys'
      → length nonce ≡ 12
      → seal_token c j r (ok nonce) aad claims ≡ ok token
      → open_token c j r' token aad ≡ ok claims
  seal-open keys keys' r r' state nonce aad claims token made made' still n h =
      let k : Key = record r.active { state = state } in
      let v = new_keyring-IsKeyring keys' r' made' in
      reopened r r' state nonce aad claims token (v.found k still)
        (v.usable k.id k (v.found k still)).0 n h

  pub seal-open_same :
      (keys : List Key) (r : Keyring) (nonce : List ℕ) (aad : AssociatedData) (claims : C)
      (token : String)
      → new_keyring keys ≡ ok r
      → length nonce ≡ 12
      → seal_token c j r (ok nonce) aad claims ≡ ok token
      → open_token c j r token aad ≡ ok claims
  seal-open_same keys r nonce aad claims token made n h =
      let v = new_keyring-IsKeyring keys r made in
      reopened r r r.active.state nonce aad claims token v.active_found
        (v.usable r.active.id r.active v.active_found).0 n h

  -- A token is refused with any other issuer, audience, client or type than it was sealed for, if
  -- issuers, audiences and clients have no NUL in them.
  pub seal-open_other :
      (keys : List Key) (r : Keyring) (nonce : List ℕ) (aad other : AssociatedData) (claims : C)
      (token : String)
      → new_keyring keys ≡ ok r
      → length nonce ≡ 12
      → IsClean aad
      → IsClean other
      → aad ≢ other
      → seal_token c j r (ok nonce) aad claims ≡ ok token
      → open_token c j r token other ≡ err invalid_token
  seal-open_other keys r nonce aad other claims token made n clean clean' differ h =
      let v = new_keyring-IsKeyring keys r made in
      let k = r.active in
      let u = (v.usable k.id k v.active_found).0 in
      let (m, plain, drawn, marshalled, is) = sealed_token r (ok nonce) aad claims token h in
      let bytes = associated_data_bytes aad in
      let m12 : length m ≡ 12 = cc (ap length (ok_unique (ok nonce) nonce m refl drawn), n) in
      let refused =
        d.authenticates k.material m plain bytes (associated_data_bytes other)
          (λ same. differ (associated_data_bytes-injective aad other clean clean' same)) in
      rw
        (
          is,
          opened_body r k other m (c.seal k.material m plain bytes) v.active_found u m12
              (d.tagged k.material m plain bytes),
          refused,
        )
        refl
