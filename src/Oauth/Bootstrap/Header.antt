-- ===== src/Oauth/Bootstrap/Header.antt =====
-- What `parseBootstrapAuthorization` of internal/oauth/bootstrap.go accepts.
use Prim.Native.Char.{Char}
use inventree_mcp.Prelude.{
  String, some, true, ◌≡◌, ◌≢◌, inl, inr, refl, sym, ◌∙◌, arith, ◌==◌, ◌||◌, ltb, Bool-cases,
  Option-cases, ok, str_ne,
}
use mathlib.Core.Option.{some-injective}
use inventree_mcp.Text.{trim_left, trim_space, is_space, split_first}
use inventree_mcp.Text.Trim.{
  IsTrimmed, trim_right-IsTrimmed, split_first-IsTrimmed, trim_right-trim_left,
}
use inventree_mcp.Oauth.Claims.{Credential, validate}
use inventree_mcp.Oauth.Bootstrap.{
  Library, is_blank, credential_of, cut, parse_trimmed, parse_bootstrap_authorization,
  max_bootstrap_auth_header_bytes,
}

blank_space : (c : Char) → is_blank c ≡ true → is_space c ≡ true
blank_space c h = ground arith

trimmed_value : (v : String) → IsTrimmed is_space v → v ≢ "" → trim_space v ≢ ""
trimmed_value v t n = trim_right-trim_left is_space v (λ e. n (sym t ∙ e))

module _ (lib : Library) where
  credential_of-validate :
      (scheme value : String) (c : Credential)
      → value ≢ ""
      → credential_of lib scheme value ≡ some c
      → validate c ≡ ok tt
  credential_of-validate scheme value c n h = elim (Bool-cases (lib.equal_fold scheme "Basic")) [
    | inl basic ↦ rw (← some-injective _ _ (rw (credential_of, basic) at h), str_ne value "" n) refl
    | inr e ↦ elim (Bool-cases (lib.equal_fold scheme "Token")) [
      | inl token ↦
          rw (← some-injective _ _ (rw (credential_of, e, token) at h), str_ne value "" n) refl
      | inr e' ↦ elim (Bool-cases (lib.equal_fold scheme "Bearer")) [
        | inl bearer ↦
            rw (← some-injective _ _ (rw (credential_of, e, e', bearer) at h), str_ne value "" n)
              refl
        | inr e'' ↦ absurd (cc (rw (credential_of, e, e', e'') at h))
      ]
    ]
  ]

  -- Every credential that is read from an `Authorization` header has one of the three schemes and a token
  -- that is not blank, so that it is a valid credential.
  pub parse_bootstrap_authorization-validate :
      (header : String) (c : Credential)
      → parse_bootstrap_authorization lib header ≡ some c
      → validate c ≡ ok tt
  parse_bootstrap_authorization-validate header c h =
      let s = trim_space header in
      elim (Bool-cases (s == "" || ltb max_bootstrap_auth_header_bytes (lib.byte_length s))) [
        | inl refused ↦ absurd (cc (rw (parse_trimmed, refused) at h))
        | inr fine ↦ elim (Option-cases (split_first is_blank s).1) [
          | inl whole ↦ absurd (cc (rw (parse_trimmed, fine, cut, whole) at h))
          | inr (v, found) ↦
              let (t, n) =
                split_first-IsTrimmed is_space is_blank blank_space s v found
                  (trim_right-IsTrimmed is_space (trim_left is_space header)) in
              credential_of-validate (split_first is_blank s).0 (trim_space v) c
                (trimmed_value v t n) (rw (parse_trimmed, fine, cut, found) at h)
        ]
      ]
