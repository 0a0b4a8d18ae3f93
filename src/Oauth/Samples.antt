-- ===== src/Oauth/Samples.antt =====
-- Concrete functions in the place of crypto/cipher and encoding/base64, which have
-- the laws that internal/oauth/envelope.go relies on. They hide nothing: they are for tests.
pub mod Claims
use Prim.Native.Char.{Char, code}
use inventree_mcp.Prelude.{
  ℕ, zero, suc, ◌≡◌, ◌≢◌, refl, ap, sym, arith, String, Option, none, some, List, [], ◌∷◌, ◌++◌,
  Bool, true, false, ◌==◌, eq_iff, eqb, eqb_iff, ◌&&◌, if◌then◌else◌, length, get_elem?, Result, ok,
  err, Bool-cases, Option-cases, inl, inr, subst, ok_unique,
}
use inventree_mcp.Oauth.Text.{is_dot, contains}
use inventree_mcp.Oauth.Text.Laws.{HasNoDot}
use inventree_mcp.Oauth.Envelope.{Crypto, IsDocumented, Json}
use inventree_mcp.Oauth.Claims.{Credential, TokenClaims, AuthorizationCodeClaims}

-- What is left of the second list after the first.
unfoldable strip : List ℕ → List ℕ → Option (List ℕ)
strip [] c = some c
strip (x ∷ a) [] = none
strip (x ∷ a) (y ∷ c) = let rest = strip a c in if eqb x y then rest else none

strip_same : (a p : List ℕ) → strip a (a ++ p) ≡ some p
unfolding strip
strip_same [] p = refl
strip_same (x ∷ a) p = ground (arith, strip_same a p, eqb_iff x x)

strip_other : (a b p : List ℕ) → length a ≡ length b → a ≢ b → strip b (a ++ p) ≡ none
unfolding strip
strip_other [] [] p l n = absurd (n refl)
strip_other [] (y ∷ b) p l n = absurd (omega (arith, l))
strip_other (x ∷ a) [] p l n = absurd (omega (arith, l))
strip_other (x ∷ a) (y ∷ b) p l n = elim (Bool-cases (eqb y x)) [
  | inl e ↦
      let same : y ≡ x = (eqb_iff y x).0 e in
      rw e (strip_other a b p (omega (arith, l)) (λ h. n (cc (same, h))))
  | inr e ↦ rw e refl
]

unfoldable pub unsealed : List ℕ → List ℕ → Option (List ℕ)
unfolding strip
unsealed [] aad = none
unsealed (m ∷ c) aad = if eqb m (length aad) then strip aad c else none

unfoldable unary : ℕ → String → String
unary zero s = String.◌∷◌ "b" s
unary (suc n) s = String.◌∷◌ "a" (unary n s)

unfoldable pub written : List ℕ → String
unfolding unary
written [] = ""
written (n ∷ l) = unary n (written l)

-- one more on the first number
unfoldable more : Option (List ℕ) → Option (List ℕ)
more (some (n ∷ l)) = some (suc n ∷ l)
more _ = none

unfoldable zero_first : Option (List ℕ) → Option (List ℕ)
zero_first none = none
zero_first (some l) = some (0 ∷ l)

unfoldable pub read : String → Option (List ℕ)
unfolding more zero_first
read String.[] = some []
read (String.◌∷◌ c s) = let rest = read s in if eqb (code c) 97 then more rest else zero_first rest

read-unary : (n : ℕ) (s : String) (l : List ℕ) → read s ≡ some l → read (unary n s) ≡ some (n ∷ l)
unfolding read unary
read-unary zero s l h = rw h refl
read-unary (suc n) s l h = rw (read-unary n s l h) refl

read-written : (l : List ℕ) → read (written l) ≡ some l
unfolding read written
read-written [] = refl
read-written (n ∷ l) = read-unary n (written l) l (read-written l)

unary-HasNoDot : (n : ℕ) (s : String) → HasNoDot s → HasNoDot (unary n s)
unfolding unary
unary-HasNoDot zero s h = h
unary-HasNoDot (suc n) s h = unary-HasNoDot n s h

written-HasNoDot : (l : List ℕ) → HasNoDot (written l)
unfolding written
written-HasNoDot [] = refl
written-HasNoDot (n ∷ l) = unary-HasNoDot n (written l) (written-HasNoDot l)

abbrev pub plain_crypto : Crypto
plain_crypto = record {
  new_cipher = λ key. if eqb (length key) 32 then none else some "key size";
  seal = λ key nonce plain aad. length aad ∷ (aad ++ plain);
  open_sealed = λ key nonce sealed aad. unsealed sealed aad;
  encode = written;
  decode = read;
}

authenticated : (a b p : List ℕ) → a ≢ b → unsealed (length a ∷ (a ++ p)) b ≡ none
unfolding unsealed
authenticated a b p n = elim (Bool-cases (eqb (length a) (length b))) [
  | inl e ↦ rw e (strip_other a b p ((eqb_iff (length a) (length b)).0 e) n)
  | inr e ↦ rw e refl
]

unsealed_same : (a p : List ℕ) → unsealed (length a ∷ (a ++ p)) a ≡ some p
unfolding unsealed
unsealed_same a p = rw ((eqb_iff (length a) (length a)).1 refl) (strip_same a p)

pub plain_crypto-IsDocumented : IsDocumented plain_crypto
plain_crypto-IsDocumented = record {
  accepts = λ key h. rw ((eqb_iff (length key) 32).1 h) refl;
  opens = λ key nonce plain aad. unsealed_same aad plain;
  tagged = λ key nonce plain aad. omega arith;
  authenticates = λ key nonce plain aad other n. authenticated aad other plain n;
  decodes = read-written;
  no_dot = written-HasNoDot;
}
