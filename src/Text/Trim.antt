-- ===== src/Text/Trim.antt =====
-- What trimming leaves behind: laws of `trim_left`, `trim_right` and `split_first`.
use Prim.Native.Char.{Char}
use inventree_mcp.Prelude.{String, some, Bool, true, false, ◌≡◌, ◌≢◌, inl, inr, refl, Bool-cases}
use mathlib.Core.Option.{some-injective}
use inventree_mcp.Text.{trim_left, trim_right, split_first, cons_unless}

module _ (test : Char → Bool) where
  -- nothing of the text would be trimmed on the right
  abbrev pub IsTrimmed : String → Type 0
  IsTrimmed s = trim_right test s ≡ s

  cons_unless-IsTrimmed :
      (b : Bool) (c : Char) (s : String) → test c ≡ b → IsTrimmed s → IsTrimmed (cons_unless b c s)
  unfolding trim_right
  cons_unless-IsTrimmed true c String.[] h t = refl
  cons_unless-IsTrimmed true c (String.◌∷◌ d s) h t = rw (trim_right, h, t) refl
  cons_unless-IsTrimmed false c String.[] h t = rw (trim_right, h) refl
  cons_unless-IsTrimmed false c (String.◌∷◌ d s) h t = rw (trim_right, h, t) refl

  pub trim_right-IsTrimmed : (s : String) → IsTrimmed (trim_right test s)
  unfolding trim_right
  trim_right-IsTrimmed String.[] = refl
  trim_right-IsTrimmed (String.◌∷◌ c s) =
      cons_unless-IsTrimmed (test c) c (trim_right test s) refl (trim_right-IsTrimmed s)

  cons_unless-tail :
      (b : Bool) (c : Char) (r s : String) → cons_unless b c r ≡ String.◌∷◌ c s → r ≡ s
  cons_unless-tail true c String.[] s h = absurd (cc h)
  cons_unless-tail true c (String.◌∷◌ d r) s h = cc
  cons_unless-tail false c String.[] s h = cc
  cons_unless-tail false c (String.◌∷◌ d r) s h = cc

  tail-IsTrimmed : (c : Char) (s : String) → IsTrimmed (String.◌∷◌ c s) → IsTrimmed s
  unfolding trim_right
  tail-IsTrimmed c s h = cons_unless-tail (test c) c (trim_right test s) s h

  -- A text that ends in a character that is trimmed is not trimmed.
  IsTrimmed-nonempty : (c : Char) (s : String) → test c ≡ true → IsTrimmed (String.◌∷◌ c s) → s ≢ ""
  unfolding trim_right
  IsTrimmed-nonempty c String.[] h t = absurd (cc (rw (trim_right, h) at t))
  IsTrimmed-nonempty c (String.◌∷◌ d s) h t = λ e. cc e

  -- What stands after the first separator of a trimmed text is trimmed and not empty, when separators are
  -- trimmed.
  pub split_first-IsTrimmed :
      (is : Char → Bool) (implies : (c : Char) → is c ≡ true → test c ≡ true) (s v : String)
      → (split_first is s).1 ≡ some v
      → IsTrimmed s
      → IsTrimmed v × (v ≢ "")
  unfolding split_first
  split_first-IsTrimmed is implies String.[] v h t = absurd (cc h)
  split_first-IsTrimmed is implies (String.◌∷◌ c s) v h t = elim (Bool-cases (is c)) [
    | inl here_ ↦
        let same = some-injective _ _ (rw (split_first, here_) at h) in
        rw (← same) (tail-IsTrimmed c s t, IsTrimmed-nonempty c s (implies c here_) t)
    | inr later ↦
        split_first-IsTrimmed is implies s v (rw (split_first, later) at h) (tail-IsTrimmed c s t)
  ]

  cons_unless-empty :
      (b : Bool) (c : Char) (s : String) → b ≡ true → s ≡ "" → cons_unless b c s ≡ ""
  cons_unless-empty b c s h e = rw (h, e) refl

  -- Trimming on the left first leaves something, if trimming on the right does.
  pub trim_right-trim_left :
      (s : String) → trim_right test s ≢ "" → trim_right test (trim_left test s) ≢ ""
  unfolding trim_left trim_right
  trim_right-trim_left String.[] h = h
  trim_right-trim_left (String.◌∷◌ c s) h = elim (Bool-cases (test c)) [
    | inr stays ↦ rw (trim_left, stays) h
    | inl goes ↦
        rw (trim_left, goes)
          (trim_right-trim_left s
            (λ e. h (cons_unless-empty (test c) c (trim_right test s) goes e)))
  ]
