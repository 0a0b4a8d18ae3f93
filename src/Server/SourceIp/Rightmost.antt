-- ===== src/Server/SourceIp/Rightmost.antt =====
-- Which address the resolver of internal/server/source_ip.go takes, against a definition that splits the
-- header values at their commas.
use Prim.Native.Char.{Char}
use mathlib.Core.List.{append-nil, append_assoc}
use inventree_mcp.Prelude.{
  ℕ, zero, suc, ◌<◌, String, Option, none, some, List, [], ◌∷◌, ◌++◌, Bool, true, false, ◌≡◌, ◌⊎◌,
  subst, refl, sym, ap, ◌∙◌, arith, inl, inr, Bool-cases, Option-cases, if◌then◌else◌,
}
use inventree_mcp.Text.{trim_space, text_length, split_last, cons_last}
use inventree_mcp.Server.SourceIp.{
  Netip, ResolvedSourceIp, Walk, returned, onward, is_comma, directly, backwards, is_trusted,
  unmapped, parse_remote_ip, walk_candidate, walk_value, walk_values, resolve,
}

abbrev add_segment : Bool → Char → List String → List String
add_segment true c segments = "" ∷ segments
add_segment false c [] = String.◌∷◌ c "" ∷ []
add_segment false c (s ∷ segments) = String.◌∷◌ c s ∷ segments

-- `strings.Split` at a character
unfoldable pub split : (Char → Bool) → String → List String
split test String.[] = "" ∷ []
split test (String.◌∷◌ c s) = add_segment (test c) c (split test s)

-- the segments of a value, from its own split
SplitCase : (Char → Bool) → String → Option (String × String) → Type 0
SplitCase test s none = split test s ≡ s ∷ []
SplitCase test s (some (before, after)) =
    (split test s ≡ split test before ++ (after ∷ [])) × (text_length before < text_length s)

split_nonempty :
    (test : Char → Bool) (s : String) → (x : String) × (xs : List String) × (split test s ≡ x ∷ xs)
unfolding split
split_nonempty test String.[] = ("", [], refl)
split_nonempty test (String.◌∷◌ c s) = elim (Bool-cases (test c)) [
  | inl sep ↦ ("", split test s, rw (sep) refl)
  | inr plain ↦ let (x, xs, e) = split_nonempty test s in (String.◌∷◌ c x, xs, rw (plain, e) refl)
]

split_step :
    (test : Char → Bool) (c : Char) (s : String) (b : Bool) (o : Option (String × String))
    → test c ≡ b
    → SplitCase test s o
    → SplitCase test (String.◌∷◌ c s) (cons_last b c s o)
unfolding split SplitCase
split_step test c s true none e h = (rw (e, h) refl, omega arith)
split_step test c s false none e h = rw (e, h) refl
split_step test c s true (some (before, after)) e (h, less) = (rw (e, h) refl, omega (arith, less))
split_step test c s false (some (before, after)) e (h, less) =
    let (x, xs, there) = split_nonempty test before in (rw (e, h, there) refl, omega (arith, less))

split_last-split : (test : Char → Bool) (s : String) → SplitCase test s (split_last test s)
unfolding split_last SplitCase split
split_last-split test String.[] = refl
split_last-split test (String.◌∷◌ c s) =
    split_step test c s (test c) (split_last test s) refl (split_last-split test s)

module _ {A : Type 0} where
  pub backwards-append : (xs ys : List A) → backwards (xs ++ ys) ≡ backwards ys ++ backwards xs
  backwards-append [] ys = sym (append-nil (backwards ys))
  backwards-append (x ∷ xs) ys =
      rw (backwards-append xs ys) (append_assoc (backwards ys) (backwards xs) (x ∷ []))

-- every segment of the values, in their order
abbrev pub segments : List String → List String
segments [] = []
segments (value ∷ values) = split is_comma value ++ segments values

abbrev pub outcome : {A : Type 0} → Walk A → ResolvedSourceIp A
outcome (returned r) = r
outcome (onward r) = r

-- the same from the last to the first, for values in that order
abbrev reversed_segments : List String → List String
reversed_segments [] = []
reversed_segments (value ∷ values) = backwards (split is_comma value) ++ reversed_segments values

reversed_segments-append :
    (xs ys : List String)
    → reversed_segments (xs ++ ys) ≡ reversed_segments xs ++ reversed_segments ys
reversed_segments-append [] ys = refl
reversed_segments-append (x ∷ xs) ys = rw (reversed_segments-append xs ys) (
    sym (append_assoc (backwards (split is_comma x)) (reversed_segments xs) (reversed_segments ys)))

reversed_segments-backwards :
    (values : List String) → reversed_segments (backwards values) ≡ backwards (segments values)
reversed_segments-backwards [] = refl
reversed_segments-backwards (value ∷ values) =
    reversed_segments-append (backwards values) (value ∷ [])
    ∙ rw
        (
          reversed_segments-backwards values,
          append-nil (backwards (split is_comma value)),
          backwards-append (split is_comma value) (segments values),
        )
        refl

module _ {A P : Type 0} (ip : Netip A P) where
  abbrev pub candidate : String → Option A
  candidate s = unmapped ip (ip.parse_addr (trim_space s))

  -- What a list of candidates decides, the nearest first: the first that is no address or is not trusted.
  abbrev pub decide_from : List P → A → ResolvedSourceIp A → List String → Walk A
  decide_from trusted peer result [] = onward result
  decide_from trusted peer result (s ∷ rest) = elim (walk_candidate ip trusted peer (candidate s)) [
    | returned r ↦ returned r
    | onward r ↦ decide_from trusted peer r rest
  ]

  abbrev pub rightmost : List P → String → List String → ResolvedSourceIp A
  rightmost trusted remote values = elim (parse_remote_ip ip remote) [
    | none ↦ record { address = none; forwarded = false }
    | some peer ↦
        if is_trusted ip trusted peer
        then outcome (decide_from trusted peer (directly peer) (backwards (segments values)))
        else directly peer
  ]

  module _ (trusted : List P) (peer : A) where
    pub Walk-cases :
        (w : Walk A)
        → ((r : ResolvedSourceIp A) × (w ≡ returned r))
          ⊎ ((r : ResolvedSourceIp A) × (w ≡ onward r))
    Walk-cases (returned r) = inl (r, refl)
    Walk-cases (onward r) = inr (r, refl)

    walk_value-decide_from :
        (fuel : ℕ) (s : String) (result : ResolvedSourceIp A)
        → text_length s < fuel
        → walk_value ip trusted peer fuel s
          ≡ decide_from trusted peer result (backwards (split is_comma s))
    unfolding walk_value SplitCase
    walk_value-decide_from zero s result enough = absurd (omega (arith, enough))
    walk_value-decide_from (suc fuel) s result enough =
        let found = split_last-split is_comma s in
        elim (Option-cases (split_last is_comma s)) [
          | inl last ↦
              let whole = subst (SplitCase is_comma s) last found in
              elim (Walk-cases (walk_candidate ip trusted peer (candidate s))) [
                | inl (r, e) ↦ rw (walk_value, last, whole, decide_from, e) refl
                | inr (r, e) ↦ rw (walk_value, last, whole, decide_from, e, last) refl
              ]
          | inr ((before, after), last) ↦
              let (parts, less) = subst (SplitCase is_comma s) last found in
              elim (Walk-cases (walk_candidate ip trusted peer (candidate after))) [
                | inl (r, e) ↦
                    rw
                      (
                        walk_value,
                        last,
                        parts,
                        backwards-append (split is_comma before) (after ∷ []),
                        decide_from,
                        e,
                      )
                      refl
                | inr (r, e) ↦
                    rw
                      (
                        walk_value,
                        last,
                        parts,
                        backwards-append (split is_comma before) (after ∷ []),
                        decide_from,
                        e,
                        last,
                      )
                      (walk_value-decide_from fuel before r (omega (arith, less, enough)))
              ]
        ]

    pub decide_from-append :
        (result : ResolvedSourceIp A) (xs ys : List String)
        → decide_from trusted peer result (xs ++ ys) ≡ (elim (decide_from trusted peer result xs) [
          | returned r ↦ returned r
          | onward r ↦ decide_from trusted peer r ys
        ])
    decide_from-append result [] ys = refl
    decide_from-append result (x ∷ xs) ys =
        elim (Walk-cases (walk_candidate ip trusted peer (candidate x))) [
          | inl (r, e) ↦ rw (decide_from, e) refl
          | inr (r, e) ↦ rw (decide_from, e) (decide_from-append r xs ys)
        ]

    walk_values-decide_from :
        (result : ResolvedSourceIp A) (values : List String)
        → walk_values ip trusted peer result values
          ≡ outcome (decide_from trusted peer result (reversed_segments values))
    unfolding walk_values
    walk_values-decide_from result [] = refl
    walk_values-decide_from result (value ∷ values) =
        let here = walk_value-decide_from (suc (text_length value)) value result (omega arith) in
        let split_up =
          decide_from-append result (backwards (split is_comma value)) (reversed_segments values) in
        elim (Walk-cases (decide_from trusted peer result (backwards (split is_comma value)))) [
          | inl (r, e) ↦ rw (walk_values, here, split_up, e) refl
          | inr (r, e) ↦ rw (walk_values, here, split_up, e) (walk_values-decide_from r values)
        ]

  -- `resolve` takes the same address as its definition on the values split at their commas: that of a peer
  -- that is not trusted; else, from the last segment of the last value to the first of the first, that
  -- of the first candidate that is not trusted, or of the peer if one before it is no address; and the
  -- leftmost candidate, or the peer without any, if all are trusted.
  pub resolve-rightmost :
      (trusted : List P) (remote : String) (values : List String)
      → resolve ip trusted remote values ≡ rightmost trusted remote values
  unfolding resolve
  resolve-rightmost trusted remote values = elim (Option-cases (parse_remote_ip ip remote)) [
    | inl unknown ↦ rw (resolve, rightmost, unknown) refl
    | inr (peer, known) ↦ elim (Bool-cases (is_trusted ip trusted peer)) [
      | inr stranger ↦ rw (resolve, rightmost, known, stranger) refl
      | inl proxy ↦
          rw (resolve, rightmost, known, proxy)
            (walk_values-decide_from trusted peer (directly peer) (backwards values)
              ∙ ap (λ l. outcome (decide_from trusted peer (directly peer) l))
                  (reversed_segments-backwards values))
    ]
  ]
