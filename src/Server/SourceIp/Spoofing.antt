-- ===== src/Server/SourceIp/Spoofing.antt =====
-- A client cannot choose its source address (internal/server/source_ip.go).
use mathlib.Core.List.{append_assoc}
use mathlib.Core.Option.{some-injective}
use inventree_mcp.Prelude.{
  String, List, [], ◌∷◌, ◌++◌, true, false, ◌≡◌, ◌⊎◌, refl, sym, ap, ◌∙◌, inl, inr, Bool-cases,
  Option-cases,
}
use inventree_mcp.Server.SourceIp.{
  Netip, ResolvedSourceIp, onward, directly, forwarded_from, backwards, is_trusted, parse_remote_ip,
  is_comma, resolve,
}
use inventree_mcp.Server.SourceIp.Rightmost.{
  split, segments, candidate, decide_from, outcome, rightmost, Walk-cases, decide_from-append,
  backwards-append, resolve-rightmost,
}

segments-append : (xs ys : List String) → segments (xs ++ ys) ≡ segments xs ++ segments ys
segments-append [] ys = refl
segments-append (x ∷ xs) ys =
    rw (segments-append xs ys) (sym (append_assoc (split is_comma x) (segments xs) (segments ys)))

module _ {A P : Type 0} (ip : Netip A P) (trusted : List P) where
  module _ (peer : A) where
    -- A list that is used up leaves the result as it was, or a trusted address.
    onward_trusted :
        (result r : ResolvedSourceIp A) (xs : List String)
        → decide_from ip trusted peer result xs ≡ onward r
        → (r ≡ result) ⊎ ((b : A) × (r ≡ forwarded_from b) × (is_trusted ip trusted b ≡ true))
    onward_trusted result r [] h = inl (ap outcome (sym h))
    onward_trusted result r (x ∷ xs) h = elim (Option-cases (candidate ip x)) [
      | inl unparsed ↦ absurd (cc (rw (decide_from, unparsed) at h))
      | inr (b, parsed) ↦ elim (Bool-cases (is_trusted ip trusted b)) [
        | inr stranger ↦ absurd (cc (rw (decide_from, parsed, stranger) at h))
        | inl proxy ↦
            elim (onward_trusted (forwarded_from b) r xs (rw (decide_from, parsed, proxy) at h)) [
              | inl same ↦ inr (b, same, proxy)
              | inr later ↦ inr later
            ]
      ]
    ]

    decided :
        (near far : List String) (a : A)
        → outcome (decide_from ip trusted peer (directly peer) near) ≡ forwarded_from a
        → is_trusted ip trusted a ≡ false
        → outcome (decide_from ip trusted peer (directly peer) (near ++ far)) ≡ forwarded_from a
    decided near far a h stranger =
        let split_up = decide_from-append ip trusted peer (directly peer) near far in
        elim (Walk-cases ip trusted peer (decide_from ip trusted peer (directly peer) near)) [
          | inl (r, e) ↦ rw (split_up, e) (rw (e) at h)
          | inr (r, e) ↦ elim (onward_trusted (directly peer) r near e) [
            | inl same ↦ absurd (cc (ap (λ x. x.forwarded) (sym same ∙ (rw (e) at h))))
            | inr (b, same, proxy) ↦
                let as_b = some-injective _ _ (ap (λ x. x.address) (sym same ∙ (rw (e) at h))) in
                absurd (cc (stranger, proxy, as_b))
          ]
        ]

  -- When the values of X-Forwarded-For lead to an address that is not a trusted proxy's, values before
  -- them, which a client can have sent, change nothing.
  pub spoofing_ignored :
      (remote : String) (spoofed values : List String) (a : A)
      → resolve ip trusted remote values ≡ forwarded_from a
      → is_trusted ip trusted a ≡ false
      → resolve ip trusted remote (spoofed ++ values) ≡ forwarded_from a
  spoofing_ignored remote spoofed values a h stranger =
      resolve-rightmost ip trusted remote (spoofed ++ values)
      ∙ lifted (sym (resolve-rightmost ip trusted remote values) ∙ h)
    where
      lifted :
          rightmost ip trusted remote values ≡ forwarded_from a
          → rightmost ip trusted remote (spoofed ++ values) ≡ forwarded_from a
      lifted k = elim (Option-cases (parse_remote_ip ip remote)) [
        | inl unknown ↦ absurd (cc (ap (λ x. x.forwarded) (rw (rightmost, unknown) at k)))
        | inr (peer, known) ↦ elim (Bool-cases (is_trusted ip trusted peer)) [
          | inr unproxied ↦
              absurd (cc (ap (λ x. x.forwarded) (rw (rightmost, known, unproxied) at k)))
          | inl proxied ↦
              rw
                (
                  rightmost,
                  known,
                  proxied,
                  segments-append spoofed values,
                  backwards-append (segments spoofed) (segments values),
                )
                (decided peer (backwards (segments values)) (backwards (segments spoofed)) a
                  (rw (rightmost, known, proxied) at k) stranger)
        ]
      ]
