-- ===== src/Upload/Url/Dialling.antt =====
-- Which addresses a URL upload connects to (internal/upload/url.go).
use inventree_mcp.Prelude.{
  ℕ, zero, suc, ◌≤◌, ◌-◌, String, List, [], ◌∷◌, Bool, true, false, ◌≡◌, ◌⊎◌, refl, subst, arith,
  inl, inr, Bool-cases, Option-cases, Result-cases, length, All, Result, ok, err, ok_unique,
  bind-ok, pos, negsuc, ℤ,
}
use inventree_mcp.Upload.Url.{
  Url, UrlAllowlistEntry, UrlFetcher, Net, World, Response, Dialled, Turn, ended, after_response,
  Error, onward, blocked_address, allowlist_matches, first_dialled, dial_addresses, dial_target,
  dial, after_dial, request, visit, validate_fetch_url, fetch, fetch_target, parse_fetch_url,
  redirect_bound, broken, answered, redirected,
}

module _ {A : Type 0} (net : Net A) (allowlist : List UrlAllowlistEntry) where
  -- A connection that the policy allows: the target is on the allowlist, or the address is not blocked.
  abbrev pub IsPermitted : Dialled A → Type 0
  IsPermitted d =
      (allowlist_matches net d.target allowlist ≡ true) ⊎ (blocked_address net d.address ≡ false)

module _ {A : Type 0} (net : Net A) where
  first_dialled-permitted :
      (allowlisted : Bool) (addresses : List A) (a : A)
      → first_dialled net allowlisted addresses ≡ ok a
      → (allowlisted ≡ true) ⊎ (blocked_address net a ≡ false)
  unfolding first_dialled
  first_dialled-permitted allowlisted [] a h = absurd (cc h)
  first_dialled-permitted true (x ∷ rest) a h = inl refl
  first_dialled-permitted false (x ∷ rest) a h =
      elim (Bool-cases (blocked_address net (net.unmap x))) [
        | inl blocked ↦ first_dialled-permitted false rest a (rw (first_dialled, blocked) at h)
        | inr open_ ↦ inr (
            subst (λ y. blocked_address net y ≡ false)
              (ok_unique _ _ a refl (rw (first_dialled, open_) at h)) open_)
      ]

  addresses_permitted :
      (allowlisted : Bool) (got : Result String (List A)) (a : A)
      → dial_addresses net allowlisted got ≡ ok a
      → (allowlisted ≡ true) ⊎ (blocked_address net a ≡ false)
  addresses_permitted allowlisted (err e) a h = absurd (cc h)
  addresses_permitted allowlisted (ok []) a h = absurd (cc h)
  addresses_permitted allowlisted (ok (x ∷ rest)) a h =
      first_dialled-permitted allowlisted (x ∷ rest) a h

Turn-cases :
    {A B W : Type 0} (t : Turn A B W)
    → ((r : Result Error B) × (dialled : List (Dialled A)) × (t ≡ ended r dialled))
      ⊎ ((d : Dialled A) × (next : Url) × (w : W) × (t ≡ onward d next w))
Turn-cases (ended r dialled) = inl (r, dialled, refl)
Turn-cases (onward d next w) = inr (d, next, w, refl)

module _ {A B W : Type 0} (net : Net A) (world : World A B W)
    (allowlist : List UrlAllowlistEntry) where
  dial-IsPermitted :
      (url : Url) (w : W) (d : Dialled A)
      → (dial net world allowlist url w).0 ≡ ok d
      → IsPermitted net allowlist d
  dial-IsPermitted url w d h = elim (Option-cases (net.host_port url)) [
    | inl missing ↦ absurd (cc (rw (dial, missing) at h))
    | inr (authority, there) ↦
        let target = dial_target net url authority in
        let listed = allowlist_matches net target allowlist in
        let got = (world.resolve target.hostname w).0 in
        let (a, dialled, same) =
          bind-ok (dial_addresses net listed got) _ _ (rw (dial, there) at h) in
        subst (IsPermitted net allowlist) (ok_unique _ _ d refl same)
          (addresses_permitted net listed got a dialled)
  ]

  abbrev Permits : Turn A B W → Type 0
  Permits (ended r dialled) = All (IsPermitted net allowlist) dialled × (length dialled ≤ 1)
  Permits (onward d next w) = IsPermitted net allowlist d

  after_response-Permits :
      (d : Dialled A) (answer : Response B) (w : W)
      → IsPermitted net allowlist d
      → Permits (after_response net world allowlist d (answer, w))
  after_response-Permits d broken w h = ((h, tt), omega arith)
  after_response-Permits d (answered status body) w h = ((h, tt), omega arith)
  after_response-Permits d (redirected next) w h = h

  after_dial-Permits :
      (url : Url) (got : Result Error (Dialled A)) (w : W)
      → ((d : Dialled A) → got ≡ ok d → IsPermitted net allowlist d)
      → Permits (after_dial net world allowlist url (got, w))
  after_dial-Permits url (err e) w h = (tt, omega arith)
  after_dial-Permits url (ok d) w h =
      after_response-Permits d (world.respond d.address url w).0 (world.respond d.address url w).1
        (h d refl)

  request-Permits : (url : Url) (w : W) → Permits (request net world allowlist url w)
  request-Permits url w =
      after_dial-Permits url (dial net world allowlist url w).0 (dial net world allowlist url w).1
        (dial-IsPermitted url w)

  abbrev Visited : ℕ → List (Dialled A) → Type 0
  Visited left dialled = All (IsPermitted net allowlist) dialled × (length dialled ≤ suc left)

  visit-Visited :
      (left : ℕ) (url : Url) (w : W) → Visited left (visit net world allowlist left url w).1
  unfolding visit
  visit-Visited zero url w = elim (Turn-cases (request net world allowlist url w)) [
    | inl (r, dialled, e) ↦ rw (visit, e) (subst Permits e (request-Permits url w))
    | inr (d, next, w', e) ↦
        rw (visit, e) ((subst Permits e (request-Permits url w), tt), omega arith)
  ]
  visit-Visited (suc left) url w = elim (Turn-cases (request net world allowlist url w)) [
    | inl (r, dialled, e) ↦
        let (all, few) = subst Permits e (request-Permits url w) in
        rw (visit, e) (all, omega (arith, few))
    | inr (d, next, w', e) ↦
        let here = subst Permits e (request-Permits url w) in
        elim (Result-cases (validate_fetch_url net world allowlist next w').0) [
          | inr (x, refused) ↦ rw (visit, e, refused) ((here, tt), omega arith)
          | inl (x, checked) ↦
              let (all, few) =
                visit-Visited left next (validate_fetch_url net world allowlist next w').1 in
              rw (visit, e, checked) ((here, all), omega (arith, few))
        ]
  ]

module _ {A B W : Type 0} (net : Net A) (world : World A B W) (f : UrlFetcher) where
  at_least_one : (n : ℤ) → suc (redirect_bound n - 1) ≤ redirect_bound n
  at_least_one (pos zero) = omega arith
  at_least_one (pos (suc n)) = omega arith
  at_least_one (negsuc n) = omega arith

  -- Whatever the resolver and the servers answer, and whenever they change it, `Fetch` connects only to
  -- addresses that are not blocked, or for targets on the allowlist, also after redirects; and it makes no
  -- more connections than the bound on redirects, which is 3 where none is set.
  pub fetch-IsPermitted :
      (source : String) (w : W)
      → All (IsPermitted net f.allowlist) (fetch net world f source w).1
        × (length (fetch net world f source w).1 ≤ redirect_bound f.max_redirects)
  unfolding fetch
  fetch-IsPermitted source w = elim (Result-cases (parse_fetch_url net source)) [
    | inr (e, bad) ↦ rw (fetch, bad) (tt, omega arith)
    | inl (target, good) ↦
        elim (Result-cases (validate_fetch_url net world f.allowlist target w).0) [
          | inr (e, refused) ↦ rw (fetch, good, fetch_target, refused) (tt, omega arith)
          | inl (x, checked) ↦
              let (all, few) =
                visit-Visited net world f.allowlist (redirect_bound f.max_redirects - 1) target
                  (validate_fetch_url net world f.allowlist target w).1 in
              rw (fetch, good, fetch_target, checked)
                (all, omega (arith, few, at_least_one f.max_redirects))
        ]
  ]
