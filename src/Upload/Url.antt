-- ===== src/Upload/Url.antt =====
-- Uploads from a URL: internal/upload/url.go, up to the body of the response. URLs, addresses and the case of
-- texts are a parameter without laws; the resolver and the servers answer in a world that may change
-- at each call. Timeouts and the reading of the body are left out.
pub mod Dialling
use inventree_mcp.Prelude.{
  ℕ, zero, suc, ◌-◌, String, Option, none, some, List, [], ◌∷◌, Bool, true, false, ◌==◌, ◌&&◌, ◌||◌,
  not, leb, ltb, if◌then◌else◌, ℤ, pos, negsuc, is_positive, Result, ok, err, ◌>>=◌,
}
use inventree_mcp.Text.{trim_space}

-- `url.URL`, as far as the code reads it: `Scheme`, `Hostname()`, `Port()` and whether `User` is set
pub record Url : Type 0 where
  pub scheme : String
  pub hostname : String
  pub port : String
  pub has_user : Bool

pub record UrlAllowlistEntry : Type 0 where
  pub scheme : String
  pub host : String
  pub port : String

-- `net/url`, `net/netip` and `strings`
pub record Net (A : Type 0) : Type 0 where
  pub parse_url : String → Option Url
  -- host and port that `net/http` dials for a URL, as `net.SplitHostPort` splits them
  pub host_port : Url → Option (String × String)
  pub equal_fold : String → String → Bool
  pub to_lower : String → String
  pub trim_suffix : String → String → String
  pub unmap : A → A
  pub is_valid : A → Bool
  pub is_loopback : A → Bool
  pub is_private : A → Bool
  pub is_link_local_unicast : A → Bool
  pub is_link_local_multicast : A → Bool
  pub is_multicast : A → Bool
  pub is_unspecified : A → Bool
  pub is_4in6 : A → Bool
  pub is_4 : A → Bool
  -- `netip.MustParsePrefix(s).Contains`
  pub contains : String → A → Bool

pub data Response (B : Type 0) : Type 0 where
  broken : Response B
  redirected : Url → Response B
  answered : ℕ → B → Response B

-- The resolver, and what a server at an address answers.
pub record World (A B W : Type 0) : Type 0 where
  pub resolve : String → W → Result String (List A) × W
  pub respond : A → Url → W → Response B × W

pub data Error : Type 0 where
  unparsed unsupported_scheme host_required userinfo_included resolve_failed no_addresses
        blocked_by_policy redirect_limit fetch_failed :
      Error
  returned_status : ℕ → Error

pub record UrlFetcher : Type 0 where
  pub max_redirects : ℤ
  pub allowlist : List UrlAllowlistEntry

-- A connection: the URL that was dialled for, and the address.
pub record Dialled (A : Type 0) : Type 0 where
  pub target : Url
  pub address : A

-- One request of `client.Do`: the end, or a redirect.
pub data Turn (A B W : Type 0) : Type 0 where
  ended : Result Error B → List (Dialled A) → Turn A B W
  onward : Dialled A → Url → W → Turn A B W

abbrev pub effective_port : Url → String
effective_port target =
    if not (target.port == "")
    then target.port
    else if target.scheme == "http"
    then "80"
    else if target.scheme == "https"
    then "443"
    else ""

-- `maxRedirects`, at least 1
abbrev pub redirect_bound : ℤ → ℕ
redirect_bound (pos zero) = 3
redirect_bound (pos (suc n)) = suc n
redirect_bound (negsuc n) = 3

module _ {A : Type 0} (net : Net A) where
  abbrev pub within_any : List String → A → Bool
  within_any [] a = false
  within_any (prefix ∷ prefixes) a = net.contains prefix a || within_any prefixes a

  abbrev pub blocked_ipv4 : A → Bool
  blocked_ipv4 a =
      within_any
        ("0.0.0.0/8" ∷ "10.0.0.0/8" ∷ "100.64.0.0/10" ∷ "127.0.0.0/8" ∷ "169.254.0.0/16"
          ∷ "172.16.0.0/12" ∷ "192.0.0.0/24" ∷ "192.0.2.0/24" ∷ "192.168.0.0/16" ∷ "198.18.0.0/15"
          ∷ "198.51.100.0/24" ∷ "203.0.113.0/24" ∷ "224.0.0.0/4" ∷ "240.0.0.0/4" ∷ [])
        a

  abbrev pub blocked_ipv6 : A → Bool
  blocked_ipv6 a =
      within_any
        ("::/128" ∷ "::1/128" ∷ "::ffff:0:0/96" ∷ "64:ff9b::/96" ∷ "100::/64" ∷ "2001::/23"
          ∷ "2001:db8::/32" ∷ "fc00::/7" ∷ "fe80::/10" ∷ "ff00::/8" ∷ [])
        a

  abbrev pub blocked_unmapped : A → Bool
  blocked_unmapped a =
      if not (net.is_valid a)
      then true
      else if net.is_loopback a
          || net.is_private a
          || net.is_link_local_unicast a
          || net.is_link_local_multicast a
          || net.is_multicast a
          || net.is_unspecified a
      then true
      else if net.is_4in6 a
      then true
      else if net.is_4 a
      then blocked_ipv4 a
      else blocked_ipv6 a

  unfoldable pub blocked_address : A → Bool
  blocked_address a = blocked_unmapped (net.unmap a)

  abbrev pub normalized_host : String → String
  normalized_host host = net.trim_suffix (net.to_lower (trim_space host)) "."

  abbrev pub entry_matches : Url → UrlAllowlistEntry → Bool
  entry_matches target entry =
      net.equal_fold entry.scheme target.scheme
      && normalized_host entry.host == normalized_host target.hostname
      && entry.port == effective_port target

  unfoldable pub allowlist_matches : Url → List UrlAllowlistEntry → Bool
  allowlist_matches target [] = false
  allowlist_matches target (entry ∷ entries) =
      entry_matches target entry || allowlist_matches target entries

  abbrev pub accepted_url : Option Url → Result Error Url
  accepted_url none = err unparsed
  accepted_url (some url) =
      if not (url.scheme == "http") && not (url.scheme == "https")
      then err unsupported_scheme
      else if url.hostname == ""
      then err host_required
      else if url.has_user
      then err userinfo_included
      else ok url

  abbrev pub parse_fetch_url : String → Result Error Url
  parse_fetch_url raw = accepted_url (net.parse_url (trim_space raw))

  abbrev pub any_blocked : List A → Bool
  any_blocked [] = false
  any_blocked (a ∷ rest) = blocked_address a || any_blocked rest

  -- `validateFetchURL` on what the resolver answered
  abbrev pub check_addresses :
      List UrlAllowlistEntry → Url → Result String (List A) → Result Error (Unit {0})
  check_addresses allowlist target (err e) = err resolve_failed
  check_addresses allowlist target (ok []) = err no_addresses
  check_addresses allowlist target (ok (a ∷ rest)) =
      if allowlist_matches target allowlist
      then ok tt
      else if any_blocked (a ∷ rest)
      then err blocked_by_policy
      else ok tt

  -- the loop of `DialContext`: the first address that may be dialled
  unfoldable pub first_dialled : Bool → List A → Result Error A
  first_dialled allowlisted [] = err blocked_by_policy
  first_dialled allowlisted (a ∷ rest) =
      let later = first_dialled allowlisted rest in
      if not allowlisted && blocked_address (net.unmap a) then later else ok (net.unmap a)

  abbrev pub dial_addresses : Bool → Result String (List A) → Result Error A
  dial_addresses allowlisted (err e) = err resolve_failed
  dial_addresses allowlisted (ok []) = err no_addresses
  dial_addresses allowlisted (ok (a ∷ rest)) = first_dialled allowlisted (a ∷ rest)

  -- `&url.URL{Scheme: scheme, Host: net.JoinHostPort(host, port)}`
  abbrev pub dial_target : Url → String × String → Url
  dial_target url (host, port) = record {
    scheme = url.scheme;
    hostname = host;
    port = port;
    has_user = false;
  }

module _ {A B W : Type 0} (net : Net A) (world : World A B W)
    (allowlist : List UrlAllowlistEntry) where
  -- `validateFetchURL`
  abbrev pub validate_fetch_url : Url → W → Result Error (Unit {0}) × W
  validate_fetch_url target w =
      let (got, w') = world.resolve target.hostname w in
      (check_addresses net allowlist target got, w')

  abbrev pub dial_resolved : Url → Option (String × String) → W → Result Error (Dialled A) × W
  dial_resolved url none w = (err fetch_failed, w)
  dial_resolved url (some authority) w =
      let target = dial_target net url authority in
      let (got, w') = world.resolve target.hostname w in
      (
        dial_addresses net (allowlist_matches net target allowlist) got >>= λ a.
            ok (record { target = target; address = a }),
        w',
      )

  -- `DialContext` of `secureURLTransport`, for the request of a URL
  abbrev pub dial : Url → W → Result Error (Dialled A) × W
  dial url w = dial_resolved url (net.host_port url) w

  abbrev pub checked_response : ℕ → B → Result Error B
  checked_response status body =
      if ltb status 200 || leb 300 status then err (returned_status status) else ok body

  abbrev pub after_response : Dialled A → Response B × W → Turn A B W
  after_response d (broken, w) = ended (err fetch_failed) (d ∷ [])
  after_response d (answered status body, w) = ended (checked_response status body) (d ∷ [])
  after_response d (redirected next, w) = onward d next w

  abbrev pub after_dial : Url → Result Error (Dialled A) × W → Turn A B W
  after_dial url (err e, w) = ended (err fetch_failed) []
  after_dial url (ok d, w) = after_response d (world.respond d.address url w)

  -- one request
  abbrev pub request : Url → W → Turn A B W
  request url w = after_dial url (dial url w)

  -- The requests of `client.Do`: `left` is how often `CheckRedirect` still lets a redirect through. The
  -- connections are recorded, in their order.
  unfoldable pub visit : ℕ → Url → W → Result Error B × List (Dialled A)
  visit zero url w = elim (request url w) [
    | ended r dialled ↦ (r, dialled)
    | onward d next w' ↦ (err fetch_failed, d ∷ [])
  ]
  visit (suc left) url w = elim (request url w) [
    | ended r dialled ↦ (r, dialled)
    | onward d next w' ↦
        let (r, dialled) = visit left next (validate_fetch_url next w').1 in
        elim (validate_fetch_url next w').0 [
          | err e ↦ (err fetch_failed, d ∷ [])
          | ok _ ↦ (r, d ∷ dialled)
        ]
  ]

  abbrev pub fetch_target : UrlFetcher → Url → W → Result Error B × List (Dialled A)
  fetch_target f target w = elim (validate_fetch_url target w).0 [
    | err e ↦ (err e, [])
    | ok _ ↦ visit (redirect_bound f.max_redirects - 1) target (validate_fetch_url target w).1
  ]

module _ {A B W : Type 0} (net : Net A) (world : World A B W) where
  -- `Fetch`, up to the body, with the connections that it makes
  unfoldable pub fetch : UrlFetcher → String → W → Result Error B × List (Dialled A)
  fetch f source w = elim (parse_fetch_url net source) [
    | err e ↦ (err e, [])
    | ok target ↦ fetch_target net world f.allowlist f target w
  ]
