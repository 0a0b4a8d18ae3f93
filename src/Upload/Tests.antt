-- ===== src/Upload/Tests.antt =====
-- Tests of internal/upload, and the theorems about it at concrete inputs.
use inventree_mcp.Prelude.{
  ℕ, ◌≤◌, suc, String, some, List, [], ◌∷◌, false, true, ◌==◌, ◌≡◌, refl, if◌then◌else◌, pos,
  length, All, ok, err,
}
use inventree_mcp.Upload.Url.{
  Url, UrlFetcher, Net, World, Error, fetch_failed, blocked_by_policy, answered, redirected, fetch,
}
use inventree_mcp.Upload.Url.Dialling.{IsPermitted, fetch-IsPermitted}

abbrev site : String → Url
site host = record { scheme = "https"; hostname = host; port = ""; has_user = false }

-- Addresses are texts; the only one that is blocked is that of the inner network.
abbrev names : Net String
names = record {
  parse_url = λ raw. some (site raw);
  host_port = λ url. some (url.hostname, "443");
  equal_fold = λ a b. a == b;
  to_lower = λ a. a;
  trim_suffix = λ a suffix. a;
  unmap = λ a. a;
  is_valid = λ a. true;
  is_loopback = λ a. false;
  is_private = λ a. a == "10.0.0.1";
  is_link_local_unicast = λ a. false;
  is_link_local_multicast = λ a. false;
  is_multicast = λ a. false;
  is_unspecified = λ a. false;
  is_4in6 = λ a. false;
  is_4 = λ a. true;
  contains = λ prefix a. false;
}

abbrev addresses : String → List String
addresses host = if host == "inner" then "10.0.0.1" ∷ [] else "93.184.216.34" ∷ []

-- A resolver that answers for "rebinding" with the inner network from the second time on, and servers of
-- which one redirects to the inner network.
abbrev internet : World String String ℕ
internet = record {
  resolve = λ host n. (
    ok (
        if host == "rebinding"
        then (elim n [ ℕ.zero ↦ "93.184.216.34" ∷ [] | suc m ↦ "10.0.0.1" ∷ [] ])
        else addresses host),
    suc n,
  );
  respond = λ a url n.
      ((if url.hostname == "sly" then redirected (site "inner") else answered 200 "picture"), n);
}

abbrev fetcher : UrlFetcher
fetcher = record { max_redirects = pos 0; allowlist = [] }

fetch_good : (fetch names internet fetcher "good" 0).0 ≡ ok "picture"
unfolding fetch inventree_mcp.Upload.Url.visit inventree_mcp.Upload.Url.first_dialled
    inventree_mcp.Upload.Url.blocked_address inventree_mcp.Upload.Url.allowlist_matches
    inventree_mcp.Text.trim_left inventree_mcp.Text.trim_right
fetch_good = refl

fetch_rebinding : fetch names internet fetcher "rebinding" 0 ≡ (err fetch_failed, [])
unfolding fetch inventree_mcp.Upload.Url.visit inventree_mcp.Upload.Url.first_dialled
    inventree_mcp.Upload.Url.blocked_address inventree_mcp.Upload.Url.allowlist_matches
    inventree_mcp.Text.trim_left inventree_mcp.Text.trim_right
fetch_rebinding = refl

fetch_inner : fetch names internet fetcher "inner" 0 ≡ (err blocked_by_policy, [])
unfolding fetch inventree_mcp.Upload.Url.visit inventree_mcp.Upload.Url.first_dialled
    inventree_mcp.Upload.Url.blocked_address inventree_mcp.Upload.Url.allowlist_matches
    inventree_mcp.Text.trim_left inventree_mcp.Text.trim_right
fetch_inner = refl

fetch-IsPermitted_example :
    All (IsPermitted names []) (fetch names internet fetcher "sly" 0).1
    × (length (fetch names internet fetcher "sly" 0).1 ≤ 3)
fetch-IsPermitted_example = fetch-IsPermitted names internet fetcher "sly" 0
