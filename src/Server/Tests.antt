-- ===== src/Server/Tests.antt =====
-- Tests of internal/server, and the theorems about it at concrete inputs.
use inventree_mcp.Prelude.{String, none, some, List, [], ◌∷◌, ◌++◌, ◌==◌, ◌≡◌, refl, if◌then◌else◌}
use inventree_mcp.Server.SourceIp.{Netip, forwarded_from, resolve}
use inventree_mcp.Server.SourceIp.Rightmost.{rightmost, resolve-rightmost}
use inventree_mcp.Server.SourceIp.Spoofing.{spoofing_ignored}

-- Addresses are texts other than "?", and a prefix is one address.
abbrev plain : Netip String String
plain = record {
  parse_addr = λ s. if s == "?" then none else some s;
  unmap = λ a. a;
  parse_prefix = some;
  bits = λ _. 32;
  masked = λ p. p;
  contains = λ p a. p == a;
  split_host_port = λ _. none;
}

abbrev proxies : List String
proxies = "edge" ∷ "inner" ∷ []

resolve-rightmost_example :
    resolve plain proxies "edge" ("evil, user ,inner" ∷ [])
    ≡ rightmost plain proxies "edge" ("evil, user ,inner" ∷ [])
resolve-rightmost_example = resolve-rightmost plain proxies "edge" ("evil, user ,inner" ∷ [])

honest : resolve plain proxies "edge" ("user, inner" ∷ []) ≡ forwarded_from "user"
unfolding resolve inventree_mcp.Server.SourceIp.walk_values inventree_mcp.Server.SourceIp.walk_value
    inventree_mcp.Text.split_last inventree_mcp.Text.trim_left inventree_mcp.Text.trim_right
honest = refl

spoofing_ignored_example :
    resolve plain proxies "edge" (("admin" ∷ []) ++ ("user, inner" ∷ [])) ≡ forwarded_from "user"
spoofing_ignored_example =
    spoofing_ignored plain proxies "edge" ("admin" ∷ []) ("user, inner" ∷ []) "user" honest refl
