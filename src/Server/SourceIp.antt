-- ===== src/Server/SourceIp.antt =====
-- The resolver of the source address of a request: internal/server/source_ip.go.
-- `net/netip` and `net.SplitHostPort` are a parameter without laws.
pub mod Rightmost
pub mod Spoofing
use Prim.Native.Char.{Char, code}
use inventree_mcp.Prelude.{
  ℕ, zero, suc, String, Option, none, some, List, [], ◌∷◌, ◌++◌, Bool, true, false, eqb, ◌||◌,
  if◌then◌else◌, Result, ok, err, ◌>>=◌,
}
use inventree_mcp.Text.{trim_space, text_length, split_last}

pub record Netip (A P : Type 0) : Type 0 where
  pub parse_addr : String → Option A
  pub unmap : A → A
  pub parse_prefix : String → Option P
  pub bits : P → ℕ
  pub masked : P → P
  pub contains : P → A → Bool
  -- the host of `net.SplitHostPort`
  pub split_host_port : String → Option String

pub data Error : Type 0 where
  unparsed trusts_everything : String → Error

-- `resolvedSourceIP`; the zero address is `none`.
pub record ResolvedSourceIp (A : Type 0) : Type 0 where
  pub address : Option A
  pub forwarded : Bool

-- What the inner loop does: the method returns, or the loop ends with `result` set.
pub data Walk (A : Type 0) : Type 0 where
  returned onward : ResolvedSourceIp A → Walk A

abbrev pub is_comma : Char → Bool
is_comma c = eqb (code c) 44

abbrev pub directly : {A : Type 0} → A → ResolvedSourceIp A
directly a = record { address = some a; forwarded = false }

abbrev pub forwarded_from : {A : Type 0} → A → ResolvedSourceIp A
forwarded_from a = record { address = some a; forwarded = true }

-- `remaining[separator+1:]`, or all of it
abbrev pub after_last : String → Option (String × String) → String
after_last remaining none = remaining
after_last remaining (some (before, after)) = after

-- the values from the last to the first
abbrev pub backwards : {A : Type 0} → List A → List A
backwards [] = []
backwards (x ∷ xs) = backwards xs ++ (x ∷ [])

module _ {A P : Type 0} (ip : Netip A P) where
  abbrev pub trusted_prefix : String → Option P → Result Error P
  trusted_prefix raw none = err (unparsed raw)
  trusted_prefix raw (some prefix) =
      if eqb (ip.bits prefix) 0 then err (trusts_everything raw) else ok (ip.masked prefix)

  -- `newSourceIPResolver`
  unfoldable pub new_source_ip_resolver : List String → Result Error (List P)
  new_source_ip_resolver [] = ok []
  new_source_ip_resolver (raw ∷ raws) = do
    prefix ← trusted_prefix raw (ip.parse_prefix (trim_space raw))
    prefixes ← new_source_ip_resolver raws
    ok (prefix ∷ prefixes)

  abbrev pub contained : A → List P → Bool
  contained a [] = false
  contained a (prefix ∷ prefixes) = ip.contains prefix a || contained a prefixes

  abbrev pub is_trusted : List P → A → Bool
  is_trusted trusted address = contained (ip.unmap address) trusted

  abbrev pub unmapped : Option A → Option A
  unmapped none = none
  unmapped (some a) = some (ip.unmap a)

  abbrev pub host_of : String → Option String → String
  host_of remote none = remote
  host_of remote (some host) = host

  -- `parseRemoteIP`
  abbrev pub parse_remote_ip : String → Option A
  parse_remote_ip remote =
      unmapped (ip.parse_addr (trim_space (host_of remote (ip.split_host_port remote))))

  module _ (trusted : List P) (peer : A) where
    -- one candidate of the inner loop
    abbrev pub walk_candidate : Option A → Walk A
    walk_candidate none = returned (directly peer)
    walk_candidate (some a) =
        if is_trusted trusted a then onward (forwarded_from a) else returned (forwarded_from a)

    -- the inner loop, on fuel: every turn shortens `remaining`
    unfoldable pub walk_value : ℕ → String → Walk A
    walk_value zero remaining = returned (directly peer)
    walk_value (suc fuel) remaining =
        elim (walk_candidate (
          unmapped
            (ip.parse_addr (trim_space (after_last remaining (split_last is_comma remaining)))))) [
              | returned r ↦ returned r
              | onward r ↦ elim (split_last is_comma remaining) [
                | none ↦ onward r
                | some (before, after) ↦ walk_value fuel before
              ]
            ]

    -- the outer loop, on the values from the last to the first
    unfoldable pub walk_values : ResolvedSourceIp A → List String → ResolvedSourceIp A
    walk_values result [] = result
    walk_values result (value ∷ values) = elim (walk_value (suc (text_length value)) value) [
      | returned r ↦ r
      | onward r ↦ walk_values r values
    ]

  -- `resolve`, on the remote address and the values of X-Forwarded-For
  unfoldable pub resolve : List P → String → List String → ResolvedSourceIp A
  resolve trusted remote values = elim (parse_remote_ip remote) [
    | none ↦ record { address = none; forwarded = false }
    | some peer ↦
        if is_trusted trusted peer
        then walk_values trusted peer (directly peer) (backwards values)
        else directly peer
  ]
