-- ===== src/Limiter/Addresses.antt =====
-- app/api/login_security.py: ClientIpResolver, the address that a login is counted for. Reading
-- an address or a network, writing an address and the test that a network has it are the
-- standard library's.
pub mod Laws
use mc_admin.Base.{
  ℕ, Text, Bool, true, false, ◌&&◌, ◌||◌, not, Option, none, some, List, [], ◌∷◌, ◌++◌, codes,
  length, ltb, ◌==◌, any, map, if◌then◌else◌,
}
use mc_admin.Base.Strings.{strip}
use mc_admin.Limiter.Buckets.{is_nil}

pub record Addresses : Type 1 where
  pub Address : Type 0
  pub Network : Type 0
  pub parse : Text → Option Address
  pub str : Address → Text
  -- `ip_network(value, strict=False)`
  pub parse_network : Text → Option Network
  -- `address.version == network.version and address in network`
  pub has : Network → Address → Bool
  pub casefold : Text → Text

-- `text.split(sep)` at one character
unfoldable pub split_at : ℕ → Text → List Text
split_at sep [] = [] ∷ []
split_at sep (c ∷ s) =
    let rest = split_at sep s in
    if c == sep then [] ∷ rest else elim rest [ [] ↦ (c ∷ []) ∷ [] | w ∷ ws ↦ (c ∷ w) ∷ ws ]

module _ (lib : Addresses) where
  networks_of : List Text → Option (List lib.Network)
  networks_of [] = some []
  networks_of (value ∷ values) =
      let rest = networks_of values in
      if is_nil (strip value) then rest else elim (lib.parse_network (strip value)) [
        | none ↦ none
        | some network ↦ elim rest [ none ↦ none | some networks ↦ some (network ∷ networks) ]
      ]

  -- None for the `ValueError`.
  unfoldable pub parse_trusted_proxy_cidrs : Text → Option (List lib.Network)
  unfolding networks_of
  parse_trusted_proxy_cidrs raw = networks_of (split_at 44 raw)

  unfoldable pub is_trusted : List lib.Network → lib.Address → Bool
  is_trusted trusted address = any (λ network. lib.has network address) trusted

  -- The addresses of the header, if each is one.
  unfoldable pub parse_all : List Text → Option (List lib.Address)
  parse_all [] = some []
  parse_all (part ∷ parts) =
      let rest = parse_all parts in
      elim (lib.parse (strip part)) [
        | none ↦ none
        | some address ↦ elim rest [ none ↦ none | some addresses ↦ some (address ∷ addresses) ]
      ]

  -- The last address that is not trusted of a chain, if there is one.
  unfoldable pub last_untrusted : List lib.Network → List lib.Address → Option lib.Address
  last_untrusted trusted [] = none
  last_untrusted trusted (address ∷ chain) =
      let rest = last_untrusted trusted chain in
      elim rest [
        | some later ↦ some later
        | none ↦ if is_trusted trusted address then none else some address
      ]

  -- The loop over the reversed chain, and `chain[0]`; the chain is never empty.
  unfoldable pub observed : List lib.Network → lib.Address → List lib.Address → lib.Address
  observed trusted direct forwarded = elim (last_untrusted trusted (forwarded ++ direct ∷ [])) [
    | some address ↦ address
    | none ↦ elim forwarded [ [] ↦ direct | first ∷ _ ↦ first ]
  ]

  from_header : List lib.Network → lib.Address → Text → lib.Address
  from_header trusted direct header =
      if ltb 2048 (length header)
      then direct
      else (let parts = split_at 44 header in
          if ltb 16 (length parts) then direct else elim (parse_all parts) [
            | none ↦ direct
            | some forwarded ↦ observed trusted direct forwarded
          ])

  -- `resolve`; an absent peer or header is the empty text.
  unfoldable pub resolve : List lib.Network → Text → Text → Text
  unfolding from_header
  resolve trusted peer_host x_forwarded_for =
      let stripped = strip peer_host in
      let direct_text = if is_nil stripped then codes "unknown" else stripped in
      elim (lib.parse direct_text) [
        | none ↦ lib.casefold direct_text
        | some direct ↦
            if not (is_trusted trusted direct) || is_nil x_forwarded_for
            then lib.str direct
            else lib.str (from_header trusted direct x_forwarded_for)
      ]
