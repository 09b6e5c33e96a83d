-- ===== src/ClientIp.antt =====
-- backend/app/core/client_ip.py: the address of a client behind the repository's reverse proxies. The
-- ipaddress module is the record of the functions that the code calls; texts are lists of code points
-- of Latin-1, as a header's are.
mod Hops
mod Tests
use betpulse.Prelude.{
  ℕ, Bool, true, false, Option, none, some, List, [], ◌∷◌, ◌++◌, ◌==◌, ◌&&◌, ◌||◌, not, ltb,
  is_empty, if◌then◌else◌,
}
use betpulse.Ingest.Seasons.{Text, is_space, skip_spaces}

-- Of ipaddress; `none` is ValueError.
pub record IpLibrary : Type 1 where
  pub Address : Type 0
  pub Network : Type 0
  pub ip_address : Text → Option Address
  pub ipv4_mapped : Address → Option Address
  pub is_ipv6 : Address → Bool
  pub compressed : Address → Text
  pub contains : Network → Address → Bool
  -- `strict=True`
  pub ip_network : Text → Option Network
  pub prefixlen : Network → ℕ
  pub version : Network → ℕ
  pub is_private : Network → Bool
  pub is_loopback : Network → Bool
  -- `ip_network(f"{address}/{prefix}", strict=False).compressed`
  pub network_of : Address → ℕ → Text

pub data Problem : Type 0 where
  invalid_network trusts_every_address no_networks not_private too_broad : Problem

pub data OrProblem (A : Type 0) : Type 0 where
  good : A → OrProblem A
  bad : Problem → OrProblem A

unfoldable pub reversed {ℓ} : {A : Type ℓ} → List A → List A
reversed [] = []
reversed (x ∷ xs) = reversed xs ++ (x ∷ [])

-- `text.strip()`
abbrev pub strip : Text → Text
unfolding reversed
strip text = reversed (skip_spaces (reversed (skip_spaces text)))

abbrev pub put_first : ℕ → List Text → List Text
put_first ch [] = (ch ∷ []) ∷ []
put_first ch (part ∷ parts) = (ch ∷ part) ∷ parts

-- `text.split(",")`, which gives one part more than there are commas.
unfoldable pub split : Text → List Text
split [] = [] ∷ []
split (ch ∷ rest) = let parts = split rest in if ch == b',' then [] ∷ parts else put_first ch parts

abbrev pub unknown_client : Text
unknown_client = b'u' ∷ b'n' ∷ b'k' ∷ b'n' ∷ b'o' ∷ b'w' ∷ b'n' ∷ []

abbrev pub ipv6_bucket_prefix : ℕ
ipv6_bucket_prefix = 64

-- _MIN_PRODUCTION_PREFIX, for the versions 4 and 6.
abbrev pub min_production_prefix : ℕ → ℕ
min_production_prefix version = if version == 4 then 16 else 48

module _ (l : IpLibrary) where
  open l use {Address, Network}

  abbrev pub add_network : Option Network → OrProblem (List Network) → OrProblem (List Network)
  add_network none rest = bad invalid_network
  add_network (some network) (bad p) =
      if l.prefixlen network == 0 then bad trusts_every_address else bad p
  add_network (some network) (good networks) =
      if l.prefixlen network == 0 then bad trusts_every_address else good (network ∷ networks)

  abbrev pub parse_items : List Text → OrProblem (List Network)
  parse_items [] = good []
  parse_items (item ∷ items) =
      let rest = parse_items items in
      if is_empty (strip item) then rest else add_network (l.ip_network (strip item)) rest

  unfoldable pub parse_networks : Text → OrProblem (List Network)
  unfolding split
  parse_networks raw = parse_items (split raw)

  -- The loop of `validate_production_proxies`.
  abbrev pub first_problem : List Network → Option Problem
  first_problem [] = none
  first_problem (network ∷ networks) =
      let rest = first_problem networks in
      if not (l.is_private network || l.is_loopback network)
      then some not_private
      else if ltb (l.prefixlen network) (min_production_prefix (l.version network))
      then some too_broad
      else rest

  -- `none`: the list is accepted.
  unfoldable pub validate_production_proxies : List Network → Option Problem
  validate_production_proxies [] = some no_networks
  validate_production_proxies (network ∷ networks) = first_problem (network ∷ networks)

  abbrev pub or_mapped : Address → Option Address → Address
  or_mapped address none = address
  or_mapped address (some mapped) = mapped

  abbrev pub mapped_or : Address → Address
  mapped_or address =
      if l.is_ipv6 address then or_mapped address (l.ipv4_mapped address) else address

  abbrev pub canonical : Option Address → Option Address
  canonical none = none
  canonical (some address) = some (mapped_or address)

  unfoldable pub parse_ip : Text → Option Address
  parse_ip value = canonical (l.ip_address (strip value))

  abbrev pub is_within : Address → List Network → Bool
  is_within address [] = false
  is_within address (network ∷ networks) = l.contains network address || is_within address networks

  unfoldable pub is_trusted : Address → List Network → Bool
  is_trusted address trusted = is_within address trusted

  -- A header or an address that is missing or empty.
  abbrev pub is_missing : Option Text → Bool
  is_missing none = true
  is_missing (some text) = is_empty text

  abbrev pub parse_peer : Option Text → Option Address
  parse_peer none = none
  parse_peer (some peer) = if is_empty peer then none else parse_ip peer

  -- The loop over the hops from the right.
  unfoldable pub walk : List Network → Address → List (Option Address) → Address
  walk trusted client [] = client
  walk trusted client (none ∷ hops) = client
  walk trusted client (some hop ∷ hops) =
      let further = walk trusted hop hops in if is_trusted hop trusted then further else hop

  abbrev pub parse_hops : List Text → List (Option Address)
  parse_hops [] = []
  parse_hops (hop ∷ hops) = parse_ip hop ∷ parse_hops hops

  abbrev pub hops_of : Option Text → List (Option Address)
  hops_of none = []
  hops_of (some forwarded_for) = parse_hops (reversed (split forwarded_for))

  abbrev pub client_of : Option Text → List Network → Option Address → Option Address
  client_of forwarded_for trusted none = none
  client_of forwarded_for trusted (some peer) =
      if is_missing forwarded_for || not (is_trusted peer trusted)
      then some peer
      else some (walk trusted peer (hops_of forwarded_for))

  abbrev pub text_of : Option Address → Text
  text_of none = unknown_client
  text_of (some address) = l.compressed address

  unfoldable pub resolve_client_ip : Option Text → Option Text → List Network → Text
  resolve_client_ip peer forwarded_for trusted =
      text_of (client_of forwarded_for trusted (parse_peer peer))

  abbrev pub is_trusted_peer : Option Address → List Network → Bool
  is_trusted_peer none trusted = false
  is_trusted_peer (some peer) trusted = is_trusted peer trusted

  abbrev pub if_within : Option Address → List Network → Text → Option Text
  if_within none internal client = none
  if_within (some address) internal client =
      if is_within address internal then some client else none

  unfoldable pub internal_client :
      Option Text → Option Text → List Network → List Network → Option Text
  internal_client peer forwarded_for trusted internal =
      if is_empty internal
        || is_missing forwarded_for
        || is_missing peer
        || not (is_trusted_peer (parse_peer peer) trusted)
      then none
      else let client = resolve_client_ip peer forwarded_for trusted in
        if_within (parse_ip client) internal client

  abbrev pub subnet_text : Option Address → Option Text
  subnet_text none = none
  subnet_text (some address) =
      some (l.network_of address (if l.is_ipv6 address then ipv6_bucket_prefix else 24))

  unfoldable pub replay_subnet : Text → Option Text
  replay_subnet client_ip = subnet_text (parse_ip client_ip)

  abbrev pub bucket_text : Text → Option Address → Text
  bucket_text client_ip none = client_ip
  bucket_text client_ip (some address) =
      if l.is_ipv6 address then l.network_of address ipv6_bucket_prefix else client_ip

  unfoldable pub rate_limit_bucket : Text → Text
  rate_limit_bucket client_ip = bucket_text client_ip (parse_ip client_ip)
