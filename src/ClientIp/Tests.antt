-- ===== src/ClientIp/Tests.antt =====
-- Clients behind one proxy, over a library whose addresses are texts that are not empty.
use betpulse.Prelude.{◌≡◌, refl, true, false, Option, none, some, [], ◌∷◌, is_empty, if◌then◌else◌}
use betpulse.Ingest.Seasons.{Text, eqb_text}
use betpulse.ClientIp.{
  IpLibrary, resolve_client_ip, parse_ip, is_trusted, split, reversed, walk, parse_networks, good,
}
use betpulse.ClientIp.Hops.{resolve_client_ip-append}

abbrev address_of : Text → Option Text
address_of text = if is_empty text then none else some text

abbrev names : IpLibrary
names = record {
  Address = Text;
  Network = Text;
  ip_address = address_of;
  ipv4_mapped = λ _. none;
  is_ipv6 = λ _. false;
  compressed = λ address. address;
  contains = eqb_text;
  ip_network = address_of;
  prefixlen = λ _. 24;
  version = λ _. 4;
  is_private = λ _. true;
  is_loopback = λ _. false;
  network_of = λ address _. address;
}

-- The proxy is "p", the client "c", and the header "x,c,p".
abbrev proxy : Text
proxy = b'p' ∷ []

abbrev relayed : Text
relayed = b'c' ∷ b',' ∷ b'p' ∷ []

resolved :
    resolve_client_ip names (some proxy) (some (b'x' ∷ b',' ∷ relayed)) (proxy ∷ []) ≡ b'c' ∷ []
unfolding resolve_client_ip parse_ip is_trusted split reversed walk
resolved = refl

resolve_client_ip-append_example :
    resolve_client_ip names (some proxy) (some (b'x' ∷ b',' ∷ relayed)) (proxy ∷ [])
    ≡ resolve_client_ip names (some proxy) (some relayed) (proxy ∷ [])
unfolding parse_ip is_trusted split reversed
resolve_client_ip-append_example =
    resolve_client_ip-append names (b'x' ∷ []) relayed (proxy ∷ []) (some proxy) refl refl

networks : parse_networks names (b'p' ∷ b',' ∷ b' ' ∷ b'q' ∷ []) ≡ good (proxy ∷ (b'q' ∷ []) ∷ [])
unfolding parse_networks split reversed
networks = refl
