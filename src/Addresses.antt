-- ===== src/Addresses.antt =====
-- transport/src/util.rs and transport/src/behaviour/addr_cache.rs: which addresses may be dialled
-- from anywhere, and the cache of the addresses of peers. The cache of the crate lru is a parameter.
pub mod Caching
pub mod Sample
mod Examples
use subsquid_network.Base.{
  ℕ, ◌≡◌, ◌≢◌, ◌*◌, ◌+◌, Bool, true, false, not, ◌&&◌, ◌||◌, Option, none, some, String, List, [],
  ◌∷◌, ◌++◌, eqb, leb, if◌then◌else◌, or_else,
}
use subsquid_network.Messages.{PeerId}

-- A part of a multiaddress. An IPv4 address is its four bytes, an IPv6 address a number.
pub data Protocol : Type 0 where
  ip4 : ℕ → ℕ → ℕ → ℕ → Protocol
  ip6 : ℕ → Protocol
  dns dns4 dns6 dnsaddr : String → Protocol
  tcp udp : ℕ → Protocol
  quic_v1 p2p_circuit : Protocol
  p2p : PeerId → Protocol

abbrev pub Multiaddr : Type 0
Multiaddr = List Protocol

-- `Ipv4Addr::is_loopback`, `is_link_local`, `is_private`
pub is_loopback : ℕ → Bool
is_loopback a = eqb a 127

pub is_link_local : ℕ → ℕ → Bool
is_link_local a b = eqb a 169 && eqb b 254

pub is_private : ℕ → ℕ → Bool
is_private a b = eqb a 10 || ((eqb a 172 && (leb 16 b && leb b 31)) || (eqb a 192 && eqb b 168))

-- `private_network` says whether the variable PRIVATE_NETWORK is set.
unfoldable pub addr_is_reachable : Bool → Multiaddr → Bool
unfolding is_loopback is_link_local is_private
addr_is_reachable private_network [] = false
addr_is_reachable private_network (ip4 a b c d ∷ rest) =
    not (is_loopback a || is_link_local a b) && (not (is_private a b) || private_network)
addr_is_reachable private_network (ip6 a ∷ rest) = not (eqb a 1)
addr_is_reachable private_network (dns name ∷ rest) = true
addr_is_reachable private_network (dns4 name ∷ rest) = true
addr_is_reachable private_network (dns6 name ∷ rest) = true
addr_is_reachable private_network (dnsaddr name ∷ rest) = true
addr_is_reachable private_network (tcp port ∷ rest) = false
addr_is_reachable private_network (udp port ∷ rest) = false
addr_is_reachable private_network (quic_v1 ∷ rest) = false
addr_is_reachable private_network (p2p_circuit ∷ rest) = false
addr_is_reachable private_network (p2p peer_id ∷ rest) = false

-- `LruCache<PeerId, HashSet<Multiaddr>>`: `modify` is `get_or_insert_mut` with the default, and
-- the change of what it gives. Only other entries may be evicted, and none appears.
pub record Lru : Type 1 where
  pub Cache : Type 0
  pub start : ℕ → Cache
  pub peek : Cache → PeerId → Option (List Multiaddr)
  pub get : Cache → PeerId → Cache × Option (List Multiaddr)
  pub modify : Cache → PeerId → (List Multiaddr → List Multiaddr) → Cache
  pub peek-start : (n : ℕ) (p : PeerId) → peek (start n) p ≡ none
  pub got : (c : Cache) (p : PeerId) → (get c p).1 ≡ peek c p
  pub peek-get : (c : Cache) (p q : PeerId) → peek (get c p).0 q ≡ peek c q
  pub modified :
      (c : Cache) (p : PeerId) (f : List Multiaddr → List Multiaddr)
      → peek (modify c p f) p ≡ some (f (or_else (peek c p) []))
  pub others :
      (c : Cache) (p q : PeerId) (f : List Multiaddr → List Multiaddr) (held : List Multiaddr)
      → p ≢ q
      → peek (modify c p f) q ≡ some held
      → peek c q ≡ some held

-- The events of the swarm that the cache looks at.
pub data AddressEvent : Type 0 where
  new_external_addr_of_peer : PeerId → Multiaddr → AddressEvent
  other_address_event : AddressEvent

module _ (l : Lru) where
  unfoldable pub put_addrs : l.Cache → PeerId → List Multiaddr → l.Cache
  put_addrs cache peer_id addrs = l.modify cache peer_id (λ held. held ++ addrs)

  unfoldable pub handle_pending_outbound_connection :
      l.Cache → Option PeerId → l.Cache × List Multiaddr
  handle_pending_outbound_connection cache none = (cache, [])
  handle_pending_outbound_connection cache (some peer_id) =
      let (cache', addrs) = l.get cache peer_id in (cache', or_else addrs [])

  unfoldable pub handle_established_outbound_connection : l.Cache → PeerId → Multiaddr → l.Cache
  unfolding put_addrs
  handle_established_outbound_connection cache peer addr = put_addrs cache peer (addr ∷ [])

  unfoldable pub on_address_event : l.Cache → AddressEvent → l.Cache
  unfolding put_addrs
  on_address_event cache (new_external_addr_of_peer peer_id addr) =
      put_addrs cache peer_id (addr ∷ [])
  on_address_event cache other_address_event = cache
