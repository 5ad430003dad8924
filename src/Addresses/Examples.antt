-- ===== src/Addresses/Examples.antt =====
-- transport/src/util.rs and transport/src/behaviour/addr_cache.rs: the program's own tests, and
-- each theorem at an input.
use subsquid_network.Base.{◌≡◌, refl, true, false, some, List, [], ◌∷◌, All, lookup, insert}
use subsquid_network.Addresses.{
  ip4, ip6, dns, tcp, quic_v1, udp, addr_is_reachable, put_addrs,
  handle_pending_outbound_connection,
}
use subsquid_network.Addresses.Caching.{
  Call, add, established, named, apply, run, offered_were_named,
}
use subsquid_network.Addresses.Sample.{sample_lru}

program : Unit {0}
unfolding addr_is_reachable put_addrs handle_pending_outbound_connection named apply run lookup
    insert
program = tt

loopback : addr_is_reachable false (ip4 127 0 0 1 ∷ tcp 12345 ∷ []) ≡ false
unfolding program
loopback = refl

private_address : addr_is_reachable false (ip4 192 168 0 1 ∷ tcp 12345 ∷ []) ≡ false
unfolding program
private_address = refl

public_address : addr_is_reachable false (ip4 213 164 0 1 ∷ tcp 12345 ∷ []) ≡ true
unfolding program
public_address = refl

loopback_6 : addr_is_reachable false (ip6 1 ∷ tcp 12345 ∷ []) ≡ false
unfolding program
loopback_6 = refl

named_host : addr_is_reachable false (dns "example.com" ∷ []) ≡ true
unfolding program
named_host = refl

abbrev calls : List Call
calls =
    add 4 ((tcp 1 ∷ []) ∷ [])
    ∷ established 5 (udp 9 ∷ quic_v1 ∷ [])
    ∷ add 4 ((tcp 2 ∷ []) ∷ [])
    ∷ []

offered_were_named_example :
    All
      (λ addr. addr ≡ (udp 9 ∷ quic_v1 ∷ []))
      (handle_pending_outbound_connection sample_lru (run sample_lru [] calls) (some 5)).1
unfolding program
offered_were_named_example =
    offered_were_named sample_lru (λ addr. addr ≡ (udp 9 ∷ quic_v1 ∷ [])) 5 3 calls
      (tt, ((refl, tt), (tt, tt)))
