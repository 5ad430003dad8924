-- ===== src/Builder/Examples.antt =====
-- transport/src/builder.rs: a builder and a wait at an input.
use subsquid_network.Base.{
  ℕ, zero, suc, ◌+◌, ◌<◌, ◌≡◌, refl, true, Option, none, some, List, [], ◌∷◌, ◌++◌, Result, ok,
  String, max, if◌then◌else◌, ltb, arith,
}
use subsquid_network.Addresses.{quic_v1, tcp, p2p, p2p_circuit}
use subsquid_network.Builder.{Swarm, P2pTransportBuilder, build_swarm, wait_registered}
use subsquid_network.Builder.Planning.{
  SwarmCall, listens, registers, dials, execute, planned, build_swarm-planned,
}
use subsquid_network.Builder.Waiting.{round_time, wait_registered-found}

-- A swarm that remembers its calls.
abbrev recorder : Swarm
recorder = record {
  Inner = List SwarmCall;
  listen_on = λ calls addr. some (calls ++ listens addr ∷ []);
  add_external_address = λ calls addr. calls ++ registers addr ∷ [];
  dial = λ calls peer_id addrs. some (calls ++ dials peer_id addrs ∷ []);
}

abbrev builder : P2pTransportBuilder
builder = record {
  listen_addrs = (quic_v1 ∷ []) ∷ [];
  public_addrs = (tcp 80 ∷ []) ∷ [];
  boot_nodes = record { peer_id = 3; address = tcp 81 ∷ [] } ∷ [];
  relay_addrs = [];
  relay = true;
}

build_swarm-planned_example :
    build_swarm recorder builder [] ≡ execute recorder [] (planned builder)
build_swarm-planned_example = build_swarm-planned recorder builder []

all_calls :
    build_swarm recorder builder []
    ≡ some (
        listens (quic_v1 ∷ [])
        ∷ registers (tcp 80 ∷ [])
        ∷ dials 3 ((tcp 81 ∷ []) ∷ [])
        ∷ listens (tcp 81 ∷ p2p 3 ∷ p2p_circuit ∷ [])
        ∷ [])
unfolding build_swarm
all_calls = refl

-- Registered at 100000, and known from 130000 on.
abbrev chain : ℕ → Result String (Option ℕ)
chain now = if ltb now 130000 then ok none else ok (some 100000)

not_before : (k : ℕ) → k < 2 → chain (round_time 20000 k) ≡ ok none
not_before zero h = refl
not_before (suc zero) h = refl
not_before (suc (suc k)) h = ground (arith, h)

wait_registered-found_example :
    wait_registered chain 300000 2 20000 ≡ some (ok (max (round_time 20000 2) (100000 + 300000)))
wait_registered-found_example =
    wait_registered-found chain 300000 20000 2 100000 not_before refl (omega arith)
