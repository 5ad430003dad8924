-- ===== src/Builder/Planning.antt =====
-- transport/src/builder.rs: the calls of the swarm as one list.
use subsquid_network.Base.{
  ◌≡◌, refl, sym, ap, ◌∙◌, Bool, true, false, Option, none, some, List, [], ◌∷◌, ◌++◌, map,
  if◌then◌else◌, Option-cases, Bool-cases, inl, inr,
}
use subsquid_network.Messages.{PeerId}
use subsquid_network.Addresses.{Multiaddr, p2p, p2p_circuit}
use subsquid_network.Cli.{BootNode}
use subsquid_network.Builder.{
  Swarm, P2pTransportBuilder, and_then, chosen_relays, listen_all, register_all, dial_all,
  listen_relayed, build_swarm, is_empty,
}

pub data SwarmCall : Type 0 where
  listens registers : Multiaddr → SwarmCall
  dials : PeerId → List Multiaddr → SwarmCall

-- Where relayed connections are listened for: at the relays that are named, or else at the boot nodes.
unfoldable pub relays : List Multiaddr → List BootNode → List Multiaddr
relays [] boot_nodes = map (λ bn. bn.address ++ p2p bn.peer_id ∷ []) boot_nodes
relays (addr ∷ addrs) boot_nodes = addr ∷ addrs

unfoldable pub planned_relays : Bool → List Multiaddr → List SwarmCall
planned_relays false addrs = []
planned_relays true addrs = map (λ addr. listens (addr ++ p2p_circuit ∷ [])) addrs

abbrev planned_after_registering : P2pTransportBuilder → List SwarmCall
planned_after_registering s =
    map (λ bn. dials bn.peer_id (bn.address ∷ [])) s.boot_nodes
    ++ planned_relays s.relay (relays s.relay_addrs s.boot_nodes)

abbrev planned_after_listening : P2pTransportBuilder → List SwarmCall
planned_after_listening s = map registers s.public_addrs ++ planned_after_registering s

unfoldable pub planned : P2pTransportBuilder → List SwarmCall
unfolding relays planned_relays
planned s = map listens s.listen_addrs ++ planned_after_listening s

named_or_boot :
    (addrs : List Multiaddr) (nodes : List BootNode)
    → (if is_empty addrs then map (λ bn. bn.address ++ p2p bn.peer_id ∷ []) nodes else addrs)
      ≡ relays addrs nodes
unfolding relays
named_or_boot [] nodes = refl
named_or_boot (addr ∷ addrs) nodes = refl

module _ (w : Swarm) where
  unfoldable pub execute_call : w.Inner → SwarmCall → Option w.Inner
  execute_call swarm (listens addr) = w.listen_on swarm addr
  execute_call swarm (registers addr) = some (w.add_external_address swarm addr)
  execute_call swarm (dials peer_id addrs) = w.dial swarm peer_id addrs

  -- One call after the other, up to the first that fails.
  unfoldable pub execute : w.Inner → List SwarmCall → Option w.Inner
  unfolding execute_call
  execute swarm [] = some swarm
  execute swarm (call ∷ calls) = and_then (execute_call swarm call) λ swarm'. execute swarm' calls

  execute-append :
      (swarm : w.Inner) (calls calls' : List SwarmCall)
      → execute swarm (calls ++ calls')
        ≡ and_then (execute swarm calls) (λ swarm'. execute swarm' calls')
  unfolding execute
  execute-append swarm [] calls' = refl
  execute-append swarm (call ∷ calls) calls' = elim (Option-cases (execute_call swarm call)) [
    | inl e ↦ rw (e, and_then)
    | inr (swarm', e) ↦ rw (e, and_then) (execute-append swarm' calls calls')
  ]

  listen_all-execute :
      (swarm : w.Inner) (addrs : List Multiaddr)
      → listen_all w swarm addrs ≡ execute swarm (map listens addrs)
  unfolding listen_all execute execute_call
  listen_all-execute swarm [] = refl
  listen_all-execute swarm (addr ∷ addrs) = elim (Option-cases (w.listen_on swarm addr)) [
    | inl e ↦ rw (e, and_then)
    | inr (swarm', e) ↦ rw (e, and_then) (listen_all-execute swarm' addrs)
  ]

  register_all-execute :
      (swarm : w.Inner) (addrs : List Multiaddr)
      → some (register_all w swarm addrs) ≡ execute swarm (map registers addrs)
  unfolding register_all execute execute_call
  register_all-execute swarm [] = refl
  register_all-execute swarm (addr ∷ addrs) =
      register_all-execute (w.add_external_address swarm addr) addrs

  dial_all-execute :
      (swarm : w.Inner) (nodes : List BootNode)
      → dial_all w swarm nodes
        ≡ execute swarm (map (λ bn. dials bn.peer_id (bn.address ∷ [])) nodes)
  unfolding dial_all execute execute_call
  dial_all-execute swarm [] = refl
  dial_all-execute swarm (bn ∷ nodes) =
      elim (Option-cases (w.dial swarm bn.peer_id (bn.address ∷ []))) [
        | inl e ↦ rw (e, and_then)
        | inr (swarm', e) ↦ rw (e, and_then) (dial_all-execute swarm' nodes)
      ]

  listen_relayed-execute :
      (swarm : w.Inner) (addrs : List Multiaddr)
      → listen_relayed w swarm addrs
        ≡ execute swarm (map (λ addr. listens (addr ++ p2p_circuit ∷ [])) addrs)
  unfolding listen_relayed execute execute_call
  listen_relayed-execute swarm [] = refl
  listen_relayed-execute swarm (addr ∷ addrs) =
      elim (Option-cases (w.listen_on swarm (addr ++ p2p_circuit ∷ []))) [
        | inl e ↦ rw (e, and_then)
        | inr (swarm', e) ↦ rw (e, and_then) (listen_relayed-execute swarm' addrs)
      ]

  and_then_ext :
      (o : Option w.Inner) (f g : w.Inner → Option w.Inner)
      → ((swarm : w.Inner) → f swarm ≡ g swarm)
      → and_then o f ≡ and_then o g
  and_then_ext none f g h = refl
  and_then_ext (some swarm) f g h = h swarm

  abbrev relay_if_asked : P2pTransportBuilder → w.Inner → Option w.Inner
  relay_if_asked s dialled =
      if s.relay then listen_relayed w dialled (chosen_relays s) else some dialled

  relayed-execute :
      (s : P2pTransportBuilder) (swarm : w.Inner)
      → relay_if_asked s swarm
        ≡ execute swarm (planned_relays s.relay (relays s.relay_addrs s.boot_nodes))
  unfolding chosen_relays planned_relays execute
  relayed-execute s swarm = elim (Bool-cases s.relay) [
    | inl on ↦ rw on (
        ap (listen_relayed w swarm) (named_or_boot s.relay_addrs s.boot_nodes)
        ∙ listen_relayed-execute swarm (relays s.relay_addrs s.boot_nodes))
    | inr off ↦ rw off
  ]

  registered-execute :
      (s : P2pTransportBuilder) (listening : w.Inner)
      → and_then
          (dial_all w (register_all w listening s.public_addrs) s.boot_nodes)
          (relay_if_asked s)
        ≡ execute (register_all w listening s.public_addrs) (planned_after_registering s)
  registered-execute s listening =
      let registered = register_all w listening s.public_addrs in
      let dialling = map (λ bn. dials bn.peer_id (bn.address ∷ [])) s.boot_nodes in
      let relaying = planned_relays s.relay (relays s.relay_addrs s.boot_nodes) in
      and_then_ext (dial_all w registered s.boot_nodes) (relay_if_asked s)
        (λ dialled. execute dialled relaying) (relayed-execute s)
      ∙ ap (λ o. and_then o (λ dialled. execute dialled relaying))
          (dial_all-execute registered s.boot_nodes)
      ∙ sym (execute-append registered dialling relaying)

  register_all-planned :
      (s : P2pTransportBuilder) (listening : w.Inner)
      → execute (register_all w listening s.public_addrs) (planned_after_registering s)
        ≡ execute listening (planned_after_listening s)
  register_all-planned s listening =
      ap (λ o. and_then o (λ registered. execute registered (planned_after_registering s)))
        (register_all-execute listening s.public_addrs)
      ∙ sym (execute-append listening (map registers s.public_addrs) (planned_after_registering s))

  -- A swarm that is built got the planned calls in their order, up to the first that failed: to listen,
  -- to register the public addresses, to dial the boot nodes and to listen at the relays.
  pub build_swarm-planned :
      (s : P2pTransportBuilder) (swarm : w.Inner)
      → build_swarm w s swarm ≡ execute swarm (planned s)
  unfolding build_swarm planned
  build_swarm-planned s swarm =
      and_then_ext (listen_all w swarm s.listen_addrs)
        (λ listening.
          and_then (dial_all w (register_all w listening s.public_addrs) s.boot_nodes)
            (relay_if_asked s))
        (λ listening. execute listening (planned_after_listening s))
        (λ listening. registered-execute s listening ∙ register_all-planned s listening)
      ∙ ap (λ o. and_then o (λ listening. execute listening (planned_after_listening s)))
          (listen_all-execute swarm s.listen_addrs)
      ∙ sym (execute-append swarm (map listens s.listen_addrs) (planned_after_listening s))
