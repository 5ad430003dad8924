-- ===== src/Bootnode/Standing.antt =====
-- transport/src/bin/bootnode.rs: the standing of a peer, as the boot node's loop changes it.
use subsquid_network.Base.{
  ◌≡◌, refl, sym, subst, ◌∙◌, Bool, true, false, ◌||◌, Option, none, some, List, [], ◌∷◌,
  if◌then◌else◌, ok, err, member, difference, member-difference, eq_of_nat, Bool-cases, map, inl,
  inr, arith,
}
use subsquid_network.Messages.{PeerId}
use subsquid_network.BaseBehaviour.{Kademlia, received, other_identify_event}
use subsquid_network.BaseBehaviour.Nodes.{AllowList, same_set, member-same_set}
use subsquid_network.Builder.{Swarm, and_then}
use mathlib.Core.Option.{some-injective}
use subsquid_network.Cli.{BootNode}
use subsquid_network.Bootnode.{
  connect_all, other_boot_nodes, start_bootnode, Bootnode, allow_nodes, block_nodes, on_nodes,
  on_identified, Selected, identify_event, swarm_event, nodes_read, round, run,
}

-- A stranger may not connect, a guest was allowed when the boot node started and is not registered,
-- a node is registered.
pub data Standing : Type 0 where
  stranger guest node : Standing

-- What a list of registered nodes does to a peer, from whether it is on the list. A node that leaves is
-- a stranger, whatever it was before it was registered.
unfoldable pub next_standing : Standing → Bool → Standing
next_standing standing true = node
next_standing node false = stranger
next_standing guest false = guest
next_standing stranger false = stranger

unfoldable pub may_connect : Standing → Bool
may_connect stranger = false
may_connect guest = true
may_connect node = true

unfoldable pub is_node : Standing → Bool
is_node stranger = false
is_node guest = false
is_node node = true

-- What holds of a result, if there is one.
abbrev IfSome : {A : Type 0} → (A → Type 0) → Option A → Type 0
IfSome P none = Unit
IfSome P (some x) = P x

and_then-IfSome :
    {A B : Type 0} (P : B → Type 0) (o : Option A) (f : A → Option B)
    → ((x : A) → IfSome P (f x))
    → IfSome P (and_then o f)
and_then-IfSome P none f h = tt
and_then-IfSome P (some x) f h = h x

IfSome-map :
    {A : Type 0} (P Q : A → Type 0) (o : Option A) → ((x : A) → P x → Q x) → IfSome P o → IfSome Q o
IfSome-map P Q none h p = tt
IfSome-map P Q (some x) h p = h x p

IfSome-and_then :
    {A B : Type 0} (P : A → Type 0) (Q : B → Type 0) (f : A → B) (o : Option A)
    → ((x : A) → P x → Q (f x))
    → IfSome P o
    → IfSome Q (and_then o (λ x. some (f x)))
IfSome-and_then P Q f none h p = tt
IfSome-and_then P Q f (some x) h p = h x p

IfSome→holds : {A : Type 0} (P : A → Type 0) (o : Option A) (x : A) → o ≡ some x → IfSome P o → P x
IfSome→holds P none x e p = ground (arith, e)
IfSome→holds P (some y) x e p = subst P (some-injective _ _ e) p

module _ (w : Swarm) (k : Kademlia) (a : AllowList) where
  -- The standing that follows from a history of rounds: errors and other events change nothing.
  unfoldable pub standing_after : PeerId → Standing → List (Selected w k a) → Standing
  unfolding next_standing
  standing_after peer_id standing [] = standing
  standing_after peer_id standing (nodes_read (ok nodes) ∷ more) =
      standing_after peer_id (next_standing standing (member peer_id nodes)) more
  standing_after peer_id standing (nodes_read (err e) ∷ more) = standing_after peer_id standing more
  standing_after peer_id standing (identify_event ev ∷ more) = standing_after peer_id standing more
  standing_after peer_id standing (swarm_event ∷ more) = standing_after peer_id standing more

  -- The boot node's lists say that the peer has this standing.
  pub record HasStanding (s : Bootnode w k a) (peer_id : PeerId) (standing : Standing)
      : Type 0 where
    pub listed : member peer_id s.registered_nodes ≡ is_node standing
    pub admitted : a.allowed s.allow peer_id ≡ may_connect standing

  allowed-block_nodes :
      (i : a.Inner) (peers : List PeerId) (peer_id : PeerId)
      → a.allowed (block_nodes w k a i peers) peer_id
        ≡ (if member peer_id peers then false else a.allowed i peer_id)
  unfolding block_nodes member
  allowed-block_nodes i [] peer_id = refl
  allowed-block_nodes i (q ∷ peers) peer_id = ground (
    arith,
    allowed-block_nodes (a.disallow_peer i q) peers peer_id,
    a.allowed-disallow_peer i q peer_id,
  )

  allowed-allow_nodes :
      (i : a.Inner) (peers : List PeerId) (peer_id : PeerId)
      → a.allowed (allow_nodes w k a i peers) peer_id
        ≡ (if member peer_id peers then true else a.allowed i peer_id)
  unfolding allow_nodes member
  allowed-allow_nodes i [] peer_id = refl
  allowed-allow_nodes i (q ∷ peers) peer_id = ground (
    arith,
    allowed-allow_nodes (a.allow_peer i q) peers peer_id,
    a.allowed-allow_peer i q peer_id,
  )

  -- Lists that are the same set leave every standing as it is.
  unchanged :
      (standing : Standing) (on_list : Bool)
      → is_node standing ≡ on_list
      → next_standing standing on_list ≡ standing
  unfolding next_standing is_node
  unchanged stranger true e = ground (arith, e)
  unchanged stranger false e = refl
  unchanged guest true e = ground (arith, e)
  unchanged guest false e = refl
  unchanged node true e = refl
  unchanged node false e = ground (arith, e)

  admitted_next :
      (standing : Standing) (on_list : Bool)
      → may_connect (next_standing standing on_list)
        ≡ (if on_list then true else if is_node standing then false else may_connect standing)
  unfolding next_standing may_connect is_node
  admitted_next stranger true = refl
  admitted_next stranger false = refl
  admitted_next guest true = refl
  admitted_next guest false = refl
  admitted_next node true = refl
  admitted_next node false = refl

  listed_next :
      (standing : Standing) (on_list : Bool) → is_node (next_standing standing on_list) ≡ on_list
  unfolding next_standing is_node
  listed_next standing true = refl
  listed_next stranger false = refl
  listed_next guest false = refl
  listed_next node false = refl

  node_admitted : (standing : Standing) → is_node standing ≡ true → may_connect standing ≡ true
  unfolding is_node may_connect
  node_admitted stranger e = ground (arith, e)
  node_admitted guest e = ground (arith, e)
  node_admitted node e = refl

  on_nodes-HasStanding :
      (s : Bootnode w k a) (peer_id : PeerId) (standing : Standing) (nodes : List PeerId)
      → HasStanding s peer_id standing
      → HasStanding
          (on_nodes w k a s (ok nodes))
          peer_id
          (next_standing standing (member peer_id nodes))
  unfolding on_nodes
  on_nodes-HasStanding s peer_id standing nodes h =
      elim (Bool-cases (same_set nodes s.registered_nodes)) [
        | inl same ↦
            let stays =
              unchanged standing (member peer_id nodes)
                (sym h.listed ∙ sym (member-same_set a nodes s.registered_nodes same peer_id)) in
            rw (same, on_nodes, stays) h
        | inr other ↦
            rw (other, on_nodes)
              (record {
                listed = sym (listed_next standing (member peer_id nodes));
                admitted = ground (
                  arith,
                  node_admitted standing,
                  admitted_next standing (member peer_id nodes),
                  allowed-allow_nodes
                      (block_nodes w k a s.allow (difference s.registered_nodes nodes))
                      (difference nodes s.registered_nodes) peer_id,
                  allowed-block_nodes s.allow (difference s.registered_nodes nodes) peer_id,
                  member-difference peer_id nodes s.registered_nodes,
                  member-difference peer_id s.registered_nodes nodes,
                  h.listed,
                  h.admitted,
                );
              })
      ]

  -- Over every history of events, answers and errors, the boot node's lists follow the three standings
  -- of a peer: whether it is registered, and whether it may connect.
  pub run-HasStanding :
      (private_network : Bool) (s : Bootnode w k a) (peer_id : PeerId) (standing : Standing)
      (history : List (Selected w k a))
      → HasStanding s peer_id standing
      → HasStanding
          (run w k a private_network s history)
          peer_id
          (standing_after peer_id standing history)
  unfolding run round on_identified standing_after
  run-HasStanding private_network s peer_id standing [] h = h
  run-HasStanding private_network s peer_id standing (nodes_read (ok nodes) ∷ more) h =
      run-HasStanding private_network (on_nodes w k a s (ok nodes)) peer_id
        (next_standing standing (member peer_id nodes)) more
        (on_nodes-HasStanding s peer_id standing nodes h)
  run-HasStanding private_network s peer_id standing (nodes_read (err e) ∷ more) h =
      run-HasStanding private_network s peer_id standing more h
  run-HasStanding private_network s peer_id standing
        (identify_event (received q addrs protocols) ∷ more) h =
      run-HasStanding private_network
        (on_identified w k a private_network s (received q addrs protocols)) peer_id standing more
        (record { listed = h.listed; admitted = h.admitted })
  run-HasStanding private_network s peer_id standing (identify_event other_identify_event ∷ more)
        h =
      run-HasStanding private_network s peer_id standing more h
  run-HasStanding private_network s peer_id standing (swarm_event ∷ more) h =
      run-HasStanding private_network s peer_id standing more h

  -- Who is allowed from the start.
  abbrev pub invited : PeerId → List BootNode → List PeerId → PeerId → Bool
  invited local_peer_id boot_nodes allowed_nodes q =
      member q allowed_nodes
      || member q (map (λ bn. bn.peer_id) (other_boot_nodes local_peer_id boot_nodes))

  connect_all-allowed :
      (swarm : w.Inner) (allow : a.Inner) (nodes : List BootNode) (q : PeerId)
      → IfSome
          (λ r.
            a.allowed r.1 q
            ≡ (if member q (map (λ bn. bn.peer_id) nodes) then true else a.allowed allow q))
          (connect_all w k a swarm allow nodes)
  unfolding connect_all member
  connect_all-allowed swarm allow [] q = refl
  connect_all-allowed swarm allow (bn ∷ nodes) q =
      and_then-IfSome _ (w.dial swarm bn.peer_id []) _ λ swarm'.
        IfSome-map _ _ (connect_all w k a swarm' (a.allow_peer allow bn.peer_id) nodes)
          (λ r same. ground (arith, same, a.allowed-allow_peer allow bn.peer_id q))
          (connect_all-allowed swarm' (a.allow_peer allow bn.peer_id) nodes q)

  invited-HasStanding :
      (s : Bootnode w k a) (peer_id : PeerId) (is_invited : Bool)
      → s.registered_nodes ≡ []
      → a.allowed s.allow peer_id ≡ is_invited
      → HasStanding s peer_id (if is_invited then guest else stranger)
  unfolding member is_node may_connect
  invited-HasStanding s peer_id true new allowed = record { listed = rw new; admitted = allowed }
  invited-HasStanding s peer_id false new allowed = record { listed = rw new; admitted = allowed }

  started-HasStanding :
      (swarm : w.Inner) (kademlia : k.Inner) (allow : a.Inner) (local_peer_id : PeerId)
      (boot_nodes : List BootNode) (allowed_nodes : List PeerId) (peer_id : PeerId)
      → a.allowed allow peer_id ≡ false
      → IfSome
          (λ s.
            HasStanding s peer_id
              (if invited local_peer_id boot_nodes allowed_nodes peer_id then guest else stranger))
          (start_bootnode w k a swarm kademlia allow local_peer_id boot_nodes allowed_nodes)
  unfolding start_bootnode
  started-HasStanding swarm kademlia allow local_peer_id boot_nodes allowed_nodes peer_id
        none_allowed =
      IfSome-and_then _ _ _
        (connect_all w k a swarm allow (other_boot_nodes local_peer_id boot_nodes))
        (λ r connected.
          invited-HasStanding _ peer_id (invited local_peer_id boot_nodes allowed_nodes peer_id)
            refl
            (ground
              (arith, connected, none_allowed, allowed-allow_nodes r.1 allowed_nodes peer_id)))
        (connect_all-allowed swarm allow (other_boot_nodes local_peer_id boot_nodes) peer_id)

  -- A boot node that starts with nobody allowed, over every history of events, answers and errors: a
  -- peer may connect, and is registered, as the three standings say. At the start the other boot nodes
  -- and the nodes that the arguments allow are guests.
  pub history-HasStanding :
      (private_network : Bool) (swarm : w.Inner) (kademlia : k.Inner) (allow : a.Inner)
      (local_peer_id : PeerId) (boot_nodes : List BootNode) (allowed_nodes : List PeerId)
      (s : Bootnode w k a) (peer_id : PeerId) (history : List (Selected w k a))
      → a.allowed allow peer_id ≡ false
      → start_bootnode w k a swarm kademlia allow local_peer_id boot_nodes allowed_nodes ≡ some s
      → HasStanding (run w k a private_network s history) peer_id (
          standing_after peer_id
            (if invited local_peer_id boot_nodes allowed_nodes peer_id then guest else stranger)
            history)
  history-HasStanding private_network swarm kademlia allow local_peer_id boot_nodes allowed_nodes s
        peer_id history none_allowed started =
      run-HasStanding private_network s peer_id
        (if invited local_peer_id boot_nodes allowed_nodes peer_id then guest else stranger) history
        (IfSome→holds _ _ s started (
          started-HasStanding swarm kademlia allow local_peer_id boot_nodes allowed_nodes peer_id
            none_allowed))
