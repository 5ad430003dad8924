-- ===== src/BaseBehaviour/Nodes.antt =====
-- transport/src/behaviour/base.rs: the registered nodes, and the peers that may connect. The list
-- of allowed peers (libp2p's allow_block_list) is a parameter.
use subsquid_network.Base.{
  ◌≡◌, refl, sym, ◌∙◌, Bool, true, false, ◌&&◌, List, [], ◌∷◌, if◌then◌else◌, Result, ok, err,
  String, member, subset, difference, member-difference, subset-IsSubset, eq_of_nat, ◌==◌,
  Bool-cases, inl, inr, arith,
}
use subsquid_network.Messages.{PeerId}

-- `allow_block_list::Behaviour<AllowedPeers>`
pub record AllowList : Type 1 where
  pub Inner : Type 0
  pub allow_peer : Inner → PeerId → Inner
  pub disallow_peer : Inner → PeerId → Inner
  pub allowed : Inner → PeerId → Bool
  pub allowed-allow_peer :
      (a : Inner) (p q : PeerId)
      → allowed (allow_peer a p) q ≡ (if p == q then true else allowed a q)
  pub allowed-disallow_peer :
      (a : Inner) (p q : PeerId)
      → allowed (disallow_peer a p) q ≡ (if p == q then false else allowed a q)

-- Equality of two `HashSet`s.
unfoldable pub same_set : List PeerId → List PeerId → Bool
same_set s s' = subset s s' && subset s' s

module _ (a : AllowList) where
  pub record NodesState : Type 0 where
    pub allow : a.Inner
    pub registered_nodes : List PeerId

  unfoldable pub disallow_all : a.Inner → List PeerId → a.Inner
  disallow_all allow [] = allow
  disallow_all allow (peer_id ∷ peers) = disallow_all (a.disallow_peer allow peer_id) peers

  unfoldable pub allow_all : a.Inner → List PeerId → a.Inner
  allow_all allow [] = allow
  allow_all allow (peer_id ∷ peers) = allow_all (a.allow_peer allow peer_id) peers

  -- `BaseBehaviour::allow_peer`
  unfoldable pub allow_peer : NodesState → PeerId → NodesState
  allow_peer s peer_id = record s { allow = a.allow_peer s.allow peer_id }

  -- What `BaseBehaviour::new` does with the boot nodes.
  unfoldable pub start_nodes : a.Inner → List PeerId → NodesState
  unfolding allow_all
  start_nodes allow boot_nodes = record {
    allow = allow_all allow boot_nodes;
    registered_nodes = [];
  }

  unfoldable pub on_nodes_update : NodesState → Result String (List PeerId) → NodesState
  unfolding disallow_all allow_all same_set
  on_nodes_update s (err e) = s
  on_nodes_update s (ok nodes) = if same_set nodes s.registered_nodes then s else record {
    allow =
        allow_all (disallow_all s.allow (difference s.registered_nodes nodes))
          (difference nodes s.registered_nodes);
    registered_nodes = nodes;
  }

  unfoldable pub updates : NodesState → List (Result String (List PeerId)) → NodesState
  unfolding on_nodes_update
  updates s [] = s
  updates s (result ∷ results) = updates (on_nodes_update s result) results

  allowed-disallow_all :
      (i : a.Inner) (peers : List PeerId) (p : PeerId)
      → a.allowed (disallow_all i peers) p ≡ (if member p peers then false else a.allowed i p)
  unfolding disallow_all member
  allowed-disallow_all i [] p = refl
  allowed-disallow_all i (q ∷ peers) p =
      ground
        (arith, allowed-disallow_all (a.disallow_peer i q) peers p, a.allowed-disallow_peer i q p)

  allowed-allow_all :
      (i : a.Inner) (peers : List PeerId) (p : PeerId)
      → a.allowed (allow_all i peers) p ≡ (if member p peers then true else a.allowed i p)
  unfolding allow_all member
  allowed-allow_all i [] p = refl
  allowed-allow_all i (q ∷ peers) p =
      ground (arith, allowed-allow_all (a.allow_peer i q) peers p, a.allowed-allow_peer i q p)

  -- Every registered node is allowed.
  abbrev pub IsConsistent : NodesState → Type 0
  IsConsistent s = (p : PeerId) → member p s.registered_nodes ≡ true → a.allowed s.allow p ≡ true

  pub member-same_set :
      (s s' : List PeerId) → same_set s s' ≡ true → (p : PeerId) → member p s ≡ member p s'
  unfolding same_set
  member-same_set s s' h p =
      ground (arith, subset-IsSubset s s' (ground arith) p, subset-IsSubset s' s (ground arith) p)

  -- After a list of nodes came in, and if all registered ones were allowed before, a peer is allowed
  -- exactly when it is on that list, or was allowed before and not as a registered node.
  pub on_nodes_update-allowed :
      (s : NodesState) (nodes : List PeerId) (p : PeerId)
      → IsConsistent s
      → a.allowed (on_nodes_update s (ok nodes)).allow p ≡ (
          if member p nodes
          then true
          else if member p s.registered_nodes
          then false
          else a.allowed s.allow p)
  unfolding on_nodes_update
  on_nodes_update-allowed s nodes p c = elim (Bool-cases (same_set nodes s.registered_nodes)) [
    | inl same ↦
        rw (same, on_nodes_update)
          (ground (arith, member-same_set nodes s.registered_nodes same p, c p))
    | inr other ↦
        rw (other, on_nodes_update)
          (ground (
            arith,
            allowed-allow_all (disallow_all s.allow (difference s.registered_nodes nodes))
                (difference nodes s.registered_nodes) p,
            allowed-disallow_all s.allow (difference s.registered_nodes nodes) p,
            member-difference p nodes s.registered_nodes,
            member-difference p s.registered_nodes nodes,
            c p,
          ))
  ]

  -- The members of the set that is stored are those of the list.
  on_nodes_update-registered :
      (s : NodesState) (nodes : List PeerId) (p : PeerId)
      → member p (on_nodes_update s (ok nodes)).registered_nodes ≡ member p nodes
  unfolding on_nodes_update
  on_nodes_update-registered s nodes p = elim (Bool-cases (same_set nodes s.registered_nodes)) [
    | inl same ↦ rw (same, on_nodes_update) (sym (member-same_set nodes s.registered_nodes same p))
    | inr other ↦ rw (other, on_nodes_update)
  ]

  on_nodes_update-IsConsistent :
      (s : NodesState) (result : Result String (List PeerId))
      → IsConsistent s
      → IsConsistent (on_nodes_update s result)
  unfolding on_nodes_update
  on_nodes_update-IsConsistent s (err e) c p m = c p m
  on_nodes_update-IsConsistent s (ok nodes) c p m =
      ground (arith, on_nodes_update-allowed s nodes p c, on_nodes_update-registered s nodes p)

  updates-IsConsistent :
      (s : NodesState) (results : List (Result String (List PeerId)))
      → IsConsistent s
      → IsConsistent (updates s results)
  unfolding updates
  updates-IsConsistent s [] c = c
  updates-IsConsistent s (result ∷ results) c =
      updates-IsConsistent (on_nodes_update s result) results
        (on_nodes_update-IsConsistent s result c)

  none_registered :
      (allow : a.Inner) (boot_nodes : List PeerId) → IsConsistent (start_nodes allow boot_nodes)
  unfolding start_nodes member
  none_registered allow boot_nodes q m = ground arith

  -- Whatever answers and errors came from the chain, once one more list came in all nodes on it are
  -- allowed, and no node that was registered before and is not on it any more.
  pub updates-allowed :
      (allow : a.Inner) (boot_nodes : List PeerId) (results : List (Result String (List PeerId)))
      (nodes : List PeerId) (p : PeerId)
      → let s = updates (start_nodes allow boot_nodes) results in
        let s' = on_nodes_update s (ok nodes) in
        (member p nodes ≡ true → a.allowed s'.allow p ≡ true)
        × (member p s.registered_nodes ≡ true
            → member p nodes ≡ false
            → a.allowed s'.allow p ≡ false)
  updates-allowed allow boot_nodes results nodes p =
      let s = updates (start_nodes allow boot_nodes) results in
      let rule = on_nodes_update-allowed s nodes p (
        updates-IsConsistent (start_nodes allow boot_nodes) results
          (none_registered allow boot_nodes)) in
      (λ m. rule ∙ rw m, λ m n. rule ∙ rw (n, m))
