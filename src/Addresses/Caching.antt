-- ===== src/Addresses/Caching.antt =====
-- transport/src/behaviour/addr_cache.rs: what is offered for dialling, over every history.
use subsquid_network.Base.{
  ℕ, ◌≡◌, sym, subst, ◌∙◌, Option, none, some, List, [], ◌∷◌, ◌++◌, or_else, Option-cases, ◌==◌,
  ==_cases, eq_of_nat, arith, All, All-append, inl, inr, if◌then◌else◌,
}
use mathlib.Core.Option.{some-injective}
use subsquid_network.Messages.{PeerId}
use subsquid_network.Addresses.{
  Multiaddr, Lru, AddressEvent, new_external_addr_of_peer, other_address_event, put_addrs,
  handle_pending_outbound_connection, handle_established_outbound_connection, on_address_event,
}

-- What the program and the swarm call on the cache.
pub data Call : Type 0 where
  add : PeerId → List Multiaddr → Call
  pending : Option PeerId → Call
  established : PeerId → Multiaddr → Call
  event : AddressEvent → Call

-- The addresses that a call names for a peer.
unfoldable pub named : PeerId → Call → List Multiaddr
named p (add q addrs) = if q == p then addrs else []
named p (pending o) = []
named p (established q addr) = if q == p then addr ∷ [] else []
named p (event (new_external_addr_of_peer q addr)) = if q == p then addr ∷ [] else []
named p (event other_address_event) = []

module _ (l : Lru) where
  unfoldable pub apply : l.Cache → Call → l.Cache
  apply c (add p addrs) = put_addrs l c p addrs
  apply c (pending o) = (handle_pending_outbound_connection l c o).0
  apply c (established p addr) = handle_established_outbound_connection l c p addr
  apply c (event e) = on_address_event l c e

  unfoldable pub run : l.Cache → List Call → l.Cache
  run c [] = c
  run c (call ∷ calls) = run (apply c call) calls

module _ (l : Lru) (P : Multiaddr → Type 0) (p : PeerId) where
  abbrev Holds : l.Cache → Type 0
  Holds c = (held : List Multiaddr) → l.peek c p ≡ some held → All P held

  Holds-or_else : (c : l.Cache) → Holds c → All P (or_else (l.peek c p) [])
  Holds-or_else c h = elim (Option-cases (l.peek c p)) [
    | inl e ↦ rw e tt
    | inr (held, e) ↦ rw e (h held e)
  ]

  put_addrs-Holds :
      (c : l.Cache) (q : PeerId) (addrs : List Multiaddr)
      → Holds c
      → All P (if q == p then addrs else [])
      → Holds (put_addrs l c q addrs)
  unfolding put_addrs
  put_addrs-Holds c q addrs h a held e = elim (==_cases q p) [
    | inl (same, r) ↦
        let f : List Multiaddr → List Multiaddr = λ old. old ++ addrs in
        let now =
          subst (λ k. l.peek (l.modify c k f) p ≡ some (or_else (l.peek c p) [] ++ addrs)) (sym r)
            (l.modified c p f) in
        subst (All P) (some-injective _ _ (sym now ∙ e)) (
          All-append P (or_else (l.peek c p) []) addrs (Holds-or_else c h)
            (subst (All P) (rw same) a))
    | inr (other, ne) ↦ h held (l.others c q p (λ old. old ++ addrs) held ne e)
  ]

  apply-Holds :
      (c : l.Cache) (call : Call) → Holds c → All P (named p call) → Holds (apply l c call)
  unfolding apply named handle_pending_outbound_connection handle_established_outbound_connection
      on_address_event
  apply-Holds c (add q addrs) h a = put_addrs-Holds c q addrs h a
  apply-Holds c (pending none) h a = h
  apply-Holds c (pending (some q)) h a = λ held e. h held (sym (l.peek-get c q p) ∙ e)
  apply-Holds c (established q addr) h a = put_addrs-Holds c q (addr ∷ []) h a
  apply-Holds c (event (new_external_addr_of_peer q addr)) h a = put_addrs-Holds c q (addr ∷ []) h a
  apply-Holds c (event other_address_event) h a = h

  run-Holds :
      (c : l.Cache) (calls : List Call)
      → Holds c
      → All (λ call. All P (named p call)) calls
      → Holds (run l c calls)
  unfolding run
  run-Holds c [] h a = h
  run-Holds c (call ∷ calls) h a = run-Holds (apply l c call) calls (apply-Holds c call h a.0) a.1

-- Over every history of a new cache, and whatever it evicts, what it offers for dialling a peer has
-- each property that all addresses named for that peer had: no address of another peer gets in.
pub offered_were_named :
    (l : Lru) (P : Multiaddr → Type 0) (p : PeerId) (size : ℕ) (calls : List Call)
    → All (λ call. All P (named p call)) calls
    → All P (handle_pending_outbound_connection l (run l (l.start size) calls) (some p)).1
unfolding handle_pending_outbound_connection
offered_were_named l P p size calls a =
    let c = run l (l.start size) calls in
    subst (λ o. All P (or_else o [])) (sym (l.got c p))
      (Holds-or_else l P p c
        (run-Holds l P p (l.start size) calls (λ held e. ground (arith, l.peek-start size p)) a))
