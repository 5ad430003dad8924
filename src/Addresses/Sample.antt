-- ===== src/Addresses/Sample.antt =====
-- A cache for the examples, which holds everything.
use subsquid_network.Base.{
  ◌≡◌, ◌≢◌, refl, sym, ◌∙◌, some, List, [], or_else, lookup, insert, lookup-insert,
  lookup-insert_self, ==_of_ne, eq_of_nat, none,
}
use subsquid_network.Messages.{PeerId}
use subsquid_network.Addresses.{Multiaddr, Lru}

pub sample_others :
    (c : List (PeerId × List Multiaddr)) (p q : PeerId) (f : List Multiaddr → List Multiaddr)
    (held : List Multiaddr)
    → p ≢ q
    → lookup q (insert p (f (or_else (lookup p c) [])) c) ≡ some held
    → lookup q c ≡ some held
sample_others c p q f held ne e =
    sym (lookup-insert p q (f (or_else (lookup p c) [])) c ∙ rw (==_of_ne p q ne)) ∙ e

pub sample_none : (p : PeerId) → lookup {V = List Multiaddr} p [] ≡ none
unfolding lookup
sample_none p = refl

abbrev pub sample_lru : Lru
sample_lru = record {
  Cache = List (PeerId × List Multiaddr);
  start = λ size. [];
  peek = λ c p. lookup p c;
  get = λ c p. (c, lookup p c);
  modify = λ c p f. insert p (f (or_else (lookup p c) [])) c;
  peek-start = λ n p. sample_none p;
  got = λ c p. refl;
  peek-get = λ c p q. refl;
  modified = λ c p f. lookup-insert_self p (f (or_else (lookup p c) [])) c;
  others = sample_others;
}
