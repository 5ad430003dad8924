-- ===== src/Timeouts/Sample.antt =====
-- A map of timeouts for the examples: the peers, and the capacity.
use subsquid_network.Base.{
  ℕ, ◌≡◌, refl, true, false, List, [], length, ltb, if◌then◌else◌, member, put, drop, member-put,
  member-drop, eq_of_nat, arith, ◌==◌,
}
use subsquid_network.Messages.{PeerId}
use subsquid_network.Timeouts.{Timeouts, Pushed, pushed, beyond_capacity, replaced}

abbrev pub sample_push : List PeerId × ℕ → PeerId → (List PeerId × ℕ) × Pushed
sample_push m p =
    if member p m.0
    then (m, replaced)
    else if ltb (length m.0) m.1
    then ((put p m.0, m.1), pushed)
    else (m, beyond_capacity)

pub sample_pushed :
    (m : List PeerId × ℕ) (p q : PeerId)
    → (sample_push m p).1 ≡ pushed
    → member q (sample_push m p).0.0 ≡ (if p == q then true else member q m.0)
sample_pushed m p q h = ground (arith, member-put p q m.0)

pub sample_beyond :
    (m : List PeerId × ℕ) (p q : PeerId)
    → (sample_push m p).1 ≡ beyond_capacity
    → member q (sample_push m p).0.0 ≡ member q m.0
sample_beyond m p q h = ground arith

pub sample_replaced :
    (m : List PeerId × ℕ) (p q : PeerId)
    → (sample_push m p).1 ≡ replaced
    → member q (sample_push m p).0.0 ≡ member q m.0
sample_replaced m p q h = ground arith

pub sample_empty : (p : PeerId) → member p [] ≡ false
unfolding member
sample_empty p = refl

abbrev pub sample_timeouts : Timeouts
sample_timeouts = record {
  Map = List PeerId × ℕ;
  start = λ duration capacity. ([], capacity);
  contains = λ m p. member p m.0;
  try_push = sample_push;
  remove = λ m p. ((drop p m.0, m.1), member p m.0);
  expired = λ m p. (drop p m.0, m.1);
  contains-start = λ d n p. sample_empty p;
  contains-try_push = sample_pushed;
  contains-beyond = sample_beyond;
  contains-replaced = sample_replaced;
  contains-remove = λ m p q. member-drop p q m.0;
  removed = λ m p. refl;
  contains-expired = λ m p q. member-drop p q m.0;
}
