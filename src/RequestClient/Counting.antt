-- ===== src/RequestClient/Counting.antt =====
-- transport/src/behaviour/request_client.rs: how often an ID stands in a list or is the value of a key.
use subsquid_network.Base.{
  ℕ, ◌+◌, ◌≡◌, refl, Bool, true, false, some, List, [], ◌∷◌, ◌++◌, if◌then◌else◌, lookup, insert,
  remove, has_key, member, put, member-put, IsDict, remove_absent, lookup-insert, lookup-remove,
  eq_of_nat, ◌==◌, ==_cases, inl, inr, arith,
}
use subsquid_network.RequestClient.{RequestId}

abbrev pub one_if : Bool → ℕ
one_if true = 1
one_if false = 0

unfoldable pub count : RequestId → List RequestId → ℕ
count a [] = 0
count a (id ∷ ids) = one_if (id == a) + count a ids

-- How many keys have this value.
unfoldable pub count_values : RequestId → List (RequestId × RequestId) → ℕ
count_values a [] = 0
count_values a ((key, id) ∷ m) = one_if (id == a) + count_values a m

abbrev pub IsDistinct : List RequestId → Type 0
IsDistinct [] = Unit
IsDistinct (id ∷ ids) = (member id ids ≡ false) × IsDistinct ids

pub count-append :
    (a : RequestId) (ids ids' : List RequestId) → count a (ids ++ ids') ≡ count a ids + count a ids'
unfolding count
count-append a [] ids' = omega arith
count-append a (id ∷ ids) ids' = omega (arith, count-append a ids ids')

pub count_absent : (a : RequestId) (ids : List RequestId) → member a ids ≡ false → count a ids ≡ 0
unfolding count member
count_absent a [] h = refl
count_absent a (id ∷ ids) h = ground (arith, h, count_absent a ids)

pub count-IsDistinct :
    (a : RequestId) (ids : List RequestId) → IsDistinct ids → count a ids ≡ one_if (member a ids)
unfolding count member
count-IsDistinct a [] h = refl
count-IsDistinct a (id ∷ ids) h = elim (==_cases id a) [
  | inl (same, p) ↦ rw (same, count, member) (ground (arith, count_absent a ids, h.0, p))
  | inr (other, p) ↦ rw (other, count, member) (omega (arith, count-IsDistinct a ids h.1))
]

pub put-IsDistinct :
    (id : RequestId) (ids : List RequestId) → IsDistinct ids → IsDistinct (put id ids)
unfolding put member
put-IsDistinct id [] h = (refl, tt)
put-IsDistinct id (j ∷ ids) h = ground (arith, h, put-IsDistinct id ids, member-put id j ids)

pub has_key-insert :
    {V : Type 0} (key j : RequestId) (v : V) (m : List (RequestId × V))
    → has_key j (insert key v m) ≡ (if key == j then true else has_key j m)
has_key-insert key j v m = ground (arith, lookup-insert key j v m)

pub has_key-remove :
    {V : Type 0} (key j : RequestId) (m : List (RequestId × V))
    → has_key j (remove key m) ≡ (if key == j then false else has_key j m)
has_key-remove key j m = ground (arith, lookup-remove key j m)

pub count_values-insert :
    (a key id : RequestId) (m : List (RequestId × RequestId))
    → has_key key m ≡ false
    → count_values a (insert key id m) ≡ count_values a m + one_if (id == a)
unfolding count_values insert lookup
count_values-insert a key id [] h = omega arith
count_values-insert a key id ((j, old) ∷ m) h = elim (==_cases j key) [
  | inl (same, p) ↦ ground (arith, h, same)
  | inr (other, p) ↦
      rw (other, insert) (omega (arith, count_values-insert a key id m (ground (arith, h, other))))
]

pub count_values-remove :
    (a key id : RequestId) (m : List (RequestId × RequestId))
    → IsDict m
    → lookup key m ≡ some id
    → count_values a (remove key m) + one_if (id == a) ≡ count_values a m
unfolding count_values remove lookup
count_values-remove a key id [] d h = ground (arith, h)
count_values-remove a key id ((j, old) ∷ m) d h = elim (==_cases j key) [
  | inl (same, p) ↦ ground (arith, h, d, p, remove_absent key m)
  | inr (other, p) ↦ ground (arith, h, other, count_values-remove a key id m d.1)
]
