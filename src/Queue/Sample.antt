-- ===== src/Queue/Sample.antt =====
-- A bounded queue for the examples: what it holds, and its size.
use subsquid_network.Base.{
  ℕ, ◌<◌, ◌≤◌, ◌≡◌, refl, Option, none, some, List, [], ◌∷◌, ◌++◌, length, if◌then◌else◌, ltb,
  arith,
}
use subsquid_network.Queue.{Channel}

module _ {T : Type 0} where
  abbrev pub sample_send : List T × ℕ → T → Option (List T × ℕ)
  sample_send (held, size) msg =
      if ltb (length held) size then some (held ++ msg ∷ [], size) else none

  abbrev pub sample_recv : List T × ℕ → Option (T × (List T × ℕ))
  sample_recv ([], size) = none
  sample_recv (msg ∷ held, size) = some (msg, (held, size))

  pub sample_sends :
      (c : List T × ℕ) (msg : T)
      → length c.0 < c.1
      → (c' : List T × ℕ) × (sample_send c msg ≡ some c') × (c'.0 ≡ c.0 ++ msg ∷ []) × (c'.1 ≡ c.1)
  sample_sends (held, size) msg h = ((held ++ msg ∷ [], size), ground (arith, h), refl, refl)

  pub sample_refuses : (c : List T × ℕ) (msg : T) → c.1 ≤ length c.0 → sample_send c msg ≡ none
  sample_refuses (held, size) msg h = ground (arith, h)

  pub sample_nothing : (c : List T × ℕ) → c.0 ≡ [] → sample_recv c ≡ none
  sample_nothing ([], size) h = refl
  sample_nothing (msg ∷ held, size) h = ground (arith, h)

  pub sample_gives :
      (c : List T × ℕ) (msg : T) (rest : List T)
      → c.0 ≡ msg ∷ rest
      → (c' : List T × ℕ) × (sample_recv c ≡ some (msg, c')) × (c'.0 ≡ rest) × (c'.1 ≡ c.1)
  sample_gives ([], size) msg rest h = ground (arith, h)
  sample_gives (first ∷ held, size) msg rest h = ((held, size), cc h, cc h, refl)

abbrev pub sample_channel : (T : Type 0) → Channel T
sample_channel T = record {
  Inner = List T × ℕ;
  start = λ size. ([], size);
  try_send = sample_send;
  recv = sample_recv;
  held = λ c. c.0;
  capacity = λ c. c.1;
  held-start = λ size. refl;
  capacity-start = λ size. refl;
  sends = sample_sends;
  refuses = sample_refuses;
  nothing = sample_nothing;
  gives = sample_gives;
}
