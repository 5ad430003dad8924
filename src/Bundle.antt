-- ===== src/Bundle.antt =====
-- transport/src/behaviour/base.rs: `bundle_messages`, which packs messages into bundles for
-- publishing. The size of a message (`prost::Message::encoded_len`) is a parameter.
pub mod Packing
mod Examples
use subsquid_network.Base.{ℕ, zero, suc, ◌-◌, List, [], ◌∷◌, leb, if◌then◌else◌, length}

module _ {ℓ} {M : Type ℓ} (encoded_len : M → ℕ) where
  -- The `filter_map`: sizes are computed once, and messages above the limit are dropped.
  unfoldable pub sized : ℕ → List M → List (ℕ × M)
  sized size_limit [] = []
  sized size_limit (msg ∷ messages) =
      if leb (encoded_len msg) size_limit
      then (encoded_len msg, msg) ∷ sized size_limit messages
      else sized size_limit messages

-- The `while let` loop: messages move into the bundle as long as they fit the capacity that is
-- left. The result is the bundle and the iterator behind it.
unfoldable pub fill {ℓ} : {M : Type ℓ} → ℕ → List (ℕ × M) → List M × List (ℕ × M)
fill remaining_cap [] = ([], [])
fill remaining_cap ((size, msg) ∷ iter) =
    let more = fill (remaining_cap - size) iter in
    if leb size remaining_cap then (msg ∷ more.0, more.1) else ([], (size, msg) ∷ iter)

-- The iterator that `from_fn` makes, run until it gives `None`; an empty bundle is `None`.
unfoldable pub bundles {ℓ} : {M : Type ℓ} → ℕ → ℕ → List (ℕ × M) → List (List M)
bundles zero size_limit iter = []
bundles (suc fuel) size_limit iter =
    let (bundle, rest) = fill size_limit iter in
    elim bundle [ [] ↦ [] | msg ∷ more ↦ (msg ∷ more) ∷ bundles fuel size_limit rest ]

-- Each bundle takes a message, so the messages and one more bound the rounds.
unfoldable pub bundle_messages {ℓ} : {M : Type ℓ} → (M → ℕ) → List M → ℕ → List (List M)
bundle_messages encoded_len messages size_limit =
    let iter = sized encoded_len size_limit messages in bundles (suc (length iter)) size_limit iter
