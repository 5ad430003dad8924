-- ===== src/Bundle/Examples.antt =====
-- transport/src/behaviour/base.rs: the test of `bundle_messages`, and each theorem at its input.
use subsquid_network.Base.{ℕ, ◌≡◌, refl, List, [], ◌∷◌, leb, keep}
use subsquid_network.Bundle.{sized, fill, bundles, bundle_messages}
use subsquid_network.Bundle.Packing.{
  concat, IsPacked, concat-bundle_messages, bundle_messages-IsPacked,
}

program : Unit {0}
unfolding sized fill bundles bundle_messages keep
program = tt

-- A message that is its own size.
abbrev size_of : ℕ → ℕ
size_of msg = msg

abbrev messages : List ℕ
messages = 40 ∷ 40 ∷ 200 ∷ 90 ∷ []

test_bundle_messages : bundle_messages size_of messages 100 ≡ (40 ∷ 40 ∷ []) ∷ (90 ∷ []) ∷ []
unfolding program
test_bundle_messages = refl

concat-bundle_messages_example :
    concat (bundle_messages size_of messages 100) ≡ keep (λ msg. leb (size_of msg) 100) messages
concat-bundle_messages_example = concat-bundle_messages size_of messages 100

bundle_messages-IsPacked_example : IsPacked size_of 100 (bundle_messages size_of messages 100)
bundle_messages-IsPacked_example = bundle_messages-IsPacked size_of messages 100
