-- ===== src/Bundle/Packing.antt =====
-- transport/src/behaviour/base.rs: what `bundle_messages` computes.
use subsquid_network.Base.{
  ℕ, zero, suc, ◌+◌, ◌-◌, ◌≤◌, ◌<◌, ◌≡◌, refl, sym, subst, ap, ◌∙◌, List, [], ◌∷◌, ◌++◌, arith, leb,
  inl, inr, ◌⊎◌, length, keep, le→leb, lt→not_leb, dec_le,
}
use subsquid_network.Bundle.{sized, fill, bundles, bundle_messages}

abbrev pub concat {ℓ} : {M : Type ℓ} → List (List M) → List M
concat [] = []
concat (bundle ∷ rest) = bundle ++ concat rest

module _ {ℓ} {M : Type ℓ} (encoded_len : M → ℕ) where
  unfoldable pub total : List M → ℕ
  total [] = 0
  total (msg ∷ bundle) = encoded_len msg + total bundle

  abbrev pub messages_of : List (ℕ × M) → List M
  messages_of [] = []
  messages_of ((size, msg) ∷ iter) = msg ∷ messages_of iter

  -- The sizes are those of the messages, and each is within the limit.
  abbrev AreSized : ℕ → List (ℕ × M) → Type 0
  AreSized size_limit [] = Unit {0}
  AreSized size_limit ((size, msg) ∷ iter) =
      (size ≡ encoded_len msg) × (size ≤ size_limit) × AreSized size_limit iter

  -- The message that comes next, if there is one, does not fit behind `used` bytes.
  abbrev pub NoRoom : ℕ → ℕ → List M → Type 0
  NoRoom size_limit used [] = Unit {0}
  NoRoom size_limit used (msg ∷ rest) = size_limit < used + encoded_len msg

  abbrev pub IsPacked : ℕ → List (List M) → Type 0
  IsPacked size_limit [] = Unit {0}
  IsPacked size_limit (bundle ∷ rest) =
      (0 < length bundle)
      × (total bundle ≤ size_limit)
      × NoRoom size_limit (total bundle) (concat rest)
      × IsPacked size_limit rest

  sized-AreSized :
      (size_limit : ℕ) (messages : List M)
      → AreSized size_limit (sized encoded_len size_limit messages)
  unfolding sized
  sized-AreSized size_limit [] = tt
  sized-AreSized size_limit (msg ∷ messages) = ground (arith, sized-AreSized size_limit messages)

  messages_of-sized :
      (size_limit : ℕ) (messages : List M)
      → messages_of (sized encoded_len size_limit messages)
        ≡ keep (λ msg. leb (encoded_len msg) size_limit) messages
  unfolding sized keep
  messages_of-sized size_limit [] = refl
  messages_of-sized size_limit (msg ∷ messages) =
      ground (arith, messages_of-sized size_limit messages)

  -- What one round of the iterator gives: a bundle, and the rest.
  record Filled (size_limit cap : ℕ) (iter : List (ℕ × M)) (out : List M × List (ℕ × M))
      : Type ℓ where
    split : out.0 ++ messages_of out.1 ≡ messages_of iter
    within : total out.0 ≤ cap
    no_room : NoRoom cap (total out.0) (messages_of out.1)
    are_sized : AreSized size_limit out.1
    shorter : length out.0 + length out.1 ≡ length iter

  module _ (size_limit cap size : ℕ) (msg : M) (iter : List (ℕ × M)) where
    fill_fits :
        size ≤ cap
        → fill cap ((size, msg) ∷ iter)
          ≡ (msg ∷ (fill (cap - size) iter).0, (fill (cap - size) iter).1)
    unfolding fill
    fill_fits h = rw (le→leb size cap h)

    fill_stops : cap < size → fill cap ((size, msg) ∷ iter) ≡ ([], (size, msg) ∷ iter)
    unfolding fill
    fill_stops h = rw (lt→not_leb size cap h)

  NoRoom-shift :
      (cap size used size' : ℕ) (rest : List M)
      → size ≡ size'
      → size ≤ cap
      → NoRoom (cap - size) used rest
      → NoRoom cap (size' + used) rest
  NoRoom-shift cap size used size' [] e h r = tt
  NoRoom-shift cap size used size' (msg ∷ rest) e h r = omega arith

  fill-Filled :
      (size_limit cap : ℕ) (iter : List (ℕ × M))
      → AreSized size_limit iter
      → Filled size_limit cap iter (fill cap iter)
  unfolding fill total
  fill-Filled size_limit cap [] s = record {
    split = refl;
    within = omega arith;
    no_room = tt;
    are_sized = tt;
    shorter = refl;
  }
  fill-Filled size_limit cap ((size, msg) ∷ iter) s = elim (dec_le size cap) [
    | yes fits ↦
        let more = fill-Filled size_limit (cap - size) iter s.2 in
        rw (fill_fits size_limit cap size msg iter fits) (record {
          split = ap (◌∷◌ msg) more.split;
          within = omega (arith, more.within, s.0);
          no_room =
              NoRoom-shift cap size _ (encoded_len msg) (messages_of (fill (cap - size) iter).1) s.0
                fits more.no_room;
          are_sized = more.are_sized;
          shorter = omega (arith, more.shorter);
        })
    | no full ↦ rw (fill_stops size_limit cap size msg iter (omega arith)) (record {
      split = refl;
      within = omega arith;
      no_room = omega (arith, s.0);
      are_sized = s;
      shorter = omega arith;
    })
  ]

  -- A bundle stays empty only when nothing is left.
  all_taken :
      (size_limit : ℕ) (iter : List (ℕ × M))
      → AreSized size_limit iter
      → NoRoom size_limit 0 (messages_of iter)
      → messages_of iter ≡ []
  all_taken size_limit [] s r = refl
  all_taken size_limit ((size, msg) ∷ iter) s r = absurd (omega (arith, s.0, s.1))

  List-cases : (xs : List M) → (xs ≡ []) ⊎ ((y : M) × (ys : List M) × (xs ≡ y ∷ ys))
  List-cases [] = inl refl
  List-cases (y ∷ ys) = inr (y, ys, refl)

  record Bundled (size_limit : ℕ) (iter : List (ℕ × M)) (out : List (List M)) : Type ℓ where
    all_messages : concat out ≡ messages_of iter
    packed : IsPacked size_limit out

  Bundled-end :
      {size_limit : ℕ} {iter rest : List (ℕ × M)}
      → Filled size_limit size_limit iter ([], rest)
      → Bundled size_limit iter []
  unfolding total
  Bundled-end {size_limit} {iter} {rest} f = record {
    all_messages = sym (all_taken size_limit rest f.are_sized f.no_room) ∙ f.split;
    packed = tt;
  }

  Bundled-next :
      {size_limit : ℕ} {iter rest : List (ℕ × M)} {msg : M} {more : List M} {out : List (List M)}
      → Filled size_limit size_limit iter (msg ∷ more, rest)
      → Bundled size_limit rest out
      → Bundled size_limit iter ((msg ∷ more) ∷ out)
  Bundled-next {size_limit} {msg = msg} {more = more} f b = record {
    all_messages = ap (◌++◌ (msg ∷ more)) b.all_messages ∙ f.split;
    packed = (
      omega arith,
      f.within,
      subst (NoRoom size_limit (total (msg ∷ more))) (sym b.all_messages) f.no_room,
      b.packed,
    );
  }

  module _ (fuel size_limit : ℕ) (iter : List (ℕ × M)) where
    bundles_end : (fill size_limit iter).0 ≡ [] → bundles (suc fuel) size_limit iter ≡ []
    unfolding bundles
    bundles_end e = rw (e, bundles)

    bundles_next :
        (msg : M) (more : List M)
        → (fill size_limit iter).0 ≡ msg ∷ more
        → bundles (suc fuel) size_limit iter
          ≡ (msg ∷ more) ∷ bundles fuel size_limit (fill size_limit iter).1
    unfolding bundles
    bundles_next msg more e = rw (e, bundles)

  bundles-Bundled :
      (fuel size_limit : ℕ) (iter : List (ℕ × M))
      → length iter < fuel
      → AreSized size_limit iter
      → Bundled size_limit iter (bundles fuel size_limit iter)
  bundles-Bundled zero size_limit iter h s = absurd (omega arith)
  bundles-Bundled (suc fuel) size_limit iter h s =
      let f = fill-Filled size_limit size_limit iter s in
      elim (List-cases (fill size_limit iter).0) [
        | inl e ↦ rw (bundles_end fuel size_limit iter e) (
            Bundled-end
              (subst (λ b. Filled size_limit size_limit iter (b, (fill size_limit iter).1)) e f))
        | inr (msg, more, e) ↦
            let rest = (fill size_limit iter).1 in
            let g = subst (λ b. Filled size_limit size_limit iter (b, rest)) e f in
            rw (bundles_next fuel size_limit iter msg more e) (
              Bundled-next g
                (bundles-Bundled fuel size_limit rest (omega (arith, g.shorter, h)) g.are_sized))
      ]

  -- The bundles, one after the other, are the messages within the size limit, each once and in
  -- their order; the iterator ends by itself.
  pub concat-bundle_messages :
      (messages : List M) (size_limit : ℕ)
      → concat (bundle_messages encoded_len messages size_limit)
        ≡ keep (λ msg. leb (encoded_len msg) size_limit) messages
  unfolding bundle_messages
  concat-bundle_messages messages size_limit =
      let iter = sized encoded_len size_limit messages in
      (bundles-Bundled (suc (length iter)) size_limit iter (omega arith)
        (sized-AreSized size_limit messages)).all_messages
      ∙ messages_of-sized size_limit messages

  -- No bundle is empty or larger in total than the limit, and none could take the message that
  -- the next bundle begins with.
  pub bundle_messages-IsPacked :
      (messages : List M) (size_limit : ℕ)
      → IsPacked size_limit (bundle_messages encoded_len messages size_limit)
  unfolding bundle_messages
  bundle_messages-IsPacked messages size_limit =
      let iter = sized encoded_len size_limit messages in
      (bundles-Bundled (suc (length iter)) size_limit iter (omega arith)
        (sized-AreSized size_limit messages)).packed
