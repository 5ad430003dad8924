-- ===== src/ContractClient/Paging.antt =====
-- contract-client/src/client.rs: reading page after page gives what is on the chain, and ends.
use subsquid_network.Base.{
  ℕ, zero, suc, ◌+◌, ◌-◌, ◌*◌, ◌≤◌, ◌<◌, ◌≡◌, refl, sym, ap, ◌∙◌, some, String, List, [], ◌∷◌, ◌++◌,
  ltb, length, take, Result, ok, Bool-cases, Option-cases, inl, inr, arith, eq_of_nat,
}
use native.Mathlib.Nat.{suc-add}
use mathlib.Core.List.{append_assoc}
use subsquid_network.Messages.{Bytes}
use subsquid_network.ContractClient.{
  Chain, read_pages, gateways_of, active_gateways, gateways_page_size,
}

module _ {X : Type 0} where
  unfoldable pub skip : ℕ → List X → List X
  skip zero xs = xs
  skip (suc n) [] = []
  skip (suc n) (x ∷ xs) = skip n xs

  -- Page `page` of a list.
  abbrev pub page_of : ℕ → List X → ℕ → List X
  page_of size all page = take size (skip (page * size) all)

  skip_none : (n : ℕ) → skip n [] ≡ []
  unfolding skip
  skip_none zero = refl
  skip_none (suc n) = refl

  skip-skip : (m n : ℕ) (xs : List X) → skip n (skip m xs) ≡ skip (m + n) xs
  unfolding skip
  skip-skip zero n xs = ap (λ k. skip k xs) (omega arith)
  skip-skip (suc m) n [] = skip_none n ∙ sym (skip_none (suc m + n))
  skip-skip (suc m) n (x ∷ xs) = rw suc-add (skip-skip m n xs)

  take-skip : (n : ℕ) (xs : List X) → take n xs ++ skip n xs ≡ xs
  unfolding skip
  take-skip zero xs = refl
  take-skip (suc n) [] = refl
  take-skip (suc n) (x ∷ xs) = ap (λ rest. x ∷ rest) (take-skip n xs)

  take_short : (n : ℕ) (xs : List X) → length (take n xs) < n → take n xs ≡ xs
  take_short zero xs h = absurd (omega (arith, h))
  take_short (suc n) [] h = refl
  take_short (suc n) (x ∷ xs) h = ap (λ rest. x ∷ rest) (take_short n xs (omega (arith, h)))

  length-skip : (n : ℕ) (xs : List X) → length (skip n xs) ≡ length xs - n
  unfolding skip
  length-skip zero xs = omega arith
  length-skip (suc n) [] = omega arith
  length-skip (suc n) (x ∷ xs) = omega (arith, length-skip n xs)

  length-take-le : (n : ℕ) (xs : List X) → length (take n xs) ≤ length xs
  length-take-le zero xs = omega arith
  length-take-le (suc n) [] = omega arith
  length-take-le (suc n) (x ∷ xs) = omega (arith, length-take-le n xs)

module _ {X S : Type 0} (get : ℕ → Result String (List X)) (size : ℕ) (add : S → List X → S)
    (all : List X) (positive : 0 < size)
    (add-append : (s : S) (xs ys : List X) → add (add s xs) ys ≡ add s (xs ++ ys))
    (served : (page : ℕ) → get page ≡ ok (page_of size all page)) where
  -- The pages that are left, read one after the other, give what is left of the list.
  pub read_pages_rest :
      (fuel page : ℕ) (s : S)
      → length (skip (page * size) all) < fuel * size
      → read_pages get size add fuel page s ≡ some (ok (add s (skip (page * size) all)))
  unfolding read_pages
  read_pages_rest zero page s h = absurd (omega (arith, h))
  read_pages_rest (suc fuel) page s h =
      let rest = skip (page * size) all in
      rw (served page, read_pages)
        (elim (Bool-cases (ltb (length (take size rest)) size)) [
          | inl last ↦
              rw last (
                ap (λ items. some (ok (add s items))) (take_short size rest (ground (arith, last))))
          | inr full ↦
              let next : skip size rest ≡ skip ((page + 1) * size) all =
                skip-skip (page * size) size all ∙ ap (λ n. skip n all) (omega arith) in
              let shorter = ap length (sym next) ∙ length-skip size rest in
              let whole : size ≤ length (take size rest) = ground (arith, full) in
              rw full (
                read_pages_rest fuel (page + 1) (add s (take size rest))
                  (omega (arith, h, shorter, whole, length-take-le size rest))
                ∙ ap (λ items. some (ok items))
                    (add-append s (take size rest) (skip ((page + 1) * size) all)
                      ∙ ap (add s) (rw (← next) (take-skip size rest))))
        ])

module _ (c : Chain) where
  gateways_of-append :
      (xs ys : List Bytes) → gateways_of c (xs ++ ys) ≡ gateways_of c xs ++ gateways_of c ys
  unfolding gateways_of
  gateways_of-append [] ys = refl
  gateways_of-append (id ∷ xs) ys = elim (Option-cases (c.from_bytes id)) [
    | inl e ↦ rw (e, gateways_of) (gateways_of-append xs ys)
    | inr (p, e) ↦ rw (e, gateways_of) (ap (λ rest. p ∷ rest) (gateways_of-append xs ys))
  ]

  -- When the chain serves a list of gateways by pages at the block that is read first, the client
  -- reads all of it, without the IDs that are no peer IDs, and the loop ends: more pages than the
  -- list fills are enough.
  pub active_gateways_all :
      (block : ℕ) (all : List Bytes) (fuel : ℕ)
      → c.get_block_number ≡ ok block
      → ((page : ℕ)
          → c.get_active_gateways block page gateways_page_size
            ≡ ok (page_of gateways_page_size all page))
      → length all < fuel * gateways_page_size
      → active_gateways c fuel ≡ some (ok (gateways_of c all))
  unfolding active_gateways skip
  active_gateways_all block all fuel at served enough =
      rw (at, active_gateways)
        (read_pages_rest (λ page. c.get_active_gateways block page gateways_page_size)
          gateways_page_size (λ gateways ids. gateways ++ gateways_of c ids) all (omega arith)
          (λ s xs ys.
            append_assoc s (gateways_of c xs) (gateways_of c ys)
            ∙ ap (λ rest. s ++ rest) (sym (gateways_of-append xs ys)))
          served fuel 0 [] enough)
