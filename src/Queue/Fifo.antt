-- ===== src/Queue/Fifo.antt =====
-- transport/src/util/queue.rs: what goes into a queue and what comes out.
use subsquid_network.Base.{
  ◌≡◌, refl, sym, ap, ◌∙◌, Bool, true, false, Option, none, some, List, [], ◌∷◌, ◌++◌, length,
  dec_lt, arith,
}
use mathlib.Core.List.{append_assoc, append-nil}
use subsquid_network.Queue.{Channel, try_send}

module _ {T : Type 0} (c : Channel T) where
  -- From `before` to `after`, the messages `added` went in and `taken` came out: what was held, and
  -- then what went in, is what came out and then what is held.
  pub Accounts : c.Inner → List T → List T → c.Inner → Type 0
  Accounts before added taken after = c.held before ++ added ≡ taken ++ c.held after

  -- What one call puts in: the message, if the call succeeds.
  abbrev pub if_sent : Bool → T → List T
  if_sent true msg = msg ∷ []
  if_sent false msg = []

  abbrev pub if_received : Option (T × c.Inner) → List T
  if_received none = []
  if_received (some (msg, after)) = msg ∷ []

  abbrev pub rest_of : c.Inner → Option (T × c.Inner) → c.Inner
  rest_of before none = before
  rest_of before (some (msg, after)) = after

  pub Accounts-refl : (q : c.Inner) → Accounts q [] [] q
  unfolding Accounts
  Accounts-refl q = append-nil (c.held q)

  pub Accounts-trans :
      (q q' q'' : c.Inner) (added taken added' taken' : List T)
      → Accounts q added taken q'
      → Accounts q' added' taken' q''
      → Accounts q (added ++ added') (taken ++ taken') q''
  unfolding Accounts
  Accounts-trans q q' q'' added taken added' taken' h h' =
      sym (append_assoc (c.held q) added added')
      ∙ ap (λ l. l ++ added') h
      ∙ append_assoc taken (c.held q') added'
      ∙ ap (λ l. taken ++ l) h'
      ∙ sym (append_assoc taken taken' (c.held q''))

  pub try_send-Accounts :
      (q : c.Inner) (msg : T)
      → Accounts q (if_sent (try_send c q msg).0 msg) [] (try_send c q msg).1
  unfolding Accounts
  try_send-Accounts q msg = elim (dec_lt (length (c.held q)) (c.capacity q)) [
    | yes room ↦
        let (q', sent, holds, size) = c.sends q msg room in
        rw (sent, try_send, if_sent, Accounts) (sym holds)
    | no full ↦
        rw (c.refuses q msg (omega (arith, full)), try_send, if_sent, Accounts)
          (append-nil (c.held q))
  ]

  received_from :
      (q : c.Inner) (held : List T)
      → c.held q ≡ held
      → Accounts q [] (if_received (c.recv q)) (rest_of q (c.recv q))
  unfolding Accounts
  received_from q [] e = rw (c.nothing q e, if_received, Accounts) (append-nil (c.held q))
  received_from q (msg ∷ rest) e =
      let (q', received, holds, size) = c.gives q msg rest e in
      rw (received, if_received, Accounts)
        (append-nil (c.held q) ∙ e ∙ ap (λ l. msg ∷ l) (sym holds))

  pub recv-Accounts : (q : c.Inner) → Accounts q [] (if_received (c.recv q)) (rest_of q (c.recv q))
  recv-Accounts q = received_from q (c.held q) refl
