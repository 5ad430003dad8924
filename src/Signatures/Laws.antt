-- ===== src/Signatures/Laws.antt =====
-- messages/src/signatures.rs: what signing and verifying guarantee.
use subsquid_network.Base.{
  ◌≡◌, refl, ap, sym, ◌∙◌, Bool, true, false, Option, none, some, if◌then◌else◌, ◌↔◌, arith,
  Bool-cases, inl, inr,
}
use subsquid_network.Messages.{PeerId, Bytes, Ping, Query, QueryExecuted}
use subsquid_network.Signatures.{
  SignedMessage, Identity, ping_signed, query_signed, executed_signed, sign, verify_signature,
  verify_query, verify_executed,
}

-- What the three implementations of the trait have in common.
pub record IsLawful {M : Type 0} (t : SignedMessage M) : Type 0 where
  pub restore :
      (msg : M) → t.attach_signature (t.detach_signature msg).1 (t.detach_signature msg).0 ≡ msg
  pub replace :
      (msg : M) (sig : Bytes)
      → t.detach_signature (t.attach_signature msg sig) ≡ (sig, (t.detach_signature msg).1)
  pub detached :
      (msg : M) → (t.detach_signature (t.detach_signature msg).1).1 ≡ (t.detach_signature msg).1

pub ping_signed-IsLawful : (encode : Ping → Bytes) → IsLawful (ping_signed encode)
unfolding ping_signed
ping_signed-IsLawful encode = record {
  restore = λ msg. refl;
  replace = λ msg sig. refl;
  detached = λ msg. refl;
}

pub query_signed-IsLawful : (encode : Query → Bytes) → IsLawful (query_signed encode)
unfolding query_signed
query_signed-IsLawful encode = record {
  restore = λ msg. refl;
  replace = λ msg sig. refl;
  detached = λ msg. refl;
}

pub executed_signed-IsLawful : (encode : QueryExecuted → Bytes) → IsLawful (executed_signed encode)
unfolding executed_signed
executed_signed-IsLawful encode = record {
  restore = λ msg. refl;
  replace = λ msg sig. refl;
  detached = λ msg. refl;
}

module _ (id : Identity) {M : Type 0} (t : SignedMessage M) (law : IsLawful t) where
  -- Verifying gives the message back as it was.
  pub verify_signature_unchanged :
      (peer_id : PeerId) (msg : M) → (verify_signature id t peer_id msg).1 ≡ msg
  unfolding verify_signature
  verify_signature_unchanged peer_id msg = law.restore msg

  signed_parts :
      (k : id.Keypair) (msg : M)
      → t.detach_signature (sign id t k msg)
        ≡ (id.sign_bytes k (t.encode_to_vec (t.detach_signature msg).1), (t.detach_signature msg).1)
  unfolding sign
  signed_parts k msg = rw (law.replace, law.detached)

  -- Signing a signed message again changes nothing.
  pub sign_idempotent : (k : id.Keypair) (msg : M) → sign id t k (sign id t k msg) ≡ sign id t k msg
  unfolding sign
  sign_idempotent k msg =
      ap (λ bare. t.attach_signature bare (id.sign_bytes k (t.encode_to_vec bare)))
        (ap (λ (parts : Bytes × M). parts.1) (signed_parts k msg))

  verdict : PeerId → Bytes × M → Bool
  verdict peer_id (sig, bare) = elim (id.public_key peer_id) [
    | some pubkey ↦ id.verify_bytes pubkey (t.encode_to_vec bare) sig
    | none ↦ false
  ]

  -- A signed message verifies under the peer ID of the signer's key.
  pub verify_signature-sign :
      (k : id.Keypair) (msg : M)
      → (verify_signature id t (id.to_peer_id k) (sign id t k msg)).0 ≡ true
  unfolding verify_signature verdict
  verify_signature-sign k msg =
      let (key, known, valid) = id.verify-sign k (t.encode_to_vec (t.detach_signature msg).1) in
      ap (verdict (id.to_peer_id k)) (signed_parts k msg) ∙ rw (known, verdict) valid

module _ (id : Identity) (queries : SignedMessage Query)
    (executed : SignedMessage QueryExecuted) where
  -- Both signatures are valid: the worker's on the log, and on the query inside that of the
  -- client that the log names.
  pub record BothVerify (peer_id : PeerId) (log : QueryExecuted) : Type 0 where
    pub by_worker : (verify_signature id executed peer_id log).0 ≡ true
    pub client : PeerId
    pub inner : Query
    pub named : id.parse log.client_id ≡ some client
    pub present : log.query ≡ some inner
    pub by_client : (verify_signature id queries client inner).0 ≡ true

module _ (id : Identity) (queries : SignedMessage Query) (executed : SignedMessage QueryExecuted)
    (query_law : IsLawful queries) (executed_law : IsLawful executed) where
  verify_query_parts :
      (log : QueryExecuted) (c : Option PeerId) (q : Option Query)
      → (verify_query id queries executed log c q).0 ≡ true
      → (client : PeerId) × (inner : Query) × (c ≡ some client)
        × (q ≡ some inner)
        × ((verify_signature id queries client inner).0 ≡ true)
  unfolding verify_query
  verify_query_parts log none q h = ground arith
  verify_query_parts log (some client) none h = ground arith
  verify_query_parts log (some client) (some inner) h = (client, inner, refl, refl, h)

  verify_query_unchanged :
      (log : QueryExecuted) (c : Option PeerId) (q : Option Query)
      → log.query ≡ q
      → (verify_query id queries executed log c q).1 ≡ log
  unfolding verify_query
  verify_query_unchanged log none q e = refl
  verify_query_unchanged log (some client) none e = refl
  verify_query_unchanged log (some client) (some inner) e =
      ap (λ q. record log { query = q })
        (ap (λ q. some q) (verify_signature_unchanged id queries query_law client inner) ∙ sym e)

  verify_executed_step :
      (peer_id : PeerId) (log : QueryExecuted) (valid : Bool)
      → (verify_signature id executed peer_id log).0 ≡ valid
      → verify_executed id queries executed peer_id log ≡ (
          if valid
          then verify_query id queries executed log (id.parse log.client_id) log.query
          else (false, log))
  unfolding verify_executed
  verify_executed_step peer_id log valid h =
      rw (verify_signature_unchanged id executed executed_law peer_id log, h)

  passed :
      (peer_id : PeerId) (log : QueryExecuted)
      → (verify_executed id queries executed peer_id log).0 ≡ true
      → BothVerify id queries executed peer_id log
  passed peer_id log h = elim (Bool-cases (verify_signature id executed peer_id log).0) [
    | inl valid ↦
        let step = verify_executed_step peer_id log true valid in
        let (client, inner, named, present, by_client) =
          verify_query_parts log (id.parse log.client_id) log.query (rw (← step) h) in
        record {
          by_worker = valid;
          client = client;
          inner = inner;
          named = named;
          present = present;
          by_client = by_client;
        }
    | inr bad ↦ absurd (cc (verify_executed_step peer_id log false bad))
  ]

  passes :
      (peer_id : PeerId) (log : QueryExecuted)
      → BothVerify id queries executed peer_id log
      → (verify_executed id queries executed peer_id log).0 ≡ true
  unfolding verify_query
  passes peer_id log b =
      rw (verify_executed_step peer_id log true b.by_worker, b.named)
        (rw (b.present, verify_query) b.by_client)

  -- A log passes exactly when both signatures are valid: the worker's on the log, and on the query
  -- inside that of the client that the log names.
  pub verify_executed-BothVerify :
      (peer_id : PeerId) (log : QueryExecuted)
      → ((verify_executed id queries executed peer_id log).0 ≡ true)
        ↔ BothVerify id queries executed peer_id log
  verify_executed-BothVerify peer_id log = (passed peer_id log, passes peer_id log)

  -- Whatever the verdict, the log comes back as it was.
  pub verify_executed_unchanged :
      (peer_id : PeerId) (log : QueryExecuted)
      → (verify_executed id queries executed peer_id log).1 ≡ log
  verify_executed_unchanged peer_id log =
      elim (Bool-cases (verify_signature id executed peer_id log).0) [
        | inl valid ↦
            rw (verify_executed_step peer_id log true valid)
              (verify_query_unchanged log (id.parse log.client_id) log.query refl)
        | inr bad ↦ rw (verify_executed_step peer_id log false bad)
      ]
