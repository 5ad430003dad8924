-- ===== src/Signatures.antt =====
-- messages/src/signatures.rs: signing and verifying messages. A message type is an instance of
-- `SignedMessage`; its encoding (prost), the keys and the peer IDs (libp2p) are parameters.
pub mod Laws
pub mod Sample
mod Examples
use subsquid_network.Base.{
  ℕ, ◌≡◌, Bool, true, false, Option, none, some, String, List, [], ◌&&◌, if◌then◌else◌,
}
use subsquid_network.Messages.{PeerId, Bytes, Ping, Query, QueryExecuted}

-- The trait: `detach_signature` takes the signature out of the message.
pub record SignedMessage (M : Type 0) : Type 0 where
  pub detach_signature : M → Bytes × M
  pub attach_signature : M → Bytes → M
  pub encode_to_vec : M → Bytes

-- What the code uses of libp2p's keys and peer IDs. `public_key` reads the key that is inlined in
-- a peer ID; the laws are the documented ones: a key pair's signatures verify under the key in
-- its peer ID, and a printed peer ID parses back.
pub record Identity : Type 1 where
  pub Keypair : Type 0
  pub PublicKey : Type 0
  pub sign_bytes : Keypair → Bytes → Bytes
  pub verify_bytes : PublicKey → Bytes → Bytes → Bool
  pub to_peer_id : Keypair → PeerId
  pub public_key : PeerId → Option PublicKey
  pub to_base58 : PeerId → String
  pub parse : String → Option PeerId
  pub verify-sign :
      (k : Keypair) (body : Bytes)
      → (key : PublicKey) × (public_key (to_peer_id k) ≡ some key)
        × (verify_bytes key body (sign_bytes k body) ≡ true)
  pub parse-to_base58 : (p : PeerId) → parse (to_base58 p) ≡ some p

module _ (encode : Ping → Bytes) where
  unfoldable pub ping_signed : SignedMessage Ping
  ping_signed = record {
    detach_signature = λ msg. (msg.signature, record msg { signature = [] });
    attach_signature = λ msg signature. record msg { signature = signature };
    encode_to_vec = encode;
  }

module _ (encode : Query → Bytes) where
  unfoldable pub query_signed : SignedMessage Query
  query_signed = record {
    detach_signature = λ msg. (msg.signature, record msg { signature = [] });
    attach_signature = λ msg signature. record msg { signature = signature };
    encode_to_vec = encode;
  }

module _ (encode : QueryExecuted → Bytes) where
  unfoldable pub executed_signed : SignedMessage QueryExecuted
  executed_signed = record {
    detach_signature = λ msg. (msg.signature, record msg { signature = [] });
    attach_signature = λ msg signature. record msg { signature = signature };
    encode_to_vec = encode;
  }

module _ (id : Identity) {M : Type 0} (t : SignedMessage M) where
  -- `SignedMessage::sign`
  unfoldable pub sign : id.Keypair → M → M
  sign keypair msg =
      let (_, bare) = t.detach_signature msg in
      t.attach_signature bare (id.sign_bytes keypair (t.encode_to_vec bare))

  -- The free function: the verdict, and the message, which is changed and put back.
  unfoldable pub verify_signature : PeerId → M → Bool × M
  verify_signature peer_id msg =
      let (sig, bare) = t.detach_signature msg in
      let encoded = t.encode_to_vec bare in
      let result : Bool = elim (id.public_key peer_id) [
        | some pubkey ↦ id.verify_bytes pubkey encoded sig
        | none ↦ false
      ] in
      (result, t.attach_signature bare sig)

module _ (id : Identity) (queries : SignedMessage Query)
    (executed : SignedMessage QueryExecuted) where
  -- The query inside, checked against the client that the log names.
  unfoldable pub verify_query : QueryExecuted → Option PeerId → Option Query → Bool × QueryExecuted
  verify_query log none query = (false, log)
  verify_query log (some client_id) none = (false, log)
  verify_query log (some client_id) (some q) =
      let (valid, q') = verify_signature id queries client_id q in
      (valid, record log { query = some q' })

  -- `QueryExecuted::verify_signature`
  unfoldable pub verify_executed : PeerId → QueryExecuted → Bool × QueryExecuted
  verify_executed peer_id log =
      let (valid, log') = verify_signature id executed peer_id log in
      if valid then verify_query log' (id.parse log'.client_id) log'.query else (false, log')
