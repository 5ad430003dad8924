-- ===== src/Signatures/Sample.antt =====
-- An identity for the examples: a key is a number, a signature is the key before the body, and a
-- peer ID is spelled by as many letters.
use subsquid_network.Base.{
  ℕ, zero, suc, ◌≡◌, refl, ap, Bool, true, false, none, some, String, [], ◌∷◌, ◌&&◌, eqb, arith,
}
use subsquid_network.Messages.{Bytes, Ping, Query, QueryExecuted}
use subsquid_network.Signatures.{
  Identity, SignedMessage, ping_signed, query_signed, executed_signed,
}

abbrev pub same_bytes : Bytes → Bytes → Bool
same_bytes [] [] = true
same_bytes (x ∷ xs) (y ∷ ys) = eqb x y && same_bytes xs ys
same_bytes [] (y ∷ ys) = false
same_bytes (x ∷ xs) [] = false

pub same_bytes_refl : (xs : Bytes) → same_bytes xs xs ≡ true
same_bytes_refl [] = refl
same_bytes_refl (x ∷ xs) = ground (arith, same_bytes_refl xs)

abbrev pub spell : ℕ → String
spell zero = String.[]
spell (suc n) = String.◌∷◌ "a" (spell n)

abbrev pub count : String → ℕ
count String.[] = zero
count (String.◌∷◌ c s) = suc (count s)

pub count-spell : (n : ℕ) → count (spell n) ≡ n
count-spell zero = refl
count-spell (suc n) = ap suc (count-spell n)

abbrev pub sample_identity : Identity
sample_identity = record {
  Keypair = ℕ;
  PublicKey = ℕ;
  sign_bytes = λ k body. k ∷ body;
  verify_bytes = λ key body sig. same_bytes (key ∷ body) sig;
  to_peer_id = λ k. k;
  public_key = λ p. some p;
  to_base58 = spell;
  parse = λ s. some (count s);
  verify-sign = λ k body. (k, refl, same_bytes_refl (k ∷ body));
  parse-to_base58 = λ p. ap (λ n. some n) (count-spell p);
}

abbrev pub sample_pings : SignedMessage Ping
sample_pings = ping_signed λ ping. []

-- The profiling flag stands for the query's content.
abbrev pub encode_query : Query → Bytes
encode_query q = elim q.profiling [ some true ↦ 1 ∷ [] | some false ↦ 2 ∷ [] | none ↦ 3 ∷ [] ]

abbrev pub sample_queries : SignedMessage Query
sample_queries = query_signed encode_query

abbrev pub sample_logs : SignedMessage QueryExecuted
sample_logs = executed_signed λ log. log.query_hash

abbrev pub sample_query : Query
sample_query = record {
  query_id = some "q1";
  dataset = none;
  query = none;
  profiling = some true;
  client_state_json = none;
  signature = 7 ∷ 1 ∷ [];
}

abbrev pub sample_log : QueryExecuted
sample_log = record {
  client_id = "aaaaaaa";
  worker_id = "aaa";
  query = some sample_query;
  query_hash = 5 ∷ [];
  exec_time_ms = none;
  result = none;
  seq_no = none;
  timestamp_ms = none;
  signature = 3 ∷ 5 ∷ [];
}
