-- ===== src/Signatures/Examples.antt =====
-- messages/src/signatures.rs: each theorem at an input.
use subsquid_network.Base.{◌≡◌, refl, ◌↔◌, true, false}
use subsquid_network.Signatures.{
  query_signed, executed_signed, sign, verify_signature, verify_query, verify_executed,
}
use subsquid_network.Signatures.Sample.{
  sample_identity, sample_queries, sample_logs, sample_query, sample_log,
}
use subsquid_network.Signatures.Laws.{
  query_signed-IsLawful, executed_signed-IsLawful, verify_signature_unchanged, BothVerify,
  verify_executed-BothVerify,
}

program : Unit {0}
unfolding query_signed executed_signed sign verify_signature verify_query verify_executed
program = tt

both_signed : (verify_executed sample_identity sample_queries sample_logs 3 sample_log).0 ≡ true
unfolding program
both_signed = refl

forged : (verify_executed sample_identity sample_queries sample_logs 4 sample_log).0 ≡ false
unfolding program
forged = refl

verify_signature_unchanged_example :
    (verify_signature sample_identity sample_queries 9 sample_query).1 ≡ sample_query
verify_signature_unchanged_example =
    verify_signature_unchanged sample_identity sample_queries (query_signed-IsLawful _) 9
      sample_query

verify_executed-BothVerify_example :
    ((verify_executed sample_identity sample_queries sample_logs 3 sample_log).0 ≡ true)
    ↔ BothVerify sample_identity sample_queries sample_logs 3 sample_log
verify_executed-BothVerify_example =
    verify_executed-BothVerify sample_identity sample_queries sample_logs (query_signed-IsLawful _)
      (executed_signed-IsLawful _) 3 sample_log
