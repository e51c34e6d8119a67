-- ===== src/Types/Errors.antt =====
-- The error values of types/validtransaction.go and types/signatures.go.
use hyperspace.Common.Result.{Result}

pub data Error : Type 0 where
  double_spend file_contract_output_sum_violation : Error
  file_contract_window_end_violation file_contract_window_start_violation : Error
  storage_proof_with_outputs timelock_not_satisfied transaction_too_large : Error
  zero_miner_fee zero_output : Error
  entropy_key frivolous_signature invalid_pub_key_index missing_signatures : Error
  premature_signature public_key_overuse sorted_unique_violation : Error
  whole_transaction_violation invalid_signature : Error

-- What a Go function that returns `error` returns: `ok tt` is nil.
abbrev pub Check : Type 0
Check = Result Error (Unit {0})
