-- ===== src/Types/Standalone.antt =====
-- types/validtransaction.go: the rules that a transaction meets in any context.
pub mod Repeats
pub mod Windows
pub mod Exact
use hyperspace.Common.{
  ℕ, ◌-◌, List, [], ◌∷◌, not, ltb, leb, if◌then◌else◌, contains, guard, ◌>>=◌, ◌>>◌, ok, err,
  for_each, fold_result,
}
use hyperspace.Common.Result.{Result}
use hyperspace.Types.Currency.{is_zero, equals}
use hyperspace.Types.Transaction.{
  UnlockConditions, SiacoinInput, SiacoinOutput, FileContract, FileContractRevision, StorageProof,
  Transaction, add_each, value_of,
}
use hyperspace.Types.Size.{marshal_sia_size}
use hyperspace.Types.Crypto.{Crypto}
use hyperspace.Types.Signatures.{is_empty, valid_signatures}
use hyperspace.Types.Errors.{
  Error, Check, double_spend, file_contract_output_sum_violation,
  file_contract_window_end_violation, file_contract_window_start_violation,
  storage_proof_with_outputs, timelock_not_satisfied, transaction_too_large, zero_miner_fee,
  zero_output,
}

abbrev pub block_size_limit : ℕ
block_size_limit = 2000000

abbrev pub oak_txn_size_limit : ℕ
oak_txn_size_limit = 64000

-- The test that a contract's window lies in the future and is not empty.
unfoldable pub check_window : ℕ → ℕ → ℕ → Check
check_window current_height start end =
    if leb start current_height
    then err file_contract_window_start_violation
    else if leb end start
    then err file_contract_window_end_violation
    else ok tt

unfoldable pub correct_file_contract : ℕ → FileContract → Check
unfolding check_window
correct_file_contract current_height fc = do
  check_window current_height fc.window_start fc.window_end
  let valid_proof_output_sum = add_each value_of 0 fc.valid_proof_outputs
  let missed_proof_output_sum = add_each value_of 0 fc.missed_proof_outputs
  guard (equals valid_proof_output_sum fc.payout) file_contract_output_sum_violation
  guard (equals missed_proof_output_sum fc.payout) file_contract_output_sum_violation

unfoldable pub correct_file_contracts : Transaction → ℕ → Check
correct_file_contracts t current_height =
    for_each (correct_file_contract current_height) t.file_contracts

unfoldable pub correct_file_contract_revision : ℕ → FileContractRevision → Check
unfolding check_window
correct_file_contract_revision current_height fcr = do
  check_window current_height fcr.new_window_start fcr.new_window_end
  let valid_proof_output_sum = add_each value_of 0 fcr.new_valid_proof_outputs
  let missed_proof_output_sum = add_each value_of 0 fcr.new_missed_proof_outputs
  guard (equals valid_proof_output_sum missed_proof_output_sum) file_contract_output_sum_violation

unfoldable pub correct_file_contract_revisions : Transaction → ℕ → Check
correct_file_contract_revisions t current_height =
    for_each (correct_file_contract_revision current_height) t.file_contract_revisions

unfoldable pub fits_in_a_block : Transaction → Check
fits_in_a_block t =
    let size = marshal_sia_size t in
    if ltb (block_size_limit - 5000) size
    then err transaction_too_large
    else if ltb oak_txn_size_limit size
    then err transaction_too_large
    else ok tt

unfoldable pub follows_minimum_values : Transaction → Check
follows_minimum_values t = do
  for_each (λ (sco : SiacoinOutput). guard (not (is_zero sco.value)) zero_output) t.siacoin_outputs
  for_each (λ (fc : FileContract). guard (not (is_zero fc.payout)) zero_output) t.file_contracts
  for_each (λ fee. guard (not (is_zero fee)) zero_miner_fee) t.miner_fees

unfoldable pub follows_storage_proof_rules : Transaction → Check
follows_storage_proof_rules t = if is_empty t.storage_proofs then ok tt else do
  guard (is_empty t.siacoin_outputs) storage_proof_with_outputs
  guard (is_empty t.file_contracts) storage_proof_with_outputs
  guard (is_empty t.file_contract_revisions) storage_proof_with_outputs

-- A round of the loops of noRepeats: the ids seen so far are the keys of the map.
unfoldable pub mark_seen : List ℕ → ℕ → Result Error (List ℕ)
mark_seen seen id = if contains seen id then err double_spend else ok (id ∷ seen)

unfoldable pub no_repeats : Transaction → Check
no_repeats t = do
  _ ← fold_result (λ seen (x : SiacoinInput). mark_seen seen x.parent_id) [] t.siacoin_inputs
  done ← fold_result (λ seen (x : StorageProof). mark_seen seen x.parent_id) [] t.storage_proofs
  _ ←
      fold_result (λ seen (x : FileContractRevision). mark_seen seen x.parent_id) done
        t.file_contract_revisions
  ok tt

unfoldable pub check_timelock : ℕ → UnlockConditions → Check
check_timelock current_height uc =
    if ltb current_height uc.timelock then err timelock_not_satisfied else ok tt

unfoldable pub valid_unlock_conditions : Transaction → ℕ → Check
unfolding check_timelock
valid_unlock_conditions t current_height = do
  for_each (λ (x : SiacoinInput). check_timelock current_height x.unlock_conditions)
      t.siacoin_inputs
  for_each (λ (x : FileContractRevision). check_timelock current_height x.unlock_conditions)
      t.file_contract_revisions

unfoldable pub standalone_valid : Crypto → Transaction → ℕ → Check
standalone_valid c t current_height = do
  fits_in_a_block t
  follows_storage_proof_rules t
  no_repeats t
  follows_minimum_values t
  correct_file_contracts t current_height
  correct_file_contract_revisions t current_height
  valid_unlock_conditions t current_height
  valid_signatures c t current_height
