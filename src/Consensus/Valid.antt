-- ===== src/Consensus/Valid.antt =====
-- modules/consensus/validtransaction.go: the checks of a transaction that read the consensus state;
-- and CalculateLeaves of crypto/merkle.go.
pub mod Segments
pub mod Coins
use hyperspace.Common.{
  ℕ, zero, suc, ◌+◌, ◌/◌, ◌%◌, List, [], ◌∷◌, not, ◌||◌, Option, none, some, ltb, leb, ◌==◌,
  if◌then◌else◌, ok, err, ◌>>=◌, ◌>>◌, guard, or_err, for_each, sub64,
}
use hyperspace.Common.Result.{Result}
use hyperspace.Types.Currency.{Currency, add, equals}
use hyperspace.Types.Transaction.{
  SiacoinInput, FileContractRevision, StorageProof, Transaction, add_each, value_of,
  siacoin_output_sum,
}
use hyperspace.Types.Errors
use hyperspace.Types.Standalone.{standalone_valid}
use hyperspace.Database.{Bolt}
use hyperspace.Consensus.State.{
  Tx, Env, Act, returns, standalone, altered_revision_payouts, invalid_storage_proof, late_revision,
  low_revision_number, missing_siacoin_output, siacoin_input_output_mismatch,
  unfinished_file_contract, unrecognized_file_contract_id, wrong_unlock_conditions,
}
use hyperspace.Consensus.Store.{get_file_contract}

abbrev pub segment_size : ℕ
segment_size = 64

unfoldable pub calculate_leaves : ℕ → ℕ
calculate_leaves size =
    if size == 0 || not (size % segment_size == 0)
    then size / segment_size + 1
    else size / segment_size

-- A trigger block that the path lacks leaves the zero id.
abbrev pub id_or_zero : Option ℕ → ℕ
id_or_zero none = 0
id_or_zero (some id) = id

abbrev pub first_bytes : ℕ → List ℕ → List ℕ
first_bytes zero bytes = []
first_bytes (suc n) [] = []
first_bytes (suc n) (b ∷ bytes) = b ∷ first_bytes n bytes

-- How much of the segment is hashed.
unfoldable pub segment_length : ℕ → ℕ → ℕ
unfolding calculate_leaves
segment_length size index =
    let last = size % segment_size in
    if index == sub64 (calculate_leaves size) 1
    then if last == 0 then segment_size else last
    else segment_size

-- An error of package types is passed on.
abbrev pub check_standalone : Result Errors.Error (Unit {0}) → Act (Unit {0})
check_standalone (ok u) = ok u
check_standalone (err failure) = err (returns (standalone failure))

module _ (db : Bolt) (e : Env) where
  -- The loop over the inputs, with the sum so far.
  unfoldable pub sum_inputs : Tx db → Currency → List SiacoinInput → Act Currency
  unfolding add
  sum_inputs tx input_sum [] = ok input_sum
  sum_inputs tx input_sum (sci ∷ scis) = do
    sco ← or_err (db.get tx.siacoin_outputs sci.parent_id) (returns missing_siacoin_output)
    guard (e.crypto.unlock_hash sci.unlock_conditions == sco.unlock_hash)
        (returns wrong_unlock_conditions)
    sum_inputs tx (add input_sum sco.value) scis

  unfoldable pub valid_siacoins : Tx db → Transaction → Act (Unit {0})
  valid_siacoins tx t = do
    input_sum ← sum_inputs tx 0 t.siacoin_inputs
    guard (equals input_sum (siacoin_output_sum t)) (returns siacoin_input_output_mismatch)

  unfoldable pub storage_proof_segment : Tx db → ℕ → Act ℕ
  storage_proof_segment tx fcid = do
    fc ← or_err (db.get tx.file_contracts fcid) (returns unrecognized_file_contract_id)
    let trigger_height = sub64 fc.window_start 1
    guard (leb trigger_height tx.block_height) (returns unfinished_file_contract)
    let trigger_id = id_or_zero (db.get tx.block_path trigger_height)
    ok (e.crypto.hash_all trigger_id fcid % calculate_leaves fc.file_size)

  unfoldable pub valid_storage_proof : Tx db → StorageProof → Act (Unit {0})
  valid_storage_proof tx sp = do
    segment_index ← storage_proof_segment tx sp.parent_id
    fc ← get_file_contract db tx sp.parent_id
    let verified =
        e.crypto.verify_segment (first_bytes (segment_length fc.file_size segment_index) sp.segment)
          sp.hash_set (calculate_leaves fc.file_size) segment_index fc.file_merkle_root
    guard (verified || fc.file_size == 0) (returns invalid_storage_proof)

  unfoldable pub valid_storage_proofs : Tx db → Transaction → Act (Unit {0})
  valid_storage_proofs tx t = for_each (valid_storage_proof tx) t.storage_proofs

  unfoldable pub valid_file_contract_revision : Tx db → FileContractRevision → Act (Unit {0})
  valid_file_contract_revision tx fcr = do
    fc ← get_file_contract db tx fcr.parent_id
    guard (leb tx.block_height fc.window_start) (returns late_revision)
    guard (ltb fc.revision_number fcr.new_revision_number) (returns low_revision_number)
    guard (e.crypto.unlock_hash fcr.unlock_conditions == fc.unlock_hash)
        (returns wrong_unlock_conditions)
    let valid_payout = add_each value_of 0 fcr.new_valid_proof_outputs
    let missed_payout = add_each value_of 0 fcr.new_missed_proof_outputs
    let old_payout = add_each value_of 0 fc.valid_proof_outputs
    guard (equals valid_payout old_payout) (returns altered_revision_payouts)
    guard (equals missed_payout old_payout) (returns altered_revision_payouts)

  unfoldable pub valid_file_contract_revisions : Tx db → Transaction → Act (Unit {0})
  valid_file_contract_revisions tx t =
      for_each (valid_file_contract_revision tx) t.file_contract_revisions

  unfoldable pub valid_transaction : Tx db → Transaction → Act (Unit {0})
  valid_transaction tx t = do
    check_standalone (standalone_valid e.crypto t tx.block_height)
    valid_siacoins tx t
    valid_storage_proofs tx t
    valid_file_contract_revisions tx t

  unfoldable pub valid_transaction_for_spv : Tx db → Transaction → Act (Unit {0})
  valid_transaction_for_spv tx t = check_standalone (standalone_valid e.crypto t tx.block_height)
