-- ===== src/Consensus/Examples.antt =====
-- Runs of the functions of package consensus on concrete inputs.
use hyperspace.Common.{List, ℕ, some, ◌+◌, ◌-◌, ◌*◌, ◌<◌, ◌≤◌, sum, map, sub64}
use hyperspace.Types.Transaction.{FileContract, SiacoinOutput}
use hyperspace.Types.Sums.{coins}
use hyperspace.Consensus.Valid.{storage_proof_segment, calculate_leaves, segment_length}
use hyperspace.Consensus.Valid.Segments.{segment_length-cover, storage_proof_segment-bound}
use hyperspace.Consensus.Valid.Coins.{SpendsEach, valid_siacoins-balance}
use hyperspace.Database.Sorted.{get}
use hyperspace.Common.{◌≡◌, refl, [], ◌∷◌, true, false, none, ok, err, arith}
use hyperspace.Types.Currency.{add, sub, equals, cmp, is_zero}
use hyperspace.Types.Transaction.{SiacoinOutput, FileContract, add_each, siacoin_output_sum}
use hyperspace.Types.Crypto.{copy_into}
use hyperspace.Types.Constants.{standard}
use hyperspace.Types.Size.{marshal_sia_size}
use hyperspace.Types.Signatures.{
  climb, below_max, sorted_unique, field_maxs, all_field_maxs, all_empty, check_sorted,
  check_covered, valid_covered_fields, find_sigs, update_sigs, add_sigs, add_all, add_inputs,
  add_revisions, check_signed, verify, use_signature, use_signatures, valid_signatures,
}
use hyperspace.Types.Standalone.{
  check_window, correct_file_contract, correct_file_contracts, correct_file_contract_revision,
  correct_file_contract_revisions, fits_in_a_block, follows_minimum_values,
  follows_storage_proof_rules, mark_seen, no_repeats, check_timelock, valid_unlock_conditions,
  standalone_valid,
}
use hyperspace.Types.Examples.{toy_crypto, payment}
use hyperspace.Database.Sorted.{sorted, put}
use hyperspace.Consensus.State.{diff_revert, Tx, Env, Act, ProcessedBlock}
use hyperspace.Consensus.Store.{
  current_block_id, add_siacoin_output, remove_siacoin_output, add_file_contract,
  remove_file_contract, add_dsco, remove_dsco, create_dsco_bucket, delete_dsco_bucket, push_path,
  get_file_contract,
}
use hyperspace.Consensus.Diffs.{
  commit_siacoin_output_diff, commit_file_contract_diff, commit_delayed_siacoin_output_diff,
  commit_diff_set,
}
use hyperspace.Consensus.Apply.{
  Work, record_scod, record_fcd, record_dscod, found_or_zero, apply_siacoin_input,
  apply_siacoin_inputs, apply_outputs_from, apply_siacoin_outputs, apply_contracts_from,
  apply_file_contracts, apply_file_contract_revision, apply_file_contract_revisions,
  apply_valid_outputs_from, apply_storage_proof, apply_storage_proofs, apply_transaction,
}
use hyperspace.Consensus.Maintenance.{
  apply_payouts_from, apply_miner_payouts, matured_scods, matured_dscods, record_matured,
  apply_matured_siacoin_outputs, missed_outputs_from, apply_missed_storage_proof, missed_proofs,
  expire_contracts, apply_file_contract_maintenance, apply_maintenance,
}
use hyperspace.Consensus.Valid.{
  sum_inputs, valid_siacoins, valid_storage_proofs, valid_file_contract_revisions,
  valid_transaction,
}
use hyperspace.Consensus.Generate.{
  check_successor, validate_and_apply, store_block, generate_and_apply_diff,
}
use hyperspace.Consensus.Undo.{release, IsScheduled}
use hyperspace.Consensus.Undo.Stored.{Restores}
use hyperspace.Consensus.Undo.Block.{generate-revert, generate-IsScheduled}

abbrev pub debug_env : Env
debug_env = record { debug = true; constants = standard; crypto = toy_crypto }

abbrev an_output : SiacoinOutput
an_output = record { value = 10; unlock_hash = 2 }

-- A contract whose window ends at height 200.
abbrev a_contract : FileContract
a_contract = record {
  file_size = 100;
  file_merkle_root = 5;
  window_start = 190;
  window_end = 200;
  payout = 10;
  valid_proof_outputs = an_output ∷ [];
  missed_proof_outputs = an_output ∷ [];
  unlock_hash = 2;
  revision_number = 0;
}

-- The state at height 199: an output to spend, one that matures at 200, and a contract that expires.
abbrev pub before : Tx sorted
before = record {
  siacoin_outputs = put [] 50 an_output;
  file_contracts = put [] 60 a_contract;
  expirations = put [] 200 (put [] 60 tt);
  delayed = put [] 200 (put [] 70 an_output);
  block_map = [];
  block_header_map = [];
  block_path = put [] 199 8;
  block_height = 199;
}

abbrev pub a_block : ProcessedBlock
a_block = record {
  block = record {
    parent_id = 8;
    nonce = 9;
    timestamp = 1600000000;
    miner_payouts = an_output ∷ [];
    transactions = payment ∷ [];
  };
  height = 200;
  depth = 1;
  child_target = 1;
  diffs_generated = false;
  siacoin_output_diffs = [];
  file_contract_diffs = [];
  delayed_siacoin_output_diffs = [];
}

abbrev fresh_work : Work sorted
fresh_work = record { tx = before; pb = a_block; pbh = none }

abbrev work_of : Act (Work sorted) → Work sorted
work_of (ok w) = w
work_of (err failure) = fresh_work

abbrev pub applied : Work sorted
applied = work_of (generate_and_apply_diff sorted debug_env fresh_work)

pub applied-runs : generate_and_apply_diff sorted debug_env fresh_work ≡ ok applied
unfolding add sub equals cmp is_zero add_each siacoin_output_sum copy_into marshal_sia_size climb
    below_max sorted_unique field_maxs all_field_maxs all_empty check_sorted check_covered
    valid_covered_fields find_sigs update_sigs add_sigs add_all add_inputs add_revisions
    check_signed verify use_signature use_signatures valid_signatures check_window
    correct_file_contract correct_file_contracts correct_file_contract_revision
    correct_file_contract_revisions fits_in_a_block follows_minimum_values
    follows_storage_proof_rules mark_seen no_repeats check_timelock valid_unlock_conditions
    standalone_valid current_block_id add_siacoin_output remove_siacoin_output add_file_contract
    remove_file_contract add_dsco remove_dsco create_dsco_bucket delete_dsco_bucket push_path
    get_file_contract commit_siacoin_output_diff commit_file_contract_diff
    commit_delayed_siacoin_output_diff record_scod record_fcd record_dscod found_or_zero
    apply_siacoin_input apply_siacoin_inputs apply_outputs_from apply_siacoin_outputs
    apply_contracts_from apply_file_contracts apply_file_contract_revision
    apply_file_contract_revisions apply_valid_outputs_from apply_storage_proof apply_storage_proofs
    apply_transaction apply_payouts_from apply_miner_payouts matured_scods matured_dscods
    record_matured apply_matured_siacoin_outputs missed_outputs_from apply_missed_storage_proof
    missed_proofs expire_contracts apply_file_contract_maintenance apply_maintenance sum_inputs
    valid_siacoins valid_storage_proofs valid_file_contract_revisions valid_transaction
    check_successor validate_and_apply store_block generate_and_apply_diff
applied-runs = refl

pub before-IsScheduled : IsScheduled sorted before.file_contracts before.expirations
before-IsScheduled height id = ground arith

generate-revert_example :
    (t : Tx sorted) × (commit_diff_set sorted (release debug_env) diff_revert applied.tx applied.pb
      ≡ ok t)
    × Restores sorted before t
generate-revert_example =
    generate-revert sorted debug_env fresh_work applied refl refl refl refl before-IsScheduled
      (omega arith) (omega arith) (omega arith) refl applied-runs

generate-IsScheduled_example : IsScheduled sorted applied.tx.file_contracts applied.tx.expirations
generate-IsScheduled_example =
    generate-IsScheduled sorted debug_env fresh_work applied refl refl refl refl before-IsScheduled
      (omega arith) (omega arith) applied-runs

payment-spends : valid_siacoins sorted debug_env before payment ≡ ok tt
unfolding valid_siacoins sum_inputs add equals cmp add_each siacoin_output_sum
payment-spends = refl

valid_siacoins-balance_example :
    (scos : List SiacoinOutput) × SpendsEach sorted debug_env before payment.siacoin_inputs scos
    × (coins scos
        ≡ coins payment.siacoin_outputs
          + sum (map (λ (fc : FileContract). fc.payout) payment.file_contracts)
          + sum (map (λ fee. fee) payment.miner_fees))
valid_siacoins-balance_example =
    valid_siacoins-balance sorted debug_env before payment payment-spends

contract-segment : storage_proof_segment sorted debug_env before 60 ≡ ok 0
unfolding storage_proof_segment calculate_leaves
contract-segment = refl

storage_proof_segment-bound_example :
    (fc : FileContract) × (get before.file_contracts 60 ≡ some fc)
    × (sub64 fc.window_start 1 ≤ before.block_height)
    × (0 < calculate_leaves fc.file_size)
storage_proof_segment-bound_example =
    storage_proof_segment-bound sorted debug_env before 60 0 contract-segment

segment_length-cover_example :
    ((calculate_leaves 100 - 1) * 64 + segment_length 100 (calculate_leaves 100 - 1) ≡ 100)
    × (0 < segment_length 100 (calculate_leaves 100 - 1))
    × ((index : ℕ) → segment_length 100 index ≤ 64)
    × ((index : ℕ) → index < calculate_leaves 100 - 1 → segment_length 100 index ≡ 64)
segment_length-cover_example = segment_length-cover 100 (omega arith) (omega arith)
