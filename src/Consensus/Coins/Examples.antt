-- ===== src/Consensus/Coins/Examples.antt =====
-- A block that adds its coinbase to the coins.
use hyperspace.Common.{ℕ, ◌+◌, ◌-◌, ◌≡◌, refl, [], ◌∷◌, true, none, ok, err, arith}
use hyperspace.Types.Transaction.{SiacoinOutput, Block}
use hyperspace.Types.Constants.{standard, dev_fund_unlock_hash}
use hyperspace.Types.Subsidy.{
  calculate_num_siacoins, calculate_subsidies, calculate_coinbase, late_coinbase, late_num_siacoins,
  calculate_miner_fees, add_fees,
}
use hyperspace.Database.Sorted.{sorted, put}
use hyperspace.Consensus.State.{Tx, Act}
use hyperspace.Consensus.Examples.{debug_env, before, a_block}
use hyperspace.Consensus.BlockValidation.{check_miner_payouts}
use hyperspace.Consensus.Coins.{IsFunded}
use hyperspace.Consensus.Coins.Blocks.{check_siacoin_count, check_siacoin_count-generate}
use hyperspace.Types.Currency.{add, sub, equals, cmp, is_zero}
use hyperspace.Types.Transaction.{add_each, siacoin_output_sum}
use hyperspace.Types.Crypto.{copy_into}
use hyperspace.Types.Size.{marshal_sia_size}
use hyperspace.Types.Signatures.{
  climb, below_max, sorted_unique, field_maxs, all_field_maxs, all_empty, check_sorted,
  check_covered, valid_covered_fields, find_sigs, update_sigs, add_sigs, add_all, add_inputs,
  add_revisions, check_signed, verify, use_signature, use_signatures, valid_signatures,
}
use hyperspace.Types.Standalone.{
  check_window, correct_file_contract, correct_file_contracts, correct_file_contract_revision,
  correct_file_contract_revisions, fits_in_a_block, follows_minimum_values,
  follows_storage_proof_rules, mark_seen, no_repeats, check_timelock, valid_unlock_conditions,
  standalone_valid,
}
use hyperspace.Consensus.Store.{
  current_block_id, add_siacoin_output, remove_siacoin_output, add_file_contract,
  remove_file_contract, add_dsco, remove_dsco, create_dsco_bucket, delete_dsco_bucket, push_path,
  get_file_contract,
}
use hyperspace.Consensus.Diffs.{
  commit_siacoin_output_diff, commit_file_contract_diff, commit_delayed_siacoin_output_diff,
}
use hyperspace.Consensus.Apply.{
  record_scod, record_fcd, record_dscod, found_or_zero, apply_siacoin_input, apply_siacoin_inputs,
  apply_outputs_from, apply_siacoin_outputs, apply_contracts_from, apply_file_contracts,
  apply_file_contract_revision, apply_file_contract_revisions, apply_valid_outputs_from,
  apply_storage_proof, apply_storage_proofs, apply_transaction,
}
use hyperspace.Consensus.Maintenance.{
  apply_payouts_from, apply_miner_payouts, matured_scods, matured_dscods, record_matured,
  apply_matured_siacoin_outputs, missed_outputs_from, apply_missed_storage_proof, missed_proofs,
  expire_contracts, apply_file_contract_maintenance, apply_maintenance,
}
use hyperspace.Consensus.Valid.{
  sum_inputs, valid_siacoins, valid_storage_proofs, valid_file_contract_revisions,
  valid_transaction,
}
use hyperspace.Consensus.Generate.{
  check_successor, validate_and_apply, store_block, generate_and_apply_diff,
}
use hyperspace.Consensus.Apply.{Work}

-- Someone has all coins but thirty.
abbrev rich : SiacoinOutput
rich = record { value = calculate_num_siacoins standard 199 - 30; unlock_hash = 4 }

abbrev full : Tx sorted
full = record before { siacoin_outputs = put before.siacoin_outputs 51 rich }

abbrev subsidies : ℕ × ℕ
subsidies = calculate_subsidies standard a_block.block 200

abbrev paid_block : Block
paid_block = record a_block.block {
  miner_payouts =
      record { value = subsidies.0; unlock_hash = 2 }
      ∷ record { value = subsidies.1; unlock_hash = dev_fund_unlock_hash }
      ∷ [];
}

abbrev start : Work sorted
start = record { tx = full; pb = record a_block { block = paid_block }; pbh = none }

abbrev work_of : Act (Work sorted) → Work sorted
work_of (ok w) = w
work_of (err failure) = start

abbrev done : Work sorted
done = work_of (generate_and_apply_diff sorted debug_env start)

done-runs : generate_and_apply_diff sorted debug_env start ≡ ok done
unfolding add sub equals cmp is_zero add_each siacoin_output_sum copy_into marshal_sia_size climb
    below_max sorted_unique field_maxs all_field_maxs all_empty check_sorted check_covered
    valid_covered_fields find_sigs update_sigs add_sigs add_all add_inputs add_revisions
    check_signed verify use_signature use_signatures valid_signatures check_window
    correct_file_contract correct_file_contracts correct_file_contract_revision
    correct_file_contract_revisions fits_in_a_block follows_minimum_values
    follows_storage_proof_rules mark_seen no_repeats check_timelock valid_unlock_conditions
    standalone_valid current_block_id add_siacoin_output remove_siacoin_output add_file_contract
    remove_file_contract add_dsco remove_dsco create_dsco_bucket delete_dsco_bucket push_path
    get_file_contract commit_siacoin_output_diff commit_file_contract_diff
    commit_delayed_siacoin_output_diff record_scod record_fcd record_dscod found_or_zero
    apply_siacoin_input apply_siacoin_inputs apply_outputs_from apply_siacoin_outputs
    apply_contracts_from apply_file_contracts apply_file_contract_revision
    apply_file_contract_revisions apply_valid_outputs_from apply_storage_proof apply_storage_proofs
    apply_transaction apply_payouts_from apply_miner_payouts matured_scods matured_dscods
    record_matured apply_matured_siacoin_outputs missed_outputs_from apply_missed_storage_proof
    missed_proofs expire_contracts apply_file_contract_maintenance apply_maintenance sum_inputs
    valid_siacoins valid_storage_proofs valid_file_contract_revisions valid_transaction
    check_successor validate_and_apply store_block generate_and_apply_diff check_miner_payouts
    calculate_subsidies calculate_coinbase late_coinbase late_num_siacoins calculate_miner_fees
    add_fees
done-runs = refl

start-IsFunded : IsFunded sorted full.file_contracts
start-IsFunded id fc h = ground arith

right_count : check_siacoin_count sorted debug_env full ≡ true
unfolding check_siacoin_count equals cmp add_each calculate_num_siacoins late_num_siacoins
    calculate_coinbase late_coinbase add
right_count = refl

fair_payouts : check_miner_payouts standard paid_block (197 + 3) ≡ true
unfolding check_miner_payouts equals cmp is_zero add sub add_each calculate_subsidies
    calculate_coinbase late_coinbase calculate_miner_fees add_fees
fair_payouts = refl

check_siacoin_count-generate_example :
    (check_siacoin_count sorted debug_env done.tx ≡ true) × IsFunded sorted done.tx.file_contracts
check_siacoin_count-generate_example =
    check_siacoin_count-generate sorted debug_env start done 197 refl refl (omega arith) refl
      start-IsFunded right_count fair_payouts done-runs
