-- ===== src/Consensus/BlockExamples.antt =====
-- Blocks that are weighed and validated, on concrete inputs.
use hyperspace.Common.{
  ℕ, zero, suc, List, length, none, leb, ◌+◌, ◌*◌, ◌^◌, ◌<◌, ◌≤◌, ◌≡◌, ◌↔◌, refl, [], ◌∷◌, true,
  some, ok, err, sum, map, arith,
}
use hyperspace.Types.Currency.{add, sub, equals, cmp, is_zero, div, mul}
use hyperspace.Types.Sums.{coins}
use hyperspace.Types.Transaction.{Block, Transaction, SiacoinOutput, add_each}
use hyperspace.Types.Constants.{standard, siacoin_precision, first_coinbase, dev_fund_unlock_hash}
use hyperspace.Types.Subsidy.{
  calculate_subsidies, calculate_coinbase, calculate_miner_fees, late_coinbase, add_fees,
}
use hyperspace.Types.Subsidy.Supply.{reward}
use hyperspace.Types.Words.{bits, seek, write_down, shifted}
use hyperspace.Encoding.{
  write_uint64, write_fixed, write_slice, write_each, enc_uint64, le_bytes, be_bytes,
}
use hyperspace.Types.Encoding.{marshal_block, marshal_output, marshal_currency}
use hyperspace.Types.Target.{
  Target, add_difficulties, mul_difficulty, inverse, rat_to_target, int_to_target, difficulty,
}
use hyperspace.Types.Target.Depths.{add_difficulties-harmonic}
use hyperspace.Consensus.State.{ProcessedBlock, Act}
use hyperspace.Consensus.Weight.{heavier_than, requirement, heavier_than_trans}
use hyperspace.Consensus.BlockValidation.{
  Ancestors, window_times, minimum_valid_child_timestamp, validate_block, check_miner_payouts,
}
use hyperspace.Consensus.BlockValidation.Median.{count, minimum_valid_child_timestamp-median}
use hyperspace.Consensus.BlockValidation.Payouts.{check_miner_payouts-coins}
use hyperspace.Consensus.BlockValidation.Exact.{
  IsValidBlock, validate_block_iff, validate_block-future,
}
use hyperspace.Consensus.Difficulty.{
  standard_oak, target_block_time, child_target_oak, adjusted_target, visible_hashrate, block_shift,
}
use hyperspace.Consensus.Difficulty.Clamps.{target_block_time-bounds, child_target_oak-clamped}
use hyperspace.Consensus.Generate.{diff_holder}

add_difficulties-harmonic_example :
    (t : Target) × (add_difficulties 6 3 ≡ some t)
    × (t * (6 + 3) ≤ 6 * 3)
    × (6 * 3 < suc t * (6 + 3))
    × (t < 6)
    × (t < 3)
add_difficulties-harmonic_example =
    add_difficulties-harmonic 6 3 (omega arith) (omega arith) (omega arith) (omega arith)

abbrev at_depth : ℕ → ProcessedBlock
at_depth n = record (diff_holder 5) { depth = n; child_target = 50 }

heavier_than_trans_example : (10 < 100) × (heavier_than (at_depth 10) (at_depth 100000) ≡ ok true)
unfolding heavier_than requirement mul_difficulty add_difficulties inverse rat_to_target
    int_to_target
heavier_than_trans_example =
    heavier_than_trans (at_depth 10) (at_depth 100) (at_depth 100000) refl refl

abbrev paying : SiacoinOutput → Block
paying payout = record {
  parent_id = 8;
  nonce = 9;
  timestamp = 4 * 3600;
  miner_payouts = payout ∷ [];
  transactions = [];
}

abbrev first_block : Block
first_block = paying (record { value = first_coinbase * siacoin_precision; unlock_hash = 2 })

validate_block-future_example : validate_block standard 3600 first_block 3 100 77 1 ≡ ok tt
unfolding validate_block check_miner_payouts equals cmp marshal_block marshal_output
    marshal_currency bits seek write_down shifted be_bytes write_uint64 enc_uint64 le_bytes
    write_fixed write_slice write_each
validate_block-future_example =
    validate_block-future standard 0 3600 first_block 3 100 77 1 refl (omega arith) (omega arith)
      (omega arith)

validate_block_iff_example :
    (validate_block standard 3600 first_block 3 100 77 (4 + 3) ≡ ok tt)
    ↔ IsValidBlock standard 3600 first_block 3 100 77 (4 + 3)
validate_block_iff_example = validate_block_iff standard 3600 first_block 3 100 77 4

abbrev third_block : Block
third_block = record first_block {
  miner_payouts =
      record { value = 54000 * siacoin_precision; unlock_hash = 2 }
      ∷ record { value = 6000 * siacoin_precision; unlock_hash = dev_fund_unlock_hash }
      ∷ [];
}

check_miner_payouts-coins_example :
    coins third_block.miner_payouts
    ≡ reward 0 + sum (map (λ (t : Transaction). sum t.miner_fees) third_block.transactions)
unfolding check_miner_payouts equals cmp is_zero add sub add_each calculate_subsidies
    calculate_coinbase late_coinbase calculate_miner_fees add_fees
check_miner_payouts-coins_example = check_miner_payouts-coins third_block 0 (omega arith) refl

target_block_time-bounds_example :
    (200 ≤ target_block_time standard standard_oak 250)
    × (target_block_time standard standard_oak 250 ≤ 1800)
target_block_time-bounds_example = target_block_time-bounds 250

abbrev target_of : Act Target → Target
target_of (ok t) = t
target_of (err failure) = 0

abbrev next_target : Target
next_target =
    target_of (child_target_oak standard standard_oak 90000 (2 ^ 190) (2 ^ 200) 1000 1533110521)

child_target_oak-clamped_example :
    (2 ^ 200 * 1000 < (next_target + 1) * 1004) × (next_target * 1000 ≤ 2 ^ 200 * 1004)
unfolding child_target_oak adjusted_target visible_hashrate block_shift target_block_time
    mul_difficulty inverse rat_to_target int_to_target difficulty div mul is_zero add
child_target_oak-clamped_example =
    child_target_oak-clamped 90000 (2 ^ 190) (2 ^ 200) next_target 1000 1533110521
      (λ p. omega (arith, p)) (omega arith) refl

-- Each block is the parent of the next, ten seconds later.
abbrev chain : Ancestors
chain zero = none
chain (suc k) = some (k, 10 * k)

minimum_valid_child_timestamp_run : minimum_valid_child_timestamp chain 12 200 ≡ ok 70
unfolding minimum_valid_child_timestamp window_times
minimum_valid_child_timestamp_run = refl

minimum_valid_child_timestamp-median_example :
    (times : List ℕ) × (window_times chain 10 12 200 ≡ ok times)
    × (length (200 ∷ times) ≡ 11)
    × (6 ≤ count (λ y. leb y 70) (200 ∷ times))
    × (6 ≤ count (leb 70) (200 ∷ times))
minimum_valid_child_timestamp-median_example =
    minimum_valid_child_timestamp-median chain 12 200 70 minimum_valid_child_timestamp_run
