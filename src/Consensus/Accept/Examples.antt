-- ===== src/Consensus/Accept/Examples.antt =====
-- A block on top of a genesis block, taken into the block tree.
use hyperspace.Common.{
  ℕ, ◌*◌, ◌^◌, ◌<◌, ◌≡◌, refl, sym, subst, ◌⊎◌, [], ◌∷◌, false, Option, none, some, ok, err, arith,
  inl, inr,
}
use hyperspace.Database.Sorted.{sorted, get, put}
use hyperspace.Types.Currency.{add, equals, cmp, is_zero, div, mul}
use hyperspace.Types.Transaction.{Block}
use hyperspace.Types.Constants.{siacoin_precision, first_coinbase}
use hyperspace.Types.Subsidy.{calculate_subsidies}
use hyperspace.Types.Words.{bits, seek, write_down, shifted}
use hyperspace.Types.Target.{
  add_difficulties, mul_difficulty, inverse, rat_to_target, int_to_target, difficulty,
}
use hyperspace.Encoding.{
  write_uint64, write_fixed, write_slice, write_each, enc_uint64, le_bytes, be_bytes,
}
use hyperspace.Types.Encoding.{marshal_block, marshal_output, marshal_currency}
use hyperspace.Consensus.State.{ProcessedBlock, Act, early_timestamp}
use hyperspace.Consensus.Store.{current_block_id, create_dsco_bucket, push_path, add_dsco}
use hyperspace.Consensus.Diffs.{commit_delayed_siacoin_output_diff}
use hyperspace.Consensus.Apply.{record_dscod}
use hyperspace.Consensus.Maintenance.{
  apply_payouts_from, apply_miner_payouts, apply_matured_siacoin_outputs, expire_contracts,
  apply_file_contract_maintenance, apply_maintenance,
}
use hyperspace.Consensus.Generate.{
  check_successor, validate_and_apply, store_block, generate_and_apply_diff, diff_holder,
  empty_block,
}
use hyperspace.Consensus.Weight.{heavier_than, child_depth, requirement}
use hyperspace.Consensus.BlockValidation.{
  validate_block, check_miner_payouts, minimum_valid_child_timestamp, window_times,
}
use hyperspace.Consensus.Difficulty.{
  standard_oak, target_block_time, child_target_oak, adjusted_target, visible_hashrate, block_shift,
  new_totals, get_block_totals, store_block_totals,
}
use hyperspace.Consensus.Fork.{
  stored_block, backtrack, backtrack_to_current_path, rewind, revert_to_block, apply_block,
  apply_blocks, apply_until_block, fork_blockchain,
}
use hyperspace.Consensus.Fork.Branch.{IsRooted, HasParent}
use hyperspace.Consensus.Fork.Examples.{put_cases}
use hyperspace.Consensus.Examples.{debug_env}
use hyperspace.Consensus.ChangeLog.{ChangeEntry, genesis_log, append_change_log, point_tail}
use hyperspace.Consensus.Accept.{
  ConsensusSet, Added, extended, kept, rejected, Accepted, new_child, add_block_to_tree,
  validate_header_and_block, after_fork, accept_block, accept_each, managed_accept_blocks,
}
use hyperspace.Consensus.Accept.Tree.{add_block_to_tree-deeper, new_child-IsRooted}

abbrev genesis : ProcessedBlock
genesis = record (diff_holder 0) {
  block = record empty_block { nonce = 21; timestamp = 1532510521 };
  depth = 2 ^ 250;
  child_target = 2 ^ 200;
}

abbrev start : ConsensusSet sorted
start = record {
  stored = record {
    tx = record {
      siacoin_outputs = [];
      file_contracts = [];
      expirations = [];
      delayed = [];
      block_map = put [] 21 genesis;
      block_header_map = [];
      block_path = put [] 0 21;
      block_height = 0;
    };
    oak = put [] 21 (1, 2 ^ 200);
    change_log =
        genesis_log sorted debug_env (record { reverted_blocks = []; applied_blocks = 21 ∷ [] });
  };
  dos_blocks = [];
  processed_block_headers = [];
}

abbrev first : Block
first = record empty_block {
  parent_id = 21;
  nonce = 22;
  timestamp = 1532511121;
  miner_payouts = record { value = first_coinbase * siacoin_precision; unlock_hash = 2 } ∷ [];
}

first-valid :
    validate_header_and_block sorted debug_env standard_oak 1532511121 start first 22 ≡ ok genesis
unfolding validate_header_and_block minimum_valid_child_timestamp window_times validate_block
    check_miner_payouts equals cmp marshal_block marshal_output marshal_currency bits seek
    write_down shifted be_bytes write_uint64 enc_uint64 le_bytes write_fixed write_slice write_each
first-valid = refl

abbrev child_of : Act (ProcessedBlock × ConsensusSet sorted) → ProcessedBlock × ConsensusSet sorted
child_of (ok made) = made
child_of (err failure) = (genesis, start)

abbrev made : ProcessedBlock × ConsensusSet sorted
made = child_of (new_child sorted debug_env standard_oak start genesis first)

first-made : new_child sorted debug_env standard_oak start genesis first ≡ ok (made.0, made.1)
unfolding new_child child_depth get_block_totals store_block_totals new_totals child_target_oak
    adjusted_target visible_hashrate block_shift target_block_time mul_difficulty add_difficulties
    inverse rat_to_target int_to_target difficulty div mul is_zero add
first-made = refl

genesis-HasParent :
    (b : ProcessedBlock)
    → (b ≡ genesis) ⊎ (Path (Option ProcessedBlock) none (some b))
    → HasParent sorted debug_env start.stored.tx b
genesis-HasParent b (inl p) = subst (HasParent sorted debug_env start.stored.tx) (sym p) (λ off. cc)
genesis-HasParent b (inr p) = λ off. cc

start-IsRooted : IsRooted sorted debug_env start.stored.tx
start-IsRooted = record {
  parents = λ id b found. genesis-HasParent b (put_cases [] 21 id genesis b found);
  no_gap = λ n low. ground (arith, low);
}

new_child-IsRooted_example :
    IsRooted sorted debug_env made.1.stored.tx × HasParent sorted debug_env made.1.stored.tx made.0
new_child-IsRooted_example =
    new_child-IsRooted sorted debug_env standard_oak start made.1 genesis made.0 first
      start-IsRooted refl refl (omega arith) first-made

abbrev entry_of : Act (Added sorted) → ChangeEntry × ConsensusSet sorted
entry_of (ok (extended entry cs)) = (entry, cs)
entry_of (ok (kept cs)) = (record { reverted_blocks = []; applied_blocks = [] }, cs)
entry_of (ok (rejected failure cs)) = (record { reverted_blocks = []; applied_blocks = [] }, cs)
entry_of (err failure) = (record { reverted_blocks = []; applied_blocks = [] }, start)

abbrev grown : ChangeEntry × ConsensusSet sorted
grown = entry_of (add_block_to_tree sorted debug_env standard_oak 3 start first genesis)

first-extends :
    add_block_to_tree sorted debug_env standard_oak 3 start first genesis
    ≡ ok (extended grown.0 grown.1)
unfolding add_block_to_tree new_child child_depth get_block_totals store_block_totals new_totals
    child_target_oak adjusted_target visible_hashrate block_shift target_block_time mul_difficulty
    add_difficulties inverse rat_to_target int_to_target difficulty div mul is_zero add
    current_block_id stored_block heavier_than requirement fork_blockchain backtrack_to_current_path
    backtrack revert_to_block rewind apply_until_block apply_blocks apply_block
    generate_and_apply_diff check_successor create_dsco_bucket validate_and_apply apply_maintenance
    apply_miner_payouts apply_payouts_from record_dscod commit_delayed_siacoin_output_diff add_dsco
    apply_matured_siacoin_outputs apply_file_contract_maintenance expire_contracts store_block
    push_path calculate_subsidies after_fork append_change_log point_tail
first-extends = refl

add_block_to_tree-deeper_example :
    (child : ProcessedBlock) × (current : ProcessedBlock) × (cs1 : ConsensusSet sorted) × (new_child
        sorted debug_env standard_oak start genesis first
      ≡ ok (child, cs1))
    × (id : ℕ) × (current_block_id sorted debug_env cs1.stored.tx ≡ ok id)
    × (get cs1.stored.tx.block_map id ≡ some current)
    × (child.depth < current.depth)
add_block_to_tree-deeper_example =
    add_block_to_tree-deeper sorted debug_env standard_oak 3 start grown.1 first genesis grown.0
      first-extends

-- A second block that comes too early, after the first: the database is rolled back.
abbrev early : Block
early = record empty_block { parent_id = 22; nonce = 23; timestamp = 5 }

abbrev accepted_of : Act (Accepted sorted) → Accepted sorted
accepted_of (ok accepted) = accepted
accepted_of (err failure) = record { result = ok false; set = start }

abbrev refused : Accepted sorted
refused =
    accepted_of
      (managed_accept_blocks sorted debug_env standard_oak 1532511121 3 start (first ∷ early ∷ []))

early-refused :
    (managed_accept_blocks sorted debug_env standard_oak 1532511121 3 start (first ∷ early ∷ [])
      ≡ ok refused)
    × (refused.result ≡ err early_timestamp)
    × (refused.set.stored ≡ start.stored)
unfolding managed_accept_blocks accept_each accept_block validate_header_and_block
    minimum_valid_child_timestamp window_times validate_block check_miner_payouts equals cmp
    marshal_block marshal_output marshal_currency bits seek write_down shifted be_bytes write_uint64
    enc_uint64 le_bytes write_fixed write_slice write_each add_block_to_tree new_child child_depth
    get_block_totals store_block_totals new_totals child_target_oak adjusted_target visible_hashrate
    block_shift target_block_time mul_difficulty add_difficulties inverse rat_to_target
    int_to_target difficulty div mul is_zero add current_block_id stored_block heavier_than
    requirement fork_blockchain backtrack_to_current_path backtrack revert_to_block rewind
    apply_until_block apply_blocks apply_block generate_and_apply_diff check_successor
    create_dsco_bucket validate_and_apply apply_maintenance apply_miner_payouts apply_payouts_from
    record_dscod commit_delayed_siacoin_output_diff add_dsco apply_matured_siacoin_outputs
    apply_file_contract_maintenance expire_contracts store_block push_path calculate_subsidies
    after_fork append_change_log point_tail
early-refused = (refl, refl, refl)
