-- ===== src/Consensus/Diffs.antt =====
-- modules/consensus/diffs.go: committing diffs to the database, in either direction.
use mathlib.Core.List.{reverse}
use hyperspace.Common.{
  ℕ, true, not, ◌==◌, leb, ok, ◌>>=◌, ◌>>◌, or_err, fold_result, add64, if◌then◌else◌,
}
use hyperspace.Database.{Bolt}
use hyperspace.Consensus.State.{
  DiffDirection, diff_apply, diff_revert, same, SiacoinOutputDiff, FileContractDiff,
  DelayedSiacoinOutputDiff, ProcessedBlock, Tx, Env, Act, sanity, panics, nil_item,
  diffs_not_generated, wrong_applied_diff_set, wrong_revert_diff_set, unexpected_error,
}
use hyperspace.Consensus.Store.{
  add_siacoin_output, remove_siacoin_output, add_file_contract, remove_file_contract, add_dsco,
  remove_dsco, create_dsco_bucket, delete_dsco_bucket, push_path, pop_path, current_block_id,
}

module _ (db : Bolt) (e : Env) where
  unfoldable pub commit_siacoin_output_diff :
      DiffDirection → Tx db → SiacoinOutputDiff → Act (Tx db)
  commit_siacoin_output_diff dir tx scod =
      if same scod.direction dir
      then add_siacoin_output db e tx scod.id scod.siacoin_output
      else remove_siacoin_output db e tx scod.id

  unfoldable pub commit_file_contract_diff : DiffDirection → Tx db → FileContractDiff → Act (Tx db)
  commit_file_contract_diff dir tx fcd =
      if same fcd.direction dir
      then add_file_contract db e tx fcd.id fcd.file_contract
      else remove_file_contract db e tx fcd.id

  unfoldable pub commit_delayed_siacoin_output_diff :
      DiffDirection → Tx db → DelayedSiacoinOutputDiff → Act (Tx db)
  commit_delayed_siacoin_output_diff dir tx dscod =
      if same dscod.direction dir
      then add_dsco db e tx dscod.maturity_height dscod.id dscod.siacoin_output
      else remove_dsco db e tx dscod.maturity_height dscod.id

  -- Each list from its start, or, to revert, from its end.
  unfoldable pub commit_node_diffs : DiffDirection → Tx db → ProcessedBlock → Act (Tx db)
  commit_node_diffs diff_apply tx pb = do
    tx1 ← fold_result (commit_siacoin_output_diff diff_apply) tx pb.siacoin_output_diffs
    tx2 ← fold_result (commit_file_contract_diff diff_apply) tx1 pb.file_contract_diffs
    fold_result (commit_delayed_siacoin_output_diff diff_apply) tx2 pb.delayed_siacoin_output_diffs
  commit_node_diffs diff_revert tx pb = do
    tx1 ← fold_result (commit_siacoin_output_diff diff_revert) tx (reverse pb.siacoin_output_diffs)
    tx2 ← fold_result (commit_file_contract_diff diff_revert) tx1 (reverse pb.file_contract_diffs)
    fold_result (commit_delayed_siacoin_output_diff diff_revert) tx2
        (reverse pb.delayed_siacoin_output_diffs)

  unfoldable pub create_upcoming_delayed_output_maps : DiffDirection → Tx db → ℕ → Act (Tx db)
  create_upcoming_delayed_output_maps diff_apply tx height =
      create_dsco_bucket db e tx (add64 height e.constants.maturity_delay)
  create_upcoming_delayed_output_maps diff_revert tx height =
      if leb e.constants.maturity_delay height then create_dsco_bucket db e tx height else ok tx

  unfoldable pub delete_obsolete_delayed_output_maps : DiffDirection → Tx db → ℕ → Act (Tx db)
  delete_obsolete_delayed_output_maps diff_apply tx height =
      if leb e.constants.maturity_delay height then delete_dsco_bucket db e tx height else ok tx
  delete_obsolete_delayed_output_maps diff_revert tx height =
      delete_dsco_bucket db e tx (add64 height e.constants.maturity_delay)

  unfoldable pub update_current_path : DiffDirection → Tx db → ℕ → Tx db
  update_current_path diff_apply tx id = push_path db tx id
  update_current_path diff_revert tx id = pop_path db tx

  unfoldable pub sanity_checks : DiffDirection → Tx db → ProcessedBlock → Act (Unit {0})
  sanity_checks diff_apply tx pb = do
    sanity true (not pb.diffs_generated) diffs_not_generated
    parent ← or_err (db.get tx.block_map pb.block.parent_id) (panics (unexpected_error nil_item))
    current ← current_block_id db e tx
    sanity true (not (e.crypto.block_id parent.block == current)) wrong_applied_diff_set
  sanity_checks diff_revert tx pb = do
    sanity true (not pb.diffs_generated) diffs_not_generated
    current ← current_block_id db e tx
    sanity true (not (e.crypto.block_id pb.block == current)) wrong_revert_diff_set

  -- Purely sanity checks, in a debug build.
  unfoldable pub commit_diff_set_sanity : DiffDirection → Tx db → ProcessedBlock → Act (Unit {0})
  unfolding sanity_checks
  commit_diff_set_sanity dir tx pb = if e.debug then sanity_checks dir tx pb else ok tt

  unfoldable pub commit_diff_set : DiffDirection → Tx db → ProcessedBlock → Act (Tx db)
  commit_diff_set dir tx pb = do
    commit_diff_set_sanity dir tx pb
    tx1 ← create_upcoming_delayed_output_maps dir tx pb.height
    tx2 ← commit_node_diffs dir tx1 pb
    tx3 ← delete_obsolete_delayed_output_maps dir tx2 pb.height
    ok (update_current_path dir tx3 (e.crypto.block_id pb.block))
