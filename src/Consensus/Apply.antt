-- ===== src/Consensus/Apply.antt =====
-- modules/consensus/applytransaction.go: applying a verified transaction to the database, and
-- recording the diffs in the processed block.
use hyperspace.Common.{
  ℕ, suc, List, [], ◌∷◌, ◌++◌, true, Option, none, some, ok, ◌>>=◌, ◌>>◌, fold_result, add64,
}
use hyperspace.Types.Transaction.{
  SiacoinInput, SiacoinOutput, FileContract, FileContractRevision, StorageProof, Transaction,
}
use hyperspace.Database.{Bolt}
use hyperspace.Consensus.State.{
  diff_apply, diff_revert, SiacoinOutputDiff, FileContractDiff, DelayedSiacoinOutputDiff,
  ProcessedBlock, ProcessedBlockHeader, Tx, Env, Act, sanity, nil_item, unexpected_error,
}
use hyperspace.Consensus.Diffs.{
  commit_siacoin_output_diff, commit_file_contract_diff, commit_delayed_siacoin_output_diff,
}

-- The objects that applying a block changes: the database, the block, and its header, if any.
pub record Work (db : Bolt) : Type 0 where
  pub tx : Tx db
  pub pb : ProcessedBlock
  pub pbh : Option ProcessedBlockHeader

-- The values that Go returns beside an error.
abbrev pub zero_output : SiacoinOutput
zero_output = record { value = 0; unlock_hash = 0 }

abbrev pub zero_contract : FileContract
zero_contract = record {
  file_size = 0;
  file_merkle_root = 0;
  window_start = 0;
  window_end = 0;
  payout = 0;
  valid_proof_outputs = [];
  missed_proof_outputs = [];
  unlock_hash = 0;
  revision_number = 0;
}

module _ (db : Bolt) (e : Env) where
  -- `append` to a diff list, and the commit of the diff.
  unfoldable pub record_scod : Work db → SiacoinOutputDiff → Act (Work db)
  record_scod w scod = do
    tx' ← commit_siacoin_output_diff db e diff_apply w.tx scod
    let pb' = record w.pb { siacoin_output_diffs = w.pb.siacoin_output_diffs ++ (scod ∷ []) }
    ok (record w { tx = tx'; pb = pb' })

  unfoldable pub record_fcd : Work db → FileContractDiff → Act (Work db)
  record_fcd w fcd = do
    tx' ← commit_file_contract_diff db e diff_apply w.tx fcd
    let pb' = record w.pb { file_contract_diffs = w.pb.file_contract_diffs ++ (fcd ∷ []) }
    ok (record w { tx = tx'; pb = pb' })

  unfoldable pub record_dscod : Work db → DelayedSiacoinOutputDiff → Act (Work db)
  record_dscod w dscod = do
    tx' ← commit_delayed_siacoin_output_diff db e diff_apply w.tx dscod
    let diffs = w.pb.delayed_siacoin_output_diffs ++ (dscod ∷ [])
    ok (record w { tx = tx'; pb = record w.pb { delayed_siacoin_output_diffs = diffs } })

  -- A read whose error only a debug build looks at.
  unfoldable pub found_or_zero {ℓ} : {A : Type ℓ} → Option A → A → Act A
  found_or_zero none zero = sanity e.debug true (unexpected_error nil_item) >> ok zero
  found_or_zero (some a) zero = ok a

  unfoldable pub apply_siacoin_input : Work db → SiacoinInput → Act (Work db)
  unfolding record_scod found_or_zero
  apply_siacoin_input w sci = do
    sco ← found_or_zero (db.get w.tx.siacoin_outputs sci.parent_id) zero_output
    record_scod w (record { direction = diff_revert; id = sci.parent_id; siacoin_output = sco })

  unfoldable pub apply_siacoin_inputs : Work db → Transaction → Act (Work db)
  apply_siacoin_inputs w t = fold_result apply_siacoin_input w t.siacoin_inputs

  -- The loop from position i on.
  unfoldable pub apply_outputs_from : Transaction → ℕ → Work db → List SiacoinOutput → Act (Work db)
  unfolding record_scod
  apply_outputs_from t i w [] = ok w
  apply_outputs_from t i w (sco ∷ scos) = do
    let id = e.crypto.siacoin_output_id t i
    w' ← record_scod w (record { direction = diff_apply; id = id; siacoin_output = sco })
    apply_outputs_from t (suc i) w' scos

  unfoldable pub apply_siacoin_outputs : Work db → Transaction → Act (Work db)
  apply_siacoin_outputs w t = apply_outputs_from t 0 w t.siacoin_outputs

  unfoldable pub apply_contracts_from :
      Transaction → ℕ → Work db → List FileContract → Act (Work db)
  unfolding record_fcd
  apply_contracts_from t i w [] = ok w
  apply_contracts_from t i w (fc ∷ fcs) = do
    let id = e.crypto.file_contract_id t i
    w' ← record_fcd w (record { direction = diff_apply; id = id; file_contract = fc })
    apply_contracts_from t (suc i) w' fcs

  unfoldable pub apply_file_contracts : Work db → Transaction → Act (Work db)
  apply_file_contracts w t = apply_contracts_from t 0 w t.file_contracts

  abbrev pub revised : FileContractRevision → FileContract → FileContract
  revised fcr fc = record {
    file_size = fcr.new_file_size;
    file_merkle_root = fcr.new_file_merkle_root;
    window_start = fcr.new_window_start;
    window_end = fcr.new_window_end;
    payout = fc.payout;
    valid_proof_outputs = fcr.new_valid_proof_outputs;
    missed_proof_outputs = fcr.new_missed_proof_outputs;
    unlock_hash = fcr.new_unlock_hash;
    revision_number = fcr.new_revision_number;
  }

  unfoldable pub apply_file_contract_revision : Work db → FileContractRevision → Act (Work db)
  unfolding record_fcd found_or_zero
  apply_file_contract_revision w fcr = do
    fc ← found_or_zero (db.get w.tx.file_contracts fcr.parent_id) zero_contract
    w' ← record_fcd w (record { direction = diff_revert; id = fcr.parent_id; file_contract = fc })
    record_fcd w'
        (record { direction = diff_apply; id = fcr.parent_id; file_contract = revised fcr fc })

  unfoldable pub apply_file_contract_revisions : Work db → Transaction → Act (Work db)
  apply_file_contract_revisions w t =
      fold_result apply_file_contract_revision w t.file_contract_revisions

  -- The outputs of a proved contract, from position i on.
  unfoldable pub apply_valid_outputs_from : ℕ → ℕ → Work db → List SiacoinOutput → Act (Work db)
  unfolding record_dscod
  apply_valid_outputs_from fcid i w [] = ok w
  apply_valid_outputs_from fcid i w (vpo ∷ vpos) = do
    w' ← record_dscod w (record {
      direction = diff_apply;
      id = e.crypto.storage_proof_output_id fcid true i;
      siacoin_output = vpo;
      maturity_height = add64 w.pb.height e.constants.maturity_delay;
    })
    apply_valid_outputs_from fcid (suc i) w' vpos

  unfoldable pub apply_storage_proof : Work db → StorageProof → Act (Work db)
  unfolding record_fcd found_or_zero
  apply_storage_proof w sp = do
    fc ← found_or_zero (db.get w.tx.file_contracts sp.parent_id) zero_contract
    w' ← apply_valid_outputs_from sp.parent_id 0 w fc.valid_proof_outputs
    record_fcd w' (record { direction = diff_revert; id = sp.parent_id; file_contract = fc })

  unfoldable pub apply_storage_proofs : Work db → Transaction → Act (Work db)
  apply_storage_proofs w t = fold_result apply_storage_proof w t.storage_proofs

  unfoldable pub apply_transaction : Work db → Transaction → Act (Work db)
  apply_transaction w t = do
    w1 ← apply_siacoin_inputs w t
    w2 ← apply_siacoin_outputs w1 t
    w3 ← apply_file_contracts w2 t
    w4 ← apply_file_contract_revisions w3 t
    apply_storage_proofs w4 t
