-- ===== src/Consensus/Maintenance.antt =====
-- modules/consensus/maintenance.go: the changes that a block makes beside its transactions'.
use hyperspace.Common.{
  ℕ, suc, List, [], ◌∷◌, ◌++◌, false, not, Option, none, some, is_some, ok, ◌>>=◌, ◌>>◌, or_err,
  fold_result, add64, ltb, ◌==◌, if◌then◌else◌,
}
use hyperspace.Types.Transaction.{SiacoinOutput}
use hyperspace.Database.{Bolt}
use hyperspace.Consensus.State.{
  diff_apply, diff_revert, SiacoinOutputDiff, FileContractDiff, DelayedSiacoinOutputDiff,
  ProcessedBlockHeader, Tx, Env, Act, sanity, panics, nil_dereference, output_already_mature,
  payouts_already_paid, storage_proof_timing,
}
use hyperspace.Consensus.Store.{delete_dsco_bucket}
use hyperspace.Consensus.Apply.{
  Work, record_scod, record_fcd, record_dscod, found_or_zero, zero_contract,
}

module _ (db : Bolt) (e : Env) where
  unfoldable pub apply_payouts_from : ℕ → Work db → List SiacoinOutput → Act (Work db)
  unfolding record_dscod
  apply_payouts_from i w [] = ok w
  apply_payouts_from i w (payout ∷ payouts) = do
    w' ← record_dscod db e w (record {
      direction = diff_apply;
      id = e.crypto.miner_payout_id w.pb.block i;
      siacoin_output = payout;
      maturity_height = add64 w.pb.height e.constants.maturity_delay;
    })
    apply_payouts_from (suc i) w' payouts

  unfoldable pub apply_miner_payouts : Work db → Act (Work db)
  apply_miner_payouts w = apply_payouts_from 0 w w.pb.block.miner_payouts

  -- What the ForEach over a bucket of delayed outputs collects.
  unfoldable pub matured_scods : Tx db → List (ℕ × SiacoinOutput) → Act (List SiacoinOutputDiff)
  matured_scods tx [] = ok []
  matured_scods tx ((id, sco) ∷ rest) = do
    sanity e.debug (is_some (db.get tx.siacoin_outputs id)) output_already_mature
    scods ← matured_scods tx rest
    ok (record { direction = diff_apply; id = id; siacoin_output = sco } ∷ scods)

  unfoldable pub matured_dscods : ℕ → List (ℕ × SiacoinOutput) → List DelayedSiacoinOutputDiff
  matured_dscods height [] = []
  matured_dscods height ((id, sco) ∷ rest) =
      record { direction = diff_revert; id = id; siacoin_output = sco; maturity_height = height }
      ∷ matured_dscods height rest

  -- The diff goes to the header too, where there is one.
  abbrev pub note_scod :
      Option ProcessedBlockHeader → SiacoinOutputDiff → Option ProcessedBlockHeader
  note_scod none scod = none
  note_scod (some h) scod =
      some (record h { siacoin_output_diffs = h.siacoin_output_diffs ++ (scod ∷ []) })

  unfoldable pub record_matured : Work db → SiacoinOutputDiff → Act (Work db)
  unfolding record_scod
  record_matured w scod = do
    w' ← record_scod db e w scod
    ok (record w' { pbh = note_scod w'.pbh scod })

  unfoldable pub apply_matured_siacoin_outputs : Work db → Act (Work db)
  apply_matured_siacoin_outputs w = if ltb w.pb.height e.constants.maturity_delay then ok w else do
    bucket ← or_err (db.get w.tx.delayed w.pb.height) (panics nil_dereference)
    scods ← matured_scods w.tx (db.for_each bucket)
    w1 ← fold_result record_matured w scods
    w2 ← fold_result (record_dscod db e) w1 (matured_dscods w.pb.height (db.for_each bucket))
    tx3 ← delete_dsco_bucket db e w2.tx w.pb.height
    ok (record w2 { tx = tx3 })

  unfoldable pub missed_outputs_from :
      Work db → ℕ → ℕ → List SiacoinOutput → Act (List DelayedSiacoinOutputDiff)
  missed_outputs_from w fcid i [] = ok []
  missed_outputs_from w fcid i (mpo ∷ mpos) = do
    let spoid = e.crypto.storage_proof_output_id fcid false i
    sanity e.debug (is_some (db.get w.tx.siacoin_outputs spoid)) payouts_already_paid
    dscods ← missed_outputs_from w fcid (suc i) mpos
    ok (
        record {
          direction = diff_apply;
          id = spoid;
          siacoin_output = mpo;
          maturity_height = add64 w.pb.height e.constants.maturity_delay;
        }
        ∷ dscods)

  unfoldable pub apply_missed_storage_proof :
      Work db → ℕ → Act (List DelayedSiacoinOutputDiff × FileContractDiff)
  unfolding found_or_zero
  apply_missed_storage_proof w fcid = do
    fc ← found_or_zero db e (db.get w.tx.file_contracts fcid) zero_contract
    sanity e.debug (not (fc.window_end == w.pb.height)) storage_proof_timing
    dscods ← missed_outputs_from w fcid 0 fc.missed_proof_outputs
    ok (dscods, record { direction = diff_revert; id = fcid; file_contract = fc })

  -- What the ForEach over the bucket of expiring contracts collects.
  unfoldable pub missed_proofs :
      Work db → List (ℕ × Unit {0}) → Act (List DelayedSiacoinOutputDiff × List FileContractDiff)
  missed_proofs w [] = ok ([], [])
  missed_proofs w ((id, _) ∷ rest) = do
    first ← apply_missed_storage_proof w id
    others ← missed_proofs w rest
    ok (first.0 ++ others.0, first.1 ∷ others.1)

  -- The rest of the function, for the bucket that the database has for the height, if any.
  unfoldable pub expire_contracts : Work db → Option (db.Bucket (Unit {0})) → Act (Work db)
  expire_contracts w none = ok w
  expire_contracts w (some bucket) = do
    missed ← missed_proofs w (db.for_each bucket)
    w1 ← fold_result (record_dscod db e) w missed.0
    w2 ← fold_result (record_fcd db e) w1 missed.1
    ok (record w2 { tx = record w2.tx { expirations = db.delete w2.tx.expirations w.pb.height } })

  unfoldable pub apply_file_contract_maintenance : Work db → Act (Work db)
  unfolding expire_contracts
  apply_file_contract_maintenance w = expire_contracts w (db.get w.tx.expirations w.pb.height)

  unfoldable pub apply_maintenance : Work db → Act (Work db)
  apply_maintenance w = do
    w1 ← apply_miner_payouts w
    w2 ← apply_matured_siacoin_outputs w1
    apply_file_contract_maintenance w2
