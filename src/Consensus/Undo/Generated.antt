-- ===== src/Consensus/Undo/Generated.antt =====
-- A generated block, before it is stored, can be undone (generateAndApplyDiff of
-- modules/consensus/diffs.go).
use hyperspace.Common.{
  ℕ, [], ◌≡◌, ◌≢◌, refl, sym, ap, ◌∙◌, true, false, not, ltb, add64, if◌then◌else◌, none, is_some,
  ok, arith, >>=_inv, ok_injective,
}
use hyperspace.Types.Transaction.{Block}
use hyperspace.Database.{Bolt}
use hyperspace.Consensus.State.{diff_revert, Tx, Env, sanity_inv}
use hyperspace.Consensus.Store.{create_dsco_bucket}
use hyperspace.Consensus.Diffs.{
  commit_siacoin_output_diff, commit_file_contract_diff, commit_delayed_siacoin_output_diff,
}
use hyperspace.Consensus.Apply.{Work}
use hyperspace.Consensus.Maintenance.{
  apply_miner_payouts, apply_matured_siacoin_outputs, apply_maintenance,
}
use hyperspace.Consensus.Generate.{
  check_successor, validate_and_apply, store_block, generate_and_apply_diff,
}
use hyperspace.Consensus.Undo.{release, IsScheduled, Reverts-nil}
use hyperspace.Consensus.Undo.Outputs
use hyperspace.Consensus.Undo.Contracts
use hyperspace.Consensus.Undo.Delayed
use hyperspace.Consensus.Undo.Record.{Undoable}
use hyperspace.Consensus.Undo.Transaction.{transactions_Undoable}
use hyperspace.Consensus.Undo.Matured.{payouts_Undoable, matured_Undoable}
use hyperspace.Consensus.Undo.Expired.{expired_Undoable}

module _ (db : Bolt) (e : Env) where
  open db use {Bucket, get, put, delete}

  -- A block that has recorded nothing yet.
  start :
      (w : Work db)
      → w.pb.siacoin_output_diffs ≡ []
      → w.pb.file_contract_diffs ≡ []
      → w.pb.delayed_siacoin_output_diffs ≡ []
      → IsScheduled db w.tx.file_contracts w.tx.expirations
      → Undoable db e w.tx w.pb.block w.pb.height false w
  start w p q r s = record {
    outputs = rw p (
        Reverts-nil (commit_siacoin_output_diff db (release e) diff_revert) (Outputs.Sees db e)
          (Outputs.Frame db e) (λ s. refl) w.tx.siacoin_outputs);
    contracts = rw q (
        Reverts-nil (commit_file_contract_diff db (release e) diff_revert) (Contracts.Sees db e)
          (Contracts.Frame db e) (λ s. refl) w.tx.file_contracts);
    delayed = rw r (
        Reverts-nil (commit_delayed_siacoin_output_diff db (release e) diff_revert)
          (Delayed.Sees db e) (Delayed.Frame db e) (λ s. refl) w.tx.delayed);
    shut = λ c. cc;
    scheduled = s;
    path = refl;
    at_height = refl;
    same_map = refl;
    same_block = refl;
    same_height = refl;
  }

  maintenance_Undoable :
      e.debug ≡ true
      → (base : Tx db) (block : Block) (height : ℕ) (w w' : Work db)
      → add64 height e.constants.maturity_delay ≢ height
      → Undoable db e base block height false w
      → apply_maintenance db e w ≡ ok w'
      → Undoable db e base block height (not (ltb height e.constants.maturity_delay)) w'
  unfolding apply_maintenance
  maintenance_Undoable debug base block height w w' ahead u h =
      let (w1, pay, h1) = >>=_inv (apply_miner_payouts db e w) _ h in
      let (w2, mature, expire) = >>=_inv (apply_matured_siacoin_outputs db e w1) _ h1 in
      let u1 = payouts_Undoable db e debug base block height w w1 u pay in
      let u2 = matured_Undoable db e debug base block height w1 w2 u1 mature in
      expired_Undoable db e debug base block height _ ahead w2 w' u2 expire

  -- The block before it is stored: what it started from, with the bucket of its delayed outputs.
  pub generated :
      e.debug ≡ true
      → (w w' : Work db) → w.pb.siacoin_output_diffs ≡ []
      → w.pb.file_contract_diffs ≡ []
      → w.pb.delayed_siacoin_output_diffs ≡ []
      → IsScheduled db w.tx.file_contracts w.tx.expirations
      → add64 w.pb.height e.constants.maturity_delay ≢ w.pb.height
      → generate_and_apply_diff db e w ≡ ok w'
      → (w2 : Work db) × (get w.tx.delayed (add64 w.pb.height e.constants.maturity_delay) ≡ none)
        × Undoable db e
            (record w.tx {
              delayed = put w.tx.delayed (add64 w.pb.height e.constants.maturity_delay) db.empty;
            })
            w.pb.block
            w.pb.height
            (not (ltb w.pb.height e.constants.maturity_delay))
            w2
        × (store_block db e w2 ≡ w')
  unfolding generate_and_apply_diff create_dsco_bucket
  generated debug w w' p q r s ahead h =
      let n = add64 w.pb.height e.constants.maturity_delay in
      let (_, extends, h1) = >>=_inv (check_successor db e w.tx w.pb.block) _ h in
      let (tx0, create, h2) = >>=_inv (create_dsco_bucket db e w.tx n) _ h1 in
      let (fresh, made) = sanity_inv e.debug (is_some (get w.tx.delayed n)) _ _ debug create in
      let base : Tx db = record w.tx { delayed = put w.tx.delayed n db.empty } in
      let tx0_base : tx0 ≡ base =
        sym (ok_injective made)
        ∙ ap (λ b. if b then w.tx else record w.tx { delayed = put w.tx.delayed n db.empty })
            fresh in
      let (w1, apply, h3) =
        >>=_inv (validate_and_apply db e (record w { tx = tx0 }) w.pb.block.transactions) _ h2 in
      let (w2, maintain, end) = >>=_inv (apply_maintenance db e w1) _ h3 in
      let u0 = start (record w { tx = base }) p q r s in
      let u1 =
        transactions_Undoable db e debug base w.pb.block w.pb.height w.pb.block.transactions
          (record w { tx = base }) w1 u0
          (ap (λ z. validate_and_apply db e (record w { tx = z }) w.pb.block.transactions)
              (sym tx0_base)
            ∙ apply) in
      (
        w2,
        ground arith,
        maintenance_Undoable debug base w.pb.block w.pb.height w1 w2 ahead u1 maintain,
        ok_injective end,
      )
