-- ===== src/Consensus/Undo/Record.antt =====
-- A block under way: its diffs so far undo what it has done to the database so far.
use hyperspace.Common.{
  ℕ, List, ◌≡◌, ◌≢◌, refl, sym, ap, ◌∙◌, subst, Bool, true, false, none, ok, arith, >>=_inv,
  ok_injective,
}
use hyperspace.Types.Transaction.{SiacoinOutput, FileContract, Block}
use hyperspace.Database.{Bolt}
use hyperspace.Consensus.State.{
  diff_apply, diff_revert, SiacoinOutputDiff, FileContractDiff, DelayedSiacoinOutputDiff, Tx, Env,
}
use hyperspace.Consensus.Diffs.{
  commit_siacoin_output_diff, commit_file_contract_diff, commit_delayed_siacoin_output_diff,
}
use hyperspace.Consensus.Apply.{Work, record_scod, record_fcd, record_dscod}
use hyperspace.Consensus.Undo.{release, IsScheduled, Reverts, Reverts-snoc}
use hyperspace.Consensus.Undo.Outputs
use hyperspace.Consensus.Undo.Contracts
use hyperspace.Consensus.Undo.Delayed

module _ (db : Bolt) where
  open db use {Bucket, get, put, delete}

  -- The delayed outputs, with the bucket of the height as it was before it was deleted.
  abbrev pub reopened : Bool → ℕ → Bucket (Bucket SiacoinOutput) → Bucket (Bucket SiacoinOutput)
  reopened true h delayed = put delayed h db.empty
  reopened false h delayed = delayed

  reopened-get :
      (closed : Bool) (h k : ℕ) (D : Bucket (Bucket SiacoinOutput))
      → (closed ≡ true → k ≢ h)
      → get (reopened closed h D) k ≡ get D k
  reopened-get true h k D ne = ground (arith, db.get-put D h db.empty k, ne refl)
  reopened-get false h k D ne = refl

  reopened-put :
      (closed : Bool) (h k : ℕ) (D : Bucket (Bucket SiacoinOutput)) (b : Bucket SiacoinOutput)
      → (closed ≡ true → k ≢ h)
      → reopened closed h (put D k b) ≡ put (reopened closed h D) k b
  reopened-put true h k D b ne = db.ext _ _ (λ j. ground (
    arith,
    ne refl,
    db.get-put (put D k b) h db.empty j,
    db.get-put D k b j,
    db.get-put (put D h db.empty) k b j,
    db.get-put D h db.empty j,
  ))
  reopened-put false h k D b ne = refl

  module _ (e : Env) where
    abbrev pub OutputsRevert :
        List SiacoinOutputDiff → Bucket SiacoinOutput → Bucket SiacoinOutput → Type 0
    OutputsRevert =
        Reverts (commit_siacoin_output_diff db (release e) diff_revert) (Outputs.Sees db e)
          (Outputs.Frame db e)

    abbrev pub ContractsRevert :
        List FileContractDiff → Bucket FileContract → Bucket FileContract → Type 0
    ContractsRevert =
        Reverts (commit_file_contract_diff db (release e) diff_revert) (Contracts.Sees db e)
          (Contracts.Frame db e)

    abbrev pub DelayedRevert :
        List DelayedSiacoinOutputDiff
        → Bucket (Bucket SiacoinOutput)
        → Bucket (Bucket SiacoinOutput)
        → Type 0
    DelayedRevert =
        Reverts (commit_delayed_siacoin_output_diff db (release e) diff_revert) (Delayed.Sees db e)
          (Delayed.Frame db e)

    -- `closed` says whether the delayed outputs of the height have been dealt with.
    pub record Undoable (base : Tx db) (block : Block) (height : ℕ) (closed : Bool) (w : Work db)
        : Type 0 where
      pub outputs :
          OutputsRevert w.pb.siacoin_output_diffs w.tx.siacoin_outputs base.siacoin_outputs
      pub contracts :
          ContractsRevert w.pb.file_contract_diffs w.tx.file_contracts base.file_contracts
      pub delayed :
          DelayedRevert w.pb.delayed_siacoin_output_diffs
            (reopened closed height w.tx.delayed)
            base.delayed
      pub shut : closed ≡ true → get w.tx.delayed height ≡ none
      pub scheduled : IsScheduled db w.tx.file_contracts w.tx.expirations
      pub path : w.tx.block_path ≡ base.block_path
      pub at_height : w.tx.block_height ≡ base.block_height
      pub same_map : w.tx.block_map ≡ base.block_map
      pub same_block : w.pb.block ≡ block
      pub same_height : w.pb.height ≡ height

    module _ (debug : e.debug ≡ true) (base : Tx db) (block : Block) (height : ℕ)
        (closed : Bool) where
      pub record_scod-Undoable :
          (w w' : Work db) (d : SiacoinOutputDiff)
          → Undoable base block height closed w
          → Outputs.IsHonest db e w.tx d
          → record_scod db e w d ≡ ok w'
          → Undoable base block height closed w'
      unfolding record_scod
      record_scod-Undoable w w' d u honest h =
          let (tx', run, end) = >>=_inv (commit_siacoin_output_diff db e diff_apply w.tx d) _ h in
          let back = sym (Outputs.commit_Frame db e w.tx tx' d run) in
          subst (Undoable base block height closed) (ok_injective end) (record {
            outputs =
                Reverts-snoc (commit_siacoin_output_diff db (release e) diff_revert)
                  (Outputs.Sees db e) (Outputs.Frame db e) (Outputs.Frame-trans db e)
                  w.pb.siacoin_output_diffs d tx'.siacoin_outputs w.tx.siacoin_outputs
                  base.siacoin_outputs (Outputs.undo_output db e debug w.tx tx' d honest run)
                  u.outputs;
            contracts =
                subst
                  (λ (z : Tx db).
                    ContractsRevert w.pb.file_contract_diffs z.file_contracts base.file_contracts)
                  back u.contracts;
            delayed =
                subst
                  (λ (z : Tx db).
                    DelayedRevert w.pb.delayed_siacoin_output_diffs
                      (reopened closed height z.delayed) base.delayed)
                  back u.delayed;
            scheduled =
                subst (λ (z : Tx db). IsScheduled db z.file_contracts z.expirations) back
                  u.scheduled;
            shut = subst (λ (z : Tx db). closed ≡ true → get z.delayed height ≡ none) back u.shut;
            path = subst (λ (z : Tx db). z.block_path ≡ base.block_path) back u.path;
            at_height = subst (λ (z : Tx db). z.block_height ≡ base.block_height) back u.at_height;
            same_map = subst (λ (z : Tx db). z.block_map ≡ base.block_map) back u.same_map;
            same_block = u.same_block;
            same_height = u.same_height;
          })

      pub record_fcd-Undoable :
          (w w' : Work db) (d : FileContractDiff)
          → Undoable base block height closed w
          → Contracts.IsHonest db e w.tx d
          → record_fcd db e w d ≡ ok w'
          → Undoable base block height closed w'
      unfolding record_fcd
      record_fcd-Undoable w w' d u honest h =
          let (tx', run, end) = >>=_inv (commit_file_contract_diff db e diff_apply w.tx d) _ h in
          let (scheduled, frame) =
            Contracts.commit_keeps_schedule db e debug w.tx tx' d honest run u.scheduled in
          let back = sym frame in
          subst (Undoable base block height closed) (ok_injective end) (record {
            outputs =
                subst
                  (λ (z : Tx db).
                    OutputsRevert w.pb.siacoin_output_diffs z.siacoin_outputs base.siacoin_outputs)
                  back u.outputs;
            contracts =
                Reverts-snoc (commit_file_contract_diff db (release e) diff_revert)
                  (Contracts.Sees db e) (Contracts.Frame db e) (Contracts.Frame-trans db e)
                  w.pb.file_contract_diffs d tx'.file_contracts w.tx.file_contracts
                  base.file_contracts (Contracts.undo_contract db e debug w.tx tx' d honest run)
                  u.contracts;
            delayed =
                subst
                  (λ (z : Tx db).
                    DelayedRevert w.pb.delayed_siacoin_output_diffs
                      (reopened closed height z.delayed) base.delayed)
                  back u.delayed;
            scheduled = scheduled;
            shut = subst (λ (z : Tx db). closed ≡ true → get z.delayed height ≡ none) back u.shut;
            path = subst (λ (z : Tx db). z.block_path ≡ base.block_path) back u.path;
            at_height = subst (λ (z : Tx db). z.block_height ≡ base.block_height) back u.at_height;
            same_map = subst (λ (z : Tx db). z.block_map ≡ base.block_map) back u.same_map;
            same_block = u.same_block;
            same_height = u.same_height;
          })

      pub record_dscod-Undoable :
          (w w' : Work db) (d : DelayedSiacoinOutputDiff)
          → Undoable base block height closed w
          → Delayed.IsHonest db e w.tx d
          → (closed ≡ true → d.maturity_height ≢ height)
          → record_dscod db e w d ≡ ok w'
          → Undoable base block height closed w'
      unfolding record_dscod
      record_dscod-Undoable w w' d u honest ahead h =
          let (tx', run, end) =
            >>=_inv (commit_delayed_siacoin_output_diff db e diff_apply w.tx d) _ h in
          let (b, b', bucket, after, undo) = Delayed.commit_Done db e debug w.tx tx' d honest run in
          let back = sym after in
          let shown : reopened closed height tx'.delayed
              ≡ put (reopened closed height w.tx.delayed) d.maturity_height b' =
            ap (λ (z : Tx db). reopened closed height z.delayed) after
            ∙ reopened-put closed height d.maturity_height w.tx.delayed b' ahead in
          subst (Undoable base block height closed) (ok_injective end) (record {
            outputs =
                subst
                  (λ (z : Tx db).
                    OutputsRevert w.pb.siacoin_output_diffs z.siacoin_outputs base.siacoin_outputs)
                  back u.outputs;
            contracts =
                subst
                  (λ (z : Tx db).
                    ContractsRevert w.pb.file_contract_diffs z.file_contracts base.file_contracts)
                  back u.contracts;
            delayed =
                Reverts-snoc (commit_delayed_siacoin_output_diff db (release e) diff_revert)
                  (Delayed.Sees db e) (Delayed.Frame db e) (Delayed.Frame-trans db e)
                  w.pb.delayed_siacoin_output_diffs d (reopened closed height tx'.delayed)
                  (reopened closed height w.tx.delayed) base.delayed
                  (λ s' sees.
                    undo (reopened closed height w.tx.delayed)
                      (reopened-get closed height d.maturity_height w.tx.delayed ahead ∙ bucket) s'
                      (sees ∙ shown))
                  u.delayed;
            scheduled =
                subst (λ (z : Tx db). IsScheduled db z.file_contracts z.expirations) back
                  u.scheduled;
            shut =
                subst (λ (z : Tx db). closed ≡ true → get z.delayed height ≡ none) back
                  (λ c. ground (
                    arith,
                    db.get-put w.tx.delayed d.maturity_height b' height,
                    u.shut c,
                    ahead c,
                  ));
            path = subst (λ (z : Tx db). z.block_path ≡ base.block_path) back u.path;
            at_height = subst (λ (z : Tx db). z.block_height ≡ base.block_height) back u.at_height;
            same_map = subst (λ (z : Tx db). z.block_map ≡ base.block_map) back u.same_map;
            same_block = u.same_block;
            same_height = u.same_height;
          })
