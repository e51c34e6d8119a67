-- ===== src/Consensus/Undo/Transaction.antt =====
-- A block under way stays undoable while its transactions are applied
-- (modules/consensus/applytransaction.go).
use hyperspace.Common.{
  ℕ, suc, List, [], ◌∷◌, ◌≡◌, refl, sym, ap, ◌∙◌, subst, true, false, Option, none, some, ok,
  >>=_inv, ok_injective, fold_keeps, All-any,
}
use hyperspace.Types.Transaction.{
  SiacoinInput, SiacoinOutput, FileContract, FileContractRevision, StorageProof, Transaction, Block,
}
use hyperspace.Database.{Bolt}
use hyperspace.Consensus.State.{
  diff_apply, diff_revert, SiacoinOutputDiff, FileContractDiff, DelayedSiacoinOutputDiff, Tx, Env,
  sanity_inv,
}
use hyperspace.Consensus.Diffs.{commit_delayed_siacoin_output_diff}
use hyperspace.Consensus.Valid.{valid_transaction}
use hyperspace.Consensus.Apply.{
  Work, record_scod, record_fcd, record_dscod, found_or_zero, zero_output, zero_contract,
  apply_siacoin_input, apply_siacoin_inputs, apply_outputs_from, apply_siacoin_outputs,
  apply_contracts_from, apply_file_contracts, apply_file_contract_revision,
  apply_file_contract_revisions, apply_valid_outputs_from, apply_storage_proof,
  apply_storage_proofs, apply_transaction,
}
use hyperspace.Consensus.Generate.{validate_and_apply}
use hyperspace.Consensus.Undo.Delayed
use hyperspace.Consensus.Undo.Record.{
  Undoable, record_scod-Undoable, record_fcd-Undoable, record_dscod-Undoable,
}

-- A debug build goes on only with what it found.
pub found_inv :
    (db : Bolt) (e : Env) {A : Type 0} (o : Option A) (zero a : A)
    → e.debug ≡ true
    → found_or_zero db e o zero ≡ ok a
    → o ≡ some a
unfolding found_or_zero
found_inv db e none zero a debug h = let (impossible, h1) = sanity_inv _ _ _ _ debug h in cc
found_inv db e (some b) zero a debug h = ap some (ok_injective h)

module _ (db : Bolt) (e : Env) (debug : e.debug ≡ true) (base : Tx db) (block : Block)
    (height : ℕ) where
  pub dscod-contracts :
      (w w' : Work db) (d : DelayedSiacoinOutputDiff)
      → Delayed.IsHonest db e w.tx d
      → record_dscod db e w d ≡ ok w'
      → w'.tx.file_contracts ≡ w.tx.file_contracts
  unfolding record_dscod
  dscod-contracts w w' d honest h =
      let (tx', run, end) =
        >>=_inv (commit_delayed_siacoin_output_diff db e diff_apply w.tx d) _ h in
      let (b, b', bucket, after, undo) = Delayed.commit_Done db e debug w.tx tx' d honest run in
      ap (λ (z : Work db). z.tx.file_contracts) (sym (ok_injective end))
      ∙ ap (λ (z : Tx db). z.file_contracts) after

  abbrev U : Work db → Type 0
  U = Undoable db e base block height false

  input_round :
      (w w' : Work db) (x : SiacoinInput) → U w → apply_siacoin_input db e w x ≡ ok w' → U w'
  unfolding apply_siacoin_input
  input_round w w' x u h =
      let (sco, found, h1) =
        >>=_inv (found_or_zero db e (db.get w.tx.siacoin_outputs x.parent_id) zero_output) _ h in
      let present =
        found_inv db e (db.get w.tx.siacoin_outputs x.parent_id) zero_output sco debug found in
      record_scod-Undoable db e debug base block height false w w' _ u (λ _. present) h1

  outputs_loop :
      (t : Transaction) (i : ℕ) (scos : List SiacoinOutput) (w w' : Work db)
      → U w
      → apply_outputs_from db e t i w scos ≡ ok w'
      → U w'
  unfolding apply_outputs_from
  outputs_loop t i [] w w' u h = subst U (ok_injective h) u
  outputs_loop t i (sco ∷ scos) w w' u h =
      let d : SiacoinOutputDiff = record {
        direction = diff_apply;
        id = e.crypto.siacoin_output_id t i;
        siacoin_output = sco;
      } in
      let (w1, run, rest) = >>=_inv (record_scod db e w d) _ h in
      outputs_loop t (suc i) scos w1 w'
        (record_scod-Undoable db e debug base block height false w w1 d u (λ p. cc) run) rest

  contracts_loop :
      (t : Transaction) (i : ℕ) (fcs : List FileContract) (w w' : Work db)
      → U w
      → apply_contracts_from db e t i w fcs ≡ ok w'
      → U w'
  unfolding apply_contracts_from
  contracts_loop t i [] w w' u h = subst U (ok_injective h) u
  contracts_loop t i (fc ∷ fcs) w w' u h =
      let d : FileContractDiff = record {
        direction = diff_apply;
        id = e.crypto.file_contract_id t i;
        file_contract = fc;
      } in
      let (w1, run, rest) = >>=_inv (record_fcd db e w d) _ h in
      contracts_loop t (suc i) fcs w1 w'
        (record_fcd-Undoable db e debug base block height false w w1 d u (λ p. cc) run) rest

  revision_round :
      (w w' : Work db) (x : FileContractRevision)
      → U w
      → apply_file_contract_revision db e w x ≡ ok w'
      → U w'
  unfolding apply_file_contract_revision
  revision_round w w' x u h =
      let (fc, found, h1) =
        >>=_inv (found_or_zero db e (db.get w.tx.file_contracts x.parent_id) zero_contract) _ h in
      let present =
        found_inv db e (db.get w.tx.file_contracts x.parent_id) zero_contract fc debug found in
      let old : FileContractDiff = record {
        direction = diff_revert;
        id = x.parent_id;
        file_contract = fc;
      } in
      let (w1, run, rest) = >>=_inv (record_fcd db e w old) _ h1 in
      record_fcd-Undoable db e debug base block height false w1 w' _
        (record_fcd-Undoable db e debug base block height false w w1 old u (λ _. present) run)
        (λ p. cc) rest

  valid_outputs_loop :
      (fcid i : ℕ) (vpos : List SiacoinOutput) (w w' : Work db)
      → U w
      → apply_valid_outputs_from db e fcid i w vpos ≡ ok w'
      → U w' × (w'.tx.file_contracts ≡ w.tx.file_contracts)
  unfolding apply_valid_outputs_from
  valid_outputs_loop fcid i [] w w' u h =
      subst (λ z. U z × (z.tx.file_contracts ≡ w.tx.file_contracts)) (ok_injective h) (u, refl)
  valid_outputs_loop fcid i (vpo ∷ vpos) w w' u h =
      let (w1, run, rest) = >>=_inv (record_dscod db e w _) _ h in
      let (u', same) =
        valid_outputs_loop fcid (suc i) vpos w1 w'
          (record_dscod-Undoable db e debug base block height false w w1 _ u (λ p. cc) (λ p. cc)
            run)
          rest in
      (u', same ∙ dscod-contracts w w1 _ (λ p. cc) run)

  proof_round :
      (w w' : Work db) (x : StorageProof) → U w → apply_storage_proof db e w x ≡ ok w' → U w'
  unfolding apply_storage_proof
  proof_round w w' x u h =
      let (fc, found, h1) =
        >>=_inv (found_or_zero db e (db.get w.tx.file_contracts x.parent_id) zero_contract) _ h in
      let present =
        found_inv db e (db.get w.tx.file_contracts x.parent_id) zero_contract fc debug found in
      let (w1, run, rest) =
        >>=_inv (apply_valid_outputs_from db e x.parent_id 0 w fc.valid_proof_outputs) _ h1 in
      let (u1, same) = valid_outputs_loop x.parent_id 0 fc.valid_proof_outputs w w1 u run in
      record_fcd-Undoable db e debug base block height false w1 w' _ u1
        (λ _. ap (λ c. db.get c x.parent_id) same ∙ present) rest

  transaction_Undoable :
      (t : Transaction) (w w' : Work db) → U w → apply_transaction db e w t ≡ ok w' → U w'
  unfolding apply_transaction apply_siacoin_inputs apply_siacoin_outputs apply_file_contracts
      apply_file_contract_revisions apply_storage_proofs
  transaction_Undoable t w w' u h =
      let (w1, r1, h1) = >>=_inv (apply_siacoin_inputs db e w t) _ h in
      let (w2, r2, h2) = >>=_inv (apply_siacoin_outputs db e w1 t) _ h1 in
      let (w3, r3, h3) = >>=_inv (apply_file_contracts db e w2 t) _ h2 in
      let (w4, r4, h4) = >>=_inv (apply_file_contract_revisions db e w3 t) _ h3 in
      let u1 =
        fold_keeps U (λ _. Unit {0}) (apply_siacoin_input db e) (λ s s' x _. input_round s s' x)
          t.siacoin_inputs (All-any t.siacoin_inputs) w w1 u r1 in
      let u2 = outputs_loop t 0 t.siacoin_outputs w1 w2 u1 r2 in
      let u3 = contracts_loop t 0 t.file_contracts w2 w3 u2 r3 in
      let u4 =
        fold_keeps U (λ _. Unit {0}) (apply_file_contract_revision db e)
          (λ s s' x _. revision_round s s' x) t.file_contract_revisions
          (All-any t.file_contract_revisions) w3 w4 u3 r4 in
      fold_keeps U (λ _. Unit {0}) (apply_storage_proof db e) (λ s s' x _. proof_round s s' x)
        t.storage_proofs (All-any t.storage_proofs) w4 w' u4 h4

  pub transactions_Undoable :
      (ts : List Transaction) (w w' : Work db)
      → Undoable db e base block height false w
      → validate_and_apply db e w ts ≡ ok w'
      → Undoable db e base block height false w'
  unfolding validate_and_apply
  transactions_Undoable [] w w' u h = subst U (ok_injective h) u
  transactions_Undoable (t ∷ ts) w w' u h =
      let (_, valid, h1) = >>=_inv (valid_transaction db e w.tx t) _ h in
      let (w1, run, rest) = >>=_inv (apply_transaction db e w t) _ h1 in
      transactions_Undoable ts w1 w' (transaction_Undoable t w w1 u run) rest
