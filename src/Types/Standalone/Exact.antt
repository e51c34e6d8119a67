-- ===== src/Types/Standalone/Exact.antt =====
-- StandaloneValid of types/validtransaction.go against a declarative reading of its rules.
use hyperspace.Common.{
  ℕ, ◌≤◌, ◌<◌, ◌≡◌, sym, ◌∙◌, ◌⊎◌, ◌↔◌, List, [], ◌++◌, map, not, arith, All, All-mono, Distinct,
  ok, ◌>>=◌, >>=_inv, >>_sound, >>_complete, for_each, for_each_sound, for_each_complete,
  fold_result, guard,
}
use hyperspace.Common.Result.{Result}
use hyperspace.Types.Currency.{is_zero}
use hyperspace.Types.Transaction.{
  SiacoinInput, SiacoinOutput, FileContract, FileContractRevision, StorageProof,
  TransactionSignature, Transaction,
}
use hyperspace.Types.Size.{marshal_sia_size}
use hyperspace.Types.Crypto.{Crypto}
use hyperspace.Types.Errors.{Error, Check, zero_output, zero_miner_fee}
use hyperspace.Types.Signatures.{valid_signatures}
use hyperspace.Types.Signatures.Counts.{IsSigned, valid_signatures_sound}
use hyperspace.Types.Standalone.Repeats.{marks_iff, marks, mark_all-map}
use hyperspace.Types.Standalone.{
  mark_seen, correct_file_contracts, correct_file_contract_revisions, fits_in_a_block,
  follows_minimum_values, follows_storage_proof_rules, no_repeats, valid_unlock_conditions,
  check_timelock, standalone_valid,
}
use hyperspace.Types.Standalone.Windows.{
  IsContract, IsRevision, correct_file_contract_sound, correct_file_contract_complete,
  correct_file_contract_revision_sound, correct_file_contract_revision_complete,
}

-- The rules, read declaratively.
pub record IsStandaloneValid (c : Crypto) (t : Transaction) (height : ℕ) : Type 0 where
  pub fits : marshal_sia_size t ≤ 64000
  pub proofs_alone :
      (t.storage_proofs ≡ [])
      ⊎ ((t.siacoin_outputs ≡ []) × (t.file_contracts ≡ []) × (t.file_contract_revisions ≡ []))
  pub inputs_once : Distinct (map (λ (x : SiacoinInput). x.parent_id) t.siacoin_inputs)
  pub contracts_once : Distinct (
      map (λ (x : StorageProof). x.parent_id) t.storage_proofs
      ++ map (λ (x : FileContractRevision). x.parent_id) t.file_contract_revisions)
  pub outputs_positive : All (λ (o : SiacoinOutput). 0 < o.value) t.siacoin_outputs
  pub payouts_positive : All (λ (fc : FileContract). 0 < fc.payout) t.file_contracts
  pub fees_positive : All (λ fee. 0 < fee) t.miner_fees
  pub contracts : All (IsContract height) t.file_contracts
  pub revisions : All (IsRevision height) t.file_contract_revisions
  pub inputs_unlocked :
      All (λ (x : SiacoinInput). x.unlock_conditions.timelock ≤ height) t.siacoin_inputs
  pub revisions_unlocked :
      All
        (λ (x : FileContractRevision). x.unlock_conditions.timelock ≤ height)
        t.file_contract_revisions
  pub accepted : valid_signatures c t height ≡ ok tt
  pub inputs_signed :
      All (λ (x : SiacoinInput). IsSigned c t x.parent_id x.unlock_conditions) t.siacoin_inputs
  pub revisions_signed :
      All
        (λ (x : FileContractRevision). IsSigned c t x.parent_id x.unlock_conditions)
        t.file_contract_revisions
  pub signatures_unlocked :
      All (λ (sig : TransactionSignature). sig.timelock ≤ height) t.transaction_signatures

-- A loop of guards is passed exactly if every item meets the guard's condition.
module _ {ℓ κ} {A : Type ℓ} (P : A → Type κ) (f : A → Check) (sound : (x : A) → f x ≡ ok tt → P x)
    (complete : (x : A) → P x → f x ≡ ok tt) where
  each_iff : (xs : List A) → (for_each f xs ≡ ok tt) ↔ All P xs
  each_iff xs = (
    λ h. All-mono sound xs (for_each_sound f xs h),
    λ h. for_each_complete f xs (All-mono complete xs h),
  )

module _ (t : Transaction) where
  fits_in_a_block_iff : (fits_in_a_block t ≡ ok tt) ↔ (marshal_sia_size t ≤ 64000)
  unfolding fits_in_a_block
  fits_in_a_block_iff = (λ h. ground arith, λ h. ground arith)

  storage_proof_rules_iff : (follows_storage_proof_rules t ≡ ok tt) ↔ (
      (t.storage_proofs ≡ [])
      ⊎ ((t.siacoin_outputs ≡ []) × (t.file_contracts ≡ []) × (t.file_contract_revisions ≡ [])))
  unfolding follows_storage_proof_rules
  storage_proof_rules_iff = (λ h. ground arith, λ h. ground arith)

  minimum_values_iff : (follows_minimum_values t ≡ ok tt) ↔ (
      All (λ (o : SiacoinOutput). 0 < o.value) t.siacoin_outputs
      × All (λ (fc : FileContract). 0 < fc.payout) t.file_contracts
      × All (λ fee. 0 < fee) t.miner_fees)
  unfolding follows_minimum_values is_zero
  minimum_values_iff = (
    λ h.
        let (p, r) = >>_sound _ _ h in
        let (q, s) = >>_sound _ _ r in (outputs.0 p, payouts.0 q, fees.0 s),
    λ h. >>_complete _ _ (outputs.1 h.0) (>>_complete _ _ (payouts.1 h.1) (fees.1 h.2)),
  )
    where
      outputs :
          (for_each
              (λ (o : SiacoinOutput). guard (not (is_zero o.value)) zero_output)
              t.siacoin_outputs
            ≡ ok tt)
          ↔ All (λ (o : SiacoinOutput). 0 < o.value) t.siacoin_outputs
      outputs = each_iff _ _ (λ o h. ground arith) (λ o h. ground arith) t.siacoin_outputs

      payouts :
          (for_each
              (λ (fc : FileContract). guard (not (is_zero fc.payout)) zero_output)
              t.file_contracts
            ≡ ok tt)
          ↔ All (λ (fc : FileContract). 0 < fc.payout) t.file_contracts
      payouts = each_iff _ _ (λ fc h. ground arith) (λ fc h. ground arith) t.file_contracts

      fees :
          (for_each (λ fee. guard (not (is_zero fee)) zero_miner_fee) t.miner_fees ≡ ok tt)
          ↔ All (λ fee. 0 < fee) t.miner_fees
      fees = each_iff _ _ (λ fee h. ground arith) (λ fee h. ground arith) t.miner_fees

  no_repeats_iff : (no_repeats t ≡ ok tt) ↔ (
      Distinct (map (λ (x : SiacoinInput). x.parent_id) t.siacoin_inputs)
      × Distinct (
          map (λ (x : StorageProof). x.parent_id) t.storage_proofs
          ++ map (λ (x : FileContractRevision). x.parent_id) t.file_contract_revisions))
  unfolding no_repeats
  no_repeats_iff = (
    λ h.
        let (r, p, q) = >>=_inv inputs _ h in
        let (s, u, v) = >>=_inv proofs _ q in
        let (w, x, y) = >>=_inv (revisions s) _ v in
        (
          (marks_iff input_ids).0 r
              (sym (mark_all-map (λ (x : SiacoinInput). x.parent_id) [] t.siacoin_inputs) ∙ p),
          (marks_iff contract_ids).0 w (sym merged ∙ rw u x),
        ),
    λ h.
        let (r, p) = (marks_iff input_ids).1 h.0 in
        let (w, q) = (marks_iff contract_ids).1 h.1 in
        let (s, u, v) = >>=_inv proofs revisions (merged ∙ q) in
        rw (mark_all-map (λ (x : SiacoinInput). x.parent_id) [] t.siacoin_inputs ∙ p, u, v),
  )
    where
      input_ids : List ℕ
      input_ids = map (λ (x : SiacoinInput). x.parent_id) t.siacoin_inputs

      contract_ids : List ℕ
      contract_ids =
          map (λ (x : StorageProof). x.parent_id) t.storage_proofs
          ++ map (λ (x : FileContractRevision). x.parent_id) t.file_contract_revisions

      inputs : Result Error (List ℕ)
      inputs =
          fold_result (λ seen (x : SiacoinInput). mark_seen seen x.parent_id) [] t.siacoin_inputs

      proofs : Result Error (List ℕ)
      proofs =
          fold_result (λ seen (x : StorageProof). mark_seen seen x.parent_id) [] t.storage_proofs

      revisions : List ℕ → Result Error (List ℕ)
      revisions done =
          fold_result (λ seen (x : FileContractRevision). mark_seen seen x.parent_id) done
            t.file_contract_revisions

      merged : (proofs >>= revisions) ≡ fold_result mark_seen [] contract_ids
      merged = marks _ _ [] t.storage_proofs t.file_contract_revisions

  module _ (height : ℕ) where
    contracts_iff :
        (correct_file_contracts t height ≡ ok tt) ↔ All (IsContract height) t.file_contracts
    unfolding correct_file_contracts
    contracts_iff =
        each_iff _ _ (correct_file_contract_sound height) (correct_file_contract_complete height)
          t.file_contracts

    revisions_iff :
        (correct_file_contract_revisions t height ≡ ok tt)
        ↔ All (IsRevision height) t.file_contract_revisions
    unfolding correct_file_contract_revisions
    revisions_iff =
        each_iff _ _ (correct_file_contract_revision_sound height)
          (correct_file_contract_revision_complete height) t.file_contract_revisions

    unlock_conditions_iff : (valid_unlock_conditions t height ≡ ok tt) ↔ (
        All (λ (x : SiacoinInput). x.unlock_conditions.timelock ≤ height) t.siacoin_inputs
        × All
            (λ (x : FileContractRevision). x.unlock_conditions.timelock ≤ height)
            t.file_contract_revisions)
    unfolding valid_unlock_conditions
    unlock_conditions_iff = (
      λ h. let (p, q) = >>_sound _ _ h in (inputs.0 p, revisions.0 q),
      λ h. >>_complete _ _ (inputs.1 h.0) (revisions.1 h.1),
    )
      where
        inputs :
            (for_each
                (λ (x : SiacoinInput). check_timelock height x.unlock_conditions)
                t.siacoin_inputs
              ≡ ok tt)
            ↔ All (λ (x : SiacoinInput). x.unlock_conditions.timelock ≤ height) t.siacoin_inputs
        inputs = each_iff _ _ (λ x h. ground arith) (λ x h. ground arith) t.siacoin_inputs

        revisions :
            (for_each
                (λ (x : FileContractRevision). check_timelock height x.unlock_conditions)
                t.file_contract_revisions
              ≡ ok tt)
            ↔ All
                (λ (x : FileContractRevision). x.unlock_conditions.timelock ≤ height)
                t.file_contract_revisions
        revisions =
            each_iff _ _ (λ x h. ground arith) (λ x h. ground arith) t.file_contract_revisions

-- StandaloneValid returns nil exactly for the transactions that meet every rule: the encoding has at most
-- 64000 bytes; proofs stand alone; no output is spent, and no contract proved or revised, twice;
-- outputs, payouts and fees are positive; contracts and revisions have a future window and balanced
-- payouts; the timelocks have passed; and validSignatures accepts the signatures, so that each input
-- and revision is signed as often as its unlock conditions require, and the signatures with Ed25519
-- keys verify.
pub standalone_valid_iff :
    (c : Crypto) (t : Transaction) (height : ℕ)
    → (standalone_valid c t height ≡ ok tt) ↔ IsStandaloneValid c t height
unfolding standalone_valid
standalone_valid_iff c t height = (
  λ h.
      let (fit, h1) = >>_sound _ _ h in
      let (alone, h2) = >>_sound _ _ h1 in
      let (once, h3) = >>_sound _ _ h2 in
      let (positive, h4) = >>_sound _ _ h3 in
      let (contracts, h5) = >>_sound _ _ h4 in
      let (revisions, h6) = >>_sound _ _ h5 in
      let (unlocked, signed) = >>_sound _ _ h6 in
      let (inputs, revised, late) = valid_signatures_sound c t height signed in
      record {
        fits = (fits_in_a_block_iff t).0 fit;
        proofs_alone = (storage_proof_rules_iff t).0 alone;
        inputs_once = ((no_repeats_iff t).0 once).0;
        contracts_once = ((no_repeats_iff t).0 once).1;
        outputs_positive = ((minimum_values_iff t).0 positive).0;
        payouts_positive = ((minimum_values_iff t).0 positive).1;
        fees_positive = ((minimum_values_iff t).0 positive).2;
        contracts = (contracts_iff t height).0 contracts;
        revisions = (revisions_iff t height).0 revisions;
        inputs_unlocked = ((unlock_conditions_iff t height).0 unlocked).0;
        revisions_unlocked = ((unlock_conditions_iff t height).0 unlocked).1;
        accepted = signed;
        inputs_signed = inputs;
        revisions_signed = revised;
        signatures_unlocked = late;
      },
  λ v. >>_complete _ _ ((fits_in_a_block_iff t).1 v.fits) (
      >>_complete _ _ ((storage_proof_rules_iff t).1 v.proofs_alone) (
        >>_complete _ _ ((no_repeats_iff t).1 (v.inputs_once, v.contracts_once)) (
          >>_complete _ _
            ((minimum_values_iff t).1 (v.outputs_positive, v.payouts_positive, v.fees_positive))
            (>>_complete _ _ ((contracts_iff t height).1 v.contracts) (
              >>_complete _ _ ((revisions_iff t height).1 v.revisions) (
                >>_complete _ _
                  ((unlock_conditions_iff t height).1 (v.inputs_unlocked, v.revisions_unlocked))
                  v.accepted)))))),
)
