-- ===== src/Consensus/Undo/Missed.antt =====
-- What the missed proofs of a block record (applyMissedStorageProof of
-- modules/consensus/maintenance.go).
use hyperspace.Common.{
  ℕ, suc, List, [], ◌∷◌, ◌≡◌, ◌≢◌, refl, sym, ap, ◌∙◌, subst, true, false, not, add64, none, some,
  is_some, Option-cases, inl, inr, ok, arith, All, All-append, >>=_inv, ok_injective,
}
use hyperspace.Types.Transaction.{SiacoinOutput, FileContract}
use hyperspace.Database.{Bolt}
use hyperspace.Consensus.State.{
  diff_apply, diff_revert, FileContractDiff, DelayedSiacoinOutputDiff, Tx, Env, sanity_inv,
  sanity_next,
}
use hyperspace.Consensus.Diffs.{commit_file_contract_diff}
use hyperspace.Consensus.Store.{remove_file_contract}
use hyperspace.Consensus.Apply.{Work, record_fcd, found_or_zero, zero_contract}
use hyperspace.Consensus.Maintenance.{
  missed_outputs_from, apply_missed_storage_proof, missed_proofs,
}
use hyperspace.Consensus.Undo.Contracts
use hyperspace.Consensus.Undo.Transaction.{found_inv}

module _ (db : Bolt) (e : Env) (debug : e.debug ≡ true) where
  open db use {Bucket, get, put, delete}

  -- What the diffs of a missed proof are like.
  abbrev pub IsPayout : Work db → DelayedSiacoinOutputDiff → Type 0
  IsPayout w d =
      (d.direction ≡ diff_apply)
      × (d.maturity_height ≡ add64 w.pb.height e.constants.maturity_delay)

  abbrev pub IsRemoval : Bucket FileContract → FileContractDiff → Type 0
  IsRemoval contracts d = (d.direction ≡ diff_revert) × (get contracts d.id ≡ some d.file_contract)

  payouts_of :
      (w : Work db) (fcid i : ℕ) (mpos : List SiacoinOutput)
      (dscods : List DelayedSiacoinOutputDiff)
      → missed_outputs_from db e w fcid i mpos ≡ ok dscods
      → All (IsPayout w) dscods
  unfolding missed_outputs_from
  payouts_of w fcid i [] dscods h = subst (All (IsPayout w)) {x = []} (ok_injective h) tt
  payouts_of w fcid i (mpo ∷ mpos) dscods h =
      let (rest, run, end) =
        >>=_inv (missed_outputs_from db e w fcid (suc i) mpos) _ (sanity_next _ _ _ _ h) in
      let d : DelayedSiacoinOutputDiff = record {
        direction = diff_apply;
        id = e.crypto.storage_proof_output_id fcid false i;
        siacoin_output = mpo;
        maturity_height = add64 w.pb.height e.constants.maturity_delay;
      } in
      subst (All (IsPayout w)) {x = d ∷ rest} (ok_injective end)
        ((refl, refl), payouts_of w fcid (suc i) mpos rest run)

  missed_proof :
      (w : Work db) (fcid : ℕ) (m : List DelayedSiacoinOutputDiff × FileContractDiff)
      → apply_missed_storage_proof db e w fcid ≡ ok m
      → All (IsPayout w) m.0 × IsRemoval w.tx.file_contracts m.1 × (m.1.id ≡ fcid)
  unfolding apply_missed_storage_proof
  missed_proof w fcid m h =
      let (fc, found, h1) =
        >>=_inv (found_or_zero db e (get w.tx.file_contracts fcid) zero_contract) _ h in
      let present = found_inv db e (get w.tx.file_contracts fcid) zero_contract fc debug found in
      let (dscods, run, end) =
        >>=_inv (missed_outputs_from db e w fcid 0 fc.missed_proof_outputs) _
          (sanity_next _ _ _ _ h1) in
      let fcd : FileContractDiff = record {
        direction = diff_revert;
        id = fcid;
        file_contract = fc;
      } in
      subst (λ z. All (IsPayout w) z.0 × IsRemoval w.tx.file_contracts z.1 × (z.1.id ≡ fcid))
        {x = (dscods, fcd)} (ok_injective end)
        (payouts_of w fcid 0 fc.missed_proof_outputs dscods run, (refl, present), refl)

  pub collected :
      (w : Work db) (ps : List (ℕ × Unit {0}))
      (m : List DelayedSiacoinOutputDiff × List FileContractDiff)
      → missed_proofs db e w ps ≡ ok m
      → All (IsPayout w) m.0
        × All (IsRemoval w.tx.file_contracts) m.1
        × ((k : ℕ)
            → All (λ (d : FileContractDiff). d.id ≢ k) m.1
            → All (λ (p : ℕ × Unit {0}). p.0 ≢ k) ps)
  unfolding missed_proofs
  collected w [] m h =
      let same = ok_injective h in
      (
        subst (λ (z : List DelayedSiacoinOutputDiff × List FileContractDiff). All (IsPayout w) z.0)
            same tt,
        subst
            (λ (z : List DelayedSiacoinOutputDiff × List FileContractDiff).
              All (IsRemoval w.tx.file_contracts) z.1)
            same tt,
        λ k a. tt,
      )
  collected w ((id, u) ∷ ps) m h =
      let (first, run, h1) = >>=_inv (apply_missed_storage_proof db e w id) _ h in
      let (others, more, end) = >>=_inv (missed_proofs db e w ps) _ h1 in
      let (paid, removal, same_id) = missed_proof w id first run in
      let (paid', removals, ids) = collected w ps others more in
      let same = ok_injective end in
      (
        subst (λ (z : List DelayedSiacoinOutputDiff × List FileContractDiff). All (IsPayout w) z.0)
            same (All-append (IsPayout w) first.0 others.0 paid paid'),
        subst
            (λ (z : List DelayedSiacoinOutputDiff × List FileContractDiff).
              All (IsRemoval w.tx.file_contracts) z.1)
            same (removal, removals),
        λ k a.
            let a' =
              subst
                (λ (z : List DelayedSiacoinOutputDiff × List FileContractDiff).
                  All (λ (d : FileContractDiff). d.id ≢ k) z.1)
                (sym same) a in
            (λ p. a'.0 (same_id ∙ p), ids k a'.1),
      )

  removed_present :
      (tx tx' : Tx db) (id : ℕ)
      → get tx.file_contracts id ≡ none
      → remove_file_contract db e tx id ≡ ok tx'
      → true ≡ false
  unfolding remove_file_contract
  removed_present tx tx' id p commit =
      let (present, h1) =
        sanity_inv e.debug (not (is_some (get tx.file_contracts id))) _ _ debug commit in
      ground (arith, p)

  -- Taking a contract out.
  pub erased :
      (w w' : Work db) (id : ℕ) (fc : FileContract)
      → record_fcd db e w (record { direction = diff_revert; id = id; file_contract = fc }) ≡ ok w'
      → (old : FileContract) × (get w.tx.file_contracts id ≡ some old)
        × (w'.tx.file_contracts ≡ delete w.tx.file_contracts id)
  unfolding record_fcd commit_file_contract_diff
  erased w w' id fc h =
      let (tx', commit, end) = >>=_inv (remove_file_contract db e w.tx id) _ h in
      elim (Option-cases (get w.tx.file_contracts id)) [
        | inl p ↦ let gone = removed_present w.tx tx' id p commit in cc
        | inr q ↦
            let (b, bucket, after) = Contracts.removed db e w.tx tx' id q.0 q.1 commit in
            (
              q.0,
              q.1,
              ap (λ (z : Work db). z.tx.file_contracts) (sym (ok_injective end))
                  ∙ ap (λ (z : Tx db). z.file_contracts) after,
            )
      ]
