-- ===== src/Consensus/Coins/Revisions.antt =====
-- The coins of a contract stay the same through its revisions (modules/consensus/applytransaction.go
-- and validtransaction.go), in a debug build.
use hyperspace.Common.{
  ℕ, ◌+◌, ◌≡◌, inl, inr, sym, ap, ◌∙◌, subst, List, [], ◌∷◌, true, some, ok, arith, All, Bool-cases,
  ◌==◌, ==_iff, >>=_inv, ok_injective, fold_result, guard_sound, or_err_sound, leb, ltb,
}
use hyperspace.Types.Transaction.{FileContract, FileContractRevision}
use hyperspace.Types.Sums.{coins, coins-add_each}
use hyperspace.Types.Currency.{equals, cmp}
use hyperspace.Consensus.Store.{get_file_contract}
use hyperspace.Database.{Bolt}
use hyperspace.Consensus.State.{
  Tx, Env, returns, nil_item, late_revision, low_revision_number, wrong_unlock_conditions,
}
use hyperspace.Consensus.Valid.{valid_file_contract_revision}
use hyperspace.Consensus.Apply.{
  Work, record_fcd, found_or_zero, zero_contract, revised, apply_file_contract_revision,
}
use hyperspace.Consensus.Undo.Transaction.{found_inv}
use hyperspace.Consensus.Coins.{contracts_of, IsFunded, Moved, Moved-trans, Moved-net, Moved-refl}
use hyperspace.Consensus.Coins.Moves.{open_contract, close_contract, only_one}
use hyperspace.Consensus.Coins.Contracts.{put-Funded, delete-Funded}

module _ (db : Bolt) where
  open db use {Bucket, get, put, delete}

  -- A revision of a contract of the state that keeps its coins.
  abbrev pub Revises : Bucket FileContract → FileContractRevision → Type 0
  Revises base fcr =
      (fc : FileContract) × (get base fcr.parent_id ≡ some fc)
      × (coins fcr.new_valid_proof_outputs ≡ fc.payout)
      × (coins fcr.new_missed_proof_outputs ≡ fc.payout)

  -- The contracts of the state that are still there have their payouts.
  abbrev pub SamePayouts : Bucket FileContract → Bucket FileContract → Type 0
  SamePayouts base b =
      (id : ℕ) (fc0 fc : FileContract)
      → get base id ≡ some fc0
      → get b id ≡ some fc
      → fc.payout ≡ fc0.payout

module _ (db : Bolt) (e : Env) (debug : e.debug ≡ true) where
  open db use {Bucket, get, put, delete}

  revision_round :
      (base : Bucket FileContract) (w w' : Work db) (fcr : FileContractRevision)
      → Revises db base fcr
      → IsFunded db (contracts_of w)
      → SamePayouts db base (contracts_of w)
      → apply_file_contract_revision db e w fcr ≡ ok w'
      → Moved db w w' 0 0 × IsFunded db (contracts_of w') × SamePayouts db base (contracts_of w')
  unfolding apply_file_contract_revision
  revision_round base w w' fcr (fc0, known, valid, missed) f same h =
      let id = fcr.parent_id in
      let (fc, found, h1) =
        >>=_inv (found_or_zero db e (get (contracts_of w) id) zero_contract) _ h in
      let there = found_inv db e (get (contracts_of w) id) zero_contract fc debug found in
      let (w1, removal, addition) = >>=_inv (record_fcd db e w _) _ h1 in
      let c =
        close_contract db e debug w w1 id fc (only_one db e debug (contracts_of w) id fc there)
          removal in
      let o = open_contract db e debug w1 w' id (revised db e fcr fc) addition in
      let payout = same id fc0 fc known there in
      let after : contracts_of w' ≡ put (delete (contracts_of w) id) id (revised db e fcr fc) =
        o.contracts ∙ ap (λ b. put b id (revised db e fcr fc)) c.contracts in
      (
        Moved-net db w w' (0 + fc.payout) (fc.payout + 0) 0 0 (omega arith)
            (Moved-trans db w w1 w' 0 fc.payout fc.payout 0 c.moved o.moved),
        subst (IsFunded db) (sym after) (
            put-Funded db (delete (contracts_of w) id) id (revised db e fcr fc)
              (delete-Funded db (contracts_of w) id f) (valid ∙ sym payout, missed ∙ sym payout)),
        subst (SamePayouts db base) (sym after) (λ k x0 x p q. elim (Bool-cases (id == k)) [
          | inl hit ↦
              let seen : revised db e fcr fc ≡ x =
                ground
                  (arith, q, db.get-put (delete (contracts_of w) id) id (revised db e fcr fc) k) in
              let place : id ≡ k = (==_iff id k).0 hit in
              ap (λ (y : FileContract). y.payout) (sym seen)
              ∙ same k x0 fc p (ap (get (contracts_of w)) (sym place) ∙ there)
          | inr miss ↦ same k x0 x p (
              ground (
                arith,
                q,
                db.get-put (delete (contracts_of w) id) id (revised db e fcr fc) k,
                db.get-delete (contracts_of w) id k,
              ))
        ]),
      )

  pub revisions_loop :
      (base : Bucket FileContract) (fcrs : List FileContractRevision) (w w' : Work db)
      → All (Revises db base) fcrs
      → IsFunded db (contracts_of w)
      → SamePayouts db base (contracts_of w)
      → fold_result (apply_file_contract_revision db e) w fcrs ≡ ok w'
      → Moved db w w' 0 0 × IsFunded db (contracts_of w')
  revisions_loop base [] w w' r f same h =
      subst (λ z. Moved db w z 0 0 × IsFunded db (contracts_of z)) (ok_injective h)
        (Moved-refl db w, f)
  revisions_loop base (fcr ∷ fcrs) w w' r f same h =
      let (w1, run, rest) = >>=_inv (apply_file_contract_revision db e w fcr) _ h in
      let (m, f1, same1) = revision_round base w w1 fcr r.0 f same run in
      let (m', f') = revisions_loop base fcrs w1 w' r.1 f1 same1 rest in
      (Moved-trans db w w1 w' 0 0 0 0 m m', f')

  pub revision_sound :
      (tx : Tx db) (fcr : FileContractRevision)
      → IsFunded db tx.file_contracts
      → valid_file_contract_revision db e tx fcr ≡ ok tt
      → Revises db tx.file_contracts fcr
  unfolding valid_file_contract_revision get_file_contract equals cmp
  revision_sound tx fcr f h =
      let (fc, found, h1) =
        or_err_sound (get tx.file_contracts fcr.parent_id) (returns nil_item) _ h in
      let (late, h2) =
        guard_sound (leb tx.block_height fc.window_start) (returns late_revision) _ h1 in
      let (low, h3) =
        guard_sound (ltb fc.revision_number fcr.new_revision_number) (returns low_revision_number) _
          h2 in
      let (unlocked, h4) =
        guard_sound (e.crypto.unlock_hash fcr.unlock_conditions == fc.unlock_hash)
          (returns wrong_unlock_conditions) _ h3 in
      let old = coins-add_each fc.valid_proof_outputs in
      let funded = (f fcr.parent_id fc found).0 in
      (
        fc,
        found,
        ground (arith, old, funded, coins-add_each fcr.new_valid_proof_outputs),
        ground (arith, old, funded, coins-add_each fcr.new_missed_proof_outputs),
      )
