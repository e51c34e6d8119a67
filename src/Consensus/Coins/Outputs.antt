-- ===== src/Consensus/Coins/Outputs.antt =====
-- The coins of the inputs and the outputs that a transaction, or a storage proof of it, applies
-- (modules/consensus/applytransaction.go), in a debug build.
use hyperspace.Common.{
  ℕ, suc, ◌+◌, ◌≡◌, refl, ap, ◌∙◌, subst, List, [], ◌∷◌, true, some, ok, arith, >>=_inv,
  ok_injective, fold_result,
}
use hyperspace.Types.Transaction.{SiacoinInput, SiacoinOutput, Transaction}
use hyperspace.Types.Sums.{coins}
use hyperspace.Database.{Bolt}
use hyperspace.Consensus.State.{Tx, Env}
use hyperspace.Consensus.Valid.Coins.{SpendsEach}
use hyperspace.Consensus.Apply.{
  Work, record_scod, record_dscod, found_or_zero, zero_output, apply_siacoin_input,
  apply_outputs_from, apply_valid_outputs_from,
}
use hyperspace.Consensus.Undo.Transaction.{found_inv}
use hyperspace.Consensus.Coins.{contracts_of, Moved, Moved-trans, Moved-refl}
use hyperspace.Consensus.Coins.Moves.{add_output, take_output}
use hyperspace.Consensus.Coins.Delays.{delay_output}

module _ (db : Bolt) (e : Env) (debug : e.debug ≡ true) where
  open db use {Bucket, get, put, delete}

  pub inputs_loop :
      (base : Tx db) (scis : List SiacoinInput) (scos : List SiacoinOutput)
      → SpendsEach db e base scis scos
      → (w w' : Work db)
      → ((k : ℕ) (v : SiacoinOutput)
          → get w.tx.siacoin_outputs k ≡ some v
          → get base.siacoin_outputs k ≡ some v)
      → fold_result (apply_siacoin_input db e) w scis ≡ ok w'
      → Moved db w w' 0 (coins scos) × (contracts_of w' ≡ contracts_of w)
  unfolding apply_siacoin_input
  inputs_loop base [] [] s w w' within h =
      subst (λ z. Moved db w z 0 0 × (contracts_of z ≡ contracts_of w)) (ok_injective h)
        (Moved-refl db w, refl)
  inputs_loop base [] (sco ∷ scos) s w w' within h = cc
  inputs_loop base (sci ∷ scis) [] s w w' within h = cc
  inputs_loop base (sci ∷ scis) (sco ∷ scos) s w w' within h =
      let (w1, round, rest) = >>=_inv (apply_siacoin_input db e w sci) _ h in
      let (x, found, run) =
        >>=_inv (found_or_zero db e (get w.tx.siacoin_outputs sci.parent_id) zero_output) _ round in
      let there =
        found_inv db e (get w.tx.siacoin_outputs sci.parent_id) zero_output x debug found in
      let same : x ≡ sco = ground (arith, within sci.parent_id x there, s.0) in
      let t = take_output db e debug w w1 sci.parent_id x there run in
      let (m, c) =
        inputs_loop base scis scos s.1 w1 w'
          (λ k v p. within k v (
            ground (
              arith,
              db.get-delete w.tx.siacoin_outputs sci.parent_id k,
              ap (λ b. get b k) t.outputs,
            )))
          rest in
      (
        subst (λ (z : SiacoinOutput). Moved db w w' 0 (z.value + coins scos)) same
            (Moved-trans db w w1 w' 0 x.value 0 (coins scos) t.moved m),
        c ∙ t.contracts,
      )

  pub outputs_loop :
      (t : Transaction) (i : ℕ) (scos : List SiacoinOutput) (w w' : Work db)
      → apply_outputs_from db e t i w scos ≡ ok w'
      → Moved db w w' (coins scos) 0 × (contracts_of w' ≡ contracts_of w)
  unfolding apply_outputs_from
  outputs_loop t i [] w w' h =
      subst (λ z. Moved db w z 0 0 × (contracts_of z ≡ contracts_of w)) (ok_injective h)
        (Moved-refl db w, refl)
  outputs_loop t i (sco ∷ scos) w w' h =
      let (w1, run, rest) = >>=_inv (record_scod db e w _) _ h in
      let a = add_output db e debug w w1 (e.crypto.siacoin_output_id t i) sco run in
      let (m, c) = outputs_loop t (suc i) scos w1 w' rest in
      (Moved-trans db w w1 w' sco.value 0 (coins scos) 0 a.moved m, c ∙ a.contracts)

  pub valid_outputs_loop :
      (fcid i : ℕ) (scos : List SiacoinOutput) (w w' : Work db)
      → apply_valid_outputs_from db e fcid i w scos ≡ ok w'
      → Moved db w w' (coins scos) 0 × (contracts_of w' ≡ contracts_of w)
  unfolding apply_valid_outputs_from
  valid_outputs_loop fcid i [] w w' h =
      subst (λ z. Moved db w z 0 0 × (contracts_of z ≡ contracts_of w)) (ok_injective h)
        (Moved-refl db w, refl)
  valid_outputs_loop fcid i (sco ∷ scos) w w' h =
      let (w1, run, rest) = >>=_inv (record_dscod db e w _) _ h in
      let a =
        delay_output db e debug w w1 _ (e.crypto.storage_proof_output_id fcid true i) sco run in
      let (m, c) = valid_outputs_loop fcid (suc i) scos w1 w' rest in
      (Moved-trans db w w1 w' sco.value 0 (coins scos) 0 a.moved m, c ∙ a.contracts)
