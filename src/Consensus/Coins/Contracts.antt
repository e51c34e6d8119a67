-- ===== src/Consensus/Coins/Contracts.antt =====
-- The coins of the contracts that a transaction opens, and of those that it proves
-- (modules/consensus/applytransaction.go), in a debug build.
use hyperspace.Common.{
  ℕ, suc, ◌+◌, ◌≡◌, inl, inr, sym, ap, ◌∙◌, subst, List, [], ◌∷◌, true, some, map, sum, ok, arith,
  All, Bool-cases, ◌==◌, >>=_inv, ok_injective, fold_result,
}
use hyperspace.Types.Transaction.{FileContract, StorageProof, Transaction}
use hyperspace.Types.Sums.{coins}
use hyperspace.Database.{Bolt}
use hyperspace.Consensus.State.{Env}
use hyperspace.Consensus.Apply.{
  Work, record_fcd, found_or_zero, zero_contract, apply_contracts_from, apply_valid_outputs_from,
  apply_storage_proof,
}
use hyperspace.Consensus.Undo.Transaction.{found_inv}
use hyperspace.Consensus.Coins.{
  contracts_of, HasCoins, IsFunded, Moved, Moved-trans, Moved-net, Moved-refl,
}
use hyperspace.Consensus.Coins.Moves.{open_contract, close_contract, only_one}
use hyperspace.Consensus.Coins.Outputs.{valid_outputs_loop}

abbrev pub payouts : List FileContract → ℕ
payouts fcs = sum (map (λ (fc : FileContract). fc.payout) fcs)

module _ (db : Bolt) where
  open db use {Bucket, get, put, delete}

  -- The contracts that are there stay, with their coins.
  abbrev pub Stay : Bucket FileContract → Bucket FileContract → Type 0
  Stay b b' = (id : ℕ) (fc : FileContract) → get b id ≡ some fc → get b' id ≡ some fc

  pub put-Funded :
      (b : Bucket FileContract) (id : ℕ) (fc : FileContract)
      → IsFunded db b
      → HasCoins fc
      → IsFunded db (put b id fc)
  put-Funded b id fc f g k x h = elim (Bool-cases (id == k)) [
    | inl hit ↦ subst HasCoins {x = fc} {y = x} (ground (arith, db.get-put b id fc k)) g
    | inr miss ↦ f k x (ground (arith, db.get-put b id fc k))
  ]

  pub delete-Funded : (b : Bucket FileContract) (id : ℕ) → IsFunded db b → IsFunded db (delete b id)
  delete-Funded b id f k x h = f k x (ground (arith, db.get-delete b id k))

module _ (db : Bolt) (e : Env) (debug : e.debug ≡ true) where
  open db use {Bucket, get, put, delete}

  pub contracts_loop :
      (t : Transaction) (i : ℕ) (fcs : List FileContract) (w w' : Work db)
      → All HasCoins fcs
      → IsFunded db (contracts_of w)
      → apply_contracts_from db e t i w fcs ≡ ok w'
      → Moved db w w' (payouts fcs) 0
        × IsFunded db (contracts_of w')
        × Stay db (contracts_of w) (contracts_of w')
  unfolding apply_contracts_from
  contracts_loop t i [] w w' g f h =
      subst
        (λ z.
          Moved db w z 0 0
          × IsFunded db (contracts_of z)
          × Stay db (contracts_of w) (contracts_of z))
        (ok_injective h) (Moved-refl db w, f, λ id fc p. p)
  contracts_loop t i (fc ∷ fcs) w w' g f h =
      let (w1, run, rest) = >>=_inv (record_fcd db e w _) _ h in
      let o = open_contract db e debug w w1 (e.crypto.file_contract_id t i) fc run in
      let funded =
        subst (IsFunded db) (sym o.contracts)
          (put-Funded db (contracts_of w) (e.crypto.file_contract_id t i) fc f g.0) in
      let (m, f', stay) = contracts_loop t (suc i) fcs w1 w' g.1 funded rest in
      (
        Moved-trans db w w1 w' fc.payout 0 (payouts fcs) 0 o.moved m,
        f',
        λ id x p. stay id x (
            ground (
              arith,
              p,
              o.fresh,
              db.get-put (contracts_of w) (e.crypto.file_contract_id t i) fc id,
              ap (λ b. get b id) o.contracts,
            )),
      )

  proof_round :
      (w w' : Work db) (sp : StorageProof)
      → IsFunded db (contracts_of w)
      → apply_storage_proof db e w sp ≡ ok w'
      → Moved db w w' 0 0 × IsFunded db (contracts_of w')
  unfolding apply_storage_proof
  proof_round w w' sp f h =
      let id = sp.parent_id in
      let (fc, found, h1) =
        >>=_inv (found_or_zero db e (get (contracts_of w) id) zero_contract) _ h in
      let there = found_inv db e (get (contracts_of w) id) zero_contract fc debug found in
      let (w1, payments, removal) =
        >>=_inv (apply_valid_outputs_from db e id 0 w fc.valid_proof_outputs) _ h1 in
      let (m, same) = valid_outputs_loop db e debug id 0 fc.valid_proof_outputs w w1 payments in
      let c =
        close_contract db e debug w1 w' id fc
          (only_one db e debug (contracts_of w1) id fc (ap (λ b. get b id) same ∙ there)) removal in
      (
        Moved-net db w w' (coins fc.valid_proof_outputs + 0) (0 + fc.payout) 0 0
            (omega (arith, (f id fc there).0))
            (Moved-trans db w w1 w' (coins fc.valid_proof_outputs) 0 0 fc.payout m c.moved),
        subst (IsFunded db) (sym (c.contracts ∙ ap (λ b. delete b id) same))
            (delete-Funded db (contracts_of w) id f),
      )

  pub proofs_loop :
      (sps : List StorageProof) (w w' : Work db)
      → IsFunded db (contracts_of w)
      → fold_result (apply_storage_proof db e) w sps ≡ ok w'
      → Moved db w w' 0 0 × IsFunded db (contracts_of w')
  proofs_loop [] w w' f h =
      subst (λ z. Moved db w z 0 0 × IsFunded db (contracts_of z)) (ok_injective h)
        (Moved-refl db w, f)
  proofs_loop (sp ∷ sps) w w' f h =
      let (w1, run, rest) = >>=_inv (apply_storage_proof db e w sp) _ h in
      let (m, f1) = proof_round w w1 sp f run in
      let (m', f') = proofs_loop sps w1 w' f1 rest in (Moved-trans db w w1 w' 0 0 0 0 m m', f')
