-- ===== src/Consensus/Coins/Transactions.antt =====
-- The coins while transactions are applied (modules/consensus/applytransaction.go), in a debug build.
use hyperspace.Common.{
  ℕ, ◌≡◌, refl, sym, ap, ◌∙◌, subst, List, [], ◌∷◌, true, map, sum, ok, err, arith, >>=_inv,
  ok_injective, for_each_sound, All-mono, >>_sound,
}
use hyperspace.Types.Transaction.{Transaction}
use hyperspace.Types.Standalone.{standalone_valid}
use hyperspace.Types.Standalone.Exact.{standalone_valid_iff}
use hyperspace.Database.{Bolt}
use hyperspace.Types.Errors
use hyperspace.Common.Result.{Result}
use hyperspace.Consensus.State.{Env}
use hyperspace.Consensus.Valid.{
  valid_transaction, valid_file_contract_revision, valid_siacoins, valid_file_contract_revisions,
  valid_storage_proofs, check_standalone,
}
use hyperspace.Consensus.Valid.Coins.{valid_siacoins-balance}
use hyperspace.Consensus.Apply.{
  Work, apply_siacoin_inputs, apply_siacoin_outputs, apply_file_contracts,
  apply_file_contract_revisions, apply_storage_proofs, apply_transaction,
}
use hyperspace.Consensus.Generate.{validate_and_apply}
use hyperspace.Consensus.Coins.{contracts_of, IsFunded, Moved, Moved-trans, Moved-net, Moved-refl}
use hyperspace.Consensus.Coins.Outputs.{inputs_loop, outputs_loop}
use hyperspace.Consensus.Coins.Contracts.{contracts_loop, proofs_loop}
use hyperspace.Consensus.Coins.Revisions.{SamePayouts, revisions_loop, revision_sound}

standalone_passes : (r : Result Errors.Error (Unit {0})) → check_standalone r ≡ ok tt → r ≡ ok tt
standalone_passes (ok u) h = refl
standalone_passes (err failure) h = cc

module _ (db : Bolt) (e : Env) (debug : e.debug ≡ true) where
  open db use {Bucket, get, put, delete}

  abbrev fees : Transaction → ℕ
  fees t = sum t.miner_fees

  sum-map_same : (xs : List ℕ) → sum (map (λ x. x) xs) ≡ sum xs
  sum-map_same [] = refl
  sum-map_same (x ∷ xs) = omega (arith, sum-map_same xs)

  transaction_coins :
      (t : Transaction) (w w' : Work db)
      → IsFunded db (contracts_of w)
      → valid_transaction db e w.tx t ≡ ok tt
      → apply_transaction db e w t ≡ ok w'
      → Moved db w w' 0 (fees t) × IsFunded db (contracts_of w')
  unfolding apply_transaction apply_siacoin_inputs apply_siacoin_outputs apply_file_contracts
      apply_file_contract_revisions apply_storage_proofs valid_transaction
      valid_file_contract_revisions
  transaction_coins t w w' f valid h =
      let (alone, h1) =
        >>_sound (check_standalone (standalone_valid e.crypto t w.tx.block_height)) _ valid in
      let (spends, h2) = >>_sound (valid_siacoins db e w.tx t) _ h1 in
      let (proofs, revisions) = >>_sound (valid_storage_proofs db e w.tx t) _ h2 in
      let rules =
        (standalone_valid_iff e.crypto t w.tx.block_height).0
          (standalone_passes (standalone_valid e.crypto t w.tx.block_height) alone) in
      let (scos, each, balance) = valid_siacoins-balance db e w.tx t spends in
      let (w1, r1, g1) = >>=_inv (apply_siacoin_inputs db e w t) _ h in
      let (w2, r2, g2) = >>=_inv (apply_siacoin_outputs db e w1 t) _ g1 in
      let (w3, r3, g3) = >>=_inv (apply_file_contracts db e w2 t) _ g2 in
      let (w4, r4, g4) = >>=_inv (apply_file_contract_revisions db e w3 t) _ g3 in
      let (m1, c1) = inputs_loop db e debug w.tx t.siacoin_inputs scos each w w1 (λ k v p. p) r1 in
      let (m2, c2) = outputs_loop db e debug t 0 t.siacoin_outputs w1 w2 r2 in
      let still = sym (c2 ∙ c1) in
      let (m3, f3, stay) =
        contracts_loop db e debug t 0 t.file_contracts w2 w3
          (All-mono (λ fc p. (p.2, p.3)) t.file_contracts rules.contracts)
          (subst (IsFunded db) still f) r3 in
      let same : SamePayouts db (contracts_of w) (contracts_of w3) =
        λ id fc0 fc p q. ground (arith, q, stay id fc0 (ap (λ b. get b id) (sym still) ∙ p)) in
      let (m4, f4) =
        revisions_loop db e debug (contracts_of w) t.file_contract_revisions w3 w4
          (All-mono (λ fcr p. revision_sound db e debug w.tx fcr f p) t.file_contract_revisions
            (for_each_sound (valid_file_contract_revision db e w.tx) t.file_contract_revisions
              revisions))
          f3 same r4 in
      let (m5, f5) = proofs_loop db e debug t.storage_proofs w4 w' f4 g4 in
      (
        Moved-net db w w' _ _ 0 (fees t) (omega (arith, balance, sum-map_same t.miner_fees)) (
            Moved-trans db w w1 w' _ _ _ _ m1 (
              Moved-trans db w1 w2 w' _ _ _ _ m2
                (Moved-trans db w2 w3 w' _ _ _ _ m3 (Moved-trans db w3 w4 w' _ _ _ _ m4 m5)))),
        f5,
      )

  -- Each transaction that is validated and applied takes its fees out of the state, and no more.
  pub transactions_coins :
      (ts : List Transaction) (w w' : Work db)
      → IsFunded db w.tx.file_contracts
      → validate_and_apply db e w ts ≡ ok w'
      → Moved db w w' 0 (sum (map (λ (t : Transaction). sum t.miner_fees) ts))
        × IsFunded db w'.tx.file_contracts
  unfolding validate_and_apply
  transactions_coins [] w w' f h =
      subst (λ z. Moved db w z 0 0 × IsFunded db (contracts_of z)) (ok_injective h)
        (Moved-refl db w, f)
  transactions_coins (t ∷ ts) w w' f h =
      let (u, valid, h1) = >>=_inv (valid_transaction db e w.tx t) _ h in
      let (w1, run, rest) = >>=_inv (apply_transaction db e w t) _ h1 in
      let (m, f1) = transaction_coins t w w1 f valid run in
      let (m', f') = transactions_coins ts w1 w' f1 rest in
      (
        Moved-trans db w w1 w' 0 (fees t) 0 (sum (map (λ (t : Transaction). sum t.miner_fees) ts)) m
            m',
        f',
      )
