-- ===== src/Consensus/Valid/Coins.antt =====
-- What validSiacoins accepts.
use hyperspace.Common.{
  ◌+◌, ◌≡◌, List, [], ◌∷◌, true, false, some, map, sum, ◌==◌, ok, arith, >>=_inv, guard_sound,
  or_err_sound, ok_injective,
}
use hyperspace.Types.Currency.{Currency, add, equals, cmp}
use hyperspace.Types.Transaction.{
  SiacoinInput, SiacoinOutput, FileContract, Transaction, add_each, value_of, siacoin_output_sum,
}
use hyperspace.Types.Sums.{coins, add_each-sum}
use hyperspace.Database.{Bolt}
use hyperspace.Consensus.State.{Tx, Env, returns, missing_siacoin_output, wrong_unlock_conditions}
use hyperspace.Consensus.Valid.{sum_inputs, valid_siacoins}

module _ (db : Bolt) (e : Env) (tx : Tx db) where
  -- The output that an input spends, unlocked by the conditions of the input.
  abbrev pub Spends : SiacoinInput → SiacoinOutput → Type 0
  Spends sci sco =
      (db.get tx.siacoin_outputs sci.parent_id ≡ some sco)
      × (e.crypto.unlock_hash sci.unlock_conditions ≡ sco.unlock_hash)

  -- One output for each input, in the same order.
  abbrev pub SpendsEach : List SiacoinInput → List SiacoinOutput → Type 0
  SpendsEach [] [] = Unit {0}
  SpendsEach [] (sco ∷ scos) = true ≡ false
  SpendsEach (sci ∷ scis) [] = true ≡ false
  SpendsEach (sci ∷ scis) (sco ∷ scos) = Spends sci sco × SpendsEach scis scos

  sum_inputs_inv :
      (s : Currency) (scis : List SiacoinInput) (total : Currency)
      → sum_inputs db e tx s scis ≡ ok total
      → (scos : List SiacoinOutput) × SpendsEach scis scos × (total ≡ s + coins scos)
  unfolding sum_inputs add
  sum_inputs_inv s [] total h = ([], tt, omega (arith, ok_injective h))
  sum_inputs_inv s (sci ∷ scis) total h =
      let (sco, found, h1) =
        or_err_sound (db.get tx.siacoin_outputs sci.parent_id) (returns missing_siacoin_output) _
          h in
      let (unlocked, h2) =
        guard_sound (e.crypto.unlock_hash sci.unlock_conditions == sco.unlock_hash)
          (returns wrong_unlock_conditions) _ h1 in
      let (scos, each, total_sum) = sum_inputs_inv (s + sco.value) scis total h2 in
      (sco ∷ scos, ((found, ground arith), each), omega (arith, total_sum))

  -- Where validSiacoins returns nil, every input spends an output of the database under the
  -- conditions that it was locked with, and the coins of these outputs are those of the new outputs,
  -- the payouts of the new contracts and the fees together.
  pub valid_siacoins-balance :
      (t : Transaction)
      → valid_siacoins db e tx t ≡ ok tt
      → (scos : List SiacoinOutput) × SpendsEach t.siacoin_inputs scos
        × (coins scos
            ≡ coins t.siacoin_outputs
              + sum (map (λ (fc : FileContract). fc.payout) t.file_contracts)
              + sum (map (λ fee. fee) t.miner_fees))
  unfolding valid_siacoins equals cmp siacoin_output_sum
  valid_siacoins-balance t h =
      let (total, summed, h1) = >>=_inv (sum_inputs db e tx 0 t.siacoin_inputs) _ h in
      let (scos, each, total_sum) = sum_inputs_inv 0 t.siacoin_inputs total summed in
      let balanced : total ≡ siacoin_output_sum t = ground arith in
      (
        scos,
        each,
        omega (
          arith,
          total_sum,
          balanced,
          add_each-sum value_of 0 t.siacoin_outputs,
          add_each-sum (λ (fc : FileContract). fc.payout) (add_each value_of 0 t.siacoin_outputs)
              t.file_contracts,
          add_each-sum (λ fee. fee)
              (add_each (λ (fc : FileContract). fc.payout) (add_each value_of 0 t.siacoin_outputs)
                t.file_contracts)
              t.miner_fees,
        ),
      )
