-- ===== src/Types/Subsidy.antt =====
-- The coinbase and the subsidies of types/block.go. Block heights are uint64, and wrap.
pub mod Supply
use hyperspace.Common.{
  ℕ, ◌+◌, ◌*◌, ◌/◌, List, [], ◌∷◌, ◌==◌, leb, if◌then◌else◌, add64, sub64, mul64,
}
use hyperspace.Types.Currency.{Currency, add, sub}
use hyperspace.Types.Transaction.{Transaction, Block, add_each}
use hyperspace.Types.Constants.{
  Constants, siacoin_precision, first_coinbase, second_coinbase, initial_coinbase, airdrop_value,
  developer_airdrop_value, contributor_airdrop_value, pool_airdrop_value, dev_fund_denom,
}

abbrev pub initial_siacoins : Currency
initial_siacoins =
    airdrop_value + developer_airdrop_value + contributor_airdrop_value + pool_airdrop_value

-- The inner loop over a transaction's fees, inside the loop over the transactions.
unfoldable pub add_fees : Currency → List Transaction → Currency
add_fees fees [] = fees
add_fees fees (t ∷ ts) = add_fees (add_each (λ fee. fee) fees t.miner_fees) ts

unfoldable pub calculate_miner_fees : Block → Currency
calculate_miner_fees b = add_fees 0 b.transactions

module _ (k : Constants) where
  -- The coinbase from the third block on.
  unfoldable pub late_coinbase : ℕ → Currency
  unfolding sub
  late_coinbase height =
      let base : Currency = initial_coinbase * siacoin_precision in
      let deducted : Currency = mul64 (sub64 height 3) 2 * siacoin_precision / 10 in
      let minimum : Currency = k.minimum_coinbase * siacoin_precision in
      if leb base deducted
      then minimum
      else if leb (sub base deducted) minimum
      then minimum
      else sub base deducted

  unfoldable pub calculate_coinbase : ℕ → Currency
  unfolding late_coinbase
  calculate_coinbase height =
      if height == 0
      then 0
      else if height == 1
      then first_coinbase * siacoin_precision
      else if height == 2
      then second_coinbase * siacoin_precision
      else late_coinbase height

  -- The blocks over which the coinbase falls.
  abbrev pub deflation_blocks : ℕ
  deflation_blocks = mul64 (sub64 initial_coinbase k.minimum_coinbase) 5

  unfoldable pub late_num_siacoins : ℕ → Currency
  late_num_siacoins height =
      let founder_siacoins : Currency = (first_coinbase + second_coinbase) * siacoin_precision in
      let average : Currency = (calculate_coinbase 3 + calculate_coinbase height) / 2 in
      if leb (sub64 height 3) deflation_blocks
      then initial_siacoins + founder_siacoins + average * add64 (sub64 height 3) 1
      else initial_siacoins
        + founder_siacoins
        + average * add64 deflation_blocks 1
        + sub64 (sub64 height 3) deflation_blocks * calculate_coinbase height

  unfoldable pub calculate_num_siacoins : ℕ → Currency
  unfolding late_num_siacoins
  calculate_num_siacoins height =
      if height == 0
      then initial_siacoins
      else if height == 1
      then initial_siacoins + first_coinbase * siacoin_precision
      else if height == 2
      then initial_siacoins + (first_coinbase + second_coinbase) * siacoin_precision
      else late_num_siacoins height

  unfoldable pub calculate_subsidies : Block → ℕ → Currency × Currency
  unfolding sub add
  calculate_subsidies b height =
      if height == 0
      then (0, 0)
      else if height == 1
      then (first_coinbase * siacoin_precision, 0)
      else if height == 2
      then (second_coinbase * siacoin_precision, 0)
      else (let coinbase = calculate_coinbase height in
          let dev_subsidy : Currency = coinbase / dev_fund_denom in
          (add (sub coinbase dev_subsidy) (calculate_miner_fees b), dev_subsidy))
