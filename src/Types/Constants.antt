-- ===== src/Types/Constants.antt =====
-- types/constants.go: the constants of the consensus rules. Those that its init sets by build.Release
-- are the fields of a record.
use Prim.Native.Nat.{◌^◌}
use hyperspace.Common.{ℕ, ◌*◌, ◌/◌}
use hyperspace.Types.Currency.{Currency}

pub record Constants : Type 0 where
  pub block_frequency : ℕ
  pub maturity_delay : ℕ
  pub genesis_timestamp : ℕ
  pub future_threshold : ℕ
  pub extreme_future_threshold : ℕ
  pub minimum_coinbase : ℕ
  pub oak_decay_num : ℕ
  pub oak_decay_denom : ℕ
  pub oak_max_block_shift : ℕ

abbrev pub standard : Constants
standard = record {
  block_frequency = 600;
  maturity_delay = 144;
  genesis_timestamp = 1532510521;
  future_threshold = 3 * 60 * 60;
  extreme_future_threshold = 5 * 60 * 60;
  minimum_coinbase = 6000;
  oak_decay_num = 995;
  oak_decay_denom = 1000;
  oak_max_block_shift = 3;
}

abbrev pub siacoin_precision : Currency
siacoin_precision = 10 ^ 24

abbrev pub first_coinbase : ℕ
first_coinbase = 2400000000

abbrev pub second_coinbase : ℕ
second_coinbase = 600000000

abbrev pub initial_coinbase : ℕ
initial_coinbase = 60000

-- The divisors of the source are positive constants, so that Div is the quotient.
abbrev pub airdrop_value : Currency
airdrop_value = 35373763032 * siacoin_precision / 10

abbrev pub developer_airdrop_value : Currency
developer_airdrop_value = 54000000 * siacoin_precision * 10

abbrev pub contributor_airdrop_value : Currency
contributor_airdrop_value = 10000000 * siacoin_precision * 6

abbrev pub pool_airdrop_value : Currency
pool_airdrop_value = 2 * initial_coinbase * siacoin_precision * 7

abbrev pub dev_fund_denom : Currency
dev_fund_denom = 10

abbrev pub dev_fund_unlock_hash : ℕ
dev_fund_unlock_hash = 0x7abb6d5fe84f3b5ea89af209492d0615974ec362c541739be5b5d00c1f7445c4
