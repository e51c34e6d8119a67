-- ===== src/Consensus/BlockValidation.antt =====
-- modules/consensus/block_validation.go and block_rules.go: what a block must satisfy before it is
-- looked at in its context. The clock is an argument, and a block's size is that of its encoding.
pub mod Payouts
pub mod Exact
pub mod Median
use hyperspace.Common.{
  ℕ, zero, suc, ◌*◌, List, [], ◌∷◌, length, get_elem?, Bool, true, false, not, ◌&&◌, Option, none,
  some, leb, ltb, ◌==◌, if◌then◌else◌, ok, ◌>>=◌, ◌>>◌, guard, or_err, add64,
}
use hyperspace.Common.Result.{Result}
use hyperspace.Types.Currency.{Currency, equals, is_zero}
use hyperspace.Types.Transaction.{SiacoinOutput, Block, add_each, value_of}
use hyperspace.Types.Constants.{
  Constants, siacoin_precision, first_coinbase, second_coinbase, dev_fund_unlock_hash,
}
use hyperspace.Types.Standalone.{block_size_limit}
use hyperspace.Types.Subsidy.{calculate_subsidies}
use hyperspace.Types.Target.{Target}
use hyperspace.Types.Encoding.{marshal_block}
use hyperspace.Consensus.State.{
  Act, panics, slice_bounds_out_of_range, Error, bad_miner_payouts, early_timestamp,
  extreme_future_timestamp, future_timestamp, large_block, block_unsolved,
}

abbrev pub median_timestamp_window : ℕ
median_timestamp_window = 11

-- What a look at the bytes of a block in the bucket finds: the parent's id and the timestamp.
abbrev pub Ancestors : Type 0
Ancestors = ℕ → Option (ℕ × ℕ)

-- The timestamps of the ancestors; after the genesis block, whose parent is the zero id, its own is
-- repeated. A missing block panics.
unfoldable pub window_times : Ancestors → ℕ → ℕ → ℕ → Act (List ℕ)
window_times ancestors zero parent_id last = ok []
window_times ancestors (suc left) parent_id last = elim (parent_id == 0) [
  | true ↦ window_times ancestors left parent_id last >>= λ times. ok (last ∷ times)
  | false ↦ or_err (ancestors parent_id) (panics slice_bounds_out_of_range) >>= λ found.
      window_times ancestors left found.0 found.1 >>= λ times. ok (found.1 ∷ times)
]

-- sort.Sort.
abbrev pub insert : ℕ → List ℕ → List ℕ
insert t [] = t ∷ []
insert t (u ∷ us) = if leb t u then t ∷ u ∷ us else u ∷ insert t us

abbrev pub sort : List ℕ → List ℕ
sort [] = []
sort (t ∷ ts) = insert t (sort ts)

-- The median of the block's timestamp and those before it.
unfoldable pub minimum_valid_child_timestamp : Ancestors → ℕ → ℕ → Act ℕ
unfolding window_times
minimum_valid_child_timestamp ancestors parent_id block_timestamp = do
  times ← window_times ancestors 10 parent_id block_timestamp
  or_err (get_elem? (sort (block_timestamp ∷ times)) 5) (panics slice_bounds_out_of_range)

-- Both of the first blocks have one payout, of a fixed value.
abbrev pub one_payout : List SiacoinOutput → Currency → Bool
one_payout [] coinbase = false
one_payout (payout ∷ []) coinbase = equals payout.value coinbase
one_payout (payout ∷ more ∷ payouts) coinbase = false

-- All payouts but the last, and the last, which is the dev fund's.
abbrev pub init_last : SiacoinOutput → List SiacoinOutput → List SiacoinOutput × SiacoinOutput
init_last x [] = ([], x)
init_last x (y ∷ ys) = (x ∷ (init_last y ys).0, (init_last y ys).1)

abbrev pub none_zero : List SiacoinOutput → Bool
none_zero [] = true
none_zero (payout ∷ payouts) = not (is_zero payout.value) && none_zero payouts

abbrev pub check_shares : List SiacoinOutput × SiacoinOutput → Currency × Currency → Bool
check_shares (miners, dev) (miner_subsidy, dev_subsidy) =
    none_zero miners
    && (equals dev.value dev_subsidy
        && (dev.unlock_hash == dev_fund_unlock_hash
            && equals miner_subsidy (add_each value_of 0 miners)))

abbrev pub two_payouts : List SiacoinOutput → Currency × Currency → Bool
two_payouts [] subsidies = false
two_payouts (payout ∷ []) subsidies = false
two_payouts (payout ∷ more ∷ payouts) subsidies =
    check_shares (init_last payout (more ∷ payouts)) subsidies

module _ (k : Constants) where
  unfoldable pub check_miner_payouts : Block → ℕ → Bool
  check_miner_payouts b height =
      if height == 1
      then one_payout b.miner_payouts (first_coinbase * siacoin_precision)
      else if height == 2
      then one_payout b.miner_payouts (second_coinbase * siacoin_precision)
      else two_payouts b.miner_payouts (calculate_subsidies k b height)

  -- Arrays of equal width compare as the numbers that they spell.
  abbrev pub check_target : ℕ → Target → Bool
  check_target id target = leb id target

  unfoldable pub validate_block : ℕ → Block → ℕ → ℕ → Target → ℕ → Result Error (Unit {0})
  unfolding check_miner_payouts
  validate_block now b id min_timestamp target height = do
    guard (not (ltb b.timestamp min_timestamp)) early_timestamp
    guard (check_target id target) block_unsolved
    guard (not (ltb block_size_limit (length (marshal_block b [])))) large_block
    guard (not (ltb (add64 now k.extreme_future_threshold) b.timestamp)) extreme_future_timestamp
    guard (check_miner_payouts b height) bad_miner_payouts
    guard (not (ltb (add64 now k.future_threshold) b.timestamp)) future_timestamp
