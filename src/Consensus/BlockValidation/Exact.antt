-- ===== src/Consensus/BlockValidation/Exact.antt =====
-- What ValidateBlock accepts, and what its last error means (modules/consensus/block_validation.go).
use hyperspace.Common.{
  ℕ, ◌+◌, ◌<◌, ◌≤◌, ◌≡◌, ◌≢◌, ◌↔◌, refl, [], length, Bool, true, false, not, ltb, leb, guard, ◌>>◌,
  guard_sound, ok, err, add64, u64_mod, arith,
}
use hyperspace.Common.Result.{Result}
use hyperspace.Types.Transaction.{Block}
use hyperspace.Types.Constants.{Constants}
use hyperspace.Types.Subsidy.{calculate_subsidies}
use hyperspace.Types.Target.{Target}
use hyperspace.Types.Standalone.{block_size_limit}
use hyperspace.Types.Encoding.{marshal_block}
use hyperspace.Consensus.State.{
  Error, bad_miner_payouts, early_timestamp, extreme_future_timestamp, future_timestamp,
  large_block, block_unsolved,
}
use hyperspace.Consensus.BlockValidation.{validate_block, check_miner_payouts}
use hyperspace.Consensus.BlockValidation.Payouts.{IsShared, check_miner_payouts_iff}

-- The rules for a block at a height from 3 on.
pub record IsValidBlock (k : Constants) (now : ℕ) (b : Block) (id min_timestamp : ℕ)
    (target : Target) (height : ℕ) : Type 0 where
  pub not_early : min_timestamp ≤ b.timestamp
  pub solved : id ≤ target
  pub fits : length (marshal_block b []) ≤ block_size_limit
  pub not_extreme : b.timestamp ≤ add64 now k.extreme_future_threshold
  pub shared :
      IsShared b.miner_payouts (calculate_subsidies k b height).0 (calculate_subsidies k b height).1
  pub not_future : b.timestamp ≤ add64 now k.future_threshold

module _ (k : Constants) where
  validate_block_sound :
      (now : ℕ) (b : Block) (id min_timestamp : ℕ) (target : Target) (n : ℕ)
      → validate_block k now b id min_timestamp target (n + 3) ≡ ok tt
      → IsValidBlock k now b id min_timestamp target (n + 3)
  unfolding validate_block
  validate_block_sound now b id min_timestamp target n h =
      let (p1, h1) = guard_sound (not (ltb b.timestamp min_timestamp)) early_timestamp _ h in
      let (p2, h2) = guard_sound (leb id target) block_unsolved _ h1 in
      let (p3, h3) =
        guard_sound (not (ltb block_size_limit (length (marshal_block b [])))) large_block _ h2 in
      let (p4, h4) =
        guard_sound (not (ltb (add64 now k.extreme_future_threshold) b.timestamp))
          extreme_future_timestamp _ h3 in
      let (p5, h5) = guard_sound (check_miner_payouts k b (n + 3)) bad_miner_payouts _ h4 in
      record {
        not_early = ground arith;
        solved = ground arith;
        fits = ground arith;
        not_extreme = ground arith;
        shared = (check_miner_payouts_iff k b n).0 p5;
        not_future = ground arith;
      }

  validate_block_complete :
      (now : ℕ) (b : Block) (id min_timestamp : ℕ) (target : Target) (n : ℕ)
      → IsValidBlock k now b id min_timestamp target (n + 3)
      → validate_block k now b id min_timestamp target (n + 3) ≡ ok tt
  unfolding validate_block
  validate_block_complete now b id min_timestamp target n v = ground (
    arith,
    v.not_early,
    v.solved,
    v.fits,
    v.not_extreme,
    (check_miner_payouts_iff k b n).1 v.shared,
    v.not_future,
  )

  -- At a height from 3 on, ValidateBlock returns nil exactly for the blocks that keep the rules: late
  -- enough, solved, within the size limit, not from the future, payouts above zero that share out the
  -- subsidies.
  pub validate_block_iff :
      (now : ℕ) (b : Block) (id min_timestamp : ℕ) (target : Target) (n : ℕ)
      → (validate_block k now b id min_timestamp target (n + 3) ≡ ok tt)
        ↔ IsValidBlock k now b id min_timestamp target (n + 3)
  validate_block_iff now b id min_timestamp target n = (
    validate_block_sound now b id min_timestamp target n,
    validate_block_complete now b id min_timestamp target n,
  )

  guard_err :
      (b : Bool) (e f : Error) (next : Result Error (Unit {0}))
      → e ≢ f
      → (guard b e >> next) ≡ err f
      → (b ≡ true) × (next ≡ err f)
  guard_err true e f next ne h = (refl, h)
  guard_err false e f next ne h = elim (ne cc) [ ]

  -- A block that ValidateBlock rejects with errFutureTimestamp is accepted, at any height, once the
  -- clock has come near enough to its timestamp (for thresholds in their order that do not wrap).
  pub validate_block-future :
      (now later : ℕ) (b : Block) (id min_timestamp : ℕ) (target : Target) (height : ℕ)
      → validate_block k now b id min_timestamp target height ≡ err future_timestamp
      → k.future_threshold ≤ k.extreme_future_threshold
      → later + k.extreme_future_threshold < u64_mod
      → b.timestamp ≤ later + k.future_threshold
      → validate_block k later b id min_timestamp target height ≡ ok tt
  unfolding validate_block
  validate_block-future now later b id min_timestamp target height h order room near =
      let (p1, h1) =
        guard_err (not (ltb b.timestamp min_timestamp)) early_timestamp future_timestamp _ (λ p. cc)
          h in
      let (p2, h2) = guard_err (leb id target) block_unsolved future_timestamp _ (λ p. cc) h1 in
      let (p3, h3) =
        guard_err (not (ltb block_size_limit (length (marshal_block b [])))) large_block
          future_timestamp _ (λ p. cc) h2 in
      let (p4, h4) =
        guard_err (not (ltb (add64 now k.extreme_future_threshold) b.timestamp))
          extreme_future_timestamp future_timestamp _ (λ p. cc) h3 in
      let (p5, h5) =
        guard_err (check_miner_payouts k b height) bad_miner_payouts future_timestamp _ (λ p. cc)
          h4 in
      rw p1 (rw p2 (rw p3 (rw p5 (ground arith))))
