-- ===== src/Consensus/Difficulty.antt =====
-- modules/consensus/difficulty.go: the Oak difficulty adjustment. An int64 is its bit pattern, a number
-- below 2 ^ 64, which is negative from 2 ^ 63 on; its arithmetic wraps.
pub mod Clamps
use hyperspace.Common.{
  ℕ, ◌+◌, ◌*◌, ◌/◌, ◌%◌, ◌^◌, Bool, true, false, ◌&&◌, Option, none, some, ltb, leb, ◌==◌,
  if◌then◌else◌, ok, ◌>>=◌, or_err, add64, sub64, mul64, u64_mod,
}
use hyperspace.Types.Currency.{Currency, add, div, mul, is_zero}
use hyperspace.Types.Constants.{Constants}
use hyperspace.Types.Target.{
  Target, Rat, root_depth, inv, rat_to_target, add_difficulties, mul_difficulty, difficulty,
}
use hyperspace.Database.{Bolt}
use hyperspace.Consensus.State.{Act, panics, division_by_zero, slice_bounds_out_of_range}

-- What the build fixes of the adjustment.
pub record OakRules : Type 0 where
  pub standard_release : Bool
  pub max_rise : Rat
  pub max_drop : Rat

abbrev pub standard_oak : OakRules
standard_oak = record {
  standard_release = true;
  max_rise = record { num = 1004; denom = 1000 };
  max_drop = record { num = 1000; denom = 1004 };
}

abbrev pub is_negative : ℕ → Bool
is_negative x = leb (2 ^ 63) x

-- `x < y` of int64.
abbrev pub less : ℕ → ℕ → Bool
less x y = ltb (add64 x (2 ^ 63)) (add64 y (2 ^ 63))

-- `x / d` of int64 for a positive d, which rounds to zero.
abbrev pub quotient : ℕ → ℕ → ℕ
quotient x d = if is_negative x then sub64 0 (sub64 0 x / d) else x / d

-- `Target{0, 0, 0, 0, 0, 0, 0, 40}`
abbrev pub launch_target : Target
launch_target = 40 * 256 ^ 24

module _ (k : Constants) (oak : OakRules) where
  unfoldable pub block_shift : ℕ → ℕ → ℕ
  block_shift parent_height parent_timestamp =
      let expected_time = add64 (mul64 k.block_frequency parent_height) k.genesis_timestamp in
      let delta = sub64 expected_time parent_timestamp in
      let square = mul64 delta delta in
      quotient (if is_negative delta then sub64 0 square else square) 10000000

  abbrev pub at_least : ℕ → ℕ → ℕ
  at_least bound time = if less time bound then bound else time

  abbrev pub at_most : ℕ → ℕ → ℕ
  at_most bound time = if less bound time then bound else time

  abbrev pub not_zero : ℕ → ℕ
  not_zero time = if time == 0 then 1 else time

  -- The block time to aim at, clamped.
  unfoldable pub target_block_time : ℕ → ℕ
  target_block_time shift = not_zero (
      at_most (mul64 k.block_frequency k.oak_max_block_shift) (
        at_least (quotient k.block_frequency k.oak_max_block_shift)
          (add64 k.block_frequency shift)))

  -- At least one hash a second, over a time of at least a second.
  unfoldable pub visible_hashrate : ℕ → Target → Act Currency
  visible_hashrate parent_total_time parent_total_target = do
    rate ←
        or_err
          (div (difficulty parent_total_target)
            (if less parent_total_time 1 then 1 else parent_total_time))
          (panics division_by_zero)
    ok (if is_zero rate then add rate 1 else rate)

  abbrev pub clamp : Target → Target → Target → Target
  clamp max_new_target min_new_target new_target =
      let risen = if ltb new_target max_new_target then max_new_target else new_target in
      if ltb min_new_target risen then min_new_target else risen

  unfoldable pub adjusted_target : Target → ℕ → Currency → Act Target
  adjusted_target current_target block_time hashrate = do
    max_new_target ← or_err (mul_difficulty current_target oak.max_rise) (panics division_by_zero)
    min_new_target ← or_err (mul_difficulty current_target oak.max_drop) (panics division_by_zero)
    frac ←
        or_err (inv (record { num = mul hashrate block_time; denom = root_depth }))
          (panics division_by_zero)
    ok (clamp max_new_target min_new_target (rat_to_target frac))

  unfoldable pub child_target_oak : ℕ → Target → Target → ℕ → ℕ → Act Target
  unfolding block_shift target_block_time visible_hashrate adjusted_target
  child_target_oak parent_total_time parent_total_target current_target parent_height
        parent_timestamp =
      if parent_height == 7 && oak.standard_release
      then ok launch_target
      else (visible_hashrate parent_total_time parent_total_target >>= λ hashrate.
          adjusted_target current_target
            (target_block_time (block_shift parent_height parent_timestamp)) hashrate)

  unfoldable pub new_totals : ℕ → ℕ → ℕ → Target → Target → Act (ℕ × Target)
  new_totals prev_total_time parent_timestamp current_timestamp prev_total_target
        target_of_current_block =
      do
        decayed ←
            or_err
              (mul_difficulty prev_total_target
                (record { num = k.oak_decay_num; denom = k.oak_decay_denom }))
              (panics division_by_zero)
        total ← or_err (add_difficulties decayed target_of_current_block) (panics division_by_zero)
        ok (
          add64 (quotient (mul64 prev_total_time k.oak_decay_num) k.oak_decay_denom)
              (sub64 current_timestamp parent_timestamp),
          total,
        )

  module _ (db : Bolt) where
    -- The bucket of the totals, by block id.
    abbrev pub OakBucket : Type 0
    OakBucket = db.Bucket (ℕ × Target)

    -- A missing entry is a slice of nil.
    unfoldable pub get_block_totals : OakBucket → ℕ → Act (ℕ × Target)
    get_block_totals bucket id = or_err (db.get bucket id) (panics slice_bounds_out_of_range)

    unfoldable pub store_block_totals :
        OakBucket → ℕ → ℕ → ℕ → ℕ → Target → Target → Act (ℕ × Target × OakBucket)
    unfolding new_totals
    store_block_totals bucket current_block_id prev_total_time parent_timestamp current_timestamp
          prev_total_target target_of_current_block =
        do
          (time, target) ←
              new_totals prev_total_time parent_timestamp current_timestamp prev_total_target
                target_of_current_block
          ok (time, target, db.put bucket current_block_id (time, target))
