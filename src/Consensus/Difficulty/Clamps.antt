-- ===== src/Consensus/Difficulty/Clamps.antt =====
-- The clamps of the difficulty adjustment hold (modules/consensus/difficulty.go).
use hyperspace.Common.{
  ℕ, ◌+◌, ◌*◌, ◌^◌, ◌<◌, ◌≤◌, ◌≡◌, ◌≢◌, some, ok, arith, ◌>>=◌, >>=_inv, or_err_sound, ok_injective,
}
use hyperspace.Types.Constants.{standard}
use hyperspace.Types.Target.{
  Target, Rat, root_depth, rat_to_target, int_to_target, mul_difficulty, inverse, inv,
}
use hyperspace.Types.Currency.{mul}
use hyperspace.Consensus.State.{panics, division_by_zero}
use hyperspace.Consensus.Difficulty.{
  standard_oak, target_block_time, adjusted_target, child_target_oak, clamp, visible_hashrate,
  block_shift,
}

-- The block time that the standard rules aim at is between 200 and 1800 seconds, whatever the shift.
pub target_block_time-bounds :
    (shift : ℕ)
    → (200 ≤ target_block_time standard standard_oak shift)
      × (target_block_time standard standard_oak shift ≤ 1800)
unfolding target_block_time
target_block_time-bounds shift = (ground arith, ground arith)

mul_difficulty_inv :
    (x m : Target) (r : Rat)
    → mul_difficulty x r ≡ some m
    → m ≡ rat_to_target (record { num = r.denom * x; denom = r.num })
unfolding mul_difficulty inverse rat_to_target
mul_difficulty_inv x m r h = ground arith

clamp-between :
    (lower upper t : Target)
    → lower ≤ upper
    → (lower ≤ clamp standard standard_oak lower upper t)
      × (clamp standard standard_oak lower upper t ≤ upper)
clamp-between lower upper t h = (ground arith, ground arith)

-- The two limits around a target, as RatToTarget gives them.
limits :
    (x lower upper : Target)
    → x < 2 ^ 256
    → lower ≡ rat_to_target (record { num = 1000 * x; denom = 1004 })
    → upper ≡ rat_to_target (record { num = 1004 * x; denom = 1000 })
    → (lower ≤ upper) × (x * 1000 < (lower + 1) * 1004) × (upper * 1000 ≤ x * 1004)
unfolding rat_to_target int_to_target
limits x lower upper h p q = (ground arith, ground arith, ground arith)

clamped :
    (x t : Target) (block_time hashrate : ℕ)
    → x < 2 ^ 256
    → adjusted_target standard standard_oak x block_time hashrate ≡ ok t
    → (x * 1000 < (t + 1) * 1004) × (t * 1000 ≤ x * 1004)
unfolding adjusted_target
clamped x t block_time hashrate bound h =
    let (lower, rise, h1) =
      or_err_sound (mul_difficulty x standard_oak.max_rise) (panics division_by_zero) _ h in
    let (upper, drop, h2) =
      or_err_sound (mul_difficulty x standard_oak.max_drop) (panics division_by_zero) _ h1 in
    let (frac, _, end) =
      or_err_sound (inv (record { num = mul hashrate block_time; denom = root_depth }))
        (panics division_by_zero) _ h2 in
    let (order, under, over) =
      limits x lower upper bound (mul_difficulty_inv x lower standard_oak.max_rise rise)
        (mul_difficulty_inv x upper standard_oak.max_drop drop) in
    let (above, below) = clamp-between lower upper (rat_to_target frac) order in
    let same = ok_injective end in
    (omega (arith, under, above, same), omega (arith, over, below, same))

-- Apart from the launch at height 7, the standard rules change the target by at most 0.4 % a block: the
-- child's target is at most 1004 / 1000 of its parent's, and at least 1000 / 1004 of it, rounded down.
pub child_target_oak-clamped :
    (total_time : ℕ) (total_target x t : Target) (height timestamp : ℕ)
    → height ≢ 7
    → x < 2 ^ 256
    → child_target_oak standard standard_oak total_time total_target x height timestamp ≡ ok t
    → (x * 1000 < (t + 1) * 1004) × (t * 1000 ≤ x * 1004)
unfolding child_target_oak
child_target_oak-clamped total_time total_target x t height timestamp off bound h =
    let run : (visible_hashrate standard standard_oak total_time total_target >>= λ hashrate.
    adjusted_target standard standard_oak x
      (target_block_time standard standard_oak (block_shift standard standard_oak height timestamp))
      hashrate)
        ≡ ok t =
      ground (arith, h, off) in
    let (hashrate, _, end) =
      >>=_inv (visible_hashrate standard standard_oak total_time total_target) _ run in
    clamped x t
      (target_block_time standard standard_oak (block_shift standard standard_oak height timestamp))
      hashrate bound end
