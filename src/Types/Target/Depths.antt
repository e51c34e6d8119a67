-- ===== src/Types/Target/Depths.antt =====
-- Sums of difficulties: depths fall, by the right amount.
use hyperspace.Common.{ℕ, suc, ◌+◌, ◌*◌, ◌/◌, ◌^◌, ◌<◌, ◌≤◌, ◌≡◌, ◌⊎◌, inl, inr, some, arith}
use native.Mathlib.Nat.{div-add-mod, mul-le-mul_right}
use hyperspace.Types.Target.{Target, add_difficulties, inverse, rat_to_target, int_to_target}

quotient_bounds : (n d : ℕ) → 0 < d → (n / d * d ≤ n) × (n < suc (n / d) * d)
quotient_bounds n d h = (grind (arith, div-add-mod n d), grind (arith, div-add-mod n d))

less_or_equal : (t x : ℕ) → (t < x) ⊎ (x ≤ t)
less_or_equal t x = ground arith

below_first : (t x y : ℕ) → 0 < x → t * (x + y) ≤ x * y → t < x
below_first t x y p h = elim (less_or_equal t x) [
  | inl q ↦ q
  | inr q ↦ omega (arith, h, mul-le-mul_right (x + y) q, mul-le-mul_right x p)
]

rat_to_target-small :
    (n d : ℕ) → n / d < 2 ^ 256 → rat_to_target (record { num = n; denom = d }) ≡ n / d
unfolding rat_to_target int_to_target
rat_to_target-small n d h = ground arith

-- The sum of two difficulties, for targets above zero and below 2 ^ 256: it is the greatest target
-- that is at most x * y / (x + y), and it is below both targets.
pub add_difficulties-harmonic :
    (x y : Target)
    → 0 < x
    → x < 2 ^ 256
    → 0 < y
    → y < 2 ^ 256
    → (t : Target) × (add_difficulties x y ≡ some t)
      × (t * (x + y) ≤ x * y)
      × (x * y < suc t * (x + y))
      × (t < x)
      × (t < y)
unfolding add_difficulties inverse
add_difficulties-harmonic x y p p' q q' =
    let t : Target = (x * y) / (x + y) in
    let (lower, upper) = quotient_bounds (x * y) (x + y) (omega (arith, p)) in
    let under_x = below_first t x y p lower in
    let under_y = below_first t y x q (omega (arith, lower)) in
    (
      t,
      ground (arith, p, q, rat_to_target-small (x * y) (x + y) (omega (arith, under_x, p'))),
      lower,
      upper,
      under_x,
      under_y,
    )

int_to_target-small : (i : ℕ) → int_to_target i ≤ i
unfolding int_to_target
int_to_target-small i = ground arith

harmonic_below :
    (x y t : ℕ) → 0 < x → rat_to_target (record { num = x * y; denom = x + y }) ≡ t → t < x
unfolding rat_to_target
harmonic_below x y t p e =
    let (lower, upper) = quotient_bounds (x * y) (x + y) (omega (arith, p)) in
    omega (
      arith,
      below_first ((x * y) / (x + y)) x y p lower,
      int_to_target-small ((x * y) / (x + y)),
      e,
    )

-- Where the sum of two difficulties does not panic, it is a target below the first.
pub add_difficulties-below : (x y t : Target) → add_difficulties x y ≡ some t → t < x
unfolding add_difficulties inverse
add_difficulties-below x y t h = ground (arith, harmonic_below x y t)
