-- ===== src/Types/Currency.antt =====
-- types/currency.go. A Currency is a big integer that is never negative, so a number; its methods
-- are functions. MulFloat, Float64 and Sqrt, which go through floats, are not modelled.
use Prim.Native.Nat.{compare, Ordering}
use native.Mathlib.Nat.{div-add-mod, le-div_iff_mul-le, mul-le-mul_right}
use hyperspace.Common.{
  ℕ, ◌+◌, ◌-◌, ◌*◌, ◌/◌, ◌%◌, ◌≤◌, ◌<◌, ◌≡◌, ◌⊎◌, Bool, true, false, Option, none, some, arith, ltb,
  leb, ◌==◌, if◌then◌else◌, u64_mod,
}

abbrev pub Currency : Type 0
Currency = ℕ

unfoldable pub add : Currency → Currency → Currency
add x y = x + y

unfoldable pub cmp : Currency → Currency → Ordering
cmp x y = compare x y

-- big.Int's Div panics on a zero divisor: `none`.
unfoldable pub div : Currency → Currency → Option Currency
div x y = if y == 0 then none else some (x / y)

unfoldable pub mul : Currency → Currency → Currency
mul x y = x * y

-- MulRat at a rational num / denom, whose denominator big.Rat keeps above zero.
pub mul_rat : Currency → ℕ → ℕ → Currency
mul_rat x num denom = x * num / denom

unfoldable pub equals : Currency → Currency → Bool
unfolding cmp
equals x y = elim (cmp x y) [ Ordering.eq ↦ true | _ ↦ false ]

-- big.Int's Mod panics on a zero divisor: `none`.
pub round_down : Currency → Currency → Option Currency
round_down x y = if y == 0 then none else some (x - x % y)

unfoldable pub is_zero : Currency → Bool
is_zero x = leb x 0

-- A result below zero is replaced by zero, after build.Critical has reported it.
unfoldable pub sub : Currency → Currency → Currency
sub x y = if ltb x y then 0 else x - y

-- Uint64, with its error on overflow as `none`.
pub to_uint64 : Currency → Option ℕ
to_uint64 x = if ltb (u64_mod - 1) x then none else some x

-- RoundDown gives the largest multiple of a positive y that is at most x.
pub round_down_largest :
    (x y : Currency)
    → 0 < y
    → (q : ℕ) × (round_down x y ≡ some (q * y))
      × (q * y ≤ x)
      × ((k : ℕ) → k * y ≤ x → k * y ≤ q * y)
unfolding round_down
round_down_largest x y h = (
  x / y,
  grind (arith, div-add-mod x y),
  grind (arith, div-add-mod x y),
  λ k p. mul-le-mul_right y ((le-div_iff_mul-le h).1 p),
)

-- Sub undoes Add; and where Sub does not report a negative result, Add undoes Sub.
pub sub-add :
    (x y : Currency) → (sub (add x y) y ≡ x) × ((add (sub x y) y ≡ x) ⊎ ((x < y) × (sub x y ≡ 0)))
unfolding sub add
sub-add x y = (ground arith, ground arith)

pub equals_iff : (x y : Currency) → (equals x y ≡ true → x ≡ y) × (x ≡ y → equals x y ≡ true)
unfolding equals
equals_iff x y = (λ h. ground arith, λ h. ground arith)
