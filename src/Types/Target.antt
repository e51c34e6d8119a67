-- ===== src/Types/Target.antt =====
-- types/target.go. A target is the number that its 32 bytes spell, and a big.Rat that is not negative
-- a fraction of numbers, which need not be in lowest terms, since RatToTarget divides it out. big.Rat's
-- Inv panics on zero: `none`.
pub mod Depths
use hyperspace.Common.{
  ℕ, ◌+◌, ◌-◌, ◌*◌, ◌/◌, ◌^◌, Bool, true, false, Option, none, some, ltb, leb, ◌==◌, if◌then◌else◌,
}
use hyperspace.Types.Currency.{Currency}

abbrev pub Target : Type 0
Target = ℕ

-- `RootDepth = Target{255, ..., 255}`
abbrev pub root_depth : Target
root_depth = 2 ^ 256 - 1

pub record Rat : Type 0 where
  pub num : ℕ
  pub denom : ℕ

abbrev pub inv : Rat → Option Rat
inv r = if r.num == 0 then none else some (record { num = r.denom; denom = r.num })

abbrev pub add_rat : Rat → Rat → Rat
add_rat r s = record { num = r.num * s.denom + s.num * r.denom; denom = r.denom * s.denom }

abbrev pub mul_rats : Rat → Rat → Rat
mul_rats r s = record { num = r.num * s.num; denom = r.denom * s.denom }

infixl 5 ◌>>=◌
abbrev ◌>>=◌ {ℓ κ} : {A : Type ℓ} {B : Type κ} → Option A → (A → Option B) → Option B
none >>= f = none
some a >>= f = f a

-- In the event of overflow, the maximum. A number is never negative.
unfoldable pub int_to_target : ℕ → Target
int_to_target i = if leb (2 ^ 256) i then root_depth else i

abbrev pub rat : Target → Rat
rat x = record { num = x; denom = 1 }

unfoldable pub rat_to_target : Rat → Target
unfolding int_to_target
rat_to_target r = int_to_target (r.num / r.denom)

unfoldable pub inverse : Target → Option Rat
inverse x = inv (rat x)

unfoldable pub add_difficulties : Target → Target → Option Target
unfolding inverse rat_to_target
add_difficulties x y = do
  inverse_x ← inverse x
  inverse_y ← inverse y
  r ← inv (add_rat inverse_x inverse_y)
  some (rat_to_target r)

unfoldable pub mul_difficulty : Target → Rat → Option Target
unfolding inverse rat_to_target
mul_difficulty x y = do
  inverse_x ← inverse x
  r ← inv (mul_rats y inverse_x)
  some (rat_to_target r)

-- RatToTarget(Inv(x - y)): a negative difference panics in a debug build, and gives the zero target
-- otherwise.
abbrev pub difference : Bool → Rat → Rat → Option Target
difference debug r s =
    if ltb (r.num * s.denom) (s.num * r.denom)
    then (if debug then none else some 0)
    else inv (record { num = r.num * s.denom - s.num * r.denom; denom = r.denom * s.denom })
      >>= λ d. some (rat_to_target d)

unfoldable pub subtract_difficulties : Bool → Target → Target → Option Target
unfolding inverse rat_to_target
subtract_difficulties debug x y = do
  inverse_x ← inverse x
  inverse_y ← inverse y
  difference debug inverse_x inverse_y

unfoldable pub difficulty : Target → Currency
difficulty x = if x == 0 then root_depth else root_depth / x
