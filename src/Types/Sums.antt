-- ===== src/Types/Sums.antt =====
-- The running sums of the Go loops as sums of lists.
use hyperspace.Common.{ℕ, ◌+◌, ◌≡◌, List, [], ◌∷◌, ◌++◌, map, arith, sum}
use hyperspace.Types.Currency.{Currency, add}
use hyperspace.Types.Transaction.{SiacoinOutput, add_each, value_of}

-- The coins that a list of outputs holds.
abbrev pub coins : List SiacoinOutput → ℕ
coins outputs = sum (map value_of outputs)

pub add_each-sum {ℓ} :
    {A : Type ℓ} (f : A → Currency) (s : Currency) (xs : List A)
    → add_each f s xs ≡ s + sum (map f xs)
unfolding add_each add
add_each-sum f s [] = omega arith
add_each-sum f s (x ∷ xs) = omega (arith, add_each-sum f (s + f x) xs)

pub coins-add_each : (outputs : List SiacoinOutput) → add_each value_of 0 outputs ≡ coins outputs
coins-add_each outputs = omega (arith, add_each-sum value_of 0 outputs)

pub coins-append : (xs ys : List SiacoinOutput) → coins (xs ++ ys) ≡ coins xs + coins ys
coins-append [] ys = omega arith
coins-append (x ∷ xs) ys = omega (arith, coins-append xs ys)
