-- ===== src/Types/Subsidy/Supply.antt =====
-- The closed forms of types/block.go against the coins that the blocks create.
use Prim.Native.Nat.{◌^◌}
use hyperspace.Common.{
  ℕ, zero, suc, ◌+◌, ◌-◌, ◌*◌, ◌/◌, ◌≤◌, ◌<◌, ◌≡◌, refl, ap, arith, leb, if◌then◌else◌, map, sum,
  List, [], ◌∷◌,
}
use hyperspace.Types.Currency.{Currency}
use hyperspace.Types.Transaction.{Transaction, Block, add_each}
use hyperspace.Types.Sums.{add_each-sum}
use hyperspace.Types.Constants.{standard}
use hyperspace.Types.Subsidy.{
  late_coinbase, calculate_coinbase, initial_siacoins, late_num_siacoins, calculate_num_siacoins,
  add_fees, calculate_miner_fees, calculate_subsidies,
}

-- The reward falls by 0.2 coins a block while that leaves at least 6000, and stays there.
abbrev pub reward : ℕ → Currency
reward n = if leb n 270000 then (600000 - 2 * n) * 10 ^ 23 else 6000 * 10 ^ 24

pub late_coinbase-reward : (n : ℕ) → n < 2 ^ 62 → late_coinbase standard (n + 3) ≡ reward n
unfolding late_coinbase
late_coinbase-reward n h = ground arith

-- From the third block on, and for the standard build, the coinbase is the reward that falls by 0.2
-- coins a block and stays at 6000, for every height that is below the wrap of uint64 by a factor 4.
pub calculate_coinbase-reward :
    (n : ℕ) → n < 2 ^ 62 → calculate_coinbase standard (n + 3) ≡ reward n
unfolding calculate_coinbase
calculate_coinbase-reward n h = ground (arith, late_coinbase-reward n)

-- The sum of the rewards from 0 up to n.
closed : ℕ → Currency
closed n =
    if leb n 270000
    then (600000 - n) * 10 ^ 23 * (n + 1)
    else 330000 * 10 ^ 23 * 270001 + (n - 270000) * (6000 * 10 ^ 24)

falling :
    (a n : ℕ)
    → a + suc n ≡ 600000
    → suc n ≤ 270000
    → a * 10 ^ 23 * (suc n + 1) ≡ (a + 1) * 10 ^ 23 * (n + 1) + (600000 - 2 * suc n) * 10 ^ 23
falling a n h k = omega arith

closed_step : (n : ℕ) → closed (suc n) ≡ closed n + reward (suc n)
unfolding closed
closed_step n = ground (arith, falling (600000 - suc n) n)

late_num_siacoins-closed :
    (n : ℕ)
    → n < 2 ^ 62
    → late_num_siacoins standard (n + 3) ≡ initial_siacoins + 3000000000 * 10 ^ 24 + closed n
unfolding late_num_siacoins closed
late_num_siacoins-closed n h =
    ground (arith, calculate_coinbase-reward 0, calculate_coinbase-reward n h)

-- The coins that the blocks up to a height create.
abbrev pub minted : ℕ → Currency
minted zero = 0
minted (suc n) = minted n + calculate_coinbase standard (suc n)

minted-closed : (n : ℕ) → n < 2 ^ 62 → minted (suc (suc (suc n))) ≡ 3000000000 * 10 ^ 24 + closed n
unfolding closed calculate_coinbase
minted-closed zero h = ground (arith, calculate_coinbase-reward 0)
minted-closed (suc n) h = omega (
  arith,
  minted-closed n (omega arith),
  closed_step n,
  calculate_coinbase-reward (suc n) h,
  ap (calculate_coinbase standard) (last n),
)
  where
    last : (n : ℕ) → suc n + 3 ≡ suc (suc (suc (suc n)))
    last n = omega arith

three_more : (n : ℕ) → n + 3 ≡ suc (suc (suc n))
three_more n = omega arith

num_siacoins-late :
    (n : ℕ) → calculate_num_siacoins standard (n + 3) ≡ late_num_siacoins standard (n + 3)
unfolding calculate_num_siacoins
num_siacoins-late n = ground arith

-- CalculateNumSiacoins, a closed form with an average and a tail, is the genesis allocations plus the
-- coinbase of every block up to the height: for the standard build, below 2 ^ 62.
pub num_siacoins-minted :
    (height : ℕ)
    → height < 2 ^ 62
    → calculate_num_siacoins standard height ≡ initial_siacoins + minted height
unfolding calculate_num_siacoins calculate_coinbase
num_siacoins-minted zero h = refl
num_siacoins-minted (suc zero) h = ground arith
num_siacoins-minted (suc (suc zero)) h = ground arith
num_siacoins-minted (suc (suc (suc n))) h = omega (
  arith,
  late_num_siacoins-closed n (omega arith),
  minted-closed n (omega arith),
  num_siacoins-late n,
  ap (calculate_num_siacoins standard) (three_more n),
)

sum-map_self : (xs : List ℕ) → sum (map (λ x. x) xs) ≡ sum xs
sum-map_self [] = refl
sum-map_self (x ∷ xs) = omega (arith, sum-map_self xs)

add_fees-sum :
    (fees : Currency) (ts : List Transaction)
    → add_fees fees ts ≡ fees + sum (map (λ (t : Transaction). sum t.miner_fees) ts)
unfolding add_fees
add_fees-sum fees [] = omega arith
add_fees-sum fees (t ∷ ts) = omega (
  arith,
  add_fees-sum (add_each (λ fee. fee) fees t.miner_fees) ts,
  add_each-sum (λ fee. fee) fees t.miner_fees,
  sum-map_self t.miner_fees,
)

pub calculate_subsidies-sum :
    (b : Block) (n : ℕ)
    → n < 2 ^ 62
    → ((calculate_subsidies standard b (n + 3)).0 + (calculate_subsidies standard b (n + 3)).1
        ≡ reward n + sum (map (λ (t : Transaction). sum t.miner_fees) b.transactions))
      × ((calculate_subsidies standard b (n + 3)).1 ≡ reward n / 10)
unfolding calculate_subsidies calculate_miner_fees
calculate_subsidies-sum b n h =
    ground (arith, calculate_coinbase-reward n h, add_fees-sum 0 b.transactions)
