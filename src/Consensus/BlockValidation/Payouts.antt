-- ===== src/Consensus/BlockValidation/Payouts.antt =====
-- What checkMinerPayouts accepts, from the third block on.
use hyperspace.Common.{
  ℕ, ◌+◌, ◌<◌, ◌≡◌, ◌↔◌, refl, sym, ap, ◌^◌, ◌∙◌, List, [], ◌∷◌, ◌++◌, true, All, sum, map, arith,
}
use hyperspace.Types.Currency.{Currency, is_zero, equals_iff}
use hyperspace.Types.Sums.{coins, coins-append, coins-add_each}
use hyperspace.Types.Transaction.{SiacoinOutput, Block, Transaction, add_each, value_of}
use hyperspace.Types.Constants.{Constants, standard, dev_fund_unlock_hash}
use hyperspace.Types.Subsidy.{calculate_subsidies}
use hyperspace.Types.Subsidy.Supply.{reward, calculate_subsidies-sum}
use hyperspace.Consensus.BlockValidation.{
  init_last, none_zero, check_shares, two_payouts, check_miner_payouts,
}

-- The payouts: some to miners, each above zero, which share the miners' subsidy, and a last one to the
-- dev fund, of its subsidy.
pub record IsShared (payouts : List SiacoinOutput) (miner_subsidy dev_subsidy : Currency)
    : Type 0 where
  pub first : SiacoinOutput
  pub others : List SiacoinOutput
  pub dev : SiacoinOutput
  pub split : payouts ≡ (first ∷ others) ++ (dev ∷ [])
  pub positive : All (λ (o : SiacoinOutput). 0 < o.value) (first ∷ others)
  pub total : coins (first ∷ others) ≡ miner_subsidy
  pub dev_value : dev.value ≡ dev_subsidy
  pub dev_owner : dev.unlock_hash ≡ dev_fund_unlock_hash

init_last-append :
    (x : SiacoinOutput) (xs : List SiacoinOutput)
    → (init_last x xs).0 ++ ((init_last x xs).1 ∷ []) ≡ x ∷ xs
init_last-append x [] = refl
init_last-append x (y ∷ ys) = ap (λ zs. x ∷ zs) (init_last-append y ys)

append-init_last :
    (x : SiacoinOutput) (xs : List SiacoinOutput) (z : SiacoinOutput)
    → init_last x (xs ++ (z ∷ [])) ≡ (x ∷ xs, z)
append-init_last x [] z = refl
append-init_last x (y ∷ ys) z = rw (append-init_last y ys z) refl

none_zero_sound :
    (os : List SiacoinOutput) → none_zero os ≡ true → All (λ (o : SiacoinOutput). 0 < o.value) os
unfolding is_zero
none_zero_sound [] h = tt
none_zero_sound (o ∷ os) h = (ground arith, none_zero_sound os (ground arith))

none_zero_complete :
    (os : List SiacoinOutput) → All (λ (o : SiacoinOutput). 0 < o.value) os → none_zero os ≡ true
unfolding is_zero
none_zero_complete [] h = refl
none_zero_complete (o ∷ os) (p, h) = ground (arith, none_zero_complete os h)

check_shares_iff :
    (miners : List SiacoinOutput) (dev : SiacoinOutput) (m d : Currency)
    → (check_shares (miners, dev) (m, d) ≡ true) ↔ (
        All (λ (o : SiacoinOutput). 0 < o.value) miners
        × (coins miners ≡ m)
        × (dev.value ≡ d)
        × (dev.unlock_hash ≡ dev_fund_unlock_hash))
check_shares_iff miners dev m d =
    let add = coins-add_each miners in
    (
      λ h. (
        none_zero_sound miners (ground arith),
        ground (arith, add, equals_iff m (add_each value_of 0 miners)),
        ground (arith, equals_iff dev.value d),
        ground arith,
      ),
      λ (p, q, r, s). ground (
        arith,
        none_zero_complete miners p,
        add,
        equals_iff m (add_each value_of 0 miners),
        equals_iff dev.value d,
      ),
    )

two_payouts-append :
    (x : SiacoinOutput) (ys : List SiacoinOutput) (z : SiacoinOutput) (s : Currency × Currency)
    → two_payouts (x ∷ (ys ++ (z ∷ []))) s ≡ check_shares (x ∷ ys, z) s
two_payouts-append x [] z s = refl
two_payouts-append x (y ∷ ys) z s = ap (λ w. check_shares w s) (append-init_last x (y ∷ ys) z)

two_payouts_sound :
    (payouts : List SiacoinOutput) (m d : Currency)
    → two_payouts payouts (m, d) ≡ true
    → IsShared payouts m d
two_payouts_sound [] m d h = cc
two_payouts_sound (x ∷ []) m d h = cc
two_payouts_sound (x ∷ y ∷ rest) m d h =
    let (p, q, r, s) = (check_shares_iff (x ∷ (init_last y rest).0) (init_last y rest).1 m d).0 h in
    record {
      first = x;
      others = (init_last y rest).0;
      dev = (init_last y rest).1;
      split = ap (λ zs. x ∷ zs) (sym (init_last-append y rest));
      positive = p;
      total = q;
      dev_value = r;
      dev_owner = s;
    }

two_payouts_complete :
    (payouts : List SiacoinOutput) (m d : Currency)
    → IsShared payouts m d
    → two_payouts payouts (m, d) ≡ true
two_payouts_complete payouts m d i = rw i.split (
    two_payouts-append i.first i.others i.dev (m, d)
    ∙ (check_shares_iff (i.first ∷ i.others) i.dev m d).1
        (i.positive, i.total, i.dev_value, i.dev_owner))

pub check_miner_payouts_iff :
    (k : Constants) (b : Block) (n : ℕ)
    → (check_miner_payouts k b (n + 3) ≡ true)
      ↔ IsShared b.miner_payouts
          (calculate_subsidies k b (n + 3)).0
          (calculate_subsidies k b (n + 3)).1
unfolding check_miner_payouts
check_miner_payouts_iff k b n =
    let (m, d) = calculate_subsidies k b (n + 3) in
    (
      λ h. two_payouts_sound b.miner_payouts m d (ground arith),
      λ i. ground (arith, two_payouts_complete b.miner_payouts m d i),
    )

-- The payouts of a block at a height from 3 on, below 2 ^ 62, that checkMinerPayouts accepts are the
-- coinbase of its height and the fees of its transactions, for the constants of the standard build.
pub check_miner_payouts-coins :
    (b : Block) (n : ℕ)
    → n < 2 ^ 62
    → check_miner_payouts standard b (n + 3) ≡ true
    → coins b.miner_payouts
      ≡ reward n + sum (map (λ (t : Transaction). sum t.miner_fees) b.transactions)
check_miner_payouts-coins b n bound h =
    let i = (check_miner_payouts_iff standard b n).0 h in
    let (whole, tenth) = calculate_subsidies-sum b n bound in
    ap coins i.split
    ∙ coins-append (i.first ∷ i.others) (i.dev ∷ [])
    ∙ omega (arith, i.total, i.dev_value, whole)
