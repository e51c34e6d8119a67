-- ===== src/Consensus/Weight.antt =====
-- heavierThan and childDepth of modules/consensus/processedblock.go, which compare chains by their
-- depth: the smaller target is the heavier.
use hyperspace.Common.{
  Bool, true, ltb, ok, ◌>>=◌, or_err, ◌≡◌, ◌<◌, >>=_inv, or_err_sound, or_err-some, ok_injective,
  arith,
}
use hyperspace.Types.Target.{Target, Rat, add_difficulties, mul_difficulty}
use hyperspace.Types.Target.Depths.{add_difficulties-below}
use hyperspace.Consensus.State.{ProcessedBlock, Act, panics, division_by_zero}

abbrev pub surpass_threshold : Rat
surpass_threshold = record { num = 20; denom = 100 }

unfoldable pub requirement : ProcessedBlock → Act Target
requirement cmp = do
  weight ← or_err (mul_difficulty cmp.child_target surpass_threshold) (panics division_by_zero)
  or_err (add_difficulties cmp.depth weight) (panics division_by_zero)

unfoldable pub heavier_than : ProcessedBlock → ProcessedBlock → Act Bool
unfolding requirement
heavier_than pb cmp = do target ← requirement cmp; ok (ltb pb.depth target)

unfoldable pub child_depth : ProcessedBlock → Act Target
child_depth pb = or_err (add_difficulties pb.depth pb.child_target) (panics division_by_zero)

-- What a block has to go below is below the depth of the other.
requirement-below :
    (cmp : ProcessedBlock) (target : Target) → requirement cmp ≡ ok target → target < cmp.depth
unfolding requirement
requirement-below cmp target h =
    let (weight, _, sum) =
      or_err_sound (mul_difficulty cmp.child_target surpass_threshold) (panics division_by_zero) _
        h in
    add_difficulties-below cmp.depth weight target
      (or_err-some (add_difficulties cmp.depth weight) (panics division_by_zero) sum)

heavier_inv :
    (pb cmp : ProcessedBlock)
    → heavier_than pb cmp ≡ ok true
    → (target : Target) × (requirement cmp ≡ ok target) × (pb.depth < target)
unfolding heavier_than
heavier_inv pb cmp h =
    let (target, need, end) = >>=_inv (requirement cmp) _ h in
    (target, need, ground (arith, ok_injective end))

-- heavierThan orders the blocks strictly: a block that is heavier than a second is deeper than that, so
-- that no block is heavier than itself; and where the second is heavier than a third, the first is
-- heavier than the third.
pub heavier_than_trans :
    (a b c : ProcessedBlock)
    → heavier_than a b ≡ ok true
    → heavier_than b c ≡ ok true
    → (a.depth < b.depth) × (heavier_than a c ≡ ok true)
unfolding heavier_than
heavier_than_trans a b c h g =
    let (target, need, under) = heavier_inv a b h in
    let deeper = requirement-below b target need in
    let (target', need', under') = heavier_inv b c g in
    (omega (arith, under, deeper), rw need' (ground (arith, under, deeper, under')))

-- A heavier block is deeper.
pub heavier_than-deeper :
    (pb cmp : ProcessedBlock) → heavier_than pb cmp ≡ ok true → pb.depth < cmp.depth
heavier_than-deeper pb cmp h =
    let (target, need, under) = heavier_inv pb cmp h in
    omega (arith, under, requirement-below cmp target need)
