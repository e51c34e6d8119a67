-- ===== src/Consensus/Fork/Branch.antt =====
-- backtrackToCurrentPath (modules/consensus/fork.go) comes to its end, with a branch of the block tree.
use hyperspace.Common.{
  ℕ, zero, suc, ◌<◌, ◌≤◌, ◌≡◌, inl, inr, ◌∙◌, List, [], ◌∷◌, true, false, Bool-cases, some, is_some,
  ok, arith,
}
use hyperspace.Database.{Bolt}
use hyperspace.Consensus.State.{ProcessedBlock, Tx, Env}
use hyperspace.Consensus.Fork.{on_path, stored_block, backtrack, backtrack_to_current_path}

below_zero : (n : ℕ) → n < 0 → ⊥
below_zero n h = omega (arith, h)

module _ (db : Bolt) (e : Env) where
  open db use {get}

  -- A block off the path has its parent in the block map, one below.
  abbrev pub HasParent : Tx db → ProcessedBlock → Type 0
  HasParent tx b =
      on_path db e tx b ≡ false
      → (parent : ProcessedBlock) × (get tx.block_map b.block.parent_id ≡ some parent)
        × (b.height ≡ suc parent.height)

  -- Every block of the map has its parent, and the path has no gap up to the height.
  pub record IsRooted (tx : Tx db) : Type 0 where
    pub parents : (id : ℕ) (b : ProcessedBlock) → get tx.block_map id ≡ some b → HasParent tx b
    pub no_gap : (n : ℕ) → n ≤ tx.block_height → is_some (get tx.block_path n) ≡ true

  -- From a block to the last, each the parent of the next, which is off the path.
  pub data IsBranch (tx : Tx db) (last : ProcessedBlock)
      : ProcessedBlock → List ProcessedBlock → Type 0 where
    ends : IsBranch tx last last []
    grows :
        (b next : ProcessedBlock) (rest : List ProcessedBlock)
        → get tx.block_map next.block.parent_id ≡ some b
        → on_path db e tx next ≡ false
        → IsBranch tx last next rest
        → IsBranch tx last b (next ∷ rest)

  stops_here :
      (fuel : ℕ) (tx : Tx db) (b : ProcessedBlock) (path : List ProcessedBlock)
      → on_path db e tx b ≡ true
      → backtrack db e (suc fuel) tx b path ≡ ok path
  unfolding backtrack
  stops_here fuel tx b path h = ground (arith, h)

  steps_back :
      (fuel : ℕ) (tx : Tx db) (b parent : ProcessedBlock) (path : List ProcessedBlock)
      → IsRooted tx
      → on_path db e tx b ≡ false
      → get tx.block_map b.block.parent_id ≡ some parent
      → backtrack db e (suc fuel) tx b path ≡ backtrack db e fuel tx parent (parent ∷ path)
  unfolding backtrack stored_block
  steps_back fuel tx b parent path r h p = ground (arith, h, p, r.no_gap b.height)

  follow :
      (fuel : ℕ) (tx : Tx db) (last b : ProcessedBlock) (rest : List ProcessedBlock)
      → IsRooted tx
      → HasParent tx b
      → b.height < fuel
      → IsBranch tx last b rest
      → (common : ProcessedBlock) × (path : List ProcessedBlock) × (backtrack db e fuel tx b
            (b ∷ rest)
          ≡ ok (common ∷ path))
        × (on_path db e tx common ≡ true)
        × IsBranch tx last common path
  follow zero tx last b rest r up h branch = elim (below_zero b.height h) [ ]
  follow (suc fuel) tx last b rest r up h branch = elim (Bool-cases (on_path db e tx b)) [
    | inl here ↦ (b, rest, stops_here fuel tx b (b ∷ rest) here, here, branch)
    | inr off ↦
        let (parent, found, below) = up off in
        let (common, path, run, on, whole) =
          follow fuel tx last parent (b ∷ rest) r (r.parents b.block.parent_id parent found)
            (omega (arith, h, below)) (grows parent b rest found off branch) in
        (common, path, steps_back fuel tx b parent (b ∷ rest) r off found ∙ run, on, whole)
  ]

  -- In a block map where every block off the path has its parent one below, and with a path that has no
  -- gap, backtrackToCurrentPath needs a round more than the block's height at most: it returns a branch
  -- of the block tree, from a block of the current path over blocks off the path to the block.
  pub backtrack_to_current_path-IsBranch :
      (tx : Tx db) (pb : ProcessedBlock)
      → IsRooted tx
      → HasParent tx pb
      → (common : ProcessedBlock) × (path : List ProcessedBlock) × (backtrack_to_current_path db e
            (suc pb.height)
            tx
            pb
          ≡ ok (common ∷ path))
        × (on_path db e tx common ≡ true)
        × IsBranch tx pb common path
  unfolding backtrack_to_current_path
  backtrack_to_current_path-IsBranch tx pb r up =
      follow (suc pb.height) tx pb pb [] r up (omega arith) ends
