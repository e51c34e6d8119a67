-- ===== src/Consensus/Fork/Examples.antt =====
-- A fork is followed back, taken and left again, on concrete inputs.
use hyperspace.Common.{
  ℕ, ◌≡◌, refl, sym, ◌∙◌, subst, Bool, Option, ◌==◌, if◌then◌else◌, ◌⊎◌, inl, inr, List, [], ◌∷◌,
  true, false, none, some, ok, arith,
}
use hyperspace.Database.Sorted.{sorted, get, put}
use hyperspace.Consensus.State.{ProcessedBlock, Tx}
use hyperspace.Consensus.Generate.{diff_holder, empty_block}
use hyperspace.Consensus.Examples.{
  debug_env, before, a_block, applied, applied-runs, before-IsScheduled,
}
use hyperspace.Consensus.Fork.{
  done, on_path, apply_block, apply_blocks, revert_to_block, backtrack_to_current_path,
}
use hyperspace.Consensus.Fork.Back.{IsTip, IsFresh}
use hyperspace.Consensus.Fork.Undone.{revert_to_block-apply_blocks}
use hyperspace.Consensus.Fork.Branch.{
  IsRooted, IsBranch, HasParent, backtrack_to_current_path-IsBranch,
}
use hyperspace.Consensus.Undo.{release}
use hyperspace.Consensus.Undo.Stored.{Restores}

-- The block with the nonce, which is its id, on the parent.
abbrev child_of : ℕ → ℕ → ℕ → ProcessedBlock
child_of parent_id nonce height = record (diff_holder height) {
  block = record empty_block { parent_id = parent_id; nonce = nonce };
}

before-IsTip : IsTip sorted debug_env before 1
before-IsTip = record {
  scheduled = before-IsScheduled;
  room = omega arith;
  nothing_above = λ n above. ground (arith, above);
}

a_block-IsFresh : IsFresh sorted debug_env a_block
a_block-IsFresh = record {
  no_outputs = refl;
  no_contracts = refl;
  no_delayed = refl;
  not_generated = refl;
  room = omega arith;
}

one-applied :
    apply_blocks sorted debug_env before none [] (a_block ∷ [])
    ≡ ok (done (applied.pb ∷ [], applied.tx))
unfolding apply_blocks apply_block
one-applied = rw applied-runs refl

revert_to_block-apply_blocks_example :
    (t : Tx sorted) × (revert_to_block sorted (release debug_env) 2 applied.tx (child_of 7 8 199)
      ≡ ok (applied.pb ∷ [], t))
    × Restores sorted before t
revert_to_block-apply_blocks_example =
    revert_to_block-apply_blocks sorted debug_env before applied.tx none (child_of 7 8 199)
      (a_block ∷ []) (applied.pb ∷ []) refl (omega arith) before-IsTip refl (a_block-IsFresh, tt)
      ((λ p. omega (arith, p), tt), (tt, tt)) one-applied

-- Two blocks on the path, and one off it on the first.
abbrev forked : Tx sorted
forked = record before {
  block_map = put (put (put [] 21 (child_of 0 21 0)) 22 (child_of 21 22 1)) 23 (child_of 21 23 1);
  block_path = put (put [] 0 21) 1 22;
  block_height = 1;
}

-- What a bucket holds after a put.
either_branch :
    {V : Type 0} (t : Bool) (v b : V) (o : Option V)
    → (if t then some v else o) ≡ some b
    → (b ≡ v) ⊎ (o ≡ some b)
either_branch true v b o h = inl cc
either_branch false v b o h = inr h

pub put_cases :
    {V : Type 0} (m : sorted.Bucket V) (k j : ℕ) (v b : V)
    → get (put m k v) j ≡ some b
    → (b ≡ v) ⊎ (get m j ≡ some b)
put_cases m k j v b h = either_branch (k == j) v b (get m j) (sym (sorted.get-put m k v j) ∙ h)

-- The blocks of the map, with the fork last.
forked-blocks :
    (id : ℕ) (b : ProcessedBlock)
    → get forked.block_map id ≡ some b
    → ((b ≡ child_of 0 21 0) ⊎ (b ≡ child_of 21 22 1)) ⊎ (b ≡ child_of 21 23 1)
forked-blocks id b found =
    let first : sorted.Bucket ProcessedBlock = put [] 21 (child_of 0 21 0) in
    let second : sorted.Bucket ProcessedBlock = put first 22 (child_of 21 22 1) in
    elim (put_cases second 23 id (child_of 21 23 1) b found) [
      | inl p ↦ inr p
      | inr more ↦ elim (put_cases first 22 id (child_of 21 22 1) b more) [
        | inl p ↦ inl (inr p)
        | inr last ↦ elim (put_cases [] 21 id (child_of 0 21 0) b last) [
          | inl p ↦ inl (inl p)
          | inr nothing ↦ cc
        ]
      ]
    ]

known-HasParent :
    (b : ProcessedBlock)
    → ((b ≡ child_of 0 21 0) ⊎ (b ≡ child_of 21 22 1)) ⊎ (b ≡ child_of 21 23 1)
    → HasParent sorted debug_env forked b
known-HasParent b (inl (inl p)) = subst (HasParent sorted debug_env forked) (sym p) (λ off. cc)
known-HasParent b (inl (inr p)) = subst (HasParent sorted debug_env forked) (sym p) (λ off. cc)
known-HasParent b (inr p) =
    subst (HasParent sorted debug_env forked) (sym p) (λ off. (child_of 0 21 0, refl, refl))

forked-IsRooted : IsRooted sorted debug_env forked
forked-IsRooted = record {
  parents = λ id b found. known-HasParent b (forked-blocks id b found);
  no_gap = λ n h. ground (arith, h);
}

backtrack_to_current_path-IsBranch_example :
    (common : ProcessedBlock) × (path : List ProcessedBlock) × (backtrack_to_current_path sorted
        debug_env 3 forked
        (child_of 23 24 2)
      ≡ ok (common ∷ path))
    × (on_path sorted debug_env forked common ≡ true)
    × IsBranch sorted debug_env forked (child_of 23 24 2) common path
backtrack_to_current_path-IsBranch_example =
    backtrack_to_current_path-IsBranch sorted debug_env forked (child_of 23 24 2) forked-IsRooted
      (λ off. (child_of 21 23 1, refl, refl))
