-- ===== src/Consensus/Fork.antt =====
-- modules/consensus/fork.go: moving to another fork. The loops that follow the chain run on fuel. The
-- consistency checks, which read the database and are made at random or in tests, are left out.
pub mod Back
pub mod Undone
pub mod Branch
pub mod Examples
use hyperspace.Common.{
  ℕ, zero, suc, List, [], ◌∷◌, ◌++◌, Bool, true, false, not, ◌&&◌, ◌||◌, Option, none, some,
  is_some, ◌==◌, leb, if◌then◌else◌, ok, err, ◌>>=◌, ◌>>◌,
}
use hyperspace.Common.Result.{Result}
use hyperspace.Database.{Bolt}
use hyperspace.Consensus.State.{
  diff_apply, diff_revert, ProcessedBlock, ProcessedBlockHeader, Tx, Env, Error, Act, sanity,
  returns, panics, runs_on, unexpected_error, nil_item, nil_dereference, external_revert,
}
use hyperspace.Consensus.Store.{get_path, get_block_map, current_block_id}
use hyperspace.Consensus.Diffs.{commit_diff_set}
use hyperspace.Consensus.Apply.{Work}
use hyperspace.Consensus.Generate.{generate_and_apply_diff}

-- The id that getPath returns with an error is the zero id.
abbrev pub id_at : Option ℕ → ℕ
id_at none = 0
id_at (some id) = id

-- The loop over the new path either goes through, or finds a block that is invalid, whose id goes to
-- the blocks not to be validated again.
pub data Outcome {ℓ} (A : Type ℓ) : Type ℓ where
  done : A → Outcome A
  invalid : Error → ℕ → Outcome A

-- A returned error as a value; a panic stays one.
abbrev pub attempt {ℓ} : {A : Type ℓ} → ℕ → Act A → Act (Outcome A)
attempt id (ok a) = ok (done a)
attempt id (err (returns e)) = ok (invalid e id)
attempt id (err (panics p)) = err (panics p)
attempt id (err runs_on) = err runs_on

abbrev pub on_done {ℓ κ} :
    {A : Type ℓ} {B : Type κ} → Outcome A → (A → Act (Outcome B)) → Act (Outcome B)
on_done (done a) next = next a
on_done (invalid e id) next = ok (invalid e id)

module _ (db : Bolt) (e : Env) where
  -- A block that must be in the block map: without it a debug build panics, and a release build
  -- goes on to read the fields of nil.
  unfoldable pub stored_block : Tx db → ℕ → Act ProcessedBlock
  stored_block tx id = elim (db.get tx.block_map id) [
    | some pb ↦ ok pb
    | none ↦ sanity e.debug true (unexpected_error nil_item) >> err (panics nil_dereference)
  ]

  abbrev pub on_path : Tx db → ProcessedBlock → Bool
  on_path tx pb = id_at (db.get tx.block_path pb.height) == e.crypto.block_id pb.block

  unfoldable pub backtrack :
      ℕ → Tx db → ProcessedBlock → List ProcessedBlock → Act (List ProcessedBlock)
  unfolding stored_block
  backtrack zero tx pb path = err runs_on
  backtrack (suc fuel) tx pb path = elim (on_path tx pb) [
    | true ↦ ok path
    | false ↦
        sanity e.debug
          (not (is_some (db.get tx.block_path pb.height)) && leb pb.height tx.block_height)
          (unexpected_error nil_item)
        >> stored_block tx pb.block.parent_id
        >>= λ parent. backtrack fuel tx parent (parent ∷ path)
  ]

  unfoldable pub backtrack_to_current_path : ℕ → Tx db → ProcessedBlock → Act (List ProcessedBlock)
  unfolding backtrack
  backtrack_to_current_path fuel tx pb = backtrack fuel tx pb (pb ∷ [])

  unfoldable pub rewind : ℕ → Tx db → ℕ → List ProcessedBlock → Act (List ProcessedBlock × Tx db)
  unfolding stored_block
  rewind zero tx id reverted = err runs_on
  rewind (suc fuel) tx id reverted = current_block_id db e tx >>= λ current. elim (current == id) [
    | true ↦ ok (reverted, tx)
    | false ↦ stored_block tx current >>= λ block.
        commit_diff_set db e diff_revert tx block >>= λ tx'.
        rewind fuel tx' id (reverted ++ (block ∷ []))
  ]

  unfoldable pub revert_to_block : ℕ → Tx db → ProcessedBlock → Act (List ProcessedBlock × Tx db)
  unfolding rewind
  revert_to_block fuel tx pb = do
    sanity e.debug (not (is_some (db.get tx.block_path pb.height) && on_path tx pb)) external_revert
    rewind fuel tx (e.crypto.block_id pb.block) []

  -- The header of the new tip goes through the loop, and collects what the blocks note in it.
  abbrev pub Applied : Type 0
  Applied = List ProcessedBlock × Work db

  -- A block whose diffs exist is applied from them, another is validated first.
  unfoldable pub apply_block :
      Tx db → Option ProcessedBlockHeader → ProcessedBlock → Act (Outcome (Work db))
  apply_block tx header block =
      if block.diffs_generated
      then (commit_diff_set db e diff_apply tx block >>= λ tx'.
          ok (done (record { tx = tx'; pb = block; pbh = header })))
      else attempt (e.crypto.block_id block.block)
          (generate_and_apply_diff db e (record { tx = tx; pb = block; pbh = header }))

  unfoldable pub apply_blocks :
      Tx db
      → Option ProcessedBlockHeader
      → List ProcessedBlock
      → List ProcessedBlock
      → Act (Outcome (List ProcessedBlock × Tx db))
  unfolding apply_block
  apply_blocks tx header applied [] = ok (done (applied, tx))
  apply_blocks tx header applied (block ∷ blocks) = apply_block tx header block >>= λ outcome.
      on_done outcome (λ (w : Work db). apply_blocks w.tx w.pbh (applied ++ (w.pb ∷ [])) blocks)

  -- `newPath[1:]`, of a path that is never empty.
  abbrev pub rest_of : List ProcessedBlock → List ProcessedBlock
  rest_of [] = []
  rest_of (common ∷ path) = path

  unfoldable pub apply_until_block :
      ℕ
      → Tx db
      → ProcessedBlock
      → Option ProcessedBlockHeader
      → Act (Outcome (List ProcessedBlock × Tx db))
  unfolding backtrack_to_current_path apply_blocks
  apply_until_block fuel tx pb header = do
    path ← backtrack_to_current_path fuel tx pb
    apply_blocks tx header [] (rest_of path)

  abbrev pub common_parent : ProcessedBlock → List ProcessedBlock → ProcessedBlock
  common_parent pb [] = pb
  common_parent pb (common ∷ path) = common

  -- The reverted and the applied blocks, and the database with them.
  unfoldable pub fork_blockchain :
      ℕ
      → Tx db
      → ProcessedBlock
      → Option ProcessedBlockHeader
      → Act (Outcome (List ProcessedBlock × List ProcessedBlock × Tx db))
  unfolding backtrack_to_current_path revert_to_block apply_until_block
  fork_blockchain fuel tx new_block header = do
    path ← backtrack_to_current_path fuel tx new_block
    back ← revert_to_block fuel tx (common_parent new_block path)
    outcome ← apply_until_block fuel back.1 new_block header
    on_done outcome (λ forward. ok (done (back.0, forward.0, forward.1)))
