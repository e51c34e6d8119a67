-- ===== src/Consensus/Accept.antt =====
-- modules/consensus/accept.go, with newChild of processedblock.go: taking blocks into the block tree.
-- What goes to other threads and peers (retries of future blocks, subscribers, broadcasts, logs) is
-- left out, and so are the filter and the announcements of a header, with the panics of a debug build
-- where the filter cannot be built.
pub mod Tree
pub mod Examples
use hyperspace.Common.{
  ℕ, List, [], ◌∷◌, ◌++◌, map, length, Bool, true, false, not, Option, none, some, is_some, ◌==◌,
  ltb, if◌then◌else◌, ok, err, ◌>>=◌, ◌>>◌, guard, or_err, add64,
}
use hyperspace.Common.Result.{Result}
use hyperspace.Types.Transaction.{Block}
use hyperspace.Types.Target.{Target}
use hyperspace.Database.{Bolt}
use hyperspace.Consensus.State.{
  ProcessedBlock, ProcessedBlockHeader, Tx, Env, Error, Act, Fault, returns, panics, runs_on,
  dos_block, block_known, orphan, non_extending_block, non_linear_chain,
  fewer_applied_than_reverted,
}
use hyperspace.Consensus.Store.{current_block_id}
use hyperspace.Consensus.ChangeLog.{ChangeEntry, ChangeLog, append_change_log}
use hyperspace.Consensus.Weight.{heavier_than, child_depth}
use hyperspace.Consensus.BlockValidation.{minimum_valid_child_timestamp, validate_block}
use hyperspace.Consensus.Difficulty.{
  OakRules, OakBucket, child_target_oak, get_block_totals, store_block_totals,
}
use hyperspace.Consensus.Fork.{Outcome, done, invalid, stored_block, fork_blockchain}

-- What the database keeps, and what the memory of the consensus set keeps: of the headers in memory,
-- their ids. (A header is shared: the block that it belongs to goes on to change it, in Work.)
pub record Stored (db : Bolt) : Type 0 where
  pub tx : Tx db
  pub oak : db.Bucket (ℕ × Target)
  pub change_log : ChangeLog db

pub record ConsensusSet (db : Bolt) : Type 0 where
  pub stored : Stored db
  pub dos_blocks : List ℕ
  pub processed_block_headers : List ℕ

abbrev pub is_in : ℕ → List ℕ → Bool
is_in id [] = false
is_in id (x ∷ xs) = if x == id then true else is_in id xs

-- How an attempt to add a block ends, with the consensus set.
pub data Added (db : Bolt) : Type 0 where
  extended : ChangeEntry → ConsensusSet db → Added db
  kept : ConsensusSet db → Added db
  rejected : Error → ConsensusSet db → Added db

-- How the blocks were accepted: whether the chain was extended, or an error.
pub record Accepted (db : Bolt) : Type 0 where
  pub result : Result Error Bool
  pub set : ConsensusSet db

module _ (db : Bolt) (e : Env) (oak : OakRules) where
  -- A validation error is returned.
  abbrev pub returned {ℓ} : {A : Type ℓ} → Result Error A → Act A
  returned (ok a) = ok a
  returned (err failure) = err (returns failure)

  abbrev pub ancestors : Tx db → ℕ → Option (ℕ × ℕ)
  ancestors tx id = elim (db.get tx.block_map id) [
    | none ↦ none
    | some pb ↦ some (pb.block.parent_id, pb.block.timestamp)
  ]

  unfoldable pub validate_header_and_block : ℕ → ConsensusSet db → Block → ℕ → Act ProcessedBlock
  validate_header_and_block now cs b id = do
    guard (not (is_in id cs.dos_blocks)) (returns dos_block)
    guard (not (is_some (db.get cs.stored.tx.block_map id))) (returns block_known)
    parent ← or_err (db.get cs.stored.tx.block_map b.parent_id) (returns orphan)
    min_timestamp ←
        minimum_valid_child_timestamp (ancestors cs.stored.tx) parent.block.parent_id
          parent.block.timestamp
    returned (
        validate_block e.constants now b id min_timestamp parent.child_target
          (add64 parent.height 1))
    ok parent

  abbrev pub child_block : ProcessedBlock → Block → Target → Target → ProcessedBlock
  child_block pb b depth child_target = record {
    block = b;
    height = add64 pb.height 1;
    depth = depth;
    child_target = child_target;
    diffs_generated = false;
    siacoin_output_diffs = [];
    file_contract_diffs = [];
    delayed_siacoin_output_diffs = [];
  }

  abbrev pub child_header : ProcessedBlock → ProcessedBlockHeader
  child_header child = record {
    height = child.height;
    depth = child.depth;
    child_target = child.child_target;
    siacoin_output_diffs = [];
    delayed_siacoin_output_diffs = [];
  }

  -- The child, with its totals, goes into the buckets, and so does its header, which is in memory too.
  abbrev pub with_child :
      ConsensusSet db → db.Bucket (ℕ × Target) → ProcessedBlock → ConsensusSet db
  with_child cs totals child =
      let id = e.crypto.block_id child.block in
      record cs {
        stored = record cs.stored {
          tx = record cs.stored.tx {
            block_map = db.put cs.stored.tx.block_map id child;
            block_header_map = db.put cs.stored.tx.block_header_map id (child_header child);
          };
          oak = totals;
        };
        processed_block_headers = id ∷ cs.processed_block_headers;
      }

  unfoldable pub new_child :
      ConsensusSet db → ProcessedBlock → Block → Act (ProcessedBlock × ConsensusSet db)
  new_child cs pb b = do
    depth ← child_depth pb
    totals ← get_block_totals e.constants oak db cs.stored.oak b.parent_id
    (_, _, next) ←
        store_block_totals e.constants oak db cs.stored.oak (e.crypto.block_id b) totals.0
          pb.block.timestamp b.timestamp totals.1 pb.child_target
    child_target ←
        child_target_oak e.constants oak totals.0 totals.1 pb.child_target pb.height
          pb.block.timestamp
    ok (
      child_block pb b depth child_target,
      with_child cs next (child_block pb b depth child_target),
    )

  abbrev pub id_of : ProcessedBlock → ℕ
  id_of pb = e.crypto.block_id pb.block

  -- The new state, once the change is in the log.
  abbrev pub logged : ConsensusSet db → Tx db → ChangeEntry → Act (ChangeLog db) → Act (Added db)
  logged cs tx entry (ok log) =
      ok (extended entry (record cs { stored = record cs.stored { tx = tx; change_log = log } }))
  logged cs tx entry (err (returns failure)) = ok (rejected failure cs)
  logged cs tx entry (err (panics p)) = err (panics p)
  logged cs tx entry (err runs_on) = err runs_on

  abbrev pub entry_for : List ProcessedBlock → List ProcessedBlock → ChangeEntry
  entry_for reverted applied = record {
    reverted_blocks = map id_of reverted;
    applied_blocks = map id_of applied;
  }

  -- An invalid block is among those not to be tried again.
  unfoldable pub after_fork :
      ConsensusSet db → Outcome (List ProcessedBlock × List ProcessedBlock × Tx db) → Act (Added db)
  after_fork cs (done (reverted, applied, tx)) =
      logged cs tx (entry_for reverted applied)
        (append_change_log db e cs.stored.change_log (entry_for reverted applied))
  after_fork cs (invalid failure id) =
      ok (rejected failure (record cs { dos_blocks = id ∷ cs.dos_blocks }))

  abbrev pub if_heavier : Bool → Act (Added db) → Act (Added db) → Act (Added db)
  if_heavier heavier keep fork = if heavier then fork else keep

  unfoldable pub add_block_to_tree : ℕ → ConsensusSet db → Block → ProcessedBlock → Act (Added db)
  unfolding new_child after_fork
  add_block_to_tree fuel cs b parent = do
    (child, cs') ← new_child cs parent b
    current ← current_block_id db e cs'.stored.tx
    current_node ← stored_block db e cs'.stored.tx current
    heavier ← heavier_than child current_node
    if_heavier heavier (ok (kept cs')) (
        fork_blockchain db e fuel cs'.stored.tx child (some (child_header child)) >>= λ outcome.
        after_fork cs' outcome)

  abbrev pub is_linear : List Block → Bool
  is_linear [] = true
  is_linear (b ∷ []) = true
  is_linear (a ∷ b ∷ bs) = if b.parent_id == e.crypto.block_id a then is_linear (b ∷ bs) else false

  -- A block that was added: too few applied blocks are an error.
  abbrev pub check_entry : ChangeEntry → ConsensusSet db → Added db
  check_entry entry cs =
      if ltb (length entry.applied_blocks) (length entry.reverted_blocks)
      then rejected fewer_applied_than_reverted cs
      else extended entry cs

  abbrev pub checked : Added db → Added db
  checked (extended entry cs) = check_entry entry cs
  checked (kept cs) = kept cs
  checked (rejected failure cs) = rejected failure cs

  -- A known block is skipped.
  abbrev pub unless_known :
      Act ProcessedBlock → ConsensusSet db → (ProcessedBlock → Act (Added db)) → Act (Added db)
  unless_known (ok parent) cs add = add parent
  unless_known (err (returns block_known)) cs add = ok (kept cs)
  unless_known (err (returns failure)) cs add = ok (rejected failure cs)
  unless_known (err (panics p)) cs add = err (panics p)
  unless_known (err runs_on) cs add = err runs_on

  unfoldable pub accept_block : ℕ → ℕ → ConsensusSet db → Block → Act (Added db)
  unfolding validate_header_and_block add_block_to_tree
  accept_block now fuel cs b =
      unless_known (validate_header_and_block now cs b (e.crypto.block_id b)) cs
        (λ parent. add_block_to_tree fuel cs b parent >>= λ added. ok (checked added))

  -- The loop of the database transaction: what its function returns.
  unfoldable pub accept_each : ℕ → ℕ → Bool → ConsensusSet db → List Block → Act (Accepted db)
  unfolding accept_block
  accept_each now fuel grown cs [] = ok (record { result = ok grown; set = cs })
  accept_each now fuel grown cs (b ∷ bs) = accept_block now fuel cs b >>= λ added. elim added [
    | extended entry cs' ↦ accept_each now fuel true cs' bs
    | kept cs' ↦ accept_each now fuel grown cs' bs
    | rejected failure cs' ↦ ok (record { result = err failure; set = cs' })
  ]

  -- Update of bbolt, on what the function returns in the database `before`: an error rolls the
  -- database back. The memory of the consensus set is not part of it.
  abbrev pub update : Stored db → Accepted db → Accepted db
  update before a = elim a.result [
    | ok grown ↦ a
    | err failure ↦ record a { set = record a.set { stored = before } }
  ]

  abbrev pub if_extended : Result Error Bool → Result Error Bool
  if_extended (ok true) = ok true
  if_extended (ok false) = err non_extending_block
  if_extended (err failure) = err failure

  unfoldable pub managed_accept_blocks : ℕ → ℕ → ConsensusSet db → List Block → Act (Accepted db)
  unfolding accept_each
  managed_accept_blocks now fuel cs blocks =
      if is_linear blocks
      then (accept_each now fuel false cs blocks >>= λ a.
          ok (record (update cs.stored a) { result = if_extended a.result }))
      else ok (record { result = err non_linear_chain; set = cs })
