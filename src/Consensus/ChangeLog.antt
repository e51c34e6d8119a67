-- ===== src/Consensus/ChangeLog.antt =====
-- modules/consensus/changelog.go: the log of the changes of the consensus set, a linked list in a
-- bucket. An entry's id hashes its block ids; the zero id stands for none.
pub mod Chain
pub mod Examples
use hyperspace.Common.{
  ℕ, List, [], Bool, Option, none, some, ◌==◌, if◌then◌else◌, ok, ◌>>=◌, or_err,
}
use hyperspace.Database.{Bolt}
use hyperspace.Consensus.State.{Env, Act, returns, nil_item}

-- The ids of the blocks that a fork reverted and applied.
pub record ChangeEntry : Type 0 where
  pub reverted_blocks : List ℕ
  pub applied_blocks : List ℕ

pub record ChangeNode : Type 0 where
  pub entry : ChangeEntry
  pub next : ℕ

-- The bucket, with the value of the key ChangeLogTailID by itself.
pub record ChangeLog (db : Bolt) : Type 0 where
  pub nodes : db.Bucket ChangeNode
  pub tail : Option ℕ

module _ (db : Bolt) (e : Env) where
  abbrev pub entry_id : ChangeEntry → ℕ
  entry_id ce = e.crypto.change_entry_id ce.reverted_blocks ce.applied_blocks

  -- The id that a `copy` of no bytes leaves is the zero id.
  abbrev pub id_or_none : Option ℕ → ℕ
  id_or_none none = 0
  id_or_none (some id) = id

  abbrev pub node : ChangeEntry → ℕ → ChangeNode
  node ce next = record { entry = ce; next = next }

  -- The old tail, if there is one, points to the new entry. To decode a missing node is an error.
  unfoldable pub point_tail : db.Bucket ChangeNode → ℕ → ℕ → Act (db.Bucket ChangeNode)
  point_tail nodes tail_id ceid =
      if tail_id == 0
      then ok nodes
      else (or_err (db.get nodes tail_id) (returns nil_item) >>= λ old.
          ok (db.put nodes tail_id (node old.entry ceid)))

  unfoldable pub append_change_log : ChangeLog db → ChangeEntry → Act (ChangeLog db)
  unfolding point_tail
  append_change_log cl ce =
      let ceid = entry_id ce in
      point_tail (db.put cl.nodes ceid (node ce 0)) (id_or_none cl.tail) ceid >>= λ nodes.
      ok (record { nodes = nodes; tail = some ceid })

  unfoldable pub get_entry : ChangeLog db → ℕ → Option ChangeEntry
  get_entry cl id = elim (db.get cl.nodes id) [ none ↦ none | some cn ↦ some cn.entry ]

  -- An entry that is not in the log is reported, and has the zero id as its next.
  abbrev pub next_id : Option ChangeNode → ℕ
  next_id none = 0
  next_id (some cn) = cn.next

  unfoldable pub next_entry : ChangeLog db → ChangeEntry → Option ChangeEntry
  unfolding get_entry
  next_entry cl ce = get_entry cl (next_id (db.get cl.nodes (entry_id ce)))

  -- createChangeLog, with the genesis entry.
  abbrev pub genesis_log : ChangeEntry → ChangeLog db
  genesis_log ge = record {
    nodes = db.put db.empty (entry_id ge) (node ge 0);
    tail = some (entry_id ge);
  }
