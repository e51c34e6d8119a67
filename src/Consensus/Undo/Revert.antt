-- ===== src/Consensus/Undo/Revert.antt =====
-- The steps of reverting a block: commitDiffSet (modules/consensus/diffs.go) after the block was stored.
use hyperspace.Common.{
  ℕ, ◌≡◌, refl, sym, ap, ◌∙◌, subst, Bool, true, false, leb, add64, Option, none, some, ok,
}
use hyperspace.Types.Transaction.{Block}
use hyperspace.Database.{Bolt}
use hyperspace.Consensus.State.{diff_revert, ProcessedBlock, ProcessedBlockHeader, Tx, Env}
use hyperspace.Consensus.Store.{create_dsco_bucket, delete_dsco_bucket, push_path, pop_path}
use hyperspace.Consensus.Diffs.{
  commit_diff_set, commit_diff_set_sanity, commit_node_diffs, create_upcoming_delayed_output_maps,
  delete_obsolete_delayed_output_maps, update_current_path,
}
use hyperspace.Consensus.Apply.{Work}
use hyperspace.Consensus.Generate.{store_header, store_block}
use hyperspace.Consensus.Undo.{release, IsScheduled}
use hyperspace.Consensus.Undo.Record.{Undoable, reopened}

module _ (db : Bolt) (e : Env) where
  open db use {Bucket, get, put, delete}

  -- The three loops of a revert, one after the other.
  pub nodes_revert :
      (base tx : Tx db) (block : Block) (height : ℕ) (closed : Bool) (w : Work db)
      → Undoable db e base block height closed w
      → tx.siacoin_outputs ≡ w.tx.siacoin_outputs
      → tx.file_contracts ≡ w.tx.file_contracts
      → IsScheduled db tx.file_contracts tx.expirations
      → tx.delayed ≡ reopened db closed height w.tx.delayed
      → (t : Tx db) × (commit_node_diffs db (release e) diff_revert tx w.pb ≡ ok t)
        × (t.siacoin_outputs ≡ base.siacoin_outputs)
        × (t.file_contracts ≡ base.file_contracts)
        × IsScheduled db t.file_contracts t.expirations
        × (t.delayed ≡ base.delayed)
        × (t.block_path ≡ tx.block_path)
        × (t.block_height ≡ tx.block_height)
        × (t.block_map ≡ tx.block_map)
  unfolding commit_node_diffs
  nodes_revert base tx block height closed w u p q r s =
      let (t1, run1, sees1, frame1) = u.outputs tx p in
      let (t2, run2, sees2, frame2) = u.contracts t1 (
        ap (λ (z : Tx db). z.file_contracts) frame1 ∙ q,
        subst (λ (z : Tx db). IsScheduled db z.file_contracts z.expirations) (sym frame1) r,
      ) in
      let (t3, run3, sees3, frame3) =
        u.delayed t2
          (ap (λ (z : Tx db). z.delayed) frame2 ∙ ap (λ (z : Tx db). z.delayed) frame1 ∙ s) in
      (
        t3,
        rw run1 (rw run2 run3),
        ap (λ (z : Tx db). z.siacoin_outputs) frame3
            ∙ ap (λ (z : Tx db). z.siacoin_outputs) frame2
            ∙ sees1,
        ap (λ (z : Tx db). z.file_contracts) frame3 ∙ sees2.0,
        subst (λ (z : Tx db). IsScheduled db z.file_contracts z.expirations) (sym frame3) sees2.1,
        sees3,
        ap (λ (z : Tx db). z.block_path) frame3
            ∙ ap (λ (z : Tx db). z.block_path) frame2
            ∙ ap (λ (z : Tx db). z.block_path) frame1,
        ap (λ (z : Tx db). z.block_height) frame3
            ∙ ap (λ (z : Tx db). z.block_height) frame2
            ∙ ap (λ (z : Tx db). z.block_height) frame1,
        ap (λ (z : Tx db). z.block_map) frame3
            ∙ ap (λ (z : Tx db). z.block_map) frame2
            ∙ ap (λ (z : Tx db). z.block_map) frame1,
      )

  pub reopens :
      (closed : Bool) (tx : Tx db) (height : ℕ)
      → leb e.constants.maturity_delay height ≡ closed
      → (closed ≡ true → get tx.delayed height ≡ none)
      → create_upcoming_delayed_output_maps db (release e) diff_revert tx height
        ≡ ok (record tx { delayed = reopened db closed height tx.delayed })
  unfolding create_upcoming_delayed_output_maps create_dsco_bucket
  reopens true tx height p none_there = rw p (rw (none_there refl) refl)
  reopens false tx height p none_there = rw p refl

  header_kept :
      (bid : ℕ) (w : Work db) (tx : Tx db)
      → store_header db e bid w.pbh tx
        ≡ record tx { block_header_map = (store_header db e bid w.pbh tx).block_header_map }
  header_kept bid w tx = kept w.pbh
    where
      kept :
          (o : Option ProcessedBlockHeader)
          → store_header db e bid o tx
            ≡ record tx { block_header_map = (store_header db e bid o tx).block_header_map }
      kept none = refl
      kept (some pbh) = refl

  -- What storing the block leaves alone, and what it does to the path.
  pub stored :
      (w : Work db) (n : ℕ)
      → w.tx.block_height ≡ n
      → ((store_block db e w).tx.siacoin_outputs ≡ w.tx.siacoin_outputs)
        × ((store_block db e w).tx.file_contracts ≡ w.tx.file_contracts)
        × ((store_block db e w).tx.expirations ≡ w.tx.expirations)
        × ((store_block db e w).tx.delayed ≡ w.tx.delayed)
        × ((store_block db e w).tx.block_height ≡ add64 n 1)
        × ((store_block db e w).tx.block_path
            ≡ put w.tx.block_path (add64 n 1) (e.crypto.block_id w.pb.block))
  unfolding store_block push_path
  stored w n at =
      let kept =
        header_kept (e.crypto.block_id w.pb.block) w
          (push_path db w.tx (e.crypto.block_id w.pb.block)) in
      (
        ap (λ (z : Tx db). z.siacoin_outputs) kept,
        ap (λ (z : Tx db). z.file_contracts) kept,
        ap (λ (z : Tx db). z.expirations) kept,
        ap (λ (z : Tx db). z.delayed) kept,
        ap (λ (z : Tx db). z.block_height) kept ∙ ap (λ k. add64 k 1) at,
        ap (λ (z : Tx db). z.block_path) kept
            ∙ ap (λ k. put w.tx.block_path (add64 k 1) (e.crypto.block_id w.pb.block)) at,
      )

  pub stored_block_map :
      (w : Work db)
      → ((store_block db e w).tx.block_map
          ≡ put w.tx.block_map (e.crypto.block_id w.pb.block) (store_block db e w).pb)
        × ((store_block db e w).pb.block ≡ w.pb.block)
  unfolding store_block push_path
  stored_block_map w = (
    ap (λ (z : Tx db). put z.block_map (e.crypto.block_id w.pb.block) (store_block db e w).pb)
        (header_kept (e.crypto.block_id w.pb.block) w
          (push_path db w.tx (e.crypto.block_id w.pb.block))),
    refl,
  )

  pub stored_nodes :
      (w : Work db) (tx : Tx db)
      → commit_node_diffs db (release e) diff_revert tx (store_block db e w).pb
        ≡ commit_node_diffs db (release e) diff_revert tx w.pb
  unfolding commit_node_diffs store_block
  stored_nodes w tx = refl

  pub stored_height : (w : Work db) → (store_block db e w).pb.height ≡ w.pb.height
  unfolding store_block
  stored_height w = refl

  -- A release build's commitDiffSet, where its loops run.
  pub revert_run :
      (tx tx1 t3 : Tx db) (pb : ProcessedBlock)
      → create_upcoming_delayed_output_maps db (release e) diff_revert tx pb.height ≡ ok tx1
      → commit_node_diffs db (release e) diff_revert tx1 pb ≡ ok t3
      → commit_diff_set db (release e) diff_revert tx pb
        ≡ ok (
            pop_path db (record t3 {
              delayed = delete t3.delayed (add64 pb.height e.constants.maturity_delay);
            }))
  unfolding commit_diff_set commit_diff_set_sanity delete_obsolete_delayed_output_maps
      delete_dsco_bucket update_current_path
  revert_run tx tx1 t3 pb p q = rw p (rw q refl)
