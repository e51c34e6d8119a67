-- ===== src/Consensus/Undo/Stored.antt =====
-- A stored block is undone from any state that is the one in which it was stored (commitDiffSet of
-- modules/consensus/diffs.go).
use hyperspace.Common.{
  ℕ, ◌+◌, ◌<◌, [], ◌≡◌, refl, sym, ap, ◌∙◌, subst, true, not, ltb, add64, sub64, u64_mod, none, ok,
  arith,
}
use hyperspace.Types.Transaction.{Block}
use hyperspace.Database.{Bolt}
use hyperspace.Database.Laws.{delete-put}
use hyperspace.Consensus.State.{diff_revert, Tx, Env}
use hyperspace.Consensus.Store.{pop_path}
use hyperspace.Consensus.Diffs.{commit_diff_set, create_upcoming_delayed_output_maps}
use hyperspace.Consensus.Apply.{Work}
use hyperspace.Consensus.Generate.{store_block, generate_and_apply_diff}
use hyperspace.Consensus.Undo.{release, IsScheduled}
use hyperspace.Consensus.Undo.Record.{Undoable, reopened}
use hyperspace.Consensus.Undo.Revert.{
  nodes_revert, reopens, stored, stored_nodes, stored_height, stored_block_map, revert_run,
}
use hyperspace.Consensus.Undo.Generated.{generated}

-- The consensus state is as it was. The expirations, which are in step with the contracts, may
-- differ in empty buckets only.
pub record Restores (db : Bolt) (before after : Tx db) : Type 0 where
  pub siacoin_outputs : after.siacoin_outputs ≡ before.siacoin_outputs
  pub file_contracts : after.file_contracts ≡ before.file_contracts
  pub scheduled : IsScheduled db after.file_contracts after.expirations
  pub delayed : after.delayed ≡ before.delayed
  pub block_path : after.block_path ≡ before.block_path
  pub block_height : after.block_height ≡ before.block_height

module _ (db : Bolt) (e : Env) where
  open db use {Bucket, get, put, delete}

  -- The block, once stored, is undone from any state that is the one in which it was stored.
  revert_stored :
      (before : Tx db) (block : Block) (height : ℕ) (w2 : Work db) (tx : Tx db)
      → get before.delayed (add64 height e.constants.maturity_delay) ≡ none
      → before.block_height < u64_mod
      → get before.block_path (add64 before.block_height 1) ≡ none
      → Undoable db e
          (record before {
            delayed = put before.delayed (add64 height e.constants.maturity_delay) db.empty;
          })
          block
          height
          (not (ltb height e.constants.maturity_delay))
          w2
      → Restores db (store_block db e w2).tx tx
      → (t : Tx db) × (commit_diff_set db (release e) diff_revert tx (store_block db e w2).pb
          ≡ ok t)
        × Restores db before t
        × (t.block_map ≡ tx.block_map)
  unfolding pop_path
  revert_stored before block height w2 tx fresh bound top u same =
      let n = add64 height e.constants.maturity_delay in
      let closed = not (ltb height e.constants.maturity_delay) in
      let same_end : (store_block db e w2).pb.height ≡ height =
        stored_height db e w2 ∙ u.same_height in
      let (outputs, contracts, expirations, delayed, at, path) =
        stored db e w2 before.block_height u.at_height in
      let late : tx.delayed ≡ w2.tx.delayed = same.delayed ∙ delayed in
      let upcoming =
        reopens db e closed tx height (ground arith)
          (λ c. ap (λ D. get D height) late ∙ u.shut c) in
      let (t3, run, r1, r2, r3, r4, r5, r6, r7) =
        nodes_revert db e (record before { delayed = put before.delayed n db.empty })
          (record tx { delayed = reopened db closed height tx.delayed }) block height closed w2 u
          (same.siacoin_outputs ∙ outputs) (same.file_contracts ∙ contracts) same.scheduled
          (ap (reopened db closed height) late) in
      let height3 : t3.block_height ≡ add64 before.block_height 1 = r6 ∙ same.block_height ∙ at in
      let path3 : t3.block_path
          ≡ put before.block_path (add64 before.block_height 1) (e.crypto.block_id w2.pb.block) =
        r5
        ∙ same.block_path
        ∙ path
        ∙ ap (λ c. put c (add64 before.block_height 1) (e.crypto.block_id w2.pb.block)) u.path in
      (
        pop_path db (record t3 {
          delayed =
              delete t3.delayed (add64 (store_block db e w2).pb.height e.constants.maturity_delay);
        }),
        revert_run db e tx _ t3 (store_block db e w2).pb
            (ap (create_upcoming_delayed_output_maps db (release e) diff_revert tx) same_end
              ∙ upcoming)
            (stored_nodes db e w2 _ ∙ run),
        record {
          siacoin_outputs = r1;
          file_contracts = r2;
          scheduled = r3;
          delayed =
              ap (λ k. delete t3.delayed (add64 k e.constants.maturity_delay)) same_end
              ∙ ap (λ D. delete D n) r4
              ∙ delete-put db before.delayed n db.empty fresh;
          block_path =
              ap (delete t3.block_path) height3
              ∙ ap (λ c. delete c (add64 before.block_height 1)) path3
              ∙ delete-put db before.block_path (add64 before.block_height 1)
                  (e.crypto.block_id w2.pb.block) top;
          block_height = ap (λ k. sub64 k 1) height3 ∙ omega arith;
        },
        r7,
      )

  -- A fresh block, and a state in which it can be generated db e and undone.
  pub record IsReady (w : Work db) : Type 0 where
    pub no_outputs : w.pb.siacoin_output_diffs ≡ []
    pub no_contracts : w.pb.file_contract_diffs ≡ []
    pub no_delayed : w.pb.delayed_siacoin_output_diffs ≡ []
    pub scheduled : IsScheduled db w.tx.file_contracts w.tx.expirations
    pub positive : 0 < e.constants.maturity_delay
    pub room : w.pb.height + e.constants.maturity_delay < u64_mod
    pub bound : w.tx.block_height < u64_mod
    pub top : get w.tx.block_path (add64 w.tx.block_height 1) ≡ none

  -- Where the block led to: it is the current one, and in the block map; and it is undone from any
  -- state that restores this one.
  pub record IsUndone (w w' : Work db) : Type 0 where
    pub same : Restores db w'.tx w'.tx
    pub block_height : w'.tx.block_height ≡ add64 w.tx.block_height 1
    pub block_path :
        w'.tx.block_path
        ≡ put w.tx.block_path (add64 w.tx.block_height 1) (e.crypto.block_id w.pb.block)
    pub block_map : w'.tx.block_map ≡ put w.tx.block_map (e.crypto.block_id w.pb.block) w'.pb
    pub revert :
        (tx : Tx db)
        → Restores db w'.tx tx
        → (t : Tx db) × (commit_diff_set db (release e) diff_revert tx w'.pb ≡ ok t)
          × Restores db w.tx t
          × (t.block_map ≡ tx.block_map)

  pub revert_from :
      (w w' : Work db)
      → e.debug ≡ true
      → IsReady w
      → generate_and_apply_diff db e w ≡ ok w'
      → IsUndone w w'
  revert_from w w' debug i h =
      let (w2, fresh, u, same) =
        generated db e debug w w' i.no_outputs i.no_contracts i.no_delayed i.scheduled
          (omega (arith, i.positive, i.room)) h in
      let (outputs, contracts, expirations, delayed, at, path) =
        stored db e w2 w.tx.block_height u.at_height in
      let (block_map, _) = stored_block_map db e w2 in
      let id = ap e.crypto.block_id u.same_block in
      subst (IsUndone w) same (record {
        same = record {
          siacoin_outputs = refl;
          file_contracts = refl;
          scheduled =
              subst (λ c. IsScheduled db c (store_block db e w2).tx.expirations) (sym contracts)
                (subst (λ x. IsScheduled db w2.tx.file_contracts x) (sym expirations) u.scheduled);
          delayed = refl;
          block_path = refl;
          block_height = refl;
        };
        block_height = at;
        block_path =
            path
            ∙ ap (λ c. put c (add64 w.tx.block_height 1) (e.crypto.block_id w2.pb.block)) u.path
            ∙ ap (λ n. put w.tx.block_path (add64 w.tx.block_height 1) n) id;
        block_map =
            block_map
            ∙ ap (λ c. put c (e.crypto.block_id w2.pb.block) (store_block db e w2).pb) u.same_map
            ∙ ap (λ n. put w.tx.block_map n (store_block db e w2).pb) id;
        revert = λ tx. revert_stored w.tx w.pb.block w.pb.height w2 tx fresh i.bound i.top u;
      })
