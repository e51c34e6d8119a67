-- ===== src/Consensus/Undo/Block.antt =====
-- Reverting a block: commitDiffSet after generateAndApplyDiff (modules/consensus/diffs.go).
use hyperspace.Common.{◌+◌, ◌<◌, [], ◌≡◌, sym, subst, true, add64, u64_mod, none, ok, arith}
use hyperspace.Database.{Bolt}
use hyperspace.Consensus.State.{diff_revert, Tx, Env}
use hyperspace.Consensus.Diffs.{commit_diff_set}
use hyperspace.Consensus.Apply.{Work}
use hyperspace.Consensus.Generate.{store_block, generate_and_apply_diff}
use hyperspace.Consensus.Undo.{release, IsScheduled}
use hyperspace.Consensus.Undo.Revert.{stored}
use hyperspace.Consensus.Undo.Generated.{generated}
use hyperspace.Consensus.Undo.Stored.{Restores, IsReady, revert_from}

module _ (db : Bolt) (e : Env) where
  open db use {Bucket, get, put, delete}

  -- A block that a debug build generates from a state in step (with no diffs recorded yet, a
  -- maturity delay that is positive and does not wrap, and nothing on the path above its end) is
  -- reverted by a release build: commitDiffSet runs to its end, and the state is as it was before.
  pub generate-revert :
      (w w' : Work db)
      → e.debug ≡ true
      → w.pb.siacoin_output_diffs ≡ []
      → w.pb.file_contract_diffs ≡ []
      → w.pb.delayed_siacoin_output_diffs ≡ []
      → IsScheduled db w.tx.file_contracts w.tx.expirations
      → 0 < e.constants.maturity_delay
      → w.pb.height + e.constants.maturity_delay < u64_mod
      → w.tx.block_height < u64_mod
      → get w.tx.block_path (add64 w.tx.block_height 1) ≡ none
      → generate_and_apply_diff db e w ≡ ok w'
      → (t : Tx db) × (commit_diff_set db (release e) diff_revert w'.tx w'.pb ≡ ok t)
        × Restores db w.tx t
  generate-revert w w' debug p q r s positive room bound top h =
      let ready : IsReady db e w = record {
        no_outputs = p;
        no_contracts = q;
        no_delayed = r;
        scheduled = s;
        positive = positive;
        room = room;
        bound = bound;
        top = top;
      } in
      let u = revert_from db e w w' debug ready h in
      let (t, run, restored, _) = u.revert w'.tx u.same in (t, run, restored)

  -- Generating and applying a block (in a debug build, from a state in step, with a maturity delay
  -- that is positive and does not wrap) keeps the expirations in step with the contracts: each
  -- contract is listed at the end of its window, and nothing else is.
  pub generate-IsScheduled :
      (w w' : Work db)
      → e.debug ≡ true
      → w.pb.siacoin_output_diffs ≡ []
      → w.pb.file_contract_diffs ≡ []
      → w.pb.delayed_siacoin_output_diffs ≡ []
      → IsScheduled db w.tx.file_contracts w.tx.expirations
      → 0 < e.constants.maturity_delay
      → w.pb.height + e.constants.maturity_delay < u64_mod
      → generate_and_apply_diff db e w ≡ ok w'
      → IsScheduled db w'.tx.file_contracts w'.tx.expirations
  generate-IsScheduled w w' debug p q r s positive room h =
      let (w2, fresh, u, same) =
        generated db e debug w w' p q r s (omega (arith, positive, room)) h in
      let (outputs, contracts, expirations, delayed, at, path) =
        stored db e w2 w.tx.block_height u.at_height in
      subst (λ (z : Work db). IsScheduled db z.tx.file_contracts z.tx.expirations) same
        (subst (λ c. IsScheduled db c (store_block db e w2).tx.expirations) (sym contracts)
          (subst (λ x. IsScheduled db w2.tx.file_contracts x) (sym expirations) u.scheduled))
