-- ===== src/Consensus/Accept/Tree.antt =====
-- What taking a block does to the block tree (modules/consensus/accept.go, processedblock.go).
use hyperspace.Common.{
  ℕ, ◌+◌, ◌<◌, ◌≤◌, ◌≡◌, ◌⊎◌, inl, inr, refl, sym, ap, ◌∙◌, subst, Bool, true, false, not, Option,
  none, some, is_some, ok, err, arith, ◌==◌, >>=_inv, ok_injective, u64_mod, add64, if◌then◌else◌,
}
use hyperspace.Common.Result.{Result}
use hyperspace.Types.Transaction.{Block}
use hyperspace.Database.{Bolt}
use hyperspace.Consensus.State.{ProcessedBlock, Tx, Env, Act, Error}
use hyperspace.Consensus.Store.{current_block_id}
use hyperspace.Consensus.Weight.{heavier_than, heavier_than-deeper, child_depth}
use hyperspace.Consensus.Difficulty.{
  OakRules, child_target_oak, get_block_totals, store_block_totals,
}
use hyperspace.Consensus.Fork.{stored_block, on_path}
use hyperspace.Consensus.Fork.Branch.{HasParent, IsRooted}
use hyperspace.Consensus.ChangeLog.{ChangeEntry}
use hyperspace.Consensus.Accept.{
  ConsensusSet, Added, extended, kept, new_child, add_block_to_tree, returned, if_heavier,
}

module _ (db : Bolt) (e : Env) (oak : OakRules) where
  open db use {get, put}

  not-true : {b : Bool} → not b ≡ true → b ≡ false
  not-true h = ground arith

  no_item : {V : Type 0} {o : Option V} → not (is_some o) ≡ true → o ≡ none
  no_item h = ground arith

  returned_sound : (m : Result Error (Unit {0})) → returned db e oak m ≡ ok tt → m ≡ ok tt
  returned_sound (ok tt) h = refl
  returned_sound (err failure) h = cc

  -- The child that newChild makes, and where it puts it.
  record IsChild (cs cs' : ConsensusSet db) (parent child : ProcessedBlock) (b : Block)
      : Type 0 where
    same_block : child.block ≡ b
    height : child.height ≡ add64 parent.height 1
    block_map : cs'.stored.tx.block_map ≡ put cs.stored.tx.block_map (e.crypto.block_id b) child
    block_path : cs'.stored.tx.block_path ≡ cs.stored.tx.block_path
    block_height : cs'.stored.tx.block_height ≡ cs.stored.tx.block_height

  new_child_inv :
      (cs cs' : ConsensusSet db) (parent child : ProcessedBlock) (b : Block)
      → new_child db e oak cs parent b ≡ ok (child, cs')
      → IsChild cs cs' parent child b
  unfolding new_child
  new_child_inv cs cs' parent child b h =
      let (depth, _, h1) = >>=_inv (child_depth parent) _ h in
      let (totals, _, h2) =
        >>=_inv (get_block_totals e.constants oak db cs.stored.oak b.parent_id) _ h1 in
      let ((time, target, next), _, h3) =
        >>=_inv
          (store_block_totals e.constants oak db cs.stored.oak (e.crypto.block_id b) totals.0
            parent.block.timestamp b.timestamp totals.1 parent.child_target)
          _ h2 in
      let (child_target, _, end) =
        >>=_inv
          (child_target_oak e.constants oak totals.0 totals.1 parent.child_target parent.height
            parent.block.timestamp)
          _ h3 in
      subst (λ (z : ProcessedBlock × ConsensusSet db). IsChild cs z.1 parent z.0 b)
        (ok_injective end)
        (record {
          same_block = refl;
          height = refl;
          block_map = refl;
          block_path = refl;
          block_height = refl;
        })

  stored_block_inv :
      (tx : Tx db) (id : ℕ) (pb : ProcessedBlock)
      → stored_block db e tx id ≡ ok pb
      → get tx.block_map id ≡ some pb
  unfolding stored_block
  stored_block_inv tx id pb h = ground (arith, h)

  if_heavier-true :
      (heavier : Bool) (cs cs' : ConsensusSet db) (entry : ChangeEntry) (fork : Act (Added db))
      → if_heavier db e oak heavier (ok (kept cs)) fork ≡ ok (extended entry cs')
      → heavier ≡ true
  if_heavier-true true cs cs' entry fork h = refl
  if_heavier-true false cs cs' entry fork h = cc

  -- Where addBlockToTree extends the chain, the new block is deeper than the block that was the current
  -- one when it came.
  pub add_block_to_tree-deeper :
      (fuel : ℕ) (cs cs' : ConsensusSet db) (b : Block) (parent : ProcessedBlock)
      (entry : ChangeEntry)
      → add_block_to_tree db e oak fuel cs b parent ≡ ok (extended entry cs')
      → (child : ProcessedBlock) × (current : ProcessedBlock) × (cs1 : ConsensusSet db) × (new_child
            db e oak cs parent b
          ≡ ok (child, cs1))
        × (id : ℕ) × (current_block_id db e cs1.stored.tx ≡ ok id)
        × (get cs1.stored.tx.block_map id ≡ some current)
        × (child.depth < current.depth)
  unfolding add_block_to_tree
  add_block_to_tree-deeper fuel cs cs' b parent entry h =
      let ((child, cs1), made, h1) = >>=_inv (new_child db e oak cs parent b) _ h in
      let (id, at, h2) = >>=_inv (current_block_id db e cs1.stored.tx) _ h1 in
      let (current, found, h3) = >>=_inv (stored_block db e cs1.stored.tx id) _ h2 in
      let (heavier, weighed, h4) = >>=_inv (heavier_than child current) _ h3 in
      (
        child,
        current,
        cs1,
        made,
        id,
        at,
        stored_block_inv cs1.stored.tx id current found,
        heavier_than-deeper child current
            (weighed ∙ ap (λ (t : Bool). ok t) (if_heavier-true heavier cs1 cs' entry _ h4)),
      )

  -- The block map with one block more.
  lookup_kept :
      (m : db.Bucket ProcessedBlock) (id j : ℕ) (child x : ProcessedBlock)
      → get m id ≡ none
      → get m j ≡ some x
      → get (put m id child) j ≡ some x
  lookup_kept m id j child x fresh found = ground (arith, db.get-put m id child j, fresh, found)

  chosen :
      (t : Bool) (v x : ProcessedBlock) (o : Option ProcessedBlock)
      → (if t then some v else o) ≡ some x
      → (v ≡ x) ⊎ (o ≡ some x)
  chosen true v x o h = inl cc
  chosen false v x o h = inr h

  still_HasParent :
      (tx tx' : Tx db) (id : ℕ) (child x : ProcessedBlock)
      → tx'.block_path ≡ tx.block_path
      → tx'.block_map ≡ put tx.block_map id child
      → get tx.block_map id ≡ none
      → HasParent db e tx x
      → HasParent db e tx' x
  still_HasParent tx tx' id child x path bucket fresh up off =
      let (parent, found, below) = up (
        subst (λ (p : db.Bucket ℕ). on_path db e (record tx { block_path = p }) x ≡ false) path
          off) in
      (
        parent,
        ap (λ m. get m x.block.parent_id) bucket
            ∙ lookup_kept tx.block_map id x.block.parent_id child parent fresh found,
        below,
      )

  child_HasParent :
      (cs cs' : ConsensusSet db) (parent child : ProcessedBlock) (b : Block)
      → IsChild cs cs' parent child b
      → get cs.stored.tx.block_map b.parent_id ≡ some parent
      → get cs.stored.tx.block_map (e.crypto.block_id b) ≡ none
      → parent.height + 1 < u64_mod
      → HasParent db e cs'.stored.tx child
  child_HasParent cs cs' parent child b c known fresh room off = (
    parent,
    ap (λ (z : Block). get cs'.stored.tx.block_map z.parent_id) c.same_block
        ∙ ap (λ m. get m b.parent_id) c.block_map
        ∙ lookup_kept cs.stored.tx.block_map (e.crypto.block_id b) b.parent_id child parent fresh
            known,
    omega (arith, c.height, room),
  )

  -- Where every block off the current path has its parent in the block map, one below, and the path has
  -- no gap, this is so after newChild has put the child of a known block into the map (a child that is
  -- not in the map yet, of a height that does not wrap), the child included.
  pub new_child-IsRooted :
      (cs cs' : ConsensusSet db) (parent child : ProcessedBlock) (b : Block)
      → IsRooted db e cs.stored.tx
      → get cs.stored.tx.block_map b.parent_id ≡ some parent
      → get cs.stored.tx.block_map (e.crypto.block_id b) ≡ none
      → parent.height + 1 < u64_mod
      → new_child db e oak cs parent b ≡ ok (child, cs')
      → IsRooted db e cs'.stored.tx × HasParent db e cs'.stored.tx child
  new_child-IsRooted cs cs' parent child b rooted known fresh room h =
      let c = new_child_inv cs cs' parent child b h in
      let bid = e.crypto.block_id b in
      let up = child_HasParent cs cs' parent child b c known fresh room in
      (
        record {
          parents = λ id x found.
              elim (chosen (bid == id) child x (get cs.stored.tx.block_map id) (
                sym (db.get-put cs.stored.tx.block_map bid child id)
                ∙ sym (ap (λ m. get m id) c.block_map)
                ∙ found)) [
                  | inl new ↦ subst (HasParent db e cs'.stored.tx) new up
                  | inr old ↦
                      still_HasParent cs.stored.tx cs'.stored.tx bid child x c.block_path
                        c.block_map fresh (rooted.parents id x old)
                ];
          no_gap = λ n low.
              ap (λ (p : db.Bucket ℕ). is_some (get p n)) c.block_path
              ∙ rooted.no_gap n (subst (λ k. n ≤ k) c.block_height low);
        },
        up,
      )
