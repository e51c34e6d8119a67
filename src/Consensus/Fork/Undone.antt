-- ===== src/Consensus/Fork/Undone.antt =====
-- A fork that was applied is left again: revertToBlock after applyUntilBlock (modules/consensus/fork.go).
use mathlib.Core.List.{reverse, append-nil, append_assoc}
use hyperspace.Common.{
  ℕ, suc, ◌<◌, ◌≡◌, refl, sym, ap, ◌∙◌, subst, List, [], ◌∷◌, ◌++◌, length, All, true, false,
  Option, some, ok, err, arith, add64, >>=_inv,
}
use hyperspace.Database.{Bolt}
use hyperspace.Consensus.State.{
  ProcessedBlock, ProcessedBlockHeader, Tx, Env, Act, returns, panics, runs_on,
}
use hyperspace.Consensus.Apply.{Work}
use hyperspace.Consensus.Generate.{generate_and_apply_diff}
use hyperspace.Consensus.Fork.{
  Outcome, done, invalid, attempt, on_done, rewind, revert_to_block, apply_block, apply_blocks,
}
use hyperspace.Consensus.Undo.{release}
use hyperspace.Consensus.Undo.Stored.{Restores, IsReady, IsUndone, revert_from}
use hyperspace.Consensus.Fork.Back.{
  AreDistinct, IsFresh, IsTip, fuel_for, fuel_for-length, GoesBack, stays, current_at, goes_on,
}

attempt_inv {ℓ} : {A : Type ℓ} (id : ℕ) (m : Act A) (a : A) → attempt id m ≡ ok (done a) → m ≡ ok a
attempt_inv id (ok a') a h = cc
attempt_inv id (err (returns e)) a h = cc
attempt_inv id (err (panics p)) a h = cc
attempt_inv id (err runs_on) a h = cc

done_injective {ℓ} :
    {A : Type ℓ} {x y : A} → Path (Act (Outcome A)) (ok (done x)) (ok (done y)) → x ≡ y
done_injective h = cc

on_done_inv {ℓ κ} :
    {A : Type ℓ} {B : Type κ} (o : Outcome A) (next : A → Act (Outcome B)) (b : B)
    → on_done o next ≡ ok (done b)
    → (a : A) × (o ≡ done a) × (next a ≡ ok (done b))
on_done_inv (done a) next b h = (a, refl, h)
on_done_inv (invalid e id) next b h = cc

module _ (db : Bolt) (e : Env) where
  open db use {get, put}

  fresh-IsReady :
      (tx : Tx db) (header : Option ProcessedBlockHeader) (b : ProcessedBlock) (left : ℕ)
      → 0 < e.constants.maturity_delay
      → IsTip db e tx (suc left)
      → IsFresh db e b
      → IsReady db e (record { tx = tx; pb = b; pbh = header })
  fresh-IsReady tx header b left positive tip f = record {
    no_outputs = f.no_outputs;
    no_contracts = f.no_contracts;
    no_delayed = f.no_delayed;
    scheduled = tip.scheduled;
    positive = positive;
    room = f.room;
    bound = omega (arith, tip.room);
    top = tip.nothing_above (add64 tx.block_height 1) (omega (arith, tip.room));
  }

  -- The tip after a block.
  next-IsTip :
      (w w' : Work db) (left : ℕ)
      → IsTip db e w.tx (suc left)
      → IsUndone db e w w'
      → IsTip db e w'.tx left
  next-IsTip w w' left tip u = record {
    scheduled = u.same.scheduled;
    room = omega (arith, tip.room, u.block_height);
    nothing_above = λ n above.
        ap (λ c. get c n) u.block_path
        ∙ ground (
          arith,
          tip.room,
          u.block_height,
          above,
          db.get-put w.tx.block_path (add64 w.tx.block_height 1) (e.crypto.block_id w.pb.block) n,
          tip.nothing_above n,
        );
  }

  applies_block :
      (tx : Tx db) (header : Option ProcessedBlockHeader) (b : ProcessedBlock)
      (o : Outcome (Work db)) (w : Work db)
      → b.diffs_generated ≡ false
      → apply_block db e tx header b ≡ ok o
      → o ≡ done w
      → generate_and_apply_diff db e (record { tx = tx; pb = b; pbh = header }) ≡ ok w
  unfolding apply_block
  applies_block tx header b o w fresh h p =
      attempt_inv (e.crypto.block_id b.block)
        (generate_and_apply_diff db e (record { tx = tx; pb = b; pbh = header })) w
        (ground (arith, fresh, h, p))

  go_back :
      e.debug ≡ true
      → 0 < e.constants.maturity_delay
      → (blocks : List ProcessedBlock) (tx tx' : Tx db) (header : Option ProcessedBlockHeader)
        (before applied : List ProcessedBlock)
      → IsTip db e tx (length blocks)
      → All (IsFresh db e) blocks
      → AreDistinct db e blocks
      → apply_blocks db e tx header before blocks ≡ ok (done (applied, tx'))
      → (new : List ProcessedBlock) × (applied ≡ before ++ new) × GoesBack db e tx tx' blocks new
  unfolding apply_blocks
  go_back debug positive [] tx tx' header before applied tip fresh distinct h =
      let same = done_injective h in
      (
        [],
        sym (ap (λ (z : List ProcessedBlock × Tx db). z.0) same) ∙ sym (append-nil before),
        subst (λ (z : Tx db). GoesBack db e tx z [] [])
            (ap (λ (z : List ProcessedBlock × Tx db). z.1) same) (stays db e tx tip),
      )
  go_back debug positive (b ∷ bs) tx tx' header before applied tip (f, fresh) (absent, distinct) h =
      let (o, apply, more) = >>=_inv (apply_block db e tx header b) _ h in
      let (w, finished, rest) = on_done_inv o _ (applied, tx') more in
      let run = applies_block tx header b o w f.not_generated apply finished in
      let u =
        revert_from db e (record { tx = tx; pb = b; pbh = header }) w debug
          (fresh-IsReady tx header b (length bs) positive tip f) run in
      let (new, same, g) =
        go_back debug positive bs w.tx tx' w.pbh (before ++ (w.pb ∷ [])) applied
          (next-IsTip (record { tx = tx; pb = b; pbh = header }) w (length bs) tip u) fresh distinct
          rest in
      (
        w.pb ∷ new,
        same ∙ append_assoc before (w.pb ∷ []) new,
        goes_on db e (record { tx = tx; pb = b; pbh = header }) w tx' bs new u absent g,
      )

  current_is :
      (t : Tx db) (id k : ℕ) (reverted : List ProcessedBlock)
      → get t.block_path t.block_height ≡ some id
      → rewind db (release e) (suc k) t id reverted ≡ ok (reverted, t)
  unfolding rewind
  current_is t id k reverted q = rw (current_at db e t id q) (ground arith)

  -- Fresh blocks with ids of their own, which a debug build has applied one after the other to a tip
  -- (its expirations in step with its contracts, nothing on the path above it, room for the heights),
  -- are reverted by a release build, from the last to the first: revertToBlock comes to its end within
  -- one round for each block and one more, and the state is as it was before.
  pub revert_to_block-apply_blocks :
      (tx tx' : Tx db) (header : Option ProcessedBlockHeader) (common : ProcessedBlock)
      (blocks applied : List ProcessedBlock)
      → e.debug ≡ true
      → 0 < e.constants.maturity_delay
      → IsTip db e tx (length blocks)
      → get tx.block_path tx.block_height ≡ some (e.crypto.block_id common.block)
      → All (IsFresh db e) blocks
      → AreDistinct db e (common ∷ blocks)
      → apply_blocks db e tx header [] blocks ≡ ok (done (applied, tx'))
      → (t : Tx db) × (revert_to_block db (release e) (suc (length blocks)) tx' common
          ≡ ok (reverse applied, t))
        × Restores db tx t
  unfolding revert_to_block
  revert_to_block-apply_blocks tx tx' header common blocks applied debug positive tip at fresh
        distinct h =
      let id = e.crypto.block_id common.block in
      let (new, same, g) =
        go_back debug positive blocks tx tx' header [] applied tip fresh distinct.1 h in
      let (t, restored, m, run) = g.back tx' g.same refl in
      let here : get t.block_path t.block_height ≡ some id =
        ground (arith, restored.block_path, restored.block_height, at) in
      let rounds : fuel_for db e blocks 1 ≡ suc (length blocks) =
        omega (arith, fuel_for-length db e blocks 1) in
      (
        t,
        ap (λ n. rewind db (release e) n tx' id []) (sym rounds)
            ∙ run id 1 [] distinct.0
            ∙ current_is t id 0 (reverse new) here
            ∙ ap (λ (r : List ProcessedBlock). ok (reverse r, t)) (sym same),
        restored,
      )
