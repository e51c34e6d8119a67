-- ===== src/Consensus/Undo/Matured.antt =====
-- A block under way stays undoable while miner payouts are recorded and outputs mature
-- (modules/consensus/maintenance.go).
use hyperspace.Common.{
  ℕ, suc, List, [], ◌∷◌, ◌≡◌, ◌≢◌, refl, sym, ap, ◌∙◌, subst, true, false, not, ltb, some, is_some,
  Option-cases, inl, inr, ok, arith, All, >>=_inv, or_err_sound, ok_injective, if_inv, fold_keeps,
  fold_result,
}
use hyperspace.Types.Transaction.{SiacoinOutput, Block}
use hyperspace.Database.{Bolt}
use hyperspace.Database.Laws.{put-delete, get-put_self, get-delete_self, visited}
use hyperspace.Consensus.State.{
  diff_apply, diff_revert, SiacoinOutputDiff, DelayedSiacoinOutputDiff, Tx, Env, sanity_inv,
  sanity_next, panics, nil_dereference,
}
use hyperspace.Consensus.Store.{remove_dsco, delete_dsco_bucket}
use hyperspace.Consensus.Diffs.{commit_siacoin_output_diff, commit_delayed_siacoin_output_diff}
use hyperspace.Consensus.Apply.{Work, record_scod, record_dscod}
use hyperspace.Consensus.Maintenance.{
  apply_payouts_from, apply_miner_payouts, matured_scods, matured_dscods, record_matured,
  apply_matured_siacoin_outputs,
}
use hyperspace.Consensus.Undo.Outputs
use hyperspace.Consensus.Undo.Record.{
  Undoable, DelayedRevert, record_scod-Undoable, record_dscod-Undoable,
}

module _ (db : Bolt) (e : Env) (debug : e.debug ≡ true) (base : Tx db) (block : Block) where
  open db use {Bucket, get, put, delete}

  module _ (height : ℕ) where
    abbrev U : Work db → Type 0
    U = Undoable db e base block height false

    payouts_loop :
        (i : ℕ) (payouts : List SiacoinOutput) (w w' : Work db)
        → U w
        → apply_payouts_from db e i w payouts ≡ ok w'
        → U w'
    unfolding apply_payouts_from
    payouts_loop i [] w w' u h = subst U (ok_injective h) u
    payouts_loop i (payout ∷ payouts) w w' u h =
        let (w1, run, rest) = >>=_inv (record_dscod db e w _) _ h in
        payouts_loop (suc i) payouts w1 w'
          (record_dscod-Undoable db e debug base block height false w w1 _ u (λ p. cc) (λ p. cc)
            run)
          rest

    pub payouts_Undoable :
        (w w' : Work db)
        → Undoable db e base block height false w
        → apply_miner_payouts db e w ≡ ok w'
        → Undoable db e base block height false w'
    unfolding apply_miner_payouts
    payouts_Undoable w w' u h = payouts_loop 0 w.pb.block.miner_payouts w w' u h

    matured_round :
        (D : Bucket (Bucket SiacoinOutput)) (w w' : Work db) (d : SiacoinOutputDiff)
        → d.direction ≡ diff_apply
        → U w × (w.tx.delayed ≡ D)
        → record_matured db e w d ≡ ok w'
        → U w' × (w'.tx.delayed ≡ D)
    unfolding record_matured record_scod
    matured_round D w w' d dir u h =
        let (w1, run, end) = >>=_inv (record_scod db e w d) _ h in
        let u1 = record_scod-Undoable db e debug base block height false w w1 d u.0 (λ p. cc) run in
        let (tx', commit, end1) =
          >>=_inv (commit_siacoin_output_diff db e diff_apply w.tx d) _ run in
        let same : w1.tx.delayed ≡ D =
          ap (λ (z : Work db). z.tx.delayed) (sym (ok_injective end1))
          ∙ ap (λ (z : Tx db). z.delayed) (Outputs.commit_Frame db e w.tx tx' d commit)
          ∙ u.1 in
        subst (λ z. U z × (z.tx.delayed ≡ D)) (ok_injective end)
          (
            record {
              outputs = u1.outputs;
              contracts = u1.contracts;
              delayed = u1.delayed;
              scheduled = u1.scheduled;
              shut = u1.shut;
              path = u1.path;
              at_height = u1.at_height;
              same_map = u1.same_map;
              same_block = u1.same_block;
              same_height = u1.same_height;
            },
            same,
          )

    -- Taking a delayed output out.
    taken :
        (w w' : Work db) (id : ℕ) (sco : SiacoinOutput) (c : Bucket SiacoinOutput)
        → get w.tx.delayed height ≡ some c
        → record_dscod db e w (record {
          direction = diff_revert;
          id = id;
          siacoin_output = sco;
          maturity_height = height;
        })
          ≡ ok w'
        → (is_some (get c id) ≡ true) × (get w'.tx.delayed height ≡ some (delete c id))
    unfolding record_dscod commit_delayed_siacoin_output_diff remove_dsco
    taken w w' id sco c bucket h =
        let (tx', commit, end) = >>=_inv (remove_dsco db e w.tx height id) _ h in
        let (c', bucket', h1) =
          or_err_sound (get w.tx.delayed height) (panics nil_dereference) _ commit in
        let (present, h2) = sanity_inv e.debug (not (is_some (get c' id))) _ _ debug h1 in
        let same : c' ≡ c = cc in
        (
          ground (arith, ap (λ z. get z id) same),
          ap (λ (z : Work db). get z.tx.delayed height) (sym (ok_injective end))
              ∙ ap (λ (z : Tx db). get z.delayed height) (sym (ok_injective h2))
              ∙ get-put_self db w.tx.delayed height (delete c' id)
              ∙ ap (λ z. some (delete z id)) same,
        )

    -- The loop over the matured outputs of a bucket b, which holds c by now.
    drain :
        (b : Bucket SiacoinOutput) (ps : List (ℕ × SiacoinOutput))
        → All (λ p. get b p.0 ≡ some p.1) ps
        → (w w' : Work db) → U w
        → (c : Bucket SiacoinOutput) → get w.tx.delayed height ≡ some c
        → ((k : ℕ) (v : SiacoinOutput) → get c k ≡ some v → get b k ≡ some v)
        → fold_result (record_dscod db e) w (matured_dscods db e height ps) ≡ ok w'
        → U w'
          × (c' : Bucket SiacoinOutput) × (get w'.tx.delayed height ≡ some c')
          × ((k : ℕ) (v : SiacoinOutput)
              → get c' k ≡ some v
              → (get c k ≡ some v) × All (λ p. p.0 ≢ k) ps)
    unfolding matured_dscods
    drain b [] a w w' u c bucket within h =
        let same = ok_injective h in
        (
          subst U same u,
          c,
          ap (λ (z : Work db). get z.tx.delayed height) (sym same) ∙ bucket,
          λ k v p. (p, tt),
        )
    drain b ((id, sco) ∷ ps) a w w' u c bucket within h =
        let d : DelayedSiacoinOutputDiff = record {
          direction = diff_revert;
          id = id;
          siacoin_output = sco;
          maturity_height = height;
        } in
        let (w1, run, rest) = >>=_inv (record_dscod db e w d) _ h in
        let (present, bucket1) = taken w w1 id sco c bucket run in
        let honest : get c id ≡ some sco = elim (Option-cases (get c id)) [
          | inl p ↦ ground arith
          | inr q ↦ q.1 ∙ sym (within id q.0 q.1) ∙ a.0
        ] in
        let u1 =
          record_dscod-Undoable db e debug base block height false w w1 d u (λ _ c' q. cc) (λ p. cc)
            run in
        let (u', c', bucket', left) =
          drain b ps a.1 w1 w' u1 (delete c id) bucket1
            (λ k v p. within k v (ground (arith, db.get-delete c id k))) rest in
        (
          u',
          c',
          bucket',
          λ k v p.
              let (was, others) = left k v p in
              (
                ground (arith, db.get-delete c id k),
                (ground (arith, db.get-delete c id k), others),
              ),
        )

    matured_directions :
        (tx : Tx db) (ps : List (ℕ × SiacoinOutput)) (scods : List SiacoinOutputDiff)
        → matured_scods db e tx ps ≡ ok scods
        → All (λ (d : SiacoinOutputDiff). d.direction ≡ diff_apply) scods
    unfolding matured_scods
    matured_directions tx [] scods h =
        subst (All (λ (d : SiacoinOutputDiff). d.direction ≡ diff_apply)) {x = []} (ok_injective h)
          tt
    matured_directions tx ((id, sco) ∷ ps) scods h =
        let h1 = sanity_next _ _ _ _ h in
        let (rest, run, end) = >>=_inv (matured_scods db e tx ps) _ h1 in
        let applied : All (λ (d : SiacoinOutputDiff). d.direction ≡ diff_apply)
            (record { direction = diff_apply; id = id; siacoin_output = sco } ∷ rest) =
          (refl, matured_directions tx ps rest run) in
        subst (All (λ (d : SiacoinOutputDiff). d.direction ≡ diff_apply)) (ok_injective end) applied

    -- The bucket, emptied, is deleted.
    closes :
        (w : Work db) (tx' : Tx db)
        → U w
        → get w.tx.delayed height ≡ some db.empty
        → delete_dsco_bucket db e w.tx height ≡ ok tx'
        → Undoable db e base block height true (record w { tx = tx' })
    unfolding delete_dsco_bucket
    closes w tx' u bucket h =
        subst (λ (z : Tx db). Undoable db e base block height true (record w { tx = z }))
          (ok_injective (sanity_next _ _ _ _ h))
          (record {
            outputs = u.outputs;
            contracts = u.contracts;
            delayed =
                subst (λ z. DelayedRevert db e w.pb.delayed_siacoin_output_diffs z base.delayed)
                  (sym (put-delete db w.tx.delayed height db.empty bucket)) u.delayed;
            scheduled = u.scheduled;
            shut = λ _. get-delete_self db w.tx.delayed height;
            path = u.path;
            at_height = u.at_height;
            same_map = u.same_map;
            same_block = u.same_block;
            same_height = u.same_height;
          })

  matured_here :
      (w w' : Work db)
      → Undoable db e base block w.pb.height false w
      → apply_matured_siacoin_outputs db e w ≡ ok w'
      → Undoable db e base block w.pb.height (not (ltb w.pb.height e.constants.maturity_delay)) w'
  unfolding apply_matured_siacoin_outputs
  matured_here w w' u h =
      let h' = if_inv (ltb w.pb.height e.constants.maturity_delay) (ok w) _ h in
      elim h' [
        | inl (early, same) ↦
            rw early (subst (Undoable db e base block w.pb.height false) (ok_injective same) u)
        | inr (late, run) ↦
            let (b, bucket, h1) =
              or_err_sound (get w.tx.delayed w.pb.height) (panics nil_dereference) _ run in
            let (scods, collect, h2) = >>=_inv (matured_scods db e w.tx (db.for_each b)) _ h1 in
            let (w1, add, h3) = >>=_inv (fold_result (record_matured db e) w scods) _ h2 in
            let (w2, remove, h4) =
              >>=_inv
                (fold_result (record_dscod db e) w1
                  (matured_dscods db e w.pb.height (db.for_each b)))
                _ h3 in
            let (tx3, shut, end) = >>=_inv (delete_dsco_bucket db e w2.tx w.pb.height) _ h4 in
            let (u1, same) =
              fold_keeps
                (λ z. Undoable db e base block w.pb.height false z × (z.tx.delayed ≡ w.tx.delayed))
                (λ (d : SiacoinOutputDiff). d.direction ≡ diff_apply) (record_matured db e)
                (matured_round w.pb.height w.tx.delayed) scods
                (matured_directions w.pb.height w.tx (db.for_each b) scods collect) w w1 (u, refl)
                add in
            let (u2, c, bucket2, left) =
              drain w.pb.height b (db.for_each b) (db.for_each-All b) w1 w2 u1 b
                (ap (λ z. get z w.pb.height) same ∙ bucket) (λ k v p. p) remove in
            let none_left : c ≡ db.empty = db.ext c db.empty (λ k. elim (Option-cases (get c k)) [
              | inl p ↦ p ∙ sym (db.get-empty SiacoinOutput k)
              | inr (v, q) ↦ let absurd = visited db b k v (left k v q).0 (left k v q).1 in cc
            ]) in
            rw late (
              subst (Undoable db e base block w.pb.height true) (ok_injective end)
                (closes w.pb.height w2 tx3 u2 (bucket2 ∙ ap some none_left) shut))
      ]

  pub matured_Undoable :
      (height : ℕ) (w w' : Work db)
      → Undoable db e base block height false w
      → apply_matured_siacoin_outputs db e w ≡ ok w'
      → Undoable db e base block height (not (ltb height e.constants.maturity_delay)) w'
  matured_Undoable height w w' u h =
      subst (λ n. Undoable db e base block n (not (ltb n e.constants.maturity_delay)) w')
        u.same_height
        (matured_here w w' (subst (λ n. Undoable db e base block n false w) (sym u.same_height) u)
          h)
