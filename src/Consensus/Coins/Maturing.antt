-- ===== src/Consensus/Coins/Maturing.antt =====
-- The coins while miner payouts are recorded and outputs mature (modules/consensus/maintenance.go), in a
-- debug build.
use hyperspace.Common.{
  ℕ, suc, ◌+◌, ◌≡◌, inl, inr, refl, sym, ap, ◌∙◌, subst, List, [], ◌∷◌, true, ltb, some, ok, arith,
  All, >>=_inv, or_err_sound, ok_injective, if_inv, fold_result,
}
use hyperspace.Types.Transaction.{SiacoinOutput, FileContract}
use hyperspace.Types.Sums.{coins}
use hyperspace.Database.{Bolt, weigh}
use hyperspace.Database.Laws.{weigh-delete}
use hyperspace.Consensus.State.{
  diff_apply, SiacoinOutputDiff, Tx, Env, sanity_next, panics, nil_dereference,
}
use hyperspace.Consensus.Store.{delete_dsco_bucket}
use hyperspace.Consensus.Apply.{Work, record_scod, record_dscod}
use hyperspace.Consensus.Maintenance.{
  apply_payouts_from, apply_miner_payouts, matured_scods, matured_dscods, record_matured,
  apply_matured_siacoin_outputs,
}
use hyperspace.Consensus.Coins.{output_value, bucket_value, Moved, Moved-trans, Moved-refl}
use hyperspace.Consensus.Coins.Moves.{add_output}
use hyperspace.Consensus.Coins.Delays.{delay_output, mature_output}

module _ (db : Bolt) (e : Env) (debug : e.debug ≡ true) where
  open db use {Bucket, get, put, delete, for_each}

  abbrev contracts_of : Work db → Bucket FileContract
  contracts_of w = w.tx.file_contracts

  payouts_loop :
      (i : ℕ) (scos : List SiacoinOutput) (w w' : Work db)
      → apply_payouts_from db e i w scos ≡ ok w'
      → Moved db w w' (coins scos) 0 × (contracts_of w' ≡ contracts_of w)
  unfolding apply_payouts_from
  payouts_loop i [] w w' h =
      subst (λ z. Moved db w z 0 0 × (contracts_of z ≡ contracts_of w)) (ok_injective h)
        (Moved-refl db w, refl)
  payouts_loop i (sco ∷ scos) w w' h =
      let (w1, run, rest) = >>=_inv (record_dscod db e w _) _ h in
      let a = delay_output db e debug w w1 _ (e.crypto.miner_payout_id w.pb.block i) sco run in
      let (m, c) = payouts_loop (suc i) scos w1 w' rest in
      (Moved-trans db w w1 w' sco.value 0 (coins scos) 0 a.moved m, c ∙ a.contracts)

  pub payouts_coins :
      (w w' : Work db)
      → apply_miner_payouts db e w ≡ ok w'
      → Moved db w w' (coins w.pb.block.miner_payouts) 0
        × (w'.tx.file_contracts ≡ w.tx.file_contracts)
  unfolding apply_miner_payouts
  payouts_coins w w' h = payouts_loop 0 w.pb.block.miner_payouts w w' h

  abbrev values : List (ℕ × SiacoinOutput) → ℕ
  values ps = weigh output_value ps

  add_round :
      (w w' : Work db) (id : ℕ) (sco : SiacoinOutput)
      → record_matured db e w (record { direction = diff_apply; id = id; siacoin_output = sco })
        ≡ ok w'
      → Moved db w w' sco.value 0
        × (contracts_of w' ≡ contracts_of w)
        × (w'.tx.delayed ≡ w.tx.delayed)
  unfolding record_matured
  add_round w w' id sco h =
      let d : SiacoinOutputDiff = record {
        direction = diff_apply;
        id = id;
        siacoin_output = sco;
      } in
      let (w1, run, end) = >>=_inv (record_scod db e w d) _ h in
      let a = add_output db e debug w w1 id sco run in
      subst
        (λ (z : Work db).
          Moved db w z sco.value 0
          × (contracts_of z ≡ contracts_of w)
          × (z.tx.delayed ≡ w.tx.delayed))
        (ok_injective end)
        (
          record {
            balance = a.moved.balance;
            same_height = a.moved.same_height;
            at_height = a.moved.at_height;
            same_block = a.moved.same_block;
          },
          a.contracts,
          a.delayed,
        )

  add_matured :
      (tx : Tx db) (ps : List (ℕ × SiacoinOutput)) (scods : List SiacoinOutputDiff) (w w' : Work db)
      → matured_scods db e tx ps ≡ ok scods
      → fold_result (record_matured db e) w scods ≡ ok w'
      → Moved db w w' (values ps) 0
        × (contracts_of w' ≡ contracts_of w)
        × (w'.tx.delayed ≡ w.tx.delayed)
  unfolding matured_scods
  add_matured tx [] scods w w' collect h =
      let h' =
        subst (λ z. fold_result (record_matured db e) w z ≡ ok w') {x = scods} {y = []}
          (sym (ok_injective collect)) h in
      subst
        (λ (z : Work db).
          Moved db w z 0 0 × (contracts_of z ≡ contracts_of w) × (z.tx.delayed ≡ w.tx.delayed))
        (ok_injective h') (Moved-refl db w, refl, refl)
  add_matured tx ((id, sco) ∷ ps) scods w w' collect h =
      let (others, run, end) = >>=_inv (matured_scods db e tx ps) _ (sanity_next _ _ _ _ collect) in
      let h' =
        subst (λ z. fold_result (record_matured db e) w z ≡ ok w') (sym (ok_injective end)) h in
      let (w1, first, rest) = >>=_inv (record_matured db e w _) _ h' in
      let (m, c, d) = add_round w w1 id sco first in
      let (m', c', d') = add_matured tx ps others w1 w' run rest in
      (Moved-trans db w w1 w' sco.value 0 (values ps) 0 m m', c' ∙ c, d' ∙ d)

  -- The outputs of a bucket b are taken out of what is left of it, c.
  take_matured :
      (height : ℕ) (b : Bucket SiacoinOutput) (ps : List (ℕ × SiacoinOutput))
      → All (λ p. get b p.0 ≡ some p.1) ps
      → (w w' : Work db) (c : Bucket SiacoinOutput) → get w.tx.delayed height ≡ some c
      → ((k : ℕ) (v : SiacoinOutput) → get c k ≡ some v → get b k ≡ some v)
      → fold_result (record_dscod db e) w (matured_dscods db e height ps) ≡ ok w'
      → Moved db w w' 0 (values ps)
        × (contracts_of w' ≡ contracts_of w)
        × (c' : Bucket SiacoinOutput) × (get w'.tx.delayed height ≡ some c')
        × (values (for_each c') + values ps ≡ values (for_each c))
  unfolding matured_dscods
  take_matured height b [] a w w' c found within h =
      subst
        (λ (z : Work db).
          Moved db w z 0 0
          × (contracts_of z ≡ contracts_of w)
          × (c' : Bucket SiacoinOutput) × (get z.tx.delayed height ≡ some c')
          × (values (for_each c') + 0 ≡ values (for_each c)))
        (ok_injective h) (Moved-refl db w, refl, c, found, omega arith)
  take_matured height b ((id, sco) ∷ ps) a w w' c found within h =
      let (w1, first, rest) = >>=_inv (record_dscod db e w _) _ h in
      let (t, found1, there) =
        mature_output db e debug w w1 height id sco c found
          (λ v p. ground (arith, within id v p, a.0)) first in
      let less = weigh-delete db c id sco output_value there in
      let (m, same, c', found', left) =
        take_matured height b ps a.1 w1 w' (delete c id) found1
          (λ k v p. within k v (ground (arith, p, db.get-delete c id k))) rest in
      (
        Moved-trans db w w1 w' 0 sco.value 0 (values ps) t.moved m,
        same ∙ t.contracts,
        c',
        found',
        omega (arith, left, less),
      )

  -- Maturing moves coins, and makes none.
  pub matured_coins :
      (w w' : Work db)
      → apply_matured_siacoin_outputs db e w ≡ ok w'
      → Moved db w w' 0 0 × (w'.tx.file_contracts ≡ w.tx.file_contracts)
  unfolding apply_matured_siacoin_outputs delete_dsco_bucket
  matured_coins w w' h = elim (if_inv (ltb w.pb.height e.constants.maturity_delay) (ok w) _ h) [
    | inl (early, same) ↦
        subst (λ z. Moved db w z 0 0 × (contracts_of z ≡ contracts_of w)) (ok_injective same)
          (Moved-refl db w, refl)
    | inr (late, run) ↦
        let (b, found, h1) =
          or_err_sound (get w.tx.delayed w.pb.height) (panics nil_dereference) _ run in
        let (scods, collect, h2) = >>=_inv (matured_scods db e w.tx (for_each b)) _ h1 in
        let (w1, adds, h3) = >>=_inv (fold_result (record_matured db e) w scods) _ h2 in
        let (w2, takes, h4) =
          >>=_inv
            (fold_result (record_dscod db e) w1 (matured_dscods db e w.pb.height (for_each b))) _
            h3 in
        let (tx3, shut, end) = >>=_inv (delete_dsco_bucket db e w2.tx w.pb.height) _ h4 in
        let (m1, c1, d1) = add_matured w.tx (for_each b) scods w w1 collect adds in
        let (m2, c2, c', found', left) =
          take_matured w.pb.height b (for_each b) (db.for_each-All b) w1 w2 b
            (ap (λ d. get d w.pb.height) d1 ∙ found) (λ k v p. p) takes in
        let less = weigh-delete db w2.tx.delayed w.pb.height c' (bucket_value db) found' in
        subst (λ z. Moved db w z 0 0 × (contracts_of z ≡ contracts_of w)) (ok_injective end)
          (subst
            (λ (z : Tx db).
              Moved db w (record w2 { tx = z }) 0 0 × (z.file_contracts ≡ contracts_of w))
            {x = record w2.tx { delayed = delete w2.tx.delayed w.pb.height }}
            (ok_injective (sanity_next _ _ _ _ shut))
            (
              record {
                balance = omega (arith, m1.balance, m2.balance, left, less);
                same_height = m2.same_height ∙ m1.same_height;
                at_height = m2.at_height ∙ m1.at_height;
                same_block = m2.same_block ∙ m1.same_block;
              },
              c2 ∙ c1,
            ))
  ]
