-- ===== src/Consensus/Undo/Expired.antt =====
-- A block under way stays undoable while contracts expire (modules/consensus/maintenance.go).
use hyperspace.Common.{
  ℕ, List, [], ◌∷◌, ◌≡◌, ◌≢◌, refl, sym, ap, ◌∙◌, subst, Bool, true, add64, Option, none, some,
  Option-cases, inl, inr, ok, arith, All, >>=_inv, ok_injective, fold_keeps, fold_result,
}
use hyperspace.Types.Transaction.{FileContract, Block}
use hyperspace.Database.{Bolt}
use hyperspace.Database.Laws.{visited}
use hyperspace.Consensus.State.{diff_revert, FileContractDiff, DelayedSiacoinOutputDiff, Tx, Env}
use hyperspace.Consensus.Store.{bucket_or_new}
use hyperspace.Consensus.Apply.{Work, record_fcd, record_dscod}
use hyperspace.Consensus.Maintenance.{
  missed_proofs, expire_contracts, apply_file_contract_maintenance,
}
use hyperspace.Consensus.Undo.{IsScheduled, expected}
use hyperspace.Consensus.Undo.Record.{Undoable, record_fcd-Undoable, record_dscod-Undoable}
use hyperspace.Consensus.Undo.Transaction.{dscod-contracts}
use hyperspace.Consensus.Undo.Missed.{IsPayout, IsRemoval, collected, erased}

module _ (db : Bolt) (e : Env) (debug : e.debug ≡ true) where
  open db use {Bucket, get, put, delete}

  module _ (base : Tx db) (block : Block) (height : ℕ) (closed : Bool)
      (ahead : add64 height e.constants.maturity_delay ≢ height) where
    abbrev V : Work db → Type 0
    V = Undoable db e base block height closed

    payout_round :
        (w0 w w' : Work db) (d : DelayedSiacoinOutputDiff)
        → w0.pb.height ≡ height
        → IsPayout db e debug w0 d
        → V w × (w.tx.file_contracts ≡ w0.tx.file_contracts)
        → record_dscod db e w d ≡ ok w'
        → V w' × (w'.tx.file_contracts ≡ w0.tx.file_contracts)
    payout_round w0 w w' d at p u h =
        let later : d.maturity_height ≡ add64 height e.constants.maturity_delay =
          p.1 ∙ ap (λ n. add64 n e.constants.maturity_delay) at in
        (
          record_dscod-Undoable db e debug base block height closed w w' d u.0 (λ q. cc)
              (λ _ q. ahead (sym later ∙ q)) h,
          dscod-contracts db e debug base block height w w' d (λ q. cc) h ∙ u.1,
        )

    -- The loop over the contracts that expire, of the contracts F.
    removals_loop :
        (F : Bucket FileContract) (fcds : List FileContractDiff)
        → All (IsRemoval db e debug F) fcds
        → (w w' : Work db) → V w
        → ((k : ℕ) (v : FileContract) → get w.tx.file_contracts k ≡ some v → get F k ≡ some v)
        → fold_result (record_fcd db e) w fcds ≡ ok w'
        → V w'
          × ((k : ℕ) (v : FileContract)
              → get w'.tx.file_contracts k ≡ some v
              → (get w.tx.file_contracts k ≡ some v)
                × All (λ (d : FileContractDiff). d.id ≢ k) fcds)
    removals_loop F [] a w w' u within h =
        let same = ok_injective h in
        (subst V same u, λ k v p. (ap (λ (z : Work db). get z.tx.file_contracts k) same ∙ p, tt))
    removals_loop F (d ∷ ds) a w w' u within h =
        let (w1, run, rest) = >>=_inv (record_fcd db e w d) _ h in
        let plain : FileContractDiff = record {
          direction = diff_revert;
          id = d.id;
          file_contract = d.file_contract;
        } in
        let this : d ≡ plain =
          ap (λ dir. record { direction = dir; id = d.id; file_contract = d.file_contract })
            a.0.0 in
        let (old, present, after) =
          erased db e debug w w1 d.id d.file_contract (ap (record_fcd db e w) (sym this) ∙ run) in
        let honest : get w.tx.file_contracts d.id ≡ some d.file_contract =
          present ∙ sym (within d.id old present) ∙ a.0.1 in
        let u1 =
          record_fcd-Undoable db e debug base block height closed w w1 d u (λ _. honest) run in
        let still : (k : ℕ) (v : FileContract)
            → get w1.tx.file_contracts k ≡ some v
            → (get w.tx.file_contracts k ≡ some v) × (d.id ≢ k) =
          λ k v p.
            let q : get (delete w.tx.file_contracts d.id) k ≡ some v =
              ap (λ c. get c k) (sym after) ∙ p in
            (
              ground (arith, db.get-delete w.tx.file_contracts d.id k),
              ground (arith, db.get-delete w.tx.file_contracts d.id k),
            ) in
        let (u', left) =
          removals_loop F ds a.1 w1 w' u1 (λ k v p. within k v (still k v p).0) rest in
        (
          u',
          λ k v p.
              let (was, others) = left k v p in ((still k v was).0, ((still k v was).1, others)),
        )

    -- Without the contracts that end at a height, its bucket may go.
    deleted_bucket :
        (fcs : Bucket FileContract) (exp : Bucket (Bucket (Unit {0}))) (n : ℕ)
        → IsScheduled db fcs exp
        → ((k : ℕ) (v : FileContract) → get fcs k ≡ some v → v.window_end ≢ n)
        → IsScheduled db fcs (delete exp n)
    deleted_bucket fcs exp n s none_left h k = elim (Option-cases (get fcs k)) [
      | inl p ↦ ground (arith, s h k, db.get-delete exp n h, db.get-empty (Unit {0}) k)
      | inr (v, q) ↦
          ground (arith, s h k, db.get-delete exp n h, db.get-empty (Unit {0}) k, none_left k v q)
    ]

    expired_bucket :
        (w w' : Work db) (bucket : Bucket (Unit {0}))
        → get w.tx.expirations w.pb.height ≡ some bucket
        → V w
        → expire_contracts db e w (some bucket) ≡ ok w'
        → V w'
    unfolding expire_contracts
    expired_bucket w w' bucket found u h =
        let (m, collect, h1) = >>=_inv (missed_proofs db e w (db.for_each bucket)) _ h in
        let (w1, pay, h2) = >>=_inv (fold_result (record_dscod db e) w m.0) _ h1 in
        let (w2, remove, end) = >>=_inv (fold_result (record_fcd db e) w1 m.1) _ h2 in
        let (paid, removals, ids) = collected db e debug w (db.for_each bucket) m collect in
        let (u1, same) =
          fold_keeps (λ z. V z × (z.tx.file_contracts ≡ w.tx.file_contracts))
            (IsPayout db e debug w) (record_dscod db e)
            (λ s s' d p q run. payout_round w s s' d u.same_height p q run) m.0 paid w w1 (u, refl)
            pay in
        let (u2, left) =
          removals_loop w.tx.file_contracts m.1 removals w1 w2 u1
            (λ k v p. ap (λ c. get c k) (sym same) ∙ p) remove in
        let none_left : (k : ℕ) (v : FileContract)
            → get w2.tx.file_contracts k ≡ some v
            → v.window_end ≢ w.pb.height =
          λ k v p ends.
            let (was, others) = left k v p in
            let before : get w.tx.file_contracts k ≡ some v = ap (λ c. get c k) (sym same) ∙ was in
            let entry : get bucket k ≡ some tt =
              ap (λ o. get (bucket_or_new db o) k) (sym found)
              ∙ u.scheduled w.pb.height k
              ∙ ap (λ o. expected db o w.pb.height) before
              ∙ ground arith in
            let absurd = visited db bucket k tt entry (ids k others) in cc in
        subst V (ok_injective end) (record {
          outputs = u2.outputs;
          contracts = u2.contracts;
          delayed = u2.delayed;
          scheduled =
              deleted_bucket w2.tx.file_contracts w2.tx.expirations w.pb.height u2.scheduled
                none_left;
          shut = u2.shut;
          path = u2.path;
          at_height = u2.at_height;
          same_map = u2.same_map;
          same_block = u2.same_block;
          same_height = u2.same_height;
        })

    expired_cases :
        (w w' : Work db) (o : Option (Bucket (Unit {0})))
        → get w.tx.expirations w.pb.height ≡ o
        → V w
        → expire_contracts db e w o ≡ ok w'
        → V w'
    unfolding expire_contracts
    expired_cases w w' none found u h = subst V (ok_injective h) u
    expired_cases w w' (some bucket) found u h = expired_bucket w w' bucket found u h

    pub expired_Undoable :
        (w w' : Work db)
        → Undoable db e base block height closed w
        → apply_file_contract_maintenance db e w ≡ ok w'
        → Undoable db e base block height closed w'
    unfolding apply_file_contract_maintenance
    expired_Undoable w w' u h = expired_cases w w' (get w.tx.expirations w.pb.height) refl u h
