-- ===== src/Consensus/Coins/Expiring.antt =====
-- The coins while contracts expire (modules/consensus/maintenance.go), in a debug build.
use hyperspace.Common.{
  ℕ, suc, ◌+◌, ◌≡◌, refl, sym, ap, ◌∙◌, subst, List, [], ◌∷◌, ◌++◌, Option, none, some, map, sum,
  ok, arith, All, All-append, >>=_inv, ok_injective, fold_result, true, false, not, ◌==◌, add64,
}
use hyperspace.Types.Transaction.{SiacoinOutput, FileContract}
use hyperspace.Types.Sums.{coins}
use hyperspace.Database.{Bolt}
use hyperspace.Consensus.State.{
  diff_apply, diff_revert, FileContractDiff, DelayedSiacoinOutputDiff, Env, sanity_next,
  storage_proof_timing,
}
use hyperspace.Consensus.Apply.{Work, record_fcd, record_dscod, found_or_zero, zero_contract}
use hyperspace.Consensus.Maintenance.{
  missed_outputs_from, apply_missed_storage_proof, missed_proofs, expire_contracts,
  apply_file_contract_maintenance,
}
use hyperspace.Consensus.Undo.Transaction.{found_inv}
use hyperspace.Consensus.Coins.{IsFunded, Moved, Moved-trans, Moved-refl}
use hyperspace.Consensus.Coins.Moves.{close_contract}
use hyperspace.Consensus.Coins.Delays.{delay_output}

module _ (db : Bolt) (e : Env) (debug : e.debug ≡ true) where
  open db use {Bucket, get, put, delete, for_each}

  abbrev contracts_of : Work db → Bucket FileContract
  contracts_of w = w.tx.file_contracts

  -- The coins of the outputs that are recorded.
  abbrev paid_coins : List DelayedSiacoinOutputDiff → ℕ
  paid_coins ds = sum (map (λ (d : DelayedSiacoinOutputDiff). d.siacoin_output.value) ds)

  abbrev freed_coins : List FileContractDiff → ℕ
  freed_coins ds = sum (map (λ (d : FileContractDiff). d.file_contract.payout) ds)

  abbrev IsPayment : DelayedSiacoinOutputDiff → Type 0
  IsPayment d = d.direction ≡ diff_apply

  abbrev IsRemoval : Bucket FileContract → FileContractDiff → Type 0
  IsRemoval b d = (d.direction ≡ diff_revert) × (get b d.id ≡ some d.file_contract)

  missed_outputs :
      (w : Work db) (fcid i : ℕ) (mpos : List SiacoinOutput) (ds : List DelayedSiacoinOutputDiff)
      → missed_outputs_from db e w fcid i mpos ≡ ok ds
      → All IsPayment ds × (paid_coins ds ≡ coins mpos)
  unfolding missed_outputs_from
  missed_outputs w fcid i [] ds h =
      subst (λ z. All IsPayment z × (paid_coins z ≡ 0)) {x = []} (ok_injective h) (tt, refl)
  missed_outputs w fcid i (mpo ∷ mpos) ds h =
      let (rest, run, end) =
        >>=_inv (missed_outputs_from db e w fcid (suc i) mpos) _ (sanity_next _ _ _ _ h) in
      let (p, s) = missed_outputs w fcid (suc i) mpos rest run in
      let d : DelayedSiacoinOutputDiff = record {
        direction = diff_apply;
        id = e.crypto.storage_proof_output_id fcid false i;
        siacoin_output = mpo;
        maturity_height = add64 w.pb.height e.constants.maturity_delay;
      } in
      let same : mpo.value + paid_coins rest ≡ mpo.value + coins mpos = ap (λ n. mpo.value + n) s in
      subst (λ z. All IsPayment z × (paid_coins z ≡ mpo.value + coins mpos)) {x = d ∷ rest}
        (ok_injective end) ((refl, p), same)

  abbrev Collected :
      Bucket FileContract → List DelayedSiacoinOutputDiff × List FileContractDiff → Type 0
  Collected b m = All IsPayment m.0 × All (IsRemoval b) m.1 × (paid_coins m.0 ≡ freed_coins m.1)

  missed_proof :
      (w : Work db) (fcid : ℕ) (m : List DelayedSiacoinOutputDiff × FileContractDiff)
      → IsFunded db (contracts_of w)
      → apply_missed_storage_proof db e w fcid ≡ ok m
      → Collected (contracts_of w) (m.0, m.1 ∷ [])
  unfolding apply_missed_storage_proof
  missed_proof w fcid m f h =
      let (fc, found, h1) =
        >>=_inv (found_or_zero db e (get (contracts_of w) fcid) zero_contract) _ h in
      let there = found_inv db e (get (contracts_of w) fcid) zero_contract fc debug found in
      let (ds, run, end) =
        >>=_inv (missed_outputs_from db e w fcid 0 fc.missed_proof_outputs)
          (λ ds. ok (ds, record { direction = diff_revert; id = fcid; file_contract = fc }))
          (sanity_next e.debug (not (fc.window_end == w.pb.height)) storage_proof_timing _ h1) in
      let (p, s) = missed_outputs w fcid 0 fc.missed_proof_outputs ds run in
      let paid : paid_coins ds ≡ fc.payout + 0 = omega (arith, s, (f fcid fc there).1) in
      let d : FileContractDiff = record {
        direction = diff_revert;
        id = fcid;
        file_contract = fc;
      } in
      subst
        (λ (z : List DelayedSiacoinOutputDiff × FileContractDiff).
          Collected (contracts_of w) (z.0, z.1 ∷ []))
        {x = (ds, d)} (ok_injective end) (p, ((refl, there), tt), paid)

  paid_coins-append :
      (xs ys : List DelayedSiacoinOutputDiff)
      → paid_coins (xs ++ ys) ≡ paid_coins xs + paid_coins ys
  paid_coins-append [] ys = omega arith
  paid_coins-append (x ∷ xs) ys = omega (arith, paid_coins-append xs ys)

  collected :
      (w : Work db) (ps : List (ℕ × Unit {0}))
      (m : List DelayedSiacoinOutputDiff × List FileContractDiff)
      → IsFunded db (contracts_of w)
      → missed_proofs db e w ps ≡ ok m
      → Collected (contracts_of w) m
  unfolding missed_proofs
  collected w [] m f h =
      subst (Collected (contracts_of w)) {x = ([], [])} (ok_injective h) (tt, tt, refl)
  collected w ((id, u) ∷ ps) m f h =
      let (first, run, h1) = >>=_inv (apply_missed_storage_proof db e w id) _ h in
      let (others, more, end) = >>=_inv (missed_proofs db e w ps) _ h1 in
      let (p, r, s) = missed_proof w id first f run in
      let (p', r', s') = collected w ps others f more in
      subst (Collected (contracts_of w)) {x = (first.0 ++ others.0, first.1 ∷ others.1)}
        (ok_injective end)
        (
          All-append IsPayment first.0 others.0 p p',
          (r.0, r'),
          omega (arith, paid_coins-append first.0 others.0, s, s'),
        )

  pay_by_direction :
      (w w' : Work db) (d : DelayedSiacoinOutputDiff)
      → d.direction ≡ diff_apply
      → record_dscod db e w d ≡ ok w'
      → Moved db w w' d.siacoin_output.value 0 × (contracts_of w' ≡ contracts_of w)
  pay_by_direction w w' d dir h =
      let same : d ≡ record {
        direction = diff_apply;
        id = d.id;
        siacoin_output = d.siacoin_output;
        maturity_height = d.maturity_height;
      } =
        ap
          (λ x. record {
            direction = x;
            id = d.id;
            siacoin_output = d.siacoin_output;
            maturity_height = d.maturity_height;
          })
          dir in
      let a =
        delay_output db e debug w w' d.maturity_height d.id d.siacoin_output
          (subst (λ z. record_dscod db e w z ≡ ok w') same h) in
      (a.moved, a.contracts)

  pay_each :
      (ds : List DelayedSiacoinOutputDiff) (w w' : Work db)
      → All IsPayment ds
      → fold_result (record_dscod db e) w ds ≡ ok w'
      → Moved db w w' (paid_coins ds) 0 × (contracts_of w' ≡ contracts_of w)
  pay_each [] w w' p h =
      subst (λ z. Moved db w z 0 0 × (contracts_of z ≡ contracts_of w)) (ok_injective h)
        (Moved-refl db w, refl)
  pay_each (d ∷ ds) w w' p h =
      let (w1, first, rest) = >>=_inv (record_dscod db e w d) _ h in
      let (m, c) = pay_by_direction w w1 d p.0 first in
      let (m', c') = pay_each ds w1 w' p.1 rest in
      (Moved-trans db w w1 w' d.siacoin_output.value 0 (paid_coins ds) 0 m m', c' ∙ c)

  -- What is left are contracts of the bucket b.
  abbrev Within : Bucket FileContract → Bucket FileContract → Type 0
  Within c b = (id : ℕ) (fc : FileContract) → get c id ≡ some fc → get b id ≡ some fc

  free_by_direction :
      (b : Bucket FileContract) (w w' : Work db) (d : FileContractDiff)
      → IsRemoval b d
      → Within (contracts_of w) b
      → record_fcd db e w d ≡ ok w'
      → Moved db w w' 0 d.file_contract.payout × Within (contracts_of w') b
  free_by_direction b w w' d (dir, there) within h =
      let same : d
          ≡ record { direction = diff_revert; id = d.id; file_contract = d.file_contract } =
        ap (λ x. record { direction = x; id = d.id; file_contract = d.file_contract }) dir in
      let c =
        close_contract db e debug w w' d.id d.file_contract
          (λ v p. ground (arith, within d.id v p, there))
          (subst (λ z. record_fcd db e w z ≡ ok w') same h) in
      (
        c.moved,
        λ id fc p. within id fc (
            ground
              (arith, p, ap (λ x. get x id) c.contracts, db.get-delete (contracts_of w) d.id id)),
      )

  free_each :
      (b : Bucket FileContract) (ds : List FileContractDiff) (w w' : Work db)
      → All (IsRemoval b) ds
      → Within (contracts_of w) b
      → fold_result (record_fcd db e) w ds ≡ ok w'
      → Moved db w w' 0 (freed_coins ds) × Within (contracts_of w') b
  free_each b [] w w' r within h =
      subst (λ z. Moved db w z 0 0 × Within (contracts_of z) b) (ok_injective h)
        (Moved-refl db w, within)
  free_each b (d ∷ ds) w w' r within h =
      let (w1, first, rest) = >>=_inv (record_fcd db e w d) _ h in
      let (m, in1) = free_by_direction b w w1 d r.0 within first in
      let (m', in2) = free_each b ds w1 w' r.1 in1 rest in
      (Moved-trans db w w1 w' 0 d.file_contract.payout 0 (freed_coins ds) m m', in2)

  expire_coins :
      (bucket : Option (Bucket (Unit {0}))) (w w' : Work db)
      → IsFunded db (contracts_of w)
      → expire_contracts db e w bucket ≡ ok w'
      → Moved db w w' 0 0 × IsFunded db (contracts_of w')
  unfolding expire_contracts
  expire_coins none w w' f h =
      subst (λ z. Moved db w z 0 0 × IsFunded db (contracts_of z)) (ok_injective h)
        (Moved-refl db w, f)
  expire_coins (some bucket) w w' f h =
      let (missed, collect, h1) = >>=_inv (missed_proofs db e w (for_each bucket)) _ h in
      let (w1, pays, h2) = >>=_inv (fold_result (record_dscod db e) w missed.0) _ h1 in
      let (w2, frees, end) = >>=_inv (fold_result (record_fcd db e) w1 missed.1) _ h2 in
      let (p, r, s) = collected w (for_each bucket) missed f collect in
      let (m1, c1) = pay_each missed.0 w w1 p pays in
      let (m2, within) =
        free_each (contracts_of w) missed.1 w1 w2 r (λ id fc q. ap (λ b. get b id) (sym c1) ∙ q)
          frees in
      subst (λ z. Moved db w z 0 0 × IsFunded db (contracts_of z)) (ok_injective end)
        (
          record {
            balance = omega (arith, m1.balance, m2.balance, s);
            same_height = m2.same_height ∙ m1.same_height;
            at_height = m2.at_height ∙ m1.at_height;
            same_block = m2.same_block ∙ m1.same_block;
          },
          λ id fc q. f id fc (within id fc q),
        )

  -- contracts_of that expire pay their coins out.
  pub maintenance_coins :
      (w w' : Work db)
      → IsFunded db w.tx.file_contracts
      → apply_file_contract_maintenance db e w ≡ ok w'
      → Moved db w w' 0 0 × IsFunded db w'.tx.file_contracts
  unfolding apply_file_contract_maintenance
  maintenance_coins w w' f h = expire_coins (get w.tx.expirations w.pb.height) w w' f h
