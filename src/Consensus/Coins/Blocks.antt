-- ===== src/Consensus/Coins/Blocks.antt =====
-- modules/consensus/consistency.go, checkSiacoinCount: the coins of the database are those that have been
-- made; and what generateAndApplyDiff of diffs.go does to them, in a debug build.
use hyperspace.Common.{
  ℕ, suc, ◌+◌, ◌^◌, ◌<◌, ◌≡◌, ◌↔◌, All, is_some, refl, sym, ap, ◌∙◌, subst, List, [], ◌∷◌, Bool,
  true, false, Option, none, some, map, sum, ok, arith, >>=_inv, ok_injective, add64, if◌then◌else◌,
}
use hyperspace.Types.Currency.{Currency, equals, cmp}
use hyperspace.Types.Transaction.{SiacoinOutput, FileContract, Transaction, add_each, value_of}
use hyperspace.Types.Sums.{coins, coins-add_each}
use hyperspace.Types.Constants.{standard}
use hyperspace.Types.Subsidy.{calculate_num_siacoins, calculate_coinbase}
use hyperspace.Types.Subsidy.Supply.{reward, minted, num_siacoins-minted, calculate_coinbase-reward}
use hyperspace.Database.{Bolt, weigh}
use hyperspace.Consensus.State.{Tx, Env, ProcessedBlockHeader, sanity_inv}
use hyperspace.Consensus.Store.{create_dsco_bucket, push_path}
use hyperspace.Consensus.BlockValidation.{check_miner_payouts}
use hyperspace.Consensus.BlockValidation.Payouts.{check_miner_payouts-coins}
use hyperspace.Consensus.Apply.{Work}
use hyperspace.Consensus.Maintenance.{
  apply_miner_payouts, apply_matured_siacoin_outputs, apply_maintenance,
}
use hyperspace.Consensus.Generate.{
  check_successor, validate_and_apply, store_block, generate_and_apply_diff,
}
use hyperspace.Consensus.Coins.{output_value, contract_value, bucket_value, IsFunded, total, Moved}
use hyperspace.Consensus.Coins.Transactions.{transactions_coins}
use hyperspace.Consensus.Coins.Maturing.{payouts_coins, matured_coins}
use hyperspace.Consensus.Coins.Expiring.{maintenance_coins}

abbrev pub add_outputs : Currency → List (ℕ × SiacoinOutput) → Currency
add_outputs s [] = s
add_outputs s ((id, sco) ∷ rest) = add_outputs (s + sco.value) rest

module _ (db : Bolt) where
  open db use {Bucket, get, put, for_each}

  abbrev pub add_buckets : Currency → List (ℕ × Bucket SiacoinOutput) → Currency
  add_buckets s [] = s
  add_buckets s ((height, b) ∷ rest) = add_buckets (add_outputs s (for_each b)) rest

  abbrev pub add_contracts : Currency → List (ℕ × FileContract) → Currency
  add_contracts s [] = s
  add_contracts s ((id, fc) ∷ rest) =
      add_contracts (s + add_each value_of 0 fc.valid_proof_outputs) rest

  -- False is the report of a wrong number.
  unfoldable pub check_siacoin_count : Env → Tx db → Bool
  unfolding equals cmp
  check_siacoin_count e tx =
      let dsco_siacoins : Currency = add_buckets 0 (for_each tx.delayed) in
      let sco_siacoins : Currency = add_outputs 0 (for_each tx.siacoin_outputs) in
      let fc_siacoins : Currency = add_contracts 0 (for_each tx.file_contracts) in
      equals (dsco_siacoins + sco_siacoins + fc_siacoins)
        (calculate_num_siacoins e.constants tx.block_height)

  add_outputs-weigh :
      (s : ℕ) (ps : List (ℕ × SiacoinOutput)) → add_outputs s ps ≡ s + weigh output_value ps
  add_outputs-weigh s [] = omega arith
  add_outputs-weigh s ((id, sco) ∷ ps) = omega (arith, add_outputs-weigh (s + sco.value) ps)

  add_buckets-weigh :
      (s : ℕ) (ps : List (ℕ × Bucket SiacoinOutput))
      → add_buckets s ps ≡ s + weigh (bucket_value db) ps
  add_buckets-weigh s [] = omega arith
  add_buckets-weigh s ((h, b) ∷ ps) =
      omega
        (arith, add_buckets-weigh (add_outputs s (for_each b)) ps, add_outputs-weigh s (for_each b))

  add_contracts-weigh :
      (contracts : Bucket FileContract) (s : ℕ) (ps : List (ℕ × FileContract))
      → IsFunded db contracts
      → All (λ p. get contracts p.0 ≡ some p.1) ps
      → add_contracts s ps ≡ s + weigh contract_value ps
  add_contracts-weigh contracts s [] f a = omega arith
  add_contracts-weigh contracts s ((id, fc) ∷ ps) f a = omega (
    arith,
    add_contracts-weigh contracts (s + add_each value_of 0 fc.valid_proof_outputs) ps f a.1,
    coins-add_each fc.valid_proof_outputs,
    (f id fc a.0).0,
  )

  -- The count of the coins is the total.
  counted :
      (tx : Tx db)
      → IsFunded db tx.file_contracts
      → add_buckets 0 (for_each tx.delayed)
          + add_outputs 0 (for_each tx.siacoin_outputs)
          + add_contracts 0 (for_each tx.file_contracts)
        ≡ total db tx
  counted tx f = omega (
    arith,
    add_buckets-weigh 0 (for_each tx.delayed),
    add_outputs-weigh 0 (for_each tx.siacoin_outputs),
    add_contracts-weigh tx.file_contracts 0 (for_each tx.file_contracts) f
        (db.for_each-All tx.file_contracts),
  )

  check_siacoin_count_iff :
      (e : Env) (tx : Tx db)
      → IsFunded db tx.file_contracts
      → (check_siacoin_count e tx ≡ true)
        ↔ (total db tx ≡ calculate_num_siacoins e.constants tx.block_height)
  unfolding check_siacoin_count
  check_siacoin_count_iff e tx f =
      (λ h. ground (arith, counted tx f), λ h. ground (arith, counted tx f))

  module _ (e : Env) (debug : e.debug ≡ true) where
    opened :
        (tx tx' : Tx db) (height : ℕ)
        → create_dsco_bucket db e tx height ≡ ok tx'
        → (total db tx' ≡ total db tx)
          × (tx'.file_contracts ≡ tx.file_contracts)
          × (tx'.block_height ≡ tx.block_height)
    unfolding create_dsco_bucket
    opened tx tx' height h =
        let (absent, e1) = sanity_inv _ _ _ _ debug h in
        let grown = db.weigh-put tx.delayed height db.empty (bucket_value db) (ground arith) in
        let nothing = db.weigh-empty SiacoinOutput output_value in
        let fresh : is_some (get tx.delayed height) ≡ false = absent in
        subst
          (λ (z : Tx db).
            (total db z ≡ total db tx)
            × (z.file_contracts ≡ tx.file_contracts)
            × (z.block_height ≡ tx.block_height))
          {x = if is_some (get tx.delayed height)
            then tx
            else record tx { delayed = put tx.delayed height db.empty }}
          (ok_injective e1) (rw fresh (omega (arith, grown, nothing), refl, refl))

    abbrev fees : Work db → ℕ
    fees w = sum (map (λ (t : Transaction). sum t.miner_fees) w.pb.block.transactions)

    stored :
        (w : Work db)
        → (total db (store_block db e w).tx ≡ total db w.tx)
          × ((store_block db e w).tx.file_contracts ≡ w.tx.file_contracts)
          × ((store_block db e w).tx.block_height ≡ add64 w.tx.block_height 1)
    unfolding store_block push_path
    stored w = header w.pbh
      where
        header :
            (o : Option ProcessedBlockHeader)
            → (total db (store_block db e (record w { pbh = o })).tx ≡ total db w.tx)
              × ((store_block db e (record w { pbh = o })).tx.file_contracts ≡ w.tx.file_contracts)
              × ((store_block db e (record w { pbh = o })).tx.block_height
                  ≡ add64 w.tx.block_height 1)
        header none = (refl, refl, refl)
        header (some h) = (refl, refl, refl)

    maintained :
        (w w' : Work db)
        → IsFunded db w.tx.file_contracts
        → apply_maintenance db e w ≡ ok w'
        → Moved db w w' (coins w.pb.block.miner_payouts) 0 × IsFunded db w'.tx.file_contracts
    unfolding apply_maintenance
    maintained w w' f h =
        let (w1, r1, h1) = >>=_inv (apply_miner_payouts db e w) _ h in
        let (w2, r2, h2) = >>=_inv (apply_matured_siacoin_outputs db e w1) _ h1 in
        let (m1, c1) = payouts_coins db e debug w w1 r1 in
        let (m2, c2) = matured_coins db e debug w1 w2 r2 in
        let (m3, f3) =
          maintenance_coins db e debug w2 w' (subst (IsFunded db) (sym (c2 ∙ c1)) f) h2 in
        (
          record {
            balance = omega (arith, m1.balance, m2.balance, m3.balance);
            same_height = m3.same_height ∙ m2.same_height ∙ m1.same_height;
            at_height = m3.at_height ∙ m2.at_height ∙ m1.at_height;
            same_block = m3.same_block ∙ m2.same_block ∙ m1.same_block;
          },
          f3,
        )

    -- A block that a debug build generates adds the payouts of its miner to the coins and takes its fees
    -- away.
    pub generate-coins :
        (w w' : Work db)
        → IsFunded db w.tx.file_contracts
        → generate_and_apply_diff db e w ≡ ok w'
        → (total db w'.tx + fees w ≡ total db w.tx + coins w.pb.block.miner_payouts)
          × IsFunded db w'.tx.file_contracts
          × (w'.tx.block_height ≡ add64 w.tx.block_height 1)
    unfolding generate_and_apply_diff
    generate-coins w w' f h =
        let (u, checked, h1) = >>=_inv (check_successor db e w.tx w.pb.block) _ h in
        let (tx0, r0, h2) =
          >>=_inv (create_dsco_bucket db e w.tx (add64 w.pb.height e.constants.maturity_delay)) _
            h1 in
        let (w1, r1, h3) =
          >>=_inv (validate_and_apply db e (record w { tx = tx0 }) w.pb.block.transactions) _ h2 in
        let (w2, r2, end) = >>=_inv (apply_maintenance db e w1) _ h3 in
        let (t0, c0, b0) = opened w.tx tx0 (add64 w.pb.height e.constants.maturity_delay) r0 in
        let (m1, f1) =
          transactions_coins db e debug w.pb.block.transactions (record w { tx = tx0 }) w1
            (subst (IsFunded db) (sym c0) f) r1 in
        let (m2, f2) = maintained w1 w2 f1 r2 in
        let (t3, c3, b3) = stored w2 in
        let paid : coins w1.pb.block.miner_payouts ≡ coins w.pb.block.miner_payouts =
          ap (λ b. coins b.miner_payouts) m1.same_block in
        subst
          (λ (z : Work db).
            (total db z.tx + fees w ≡ total db w.tx + coins w.pb.block.miner_payouts)
            × IsFunded db z.tx.file_contracts
            × (z.tx.block_height ≡ add64 w.tx.block_height 1))
          {x = store_block db e w2} (ok_injective end)
          (
            omega (arith, t0, m1.balance, m2.balance, t3, paid),
            subst (IsFunded db) (sym c3) f2,
            b3 ∙ ap (λ n. add64 n 1) (m2.at_height ∙ m1.at_height ∙ b0),
          )

three : (n : ℕ) → n + 3 ≡ suc (n + 2)
three n = omega arith

-- The number of coins grows by the coinbase.
num_siacoins-step :
    (n : ℕ)
    → n + 3 < 2 ^ 62
    → calculate_num_siacoins standard (n + 3) ≡ calculate_num_siacoins standard (n + 2) + reward n
num_siacoins-step n h = omega (
  arith,
  num_siacoins-minted (n + 3) h,
  num_siacoins-minted (n + 2) (omega arith),
  ap minted (three n),
  ap (calculate_coinbase standard) (three n),
  calculate_coinbase-reward n (omega arith),
)

-- Where checkSiacoinCount finds the right number of coins at a height from 2 on (the next below 2 ^ 62),
-- and the outputs of every contract have its coins, both are so after a debug build has generated the
-- next block, if checkMinerPayouts accepts it under the standard constants.
pub check_siacoin_count-generate :
    (db : Bolt) (e : Env) (w w' : Work db) (n : ℕ)
    → e.debug ≡ true
    → e.constants ≡ standard
    → n + 3 < 2 ^ 62
    → w.tx.block_height ≡ n + 2
    → IsFunded db w.tx.file_contracts
    → check_siacoin_count db e w.tx ≡ true
    → check_miner_payouts standard w.pb.block (n + 3) ≡ true
    → generate_and_apply_diff db e w ≡ ok w'
    → (check_siacoin_count db e w'.tx ≡ true) × IsFunded db w'.tx.file_contracts
check_siacoin_count-generate db e w w' n debug build bound height f right payouts h =
    let (balance, f', next) = generate-coins db e debug w w' f h in
    let paid = check_miner_payouts-coins w.pb.block n (omega arith) payouts in
    let before = (check_siacoin_count_iff db e w.tx f).0 right in
    let old =
      ap (λ c. calculate_num_siacoins c w.tx.block_height) build
      ∙ ap (calculate_num_siacoins standard) height in
    let at_next : w'.tx.block_height ≡ n + 3 = next ∙ ap (λ k. add64 k 1) height ∙ omega arith in
    let new =
      ap (λ c. calculate_num_siacoins c w'.tx.block_height) build
      ∙ ap (calculate_num_siacoins standard) at_next in
    (
      (check_siacoin_count_iff db e w'.tx f').1
          (omega (arith, balance, paid, before, old, new, num_siacoins-step n bound)),
      f',
    )
