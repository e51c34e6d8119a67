-- ===== src/Consensus/Fork/Back.antt =====
-- The way back over blocks that were applied (the rewinding loop of modules/consensus/fork.go).
use mathlib.Core.List.{reverse, reverse-append, append-nil, append_assoc}
use hyperspace.Common.{
  ℕ, suc, ◌+◌, ◌<◌, ◌≡◌, ◌≢◌, refl, sym, ap, ◌∙◌, List, [], ◌∷◌, ◌++◌, length, All, false, none,
  some, ok, arith, add64, u64_mod,
}
use hyperspace.Database.{Bolt}
use hyperspace.Consensus.State.{ProcessedBlock, Tx, Env}
use hyperspace.Consensus.Store.{current_block_id}
use hyperspace.Consensus.Diffs.{commit_diff_set}
use hyperspace.Consensus.State.{diff_revert}
use hyperspace.Consensus.Apply.{Work}
use hyperspace.Consensus.Fork.{stored_block, rewind}
use hyperspace.Consensus.Undo.{release, IsScheduled}
use hyperspace.Consensus.Undo.Stored.{Restores, IsUndone}

module _ (db : Bolt) (e : Env) where
  open db use {get, put}

  -- No block of the list has the id.
  abbrev pub IsAbsent : ℕ → List ProcessedBlock → Type 0
  IsAbsent id = All (λ (b : ProcessedBlock). e.crypto.block_id b.block ≢ id)

  abbrev pub AreDistinct : List ProcessedBlock → Type 0
  AreDistinct [] = Unit
  AreDistinct (b ∷ bs) = IsAbsent (e.crypto.block_id b.block) bs × AreDistinct bs

  -- A block that has not been validated yet, and whose delayed outputs mature at a uint64 height.
  pub record IsFresh (b : ProcessedBlock) : Type 0 where
    pub no_outputs : b.siacoin_output_diffs ≡ []
    pub no_contracts : b.file_contract_diffs ≡ []
    pub no_delayed : b.delayed_siacoin_output_diffs ≡ []
    pub not_generated : b.diffs_generated ≡ false
    pub room : b.height + e.constants.maturity_delay < u64_mod

  -- The expirations are in step with the contracts, and nothing is on the path above its end, where
  -- there is room for `left` blocks.
  pub record IsTip (tx : Tx db) (left : ℕ) : Type 0 where
    pub scheduled : IsScheduled db tx.file_contracts tx.expirations
    pub room : tx.block_height + left < u64_mod
    pub nothing_above : (n : ℕ) → tx.block_height < n → get tx.block_path n ≡ none

  -- A round of the rewinding loop for each block, and k more.
  abbrev pub fuel_for : List ProcessedBlock → ℕ → ℕ
  fuel_for [] k = k
  fuel_for (b ∷ bs) k = fuel_for bs (suc k)

  pub fuel_for-length : (bs : List ProcessedBlock) (k : ℕ) → fuel_for bs k ≡ length bs + k
  fuel_for-length [] k = omega arith
  fuel_for-length (b ∷ bs) k = omega (arith, fuel_for-length bs (suc k))

  -- The way from tx over the blocks to tx', and back from any state that restores tx'.
  pub record GoesBack (tx tx' : Tx db) (blocks applied : List ProcessedBlock) : Type 0 where
    pub same : Restores db tx' tx'
    pub kept : (j : ℕ) → IsAbsent j blocks → get tx'.block_map j ≡ get tx.block_map j
    pub back :
        (after : Tx db)
        → Restores db tx' after
        → after.block_map ≡ tx'.block_map
        → (t : Tx db) × Restores db tx t
          × (t.block_map ≡ after.block_map)
          × ((id k : ℕ) (reverted : List ProcessedBlock)
              → IsAbsent id blocks
              → rewind db (release e) (fuel_for blocks k) after id reverted
                ≡ rewind db (release e) k t id (reverted ++ reverse applied))

  pub stays : (tx : Tx db) → IsTip tx 0 → GoesBack tx tx [] []
  stays tx tip = record {
    same = record {
      siacoin_outputs = refl;
      file_contracts = refl;
      scheduled = tip.scheduled;
      delayed = refl;
      block_path = refl;
      block_height = refl;
    };
    kept = λ j h. refl;
    back = λ after r m. (
      after,
      r,
      refl,
      λ id k reverted h. ap (rewind db (release e) k after id) (sym (append-nil reverted)),
    );
  }

  pub current_at :
      (t : Tx db) (id : ℕ)
      → get t.block_path t.block_height ≡ some id
      → current_block_id db (release e) t ≡ ok id
  unfolding current_block_id
  current_at t id q = ground (arith, q)

  -- One round of the loop.
  rewind_round :
      (t t0 : Tx db) (pb : ProcessedBlock) (bid id k : ℕ) (reverted : List ProcessedBlock)
      → current_block_id db (release e) t ≡ ok bid
      → bid ≢ id
      → get t.block_map bid ≡ some pb
      → commit_diff_set db (release e) diff_revert t pb ≡ ok t0
      → rewind db (release e) (suc k) t id reverted
        ≡ rewind db (release e) k t0 id (reverted ++ (pb ∷ []))
  unfolding rewind stored_block
  rewind_round t t0 pb bid id k reverted current other found run =
      rw current (ground (arith, other, found, run))

  pub goes_on :
      (w w' : Work db) (tx' : Tx db) (blocks applied : List ProcessedBlock)
      → IsUndone db e w w'
      → IsAbsent (e.crypto.block_id w.pb.block) blocks
      → GoesBack w'.tx tx' blocks applied
      → GoesBack w.tx tx' (w.pb ∷ blocks) (w'.pb ∷ applied)
  goes_on w w' tx' blocks applied u absent g =
      let bid = e.crypto.block_id w.pb.block in
      record {
        same = g.same;
        kept = λ j h.
            g.kept j h.1
            ∙ ap (λ m. get m j) u.block_map
            ∙ ground (arith, db.get-put w.tx.block_map bid w'.pb j, h.0);
        back = λ after r m.
            let (t1, r1, m1, run1) = g.back after r m in
            let (t, run, restored, m2) = u.revert t1 r1 in
            let here : get t1.block_path t1.block_height ≡ some bid = ground (
              arith,
              r1.block_path,
              r1.block_height,
              u.block_path,
              u.block_height,
              db.get-put w.tx.block_path (add64 w.tx.block_height 1) bid
                  (add64 w.tx.block_height 1),
            ) in
            let found : get t1.block_map bid ≡ some w'.pb =
              ap (λ c. get c bid) (m1 ∙ m)
              ∙ g.kept bid absent
              ∙ ap (λ c. get c bid) u.block_map
              ∙ ground (arith, db.get-put w.tx.block_map bid w'.pb bid) in
            (
              t,
              restored,
              m2 ∙ m1,
              λ id k reverted h.
                  run1 id (suc k) reverted h.1
                  ∙ rewind_round t1 t w'.pb bid id k (reverted ++ reverse applied)
                      (current_at t1 bid here) h.0 found run
                  ∙ ap (rewind db (release e) k t id) (
                      append_assoc reverted (reverse applied) (w'.pb ∷ [])
                      ∙ ap (λ (r : List ProcessedBlock). reverted ++ r)
                          (sym (reverse-append (w'.pb ∷ []) applied))),
            );
      }
