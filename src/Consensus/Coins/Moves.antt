-- ===== src/Consensus/Coins/Moves.antt =====
-- What recording one diff does to the coins (modules/consensus/applytransaction.go), in a debug build.
use hyperspace.Common.{
  ℕ, ◌≡◌, refl, ap, ◌∙◌, subst, [], ◌∷◌, ◌++◌, true, none, some, ok, arith, >>=_inv, or_err_sound,
  ok_injective,
}
use hyperspace.Types.Transaction.{SiacoinOutput, FileContract}
use hyperspace.Database.{Bolt}
use hyperspace.Database.Laws.{weigh-delete}
use hyperspace.Consensus.State.{
  diff_apply, diff_revert, SiacoinOutputDiff, Tx, Env, sanity_inv, panics,
  slice_bounds_out_of_range, nil_dereference, expiration_missing,
}
use hyperspace.Consensus.Store.{
  add_siacoin_output, remove_siacoin_output, add_file_contract, remove_file_contract,
}
use hyperspace.Consensus.Diffs.{commit_siacoin_output_diff, commit_file_contract_diff}
use hyperspace.Consensus.Apply.{Work, record_scod, record_fcd}
use hyperspace.Consensus.Coins.{output_value, contract_value, Moved}

module _ (db : Bolt) (e : Env) (debug : e.debug ≡ true) where
  open db use {Bucket, get, put, delete, for_each}

  abbrev scod : ℕ → SiacoinOutput → SiacoinOutputDiff
  scod id sco = record { direction = diff_apply; id = id; siacoin_output = sco }

  pub record Added (w w' : Work db) (id : ℕ) (sco : SiacoinOutput) : Type 0 where
    pub moved : Moved db w w' sco.value 0
    pub fresh : get w.tx.siacoin_outputs id ≡ none
    pub outputs : w'.tx.siacoin_outputs ≡ put w.tx.siacoin_outputs id sco
    pub contracts : w'.tx.file_contracts ≡ w.tx.file_contracts
    pub delayed : w'.tx.delayed ≡ w.tx.delayed

  pub add_output :
      (w w' : Work db) (id : ℕ) (sco : SiacoinOutput)
      → record_scod db e w (record { direction = diff_apply; id = id; siacoin_output = sco })
        ≡ ok w'
      → Added w w' id sco
  unfolding record_scod commit_siacoin_output_diff add_siacoin_output
  add_output w w' id sco h =
      let (tx', run, end) = >>=_inv (add_siacoin_output db e w.tx id sco) _ h in
      let (absent, e1) = sanity_inv _ _ _ _ debug run in
      let fresh : get w.tx.siacoin_outputs id ≡ none = ground arith in
      let grown = db.weigh-put w.tx.siacoin_outputs id sco output_value fresh in
      subst (λ z. Added w z id sco) (ok_injective end)
        (subst
          (λ (z : Tx db).
            Added w
              (record w {
                tx = z;
                pb = record w.pb {
                  siacoin_output_diffs = w.pb.siacoin_output_diffs ++ (scod id sco ∷ []);
                };
              })
              id sco)
          (ok_injective e1)
          (record {
            moved = record {
              balance = omega (arith, grown);
              same_height = refl;
              at_height = refl;
              same_block = refl;
            };
            fresh = fresh;
            outputs = refl;
            contracts = refl;
            delayed = refl;
          }))

  pub record Taken (w w' : Work db) (id : ℕ) (sco : SiacoinOutput) : Type 0 where
    pub moved : Moved db w w' 0 sco.value
    pub outputs : w'.tx.siacoin_outputs ≡ delete w.tx.siacoin_outputs id
    pub contracts : w'.tx.file_contracts ≡ w.tx.file_contracts

  pub take_output :
      (w w' : Work db) (id : ℕ) (sco : SiacoinOutput)
      → get w.tx.siacoin_outputs id ≡ some sco
      → record_scod db e w (record { direction = diff_revert; id = id; siacoin_output = sco })
        ≡ ok w'
      → Taken w w' id sco
  unfolding record_scod commit_siacoin_output_diff remove_siacoin_output
  take_output w w' id sco there h =
      let (tx', run, end) = >>=_inv (remove_siacoin_output db e w.tx id) _ h in
      let (present, e1) = sanity_inv _ _ _ _ debug run in
      let less = weigh-delete db w.tx.siacoin_outputs id sco output_value there in
      subst (λ z. Taken w z id sco) (ok_injective end)
        (subst
          (λ (z : Tx db).
            Taken w
              (record w {
                tx = z;
                pb = record w.pb {
                  siacoin_output_diffs =
                      w.pb.siacoin_output_diffs
                      ++ (record { direction = diff_revert; id = id; siacoin_output = sco } ∷ []);
                };
              })
              id sco)
          (ok_injective e1)
          (record {
            moved = record {
              balance = omega (arith, less);
              same_height = refl;
              at_height = refl;
              same_block = refl;
            };
            outputs = refl;
            contracts = refl;
          }))

  pub record Opened (w w' : Work db) (id : ℕ) (fc : FileContract) : Type 0 where
    pub moved : Moved db w w' fc.payout 0
    pub fresh : get w.tx.file_contracts id ≡ none
    pub outputs : w'.tx.siacoin_outputs ≡ w.tx.siacoin_outputs
    pub contracts : w'.tx.file_contracts ≡ put w.tx.file_contracts id fc

  pub open_contract :
      (w w' : Work db) (id : ℕ) (fc : FileContract)
      → record_fcd db e w (record { direction = diff_apply; id = id; file_contract = fc }) ≡ ok w'
      → Opened w w' id fc
  unfolding record_fcd commit_file_contract_diff add_file_contract
  open_contract w w' id fc h =
      let (tx', run, end) = >>=_inv (add_file_contract db e w.tx id fc) _ h in
      let (nonzero, e1) = sanity_inv _ _ _ _ debug run in
      let (absent, e2) = sanity_inv _ _ _ _ debug e1 in
      let fresh : get w.tx.file_contracts id ≡ none = ground arith in
      let grown = db.weigh-put w.tx.file_contracts id fc contract_value fresh in
      subst (λ z. Opened w z id fc) (ok_injective end)
        (subst
          (λ (z : Tx db).
            Opened w
              (record w {
                tx = z;
                pb = record w.pb {
                  file_contract_diffs =
                      w.pb.file_contract_diffs
                      ++ (record { direction = diff_apply; id = id; file_contract = fc } ∷ []);
                };
              })
              id fc)
          (ok_injective e2)
          (record {
            moved = record {
              balance = omega (arith, grown);
              same_height = refl;
              at_height = refl;
              same_block = refl;
            };
            fresh = fresh;
            outputs = refl;
            contracts = refl;
          }))

  pub record Closed (w w' : Work db) (id : ℕ) (fc : FileContract) : Type 0 where
    pub moved : Moved db w w' 0 fc.payout
    pub outputs : w'.tx.siacoin_outputs ≡ w.tx.siacoin_outputs
    pub contracts : w'.tx.file_contracts ≡ delete w.tx.file_contracts id

  pub only_one :
      (b : Bucket FileContract) (id : ℕ) (fc : FileContract)
      → get b id ≡ some fc
      → (v : FileContract) → get b id ≡ some v
      → v ≡ fc
  only_one b id fc h v k = ground arith

  -- The contract that is removed is the one that the bucket has.
  pub close_contract :
      (w w' : Work db) (id : ℕ) (fc : FileContract)
      → ((v : FileContract) → get w.tx.file_contracts id ≡ some v → v ≡ fc)
      → record_fcd db e w (record { direction = diff_revert; id = id; file_contract = fc }) ≡ ok w'
      → Closed w w' id fc
  unfolding record_fcd commit_file_contract_diff remove_file_contract
  close_contract w w' id fc honest h =
      let (tx', run, end) = >>=_inv (remove_file_contract db e w.tx id) _ h in
      let (present, e1) = sanity_inv _ _ _ _ debug run in
      let (fc', found, e2) =
        or_err_sound (get w.tx.file_contracts id) (panics slice_bounds_out_of_range) _ e1 in
      let (bucket, scheduled, e3) =
        or_err_sound (get w.tx.expirations fc'.window_end) (panics nil_dereference) _ e2 in
      let (unit, due, e4) = or_err_sound (get bucket id) (panics expiration_missing) _ e3 in
      let less =
        weigh-delete db w.tx.file_contracts id fc contract_value
          (found ∙ ap some (honest fc' found)) in
      subst (λ z. Closed w z id fc) (ok_injective end)
        (subst
          (λ (z : Tx db).
            Closed w
              (record w {
                tx = z;
                pb = record w.pb {
                  file_contract_diffs =
                      w.pb.file_contract_diffs
                      ++ (record { direction = diff_revert; id = id; file_contract = fc } ∷ []);
                };
              })
              id fc)
          (ok_injective e4)
          (record {
            moved = record {
              balance = omega (arith, less);
              same_height = refl;
              at_height = refl;
              same_block = refl;
            };
            outputs = refl;
            contracts = refl;
          }))
