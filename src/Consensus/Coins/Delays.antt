-- ===== src/Consensus/Coins/Delays.antt =====
-- What recording the diff of a delayed output does to the coins
-- (modules/consensus/applytransaction.go), in a debug build.
use hyperspace.Common.{
  ℕ, ◌≡◌, refl, sym, ap, ◌∙◌, subst, [], ◌∷◌, ◌++◌, true, some, Option-cases, inl, inr, ok, arith,
  >>=_inv, or_err_sound, ok_injective,
}
use hyperspace.Types.Transaction.{SiacoinOutput}
use hyperspace.Database.{Bolt}
use hyperspace.Database.Laws.{weigh-delete, weigh-put_old, get-put_self}
use hyperspace.Consensus.State.{
  diff_apply, diff_revert, Tx, Env, sanity_inv, panics, nil_dereference,
}
use hyperspace.Consensus.Store.{add_dsco, remove_dsco}
use hyperspace.Consensus.Diffs.{commit_delayed_siacoin_output_diff}
use hyperspace.Consensus.Apply.{Work, record_dscod}
use hyperspace.Consensus.Coins.{output_value, bucket_value, Moved}

module _ (db : Bolt) (e : Env) (debug : e.debug ≡ true) where
  open db use {Bucket, get, put, delete, for_each}

  pub record Delayed (w w' : Work db) (height up down : ℕ) : Type 0 where
    pub moved : Moved db w w' up down
    pub outputs : w'.tx.siacoin_outputs ≡ w.tx.siacoin_outputs
    pub contracts : w'.tx.file_contracts ≡ w.tx.file_contracts

  pub delay_output :
      (w w' : Work db) (height id : ℕ) (sco : SiacoinOutput)
      → record_dscod db e w (record {
        direction = diff_apply;
        id = id;
        siacoin_output = sco;
        maturity_height = height;
      })
        ≡ ok w'
      → Delayed w w' height sco.value 0
  unfolding record_dscod commit_delayed_siacoin_output_diff add_dsco
  delay_output w w' height id sco h =
      let (tx', run, end) = >>=_inv (add_dsco db e w.tx height id sco) _ h in
      let (free, e1) = sanity_inv _ _ _ _ debug run in
      let (bucket, found, e2) =
        or_err_sound (get w.tx.delayed height) (panics nil_dereference) _ e1 in
      let (absent, e3) = sanity_inv _ _ _ _ debug e2 in
      let grown = db.weigh-put bucket id sco output_value (ground arith) in
      let put_back =
        weigh-put_old db w.tx.delayed height bucket (put bucket id sco) (bucket_value db) found in
      subst (λ z. Delayed w z height sco.value 0) (ok_injective end)
        (subst
          (λ (z : Tx db).
            Delayed w
              (record w {
                tx = z;
                pb = record w.pb {
                  delayed_siacoin_output_diffs =
                      w.pb.delayed_siacoin_output_diffs
                      ++ (record {
                        direction = diff_apply;
                        id = id;
                        siacoin_output = sco;
                        maturity_height = height;
                      }
                          ∷ []);
                };
              })
              height sco.value 0)
          (ok_injective e3)
          (record {
            moved = record {
              balance = omega (arith, grown, put_back);
              same_height = refl;
              at_height = refl;
              same_block = refl;
            };
            outputs = refl;
            contracts = refl;
          }))

  -- The output that is taken out is the one that the bucket has.
  pub mature_output :
      (w w' : Work db) (height id : ℕ) (sco : SiacoinOutput) (c : Bucket SiacoinOutput)
      → get w.tx.delayed height ≡ some c
      → ((v : SiacoinOutput) → get c id ≡ some v → v ≡ sco)
      → record_dscod db e w (record {
        direction = diff_revert;
        id = id;
        siacoin_output = sco;
        maturity_height = height;
      })
        ≡ ok w'
      → Delayed w w' height 0 sco.value
        × (get w'.tx.delayed height ≡ some (delete c id))
        × (get c id ≡ some sco)
  unfolding record_dscod commit_delayed_siacoin_output_diff remove_dsco
  mature_output w w' height id sco c found honest h =
      let (tx', run, end) = >>=_inv (remove_dsco db e w.tx height id) _ h in
      let (c', found', e1) =
        or_err_sound (get w.tx.delayed height) (panics nil_dereference) _ run in
      let (present, e2) = sanity_inv _ _ _ _ debug e1 in
      let same : c' ≡ c = cc in
      let there : get c' id ≡ some sco = elim (Option-cases (get c' id)) [
        | inl absent ↦ ground (arith, absent)
        | inr (v, q) ↦ q ∙ ap some (honest v (ap (λ b. get b id) (sym same) ∙ q))
      ] in
      let less = weigh-delete db c' id sco output_value there in
      let put_back =
        weigh-put_old db w.tx.delayed height c' (delete c' id) (bucket_value db) found' in
      subst
        (λ (z : Work db).
          Delayed w z height 0 sco.value
          × (get z.tx.delayed height ≡ some (delete c id))
          × (get c id ≡ some sco))
        (ok_injective end)
        (subst
          (λ (z : Tx db).
            Delayed w
              (record w {
                tx = z;
                pb = record w.pb {
                  delayed_siacoin_output_diffs =
                      w.pb.delayed_siacoin_output_diffs
                      ++ (record {
                        direction = diff_revert;
                        id = id;
                        siacoin_output = sco;
                        maturity_height = height;
                      }
                          ∷ []);
                };
              })
              height 0 sco.value
            × (get z.delayed height ≡ some (delete c id))
            × (get c id ≡ some sco))
          (ok_injective e2)
          (
            record {
              moved = record {
                balance = omega (arith, less, put_back);
                same_height = refl;
                at_height = refl;
                same_block = refl;
              };
              outputs = refl;
              contracts = refl;
            },
            get-put_self db w.tx.delayed height (delete c' id) ∙ ap (λ b. some (delete b id)) same,
            ap (λ b. get b id) (sym same) ∙ there,
          ))
