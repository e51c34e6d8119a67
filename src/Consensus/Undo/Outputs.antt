-- ===== src/Consensus/Undo/Outputs.antt =====
-- Undoing the diffs of the siacoin outputs.
use hyperspace.Common.{ℕ, sym, subst, ok_injective, ◌≡◌, refl, ap, ◌∙◌, some, true, ok, arith}
use hyperspace.Types.Transaction.{SiacoinOutput}
use hyperspace.Database.{Bolt}
use hyperspace.Database.Laws.{delete-put, put-delete}
use hyperspace.Consensus.State.{
  DiffDirection, sanity_inv, sanity_next, diff_apply, diff_revert, SiacoinOutputDiff, Tx, Env,
}
use hyperspace.Consensus.Store.{add_siacoin_output, remove_siacoin_output}
use hyperspace.Consensus.Diffs.{commit_siacoin_output_diff}
use hyperspace.Consensus.Undo.{release}

module _ (db : Bolt) (e : Env) where
  abbrev pub Sees : Tx db → db.Bucket SiacoinOutput → Type 0
  Sees tx outputs = tx.siacoin_outputs ≡ outputs

  abbrev pub Frame : Tx db → Tx db → Type 0
  Frame s t = t ≡ record s { siacoin_outputs = t.siacoin_outputs }

  pub Frame-trans : (a b c : Tx db) → Frame a b → Frame b c → Frame a c
  Frame-trans a b c p q = q ∙ ap (λ (z : Tx db). record z { siacoin_outputs = c.siacoin_outputs }) p

  -- The diff of a removed output holds the output that was there.
  abbrev pub IsHonest : Tx db → SiacoinOutputDiff → Type 0
  IsHonest tx d = d.direction ≡ diff_revert → db.get tx.siacoin_outputs d.id ≡ some d.siacoin_output

  undo_by_direction :
      e.debug ≡ true
      → (tx tx' : Tx db) (dir : DiffDirection) (id : ℕ) (sco : SiacoinOutput)
      → (dir ≡ diff_revert → db.get tx.siacoin_outputs id ≡ some sco)
      → commit_siacoin_output_diff db e diff_apply tx
          (record { direction = dir; id = id; siacoin_output = sco })
        ≡ ok tx'
      → (s' : Tx db) → Sees s' tx'.siacoin_outputs
      → (s : Tx db) × (commit_siacoin_output_diff db
            (release e)
            diff_revert
            s'
            (record { direction = dir; id = id; siacoin_output = sco })
          ≡ ok s)
        × Sees s tx.siacoin_outputs
        × Frame s' s
  unfolding commit_siacoin_output_diff add_siacoin_output remove_siacoin_output
  undo_by_direction debug tx tx' diff_apply id sco honest h s' sees =
      let (absent, e1) = sanity_inv _ _ _ _ debug h in
      let outputs : db.put tx.siacoin_outputs id sco ≡ s'.siacoin_outputs = cc in
      (
        record s' { siacoin_outputs = db.delete s'.siacoin_outputs id },
        refl,
        ap (λ b. db.delete b id) (sym outputs)
            ∙ delete-put db tx.siacoin_outputs id sco (ground arith),
        refl,
      )
  undo_by_direction debug tx tx' diff_revert id sco honest h s' sees =
      let (present, e1) = sanity_inv _ _ _ _ debug h in
      let outputs : db.delete tx.siacoin_outputs id ≡ s'.siacoin_outputs = cc in
      (
        record s' { siacoin_outputs = db.put s'.siacoin_outputs id sco },
        refl,
        ap (λ b. db.put b id sco) (sym outputs)
            ∙ put-delete db tx.siacoin_outputs id sco (honest refl),
        refl,
      )

  -- What a debug build lets a diff do, a release build undoes.
  pub undo_output :
      e.debug ≡ true
      → (tx tx' : Tx db) (d : SiacoinOutputDiff) → IsHonest tx d
      → commit_siacoin_output_diff db e diff_apply tx d ≡ ok tx'
      → (s' : Tx db) → Sees s' tx'.siacoin_outputs
      → (s : Tx db) × (commit_siacoin_output_diff db (release e) diff_revert s' d ≡ ok s)
        × Sees s tx.siacoin_outputs
        × Frame s' s
  undo_output debug tx tx' d = undo_by_direction debug tx tx' d.direction d.id d.siacoin_output

  Frame-by_direction :
      (tx tx' : Tx db) (dir : DiffDirection) (id : ℕ) (sco : SiacoinOutput)
      → commit_siacoin_output_diff db e diff_apply tx
          (record { direction = dir; id = id; siacoin_output = sco })
        ≡ ok tx'
      → Frame tx tx'
  unfolding commit_siacoin_output_diff add_siacoin_output remove_siacoin_output
  Frame-by_direction tx tx' diff_apply id sco h =
      subst (Frame tx) (ok_injective (sanity_next _ _ _ _ h)) refl
  Frame-by_direction tx tx' diff_revert id sco h =
      subst (Frame tx) (ok_injective (sanity_next _ _ _ _ h)) refl

  pub commit_Frame :
      (tx tx' : Tx db) (d : SiacoinOutputDiff)
      → commit_siacoin_output_diff db e diff_apply tx d ≡ ok tx'
      → Frame tx tx'
  commit_Frame tx tx' d = Frame-by_direction tx tx' d.direction d.id d.siacoin_output
