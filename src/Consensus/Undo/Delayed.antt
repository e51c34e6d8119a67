-- ===== src/Consensus/Undo/Delayed.antt =====
-- Undoing the diffs of the delayed siacoin outputs.
use hyperspace.Common.{
  ℕ, ◌≡◌, refl, sym, ap, ◌∙◌, some, true, ok, arith, is_some, or_err_sound, ok_injective,
}
use hyperspace.Types.Transaction.{SiacoinOutput}
use hyperspace.Database.{Bolt}
use hyperspace.Database.Laws.{delete-put, put-delete, put-put, put_same, get-put_self}
use hyperspace.Consensus.State.{
  DiffDirection, diff_apply, diff_revert, DelayedSiacoinOutputDiff, Tx, Env, sanity_inv, panics,
  nil_dereference, output_already_in_set,
}
use hyperspace.Consensus.Store.{add_dsco, remove_dsco}
use hyperspace.Consensus.Diffs.{commit_delayed_siacoin_output_diff}
use hyperspace.Consensus.Undo.{release}

module _ (db : Bolt) (e : Env) where
  open db use {Bucket, get, put, delete}

  abbrev pub Sees : Tx db → Bucket (Bucket SiacoinOutput) → Type 0
  Sees tx delayed = tx.delayed ≡ delayed

  abbrev pub Frame : Tx db → Tx db → Type 0
  Frame s t = t ≡ record s { delayed = t.delayed }

  pub Frame-trans : (a b c : Tx db) → Frame a b → Frame b c → Frame a c
  Frame-trans a b c p q = q ∙ ap (λ (z : Tx db). record z { delayed = c.delayed }) p

  abbrev pub IsHonest : Tx db → DelayedSiacoinOutputDiff → Type 0
  IsHonest tx d =
      d.direction ≡ diff_revert
      → (b : Bucket SiacoinOutput) → get tx.delayed d.maturity_height ≡ some b
      → get b d.id ≡ some d.siacoin_output

  replaced :
      (X D : Bucket (Bucket SiacoinOutput)) (h : ℕ) (b b' b'' : Bucket SiacoinOutput)
      → D ≡ put X h b'
      → get X h ≡ some b
      → b'' ≡ b
      → put D h b'' ≡ X
  replaced X D h b b' b'' p q r =
      ap (λ c. put c h b'') p ∙ put-put db X h b' b'' ∙ ap (put X h) r ∙ put_same db X h b q

  -- What a diff of a debug build does to the bucket of its height, and that a release build, from
  -- any buckets that differ in that one only, undoes it.
  abbrev pub Done : Tx db → Tx db → DelayedSiacoinOutputDiff → Type 0
  Done tx tx' d =
      (b b' : Bucket SiacoinOutput) × (get tx.delayed d.maturity_height ≡ some b)
      × (tx' ≡ record tx { delayed = put tx.delayed d.maturity_height b' })
      × ((X : Bucket (Bucket SiacoinOutput))
          → get X d.maturity_height ≡ some b
          → (s' : Tx db) → s'.delayed ≡ put X d.maturity_height b'
          → (s : Tx db) × (commit_delayed_siacoin_output_diff db (release e) diff_revert s' d
              ≡ ok s)
            × Sees s X
            × Frame s' s)

  by_direction :
      e.debug ≡ true
      → (tx tx' : Tx db) (dir : DiffDirection) (id : ℕ) (sco : SiacoinOutput) (h : ℕ)
      → IsHonest tx (record { direction = dir; id = id; siacoin_output = sco; maturity_height = h })
      → commit_delayed_siacoin_output_diff db e diff_apply tx
          (record { direction = dir; id = id; siacoin_output = sco; maturity_height = h })
        ≡ ok tx'
      → Done tx tx' (record { direction = dir; id = id; siacoin_output = sco; maturity_height = h })
  unfolding commit_delayed_siacoin_output_diff add_dsco remove_dsco
  by_direction debug tx tx' diff_apply id sco h honest run =
      let (fresh, h1) =
        sanity_inv e.debug (is_some (get tx.siacoin_outputs id)) output_already_in_set _ debug
          run in
      let (b, bucket, h2) = or_err_sound (get tx.delayed h) (panics nil_dereference) _ h1 in
      let (absent, h3) = sanity_inv _ _ _ _ debug h2 in
      (
        b,
        put b id sco,
        bucket,
        sym (ok_injective h3),
        λ X at s' sees.
            let found : get s'.delayed h ≡ some (put b id sco) =
              ap (λ c. get c h) sees ∙ get-put_self db X h (put b id sco) in
            (
              record s' { delayed = put s'.delayed h (delete (put b id sco) id) },
              rw found refl,
              replaced X s'.delayed h b (put b id sco) (delete (put b id sco) id) sees at
                  (delete-put db b id sco (ground arith)),
              refl,
            ),
      )
  by_direction debug tx tx' diff_revert id sco h honest run =
      let (b, bucket, h2) = or_err_sound (get tx.delayed h) (panics nil_dereference) _ run in
      let (present, h3) = sanity_inv _ _ _ _ debug h2 in
      (
        b,
        delete b id,
        bucket,
        sym (ok_injective h3),
        λ X at s' sees.
            let found : get s'.delayed h ≡ some (delete b id) =
              ap (λ c. get c h) sees ∙ get-put_self db X h (delete b id) in
            (
              record s' { delayed = put s'.delayed h (put (delete b id) id sco) },
              rw found refl,
              replaced X s'.delayed h b (delete b id) (put (delete b id) id sco) sees at
                  (put-delete db b id sco (honest refl b bucket)),
              refl,
            ),
      )

  pub commit_Done :
      e.debug ≡ true
      → (tx tx' : Tx db) (d : DelayedSiacoinOutputDiff) → IsHonest tx d
      → commit_delayed_siacoin_output_diff db e diff_apply tx d ≡ ok tx'
      → Done tx tx' d
  commit_Done debug tx tx' d =
      by_direction debug tx tx' d.direction d.id d.siacoin_output d.maturity_height
