-- ===== src/Consensus/Undo/Contracts.antt =====
-- Undoing the diffs of the file contracts, with their expirations.
use hyperspace.Common.{
  ℕ, not, ◌≡◌, refl, sym, ap, ◌∙◌, subst, none, some, true, ok, arith, is_some, ◌==◌, if◌then◌else◌,
  or_err_sound, ok_injective, Option-cases, inl, inr,
}
use hyperspace.Types.Transaction.{FileContract}
use hyperspace.Database.{Bolt}
use hyperspace.Database.Laws.{delete-put, put-delete, get-put_self, get-delete_self}
use hyperspace.Consensus.State.{
  DiffDirection, diff_apply, diff_revert, FileContractDiff, Tx, Env, sanity_inv, sanity_next,
  nil_file_contract, panics, slice_bounds_out_of_range, nil_dereference, expiration_missing,
}
use hyperspace.Consensus.Store.{bucket_or_new, add_file_contract, remove_file_contract}
use hyperspace.Consensus.Diffs.{commit_file_contract_diff}
use hyperspace.Consensus.Undo.{release, due, IsScheduled}

module _ (db : Bolt) where
  open db use {Bucket, get, put, delete}

  due-put :
      (exp : Bucket (Bucket (Unit {0}))) (w : ℕ) (b : Bucket (Unit {0})) (h k : ℕ)
      → due db (put exp w b) h k ≡ (if w == h then get b k else due db exp h k)
  due-put exp w b h k = ground (arith, db.get-put exp w b h)

  pub IsScheduled-add :
      (fcs : Bucket FileContract) (exp : Bucket (Bucket (Unit {0}))) (id : ℕ) (fc : FileContract)
      → IsScheduled db fcs exp
      → get fcs id ≡ none
      → IsScheduled db
          (put fcs id fc)
          (put exp fc.window_end (put (bucket_or_new db (get exp fc.window_end)) id tt))
  IsScheduled-add fcs exp id fc s absent h k =
      let b = bucket_or_new db (get exp fc.window_end) in
      ground (
        arith,
        due-put exp fc.window_end (put b id tt) h k,
        db.get-put b id tt k,
        db.get-put fcs id fc k,
        s h k,
        s h id,
      )

  pub IsScheduled-remove :
      (fcs : Bucket FileContract) (exp : Bucket (Bucket (Unit {0}))) (id : ℕ) (fc : FileContract)
      (b : Bucket (Unit {0}))
      → IsScheduled db fcs exp
      → get fcs id ≡ some fc
      → get exp fc.window_end ≡ some b
      → IsScheduled db (delete fcs id) (put exp fc.window_end (delete b id))
  IsScheduled-remove fcs exp id fc b s present bucket h k = ground (
    arith,
    due-put exp fc.window_end (delete b id) h k,
    db.get-delete b id k,
    db.get-delete fcs id k,
    s h k,
    s h id,
  )

  -- A contract that is there has its entry.
  pub scheduled_entry :
      (fcs : Bucket FileContract) (exp : Bucket (Bucket (Unit {0}))) (id : ℕ) (fc : FileContract)
      → IsScheduled db fcs exp
      → get fcs id ≡ some fc
      → (b : Bucket (Unit {0})) × (get exp fc.window_end ≡ some b) × (get b id ≡ some tt)
  scheduled_entry fcs exp id fc s present = elim (Option-cases (get exp fc.window_end)) [
    | inl p ↦ ground (arith, s fc.window_end id, db.get-empty (Unit {0}) id)
    | inr q ↦ (q.0, q.1, ground (arith, s fc.window_end id))
  ]

  module _ (e : Env) where
    abbrev pub Sees : Tx db → Bucket FileContract → Type 0
    Sees tx contracts =
        (tx.file_contracts ≡ contracts) × IsScheduled db tx.file_contracts tx.expirations

    abbrev pub Frame : Tx db → Tx db → Type 0
    Frame s t = t ≡ record s { file_contracts = t.file_contracts; expirations = t.expirations }

    pub Frame-trans : (a b c : Tx db) → Frame a b → Frame b c → Frame a c
    Frame-trans a b c p q =
        q
        ∙ ap
            (λ (z : Tx db). record z {
              file_contracts = c.file_contracts;
              expirations = c.expirations;
            })
            p

    abbrev pub IsHonest : Tx db → FileContractDiff → Type 0
    IsHonest tx d = d.direction ≡ diff_revert → get tx.file_contracts d.id ≡ some d.file_contract

    remove_runs :
        (tx : Tx db) (id : ℕ) (fc : FileContract) (b : Bucket (Unit {0}))
        → get tx.file_contracts id ≡ some fc
        → get tx.expirations fc.window_end ≡ some b
        → get b id ≡ some tt
        → remove_file_contract db (release e) tx id
          ≡ ok (record tx {
            file_contracts = delete tx.file_contracts id;
            expirations = put tx.expirations fc.window_end (delete b id);
          })
    unfolding remove_file_contract
    remove_runs tx id fc b p q r = rw p (rw q (rw r refl))

    -- What a removal did.
    pub removed :
        (tx tx' : Tx db) (id : ℕ) (fc : FileContract)
        → get tx.file_contracts id ≡ some fc
        → remove_file_contract db e tx id ≡ ok tx'
        → (b : Bucket (Unit {0})) × (get tx.expirations fc.window_end ≡ some b)
          × (tx' ≡ record tx {
            file_contracts = delete tx.file_contracts id;
            expirations = put tx.expirations fc.window_end (delete b id);
          })
    unfolding remove_file_contract
    removed tx tx' id fc present h =
        let h1 =
          sanity_next e.debug (not (is_some (get tx.file_contracts id))) nil_file_contract _ h in
        let (fc', found, h2) =
          or_err_sound (get tx.file_contracts id) (panics slice_bounds_out_of_range) _ h1 in
        let (b, bucket, h3) =
          or_err_sound (get tx.expirations fc'.window_end) (panics nil_dereference) _ h2 in
        let (_, entry, h4) = or_err_sound (get b id) (panics expiration_missing) _ h3 in
        let same_contract : fc' ≡ fc = cc in
        let same_end : fc'.window_end ≡ fc.window_end =
          ap (λ (c : FileContract). c.window_end) same_contract in
        (b, cc, cc)

    undo_by_direction :
        e.debug ≡ true
        → (tx tx' : Tx db) (dir : DiffDirection) (id : ℕ) (fc : FileContract)
        → (dir ≡ diff_revert → get tx.file_contracts id ≡ some fc)
        → commit_file_contract_diff db e diff_apply tx
            (record { direction = dir; id = id; file_contract = fc })
          ≡ ok tx'
        → (s' : Tx db) → Sees s' tx'.file_contracts
        → (s : Tx db) × (commit_file_contract_diff db
              (release e)
              diff_revert
              s'
              (record { direction = dir; id = id; file_contract = fc })
            ≡ ok s)
          × Sees s tx.file_contracts
          × Frame s' s
    unfolding commit_file_contract_diff add_file_contract
    undo_by_direction debug tx tx' diff_apply id fc honest h s' sees =
        let (payout, h1) = sanity_inv _ _ _ _ debug h in
        let (absent, h2) = sanity_inv _ _ _ _ debug h1 in
        let contracts : s'.file_contracts ≡ put tx.file_contracts id fc = cc in
        let present : get s'.file_contracts id ≡ some fc =
          ap (λ b. get b id) contracts ∙ get-put_self db tx.file_contracts id fc in
        let (b, bucket, entry) =
          scheduled_entry s'.file_contracts s'.expirations id fc sees.1 present in
        (
          _,
          remove_runs s' id fc b present bucket entry,
          (
            ap (λ c. delete c id) contracts ∙ delete-put db tx.file_contracts id fc (ground arith),
            IsScheduled-remove s'.file_contracts s'.expirations id fc b sees.1 present bucket,
          ),
          refl,
        )
    undo_by_direction debug tx tx' diff_revert id fc honest h s' sees =
        let (b, bucket, after) = removed tx tx' id fc (honest refl) h in
        let contracts : s'.file_contracts ≡ delete tx.file_contracts id =
          sees.0 ∙ ap (λ (z : Tx db). z.file_contracts) after in
        (
          _,
          refl,
          (
            ap (λ c. put c id fc) contracts ∙ put-delete db tx.file_contracts id fc (honest refl),
            IsScheduled-add s'.file_contracts s'.expirations id fc sees.1
                (ap (λ c. get c id) contracts ∙ get-delete_self db tx.file_contracts id),
          ),
          refl,
        )

    -- What a debug build lets a diff do, a release build undoes.
    pub undo_contract :
        e.debug ≡ true
        → (tx tx' : Tx db) (d : FileContractDiff) → IsHonest tx d
        → commit_file_contract_diff db e diff_apply tx d ≡ ok tx'
        → (s' : Tx db) → Sees s' tx'.file_contracts
        → (s : Tx db) × (commit_file_contract_diff db (release e) diff_revert s' d ≡ ok s)
          × Sees s tx.file_contracts
          × Frame s' s
    undo_contract debug tx tx' d = undo_by_direction debug tx tx' d.direction d.id d.file_contract

    keeps_by_direction :
        e.debug ≡ true
        → (tx tx' : Tx db) (dir : DiffDirection) (id : ℕ) (fc : FileContract)
        → (dir ≡ diff_revert → get tx.file_contracts id ≡ some fc)
        → commit_file_contract_diff db e diff_apply tx
            (record { direction = dir; id = id; file_contract = fc })
          ≡ ok tx'
        → IsScheduled db tx.file_contracts tx.expirations
        → IsScheduled db tx'.file_contracts tx'.expirations × Frame tx tx'
    unfolding commit_file_contract_diff add_file_contract
    keeps_by_direction debug tx tx' diff_apply id fc honest h s =
        let (payout, h1) = sanity_inv _ _ _ _ debug h in
        let (absent, h2) = sanity_inv _ _ _ _ debug h1 in
        let after = ok_injective h2 in
        subst (λ (z : Tx db). IsScheduled db z.file_contracts z.expirations × Frame tx z) after
          (IsScheduled-add tx.file_contracts tx.expirations id fc s (ground arith), refl)
    keeps_by_direction debug tx tx' diff_revert id fc honest h s =
        let (b, bucket, after) = removed tx tx' id fc (honest refl) h in
        subst (λ (z : Tx db). IsScheduled db z.file_contracts z.expirations × Frame tx z)
          (sym after)
          (IsScheduled-remove tx.file_contracts tx.expirations id fc b s (honest refl) bucket, refl)

    -- A diff keeps the expirations in step with the contracts, and touches nothing else.
    pub commit_keeps_schedule :
        e.debug ≡ true
        → (tx tx' : Tx db) (d : FileContractDiff) → IsHonest tx d
        → commit_file_contract_diff db e diff_apply tx d ≡ ok tx'
        → IsScheduled db tx.file_contracts tx.expirations
        → IsScheduled db tx'.file_contracts tx'.expirations × Frame tx tx'
    commit_keeps_schedule debug tx tx' d =
        keeps_by_direction debug tx tx' d.direction d.id d.file_contract
