-- ===== src/Consensus/Store.antt =====
-- modules/consensus/consensusdb.go: reads and writes of the consensus database.
use hyperspace.Common.{
  ℕ, Bool, true, not, Option, none, some, is_some, ok, ◌>>=◌, ◌>>◌, or_err, add64, sub64,
  if◌then◌else◌,
}
use hyperspace.Types.Currency.{is_zero}
use hyperspace.Types.Transaction.{SiacoinOutput, FileContract}
use hyperspace.Database.{Bolt}
use hyperspace.Consensus.State.{
  ProcessedBlock, Tx, Env, Act, returns, panics, sanity, nil_item, unexpected_error,
  repeat_siacoin_output, nil_siacoin_output, zero_payout_contract, repeat_file_contract,
  nil_file_contract, expiration_missing, output_already_in_set, repeat_insert, nil_dsco,
  bucket_exists, nil_bucket, nil_dereference, slice_bounds_out_of_range,
}

module _ (db : Bolt) where
  open db use {Bucket, empty, get, put, delete}

  unfoldable pub get_path : Tx db → ℕ → Option ℕ
  get_path tx height = get tx.block_path height

  unfoldable pub push_path : Tx db → ℕ → Tx db
  push_path tx bid =
      let height = add64 tx.block_height 1 in
      record tx { block_height = height; block_path = put tx.block_path height bid }

  unfoldable pub pop_path : Tx db → Tx db
  pop_path tx = record tx {
    block_height = sub64 tx.block_height 1;
    block_path = delete tx.block_path tx.block_height;
  }

  unfoldable pub is_siacoin_output : Tx db → ℕ → Bool
  is_siacoin_output tx id = is_some (get tx.siacoin_outputs id)

  unfoldable pub get_siacoin_output : Tx db → ℕ → Act SiacoinOutput
  get_siacoin_output tx id = or_err (get tx.siacoin_outputs id) (returns nil_item)

  unfoldable pub get_file_contract : Tx db → ℕ → Act FileContract
  get_file_contract tx id = or_err (get tx.file_contracts id) (returns nil_item)

  unfoldable pub get_block_map : Tx db → ℕ → Act ProcessedBlock
  get_block_map tx id = or_err (get tx.block_map id) (returns nil_item)

  -- The bucket that CreateBucketIfNotExists returns.
  abbrev pub bucket_or_new : {V : Type 0} → Option (Bucket V) → Bucket V
  bucket_or_new none = empty
  bucket_or_new (some b) = b

  module _ (e : Env) where
    -- An error here shows a wrong state: a debug build panics, a release build goes on with the zero
    -- id.
    unfoldable pub current_block_id : Tx db → Act ℕ
    current_block_id tx = elim (get tx.block_path tx.block_height) [
      | some id ↦ ok id
      | none ↦ sanity e.debug true (unexpected_error nil_item) >> ok 0
    ]

    unfoldable pub add_siacoin_output : Tx db → ℕ → SiacoinOutput → Act (Tx db)
    add_siacoin_output tx id sco =
        sanity e.debug (is_some (get tx.siacoin_outputs id)) repeat_siacoin_output
        >> ok (record tx { siacoin_outputs = put tx.siacoin_outputs id sco })

    unfoldable pub remove_siacoin_output : Tx db → ℕ → Act (Tx db)
    remove_siacoin_output tx id =
        sanity e.debug (not (is_some (get tx.siacoin_outputs id))) nil_siacoin_output
        >> ok (record tx { siacoin_outputs = delete tx.siacoin_outputs id })

    -- The contract, and an entry in the bucket of its expiration.
    unfoldable pub add_file_contract : Tx db → ℕ → FileContract → Act (Tx db)
    add_file_contract tx id fc = do
      sanity e.debug (is_zero fc.payout) zero_payout_contract
      sanity e.debug (is_some (get tx.file_contracts id)) repeat_file_contract
      let expiration_bucket = bucket_or_new (get tx.expirations fc.window_end)
      ok (record tx {
        file_contracts = put tx.file_contracts id fc;
        expirations = put tx.expirations fc.window_end (put expiration_bucket id tt);
      })

    -- Without the contract a release build slices nil, and without the bucket it calls a method on nil.
    unfoldable pub remove_file_contract : Tx db → ℕ → Act (Tx db)
    remove_file_contract tx id = do
      sanity e.debug (not (is_some (get tx.file_contracts id))) nil_file_contract
      fc ← or_err (get tx.file_contracts id) (panics slice_bounds_out_of_range)
      expiration_bucket ← or_err (get tx.expirations fc.window_end) (panics nil_dereference)
      _ ← or_err (get expiration_bucket id) (panics expiration_missing)
      ok (record tx {
        file_contracts = delete tx.file_contracts id;
        expirations = put tx.expirations fc.window_end (delete expiration_bucket id);
      })

    unfoldable pub add_dsco : Tx db → ℕ → ℕ → SiacoinOutput → Act (Tx db)
    add_dsco tx bh id sco = do
      sanity e.debug (is_some (get tx.siacoin_outputs id)) output_already_in_set
      dsco_bucket ← or_err (get tx.delayed bh) (panics nil_dereference)
      sanity e.debug (is_some (get dsco_bucket id)) repeat_insert
      ok (record tx { delayed = put tx.delayed bh (put dsco_bucket id sco) })

    unfoldable pub remove_dsco : Tx db → ℕ → ℕ → Act (Tx db)
    remove_dsco tx bh id = do
      dsco_bucket ← or_err (get tx.delayed bh) (panics nil_dereference)
      sanity e.debug (not (is_some (get dsco_bucket id))) nil_dsco
      ok (record tx { delayed = put tx.delayed bh (delete dsco_bucket id) })

    -- CreateBucket fails where the bucket exists, and a release build ignores the error.
    unfoldable pub create_dsco_bucket : Tx db → ℕ → Act (Tx db)
    create_dsco_bucket tx bh =
        sanity e.debug (is_some (get tx.delayed bh)) bucket_exists
        >> ok (
            if is_some (get tx.delayed bh)
            then tx
            else record tx { delayed = put tx.delayed bh empty })

    unfoldable pub delete_dsco_bucket : Tx db → ℕ → Act (Tx db)
    delete_dsco_bucket tx bh =
        sanity e.debug (not (is_some (get tx.delayed bh))) nil_bucket
        >> ok (record tx { delayed = delete tx.delayed bh })
