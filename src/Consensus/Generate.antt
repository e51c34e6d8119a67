-- ===== src/Consensus/Generate.antt =====
-- generateAndApplyDiff of modules/consensus/diffs.go, and tryTransactionSet of validtransaction.go.
use hyperspace.Common.{
  ℕ, List, [], ◌∷◌, true, false, not, Option, none, some, ◌==◌, ok, ◌>>=◌, ◌>>◌, add64,
  if◌then◌else◌,
}
use hyperspace.Types.Transaction.{Transaction, Block}
use hyperspace.Database.{Bolt}
use hyperspace.Consensus.State.{
  ProcessedBlock, ProcessedBlockHeader, Tx, Env, Act, sanity, invalid_successor,
}
use hyperspace.Consensus.Store.{current_block_id, create_dsco_bucket, push_path}
use hyperspace.Consensus.Valid.{valid_transaction}
use hyperspace.Consensus.Apply.{Work, apply_transaction}
use hyperspace.Consensus.Maintenance.{apply_maintenance}

module _ (db : Bolt) (e : Env) where
  -- The sanity check that the block extends the current one.
  unfoldable pub check_successor : Tx db → Block → Act (Unit {0})
  check_successor tx b =
      if e.debug
      then (do
        current ← current_block_id db e tx
        sanity true (not (b.parent_id == current)) invalid_successor)
      else ok tt

  -- Each transaction is validated in the state that the ones before it leave.
  unfoldable pub validate_and_apply : Work db → List Transaction → Act (Work db)
  validate_and_apply w [] = ok w
  validate_and_apply w (t ∷ ts) = do
    valid_transaction db e w.tx t
    w' ← apply_transaction db e w t
    validate_and_apply w' ts

  -- The header is stored, if there is one.
  abbrev pub store_header : ℕ → Option ProcessedBlockHeader → Tx db → Tx db
  store_header bid none tx = tx
  store_header bid (some pbh) tx = record tx {
    block_header_map = db.put tx.block_header_map bid pbh;
  }

  -- The block is marked as validated, put on the path, and stored.
  unfoldable pub store_block : Work db → Work db
  store_block w =
      let pb' = record w.pb { diffs_generated = true } in
      let bid = e.crypto.block_id w.pb.block in
      let tx1 = push_path db w.tx bid in
      let tx2 = store_header bid w.pbh tx1 in
      record w { tx = record tx2 { block_map = db.put tx2.block_map bid pb' }; pb = pb' }

  unfoldable pub generate_and_apply_diff : Work db → Act (Work db)
  unfolding store_block
  generate_and_apply_diff w = do
    check_successor w.tx w.pb.block
    tx0 ← create_dsco_bucket db e w.tx (add64 w.pb.height e.constants.maturity_delay)
    w1 ← validate_and_apply (record w { tx = tx0 }) w.pb.block.transactions
    w2 ← apply_maintenance db e w1
    ok (store_block w2)

abbrev pub empty_block : Block
empty_block = record {
  parent_id = 0;
  nonce = 0;
  timestamp = 0;
  miner_payouts = [];
  transactions = [];
}

-- `new(processedBlock)`, at a height.
abbrev pub diff_holder : ℕ → ProcessedBlock
diff_holder h = record {
  block = empty_block;
  height = h;
  depth = 0;
  child_target = 0;
  diffs_generated = false;
  siacoin_output_diffs = [];
  file_contract_diffs = [];
  delayed_siacoin_output_diffs = [];
}

-- The database rolls back; what remains of the run is the block that holds the diffs.
unfoldable pub try_transaction_set :
    (db : Bolt) → Env → Tx db → List Transaction → Act ProcessedBlock
unfolding validate_and_apply
try_transaction_set db e tx txns = do
  w ←
      validate_and_apply db e (record { tx = tx; pb = diff_holder tx.block_height; pbh = none })
        txns
  ok w.pb
