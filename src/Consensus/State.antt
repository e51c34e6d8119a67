-- ===== src/Consensus/State.antt =====
-- The data of modules/consensus: the diffs of modules/consensus.go, processedBlock of
-- processedblock.go, and the buckets that consensusdb.go keeps in the database.
use hyperspace.Common.{ok, ◌>>◌, ◌≡◌, refl, ℕ, List, Bool, true, false, guard}
use hyperspace.Common.Result.{Result}
use hyperspace.Types.Errors
use hyperspace.Types.Crypto.{Crypto}
use hyperspace.Types.Constants.{Constants}
use hyperspace.Types.Transaction.{SiacoinOutput, FileContract, Block}
use hyperspace.Database.{Bolt}

pub data DiffDirection : Type 0 where
  diff_apply diff_revert : DiffDirection

-- `a == b` on directions.
abbrev pub same : DiffDirection → DiffDirection → Bool
same diff_apply diff_apply = true
same diff_apply diff_revert = false
same diff_revert diff_apply = false
same diff_revert diff_revert = true

pub record SiacoinOutputDiff : Type 0 where
  pub direction : DiffDirection
  pub id : ℕ
  pub siacoin_output : SiacoinOutput

pub record FileContractDiff : Type 0 where
  pub direction : DiffDirection
  pub id : ℕ
  pub file_contract : FileContract

pub record DelayedSiacoinOutputDiff : Type 0 where
  pub direction : DiffDirection
  pub id : ℕ
  pub siacoin_output : SiacoinOutput
  pub maturity_height : ℕ

-- The checksum of a debug build is left out. A target is the number that its bytes spell.
pub record ProcessedBlock : Type 0 where
  pub block : Block
  pub height : ℕ
  pub depth : ℕ
  pub child_target : ℕ
  pub diffs_generated : Bool
  pub siacoin_output_diffs : List SiacoinOutputDiff
  pub file_contract_diffs : List FileContractDiff
  pub delayed_siacoin_output_diffs : List DelayedSiacoinOutputDiff

-- The fields of ProcessedBlockHeader that applying a block reads or writes.
pub record ProcessedBlockHeader : Type 0 where
  pub height : ℕ
  pub depth : ℕ
  pub child_target : ℕ
  pub siacoin_output_diffs : List SiacoinOutputDiff
  pub delayed_siacoin_output_diffs : List DelayedSiacoinOutputDiff

-- An open database transaction. The buckets whose names are a prefix and a height (`dsco_`, `fcex_`)
-- are buckets in a bucket, by the height.
pub record Tx (db : Bolt) : Type 0 where
  pub siacoin_outputs : db.Bucket SiacoinOutput
  pub file_contracts : db.Bucket FileContract
  pub expirations : db.Bucket (db.Bucket (Unit {0}))
  pub delayed : db.Bucket (db.Bucket SiacoinOutput)
  pub block_map : db.Bucket ProcessedBlock
  pub block_header_map : db.Bucket ProcessedBlockHeader
  pub block_path : db.Bucket ℕ
  pub block_height : ℕ

-- What the build fixes: build.DEBUG, the constants and the cryptography.
pub record Env : Type 0 where
  pub debug : Bool
  pub constants : Constants
  pub crypto : Crypto

-- The errors that the package returns.
pub data Error : Type 0 where
  standalone : Errors.Error → Error
  altered_revision_payouts invalid_storage_proof late_revision low_revision_number : Error
  missing_siacoin_output siacoin_input_output_mismatch unfinished_file_contract : Error
  unrecognized_file_contract_id wrong_unlock_conditions nil_item : Error
  bad_miner_payouts early_timestamp extreme_future_timestamp future_timestamp large_block : Error
  block_unsolved dos_block block_known orphan non_extending_block non_linear_chain : Error
  fewer_applied_than_reverted : Error

-- The ways to panic: failed sanity checks of a debug build, and faults of the Go runtime.
pub data Panic : Type 0 where
  unexpected_error : Error → Panic
  repeat_siacoin_output nil_siacoin_output zero_payout_contract repeat_file_contract : Panic
  nil_file_contract expiration_missing output_already_in_set repeat_insert nil_dsco : Panic
  bucket_exists nil_bucket storage_proof_timing payouts_already_paid output_already_mature : Panic
  invalid_successor nil_dereference slice_bounds_out_of_range diffs_not_generated : Panic
  wrong_applied_diff_set wrong_revert_diff_set external_revert division_by_zero : Panic

pub data Fault : Type 0 where
  returns : Error → Fault
  panics : Panic → Fault
  -- A loop has not come to its end on the fuel that it was given.
  runs_on : Fault

abbrev pub Act {ℓ} : Type ℓ → Type ℓ
Act A = Result Fault A

-- `if build.DEBUG && bad { panic(p) }`
abbrev pub sanity : Bool → Bool → Panic → Act (Unit {0})
sanity true true p = guard false (panics p)
sanity true false p = guard true (panics p)
sanity false bad p = guard true (panics p)

-- A debug build passes a sanity check only where it finds nothing wrong.
pub sanity_inv {ℓ} :
    {A : Type ℓ} (debug bad : Bool) (p : Panic) (next : Act A) {a : A}
    → debug ≡ true
    → (sanity debug bad p >> next) ≡ ok a
    → (bad ≡ false) × (next ≡ ok a)
sanity_inv true true p next d h = cc
sanity_inv true false p next d h = (refl, h)
sanity_inv false bad p next d h = cc

-- Any build that goes on after a sanity check does what comes next.
pub sanity_next {ℓ} :
    {A : Type ℓ} (debug bad : Bool) (p : Panic) (next : Act A) {a : A}
    → (sanity debug bad p >> next) ≡ ok a
    → next ≡ ok a
sanity_next true true p next h = cc
sanity_next true false p next h = h
sanity_next false bad p next h = h
