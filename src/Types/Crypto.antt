-- ===== src/Types/Crypto.antt =====
-- What the program takes from its cryptographic libraries, and from hashes over encoded objects: the
-- ids of types/transactions.go, types/filecontracts.go and types/block.go, UnlockHash and SigHash of
-- types/signatures.go, VerifyHash of crypto/signatures.go and VerifySegment of crypto/merkle.go.
use hyperspace.Common.{ℕ, zero, suc, List, [], ◌∷◌, Bool}
use hyperspace.Types.Transaction.{Transaction, Block, UnlockConditions}

pub record Crypto : Type 0 where
  pub sig_hash : Transaction → ℕ → ℕ
  pub verify_hash : ℕ → List ℕ → List ℕ → Bool
  pub unlock_hash : UnlockConditions → ℕ
  pub siacoin_output_id : Transaction → ℕ → ℕ
  pub file_contract_id : Transaction → ℕ → ℕ
  pub storage_proof_output_id : ℕ → Bool → ℕ → ℕ
  pub block_id : Block → ℕ
  pub miner_payout_id : Block → ℕ → ℕ
  pub change_entry_id : List ℕ → List ℕ → ℕ
  pub hash_all : ℕ → ℕ → ℕ
  pub verify_segment : List ℕ → List ℕ → ℕ → ℕ → ℕ → Bool

-- `copy(dst[:], src)` into a zeroed array of n bytes.
unfoldable pub copy_into : ℕ → List ℕ → List ℕ
copy_into zero bytes = []
copy_into (suc n) [] = 0 ∷ copy_into n []
copy_into (suc n) (b ∷ bytes) = b ∷ copy_into n bytes
