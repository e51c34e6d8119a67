-- ===== src/Types/Transaction.antt =====
-- The data of types/transactions.go, types/filecontracts.go, types/signatures.go and types/block.go.
-- A hash, an id or an unlock hash is the number that its bytes spell; bytes are numbers.
use hyperspace.Common.{ℕ, List, [], ◌∷◌, Bool}
use hyperspace.Types.Currency.{Currency, add}

pub record SiaPublicKey : Type 0 where
  pub algorithm : ℕ
  pub key : List ℕ

pub record UnlockConditions : Type 0 where
  pub timelock : ℕ
  pub public_keys : List SiaPublicKey
  pub signatures_required : ℕ

pub record SiacoinInput : Type 0 where
  pub parent_id : ℕ
  pub unlock_conditions : UnlockConditions

pub record SiacoinOutput : Type 0 where
  pub value : Currency
  pub unlock_hash : ℕ

pub record FileContract : Type 0 where
  pub file_size : ℕ
  pub file_merkle_root : ℕ
  pub window_start : ℕ
  pub window_end : ℕ
  pub payout : Currency
  pub valid_proof_outputs : List SiacoinOutput
  pub missed_proof_outputs : List SiacoinOutput
  pub unlock_hash : ℕ
  pub revision_number : ℕ

pub record FileContractRevision : Type 0 where
  pub parent_id : ℕ
  pub unlock_conditions : UnlockConditions
  pub new_revision_number : ℕ
  pub new_file_size : ℕ
  pub new_file_merkle_root : ℕ
  pub new_window_start : ℕ
  pub new_window_end : ℕ
  pub new_valid_proof_outputs : List SiacoinOutput
  pub new_missed_proof_outputs : List SiacoinOutput
  pub new_unlock_hash : ℕ

pub record StorageProof : Type 0 where
  pub parent_id : ℕ
  pub segment : List ℕ
  pub hash_set : List ℕ

pub record CoveredFields : Type 0 where
  pub whole_transaction : Bool
  pub siacoin_inputs : List ℕ
  pub siacoin_outputs : List ℕ
  pub file_contracts : List ℕ
  pub file_contract_revisions : List ℕ
  pub storage_proofs : List ℕ
  pub miner_fees : List ℕ
  pub arbitrary_data : List ℕ
  pub transaction_signatures : List ℕ

pub record TransactionSignature : Type 0 where
  pub parent_id : ℕ
  pub public_key_index : ℕ
  pub timelock : ℕ
  pub covered_fields : CoveredFields
  pub signature : List ℕ

pub record Transaction : Type 0 where
  pub siacoin_inputs : List SiacoinInput
  pub siacoin_outputs : List SiacoinOutput
  pub file_contracts : List FileContract
  pub file_contract_revisions : List FileContractRevision
  pub storage_proofs : List StorageProof
  pub miner_fees : List Currency
  pub arbitrary_data : List (List ℕ)
  pub transaction_signatures : List TransactionSignature

pub record Block : Type 0 where
  pub parent_id : ℕ
  pub nonce : ℕ
  pub timestamp : ℕ
  pub miner_payouts : List SiacoinOutput
  pub transactions : List Transaction

-- `for _, x := range xs { sum = sum.Add(f(x)) }`
unfoldable pub add_each {ℓ} : {A : Type ℓ} → (A → Currency) → Currency → List A → Currency
unfolding add
add_each f s [] = s
add_each f s (x ∷ xs) = add_each f (add s (f x)) xs

abbrev pub value_of : SiacoinOutput → Currency
value_of o = o.value

unfoldable pub siacoin_output_sum : Transaction → Currency
siacoin_output_sum t =
    add_each (λ fee. fee)
      (add_each (λ (fc : FileContract). fc.payout) (add_each value_of 0 t.siacoin_outputs)
        t.file_contracts)
      t.miner_fees
