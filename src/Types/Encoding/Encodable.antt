-- ===== src/Types/Encoding/Encodable.antt =====
-- The values that have an encoding which the Decoder accepts: numbers fit their width, and slices the
-- Decoder's limit. The numbers at IsSlice are the elements' sizes in memory.
use hyperspace.Common.{ℕ, ◌*◌, ◌^◌, ◌<◌, ◌≤◌, ◌≡◌, List, length, All}
use hyperspace.Encoding.{max_slice_size}
use hyperspace.Types.Currency.{Currency}
use hyperspace.Types.Words.{byte_count}
use hyperspace.Types.Transaction.{
  SiaPublicKey, UnlockConditions, SiacoinInput, SiacoinOutput, FileContract, FileContractRevision,
  StorageProof, CoveredFields, TransactionSignature, Transaction, Block,
}

abbrev pub IsUint64 : ℕ → Type 0
IsUint64 v = v < 2 ^ 64

abbrev pub IsHash : ℕ → Type 0
IsHash h = h < 256 ^ 32

abbrev pub IsSlice {ℓ} : {A : Type ℓ} → ℕ → (A → Type 0) → List A → Type 0
IsSlice elem_size P xs = (length xs * elem_size ≤ max_slice_size) × All P xs

abbrev pub IsBytes : List ℕ → Type 0
IsBytes bytes = length bytes ≤ max_slice_size

abbrev pub IsNumbers : List ℕ → Type 0
IsNumbers = IsSlice 8 IsUint64

abbrev pub IsCurrency : Currency → Type 0
IsCurrency c = byte_count c ≤ max_slice_size

abbrev pub IsOutput : SiacoinOutput → Type 0
IsOutput sco = IsCurrency sco.value × IsHash sco.unlock_hash

abbrev pub IsKey : SiaPublicKey → Type 0
IsKey spk = (spk.algorithm < 256 ^ 16) × IsBytes spk.key

abbrev pub IsConditions : UnlockConditions → Type 0
IsConditions uc =
    IsUint64 uc.timelock × IsSlice 40 IsKey uc.public_keys × IsUint64 uc.signatures_required

abbrev pub IsInput : SiacoinInput → Type 0
IsInput sci = IsHash sci.parent_id × IsConditions sci.unlock_conditions

abbrev pub IsContract : FileContract → Type 0
IsContract fc =
    IsUint64 fc.file_size
    × IsHash fc.file_merkle_root
    × IsUint64 fc.window_start
    × IsUint64 fc.window_end
    × IsCurrency fc.payout
    × IsSlice 64 IsOutput fc.valid_proof_outputs
    × IsSlice 64 IsOutput fc.missed_proof_outputs
    × IsHash fc.unlock_hash
    × IsUint64 fc.revision_number

abbrev pub IsRevision : FileContractRevision → Type 0
IsRevision fcr =
    IsHash fcr.parent_id
    × IsConditions fcr.unlock_conditions
    × IsUint64 fcr.new_revision_number
    × IsUint64 fcr.new_file_size
    × IsHash fcr.new_file_merkle_root
    × IsUint64 fcr.new_window_start
    × IsUint64 fcr.new_window_end
    × IsSlice 64 IsOutput fcr.new_valid_proof_outputs
    × IsSlice 64 IsOutput fcr.new_missed_proof_outputs
    × IsHash fcr.new_unlock_hash

abbrev pub IsProof : StorageProof → Type 0
IsProof sp = IsHash sp.parent_id × (length sp.segment ≡ 64) × IsSlice 32 IsHash sp.hash_set

abbrev pub IsCovered : CoveredFields → Type 0
IsCovered cf =
    IsNumbers cf.siacoin_inputs
    × IsNumbers cf.siacoin_outputs
    × IsNumbers cf.file_contracts
    × IsNumbers cf.file_contract_revisions
    × IsNumbers cf.storage_proofs
    × IsNumbers cf.miner_fees
    × IsNumbers cf.arbitrary_data
    × IsNumbers cf.transaction_signatures

abbrev pub IsSignature : TransactionSignature → Type 0
IsSignature ts =
    IsHash ts.parent_id
    × IsUint64 ts.public_key_index
    × IsUint64 ts.timelock
    × IsCovered ts.covered_fields
    × IsBytes ts.signature

abbrev pub IsTransaction : Transaction → Type 0
IsTransaction t =
    IsSlice 72 IsInput t.siacoin_inputs
    × IsSlice 64 IsOutput t.siacoin_outputs
    × IsSlice 176 IsContract t.file_contracts
    × IsSlice 216 IsRevision t.file_contract_revisions
    × IsSlice 120 IsProof t.storage_proofs
    × IsSlice 32 IsCurrency t.miner_fees
    × IsSlice 24 IsBytes t.arbitrary_data
    × IsSlice 272 IsSignature t.transaction_signatures

abbrev pub IsBlock : Block → Type 0
IsBlock b =
    IsHash b.parent_id
    × (b.nonce < 256 ^ 8)
    × IsUint64 b.timestamp
    × IsSlice 64 IsOutput b.miner_payouts
    × IsSlice 192 IsTransaction b.transactions
