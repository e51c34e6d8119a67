-- ===== src/Types/Size.antt =====
-- The MarshalSiaSize methods of types/encoding.go: the encoded size, computed without encoding.
pub mod Marshalled
use mathlib.Core.List.{reverse}
use hyperspace.Types.Words.{bits, zeros}
use hyperspace.Common.{
  refl, arith, ◌∙◌, ◌⊎◌, inl, inr, ℕ, zero, suc, ◌+◌, ◌*◌, ◌/◌, List, [], ◌∷◌, length, true, false,
  ◌==◌,
}
use hyperspace.Types.Currency.{Currency}
use hyperspace.Types.Transaction.{
  SiaPublicKey, UnlockConditions, SiacoinInput, SiacoinOutput, FileContract, FileContractRevision,
  StorageProof, CoveredFields, TransactionSignature, Transaction,
}

-- `for _, x := range xs { size += f(x) }`
pub size_each {ℓ} : {A : Type ℓ} → (A → ℕ) → List A → ℕ
size_each f [] = 0
size_each f (x ∷ xs) = f x + size_each f xs

unfoldable pub currency_size : Currency → ℕ
unfolding bits zeros
currency_size c = 8 + zeros (reverse (bits c c)) (length (bits c c) * 8)

output_size : SiacoinOutput → ℕ
unfolding currency_size
output_size o = currency_size o.value + 32

unlock_conditions_size : UnlockConditions → ℕ
unfolding size_each
unlock_conditions_size uc =
    8 + 8 + size_each (λ (k : SiaPublicKey). 16 + (8 + length k.key)) uc.public_keys + 8

covered_fields_size : CoveredFields → ℕ
covered_fields_size cf =
    1
    + (8 + length cf.siacoin_inputs * 8)
    + (8 + length cf.siacoin_outputs * 8)
    + (8 + length cf.file_contracts * 8)
    + (8 + length cf.file_contract_revisions * 8)
    + (8 + length cf.storage_proofs * 8)
    + (8 + length cf.miner_fees * 8)
    + (8 + length cf.arbitrary_data * 8)
    + (8 + length cf.transaction_signatures * 8)

file_contract_size : FileContract → ℕ
unfolding currency_size output_size size_each
file_contract_size fc =
    8
    + 32
    + (8 + 8)
    + currency_size fc.payout
    + 8
    + size_each output_size fc.valid_proof_outputs
    + 8
    + size_each output_size fc.missed_proof_outputs
    + 32
    + 8

file_contract_revision_size : FileContractRevision → ℕ
unfolding unlock_conditions_size output_size size_each
file_contract_revision_size fcr =
    32
    + unlock_conditions_size fcr.unlock_conditions
    + 8
    + 8
    + 32
    + (8 + 8)
    + 8
    + size_each output_size fcr.new_valid_proof_outputs
    + 8
    + size_each output_size fcr.new_missed_proof_outputs
    + 32

input_size : SiacoinInput → ℕ
unfolding unlock_conditions_size
input_size sci = 32 + unlock_conditions_size sci.unlock_conditions

storage_proof_size : StorageProof → ℕ
storage_proof_size sp = 32 + 64 + (8 + length sp.hash_set * 32)

signature_size : TransactionSignature → ℕ
unfolding covered_fields_size
signature_size ts = 32 + 8 + 8 + covered_fields_size ts.covered_fields + (8 + length ts.signature)

unfoldable pub marshal_sia_size : Transaction → ℕ
unfolding size_each input_size output_size file_contract_size file_contract_revision_size
    storage_proof_size currency_size signature_size
marshal_sia_size t =
    8
    + size_each input_size t.siacoin_inputs
    + 8
    + size_each output_size t.siacoin_outputs
    + 8
    + size_each file_contract_size t.file_contracts
    + 8
    + size_each file_contract_revision_size t.file_contract_revisions
    + 8
    + size_each storage_proof_size t.storage_proofs
    + 8
    + size_each currency_size t.miner_fees
    + 8
    + size_each (λ (d : List ℕ). 8 + length d) t.arbitrary_data
    + 8
    + size_each signature_size t.transaction_signatures
