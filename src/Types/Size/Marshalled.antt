-- ===== src/Types/Size/Marshalled.antt =====
-- The sizes that MarshalSiaSize computes are those of what MarshalSia writes (types/encoding.go).
use hyperspace.Common.{
  ℕ, ◌+◌, ◌*◌, ◌≡◌, ap, sym, ◌∙◌, List, [], ◌∷◌, length, length-append, All, All-mono, All-any,
  arith, Bool, true, false,
}
use hyperspace.Encoding.{
  Put, write, write_bool, write_uint64, write_prefixed_bytes, write_fixed, write_each, write_slice,
  be_bytes, enc_uint64,
}
use hyperspace.Encoding.Bytes.{length-be_bytes, length-enc_uint64}
use hyperspace.Types.Currency.{Currency}
use hyperspace.Types.Transaction.{
  SiaPublicKey, UnlockConditions, SiacoinInput, SiacoinOutput, FileContract, FileContractRevision,
  StorageProof, CoveredFields, TransactionSignature, Transaction,
}
use hyperspace.Types.Words.{byte_count}
use hyperspace.Types.Words.Least.{zeros-least, write_down-be_bytes}
use hyperspace.Types.Size.{
  size_each, currency_size, output_size, unlock_conditions_size, covered_fields_size,
  file_contract_size, file_contract_revision_size, input_size, storage_proof_size, signature_size,
  marshal_sia_size,
}
use hyperspace.Types.Encoding.{
  write_hash, marshal_currency, marshal_output, marshal_key, marshal_unlock_conditions,
  marshal_input, marshal_file_contract, marshal_file_contract_revision, marshal_storage_proof,
  write_numbers, marshal_covered_fields, marshal_signature, marshal_sia_no_signatures, marshal_sia,
}

-- `put` writes k bytes.
record Adds (put : Put) (k : ℕ) : Type 0 where
  adds : (rest : List ℕ) → length (put rest) ≡ k + length rest

Adds-then :
    {put then : Put} {k m : ℕ} → Adds put k → Adds then m → Adds (λ rest. put (then rest)) (k + m)
Adds-then {then} P Q = record { adds = λ rest. omega (arith, P.adds (then rest), Q.adds rest) }

Adds-as : {put : Put} {k : ℕ} (m : ℕ) → Adds put k → k ≡ m → Adds put m
Adds-as m P e = record { adds = λ rest. omega (arith, P.adds rest, e) }

Adds-write : (bytes : List ℕ) → Adds (write bytes) (length bytes)
Adds-write bytes = record { adds = λ rest. length-append bytes rest }

Adds-bool : (b : Bool) → Adds (write_bool b) 1
Adds-bool true = record { adds = λ rest. omega arith }
Adds-bool false = record { adds = λ rest. omega arith }

Adds-uint64 : (v : ℕ) → Adds (write_uint64 v) 8
unfolding write_uint64
Adds-uint64 v = Adds-as 8 (Adds-write (enc_uint64 v)) (length-enc_uint64 v)

Adds-fixed : (width v : ℕ) → Adds (write_fixed width v) width
unfolding write_fixed
Adds-fixed width v =
    Adds-as width (Adds-write (be_bytes width v [])) (omega (arith, length-be_bytes width v []))

Adds-prefixed : (bytes : List ℕ) → Adds (write_prefixed_bytes bytes) (8 + length bytes)
unfolding write_prefixed_bytes
Adds-prefixed bytes = Adds-then (Adds-uint64 (length bytes)) (Adds-write bytes)

module _ {ℓ} {A : Type ℓ} (put : A → Put) (size : A → ℕ) where
  Adds-each :
      (xs : List A)
      → All (λ x. Adds (put x) (size x)) xs
      → Adds (write_each put xs) (size_each size xs)
  unfolding write_each size_each
  Adds-each [] h = record { adds = λ rest. omega arith }
  Adds-each (x ∷ xs) (a, h) = Adds-then a (Adds-each xs h)

  Adds-items :
      (xs : List A)
      → All (λ x. Adds (put x) (size x)) xs
      → Adds (write_slice put xs) (8 + size_each size xs)
  unfolding write_slice
  Adds-items xs h = Adds-then (Adds-uint64 (length xs)) (Adds-each xs h)

  Adds-slice :
      ((x : A) → Adds (put x) (size x))
      → (xs : List A) → Adds (write_slice put xs) (8 + size_each size xs)
  Adds-slice f xs = Adds-items xs (All-mono (λ x u. f x) xs (All-any xs))

size_each-constant {ℓ} : {A : Type ℓ} (k : ℕ) (xs : List A) → size_each (λ x. k) xs ≡ length xs * k
unfolding size_each
size_each-constant k [] = omega arith
size_each-constant k (x ∷ xs) = grind (arith, size_each-constant k xs)

Adds-numbers : (xs : List ℕ) → Adds (write_numbers xs) (8 + length xs * 8)
Adds-numbers xs =
    Adds-as (8 + length xs * 8) (Adds-slice write_uint64 (λ u. 8) Adds-uint64 xs)
      (omega (arith, size_each-constant 8 xs))

Adds-currency : (c : Currency) → Adds (marshal_currency c) (currency_size c)
unfolding marshal_currency currency_size
Adds-currency c =
    let size = byte_count c in
    let bytes = be_bytes size c [] in
    let as_bytes =
      Adds-then (Adds-uint64 size)
        (Adds-as size (Adds-write bytes) (omega (arith, length-be_bytes size c []))) in
    record {
      adds = λ rest.
          ap (λ bs. length (write_uint64 size bs)) (write_down-be_bytes c size rest)
          ∙ as_bytes.adds rest
          ∙ ap (λ k. 8 + k + length rest) (sym (zeros-least c).0);
    }

Adds-output : (sco : SiacoinOutput) → Adds (marshal_output sco) (output_size sco)
unfolding marshal_output output_size
Adds-output sco = Adds-then (Adds-currency sco.value) (Adds-fixed 32 sco.unlock_hash)

Adds-key : (spk : SiaPublicKey) → Adds (marshal_key spk) (16 + (8 + length spk.key))
unfolding marshal_key
Adds-key spk = Adds-then (Adds-fixed 16 spk.algorithm) (Adds-prefixed spk.key)

Adds-conditions :
    (uc : UnlockConditions) → Adds (marshal_unlock_conditions uc) (unlock_conditions_size uc)
unfolding marshal_unlock_conditions unlock_conditions_size
Adds-conditions uc =
    Adds-as _
      (Adds-then (Adds-uint64 uc.timelock) (
        Adds-then
          (Adds-slice marshal_key (λ (k : SiaPublicKey). 16 + (8 + length k.key)) Adds-key
            uc.public_keys)
          (Adds-uint64 uc.signatures_required)))
      (omega arith)

Adds-input : (sci : SiacoinInput) → Adds (marshal_input sci) (input_size sci)
unfolding marshal_input input_size
Adds-input sci = Adds-then (Adds-fixed 32 sci.parent_id) (Adds-conditions sci.unlock_conditions)

Adds-outputs :
    (xs : List SiacoinOutput) → Adds (write_slice marshal_output xs) (8 + size_each output_size xs)
Adds-outputs xs = Adds-slice marshal_output output_size Adds-output xs

Adds-contract : (fc : FileContract) → Adds (marshal_file_contract fc) (file_contract_size fc)
unfolding marshal_file_contract file_contract_size
Adds-contract fc =
    Adds-as _
      (Adds-then (Adds-uint64 fc.file_size) (
        Adds-then (Adds-fixed 32 fc.file_merkle_root) (
          Adds-then (Adds-uint64 fc.window_start) (
            Adds-then (Adds-uint64 fc.window_end) (
              Adds-then (Adds-currency fc.payout) (
                Adds-then (Adds-outputs fc.valid_proof_outputs) (
                  Adds-then (Adds-outputs fc.missed_proof_outputs) (
                    Adds-then (Adds-fixed 32 fc.unlock_hash)
                      (Adds-uint64 fc.revision_number)))))))))
      (omega arith)

Adds-revision :
    (fcr : FileContractRevision)
    → Adds (marshal_file_contract_revision fcr) (file_contract_revision_size fcr)
unfolding marshal_file_contract_revision file_contract_revision_size
Adds-revision fcr =
    Adds-as _
      (Adds-then (Adds-fixed 32 fcr.parent_id) (
        Adds-then (Adds-conditions fcr.unlock_conditions) (
          Adds-then (Adds-uint64 fcr.new_revision_number) (
            Adds-then (Adds-uint64 fcr.new_file_size) (
              Adds-then (Adds-fixed 32 fcr.new_file_merkle_root) (
                Adds-then (Adds-uint64 fcr.new_window_start) (
                  Adds-then (Adds-uint64 fcr.new_window_end) (
                    Adds-then (Adds-outputs fcr.new_valid_proof_outputs) (
                      Adds-then (Adds-outputs fcr.new_missed_proof_outputs)
                        (Adds-fixed 32 fcr.new_unlock_hash))))))))))
      (omega arith)

Adds-hashes : (xs : List ℕ) → Adds (write_slice write_hash xs) (8 + length xs * 32)
Adds-hashes xs =
    Adds-as _ (Adds-slice write_hash (λ h. 32) (Adds-fixed 32) xs)
      (omega (arith, size_each-constant 32 xs))

Adds-proof :
    (sp : StorageProof)
    → length sp.segment ≡ 64
    → Adds (marshal_storage_proof sp) (storage_proof_size sp)
unfolding marshal_storage_proof storage_proof_size
Adds-proof sp h =
    Adds-as _
      (Adds-then (Adds-fixed 32 sp.parent_id)
        (Adds-then (Adds-write sp.segment) (Adds-hashes sp.hash_set)))
      (omega (arith, h))

Adds-covered : (cf : CoveredFields) → Adds (marshal_covered_fields cf) (covered_fields_size cf)
unfolding marshal_covered_fields covered_fields_size
Adds-covered cf =
    Adds-as _
      (Adds-then (Adds-bool cf.whole_transaction) (
        Adds-then (Adds-numbers cf.siacoin_inputs) (
          Adds-then (Adds-numbers cf.siacoin_outputs) (
            Adds-then (Adds-numbers cf.file_contracts) (
              Adds-then (Adds-numbers cf.file_contract_revisions) (
                Adds-then (Adds-numbers cf.storage_proofs) (
                  Adds-then (Adds-numbers cf.miner_fees) (
                    Adds-then (Adds-numbers cf.arbitrary_data)
                      (Adds-numbers cf.transaction_signatures)))))))))
      (omega arith)

Adds-signature : (ts : TransactionSignature) → Adds (marshal_signature ts) (signature_size ts)
unfolding marshal_signature signature_size
Adds-signature ts =
    Adds-as _
      (Adds-then (Adds-fixed 32 ts.parent_id) (
        Adds-then (Adds-uint64 ts.public_key_index) (
          Adds-then (Adds-uint64 ts.timelock)
            (Adds-then (Adds-covered ts.covered_fields) (Adds-prefixed ts.signature)))))
      (omega arith)

Adds-sia :
    (t : Transaction)
    → All (λ (sp : StorageProof). length sp.segment ≡ 64) t.storage_proofs
    → Adds (marshal_sia t) (marshal_sia_size t)
unfolding marshal_sia marshal_sia_no_signatures marshal_sia_size
Adds-sia t h =
    Adds-as _
      (Adds-then (Adds-slice marshal_input input_size Adds-input t.siacoin_inputs) (
        Adds-then (Adds-outputs t.siacoin_outputs) (
          Adds-then
            (Adds-slice marshal_file_contract file_contract_size Adds-contract t.file_contracts)
            (Adds-then
              (Adds-slice marshal_file_contract_revision file_contract_revision_size Adds-revision
                t.file_contract_revisions)
              (Adds-then
                (Adds-items marshal_storage_proof storage_proof_size t.storage_proofs
                  (All-mono Adds-proof t.storage_proofs h))
                (Adds-then (Adds-slice marshal_currency currency_size Adds-currency t.miner_fees) (
                  Adds-then
                    (Adds-slice write_prefixed_bytes (λ (d : List ℕ). 8 + length d) Adds-prefixed
                      t.arbitrary_data)
                    (Adds-slice marshal_signature signature_size Adds-signature
                      t.transaction_signatures))))))))
      (omega arith)

-- A transaction whose proofs' segments are 64 bytes long takes, encoded, as many bytes as
-- MarshalSiaSize says, whatever is written after it.
pub length-marshal_sia :
    (t : Transaction) (rest : List ℕ)
    → All (λ (sp : StorageProof). length sp.segment ≡ 64) t.storage_proofs
    → length (marshal_sia t rest) ≡ marshal_sia_size t + length rest
length-marshal_sia t rest h = (Adds-sia t h).adds rest
