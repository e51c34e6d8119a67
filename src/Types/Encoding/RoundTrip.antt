-- ===== src/Types/Encoding/RoundTrip.antt =====
-- What a MarshalSia method of types/encoding.go writes, the type's UnmarshalSia reads back.
use mathlib.Core.Path.{fun_ext}
use hyperspace.Common.{
  ℕ, sym, ◌+◌, ◌<◌, ◌≤◌, ◌≡◌, refl, ◌∙◌, ap, subst, List, [], ◌∷◌, length, All-mono, Bool, true,
  false, ok, arith,
}
use hyperspace.Encoding.{
  Put, write, write_bool, write_uint64, write_prefixed_bytes, write_slice, max_object_size, Decode,
  pure, be_bytes, from_be, read_full, next_uint64, read_prefixed_bytes, read_slice,
}
use hyperspace.Encoding.Bytes.{from_be-be_bytes, length-be_bytes}
use hyperspace.Encoding.Reads.{
  Reads, Reads-pure, Reads-bind, Reads-read_full, Reads-next_uint64, Reads-prefixed,
  Reads-prefixed_by, Reads-fixed, Reads-slice,
}
use hyperspace.Types.Currency.{Currency}
use hyperspace.Types.Words.{byte_count}
use hyperspace.Types.Words.Least.{zeros-least, write_down-be_bytes}
use hyperspace.Types.Transaction.{
  SiaPublicKey, UnlockConditions, SiacoinInput, SiacoinOutput, FileContract, FileContractRevision,
  StorageProof, CoveredFields, TransactionSignature, Transaction, Block,
}
use hyperspace.Types.Encoding.{
  write_hash, read_hash, marshal_currency, unmarshal_currency, marshal_output, unmarshal_output,
  marshal_key, unmarshal_key, marshal_unlock_conditions, unmarshal_unlock_conditions, marshal_input,
  unmarshal_input, marshal_file_contract, unmarshal_file_contract, marshal_file_contract_revision,
  unmarshal_file_contract_revision, marshal_storage_proof, unmarshal_storage_proof, first_is_one,
  write_numbers, read_numbers, marshal_covered_fields, unmarshal_covered_fields, marshal_signature,
  unmarshal_signature, marshal_sia_no_signatures, marshal_sia, unmarshal_sia, marshal_block,
  unmarshal_block,
}
use hyperspace.Types.Encoding.Encodable.{
  IsUint64, IsHash, IsSlice, IsBytes, IsNumbers, IsCurrency, IsOutput, IsKey, IsConditions, IsInput,
  IsContract, IsRevision, IsProof, IsCovered, IsSignature, IsTransaction, IsBlock,
}

Reads-same {ℓ} :
    {A : Type ℓ} {p : Decode A} {put put' : Put} {a : A}
    → ((rest : List ℕ) → put rest ≡ put' rest)
    → Reads p put a
    → Reads p put' a
Reads-same {p} {a} same R = subst (λ f. Reads p f a) (fun_ext same) R

-- A slice whose elements are read back.
Reads-IsSlice {ℓ} :
    {A : Type ℓ} (item : Decode A) (put : A → Put) (elem_size : ℕ) (P : A → Type 0)
    → ((x : A) → P x → Reads item (put x) x)
    → 0 < elem_size
    → (xs : List A) → IsSlice elem_size P xs
    → Reads (read_slice elem_size item) (write_slice put xs) xs
Reads-IsSlice item put elem_size P f pos xs (h, all) =
    Reads-slice item put elem_size xs (grind arith) h (All-mono f xs all)

Reads-unmarshal_currency :
    (c : Currency) → IsCurrency c → Reads unmarshal_currency (marshal_currency c) c
unfolding unmarshal_currency marshal_currency from_be
Reads-unmarshal_currency c h =
    let size = byte_count c in
    let bytes = be_bytes size c [] in
    let same = from_be-be_bytes size c [] (zeros-least c).1 in
    Reads-same (λ rest. ap (write_uint64 size) (sym (write_down-be_bytes c size rest)))
      (Reads-bind _ (Reads-prefixed_by bytes size (omega (arith, length-be_bytes size c [])) h) (
        subst (λ (v : ℕ). Reads (pure (from_be 0 bytes)) (λ rest. rest) v) same
          (Reads-pure (from_be 0 bytes))))

Reads-unmarshal_output :
    (sco : SiacoinOutput) → IsOutput sco → Reads unmarshal_output (marshal_output sco) sco
unfolding unmarshal_output marshal_output
Reads-unmarshal_output sco (v, u) =
    Reads-bind _ (Reads-unmarshal_currency sco.value v)
      (Reads-bind _ (Reads-fixed 32 sco.unlock_hash u) (Reads-pure sco))

outputs_back :
    (xs : List SiacoinOutput)
    → IsSlice 64 IsOutput xs
    → Reads (read_slice 64 unmarshal_output) (write_slice marshal_output xs) xs
outputs_back xs h =
    Reads-IsSlice unmarshal_output marshal_output 64 IsOutput Reads-unmarshal_output (omega arith)
      xs h

Reads-unmarshal_key : (spk : SiaPublicKey) → IsKey spk → Reads unmarshal_key (marshal_key spk) spk
unfolding unmarshal_key marshal_key
Reads-unmarshal_key spk (a, k) =
    Reads-bind _ (Reads-fixed 16 spk.algorithm a)
      (Reads-bind _ (Reads-prefixed spk.key k) (Reads-pure spk))

Reads-unmarshal_unlock_conditions :
    (uc : UnlockConditions)
    → IsConditions uc
    → Reads unmarshal_unlock_conditions (marshal_unlock_conditions uc) uc
unfolding unmarshal_unlock_conditions marshal_unlock_conditions
Reads-unmarshal_unlock_conditions uc (t, keys, n) = Reads-bind _ (Reads-next_uint64 uc.timelock t) (
    Reads-bind _
      (Reads-IsSlice unmarshal_key marshal_key 40 IsKey Reads-unmarshal_key (omega arith)
        uc.public_keys keys)
      (Reads-bind _ (Reads-next_uint64 uc.signatures_required n) (Reads-pure uc)))

Reads-unmarshal_input :
    (sci : SiacoinInput) → IsInput sci → Reads unmarshal_input (marshal_input sci) sci
unfolding unmarshal_input marshal_input
Reads-unmarshal_input sci (p, uc) =
    Reads-bind _ (Reads-fixed 32 sci.parent_id p)
      (Reads-bind _ (Reads-unmarshal_unlock_conditions sci.unlock_conditions uc) (Reads-pure sci))

Reads-unmarshal_file_contract :
    (fc : FileContract)
    → IsContract fc
    → Reads unmarshal_file_contract (marshal_file_contract fc) fc
unfolding unmarshal_file_contract marshal_file_contract
Reads-unmarshal_file_contract fc (size, root, start, end, payout, valid, missed, uh, revision) =
    Reads-bind _ (Reads-next_uint64 fc.file_size size) (
      Reads-bind _ (Reads-fixed 32 fc.file_merkle_root root) (
        Reads-bind _ (Reads-next_uint64 fc.window_start start) (
          Reads-bind _ (Reads-next_uint64 fc.window_end end) (
            Reads-bind _ (Reads-unmarshal_currency fc.payout payout) (
              Reads-bind _ (outputs_back fc.valid_proof_outputs valid) (
                Reads-bind _ (outputs_back fc.missed_proof_outputs missed) (
                  Reads-bind _ (Reads-fixed 32 fc.unlock_hash uh) (
                    Reads-bind _ (Reads-next_uint64 fc.revision_number revision)
                      (Reads-pure fc)))))))))

Reads-unmarshal_file_contract_revision :
    (fcr : FileContractRevision)
    → IsRevision fcr
    → Reads unmarshal_file_contract_revision (marshal_file_contract_revision fcr) fcr
unfolding unmarshal_file_contract_revision marshal_file_contract_revision
Reads-unmarshal_file_contract_revision fcr
      (p, uc, number, size, root, start, end, valid, missed, uh) =
    Reads-bind _ (Reads-fixed 32 fcr.parent_id p) (
      Reads-bind _ (Reads-unmarshal_unlock_conditions fcr.unlock_conditions uc) (
        Reads-bind _ (Reads-next_uint64 fcr.new_revision_number number) (
          Reads-bind _ (Reads-next_uint64 fcr.new_file_size size) (
            Reads-bind _ (Reads-fixed 32 fcr.new_file_merkle_root root) (
              Reads-bind _ (Reads-next_uint64 fcr.new_window_start start) (
                Reads-bind _ (Reads-next_uint64 fcr.new_window_end end) (
                  Reads-bind _ (outputs_back fcr.new_valid_proof_outputs valid) (
                    Reads-bind _ (outputs_back fcr.new_missed_proof_outputs missed) (
                      Reads-bind _ (Reads-fixed 32 fcr.new_unlock_hash uh) (Reads-pure fcr))))))))))

Reads-segment :
    (bytes : List ℕ) (k : ℕ) → length bytes ≡ k → Reads (read_full k) (write bytes) bytes
Reads-segment bytes k h =
    subst (λ n. Reads (read_full n) (write bytes) bytes) h (Reads-read_full bytes)

Reads-unmarshal_storage_proof :
    (sp : StorageProof) → IsProof sp → Reads unmarshal_storage_proof (marshal_storage_proof sp) sp
unfolding unmarshal_storage_proof marshal_storage_proof
Reads-unmarshal_storage_proof sp (p, segment, hashes) =
    Reads-bind _ (Reads-fixed 32 sp.parent_id p) (
      Reads-bind _ (Reads-segment sp.segment 64 segment) (
        Reads-bind _
          (Reads-IsSlice read_hash write_hash 32 IsHash (Reads-fixed 32) (omega arith) sp.hash_set
            hashes)
          (Reads-pure sp)))

numbers_back : (xs : List ℕ) → IsNumbers xs → Reads read_numbers (write_numbers xs) xs
numbers_back xs h =
    Reads-IsSlice next_uint64 write_uint64 8 IsUint64 Reads-next_uint64 (omega arith) xs h

-- The byte of a Boolean.
bool_byte : Bool → List ℕ
bool_byte true = (1 ∷ [])
bool_byte false = (0 ∷ [])

Reads-write_bool : (b : Bool) → Reads (read_full 1) (write_bool b) (bool_byte b)
unfolding bool_byte
Reads-write_bool true = Reads-segment (1 ∷ []) 1 (omega arith)
Reads-write_bool false = Reads-segment (0 ∷ []) 1 (omega arith)

first_is_one-bool_byte : (b : Bool) → first_is_one (bool_byte b) ≡ b
unfolding first_is_one bool_byte
first_is_one-bool_byte true = refl
first_is_one-bool_byte false = refl

Reads-unmarshal_covered_fields :
    (cf : CoveredFields)
    → IsCovered cf
    → Reads unmarshal_covered_fields (marshal_covered_fields cf) cf
unfolding unmarshal_covered_fields marshal_covered_fields
Reads-unmarshal_covered_fields cf
      (inputs, outputs, contracts, revisions, proofs, fees, arbitrary, signatures) =
    let byte = bool_byte cf.whole_transaction in
    Reads-bind _ (Reads-write_bool cf.whole_transaction) (
      Reads-bind _ (numbers_back cf.siacoin_inputs inputs) (
        Reads-bind _ (numbers_back cf.siacoin_outputs outputs) (
          Reads-bind _ (numbers_back cf.file_contracts contracts) (
            Reads-bind _ (numbers_back cf.file_contract_revisions revisions) (
              Reads-bind _ (numbers_back cf.storage_proofs proofs) (
                Reads-bind _ (numbers_back cf.miner_fees fees) (
                  Reads-bind _ (numbers_back cf.arbitrary_data arbitrary) (
                    Reads-bind _ (numbers_back cf.transaction_signatures signatures) (
                      subst
                        (λ (b : Bool).
                          Reads (pure (record cf { whole_transaction = first_is_one byte }))
                            (λ rest. rest) (record cf { whole_transaction = b }))
                        (first_is_one-bool_byte cf.whole_transaction)
                        (Reads-pure (record cf { whole_transaction = first_is_one byte })))))))))))

Reads-unmarshal_signature :
    (ts : TransactionSignature)
    → IsSignature ts
    → Reads unmarshal_signature (marshal_signature ts) ts
unfolding unmarshal_signature marshal_signature
Reads-unmarshal_signature ts (p, index, timelock, covered, signature) =
    Reads-bind _ (Reads-fixed 32 ts.parent_id p) (
      Reads-bind _ (Reads-next_uint64 ts.public_key_index index) (
        Reads-bind _ (Reads-next_uint64 ts.timelock timelock) (
          Reads-bind _ (Reads-unmarshal_covered_fields ts.covered_fields covered)
            (Reads-bind _ (Reads-prefixed ts.signature signature) (Reads-pure ts)))))

Reads-unmarshal_sia : (t : Transaction) → IsTransaction t → Reads unmarshal_sia (marshal_sia t) t
unfolding unmarshal_sia marshal_sia marshal_sia_no_signatures
Reads-unmarshal_sia t (inputs, outputs, contracts, revisions, proofs, fees, arbitrary, signatures) =
    Reads-bind _
      (Reads-IsSlice unmarshal_input marshal_input 72 IsInput Reads-unmarshal_input (omega arith)
        t.siacoin_inputs inputs)
      (Reads-bind _ (outputs_back t.siacoin_outputs outputs) (
        Reads-bind _
          (Reads-IsSlice unmarshal_file_contract marshal_file_contract 176 IsContract
            Reads-unmarshal_file_contract (omega arith) t.file_contracts contracts)
          (Reads-bind _
            (Reads-IsSlice unmarshal_file_contract_revision marshal_file_contract_revision 216
              IsRevision Reads-unmarshal_file_contract_revision (omega arith)
              t.file_contract_revisions revisions)
            (Reads-bind _
              (Reads-IsSlice unmarshal_storage_proof marshal_storage_proof 120 IsProof
                Reads-unmarshal_storage_proof (omega arith) t.storage_proofs proofs)
              (Reads-bind _
                (Reads-IsSlice unmarshal_currency marshal_currency 32 IsCurrency
                  Reads-unmarshal_currency (omega arith) t.miner_fees fees)
                (Reads-bind _
                  (Reads-IsSlice read_prefixed_bytes write_prefixed_bytes 24 IsBytes Reads-prefixed
                    (omega arith) t.arbitrary_data arbitrary)
                  (Reads-bind _
                    (Reads-IsSlice unmarshal_signature marshal_signature 272 IsSignature
                      Reads-unmarshal_signature (omega arith) t.transaction_signatures signatures)
                    (Reads-pure t))))))))

pub Reads-unmarshal_block : (b : Block) → IsBlock b → Reads unmarshal_block (marshal_block b) b
unfolding unmarshal_block marshal_block
Reads-unmarshal_block b (p, nonce, timestamp, payouts, transactions) =
    Reads-bind _ (Reads-fixed 32 b.parent_id p) (
      Reads-bind _ (Reads-fixed 8 b.nonce nonce) (
        Reads-bind _ (Reads-next_uint64 b.timestamp timestamp) (
          Reads-bind _ (outputs_back b.miner_payouts payouts) (
            Reads-bind _
              (Reads-IsSlice unmarshal_sia marshal_sia 192 IsTransaction Reads-unmarshal_sia
                (omega arith) b.transactions transactions)
              (Reads-pure b)))))

-- A transaction that is read first of what a decoder still has to read, with n bytes of the object
-- behind it: an encodable transaction comes back, and the decoder goes on right behind it.
pub unmarshal_sia-marshal_sia :
    (t : Transaction) (n : ℕ) (rest : List ℕ) (buffered : Bool)
    → IsTransaction t
    → n + length (marshal_sia t rest) ≤ max_object_size
    → (n' : ℕ) × (n' + length rest ≡ n + length (marshal_sia t rest))
      × (unmarshal_sia (record { input = marshal_sia t rest; n = n; buffered = buffered })
          ≡ ok (t, record { input = rest; n = n'; buffered = buffered }))
unmarshal_sia-marshal_sia t n rest buffered h size =
    (Reads-unmarshal_sia t h).read_back n rest buffered size

-- A decoder on the encoding of an encodable block that fits the object limit reads that block, and
-- all of the encoding.
pub unmarshal_block-marshal_block :
    (b : Block) (buffered : Bool)
    → IsBlock b
    → length (marshal_block b []) ≤ max_object_size
    → unmarshal_block (record { input = marshal_block b []; n = 0; buffered = buffered })
      ≡ ok (b, record { input = []; n = length (marshal_block b []); buffered = buffered })
unmarshal_block-marshal_block b buffered h size =
    let (n, e, r) = (Reads-unmarshal_block b h).read_back 0 [] buffered (omega (arith, size)) in
    r
    ∙ ap (λ (k : ℕ). ok (b, record { input = []; n = k; buffered = buffered })) {x = n}
        {y = length (marshal_block b [])} (omega (arith, e))
