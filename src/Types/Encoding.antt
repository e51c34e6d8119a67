-- ===== src/Types/Encoding.antt =====
-- The MarshalSia and UnmarshalSia methods of types/encoding.go, over the Encoder and the Decoder of
-- encoding/marshal.go. A marshal function writes in front of what is written after it. The methods'
-- checks against the reflective encoding, which run in debug builds only, are not modelled. The sizes
-- at the slices are unsafe.Sizeof on a 64-bit machine.
pub mod Encodable
pub mod RoundTrip
pub mod Truncated
pub mod Examples
use hyperspace.Common.{ℕ, List, [], ◌∷◌, ◌++◌, Bool, false, ◌==◌, Option}
use hyperspace.Encoding.{
  Put, write, write_bool, write_uint64, write_prefixed_bytes, write_fixed, write_slice, Decode,
  pure, ◌>>=◌, be_bytes, from_be, read_full, next_uint64, read_prefixed_bytes, read_fixed,
  read_slice,
}
use hyperspace.Types.Currency.{Currency}
use hyperspace.Types.Words.{bits, write_down, byte_count}
use hyperspace.Types.Transaction.{
  SiaPublicKey, UnlockConditions, SiacoinInput, SiacoinOutput, FileContract, FileContractRevision,
  StorageProof, CoveredFields, TransactionSignature, Transaction, Block,
}

-- A hash, an id, an unlock hash.
abbrev pub write_hash : ℕ → Put
write_hash h = write_fixed 32 h

abbrev pub read_hash : Decode ℕ
read_hash = read_fixed 32

-- The bytes from the first that is not zero on.
unfoldable pub marshal_currency : Currency → Put
marshal_currency c rest =
    let count = byte_count c in write_uint64 count (write_down (bits c c) count rest)

unfoldable pub unmarshal_currency : Decode Currency
unmarshal_currency = do bytes ← read_prefixed_bytes; pure (from_be 0 bytes)

unfoldable pub marshal_output : SiacoinOutput → Put
unfolding marshal_currency
marshal_output sco rest = marshal_currency sco.value (write_hash sco.unlock_hash rest)

unfoldable pub unmarshal_output : Decode SiacoinOutput
unmarshal_output = do
  value ← unmarshal_currency
  unlock_hash ← read_hash
  pure (record { value = value; unlock_hash = unlock_hash })

unfoldable pub marshal_key : SiaPublicKey → Put
marshal_key spk rest = write_fixed 16 spk.algorithm (write_prefixed_bytes spk.key rest)

unfoldable pub unmarshal_key : Decode SiaPublicKey
unmarshal_key = do
  algorithm ← read_fixed 16
  key ← read_prefixed_bytes
  pure (record { algorithm = algorithm; key = key })

unfoldable pub marshal_unlock_conditions : UnlockConditions → Put
unfolding marshal_key
marshal_unlock_conditions uc rest =
    write_uint64 uc.timelock
      (write_slice marshal_key uc.public_keys (write_uint64 uc.signatures_required rest))

unfoldable pub unmarshal_unlock_conditions : Decode UnlockConditions
unmarshal_unlock_conditions = do
  timelock ← next_uint64
  public_keys ← read_slice 40 unmarshal_key
  signatures_required ← next_uint64
  pure (record {
    timelock = timelock;
    public_keys = public_keys;
    signatures_required = signatures_required;
  })

unfoldable pub marshal_input : SiacoinInput → Put
marshal_input sci rest =
    write_hash sci.parent_id (marshal_unlock_conditions sci.unlock_conditions rest)

unfoldable pub unmarshal_input : Decode SiacoinInput
unmarshal_input = do
  parent_id ← read_hash
  unlock_conditions ← unmarshal_unlock_conditions
  pure (record { parent_id = parent_id; unlock_conditions = unlock_conditions })

unfoldable pub marshal_file_contract : FileContract → Put
marshal_file_contract fc rest = write_uint64 fc.file_size (
    write_hash fc.file_merkle_root (
      write_uint64 fc.window_start (
        write_uint64 fc.window_end (
          marshal_currency fc.payout (
            write_slice marshal_output fc.valid_proof_outputs (
              write_slice marshal_output fc.missed_proof_outputs
                (write_hash fc.unlock_hash (write_uint64 fc.revision_number rest))))))))

unfoldable pub unmarshal_file_contract : Decode FileContract
unmarshal_file_contract = do
  file_size ← next_uint64
  file_merkle_root ← read_hash
  window_start ← next_uint64
  window_end ← next_uint64
  payout ← unmarshal_currency
  valid_proof_outputs ← read_slice 64 unmarshal_output
  missed_proof_outputs ← read_slice 64 unmarshal_output
  unlock_hash ← read_hash
  revision_number ← next_uint64
  pure (record {
    file_size = file_size;
    file_merkle_root = file_merkle_root;
    window_start = window_start;
    window_end = window_end;
    payout = payout;
    valid_proof_outputs = valid_proof_outputs;
    missed_proof_outputs = missed_proof_outputs;
    unlock_hash = unlock_hash;
    revision_number = revision_number;
  })

unfoldable pub marshal_file_contract_revision : FileContractRevision → Put
marshal_file_contract_revision fcr rest = write_hash fcr.parent_id (
    marshal_unlock_conditions fcr.unlock_conditions (
      write_uint64 fcr.new_revision_number (
        write_uint64 fcr.new_file_size (
          write_hash fcr.new_file_merkle_root (
            write_uint64 fcr.new_window_start (
              write_uint64 fcr.new_window_end (
                write_slice marshal_output fcr.new_valid_proof_outputs (
                  write_slice marshal_output fcr.new_missed_proof_outputs
                    (write_hash fcr.new_unlock_hash rest)))))))))

unfoldable pub unmarshal_file_contract_revision : Decode FileContractRevision
unmarshal_file_contract_revision = do
  parent_id ← read_hash
  unlock_conditions ← unmarshal_unlock_conditions
  new_revision_number ← next_uint64
  new_file_size ← next_uint64
  new_file_merkle_root ← read_hash
  new_window_start ← next_uint64
  new_window_end ← next_uint64
  new_valid_proof_outputs ← read_slice 64 unmarshal_output
  new_missed_proof_outputs ← read_slice 64 unmarshal_output
  new_unlock_hash ← read_hash
  pure (record {
    parent_id = parent_id;
    unlock_conditions = unlock_conditions;
    new_revision_number = new_revision_number;
    new_file_size = new_file_size;
    new_file_merkle_root = new_file_merkle_root;
    new_window_start = new_window_start;
    new_window_end = new_window_end;
    new_valid_proof_outputs = new_valid_proof_outputs;
    new_missed_proof_outputs = new_missed_proof_outputs;
    new_unlock_hash = new_unlock_hash;
  })

unfoldable pub marshal_storage_proof : StorageProof → Put
marshal_storage_proof sp rest =
    write_hash sp.parent_id (write sp.segment (write_slice write_hash sp.hash_set rest))

unfoldable pub unmarshal_storage_proof : Decode StorageProof
unmarshal_storage_proof = do
  parent_id ← read_hash
  segment ← read_full 64
  hash_set ← read_slice 32 read_hash
  pure (record { parent_id = parent_id; segment = segment; hash_set = hash_set })

-- `buf[0] == 1`
unfoldable pub first_is_one : List ℕ → Bool
first_is_one [] = false
first_is_one (b ∷ buf) = b == 1

abbrev pub write_numbers : List ℕ → Put
write_numbers = write_slice write_uint64

abbrev pub read_numbers : Decode (List ℕ)
read_numbers = read_slice 8 next_uint64

unfoldable pub marshal_covered_fields : CoveredFields → Put
marshal_covered_fields cf rest = write_bool cf.whole_transaction (
    write_numbers cf.siacoin_inputs (
      write_numbers cf.siacoin_outputs (
        write_numbers cf.file_contracts (
          write_numbers cf.file_contract_revisions (
            write_numbers cf.storage_proofs (
              write_numbers cf.miner_fees (
                write_numbers cf.arbitrary_data
                  (write_numbers cf.transaction_signatures rest))))))))

unfoldable pub unmarshal_covered_fields : Decode CoveredFields
unfolding first_is_one
unmarshal_covered_fields = do
  buf ← read_full 1
  siacoin_inputs ← read_numbers
  siacoin_outputs ← read_numbers
  file_contracts ← read_numbers
  file_contract_revisions ← read_numbers
  storage_proofs ← read_numbers
  miner_fees ← read_numbers
  arbitrary_data ← read_numbers
  transaction_signatures ← read_numbers
  pure (record {
    whole_transaction = first_is_one buf;
    siacoin_inputs = siacoin_inputs;
    siacoin_outputs = siacoin_outputs;
    file_contracts = file_contracts;
    file_contract_revisions = file_contract_revisions;
    storage_proofs = storage_proofs;
    miner_fees = miner_fees;
    arbitrary_data = arbitrary_data;
    transaction_signatures = transaction_signatures;
  })

unfoldable pub marshal_signature : TransactionSignature → Put
marshal_signature ts rest = write_hash ts.parent_id (
    write_uint64 ts.public_key_index (
      write_uint64 ts.timelock
        (marshal_covered_fields ts.covered_fields (write_prefixed_bytes ts.signature rest))))

unfoldable pub unmarshal_signature : Decode TransactionSignature
unmarshal_signature = do
  parent_id ← read_hash
  public_key_index ← next_uint64
  timelock ← next_uint64
  covered_fields ← unmarshal_covered_fields
  signature ← read_prefixed_bytes
  pure (record {
    parent_id = parent_id;
    public_key_index = public_key_index;
    timelock = timelock;
    covered_fields = covered_fields;
    signature = signature;
  })

unfoldable pub marshal_sia_no_signatures : Transaction → Put
marshal_sia_no_signatures t rest = write_slice marshal_input t.siacoin_inputs (
    write_slice marshal_output t.siacoin_outputs (
      write_slice marshal_file_contract t.file_contracts (
        write_slice marshal_file_contract_revision t.file_contract_revisions (
          write_slice marshal_storage_proof t.storage_proofs (
            write_slice marshal_currency t.miner_fees
              (write_slice write_prefixed_bytes t.arbitrary_data rest))))))

unfoldable pub marshal_sia : Transaction → Put
unfolding marshal_sia_no_signatures
marshal_sia t rest =
    marshal_sia_no_signatures t (write_slice marshal_signature t.transaction_signatures rest)

unfoldable pub unmarshal_sia : Decode Transaction
unmarshal_sia = do
  siacoin_inputs ← read_slice 72 unmarshal_input
  siacoin_outputs ← read_slice 64 unmarshal_output
  file_contracts ← read_slice 176 unmarshal_file_contract
  file_contract_revisions ← read_slice 216 unmarshal_file_contract_revision
  storage_proofs ← read_slice 120 unmarshal_storage_proof
  miner_fees ← read_slice 32 unmarshal_currency
  arbitrary_data ← read_slice 24 read_prefixed_bytes
  transaction_signatures ← read_slice 272 unmarshal_signature
  pure (record {
    siacoin_inputs = siacoin_inputs;
    siacoin_outputs = siacoin_outputs;
    file_contracts = file_contracts;
    file_contract_revisions = file_contract_revisions;
    storage_proofs = storage_proofs;
    miner_fees = miner_fees;
    arbitrary_data = arbitrary_data;
    transaction_signatures = transaction_signatures;
  })

unfoldable pub marshal_block : Block → Put
marshal_block b rest = write_hash b.parent_id (
    write_fixed 8 b.nonce (
      write_uint64 b.timestamp
        (write_slice marshal_output b.miner_payouts (write_slice marshal_sia b.transactions rest))))

unfoldable pub unmarshal_block : Decode Block
unmarshal_block = do
  parent_id ← read_hash
  nonce ← read_fixed 8
  timestamp ← next_uint64
  miner_payouts ← read_slice 64 unmarshal_output
  transactions ← read_slice 192 unmarshal_sia
  pure (record {
    parent_id = parent_id;
    nonce = nonce;
    timestamp = timestamp;
    miner_payouts = miner_payouts;
    transactions = transactions;
  })
