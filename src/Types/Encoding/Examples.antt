-- ===== src/Types/Encoding/Examples.antt =====
-- An encoded block, and its way back.
use hyperspace.Common.{ℕ, ◌+◌, ◌≡◌, refl, List, [], ◌∷◌, length, true, false, ok, err, arith}
use hyperspace.Encoding.{
  write_uint64, write_fixed, write_prefixed_bytes, write_slice, write_each, enc_uint64, le_bytes,
  be_bytes, unexpected_eof, Error, read_full, split, next_uint64, next_prefix, check_prefix,
  read_prefixed_bytes, take_bytes, dec_uint64, from_le, eof,
}
use hyperspace.Types.Transaction.{
  SiacoinOutput, CoveredFields, TransactionSignature, Transaction, Block,
}
use hyperspace.Types.Words.{bits, seek, write_down, shifted}
use hyperspace.Types.Size.{marshal_sia_size}
use hyperspace.Types.Size.Marshalled.{length-marshal_sia}
use hyperspace.Types.Encoding.{
  marshal_currency, marshal_output, marshal_covered_fields, marshal_signature,
  marshal_sia_no_signatures, marshal_sia, marshal_block, unmarshal_block, unmarshal_sia,
  unmarshal_currency,
}
use hyperspace.Types.Encoding.Truncated.{unmarshal_block-truncated}
use hyperspace.Types.Encoding.RoundTrip.{unmarshal_sia-marshal_sia, unmarshal_block-marshal_block}

abbrev sixteen : List ℕ
sixteen = 1 ∷ 2 ∷ 3 ∷ 4 ∷ 5 ∷ 6 ∷ 7 ∷ 8 ∷ 9 ∷ 10 ∷ 11 ∷ 12 ∷ 13 ∷ 14 ∷ 15 ∷ 16 ∷ []

abbrev payment : SiacoinOutput
payment = record { value = 300; unlock_hash = 9 }

abbrev no_fields : CoveredFields
no_fields = record {
  whole_transaction = true;
  siacoin_inputs = [];
  siacoin_outputs = [];
  file_contracts = [];
  file_contract_revisions = [];
  storage_proofs = [];
  miner_fees = [];
  arbitrary_data = [];
  transaction_signatures = 1 ∷ [];
}

abbrev signed : TransactionSignature
signed = record {
  parent_id = 5;
  public_key_index = 0;
  timelock = 10;
  covered_fields = no_fields;
  signature = 8 ∷ [];
}

abbrev pay : Transaction
pay = record {
  siacoin_inputs = [];
  siacoin_outputs = payment ∷ [];
  file_contracts = [];
  file_contract_revisions = [];
  storage_proofs = [];
  miner_fees = 2 ∷ [];
  arbitrary_data = (7 ∷ []) ∷ [];
  transaction_signatures = signed ∷ [];
}

abbrev mined : Block
mined = record {
  parent_id = 5;
  nonce = 1;
  timestamp = 1000;
  miner_payouts = payment ∷ [];
  transactions = pay ∷ [];
}

marshal_output_run :
    marshal_output payment [] ≡ 2 ∷ 0 ∷ 0 ∷ 0 ∷ 0 ∷ 0 ∷ 0 ∷ 0 ∷ 1 ∷ 44 ∷ be_bytes 32 9 []
unfolding marshal_output marshal_currency bits seek write_down shifted be_bytes write_uint64
    enc_uint64 le_bytes write_fixed
marshal_output_run = refl

length-marshal_sia_example : length (marshal_sia pay []) ≡ marshal_sia_size pay + 0
length-marshal_sia_example = length-marshal_sia pay [] tt

unmarshal_block-marshal_block_example :
    unmarshal_block (record { input = marshal_block mined []; n = 0; buffered = true })
    ≡ ok (mined, record { input = []; n = length (marshal_block mined []); buffered = true })
unfolding marshal_block marshal_sia marshal_sia_no_signatures marshal_output marshal_currency bits
    seek write_down shifted be_bytes write_uint64 enc_uint64 le_bytes write_fixed write_slice
    write_each write_prefixed_bytes marshal_signature marshal_covered_fields
unmarshal_block-marshal_block_example =
    unmarshal_block-marshal_block mined true (ground arith) (omega arith)

unmarshal_sia-marshal_sia_example :
    (n' : ℕ) × (n' + 1 ≡ 100 + length (marshal_sia pay (77 ∷ [])))
    × (unmarshal_sia (record { input = marshal_sia pay (77 ∷ []); n = 100; buffered = false })
        ≡ ok (pay, record { input = 77 ∷ []; n = n'; buffered = false }))
unfolding marshal_sia marshal_sia_no_signatures marshal_output marshal_currency bits seek write_down
    shifted be_bytes write_uint64 enc_uint64 le_bytes write_fixed write_slice write_each
    write_prefixed_bytes marshal_signature marshal_covered_fields
unmarshal_sia-marshal_sia_example =
    unmarshal_sia-marshal_sia pay 100 (77 ∷ []) false (ground arith) (omega arith)

-- The block's encoding, cut off behind the nonce.
unmarshal_block-truncated_example :
    (e : Error) × (unmarshal_block
        (record { input = write_fixed 32 5 (write_fixed 8 1 []); n = 0; buffered = false })
      ≡ err e)
unfolding marshal_block marshal_sia marshal_sia_no_signatures marshal_output marshal_currency bits
    seek write_down shifted be_bytes write_uint64 enc_uint64 le_bytes write_fixed write_slice
    write_each write_prefixed_bytes marshal_signature marshal_covered_fields
unmarshal_block-truncated_example =
    unmarshal_block-truncated mined (write_fixed 32 5 (write_fixed 8 1 []))
      (write_uint64 1000
        (write_slice marshal_output (payment ∷ []) (write_slice marshal_sia (pay ∷ []) [])))
      false (ground arith) (omega arith) refl (omega arith)

-- A buffer that ends within the bytes of a Currency, and a reader that does.
cut_off_buffer :
    unmarshal_currency
      (record { input = 2 ∷ 0 ∷ 0 ∷ 0 ∷ 0 ∷ 0 ∷ 0 ∷ 0 ∷ 1 ∷ []; n = 0; buffered = true })
    ≡ err unexpected_eof
unfolding unmarshal_currency read_prefixed_bytes next_prefix next_uint64 check_prefix take_bytes
    read_full split dec_uint64 from_le
cut_off_buffer = refl

cut_off_prefix :
    unmarshal_currency
      (record { input = 2 ∷ 0 ∷ 0 ∷ 0 ∷ 0 ∷ 0 ∷ 0 ∷ 0 ∷ []; n = 0; buffered = false })
    ≡ err eof
unfolding unmarshal_currency read_prefixed_bytes next_prefix next_uint64 check_prefix take_bytes
    read_full split dec_uint64 from_le
cut_off_prefix = refl
