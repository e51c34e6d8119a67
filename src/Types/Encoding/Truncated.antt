-- ===== src/Types/Encoding/Truncated.antt =====
-- An encoding that is cut off is refused (types/encoding.go).
use hyperspace.Common.{ℕ, ◌≤◌, ◌≡◌, List, [], ◌++◌, length, Bool, err, arith}
use hyperspace.Encoding.{Error, max_object_size}
use hyperspace.Encoding.Extends.{
  Extends, Extends-pure, Extends-bind, Extends-read_full, Extends-next_uint64, Extends-prefixed,
  Extends-fixed, Extends-slice, Extends-truncated,
}
use hyperspace.Types.Transaction.{Block}
use hyperspace.Types.Encoding.{
  unmarshal_currency, unmarshal_output, unmarshal_key, unmarshal_unlock_conditions, unmarshal_input,
  unmarshal_file_contract, unmarshal_file_contract_revision, unmarshal_storage_proof,
  unmarshal_covered_fields, unmarshal_signature, unmarshal_sia, marshal_block, unmarshal_block,
}
use hyperspace.Types.Encoding.Encodable.{IsBlock}
use hyperspace.Types.Encoding.RoundTrip.{Reads-unmarshal_block}

ruleset read_to_end = (
  Extends-pure, Extends-bind, Extends-read_full, Extends-next_uint64, Extends-prefixed,
  Extends-fixed, Extends-slice,
)

Extends-unmarshal_currency : Extends unmarshal_currency
unfolding unmarshal_currency
Extends-unmarshal_currency = search read_to_end depth 16

Extends-unmarshal_output : Extends unmarshal_output
unfolding unmarshal_output
Extends-unmarshal_output = search (read_to_end, Extends-unmarshal_currency) depth 16

Extends-unmarshal_key : Extends unmarshal_key
unfolding unmarshal_key
Extends-unmarshal_key = search read_to_end depth 16

Extends-unmarshal_unlock_conditions : Extends unmarshal_unlock_conditions
unfolding unmarshal_unlock_conditions
Extends-unmarshal_unlock_conditions = search (read_to_end, Extends-unmarshal_key) depth 16

Extends-unmarshal_input : Extends unmarshal_input
unfolding unmarshal_input
Extends-unmarshal_input = search (read_to_end, Extends-unmarshal_unlock_conditions) depth 16

Extends-unmarshal_file_contract : Extends unmarshal_file_contract
unfolding unmarshal_file_contract
Extends-unmarshal_file_contract =
    search (read_to_end, Extends-unmarshal_currency, Extends-unmarshal_output) depth 16

Extends-unmarshal_file_contract_revision : Extends unmarshal_file_contract_revision
unfolding unmarshal_file_contract_revision
Extends-unmarshal_file_contract_revision =
    search (read_to_end, Extends-unmarshal_output, Extends-unmarshal_unlock_conditions) depth 16

Extends-unmarshal_storage_proof : Extends unmarshal_storage_proof
unfolding unmarshal_storage_proof
Extends-unmarshal_storage_proof = search read_to_end depth 16

Extends-unmarshal_covered_fields : Extends unmarshal_covered_fields
unfolding unmarshal_covered_fields
Extends-unmarshal_covered_fields = search read_to_end depth 16

Extends-unmarshal_signature : Extends unmarshal_signature
unfolding unmarshal_signature
Extends-unmarshal_signature = search (read_to_end, Extends-unmarshal_covered_fields) depth 16

Extends-unmarshal_sia : Extends unmarshal_sia
unfolding unmarshal_sia
Extends-unmarshal_sia =
    search
      (
        read_to_end, Extends-unmarshal_input, Extends-unmarshal_output,
        Extends-unmarshal_file_contract, Extends-unmarshal_file_contract_revision,
        Extends-unmarshal_storage_proof, Extends-unmarshal_currency, Extends-unmarshal_signature,
      )
      depth 16

Extends-unmarshal_block : Extends unmarshal_block
unfolding unmarshal_block
Extends-unmarshal_block =
    search (read_to_end, Extends-unmarshal_output, Extends-unmarshal_sia) depth 16

-- Where the encoding of an encodable block fits the object limit, a decoder whose input ends before
-- the last byte of it returns an error, from a buffer as from any other reader.
pub unmarshal_block-truncated :
    (b : Block) (first more : List ℕ) (buffered : Bool)
    → IsBlock b
    → length (marshal_block b []) ≤ max_object_size
    → marshal_block b [] ≡ first ++ more
    → 1 ≤ length more
    → (e : Error) × (unmarshal_block (record { input = first; n = 0; buffered = buffered }) ≡ err e)
unmarshal_block-truncated b first more buffered h size cut some_more =
    Extends-truncated first more 0 buffered Extends-unmarshal_block (Reads-unmarshal_block b h)
      (omega (arith, size)) cut some_more
