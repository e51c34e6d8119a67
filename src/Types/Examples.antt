-- ===== src/Types/Examples.antt =====
-- Runs of the functions of package types on concrete inputs.
use hyperspace.Common.{◌^◌}
use hyperspace.Types.Words.{bits, zeros, zeros_in_word}
use hyperspace.Types.Size.{currency_size}
use hyperspace.Common.{ℕ, ◌+◌, ◌≤◌, ◌<◌, ◌≡◌, ◌↔◌, refl, [], ◌∷◌, true, false, ok, arith, sum, All}
use hyperspace.Types.Currency.{Currency, equals, equals_iff}
use hyperspace.Types.Transaction.{
  UnlockConditions, SiacoinInput, FileContractRevision, CoveredFields, TransactionSignature,
  Transaction, Block,
}
use hyperspace.Types.Crypto.{Crypto, copy_into}
use hyperspace.Types.Signatures.{
  signature_ed25519, climb, below_max, sorted_unique, field_maxs, all_field_maxs, all_empty,
  check_sorted, check_covered, valid_covered_fields, find_sigs, update_sigs, add_sigs, add_all,
  add_inputs, add_revisions, check_signed, verify, use_signature, use_signatures, valid_signatures,
}
use hyperspace.Types.Signatures.Fields.{
  IsIncreasing, Covers, sorted_unique_iff, valid_covered_fields_sound,
}
use hyperspace.Types.Signatures.Counts.{IsSigned, valid_signatures_sound}
use hyperspace.Types.Standalone.{standalone_valid}
use hyperspace.Types.Standalone.Exact.{IsStandaloneValid, standalone_valid_iff}
use hyperspace.Types.Constants.{standard}
use hyperspace.Types.Subsidy.{calculate_num_siacoins, initial_siacoins}
use hyperspace.Types.Subsidy.Supply.{minted, num_siacoins-minted}

abbrev price : Currency
price = 4

equals_iff_example :
    (equals price price ≡ true → price ≡ price) × (price ≡ price → equals price price ≡ true)
equals_iff_example = equals_iff price price

sorted_unique_iff_example :
    (sorted_unique (0 ∷ 2 ∷ []) 3 ≡ true)
    ↔ (IsIncreasing (0 ∷ 2 ∷ []) × All (λ e. e < 3) (0 ∷ 2 ∷ []))
sorted_unique_iff_example = sorted_unique_iff (0 ∷ 2 ∷ []) 3

-- Ids are told apart by their kind and index, and every signature verifies.
abbrev pub toy_crypto : Crypto
toy_crypto = record {
  sig_hash = λ t i. 7;
  verify_hash = λ hash key signature. true;
  unlock_hash = λ uc. uc.signatures_required;
  siacoin_output_id = λ t i. 100 + i;
  file_contract_id = λ t i. 200 + i;
  storage_proof_output_id = λ id passed i. 300 + i;
  block_id = λ b. b.nonce;
  miner_payout_id = λ b i. 400 + i;
  change_entry_id = λ reverted applied. 500 + sum applied;
  hash_all = λ a b. a + b;
  verify_segment = λ base hashes leaves i root. true;
}

abbrev pub two_of_two : UnlockConditions
two_of_two = record {
  timelock = 3;
  public_keys =
      record { algorithm = signature_ed25519; key = 1 ∷ [] }
      ∷ record { algorithm = 1; key = 2 ∷ [] }
      ∷ [];
  signatures_required = 2;
}

abbrev pub whole : CoveredFields
whole = record {
  whole_transaction = true;
  siacoin_inputs = [];
  siacoin_outputs = [];
  file_contracts = [];
  file_contract_revisions = [];
  storage_proofs = [];
  miner_fees = [];
  arbitrary_data = [];
  transaction_signatures = [];
}

abbrev signed_by : ℕ → CoveredFields → TransactionSignature
signed_by key fields = record {
  parent_id = 50;
  public_key_index = key;
  timelock = 4;
  covered_fields = fields;
  signature = 7 ∷ [];
}

-- An output of 10 coins is spent by two signatures.
abbrev pub payment : Transaction
payment = record {
  siacoin_inputs = record { parent_id = 50; unlock_conditions = two_of_two } ∷ [];
  siacoin_outputs = record { value = 9; unlock_hash = 6 } ∷ [];
  file_contracts = [];
  file_contract_revisions = [];
  storage_proofs = [];
  miner_fees = 1 ∷ [];
  arbitrary_data = [];
  transaction_signatures =
      signed_by 0 whole
      ∷ signed_by 1
          (record whole { whole_transaction = false; siacoin_inputs = 0 ∷ []; miner_fees = 0 ∷ [] })
      ∷ [];
}

payment-covers : valid_covered_fields payment ≡ ok tt
unfolding valid_covered_fields check_covered check_sorted sorted_unique climb below_max field_maxs
    all_field_maxs all_empty
payment-covers = refl

payment-signatures : valid_signatures toy_crypto payment 5 ≡ ok tt
unfolding valid_covered_fields check_covered check_sorted sorted_unique climb below_max field_maxs
    all_field_maxs all_empty valid_signatures add_inputs add_revisions add_all add_sigs find_sigs
    use_signatures use_signature verify update_sigs check_signed copy_into
payment-signatures = refl

valid_covered_fields_sound_example :
    All
      (λ (sig : TransactionSignature). Covers payment sig.covered_fields)
      payment.transaction_signatures
valid_covered_fields_sound_example = valid_covered_fields_sound payment payment-covers

valid_signatures_sound_example :
    All
      (λ (x : SiacoinInput). IsSigned toy_crypto payment x.parent_id x.unlock_conditions)
      payment.siacoin_inputs
    × All
        (λ (x : FileContractRevision). IsSigned toy_crypto payment x.parent_id x.unlock_conditions)
        payment.file_contract_revisions
    × All (λ (sig : TransactionSignature). sig.timelock ≤ 5) payment.transaction_signatures
valid_signatures_sound_example = valid_signatures_sound toy_crypto payment 5 payment-signatures

standalone_valid_iff_example :
    (standalone_valid toy_crypto payment 5 ≡ ok tt) ↔ IsStandaloneValid toy_crypto payment 5
standalone_valid_iff_example = standalone_valid_iff toy_crypto payment 5

num_siacoins-minted_example : calculate_num_siacoins standard 12 ≡ initial_siacoins + minted 12
num_siacoins-minted_example = num_siacoins-minted 12 (omega arith)

abbrev payment_block : Block
payment_block = record {
  parent_id = 8;
  nonce = 9;
  timestamp = 1600000000;
  miner_payouts = [];
  transactions = payment ∷ payment ∷ [];
}

-- Two words: 2 ^ 64 has nine bytes.
currency_size_run : currency_size (2 ^ 64) ≡ 17
unfolding currency_size bits zeros zeros_in_word
currency_size_run = refl
