-- ===== src/Types/Signatures.antt =====
-- The signature checks of types/signatures.go. The map from ids to *inputSignatures is an association
-- list, in the order of insertion; a write through one of its pointers replaces the entry.
pub mod Fields
pub mod Map
pub mod Counts
use hyperspace.Common.{
  ℕ, suc, ◌-◌, ◌*◌, ◌^◌, List, [], ◌∷◌, ◌++◌, Option, none, some, Bool, true, false, not, leb, ◌==◌,
  if◌then◌else◌, length, get_elem?, contains, is_some, guard, or_err, ◌>>=◌, ◌>>◌, ok, err,
  for_each,
}
use hyperspace.Common.Result.{Result}
use hyperspace.Types.Errors.{
  Error, Check, double_spend, entropy_key, frivolous_signature, invalid_pub_key_index,
  missing_signatures, premature_signature, public_key_overuse, sorted_unique_violation,
  whole_transaction_violation, invalid_signature,
}
use hyperspace.Types.Crypto.{Crypto, copy_into}
use hyperspace.Types.Transaction.{
  SiaPublicKey, UnlockConditions, SiacoinInput, FileContractRevision, CoveredFields,
  TransactionSignature, Transaction,
}

-- The Specifiers, as numbers of 16 bytes.
abbrev pub signature_entropy : ℕ
signature_entropy = 0x656e74726f7079 * 2 ^ 72

abbrev pub signature_ed25519 : ℕ
signature_ed25519 = 0x65643235353139 * 2 ^ 72

-- The loop of sortedUnique: the last item, or `none` where an item is not above the one before it.
unfoldable pub climb : ℕ → List ℕ → Option ℕ
climb biggest [] = some biggest
climb biggest (e ∷ elems) = if leb e biggest then none else climb e elems

unfoldable pub below_max : Option ℕ → ℕ → Bool
below_max none max = false
below_max (some biggest) max = not (leb max biggest)

unfoldable pub sorted_unique : List ℕ → ℕ → Bool
unfolding climb below_max
sorted_unique [] max = true
sorted_unique (e ∷ elems) max = below_max (climb e elems) max

-- The fields and their bounds, in the order of the source; the last is set apart.
unfoldable pub field_maxs : Transaction → CoveredFields → List (List ℕ × ℕ)
field_maxs t cf =
    (cf.siacoin_inputs, length t.siacoin_inputs)
    ∷ (cf.siacoin_outputs, length t.siacoin_outputs)
    ∷ (cf.file_contracts, length t.file_contracts)
    ∷ (cf.file_contract_revisions, length t.file_contract_revisions)
    ∷ (cf.storage_proofs, length t.storage_proofs)
    ∷ (cf.miner_fees, length t.miner_fees)
    ∷ (cf.arbitrary_data, length t.arbitrary_data)
    ∷ []

unfoldable pub all_field_maxs : Transaction → CoveredFields → List (List ℕ × ℕ)
unfolding field_maxs
all_field_maxs t cf =
    field_maxs t cf ++ ((cf.transaction_signatures, length t.transaction_signatures) ∷ [])

abbrev pub is_empty {ℓ} : {A : Type ℓ} → List A → Bool
is_empty [] = true
is_empty (x ∷ xs) = false

unfoldable pub all_empty : List (List ℕ × ℕ) → Bool
all_empty [] = true
all_empty ((field, max) ∷ rest) = if is_empty field then all_empty rest else false

unfoldable pub check_sorted : List ℕ × ℕ → Check
check_sorted (field, max) = guard (sorted_unique field max) sorted_unique_violation

unfoldable pub check_covered : Transaction → TransactionSignature → Check
unfolding field_maxs all_field_maxs all_empty check_sorted
check_covered t sig =
    let cf = sig.covered_fields in
    let first = field_maxs t cf in
    let fields = all_field_maxs t cf in
    guard (if cf.whole_transaction then all_empty first else not (all_empty fields))
      whole_transaction_violation
    >> for_each check_sorted fields

unfoldable pub valid_covered_fields : Transaction → Check
valid_covered_fields t = for_each (check_covered t) t.transaction_signatures

pub record InputSignatures : Type 0 where
  pub remaining_signatures : ℕ
  pub possible_keys : List SiaPublicKey
  pub used_keys : List ℕ
  pub index : ℕ

abbrev pub SigMap : Type 0
SigMap = List (ℕ × InputSignatures)

unfoldable pub find_sigs : ℕ → SigMap → Option InputSignatures
find_sigs id [] = none
find_sigs id ((k, s) ∷ m) = if k == id then some s else find_sigs id m

unfoldable pub update_sigs : ℕ → InputSignatures → SigMap → SigMap
update_sigs id s [] = []
update_sigs id s ((k, s') ∷ m) = if k == id then (k, s) ∷ m else (k, s') ∷ update_sigs id s m

-- One round of the loops that fill the map.
unfoldable pub add_sigs : ℕ → ℕ → List SiaPublicKey → ℕ → SigMap → Result Error SigMap
unfolding find_sigs
add_sigs id required keys i m =
    if is_some (find_sigs id m)
    then err double_spend
    else ok (
        m
        ++ ((
          id,
          record {
            remaining_signatures = required;
            possible_keys = keys;
            used_keys = [];
            index = i;
          },
        )
            ∷ []))

-- The loops over the inputs and over the revisions differ in the type of the items only.
unfoldable pub add_all {ℓ} :
    {A : Type ℓ} → (A → ℕ) → (A → UnlockConditions) → ℕ → List A → SigMap → Result Error SigMap
add_all id conditions i [] m = ok m
add_all id conditions i (x ∷ xs) m =
    let uc = conditions x in
    add_sigs (id x) uc.signatures_required uc.public_keys i m >>= λ m'.
    add_all id conditions (suc i) xs m'

unfoldable pub add_inputs : ℕ → List SiacoinInput → SigMap → Result Error SigMap
add_inputs = add_all (λ x. x.parent_id) (λ x. x.unlock_conditions)

unfoldable pub add_revisions : ℕ → List FileContractRevision → SigMap → Result Error SigMap
add_revisions = add_all (λ x. x.parent_id) (λ x. x.unlock_conditions)

unfoldable pub check_signed : ℕ × InputSignatures → Check
check_signed (id, s) = guard (s.remaining_signatures == 0) missing_signatures

-- One signature less is missing, and its key is used. (The count is not 0: no wrap.)
abbrev pub spend : ℕ → InputSignatures → InputSignatures
spend key s = record s {
  used_keys = key ∷ s.used_keys;
  remaining_signatures = s.remaining_signatures - 1;
}

module _ (c : Crypto) (t : Transaction) (current_height : ℕ) where
  -- The switch on the key's algorithm, for the signature at position i.
  unfoldable pub verify : ℕ → SiaPublicKey → TransactionSignature → Check
  unfolding copy_into
  verify i key sig =
      if key.algorithm == signature_entropy
      then err entropy_key
      else if key.algorithm == signature_ed25519
      then guard
          (c.verify_hash (c.sig_hash t i) (copy_into 32 key.key) (copy_into 64 sig.signature))
          invalid_signature
      else ok tt

  -- One round of the loop over the signatures.
  unfoldable pub use_signature : ℕ → TransactionSignature → SigMap → Result Error SigMap
  use_signature i sig m = do
    in_sig ← or_err (find_sigs sig.parent_id m) frivolous_signature
    guard (not (in_sig.remaining_signatures == 0)) frivolous_signature
    guard (not (contains in_sig.used_keys sig.public_key_index)) public_key_overuse
    key ← or_err (get_elem? in_sig.possible_keys sig.public_key_index) invalid_pub_key_index
    guard (leb sig.timelock current_height) premature_signature
    verify i key sig
    ok (update_sigs sig.parent_id (spend sig.public_key_index in_sig) m)

  unfoldable pub use_signatures : ℕ → List TransactionSignature → SigMap → Result Error SigMap
  use_signatures i [] m = ok m
  use_signatures i (sig ∷ sigs) m = use_signature i sig m >>= λ m'. use_signatures (suc i) sigs m'

  unfoldable pub valid_signatures : Check
  valid_signatures = do
    valid_covered_fields t
    m ← add_inputs 0 t.siacoin_inputs []
    m' ← add_revisions 0 t.file_contract_revisions m
    m'' ← use_signatures 0 t.transaction_signatures m'
    for_each check_signed m''
