-- ===== src/Types/Signatures/Fields.antt =====
-- sortedUnique and validCoveredFields of types/signatures.go.
use hyperspace.Common.{
  ℕ, ◌<◌, ◌≡◌, refl, ◌↔◌, List, [], ◌∷◌, true, arith, length, All, All-mono, ok, for_each_sound,
  >>_sound,
}
use hyperspace.Types.Transaction.{CoveredFields, TransactionSignature, Transaction}
use hyperspace.Types.Signatures.{
  climb, below_max, sorted_unique, all_field_maxs, check_sorted, check_covered,
  valid_covered_fields,
}

-- Each item is above the one before it, and the first above none: above x.
abbrev pub Climbs : ℕ → List ℕ → Type 0
Climbs x [] = Unit
Climbs x (y ∷ ys) = (x < y) × Climbs y ys

abbrev pub IsIncreasing : List ℕ → Type 0
IsIncreasing [] = Unit
IsIncreasing (x ∷ xs) = Climbs x xs

climb_sound :
    (x : ℕ) (xs : List ℕ) (max : ℕ)
    → below_max (climb x xs) max ≡ true
    → Climbs x xs × (x < max) × All (λ e. e < max) xs
unfolding climb below_max
climb_sound x [] max h = (tt, ground arith, tt)
climb_sound x (y ∷ ys) max h = ground (arith, climb_sound y ys max)

climb_complete :
    (x : ℕ) (xs : List ℕ) (max : ℕ)
    → Climbs x xs
    → x < max
    → All (λ e. e < max) xs
    → below_max (climb x xs) max ≡ true
unfolding climb below_max
climb_complete x [] max c h a = ground arith
climb_complete x (y ∷ ys) max c h a = ground (arith, climb_complete y ys max c.1 a.0 a.1)

-- sortedUnique accepts exactly the increasing lists, so without repeats, of items below the bound.
pub sorted_unique_iff :
    (elems : List ℕ) (max : ℕ)
    → (sorted_unique elems max ≡ true) ↔ (IsIncreasing elems × All (λ e. e < max) elems)
unfolding sorted_unique
sorted_unique_iff [] max = (λ h. (tt, tt), λ h. refl)
sorted_unique_iff (x ∷ xs) max = (
  λ h. let (c, p, a) = climb_sound x xs max h in (c, (p, a)),
  λ h. climb_complete x xs max h.0 h.1.0 h.1.1,
)

-- The covered indices of one field.
abbrev pub IsCover : List ℕ → ℕ → Type 0
IsCover field max = IsIncreasing field × All (λ i. i < max) field

pub record Covers (t : Transaction) (cf : CoveredFields) : Type 0 where
  pub siacoin_inputs : IsCover cf.siacoin_inputs (length t.siacoin_inputs)
  pub siacoin_outputs : IsCover cf.siacoin_outputs (length t.siacoin_outputs)
  pub file_contracts : IsCover cf.file_contracts (length t.file_contracts)
  pub file_contract_revisions :
      IsCover cf.file_contract_revisions (length t.file_contract_revisions)
  pub storage_proofs : IsCover cf.storage_proofs (length t.storage_proofs)
  pub miner_fees : IsCover cf.miner_fees (length t.miner_fees)
  pub arbitrary_data : IsCover cf.arbitrary_data (length t.arbitrary_data)
  pub transaction_signatures : IsCover cf.transaction_signatures (length t.transaction_signatures)

check_sorted_sound :
    (field : List ℕ) (max : ℕ) → check_sorted (field, max) ≡ ok tt → IsCover field max
unfolding check_sorted
check_sorted_sound field max h = (sorted_unique_iff field max).0 (ground arith)

check_covered_sound :
    (t : Transaction) (sig : TransactionSignature)
    → check_covered t sig ≡ ok tt
    → Covers t sig.covered_fields
unfolding check_covered
check_covered_sound t sig h =
    let sorted =
      for_each_sound check_sorted (all_field_maxs t sig.covered_fields) (>>_sound _ _ h).1 in
    record {
      siacoin_inputs = check_sorted_sound _ _ sorted.0;
      siacoin_outputs = check_sorted_sound _ _ sorted.1.0;
      file_contracts = check_sorted_sound _ _ sorted.1.1.0;
      file_contract_revisions = check_sorted_sound _ _ sorted.1.1.1.0;
      storage_proofs = check_sorted_sound _ _ sorted.1.1.1.1.0;
      miner_fees = check_sorted_sound _ _ sorted.1.1.1.1.1.0;
      arbitrary_data = check_sorted_sound _ _ sorted.1.1.1.1.1.1.0;
      transaction_signatures = check_sorted_sound _ _ sorted.1.1.1.1.1.1.1.0;
    }

-- Where validCoveredFields returns nil, every index that a signature covers exists in the
-- transaction, so that SigHash reads no slice out of bounds, and no field is covered twice.
pub valid_covered_fields_sound :
    (t : Transaction)
    → valid_covered_fields t ≡ ok tt
    → All (λ (sig : TransactionSignature). Covers t sig.covered_fields) t.transaction_signatures
unfolding valid_covered_fields
valid_covered_fields_sound t h =
    All-mono (check_covered_sound t) t.transaction_signatures (for_each_sound _ _ h)
