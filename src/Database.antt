-- ===== src/Database.antt =====
-- The key-value database that package consensus runs on (github.com/coreos/bbolt), behind the
-- documented behaviour of its buckets. A key is the number that its bytes spell; a value is the
-- object that the program encodes into it, since every read decodes what a write encoded.
pub mod Laws
pub mod Sorted
use hyperspace.Common.{
  All, ℕ, zero, suc, ◌+◌, ◌≡◌, List, [], ◌∷◌, Option, none, some, ◌==◌, if◌then◌else◌,
}

-- The sum of a weight over the pairs that ForEach visits.
abbrev pub weigh {ℓ} : {V : Type ℓ} → (ℕ → V → ℕ) → List (ℕ × V) → ℕ
weigh w [] = 0
weigh w ((k, v) ∷ rest) = w k v + weigh w rest

-- `for_each` is the sequence of pairs that ForEach visits: each pair of the bucket, once.
pub record Bolt : Type 1 where
  pub Bucket : Type 0 → Type 0
  pub empty : {V : Type 0} → Bucket V
  pub get : {V : Type 0} → Bucket V → ℕ → Option V
  pub put : {V : Type 0} → Bucket V → ℕ → V → Bucket V
  pub delete : {V : Type 0} → Bucket V → ℕ → Bucket V
  pub for_each : {V : Type 0} → Bucket V → List (ℕ × V)
  pub get-empty : (V : Type 0) (k : ℕ) → get {V = V} empty k ≡ none
  pub get-put :
      {V : Type 0} (b : Bucket V) (k : ℕ) (v : V) (j : ℕ)
      → get (put b k v) j ≡ (if k == j then some v else get b j)
  pub get-delete :
      {V : Type 0} (b : Bucket V) (k j : ℕ)
      → get (delete b k) j ≡ (if k == j then none else get b j)
  -- A bucket is no more than its pairs.
  pub ext : {V : Type 0} (a b : Bucket V) → ((k : ℕ) → get a k ≡ get b k) → a ≡ b
  pub weigh-empty : (V : Type 0) (w : ℕ → V → ℕ) → weigh w (for_each {V = V} empty) ≡ 0
  pub weigh-put :
      {V : Type 0} (b : Bucket V) (k : ℕ) (v : V) (w : ℕ → V → ℕ)
      → get b k ≡ none
      → weigh w (for_each (put b k v)) ≡ w k v + weigh w (for_each b)
  pub for_each-All :
      {V : Type 0} (b : Bucket V) → All (λ (p : ℕ × V). get b p.0 ≡ some p.1) (for_each b)
