-- ===== src/Types/Signatures/Map.antt =====
-- The map of inputSignatures: what a lookup returns after each operation on it.
use hyperspace.Common.{
  ℕ, suc, ◌≡◌, refl, List, [], ◌∷◌, ◌++◌, none, some, arith, All, ok, >>=_inv, ◌==◌, if◌then◌else◌,
}
use hyperspace.Types.Transaction.{UnlockConditions}
use hyperspace.Types.Signatures.{
  InputSignatures, SigMap, find_sigs, update_sigs, add_sigs, add_all, check_signed,
}

pub find_sigs-update :
    (id j : ℕ) (s s' : InputSignatures) (m : SigMap)
    → find_sigs id m ≡ some s'
    → find_sigs j (update_sigs id s m) ≡ (if id == j then some s else find_sigs j m)
unfolding find_sigs update_sigs
find_sigs-update id j s s' [] h = cc
find_sigs-update id j s s' ((k, x) ∷ m) h = ground (arith, find_sigs-update id j s s' m)

find_sigs-append :
    (id j : ℕ) (s : InputSignatures) (m : SigMap)
    → find_sigs id m ≡ none
    → find_sigs j (m ++ ((id, s) ∷ [])) ≡ (if id == j then some s else find_sigs j m)
unfolding find_sigs
find_sigs-append id j s [] h = refl
find_sigs-append id j s ((k, x) ∷ m) h = ground (arith, find_sigs-append id j s m)

abbrev pub initial : UnlockConditions → ℕ → InputSignatures
initial uc i = record {
  remaining_signatures = uc.signatures_required;
  possible_keys = uc.public_keys;
  used_keys = [];
  index = i;
}

add_sigs-ok :
    (id i : ℕ) (uc : UnlockConditions) (m m' : SigMap)
    → add_sigs id uc.signatures_required uc.public_keys i m ≡ ok m'
    → (find_sigs id m ≡ none) × (m' ≡ m ++ ((id, initial uc i) ∷ []))
unfolding add_sigs
add_sigs-ok id i uc m m' h = (ground arith, ground arith)

-- What is in the map stays, and each item of the list is entered with the initial record.
module _ {ℓ} {A : Type ℓ} (id : A → ℕ) (conditions : A → UnlockConditions) where
  pub add_all-keeps :
      (i : ℕ) (xs : List A) (m m' : SigMap) (j : ℕ) (s : InputSignatures)
      → add_all id conditions i xs m ≡ ok m'
      → find_sigs j m ≡ some s
      → find_sigs j m' ≡ some s
  unfolding add_all
  add_all-keeps i [] m m' j s h f = cc
  add_all-keeps i (x ∷ xs) m m' j s h f =
      let (n, p, q) = >>=_inv _ _ h in
      let (unused, e) = add_sigs-ok (id x) i (conditions x) m n p in
      add_all-keeps (suc i) xs n m' j s q
        (ground (arith, find_sigs-append (id x) j (initial (conditions x) i) m))

  pub add_all-enters :
      (i : ℕ) (xs : List A) (m m' : SigMap)
      → add_all id conditions i xs m ≡ ok m'
      → All (λ x. (k : ℕ) × (find_sigs (id x) m' ≡ some (initial (conditions x) k))) xs
  unfolding add_all
  add_all-enters i [] m m' h = tt
  add_all-enters i (x ∷ xs) m m' h =
      let (n, p, q) = >>=_inv _ _ h in
      let (unused, e) = add_sigs-ok (id x) i (conditions x) m n p in
      (
        (
          i,
          add_all-keeps (suc i) xs n m' (id x) _ q
              (ground (arith, find_sigs-append (id x) (id x) (initial (conditions x) i) m)),
        ),
        add_all-enters (suc i) xs n m' q,
      )

-- Where the last loop returns nil, no entry that can be looked up misses signatures.
pub find_sigs-signed :
    (id : ℕ) (s : InputSignatures) (m : SigMap)
    → All (λ e. check_signed e ≡ ok tt) m
    → find_sigs id m ≡ some s
    → s.remaining_signatures ≡ 0
unfolding find_sigs check_signed
find_sigs-signed id s [] a h = cc
find_sigs-signed id s ((k, x) ∷ m) a h = ground (arith, find_sigs-signed id s m a.1, a.0)
