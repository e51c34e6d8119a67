-- ===== src/Types/Standalone/Repeats.antt =====
-- The map of seen ids in noRepeats finds a repeat exactly where there is one.
use hyperspace.Common.{
  ℕ, ◌≡◌, ◌≢◌, refl, List, [], ◌∷◌, ◌++◌, map, false, arith, contains, All, Distinct, ok, err,
  ◌>>=◌, >>=_inv, fold_result, All-mono, All-both, subst,
}
use hyperspace.Common.Result.{Result}
use hyperspace.Types.Errors.{Error}
use hyperspace.Types.Standalone.{mark_seen}

All-Unit : (ids : List ℕ) → All (λ y. Unit {0}) ids
All-Unit [] = tt
All-Unit (x ∷ xs) = (tt, All-Unit xs)

abbrev pub mark_all : List ℕ → List ℕ → Result Error (List ℕ)
mark_all seen ids = fold_result mark_seen seen ids

pub mark_all-map {ℓ} :
    {A : Type ℓ} (key : A → ℕ) (seen : List ℕ) (xs : List A)
    → fold_result (λ s x. mark_seen s (key x)) seen xs ≡ mark_all seen (map key xs)
mark_all-map key seen [] = refl
mark_all-map key seen (x ∷ xs) =
    elim (mark_seen seen (key x))
      as (λ r.
        (r >>= λ s. fold_result (λ s x. mark_seen s (key x)) s xs)
        ≡ (r >>= λ s. mark_all s (map key xs))) [ ok s ↦ mark_all-map key s xs | err e ↦ refl ]

-- No id stands in the map, or twice in the list.
abbrev pub IsFresh : List ℕ → List ℕ → Type 0
IsFresh seen [] = Unit
IsFresh seen (x ∷ xs) = (contains seen x ≡ false) × IsFresh (x ∷ seen) xs

-- The loops over two lists, one after the other.
pub marks {ℓ κ} :
    {A : Type ℓ} {B : Type κ} (f : A → ℕ) (g : B → ℕ) (seen : List ℕ) (xs : List A) (ys : List B)
    → (fold_result (λ s x. mark_seen s (f x)) seen xs >>= λ s.
        fold_result (λ s y. mark_seen s (g y)) s ys)
      ≡ mark_all seen (map f xs ++ map g ys)
marks f g seen [] ys = mark_all-map g seen ys
marks f g seen (x ∷ xs) ys =
    elim (mark_seen seen (f x))
      as (λ r.
        (r >>= (λ s. fold_result (λ s x. mark_seen s (f x)) s xs) >>= λ s.
        fold_result (λ s y. mark_seen s (g y)) s ys)
        ≡ (r >>= λ s. mark_all s (map f xs ++ map g ys))) [
          | ok s ↦ marks f g s xs ys
          | err e ↦ refl
        ]

mark_seen-ok :
    (seen : List ℕ) (id : ℕ) {s : List ℕ}
    → mark_seen seen id ≡ ok s
    → (contains seen id ≡ false) × (s ≡ id ∷ seen)
unfolding mark_seen
mark_seen-ok seen id h = (ground arith, ground arith)

mark_all_sound : (seen ids r : List ℕ) → mark_all seen ids ≡ ok r → IsFresh seen ids
mark_all_sound seen [] r h = tt
mark_all_sound seen (x ∷ xs) r h =
    let (s, p, q) = >>=_inv (mark_seen seen x) (λ s. mark_all s xs) h in
    let (e, k) = mark_seen-ok seen x p in
    (e, mark_all_sound (x ∷ seen) xs r (subst (λ s. mark_all s xs ≡ ok r) k q))

mark_all_complete :
    (seen ids : List ℕ) → IsFresh seen ids → (r : List ℕ) × (mark_all seen ids ≡ ok r)
unfolding mark_seen
mark_all_complete seen [] h = (seen, refl)
mark_all_complete seen (x ∷ xs) h =
    let (r, e) = mark_all_complete (x ∷ seen) xs h.1 in (r, rw h.0 e)

IsFresh-Distinct :
    (seen ids : List ℕ) → IsFresh seen ids → All (λ y. contains seen y ≡ false) ids × Distinct ids
IsFresh-Distinct seen [] h = (tt, tt)
IsFresh-Distinct seen (x ∷ xs) h =
    let (unseen, distinct) = IsFresh-Distinct (x ∷ seen) xs h.1 in
    (
      (h.0, All-mono (λ y k. ground arith) xs unseen),
      (All-mono (λ y k. ground arith) xs unseen, distinct),
    )

Distinct-IsFresh :
    (seen ids : List ℕ) → All (λ y. contains seen y ≡ false) ids → Distinct ids → IsFresh seen ids
Distinct-IsFresh seen [] h d = tt
Distinct-IsFresh seen (x ∷ xs) h d = (
  h.0,
  Distinct-IsFresh (x ∷ seen) xs
      (All-mono (λ y k. ground (arith, k.0, k.1)) xs (All-both (λ y. x ≢ y) _ xs d.0 h.1)) d.1,
)

-- From an empty map the loops succeed exactly on lists without a repeat.
pub marks_iff :
    (ids : List ℕ)
    → ((r : List ℕ) → fold_result mark_seen [] ids ≡ ok r → Distinct ids)
      × (Distinct ids → (r : List ℕ) × (fold_result mark_seen [] ids ≡ ok r))
marks_iff ids = (
  λ r h. (IsFresh-Distinct [] ids (mark_all_sound [] ids r h)).1,
  λ d.
      mark_all_complete [] ids
        (Distinct-IsFresh [] ids (All-mono {P = λ y. Unit {0}} (λ y k. refl) ids (All-Unit ids)) d),
)
