-- ===== src/Consensus/BlockValidation/Median.antt =====
-- The least timestamp of a child is a median (minimumValidChildTimestamp of
-- modules/consensus/block_rules.go).
use hyperspace.Common.{
  ℕ, zero, suc, ◌+◌, ◌≤◌, ◌≡◌, refl, sym, ap, ◌∙◌, subst, List, [], ◌∷◌, length, get_elem?, All,
  All-mono, Bool, Bool-cases, Option, some, leb, ◌==◌, ok, >>=_inv, ok_injective, or_err_sound,
  or_err-some, if◌then◌else◌, inl, inr, arith,
}
use hyperspace.Consensus.State.{panics, slice_bounds_out_of_range}
use hyperspace.Consensus.BlockValidation.{
  Ancestors, window_times, insert, sort, minimum_valid_child_timestamp,
}

-- How many items pass the test.
abbrev pub count : (ℕ → Bool) → List ℕ → ℕ
count P [] = 0
count P (x ∷ xs) = let rest = count P xs in if P x then suc rest else rest

count-insert : (P : ℕ → Bool) (t : ℕ) (xs : List ℕ) → count P (insert t xs) ≡ count P (t ∷ xs)
count-insert P t [] = refl
count-insert P t (x ∷ xs) = let ih = count-insert P t xs in ground (arith, ih)

count-sort : (P : ℕ → Bool) (xs : List ℕ) → count P (sort xs) ≡ count P xs
count-sort P [] = refl
count-sort P (x ∷ xs) =
    count-insert P x (sort xs) ∙ ap (λ n. if P x then suc n else n) (count-sort P xs)

length-insert : (t : ℕ) (xs : List ℕ) → length (insert t xs) ≡ suc (length xs)
length-insert t [] = refl
length-insert t (x ∷ xs) = let ih = length-insert t xs in ground (arith, ih)

length-sort : (xs : List ℕ) → length (sort xs) ≡ length xs
length-sort [] = refl
length-sort (x ∷ xs) = length-insert x (sort xs) ∙ ap suc (length-sort xs)

abbrev IsSorted : List ℕ → Type 0
IsSorted [] = Unit
IsSorted (x ∷ xs) = All (λ y. x ≤ y) xs × IsSorted xs

insert-All : (P : ℕ → Type 0) (t : ℕ) (xs : List ℕ) → P t → All P xs → All P (insert t xs)
insert-All P t [] p h = (p, tt)
insert-All P t (x ∷ xs) p (q, h) = elim (Bool-cases (leb t x)) [
  | inl e ↦ rw e (p, (q, h))
  | inr e ↦ rw e (q, insert-All P t xs p h)
]

insert-IsSorted : (t : ℕ) (xs : List ℕ) → IsSorted xs → IsSorted (insert t xs)
insert-IsSorted t [] s = (tt, tt)
insert-IsSorted t (x ∷ xs) (above, s) = elim (Bool-cases (leb t x)) [
  | inl e ↦ rw e ((ground arith, All-mono (λ y h. ground arith) xs above), (above, s))
  | inr e ↦ rw e (insert-All (λ y. x ≤ y) t xs (ground arith) above, insert-IsSorted t xs s)
]

sort-IsSorted : (xs : List ℕ) → IsSorted (sort xs)
sort-IsSorted [] = tt
sort-IsSorted (x ∷ xs) = insert-IsSorted x (sort xs) (sort-IsSorted xs)

some_same : (x y : ℕ) → Path (Option ℕ) (some x) (some y) → x ≡ y
some_same x y h = cc

All-get_elem? : (P : ℕ → Type 0) (xs : List ℕ) (i m : ℕ) → All P xs → get_elem? xs i ≡ some m → P m
All-get_elem? P [] i m h e = cc
All-get_elem? P (x ∷ xs) zero m (p, h) e = subst P (some_same x m e) p
All-get_elem? P (x ∷ xs) (suc i) m (p, h) e = All-get_elem? P xs i m h e

count-All : (m : ℕ) (xs : List ℕ) → All (λ y. m ≤ y) xs → count (leb m) xs ≡ length xs
count-All m [] h = refl
count-All m (x ∷ xs) (p, h) = let ih = count-All m xs h in ground (arith, ih)

-- The item at an index of a sorted list.
ranks :
    (xs : List ℕ) (i m : ℕ)
    → IsSorted xs
    → get_elem? xs i ≡ some m
    → (suc i ≤ count (λ y. leb y m) xs) × (length xs ≤ i + count (leb m) xs)
ranks [] i m s e = cc
ranks (x ∷ xs) zero m (above, s) e =
    let same = some_same x m e in
    let all = count-All m xs (subst (λ k. All (λ y. k ≤ y) xs) same above) in
    (ground (arith, same), ground (arith, same, all))
ranks (x ∷ xs) (suc i) m (above, s) e =
    let (low, high) = ranks xs i m s e in
    let under : x ≤ m = All-get_elem? (λ y. x ≤ y) xs i m above e in
    (ground (arith, low), ground (arith, high))

length-window_times :
    (ancestors : Ancestors) (n parent_id last : ℕ) (times : List ℕ)
    → window_times ancestors n parent_id last ≡ ok times
    → length times ≡ n
unfolding window_times
length-window_times ancestors zero parent_id last times h = ap length (sym (ok_injective h))
length-window_times ancestors (suc n) parent_id last times h = elim (Bool-cases (parent_id == 0)) [
  | inl e ↦
      let (rest, run, end) =
        >>=_inv (window_times ancestors n parent_id last) _ (rw (e, window_times) at h) in
      ap length (sym (ok_injective end))
      ∙ ap suc (length-window_times ancestors n parent_id last rest run)
  | inr e ↦
      let (found, there, h1) =
        or_err_sound (ancestors parent_id) (panics slice_bounds_out_of_range) _
          (rw (e, window_times) at h) in
      let (rest, run, end) = >>=_inv (window_times ancestors n found.0 found.1) _ h1 in
      ap length (sym (ok_injective end))
      ∙ ap suc (length-window_times ancestors n found.0 found.1 rest run)
]

-- The least timestamp of a child is a median of the eleven timestamps of the block and those before
-- it: six of them are at most as late, and six are at least as late.
pub minimum_valid_child_timestamp-median :
    (ancestors : Ancestors) (parent_id time m : ℕ)
    → minimum_valid_child_timestamp ancestors parent_id time ≡ ok m
    → (times : List ℕ) × (window_times ancestors 10 parent_id time ≡ ok times)
      × (length (time ∷ times) ≡ 11)
      × (6 ≤ count (λ y. leb y m) (time ∷ times))
      × (6 ≤ count (leb m) (time ∷ times))
unfolding minimum_valid_child_timestamp
minimum_valid_child_timestamp-median ancestors parent_id time m h =
    let (times, run, picked) = >>=_inv (window_times ancestors 10 parent_id time) _ h in
    let all = time ∷ times in
    let eleven : length all ≡ 11 =
      ap suc (length-window_times ancestors 10 parent_id time times run) in
    let (low, high) =
      ranks (sort all) 5 m (sort-IsSorted all)
        (or_err-some (get_elem? (sort all) 5) (panics slice_bounds_out_of_range) picked) in
    (
      times,
      run,
      eleven,
      omega (arith, low, count-sort (λ y. leb y m) all),
      omega (arith, high, count-sort (leb m) all, length-sort all, eleven),
    )
