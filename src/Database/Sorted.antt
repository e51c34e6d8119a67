-- ===== src/Database/Sorted.antt =====
-- A database whose buckets are sorted lists of pairs, each key given by its distance from the one
-- before: the interface of the parent module can be met, and runs on examples.
use native.Mathlib.Nat.{zero-add}
use hyperspace.Common.{
  All, All-mono, ◌≤◌, sym, ℕ, suc, ◌+◌, ◌-◌, ◌≡◌, refl, ap, ◌∙◌, List, [], ◌∷◌, Option, none, some,
  arith, ltb, ◌<◌, ◌==◌, if◌then◌else◌,
}
use hyperspace.Database.{Bolt, weigh}

sub_twice : (j d g : ℕ) → j - suc (d + g) ≡ j - d - suc g
sub_twice j d g = omega arith

after_gap : (base g k : ℕ) → g < k → suc (base + g) + (k - suc g) ≡ base + k
after_gap base g k h = omega arith

back_up : (k g : ℕ) → k + suc g - suc g ≡ k
back_up k g = omega arith

add_back : (base g : ℕ) → base + g - base ≡ g
add_back base g = omega arith

further : (base g p : ℕ) → p - base - suc g ≡ p - suc (base + g)
further base g p = omega arith

less_none : (p : ℕ) → p - 0 ≡ p
less_none p = omega arith

module _ {V : Type 0} where
  abbrev pub get : List (ℕ × V) → ℕ → Option V
  get [] k = none
  get ((g, v) ∷ r) k = if ltb k g then none else if k == g then some v else get r (k - suc g)

  abbrev pub put : List (ℕ × V) → ℕ → V → List (ℕ × V)
  put [] k v = (k, v) ∷ []
  put ((g, u) ∷ r) k v =
      if ltb k g
      then (k, v) ∷ (g - suc k, u) ∷ r
      else if k == g
      then (g, v) ∷ r
      else (g, u) ∷ put r (k - suc g) v

  abbrev pub shift : ℕ → List (ℕ × V) → List (ℕ × V)
  shift d [] = []
  shift d ((g, u) ∷ r) = (d + g, u) ∷ r

  abbrev pub delete : List (ℕ × V) → ℕ → List (ℕ × V)
  delete [] k = []
  delete ((g, u) ∷ r) k =
      if ltb k g
      then (g, u) ∷ r
      else if k == g
      then shift (suc g) r
      else (g, u) ∷ delete r (k - suc g)

  abbrev pub visit : ℕ → List (ℕ × V) → List (ℕ × V)
  visit base [] = []
  visit base ((g, v) ∷ r) = (base + g, v) ∷ visit (suc (base + g)) r

  pub get-put :
      (b : List (ℕ × V)) (k : ℕ) (v : V) (j : ℕ)
      → get (put b k v) j ≡ (if k == j then some v else get b j)
  get-put [] k v j = ground arith
  get-put ((g, u) ∷ r) k v j = ground (arith, get-put r (k - suc g) v (j - suc g))

  get-shift :
      (d : ℕ) (b : List (ℕ × V)) (j : ℕ)
      → get (shift d b) j ≡ (if ltb j d then none else get b (j - d))
  get-shift d [] j = ground arith
  get-shift d ((g, u) ∷ r) j = ground (arith, ap (get r) (sub_twice j d g))

  pub get-delete :
      (b : List (ℕ × V)) (k j : ℕ) → get (delete b k) j ≡ (if k == j then none else get b j)
  get-delete [] k j = ground arith
  get-delete ((g, u) ∷ r) k j =
      ground (arith, get-delete r (k - suc g) (j - suc g), get-shift (suc g) r j)

  pub weigh-put :
      (base : ℕ) (b : List (ℕ × V)) (k : ℕ) (v : V) (w : ℕ → V → ℕ)
      → get b k ≡ none
      → weigh w (visit base (put b k v)) ≡ w (base + k) v + weigh w (visit base b)
  weigh-put base [] k v w h = refl
  weigh-put base ((g, u) ∷ r) k v w h = ground (
    arith,
    ap (λ p. w (base + k) v + (w p u + weigh w (visit (suc p) r)))
        {x = suc (base + k) + (g - suc k)} {y = base + g},
    ap (λ p. w p v) {x = suc (base + g) + (k - suc g)} {y = base + k},
    weigh-put (suc (base + g)) r (k - suc g) v w,
  )

  pub ext : (a b : List (ℕ × V)) → ((k : ℕ) → get a k ≡ get b k) → a ≡ b
  ext [] [] h = refl
  ext [] ((g, v) ∷ r) h = ground (arith, h g)
  ext ((g, v) ∷ r) [] h = ground (arith, h g)
  ext ((g, v) ∷ r) ((g', v') ∷ r') h =
      let same : g ≡ g' = ground (arith, h g, h g') in
      let value : v ≡ v' = ground (arith, h g) in
      let rest : r ≡ r' =
        ext r r' (λ k.
          ground (arith, h (k + suc g), ap (get r) (back_up k g), ap (get r') (back_up k g))) in
      cc

  visit-All :
      (base : ℕ) (b : List (ℕ × V))
      → All (λ p. (base ≤ p.0) × (get b (p.0 - base) ≡ some p.1)) (visit base b)
  visit-All base [] = tt
  visit-All base ((g, v) ∷ r) = (
    (omega arith, ground (arith, ap (get ((g, v) ∷ r)) (add_back base g))),
    All-mono (λ p h. (omega (arith, h.0), ground (arith, h, ap (get r) (further base g p.0))))
        (visit (suc (base + g)) r) (visit-All (suc (base + g)) r),
  )

  pub for_each-All : (b : List (ℕ × V)) → All (λ p. get b p.0 ≡ some p.1) (visit 0 b)
  for_each-All b =
      All-mono (λ p h. ap (get b) (sym (less_none p.0)) ∙ h.1) (visit 0 b) (visit-All 0 b)

  pub weigh-put_first :
      (b : List (ℕ × V)) (k : ℕ) (v : V) (w : ℕ → V → ℕ)
      → get b k ≡ none
      → weigh w (visit 0 (put b k v)) ≡ w k v + weigh w (visit 0 b)
  weigh-put_first b k v w h =
      weigh-put 0 b k v w h ∙ ap (λ p. w p v + weigh w (visit 0 b)) (zero-add k)

abbrev pub sorted : Bolt
sorted = record {
  Bucket = λ V. List (ℕ × V);
  empty = [];
  get = get;
  put = put;
  delete = delete;
  for_each = visit 0;
  get-empty = λ V k. refl;
  get-put = get-put;
  get-delete = get-delete;
  ext = ext;
  weigh-empty = λ V w. refl;
  weigh-put = weigh-put_first;
  for_each-All = for_each-All;
}
