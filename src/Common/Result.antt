-- ===== src/Common/Result.antt =====
-- Go's `error` results, and loops that stop at the first error.
use mathlib.Core.Path.{◌≡◌, refl, subst}
use mathlib.Core.Bool.{Bool, true, false}
use mathlib.Core.List.{List, [], ◌∷◌}
use mathlib.Core.Option.{Option, none, some}
use mathlib.Core.Logic.{◌⊎◌, inl, inr}
use hyperspace.Common.Tests.{if◌then◌else◌}
use hyperspace.Common.Lists.{All}

pub data Result {ℓ κ} (E : Type ℓ) (A : Type κ) : Type (ℓ ⊔ κ) where
  ok : A → Result E A
  err : E → Result E A

-- `if !test { return e }`
abbrev pub guard {ℓ} : {E : Type ℓ} → Bool → E → Result E (Unit {0})
guard false failure = err failure
guard true failure = ok tt

-- A lookup whose miss is an error.
abbrev pub or_err {ℓ κ} : {E : Type ℓ} {A : Type κ} → Option A → E → Result E A
or_err (some found) failure = ok found
or_err none failure = err failure

infixl 5 ◌>>=◌ ◌>>◌
abbrev pub ◌>>=◌ {ℓ κ μ} :
    {E : Type μ} {B : Type κ} {A : Type ℓ} → Result E A → (A → Result E B) → Result E B
err failure >>= next = err failure
ok result >>= next = next result

abbrev pub ◌>>◌ {ℓ κ} : {E : Type ℓ} {B : Type κ} → Result E (Unit {0}) → Result E B → Result E B
check >> next = check >>= λ done. next

module _ {ℓ κ μ} {E : Type ℓ} {A : Type κ} {B : Type μ} where
  -- The two successes behind the success of a sequence.
  pub >>=_inv :
      (first : Result E A) (next : A → Result E B) {y : B}
      → (first >>= next) ≡ ok y
      → (x : A) × (first ≡ ok x) × (next x ≡ ok y)
  >>=_inv (err failure) next h = cc
  >>=_inv (ok x) next h = (x, refl, h)

module _ {ℓ κ} {E : Type ℓ} {A : Type κ} where
  -- A loop that returns the first error of its body.
  abbrev pub for_each : (A → Result E (Unit {0})) → List A → Result E (Unit {0})
  for_each f [] = ok tt
  for_each f (x ∷ xs) = f x >> for_each f xs

  pub for_each_sound :
      (f : A → Result E (Unit {0})) (xs : List A)
      → for_each f xs ≡ ok tt
      → All (λ x. f x ≡ ok tt) xs
  for_each_sound f [] h = tt
  for_each_sound f (x ∷ xs) h =
      let (u, p, q) = >>=_inv (f x) (λ _. for_each f xs) h in (p, for_each_sound f xs q)

  pub for_each_complete :
      (f : A → Result E (Unit {0})) (xs : List A)
      → All (λ x. f x ≡ ok tt) xs
      → for_each f xs ≡ ok tt
  for_each_complete f [] h = refl
  for_each_complete f (x ∷ xs) h = rw h.0 (for_each_complete f xs h.1)

module _ {ℓ κ μ} {E : Type ℓ} {S : Type κ} {A : Type μ} where
  -- A loop that carries state, and returns the first error of its body.
  abbrev pub fold_result : (S → A → Result E S) → S → List A → Result E S
  fold_result f s [] = ok s
  fold_result f s (x ∷ xs) = f s x >>= λ s'. fold_result f s' xs

-- A sequence of checks passes exactly if both parts do.
pub >>_sound {ℓ κ} :
    {E : Type ℓ} {B : Type κ} (m : Result E (Unit {0})) (k : Result E B) {b : B}
    → (m >> k) ≡ ok b
    → (m ≡ ok tt) × (k ≡ ok b)
>>_sound (ok u) k h = (refl, h)
>>_sound (err e) k h = cc

pub >>_complete {ℓ κ} :
    {E : Type ℓ} {B : Type κ} (m : Result E (Unit {0})) (k : Result E B) {b : B}
    → m ≡ ok tt
    → k ≡ ok b
    → (m >> k) ≡ ok b
>>_complete m k p q = rw p q

pub guard_sound {ℓ κ} :
    {E : Type ℓ} {B : Type κ} (b : Bool) (e : E) (k : Result E B) {x : B}
    → (guard b e >> k) ≡ ok x
    → (b ≡ true) × (k ≡ ok x)
guard_sound true e k h = (refl, h)
guard_sound false e k h = cc

pub or_err_sound {ℓ κ μ} :
    {E : Type ℓ} {A : Type κ} {B : Type μ} (o : Option A) (e : E) (f : A → Result E B) {x : B}
    → (or_err o e >>= f) ≡ ok x
    → (a : A) × (o ≡ some a) × (f a ≡ ok x)
or_err_sound none e f h = cc
or_err_sound (some a) e f h = (a, refl, h)

pub or_err-some {ℓ κ} :
    {E : Type ℓ} {A : Type κ} (o : Option A) (e : E) {a : A} → or_err o e ≡ ok a → o ≡ some a
or_err-some none e h = cc
or_err-some (some a) e h = cc

pub Result-cases {ℓ κ} :
    {E : Type ℓ} {A : Type κ} (r : Result E A) → ((e : E) × (r ≡ err e)) ⊎ ((a : A) × (r ≡ ok a))
Result-cases (err e) = inl (e, refl)
Result-cases (ok a) = inr (a, refl)

pub ok_injective {ℓ κ} :
    {E : Type ℓ} {A : Type κ} {x y : A} → Path (Result E A) (ok x) (ok y) → x ≡ y
ok_injective h = cc

module _ {ℓ κ μ ν} {E : Type ℓ} {S : Type κ} {A : Type μ} where
  -- What every round of a loop keeps, the loop keeps.
  pub fold_keeps {ξ} :
      (P : S → Type ν) (Q : A → Type ξ) (f : S → A → Result E S)
      → ((s s' : S) (x : A) → Q x → P s → f s x ≡ ok s' → P s')
      → (xs : List A) → All Q xs
      → (s s' : S) → P s
      → fold_result f s xs ≡ ok s'
      → P s'
  fold_keeps P Q f round [] q s s' p h = subst P (ok_injective h) p
  fold_keeps P Q f round (x ∷ xs) q s s' p h =
      let (s1, run, rest) = >>=_inv (f s x) (λ t. fold_result f t xs) h in
      fold_keeps P Q f round xs q.1 s1 s' (round s s1 x q.0 p run) rest

pub if_inv {ℓ κ} :
    {E : Type ℓ} {A : Type κ} (b : Bool) (x y : Result E A) {a : A}
    → (if b then x else y) ≡ ok a
    → ((b ≡ true) × (x ≡ ok a)) ⊎ ((b ≡ false) × (y ≡ ok a))
if_inv true x y h = inl (refl, h)
if_inv false x y h = inr (refl, h)
