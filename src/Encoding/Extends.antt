-- ===== src/Encoding/Extends.antt =====
-- A Decoder's method that succeeds does the same on a longer input, and leaves what was added: so a
-- truncated encoding is an error.
use hyperspace.Common.{
  ℕ, zero, suc, ◌+◌, ◌≤◌, ◌≡◌, refl, ap, ◌∙◌, List, [], ◌∷◌, ◌++◌, length, length-append, Bool,
  true, false, Option, none, some, Option-cases, inl, inr, sym, ok, err, arith,
}
use hyperspace.Common.Result.{Result, Result-cases}
use hyperspace.Encoding.{
  Put, Error, Decoder, Decode, pure, ◌>>=◌, continue, split, read_full, next_uint64, check_prefix,
  next_prefix, take_bytes, read_prefixed_bytes, read_fixed, read_each, read_slice, max_object_size,
}
use hyperspace.Encoding.Reads.{Reads}

abbrev pub longer : List ℕ → Decoder → Decoder
longer more d = record d { input = d.input ++ more }

pub record Extends {ℓ} {A : Type ℓ} (p : Decode A) : Type ℓ where
  pub extend :
      (more : List ℕ) (d d' : Decoder) (a : A)
      → p d ≡ ok (a, d')
      → p (longer more d) ≡ ok (a, longer more d')

pub Extends-pure {ℓ} : {A : Type ℓ} (a : A) → Extends (pure a)
Extends-pure a = record {
  extend = λ more d d' b h. ap (λ r. continue r (λ b' e. ok (b', longer more e))) h;
}

continue_inv {ℓ κ} :
    {A : Type ℓ} {B : Type κ} (r : Result Error (A × Decoder)) (f : A → Decode B) (d : Decoder)
    (b : B)
    → continue r f ≡ ok (b, d)
    → (a : A) × (e : Decoder) × (r ≡ ok (a, e)) × (f a e ≡ ok (b, d))
continue_inv (err failure) f d b h = cc
continue_inv (ok (a, e)) f d b h = (a, e, refl, h)

pub Extends-bind {ℓ κ} :
    {A : Type ℓ} {B : Type κ} {p : Decode A} {f : A → Decode B}
    → Extends p
    → ((a : A) → Extends (f a))
    → Extends (p >>= f)
Extends-bind {p} {f} P F = record {
  extend = λ more d d' b h.
      let (a, e, first, then) = continue_inv (p d) f d' b h in
      rw (P.extend more d e a first) ((F a).extend more e d' b then);
}

-- The bytes that are left are followed by more.
abbrev followed : List ℕ → Option (List ℕ × List ℕ) → Option (List ℕ × List ℕ)
followed more none = none
followed more (some (first, others)) = some (first, others ++ more)

split-longer :
    (k : ℕ) (bytes more first others : List ℕ)
    → split k bytes ≡ some (first, others)
    → split k (bytes ++ more) ≡ some (first, others ++ more)
unfolding split
split-longer zero bytes more first others h = ap (followed more) h
split-longer (suc k) [] more first others h = cc
split-longer (suc k) (b ∷ bytes) more first others h = elim (Option-cases (split k bytes)) [
  | inl e ↦ ground (arith, e)
  | inr ((first', others'), e) ↦
      rw (split-longer k bytes more first' others' e) (ap (followed more) (rw e at h))
]

pub Extends-read_full : (k : ℕ) → Extends (read_full k)
unfolding read_full
Extends-read_full k = record {
  extend = λ more d d' a h. elim (Option-cases (split k d.input)) [
    | inl e ↦ ground (arith, e)
    | inr ((first, others), e) ↦
        let l = split-longer k d.input more first others e in ground (arith, e, l)
  ];
}

take-longer :
    (k n : ℕ) (input more a : List ℕ) (buffered : Bool) (d : Decoder)
    → take_bytes k (record { input = input; n = n; buffered = buffered }) ≡ ok (a, d)
    → take_bytes k (record { input = input ++ more; n = n; buffered = buffered })
      ≡ ok (a, longer more d)
unfolding take_bytes
take-longer k n input more a true d h = elim (Option-cases (split k input)) [
  | inl e ↦ ground (arith, e)
  | inr ((first, others), e) ↦
      let l = split-longer k input more first others e in ground (arith, e, l)
]
take-longer k n input more a false d h = (Extends-read_full k).extend more _ d a h

Extends-take_bytes : (k : ℕ) → Extends (take_bytes k)
Extends-take_bytes k = record {
  extend = λ more d d' a h. take-longer k d.n d.input more a d.buffered d' h;
}

Extends-check_prefix : (elem_size n : ℕ) → Extends (check_prefix elem_size n)
unfolding check_prefix
Extends-check_prefix elem_size n = record { extend = λ more d d' a h. ground arith }

pub Extends-next_uint64 : Extends next_uint64
unfolding next_uint64
Extends-next_uint64 = Extends-bind (Extends-read_full 8) (λ bytes. Extends-pure _)

Extends-next_prefix : (elem_size : ℕ) → Extends (next_prefix elem_size)
unfolding next_prefix
Extends-next_prefix elem_size = Extends-bind Extends-next_uint64 (Extends-check_prefix elem_size)

pub Extends-prefixed : Extends read_prefixed_bytes
unfolding read_prefixed_bytes
Extends-prefixed = Extends-bind (Extends-next_prefix 1) Extends-take_bytes

pub Extends-fixed : (width : ℕ) → Extends (read_fixed width)
unfolding read_fixed
Extends-fixed width = Extends-bind (Extends-read_full width) (λ bytes. Extends-pure _)

module _ {ℓ} {A : Type ℓ} {item : Decode A} (each : Extends item) where
  Extends-each : (count : ℕ) → Extends (read_each item count)
  unfolding read_each
  Extends-each zero = Extends-pure []
  Extends-each (suc count) =
      Extends-bind each (λ x. Extends-bind (Extends-each count) (λ xs. Extends-pure (x ∷ xs)))

  pub Extends-slice : (elem_size : ℕ) → Extends (read_slice elem_size item)
  unfolding read_slice
  Extends-slice elem_size = Extends-bind (Extends-next_prefix elem_size) Extends-each

-- How much is left to read.
abbrev unread {ℓ} : {A : Type ℓ} → Result Error (A × Decoder) → ℕ
unread (err e) = 0
unread (ok (a, d)) = length d.input

module _ {ℓ} {A : Type ℓ} {p : Decode A} {put : Put} {a : A} where
  -- A decoder that stops before the end of an encoding does not succeed.
  pub Extends-truncated :
      (first more : List ℕ) (n : ℕ) (buffered : Bool)
      → Extends p
      → Reads p put a
      → n + length (put []) ≤ max_object_size
      → put [] ≡ first ++ more
      → 1 ≤ length more
      → (e : Error) × (p (record { input = first; n = n; buffered = buffered }) ≡ err e)
  Extends-truncated first more n buffered E R size cut some_more =
      elim (Result-cases (p (record { input = first; n = n; buffered = buffered }))) [
        | inl refused ↦ refused
        | inr ((b, d), r) ↦
            let longer_run = E.extend more _ d b r in
            let (n', _, whole) = R.read_back n [] buffered size in
            let same =
              sym longer_run
              ∙ ap (λ (i : List ℕ). p (record { input = i; n = n; buffered = buffered })) (sym cut)
              ∙ whole in
            absurd (omega (arith, ap unread same, length-append d.input more, some_more))
      ]
