-- ===== src/Encoding/Reads.antt =====
-- A Decoder's method reads back what an Encoder's method wrote, whatever is written after it.
use hyperspace.Common.{
  ℕ, ◌+◌, ◌*◌, ◌^◌, ◌<◌, ◌≤◌, ◌≡◌, refl, subst, List, [], ◌∷◌, ◌++◌, length, length-append, All,
  Bool, true, false, ok, arith,
}
use hyperspace.Encoding.{
  Put, write, write_uint64, write_prefixed_bytes, write_fixed, write_each, write_slice, Decode,
  pure, ◌>>=◌, enc_uint64, dec_uint64, be_bytes, from_be, read_full, next_uint64, check_prefix,
  next_prefix, take_bytes, read_prefixed_bytes, read_fixed, read_each, read_slice, max_object_size,
  max_slice_size,
}
use hyperspace.Encoding.Bytes.{
  dec_uint64-enc_uint64, from_be-be_bytes, length-be_bytes, length-enc_uint64, split-append,
}

-- p reads `a` from what `put` writes, up to what follows, in an object of an allowed size.
pub record Reads {ℓ} {A : Type ℓ} (p : Decode A) (put : Put) (a : A) : Type ℓ where
  pub read_back :
      (n : ℕ) (rest : List ℕ) (buffered : Bool)
      → n + length (put rest) ≤ max_object_size
      → (n' : ℕ) × (n' + length rest ≡ n + length (put rest))
        × (p (record { input = put rest; n = n; buffered = buffered })
            ≡ ok (a, record { input = rest; n = n'; buffered = buffered }))

pub Reads-pure {ℓ} : {A : Type ℓ} (a : A) → Reads (pure a) (λ rest. rest) a
Reads-pure a = record { read_back = λ n rest buffered h. (n, refl, refl) }

pub Reads-bind {ℓ κ} :
    {A : Type ℓ} {B : Type κ} {p : Decode A} {put then : Put} {a : A} {b : B} (f : A → Decode B)
    → Reads p put a
    → Reads (f a) then b
    → Reads (p >>= f) (λ rest. put (then rest)) b
Reads-bind {then} f P Q = record {
  read_back = λ n rest buffered h.
      let (m, e, r) = P.read_back n (then rest) buffered h in
      let (m', e', r') = Q.read_back m rest buffered (omega (arith, e, h)) in
      (m', omega (arith, e, e'), rw r r');
}

read_now :
    (bytes rest : List ℕ) (n : ℕ) (buffered : Bool)
    → n + length (bytes ++ rest) ≤ max_object_size
    → read_full (length bytes) (record { input = bytes ++ rest; n = n; buffered = buffered })
      ≡ ok (bytes, record { input = rest; n = n + length bytes; buffered = buffered })
unfolding read_full
read_now bytes rest n buffered h =
    rw (split-append bytes rest, read_full) (ground (arith, length-append bytes rest))

pub Reads-read_full : (bytes : List ℕ) → Reads (read_full (length bytes)) (write bytes) bytes
Reads-read_full bytes = record {
  read_back = λ n rest buffered h.
      (n + length bytes, omega (arith, length-append bytes rest), read_now bytes rest n buffered h);
}

take_now :
    (bytes rest : List ℕ) (n : ℕ) (buffered : Bool)
    → n + length (bytes ++ rest) ≤ max_object_size
    → take_bytes (length bytes) (record { input = bytes ++ rest; n = n; buffered = buffered })
      ≡ ok (bytes, record { input = rest; n = n + length bytes; buffered = buffered })
unfolding take_bytes
take_now bytes rest n true h = rw (split-append bytes rest, take_bytes) refl
take_now bytes rest n false h = read_now bytes rest n false h

pub Reads-take_bytes : (bytes : List ℕ) → Reads (take_bytes (length bytes)) (write bytes) bytes
Reads-take_bytes bytes = record {
  read_back = λ n rest buffered h.
      (n + length bytes, omega (arith, length-append bytes rest), take_now bytes rest n buffered h);
}

pub Reads-next_uint64 : (v : ℕ) → v < 2 ^ 64 → Reads next_uint64 (write_uint64 v) v
unfolding next_uint64 write_uint64
Reads-next_uint64 v h =
    Reads-bind _
      (subst (λ k. Reads (read_full k) (write (enc_uint64 v)) (enc_uint64 v)) (length-enc_uint64 v)
        (Reads-read_full (enc_uint64 v)))
      (subst (λ (u : ℕ). Reads (pure (dec_uint64 (enc_uint64 v))) (λ rest. rest) u)
        (dec_uint64-enc_uint64 v h) (Reads-pure (dec_uint64 (enc_uint64 v))))

Reads-check_prefix :
    (elem_size v : ℕ)
    → v < 2 ^ 31
    → v * elem_size ≤ max_slice_size
    → Reads (check_prefix elem_size v) (λ rest. rest) v
unfolding check_prefix
Reads-check_prefix elem_size v p q = record {
  read_back = λ n rest buffered h. (n, refl, ground arith);
}

pub Reads-next_prefix :
    (elem_size v : ℕ)
    → v < 2 ^ 31
    → v * elem_size ≤ max_slice_size
    → Reads (next_prefix elem_size) (write_uint64 v) v
unfolding next_prefix
Reads-next_prefix elem_size v p q =
    Reads-bind _ (Reads-next_uint64 v (omega (arith, p))) (Reads-check_prefix elem_size v p q)

pub Reads-prefixed :
    (bytes : List ℕ)
    → length bytes ≤ max_slice_size
    → Reads read_prefixed_bytes (write_prefixed_bytes bytes) bytes
unfolding read_prefixed_bytes write_prefixed_bytes
Reads-prefixed bytes h =
    Reads-bind _ (Reads-next_prefix 1 (length bytes) (omega (arith, h)) (omega (arith, h)))
      (Reads-take_bytes bytes)

pub Reads-prefixed_by :
    (bytes : List ℕ) (k : ℕ)
    → length bytes ≡ k
    → k ≤ max_slice_size
    → Reads read_prefixed_bytes (λ rest. write_uint64 k (bytes ++ rest)) bytes
unfolding write_prefixed_bytes
Reads-prefixed_by bytes k e h =
    subst (λ n. Reads read_prefixed_bytes (λ rest. write_uint64 n (bytes ++ rest)) bytes) e
      (Reads-prefixed bytes (omega (arith, e, h)))

pub Reads-fixed : (width v : ℕ) → v < 256 ^ width → Reads (read_fixed width) (write_fixed width v) v
unfolding read_fixed write_fixed from_be
Reads-fixed width v h =
    Reads-bind _
      (subst (λ k. Reads (read_full k) (write (be_bytes width v [])) (be_bytes width v []))
        (omega (arith, length-be_bytes width v [])) (Reads-read_full (be_bytes width v [])))
      (subst (λ (u : ℕ). Reads (pure (from_be 0 (be_bytes width v []))) (λ rest. rest) u)
        (from_be-be_bytes width v [] h) (Reads-pure (from_be 0 (be_bytes width v []))))

-- Every item of the list is one that is read back.
module _ {ℓ} {A : Type ℓ} (item : Decode A) (put : A → Put) where
  Reads-each :
      (xs : List A)
      → All (λ x. Reads item (put x) x) xs
      → Reads (read_each item (length xs)) (write_each put xs) xs
  unfolding read_each write_each
  Reads-each [] h = Reads-pure []
  Reads-each (x ∷ xs) (r, h) = Reads-bind _ r (Reads-bind _ (Reads-each xs h) (Reads-pure (x ∷ xs)))

  pub Reads-slice :
      (elem_size : ℕ) (xs : List A)
      → length xs < 2 ^ 31
      → length xs * elem_size ≤ max_slice_size
      → All (λ x. Reads item (put x) x) xs
      → Reads (read_slice elem_size item) (write_slice put xs) xs
  unfolding read_slice write_slice
  Reads-slice elem_size xs p q h =
      Reads-bind _ (Reads-next_prefix elem_size (length xs) p q) (Reads-each xs h)
