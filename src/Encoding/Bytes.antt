-- ===== src/Encoding/Bytes.antt =====
-- Numbers come back from their bytes.
use native.Mathlib.Nat.{pow-suc}
use hyperspace.Common.{
  ℕ, zero, suc, ◌+◌, ◌*◌, ◌/◌, ◌%◌, ◌^◌, ◌<◌, ◌≡◌, refl, ap, ◌∙◌, List, [], ◌∷◌, ◌++◌, length,
  arith, some,
}
use hyperspace.Encoding.{le_bytes, from_le, enc_uint64, dec_uint64, be_bytes, from_be, split}

from_le-le_bytes : (w n : ℕ) → n < 256 ^ w → from_le (le_bytes w n) ≡ n
unfolding from_le le_bytes
from_le-le_bytes zero n h = omega arith
from_le-le_bytes (suc w) n h =
    let ih = from_le-le_bytes w (n / 256) (omega (arith, pow-suc 256 w)) in omega (arith, ih)

-- DecUint64 undoes EncUint64.
pub dec_uint64-enc_uint64 : (v : ℕ) → v < 2 ^ 64 → dec_uint64 (enc_uint64 v) ≡ v
unfolding dec_uint64 enc_uint64 le_bytes
dec_uint64-enc_uint64 v h = from_le-le_bytes 8 v h

pub be_bytes-append :
    (w n : ℕ) (acc rest : List ℕ) → be_bytes w n (acc ++ rest) ≡ be_bytes w n acc ++ rest
unfolding be_bytes
be_bytes-append zero n acc rest = refl
be_bytes-append (suc w) n acc rest = be_bytes-append w (n / 256) (n % 256 ∷ acc) rest

pub from_be-be_bytes :
    (w n : ℕ) (acc : List ℕ) → n < 256 ^ w → from_be 0 (be_bytes w n acc) ≡ from_be n acc
unfolding from_be be_bytes
from_be-be_bytes zero n acc h = ap (λ v. from_be v acc) {x = 0} {y = n} (omega arith)
from_be-be_bytes (suc w) n acc h =
    from_be-be_bytes w (n / 256) (n % 256 ∷ acc) (omega (arith, pow-suc 256 w))
    ∙ ap (λ v. from_be v acc) {x = n / 256 * 256 + n % 256} {y = n} (omega arith)

pub length-be_bytes : (w n : ℕ) (acc : List ℕ) → length (be_bytes w n acc) ≡ w + length acc
unfolding be_bytes
length-be_bytes zero n acc = omega arith
length-be_bytes (suc w) n acc = omega (arith, length-be_bytes w (n / 256) (n % 256 ∷ acc))

pub length-enc_uint64 : (v : ℕ) → length (enc_uint64 v) ≡ 8
unfolding enc_uint64 le_bytes
length-enc_uint64 v = refl

pub split-append : (xs ys : List ℕ) → split (length xs) (xs ++ ys) ≡ some (xs, ys)
unfolding split
split-append [] ys = refl
split-append (x ∷ xs) ys = rw (split-append xs ys) refl
