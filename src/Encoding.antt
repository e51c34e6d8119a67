-- ===== src/Encoding.antt =====
-- Package encoding: integers as bytes (encoding/integers.go), and the methods of Encoder and Decoder
-- that the types' own methods call (encoding/marshal.go). A byte is a number below 256.
pub mod Bytes
pub mod Reads
pub mod Extends
use hyperspace.Common.{
  ℕ, zero, suc, ◌+◌, ◌-◌, ◌*◌, ◌/◌, ◌%◌, ◌^◌, List, [], ◌∷◌, ◌++◌, length, Bool, true, false,
  Option, none, some, ltb, ◌==◌, ◌||◌, if◌then◌else◌, ok, err,
}
use hyperspace.Common.Result.{Result}

-- The bytes of a number, the least first.
unfoldable pub le_bytes : ℕ → ℕ → List ℕ
le_bytes zero n = []
le_bytes (suc width) n = n % 256 ∷ le_bytes width (n / 256)

unfoldable pub from_le : List ℕ → ℕ
from_le [] = 0
from_le (b ∷ bs) = b + 256 * from_le bs

unfoldable pub enc_uint64 : ℕ → List ℕ
unfolding le_bytes
enc_uint64 i = le_bytes 8 i

-- `copy` into 8 zeroed bytes first.
abbrev pub padded : ℕ → List ℕ → List ℕ
padded zero bytes = []
padded (suc n) [] = 0 ∷ padded n []
padded (suc n) (b ∷ bytes) = b ∷ padded n bytes

unfoldable pub dec_uint64 : List ℕ → ℕ
unfolding from_le
dec_uint64 b = from_le (padded 8 b)

-- The bytes of a number, the greatest first, before those of `acc`: an array of fixed width, such as
-- a hash.
unfoldable pub be_bytes : ℕ → ℕ → List ℕ → List ℕ
be_bytes zero n acc = acc
be_bytes (suc width) n acc = be_bytes width (n / 256) (n % 256 ∷ acc)

-- big.Int's SetBytes, with the value so far.
unfoldable pub from_be : ℕ → List ℕ → ℕ
from_be v [] = v
from_be v (b ∷ bs) = from_be (v * 256 + b) bs

-- What an Encoder writes, in front of what is written after it.
abbrev pub Put : Type 0
Put = List ℕ → List ℕ

abbrev pub write : List ℕ → Put
write p rest = p ++ rest

abbrev pub write_bool : Bool → Put
write_bool true rest = 1 ∷ rest
write_bool false rest = 0 ∷ rest

unfoldable pub write_uint64 : ℕ → Put
write_uint64 u rest = enc_uint64 u ++ rest

unfoldable pub write_prefixed_bytes : List ℕ → Put
write_prefixed_bytes p rest = write_uint64 (length p) (p ++ rest)

unfoldable pub write_fixed : ℕ → ℕ → Put
write_fixed width n rest = be_bytes width n [] ++ rest

unfoldable pub write_each {ℓ} : {A : Type ℓ} → (A → Put) → List A → Put
write_each put [] rest = rest
write_each put (x ∷ xs) rest = put x (write_each put xs rest)

-- A length, then the items.
unfoldable pub write_slice {ℓ} : {A : Type ℓ} → (A → Put) → List A → Put
unfolding write_each
write_slice put xs rest = write_uint64 (length xs) (write_each put xs rest)

abbrev pub max_object_size : ℕ
max_object_size = 12000000

abbrev pub max_slice_size : ℕ
max_slice_size = 5000000

pub data Error : Type 0 where
  eof unexpected_eof object_too_large slice_too_large : Error

-- `buffered` says that the input is a bytes.Buffer. Once a Decoder has an error, its methods change
-- nothing, so that the first error is the outcome.
pub record Decoder : Type 0 where
  pub input : List ℕ
  pub n : ℕ
  pub buffered : Bool

abbrev pub Decode {ℓ} : Type ℓ → Type ℓ
Decode A = Decoder → Result Error (A × Decoder)

abbrev pub pure {ℓ} : {A : Type ℓ} → A → Decode A
pure a d = ok (a, d)

abbrev pub continue {ℓ κ} :
    {A : Type ℓ} {B : Type κ}
    → Result Error (A × Decoder)
    → (A → Decode B)
    → Result Error (B × Decoder)
continue (err e) f = err e
continue (ok (a, d)) f = f a d

infixl 5 ◌>>=◌
abbrev pub ◌>>=◌ {ℓ κ} : {B : Type κ} {A : Type ℓ} → Decode A → (A → Decode B) → Decode B
p >>= f = λ d. continue (p d) f

-- The first k bytes and the others, where there are as many.
unfoldable pub split : ℕ → List ℕ → Option (List ℕ × List ℕ)
split zero bytes = some ([], bytes)
split (suc k) [] = none
split (suc k) (b ∷ bytes) = elim (split k bytes) [
  | none ↦ none
  | some (first, others) ↦ some (b ∷ first, others)
]

-- io.ReadFull's error where the input is too short.
abbrev pub short : List ℕ → Error
short [] = eof
short (b ∷ bytes) = unexpected_eof

unfoldable pub read_full : ℕ → Decode (List ℕ)
unfolding split
read_full k d = elim (split k d.input) [
  | none ↦
      err (if ltb max_object_size (d.n + length d.input) then object_too_large else short d.input)
  | some (bytes, others) ↦
      if ltb max_object_size (d.n + k)
      then err object_too_large
      else ok (bytes, record d { input = others; n = d.n + k })
]

unfoldable pub next_uint64 : Decode ℕ
next_uint64 = do bytes ← read_full 8; pure (dec_uint64 bytes)

unfoldable pub check_prefix : ℕ → ℕ → Decode ℕ
check_prefix elem_size n d =
    if ltb (2 ^ 31 - 1) n || ltb max_slice_size (n * elem_size % 2 ^ 64)
    then err slice_too_large
    else ok (n, d)

unfoldable pub next_prefix : ℕ → Decode ℕ
next_prefix elem_size = do n ← next_uint64; check_prefix elem_size n

-- From a buffer the bytes are taken without a look at the object's size.
unfoldable pub take_bytes : ℕ → Decode (List ℕ)
unfolding split read_full
take_bytes k d =
    if d.buffered
    then elim (split k d.input) [
      | none ↦ err unexpected_eof
      | some (bytes, others) ↦ ok (bytes, record d { input = others; n = d.n + k })
    ]
    else read_full k d

unfoldable pub read_prefixed_bytes : Decode (List ℕ)
read_prefixed_bytes = do n ← next_prefix 1; take_bytes n

unfoldable pub read_fixed : ℕ → Decode ℕ
read_fixed width = do bytes ← read_full width; pure (from_be 0 bytes)

unfoldable pub read_each {ℓ} : {A : Type ℓ} → Decode A → ℕ → Decode (List A)
read_each item zero = pure []
read_each item (suc count) = do x ← item; xs ← read_each item count; pure (x ∷ xs)

-- `make([]T, d.NextPrefix(unsafe.Sizeof(T{})))`, and the loop that fills it.
unfoldable pub read_slice {ℓ} : {A : Type ℓ} → ℕ → Decode A → Decode (List A)
unfolding read_each
read_slice elem_size item = do count ← next_prefix elem_size; read_each item count
