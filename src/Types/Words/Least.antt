-- ===== src/Types/Words/Least.antt =====
-- The loops over the words of a big.Int count, and write, the bytes of the number (types/encoding.go).
use native.Mathlib.Nat.{
  pow-suc, div-div-eq-div-mul, div-lt_iff_lt-mul, le-div_iff_mul-le, mul_comm, mul_assoc,
  mul_left_comm, mul-le-mul_left, div-eq_of_lt,
}
use hyperspace.Common.{
  ℕ, zero, suc, ◌+◌, ◌-◌, ◌*◌, ◌/◌, ◌%◌, ◌^◌, ◌≤◌, ◌<◌, ◌≡◌, refl, sym, ap, ◌∙◌, subst, List, [],
  ◌∷◌, ◌++◌, length, length-append, get_elem?, Bool-cases, true, false, Option, none, some, ◌==◌,
  if◌then◌else◌, arith, inl, inr,
}
use mathlib.Core.List.{reverse, reverse-append}
use hyperspace.Encoding.{be_bytes}
use hyperspace.Encoding.Bytes.{be_bytes-append}
use hyperspace.Types.Words.{
  bits, zeros_in_word, zeros, word_at, shifted, seek, write_down, byte_count,
}

-- The bytes of one word that is not zero.
top_bytes : ℕ → ℕ → ℕ
top_bytes zero w = 0
top_bytes (suc j) w = let rest = top_bytes j w in if w / 256 ^ j == 0 then rest else suc j

pos_pow : (k : ℕ) → 0 < 256 ^ k
pos_pow zero = omega arith
pos_pow (suc k) = omega (arith, pow-suc 256 k, pos_pow k)

small_quotient : (w p : ℕ) → 0 < p → (w / p == 0) ≡ true → w < p
small_quotient w p pos h =
    omega (arith, (div-lt_iff_lt-mul {k = p} {x = w} {y = 1} pos).0 (ground arith))

large_quotient : (w p : ℕ) → 0 < p → (w / p == 0) ≡ false → p ≤ w
large_quotient w p pos h =
    omega (arith, (le-div_iff_mul-le {k = p} {x = 1} {y = w} pos).0 (ground arith))

top_bytes-bounds :
    (j w : ℕ)
    → 0 < w
    → w < 256 ^ j
    → (0 < top_bytes j w) × (w < 256 ^ top_bytes j w) × (256 ^ top_bytes j w ≤ 256 * w)
unfolding top_bytes
top_bytes-bounds zero w pos h = absurd (omega arith)
top_bytes-bounds (suc j) w pos h = elim (Bool-cases (w / 256 ^ j == 0)) [
  | inl e ↦ rw e (top_bytes-bounds j w pos (small_quotient w (256 ^ j) (pos_pow j) e))
  | inr e ↦
      rw e (omega arith, h, omega (arith, pow-suc 256 j, large_quotient w (256 ^ j) (pos_pow j) e))
]

zeros_in_word-top :
    (j w size : ℕ)
    → 0 < w
    → w < 256 ^ j
    → zeros_in_word j w (size + j) ≡ (true, size + top_bytes j w)
unfolding top_bytes zeros_in_word
zeros_in_word-top zero w size pos h = absurd (omega arith)
zeros_in_word-top (suc j) w size pos h = elim (Bool-cases (w / 256 ^ j == 0)) [
  | inl e ↦ rw e (
      ap (zeros_in_word j w) {x = size + suc j - 1} {y = size + j} (omega arith)
      ∙ zeros_in_word-top j w size pos (small_quotient w (256 ^ j) (pos_pow j) e))
  | inr e ↦ rw e refl
]

seek-top :
    (words : List ℕ) (l j w : ℕ)
    → ((i : ℕ) → i < 8 → shifted words (8 * l + i) ≡ w / 256 ^ i)
    → j ≤ 8
    → 0 < w
    → w < 256 ^ j
    → seek words (8 * l + j) ≡ 8 * l + top_bytes j w
unfolding top_bytes seek
seek-top words l zero w at low pos h = absurd (omega arith)
seek-top words l (suc j) w at low pos h =
    ap (seek words) {x = 8 * l + suc j} {y = suc (8 * l + j)} (omega arith)
    ∙ elim (Bool-cases (w / 256 ^ j == 0)) [
      | inl e ↦ rw (at j (omega arith)) (
          rw e
            (seek-top words l j w at (omega arith) pos (small_quotient w (256 ^ j) (pos_pow j) e)))
      | inr e ↦ rw (at j (omega arith)) (rw e (omega arith))
    ]

get_elem?-last : (low : List ℕ) (w : ℕ) → get_elem? (low ++ (w ∷ [])) (length low) ≡ some w
get_elem?-last [] w = refl
get_elem?-last (x ∷ low) w = get_elem?-last low w

shifted-last :
    (low : List ℕ) (w i : ℕ) → i < 8 → shifted (low ++ (w ∷ [])) (8 * length low + i) ≡ w / 256 ^ i
unfolding shifted
shifted-last low w i h =
    ap (λ k. word_at (low ++ (w ∷ [])) k / 256 ^ ((8 * length low + i) % 8))
      {x = (8 * length low + i) / 8} {y = length low} (omega arith)
    ∙ ap (λ k. word_at (low ++ (w ∷ [])) (length low) / 256 ^ k) {x = (8 * length low + i) % 8}
        {y = i} (omega arith)
    ∙ ap (λ (o : Option ℕ). (elim o as (λ x. ℕ) [ none ↦ 0 | some word ↦ word ]) / 256 ^ i)
        (get_elem?-last low w)

pow-word : (l : ℕ) → 256 ^ (8 * suc l) ≡ 2 ^ 64 * 256 ^ (8 * l)
pow-word l =
    ap (λ k. 256 ^ k) {x = 8 * suc l} {y = suc (suc (suc (suc (suc (suc (suc (suc (8 * l))))))))}
      (omega arith)
    ∙ omega (
      arith,
      pow-suc 256 (8 * l),
      pow-suc 256 (suc (8 * l)),
      pow-suc 256 (suc (suc (8 * l))),
      pow-suc 256 (suc (suc (suc (8 * l)))),
      pow-suc 256 (suc (suc (suc (suc (8 * l))))),
      pow-suc 256 (suc (suc (suc (suc (suc (8 * l)))))),
      pow-suc 256 (suc (suc (suc (suc (suc (suc (8 * l))))))),
      pow-suc 256 (suc (suc (suc (suc (suc (suc (suc (8 * l)))))))),
    )

-- The last word of a number, and those before it.
record IsTop (words low : List ℕ) (n top : ℕ) : Type 0 where
  same : words ≡ low ++ (top ∷ [])
  positive : 0 < top
  fits : top < 2 ^ 64
  lower : top * 256 ^ (8 * length low) ≤ n
  upper : n < top * 256 ^ (8 * length low) + 256 ^ (8 * length low)

bits-zero : (fuel : ℕ) → bits fuel 0 ≡ []
unfolding bits
bits-zero zero = refl
bits-zero (suc fuel) = refl

bits-suc : (fuel n : ℕ) → 0 < n → bits (suc fuel) n ≡ n % 2 ^ 64 ∷ bits fuel (n / 2 ^ 64)
unfolding bits
bits-suc fuel n h = ground arith

bits-IsTop :
    (fuel n : ℕ) → 0 < n → n ≤ fuel → (low : List ℕ) × (top : ℕ) × IsTop (bits fuel n) low n top
bits-IsTop zero n pos h = absurd (omega arith)
bits-IsTop (suc fuel) n pos h = elim (Bool-cases (n / 2 ^ 64 == 0)) [
  | inl e ↦ (
    [],
    n,
    record {
      same =
          bits-suc fuel n pos
          ∙ ap (λ q. n % 2 ^ 64 ∷ bits fuel q) {x = n / 2 ^ 64} {y = 0} (ground arith)
          ∙ ap (λ ws. n % 2 ^ 64 ∷ ws) (bits-zero fuel)
          ∙ ap (λ (w : ℕ). w ∷ []) {x = n % 2 ^ 64} {y = n} (ground arith);
      positive = pos;
      fits = ground arith;
      lower = omega arith;
      upper = omega arith;
    },
  )
  | inr e ↦
      let (low, top, t) = bits-IsTop fuel (n / 2 ^ 64) (ground arith) (omega arith) in
      let p = pow-word (length low) in
      let product : top * 256 ^ (8 * suc (length low)) ≡ 2 ^ 64 * (top * 256 ^ (8 * length low)) =
        ap (λ k. top * k) p ∙ mul_left_comm top (2 ^ 64) (256 ^ (8 * length low)) in
      (
        n % 2 ^ 64 ∷ low,
        top,
        record {
          same = bits-suc fuel n pos ∙ ap (λ ws. n % 2 ^ 64 ∷ ws) t.same;
          positive = t.positive;
          fits = t.fits;
          lower = omega (arith, product, t.lower);
          upper = omega (arith, product, p, t.upper);
        },
      )
]

pow-add : (a b : ℕ) → 256 ^ (a + b) ≡ 256 ^ a * 256 ^ b
pow-add zero b = ap (λ k. 256 ^ k) {x = 0 + b} {y = b} (omega arith) ∙ omega arith
pow-add (suc a) b =
    ap (λ k. 256 ^ k) {x = suc a + b} {y = suc (a + b)} (omega arith)
    ∙ pow-suc 256 (a + b)
    ∙ ap (λ k. k * 256) (pow-add a b)
    ∙ mul_assoc (256 ^ a) (256 ^ b) 256
    ∙ ap (λ k. 256 ^ a * k) (mul_comm (256 ^ b) 256)
    ∙ sym (mul_assoc (256 ^ a) 256 (256 ^ b))
    ∙ ap (λ k. k * 256 ^ b) (sym (pow-suc 256 a))

-- What both loops find for a number above zero: the least number of bytes that hold it.
record IsSize (n size : ℕ) : Type 0 where
  counted : zeros (reverse (bits n n)) (length (bits n n) * 8) ≡ size
  sought : byte_count n ≡ size
  holds : n < 256 ^ size
  least : 256 ^ size ≤ 256 * n

zeros-top :
    (low : List ℕ) (top : ℕ)
    → 0 < top
    → top < 2 ^ 64
    → zeros (reverse (low ++ (top ∷ []))) (8 * length low + 8) ≡ 8 * length low + top_bytes 8 top
unfolding zeros
zeros-top low top pos fits =
    ap (λ ws. zeros ws (8 * length low + 8)) (reverse-append low (top ∷ []))
    ∙ rw (zeros_in_word-top 8 top (8 * length low) pos (omega (arith, fits))) refl

positive-IsSize : (n : ℕ) → 0 < n → (size : ℕ) × IsSize n size
positive-IsSize n pos =
    let (low, top, t) = bits-IsTop n n pos (omega arith) in
    let (some_bytes, holds, least) = top_bytes-bounds 8 top t.positive (omega (arith, t.fits)) in
    let k = top_bytes 8 top in
    let p = 256 ^ (8 * length low) in
    let long : length (low ++ (top ∷ [])) * 8 ≡ 8 * length low + 8 =
      omega (arith, length-append low (top ∷ [])) in
    let power : 256 ^ (8 * length low + k) ≡ p * 256 ^ k = pow-add (8 * length low) k in
    (
      8 * length low + k,
      record {
        counted =
            ap (λ ws. zeros (reverse ws) (length ws * 8)) t.same
            ∙ ap (zeros (reverse (low ++ (top ∷ [])))) long
            ∙ zeros-top low top t.positive t.fits;
        sought =
            ap (λ ws. seek ws (length ws * 8)) t.same
            ∙ ap (seek (low ++ (top ∷ []))) long
            ∙ seek-top (low ++ (top ∷ [])) (length low) 8 top (λ i h. shifted-last low top i h)
                (omega arith) t.positive (omega (arith, t.fits));
        holds = omega (
          arith,
          power,
          t.upper,
          mul_comm top p,
          mul_comm p (suc top),
          mul-le-mul_left {m = suc top} {n = 256 ^ k} p (omega (arith, holds)),
        );
        least = omega (
          arith,
          power,
          t.lower,
          mul_comm top p,
          mul_left_comm p 256 top,
          mul-le-mul_left {m = 256 ^ k} {n = 256 * top} p least,
        );
      },
    )

-- The bytes that are written down, from the number itself.
bytes_down : ℕ → ℕ → List ℕ → List ℕ
bytes_down zero n rest = rest
bytes_down (suc i) n rest = n / 256 ^ i % 256 ∷ bytes_down i n rest

word_at-bits : (fuel n i : ℕ) → n ≤ fuel → word_at (bits fuel n) i ≡ n / 256 ^ (8 * i) % 2 ^ 64
word_at-bits fuel zero i h =
    ap (λ ws. word_at ws i) (bits-zero fuel)
    ∙ sym (ap (λ q. q % 2 ^ 64) (div-eq_of_lt {n = 0} (pos_pow (8 * i))))
word_at-bits zero (suc n) i h = absurd (omega arith)
word_at-bits (suc fuel) (suc n) zero h =
    ap (λ ws. word_at ws 0) (bits-suc fuel (suc n) (omega arith)) ∙ omega arith
word_at-bits (suc fuel) (suc n) (suc i) h =
    ap (λ ws. word_at ws (suc i)) (bits-suc fuel (suc n) (omega arith))
    ∙ word_at-bits fuel (suc n / 2 ^ 64) i (omega arith)
    ∙ ap (λ q. q % 2 ^ 64) (div-div-eq-div-mul (suc n) (2 ^ 64) (256 ^ (8 * i)))
    ∙ ap (λ q. suc n / q % 2 ^ 64) (sym (pow-word i))

low_byte : (m r : ℕ) → r < 8 → m % 2 ^ 64 / 256 ^ r % 256 ≡ m / 256 ^ r % 256
low_byte m zero h = omega arith
low_byte m (suc zero) h = omega arith
low_byte m (suc (suc zero)) h = omega arith
low_byte m (suc (suc (suc zero))) h = omega arith
low_byte m (suc (suc (suc (suc zero)))) h = omega arith
low_byte m (suc (suc (suc (suc (suc zero))))) h = omega arith
low_byte m (suc (suc (suc (suc (suc (suc zero)))))) h = omega arith
low_byte m (suc (suc (suc (suc (suc (suc (suc zero))))))) h = omega arith
low_byte m (suc (suc (suc (suc (suc (suc (suc (suc r)))))))) h = absurd (omega arith)

shifted-bits : (n i : ℕ) → shifted (bits n n) i % 256 ≡ n / 256 ^ i % 256
unfolding shifted
shifted-bits n i =
    ap (λ w. w / 256 ^ (i % 8) % 256) (word_at-bits n n (i / 8) (omega arith))
    ∙ low_byte (n / 256 ^ (8 * (i / 8))) (i % 8) (omega arith)
    ∙ ap (λ q. q % 256) (div-div-eq-div-mul n (256 ^ (8 * (i / 8))) (256 ^ (i % 8)))
    ∙ ap (λ q. n / q % 256) (sym (pow-add (8 * (i / 8)) (i % 8)))
    ∙ ap (λ k. n / 256 ^ k % 256) {x = 8 * (i / 8) + i % 8} {y = i} (omega arith)

write_down-bytes : (n k : ℕ) (rest : List ℕ) → write_down (bits n n) k rest ≡ bytes_down k n rest
unfolding write_down bytes_down
write_down-bytes n zero rest = refl
write_down-bytes n (suc k) rest =
    ap (λ b. b ∷ write_down (bits n n) k rest) (shifted-bits n k)
    ∙ ap (λ bs. n / 256 ^ k % 256 ∷ bs) (write_down-bytes n k rest)

bytes_down-one_more :
    (k n : ℕ) (rest : List ℕ) → bytes_down k (n / 256) (n % 256 ∷ rest) ≡ bytes_down (suc k) n rest
unfolding bytes_down
bytes_down-one_more zero n rest =
    ap (λ (b : ℕ). b ∷ rest) {x = n % 256} {y = n / 256 ^ 0 % 256} (omega arith)
bytes_down-one_more (suc k) n rest =
    ap (λ (b : ℕ). b ∷ bytes_down k (n / 256) (n % 256 ∷ rest))
      (ap (λ q. q % 256) (div-div-eq-div-mul n 256 (256 ^ k))
        ∙ ap (λ q. n / q % 256) (mul_comm 256 (256 ^ k) ∙ sym (pow-suc 256 k)))
    ∙ ap (λ bs. n / 256 ^ suc k % 256 ∷ bs) (bytes_down-one_more k n rest)

be_bytes-down : (k n : ℕ) (rest : List ℕ) → be_bytes k n rest ≡ bytes_down k n rest
unfolding be_bytes bytes_down
be_bytes-down zero n rest = refl
be_bytes-down (suc k) n rest =
    be_bytes-down k (n / 256) (n % 256 ∷ rest) ∙ bytes_down-one_more k n rest

-- The bytes that MarshalSia writes.
pub write_down-be_bytes :
    (n k : ℕ) (rest : List ℕ) → write_down (bits n n) k rest ≡ be_bytes k n [] ++ rest
write_down-be_bytes n k rest =
    write_down-bytes n k rest ∙ sym (be_bytes-down k n rest) ∙ be_bytes-append k n [] rest

-- Both loops count the same bytes, the least number of them that holds a number.
pub zeros-least :
    (n : ℕ)
    → (zeros (reverse (bits n n)) (length (bits n n) * 8) ≡ byte_count n)
      × (n < 256 ^ byte_count n)
      × (0 < n → 256 ^ byte_count n ≤ 256 * n)
unfolding zeros seek bits
zeros-least zero = (refl, omega arith, λ h. absurd (omega arith))
zeros-least (suc n) =
    let (size, i) = positive-IsSize (suc n) (omega arith) in
    let same = i.sought in
    (
      i.counted ∙ sym same,
      subst (λ k. suc n < 256 ^ k) (sym same) i.holds,
      λ h. subst (λ k. 256 ^ k ≤ 256 * suc n) (sym same) i.least,
    )
