-- ===== src/Types/Words.antt =====
-- The words of a big.Int, and the two loops over them of types/encoding.go: the one of MarshalSiaSize,
-- and the one of MarshalSia, which looks for the first byte that is not zero, and writes the bytes.
pub mod Least
use hyperspace.Common.{
  ℕ, zero, suc, ◌-◌, ◌*◌, ◌/◌, ◌%◌, ◌^◌, List, [], ◌∷◌, length, get_elem?, Bool, true, false, none,
  some, ◌==◌, if◌then◌else◌,
}

-- Bits: words of 64 bits, the least first, the last of them not zero. The fuel n is enough.
unfoldable pub bits : ℕ → ℕ → List ℕ
bits zero n = []
bits (suc fuel) n = elim (n == 0) [ true ↦ [] | false ↦ n % 2 ^ 64 ∷ bits fuel (n / 2 ^ 64) ]

-- The loop over the bytes of a word, from byte j - 1 down: the size, and whether it breaks off.
unfoldable pub zeros_in_word : ℕ → ℕ → ℕ → Bool × ℕ
zeros_in_word zero word size = (false, size)
zeros_in_word (suc j) word size =
    let rest = zeros_in_word j word (size - 1) in if word / 256 ^ j == 0 then rest else (true, size)

-- The loop over the words, from the last one.
unfoldable pub zeros : List ℕ → ℕ → ℕ
unfolding zeros_in_word
zeros [] size = size
zeros (word ∷ words) size =
    let (broken, left) = zeros_in_word 8 word size in
    let rest = zeros words left in if broken then left else rest

abbrev pub word_at : List ℕ → ℕ → ℕ
word_at words i = elim (get_elem? words i) [ none ↦ 0 | some word ↦ word ]

-- `bits[i/_S] >> (uint(i%_S) * 8)`
unfoldable pub shifted : List ℕ → ℕ → ℕ
shifted words i = word_at words (i / 8) / 256 ^ (i % 8)

-- The number of bytes, where byte i - 1 is the first that is looked at.
unfoldable pub seek : List ℕ → ℕ → ℕ
unfolding shifted
seek words zero = 0
seek words (suc i) = let rest = seek words i in if shifted words i == 0 then rest else suc i

-- The bytes from i - 1 down, in front of what is written after them.
unfoldable pub write_down : List ℕ → ℕ → List ℕ → List ℕ
unfolding shifted
write_down words zero rest = rest
write_down words (suc i) rest = shifted words i % 256 ∷ write_down words i rest

-- What MarshalSia puts in front of the bytes of a number: how many they are.
abbrev pub byte_count : ℕ → ℕ
byte_count n = seek (bits n n) (length (bits n n) * 8)
