-- ===== src/Word.antt =====
-- 256-bit stack items as the code holds them: 32 bytes, most significant first, and the helpers
-- that read and write the low 64 bits of one (src/evm.cpp; the other interpreters repeat them).
pub mod Laws
use metaru.Common.{
  ℕ, zero, suc, ◌+◌, ◌-◌, ◌*◌, ◌/◌, ◌%◌, ◌<◌, ◌≡◌, bit_and, bit_or, bit_xor, Bool, true, false,
  List, [], ◌∷◌, ◌++◌, ◌==◌, ◌&&◌, if◌then◌else◌, take, drop, replicate, length, u64, All, map,
}

abbrev pub Word : Type 0
Word = List ℕ

-- WORD_SIZE
abbrev pub word_size : ℕ
word_size = 32

abbrev pub IsBytes : List ℕ → Type 0
IsBytes = All (λ b. b < 256)

-- 32 bytes.
abbrev pub IsWord : Word → Type 0
IsWord w = (length w ≡ 32) × IsBytes w

-- memset(word, 0, WORD_SIZE)
abbrev pub zero_word : Word
zero_word = replicate word_size 0

-- result = (result << 8) | byte, over the bytes in order. The low byte of the shifted value is 0,
-- so `|` is a sum.
shift_in : ℕ → List ℕ → ℕ
shift_in result [] = result
shift_in result (b ∷ bs) = shift_in (u64 (result * 256) + b) bs

-- The loop over bytes 24 to 31.
unfoldable pub word_to_u64 : Word → ℕ
unfolding shift_in
word_to_u64 w = shift_in 0 (take 8 (drop 24 w))

-- word[i] = value & 0xFF; value >>= 8, for `n` bytes from the last one down; `done` holds the
-- bytes that are written.
shift_out : ℕ → ℕ → List ℕ → List ℕ
shift_out zero value done = done
shift_out (suc n) value done = shift_out n (value / 256) ((value % 256) ∷ done)

unfoldable pub u64_to_word : ℕ → Word
unfolding shift_out
u64_to_word value = replicate 24 0 ++ shift_out 8 value []

unfoldable pub is_zero : Word → Bool
is_zero [] = true
is_zero (b ∷ w) = if b == 0 then is_zero w else false

-- memcmp(a, b, WORD_SIZE) == 0
unfoldable pub same_bytes : Word → Word → Bool
same_bytes [] [] = true
same_bytes (a ∷ v) (b ∷ w) = if a == b then same_bytes v w else false
same_bytes _ _ = false

-- result[i] = op(a[i], b[i])
unfoldable pub zip_bytes : (ℕ → ℕ → ℕ) → Word → Word → Word
zip_bytes op (a ∷ v) (b ∷ w) = op a b ∷ zip_bytes op v w
zip_bytes op _ _ = []

-- result[i] = ~a[i], in uint8_t
unfoldable pub complement : Word → Word
complement = map (λ b. 255 - b)

-- The condition of the `? 1 : 0` results.
abbrev pub flag : Bool → ℕ
flag true = 1
flag false = 0

-- The big-endian number that a run of bytes stands for.
unfoldable pub value_from : ℕ → List ℕ → ℕ
value_from acc [] = acc
value_from acc (b ∷ bs) = value_from (acc * 256 + b) bs

unfoldable pub value : List ℕ → ℕ
unfolding value_from
value = value_from 0
