-- ===== src/Word/Laws.antt =====
-- The 64-bit helpers against the number that a word stands for.
use metaru.Common.{
  map, inl, inr, ℕ, zero, suc, ◌+◌, ◌-◌, ◌*◌, ◌%◌, ◌^◌, ◌<◌, ◌≡◌, refl, ◌∙◌, ap, bit_and, bit_or,
  bit_xor, true, List, [], ◌∷◌, ◌==◌, ◌↔◌, arith, length, take, drop, Bool-cases, ==_iff,
}
use metaru.Common.Digits.{bit_and_comm, bit_or_comm, bit_xor_comm}
use metaru.Common.Bits.{bit_and-lt, bit_or-lt, bit_xor-lt}
use metaru.Word.{
  Word, IsBytes, IsWord, shift_in, word_to_u64, u64_to_word, is_zero, same_bytes, zip_bytes,
  complement, value, value_from, zero_word,
}

-- Reading back what was written.
pub word_to_u64-u64_to_word : (v : ℕ) → v < 2 ^ 64 → word_to_u64 (u64_to_word v) ≡ v
unfolding word_to_u64 u64_to_word
word_to_u64-u64_to_word v h = omega arith

pub u64_to_word-IsWord : (v : ℕ) → IsWord (u64_to_word v)
unfolding u64_to_word
u64_to_word-IsWord v = omega arith

pub value_of_u64_to_word : (v : ℕ) → value (u64_to_word v) ≡ v % 2 ^ 64
unfolding u64_to_word value
value_of_u64_to_word v = omega arith

-- Leading zero bytes add nothing, and a word is zero exactly when its number is.
value_from-pos : (acc : ℕ) (bs : List ℕ) → 0 < acc → 0 < value_from acc bs
unfolding value_from
value_from-pos acc [] h = h
value_from-pos acc (b ∷ bs) h = value_from-pos (acc * 256 + b) bs (omega arith)

is_zero_iff_value_from : (w : Word) → (is_zero w ≡ true) ↔ (value_from 0 w ≡ 0)
unfolding is_zero value_from
is_zero_iff_value_from [] = (λ _. refl, λ _. refl)
is_zero_iff_value_from (b ∷ w) = elim (Bool-cases (b == 0)) [
  | inl z ↦ rw (z, (==_iff b 0).0 z) (is_zero_iff_value_from w)
  | inr nz ↦ rw nz (λ h. cc, λ h. absurd (ground (arith, value_from-pos b w)))
]

pub is_zero_iff : (w : Word) → (is_zero w ≡ true) ↔ (value w ≡ 0)
unfolding value
is_zero_iff w = is_zero_iff_value_from w

-- The low 64 bits of the number: what comes before the last eight bytes is lost.
low_eight :
    (acc : ℕ) (bs : List ℕ)
    → length bs ≡ 8
    → IsBytes bs
    → shift_in 0 (take 8 bs) ≡ value_from acc bs % 2 ^ 64
unfolding shift_in value_from
low_eight acc (a ∷ b ∷ c ∷ d ∷ e ∷ f ∷ g ∷ h ∷ []) l k = omega arith
low_eight acc _ l k = absurd (omega arith)

low_after :
    (n acc : ℕ) (bs : List ℕ)
    → length bs ≡ n + 8
    → IsBytes bs
    → shift_in 0 (take 8 (drop n bs)) ≡ value_from acc bs % 2 ^ 64
unfolding value_from
low_after zero acc bs l k = low_eight acc bs (omega arith) k
low_after (suc n) acc [] l k = absurd (omega arith)
low_after (suc n) acc (b ∷ bs) l k = low_after n (acc * 256 + b) bs (omega arith) k.1

pub word_to_u64-eq-value : (w : Word) → IsWord w → word_to_u64 w ≡ value w % 2 ^ 64
unfolding word_to_u64 value
word_to_u64-eq-value w h = low_after 24 0 w h.0 h.1

-- word_to_u64 of a word is its value modulo 2 ^ 64, and a number below 2 ^ 64 is read back as it was
-- written.
pub word_to_u64_lem :
    (w : Word) (v : ℕ)
    → IsWord w
    → v < 2 ^ 64
    → (word_to_u64 w ≡ value w % 2 ^ 64) × (word_to_u64 (u64_to_word v) ≡ v)
word_to_u64_lem w v p small = (word_to_u64-eq-value w p, word_to_u64-u64_to_word v small)

pub word_to_u64-lt : (w : Word) → IsWord w → word_to_u64 w < 2 ^ 64
word_to_u64-lt w h = omega (arith, word_to_u64-eq-value w h)

-- memcmp decides equality.
pub same_bytes_iff : (v w : Word) → (same_bytes v w ≡ true) ↔ (v ≡ w)
unfolding same_bytes
same_bytes_iff [] [] = (λ _. refl, λ _. refl)
same_bytes_iff [] (b ∷ w) = (λ h. cc, λ h. cc)
same_bytes_iff (a ∷ v) [] = (λ h. cc, λ h. cc)
same_bytes_iff (a ∷ v) (b ∷ w) =
    let ih = same_bytes_iff v w in
    elim (Bool-cases (a == b)) [
      | inl e ↦ (λ h. ground (arith, ih.0), λ h. ground (arith, ih.1))
      | inr n ↦ (λ h. ground arith, λ h. ground arith)
    ]

-- The byte-wise results are words again.
module _ (op : ℕ → ℕ → ℕ) (closed : (a b : ℕ) → a < 256 → b < 256 → op a b < 256) where
  pub length-zip_bytes : (v w : Word) → length v ≡ length w → length (zip_bytes op v w) ≡ length v
  unfolding zip_bytes
  length-zip_bytes [] [] h = refl
  length-zip_bytes [] (b ∷ w) h = absurd (omega arith)
  length-zip_bytes (a ∷ v) [] h = absurd (omega arith)
  length-zip_bytes (a ∷ v) (b ∷ w) h = omega (arith, length-zip_bytes v w (omega arith))

  zip_bytes-IsBytes : (v w : Word) → IsBytes v → IsBytes w → IsBytes (zip_bytes op v w)
  unfolding zip_bytes
  zip_bytes-IsBytes [] w h k = tt
  zip_bytes-IsBytes (a ∷ v) [] h k = tt
  zip_bytes-IsBytes (a ∷ v) (b ∷ w) h k = (closed a b h.0 k.0, zip_bytes-IsBytes v w h.1 k.1)

  pub zip_bytes-IsWord : (v w : Word) → IsWord v → IsWord w → IsWord (zip_bytes op v w)
  zip_bytes-IsWord v w h k =
      (omega (arith, length-zip_bytes v w, h.0, k.0), zip_bytes-IsBytes v w h.1 k.1)

pub and-IsWord : (v w : Word) → IsWord v → IsWord w → IsWord (zip_bytes bit_and v w)
and-IsWord = zip_bytes-IsWord bit_and bit_and-lt

pub or-IsWord : (v w : Word) → IsWord v → IsWord w → IsWord (zip_bytes bit_or v w)
or-IsWord = zip_bytes-IsWord bit_or bit_or-lt

pub xor-IsWord : (v w : Word) → IsWord v → IsWord w → IsWord (zip_bytes bit_xor v w)
xor-IsWord = zip_bytes-IsWord bit_xor bit_xor-lt

complement-IsBytes : (v : Word) → IsBytes (complement v)
unfolding complement
complement-IsBytes [] = tt
complement-IsBytes (a ∷ v) = (omega arith, complement-IsBytes v)

pub length-complement : (v : Word) → length (complement v) ≡ length v
unfolding complement
length-complement [] = refl
length-complement (a ∷ v) = ap suc (length-complement v)

pub complement-IsWord : (v : Word) → IsWord v → IsWord (complement v)
complement-IsWord v h = (length-complement v ∙ h.0, complement-IsBytes v)

-- NOT is 2 ^ 256 - 1 - value.
complement_pair :
    (acc dual top : ℕ) (v : Word)
    → IsBytes v
    → acc + dual ≡ top
    → value_from acc v + value_from dual (complement v) ≡ value_from top (map (λ _. 255) v)
unfolding complement value_from
complement_pair acc dual top [] h e = e
complement_pair acc dual top (b ∷ v) h e =
    complement_pair (acc * 256 + b) (dual * 256 + (255 - b)) (top * 256 + 255) v h.1 (omega arith)

pub zero_word-IsWord : IsWord zero_word
zero_word-IsWord = omega arith

-- A commutative operation on bytes is commutative on words.
zip_bytes_comm :
    (op : ℕ → ℕ → ℕ)
    → ((a b : ℕ) → op a b ≡ op b a)
    → (v w : Word) → zip_bytes op v w ≡ zip_bytes op w v
unfolding zip_bytes
zip_bytes_comm op comm [] [] = refl
zip_bytes_comm op comm [] (b ∷ w) = refl
zip_bytes_comm op comm (a ∷ v) [] = refl
zip_bytes_comm op comm (a ∷ v) (b ∷ w) = rw (comm a b, zip_bytes_comm op comm v w)

pub and_comm : (v w : Word) → zip_bytes bit_and v w ≡ zip_bytes bit_and w v
and_comm = zip_bytes_comm bit_and bit_and_comm

pub or_comm : (v w : Word) → zip_bytes bit_or v w ≡ zip_bytes bit_or w v
or_comm = zip_bytes_comm bit_or bit_or_comm

pub xor_comm : (v w : Word) → zip_bytes bit_xor v w ≡ zip_bytes bit_xor w v
xor_comm = zip_bytes_comm bit_xor bit_xor_comm
