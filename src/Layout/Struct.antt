-- ===== src/Layout/Struct.antt =====
-- The structs that lie in shared memory (include/message_frame_memory.h, include/account_witness.h,
-- include/storage_memory.h, include/tracer_callback.h): their fields in order, placed as the compiler
-- does, each at the next multiple of its alignment.
use metaru.Common.{
  ℕ, zero, suc, ◌+◌, ◌-◌, ◌*◌, ◌/◌, ◌%◌, ◌≤◌, ◌<◌, ◌≡◌, refl, List, [], ◌∷◌, length, get_or, arith,
  All, replicate, ◌++◌,
}
use native.Mathlib.Nat.{mod-add-div', mod-lt, mul-mod_left}

-- The bytes of a field, and its alignment.
pub record Field : Type 0 where
  pub bytes : ℕ
  pub alignment : ℕ

abbrev number : ℕ → Field
number n = record { bytes = n; alignment = n }

-- uint8_t name[n]
abbrev array : ℕ → Field
array n = record { bytes = n; alignment = 1 }

-- The next multiple of `alignment` from `at` on.
abbrev pub align : ℕ → ℕ → ℕ
align at alignment = (at + alignment - 1) / alignment * alignment

-- The offset of each field, from `at` on.
unfoldable pub offsets_from : ℕ → List Field → List ℕ
offsets_from at [] = []
offsets_from at (x ∷ xs) =
    let offset = align at x.alignment in offset ∷ offsets_from (offset + x.bytes) xs

-- Where the last field ends.
unfoldable pub end_from : ℕ → List Field → ℕ
end_from at [] = at
end_from at (x ∷ xs) = end_from (align at x.alignment + x.bytes) xs

-- sizeof, for a struct of the given alignment.
abbrev pub size_of : ℕ → List Field → ℕ
size_of alignment fields = align (end_from 0 fields) alignment

-- struct MessageFrameMemory, aligned to 64.
abbrev pub message_frame_fields : List Field
message_frame_fields =
    number 4
    ∷ number 4
    ∷ number 8
    ∷ number 8
    ∷ (replicate 6 (number 4)
        ++ (replicate 10 (number 8)
            ++ (replicate 9 (number 4)
                ++ (replicate 5 (array 20)
                    ++ (replicate 3 (array 32) ++ (number 4 ∷ array 16 ∷ []))))))

abbrev pub account_fields : List Field
account_fields =
    array 20 ∷ array 32 ∷ number 8 ∷ array 32 ∷ number 4 ∷ number 8 ∷ array 1 ∷ array 15 ∷ []

abbrev pub storage_fields : List Field
storage_fields = array 20 ∷ array 32 ∷ array 32 ∷ array 32 ∷ array 1 ∷ array 7 ∷ []

-- struct TransactionWitness
abbrev pub witness_fields : List Field
witness_fields =
    number 4
    ∷ number 4
    ∷ number 8
    ∷ number 4
    ∷ number 8
    ∷ number 8
    ∷ number 4
    ∷ number 4
    ∷ number 8
    ∷ []

abbrev pub result_fields : List Field
result_fields = number 8 ∷ number 4 ∷ number 4 ∷ []

frame_end : end_from 0 message_frame_fields ≡ 380
unfolding end_from
frame_end = refl

-- The static assertions.
frame_assertions :
    (size_of 64 message_frame_fields ≡ 384)
    × (get_or (offsets_from 0 message_frame_fields) 0 0 ≡ 0)
    × (get_or (offsets_from 0 message_frame_fields) 10 0 ≡ 48)
    × (get_or (offsets_from 0 message_frame_fields) 20 0 ≡ 128)
    × (get_or (offsets_from 0 message_frame_fields) 29 0 ≡ 164)
    × (get_or (offsets_from 0 message_frame_fields) 34 0 ≡ 264)
    × (get_or (offsets_from 0 message_frame_fields) 37 0 ≡ 360)
unfolding offsets_from end_from
frame_assertions = (refl, refl, refl, refl, refl, refl, refl)

entry_assertions :
    (size_of 8 account_fields ≡ 128)
    × (size_of 1 storage_fields ≡ 124)
    × (size_of 8 witness_fields ≡ 56)
unfolding end_from
entry_assertions = (refl, refl, refl)

align_lem : (at a : ℕ) → 0 < a → (at ≤ align at a) × (align at a % a ≡ 0)
align_lem at a positive =
    let whole : (at + a - 1) % a + (at + a - 1) / a * a ≡ at + a - 1 =
      mod-add-div' (at + a - 1) a in
    let rest : (at + a - 1) % a < a = mod-lt (at + a - 1) positive in
    (omega arith, mul-mod_left ((at + a - 1) / a) a)

abbrev pub no_field : Field
no_field = record { bytes = 0; alignment = 1 }

end_from-up :
    (at : ℕ) (fields : List Field) → All (λ x. 0 < x.alignment) fields → at ≤ end_from at fields
unfolding end_from
end_from-up at [] positive = omega arith
end_from-up at (x ∷ xs) positive =
    let up = (align_lem at x.alignment positive.0).0 in
    omega (arith, end_from-up (align at x.alignment + x.bytes) xs positive.1)

-- Each field is aligned, and none begins before `at` or ends behind `end_from`.
placed :
    (at i : ℕ) (fields : List Field)
    → All (λ x. 0 < x.alignment) fields
    → i < length fields
    → (at ≤ get_or (offsets_from at fields) i 0)
      × (get_or (offsets_from at fields) i 0 % (get_or fields i no_field).alignment ≡ 0)
      × (get_or (offsets_from at fields) i 0 + (get_or fields i no_field).bytes
          ≤ end_from at fields)
unfolding offsets_from end_from
placed at i [] positive below = absurd (omega arith)
placed at zero (x ∷ xs) positive below =
    let (up, whole) = align_lem at x.alignment positive.0 in
    (up, whole, end_from-up (align at x.alignment + x.bytes) xs positive.1)
placed at (suc i) (x ∷ xs) positive below =
    let (up, whole) = align_lem at x.alignment positive.0 in
    let later = placed (align at x.alignment + x.bytes) i xs positive.1 (omega arith) in
    (omega (arith, later.0), later.1, later.2)

apart :
    (at i j : ℕ) (fields : List Field)
    → All (λ x. 0 < x.alignment) fields
    → i < j
    → j < length fields
    → get_or (offsets_from at fields) i 0 + (get_or fields i no_field).bytes
      ≤ get_or (offsets_from at fields) j 0
unfolding offsets_from
apart at i j [] positive before below = absurd (omega arith)
apart at i zero (x ∷ xs) positive before below = absurd (omega arith)
apart at zero (suc j) (x ∷ xs) positive before below =
    (placed (align at x.alignment + x.bytes) j xs positive.1 (omega arith)).0
apart at (suc i) (suc j) (x ∷ xs) positive before below =
    apart (align at x.alignment + x.bytes) i j xs positive.1 (omega arith) (omega arith)

-- The fields of the frame: each is aligned, ends before the next one begins, and lies in the 384 bytes
-- in front of the first region.
message_frame_fields-apart :
    (i j : ℕ)
    → i < j
    → j < length message_frame_fields
    → let offsets = offsets_from 0 message_frame_fields in
      (get_or offsets i 0 % (get_or message_frame_fields i no_field).alignment ≡ 0)
      × (get_or offsets i 0 + (get_or message_frame_fields i no_field).bytes ≤ get_or offsets j 0)
      × (get_or offsets j 0 + (get_or message_frame_fields j no_field).bytes ≤ 384)
message_frame_fields-apart i j before below =
    let positive : All (λ x. 0 < x.alignment) message_frame_fields = omega arith in
    let here = placed 0 i message_frame_fields positive (omega arith) in
    let there = placed 0 j message_frame_fields positive below in
    (
      here.1,
      apart 0 i j message_frame_fields positive before below,
      omega (arith, there.2, frame_end),
    )
