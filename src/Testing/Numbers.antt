-- ===== src/Testing/Numbers.antt =====
-- The properties of 256-bit numbers at concrete limbs.
use metaru.Common.{ℕ, List, [], ◌∷◌, length, refl, ◌<◌, ◌≤◌, ◌≡◌, ◌≢◌, ◌↔◌, true, arith}
use metaru.Uint256.{
  Uint256, limbs, less, greater, less_equal, greater_equal, equal, differ, to_hex_string,
}
use metaru.Uint256.Laws.{IsUint256, number, compare_iff}
use metaru.Uint256.Hex.{to_hex_string_lem}
use metaru.Common.Hex.{hex_value, hex_out}

abbrev small_limbs : Uint256
small_limbs = limbs 7 0 0 1

abbrev large_limbs : Uint256
large_limbs = limbs 3 9 0 1

small-IsUint256 : IsUint256 small_limbs
small-IsUint256 = omega arith

large-IsUint256 : IsUint256 large_limbs
large-IsUint256 = omega arith

compare_iff_example :
    ((less small_limbs large_limbs ≡ true) ↔ (number small_limbs < number large_limbs))
    × ((greater small_limbs large_limbs ≡ true) ↔ (number large_limbs < number small_limbs))
    × ((less_equal small_limbs large_limbs ≡ true) ↔ (number small_limbs ≤ number large_limbs))
    × ((greater_equal small_limbs large_limbs ≡ true) ↔ (number large_limbs ≤ number small_limbs))
    × ((equal small_limbs large_limbs ≡ true) ↔ (number small_limbs ≡ number large_limbs))
    × ((differ small_limbs large_limbs ≡ true) ↔ (number small_limbs ≢ number large_limbs))
compare_iff_example = compare_iff small_limbs large_limbs small-IsUint256 large-IsUint256

abbrev written : List ℕ
written = 48 ∷ (120 ∷ hex_out 16 1 (hex_out 16 0 (hex_out 16 0 (hex_out 16 7 []))))

to_hex_string_lem_example :
    (digits : List ℕ) × (to_hex_string small_limbs ≡ 48 ∷ (120 ∷ digits))
    × (length digits ≡ 64)
    × (hex_value 0 digits ≡ number small_limbs)
to_hex_string_lem_example = to_hex_string_lem small_limbs small-IsUint256

-- A number as it is printed.
writes : to_hex_string small_limbs ≡ written
unfolding to_hex_string
writes = refl
