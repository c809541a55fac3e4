-- ===== src/Uint256/Laws.antt =====
-- The operations of src/types/uint256.cpp against the number that the limbs stand for.
use metaru.Common.{ℕ, ◌+◌, ◌-◌, ◌*◌, ◌^◌, ◌%◌, ◌<◌, ◌≤◌, ◌≡◌, ◌≢◌, ◌↔◌, true, arith}
use metaru.Uint256.{
  Uint256, less, greater, less_equal, greater_equal, equal, differ, is_zero_uint256, to_uint64,
  from_uint64, not_uint256,
}

-- Each limb fits 64 bits.
abbrev pub IsUint256 : Uint256 → Type 0
IsUint256 x = (x.limb_0 < 2 ^ 64) × (x.limb_1 < 2 ^ 64) × (x.limb_2 < 2 ^ 64) × (x.limb_3 < 2 ^ 64)

abbrev pub number : Uint256 → ℕ
number x = x.limb_0 + 2 ^ 64 * (x.limb_1 + 2 ^ 64 * (x.limb_2 + 2 ^ 64 * x.limb_3))

less_iff : (x y : Uint256) → IsUint256 x → IsUint256 y → (less x y ≡ true) ↔ (number x < number y)
unfolding less
less_iff x y p q = ground arith

equal_iff :
    (x y : Uint256)
    → IsUint256 x
    → IsUint256 y
    → ((equal x y ≡ true) ↔ (number x ≡ number y)) × ((differ x y ≡ true) ↔ (number x ≢ number y))
unfolding equal differ
equal_iff x y p q = ground arith

-- Of limbs that fit 64 bits, the six comparisons are those of the numbers.
pub compare_iff :
    (x y : Uint256)
    → IsUint256 x
    → IsUint256 y
    → ((less x y ≡ true) ↔ (number x < number y))
      × ((greater x y ≡ true) ↔ (number y < number x))
      × ((less_equal x y ≡ true) ↔ (number x ≤ number y))
      × ((greater_equal x y ≡ true) ↔ (number y ≤ number x))
      × ((equal x y ≡ true) ↔ (number x ≡ number y))
      × ((differ x y ≡ true) ↔ (number x ≢ number y))
unfolding greater less_equal greater_equal
compare_iff x y p q =
    let up = less_iff x y p q in
    let down = less_iff y x q p in
    let (same, other) = equal_iff x y p q in (up, down, ground arith, ground arith, same, other)

-- The complement of limbs that fit 64 bits is 2 ^ 256 - 1 less the number, and fits too.
pub not_uint256_lem :
    (x : Uint256)
    → IsUint256 x
    → (number (not_uint256 x) + number x ≡ 2 ^ 256 - 1) × IsUint256 (not_uint256 x)
unfolding not_uint256
not_uint256_lem x p = omega arith

-- A number below 2 ^ 64 is read back as it was written; what is read of others is the number modulo
-- 2 ^ 64, and the test for zero is that of the number.
pub to_uint64_lem :
    (x : Uint256) (n : ℕ)
    → IsUint256 x
    → n < 2 ^ 64
    → (to_uint64 x ≡ number x % 2 ^ 64)
      × ((is_zero_uint256 x ≡ true) ↔ (number x ≡ 0))
      × (number (from_uint64 n) ≡ n)
      × (to_uint64 (from_uint64 n) ≡ n)
unfolding to_uint64 is_zero_uint256 from_uint64
to_uint64_lem x n p h = ground arith
