-- ===== src/Uint256.antt =====
-- src/types/uint256.cpp: 256-bit numbers as four 64-bit limbs. The operations that the source leaves
-- to be done answer zero there, and here.
pub mod Laws
pub mod Hex
use metaru.Common.{
  ℕ, ◌+◌, ◌-◌, ◌*◌, ◌^◌, ◌<◌, bit_and, bit_or, bit_xor, Bool, true, false, not, Option, none, some,
  List, [], ◌∷◌, replicate, length, ◌==◌, ltb, if◌then◌else◌, ◌&&◌,
}
use metaru.Common.Hex.{hex_out}

-- UInt256::Impl; limb_0 is the least significant.
pub record Uint256 : Type 0 where
  pub limb_0 : ℕ
  pub limb_1 : ℕ
  pub limb_2 : ℕ
  pub limb_3 : ℕ

abbrev pub limbs : ℕ → ℕ → ℕ → ℕ → Uint256
limbs a b c d = record { limb_0 = a; limb_1 = b; limb_2 = c; limb_3 = d }

abbrev pub zero_uint256 : Uint256
zero_uint256 = limbs 0 0 0 0

unfoldable pub from_uint64 : ℕ → Uint256
from_uint64 n = limbs n 0 0 0

-- The constructor from bytes: too many are an exception, and others are not read.
unfoldable pub from_bytes : List ℕ → Option Uint256
from_bytes bytes = if ltb 32 (length bytes) then none else some zero_uint256

abbrev pub limbwise : (ℕ → ℕ → ℕ) → Uint256 → Uint256 → Uint256
limbwise op x y =
    limbs (op x.limb_0 y.limb_0) (op x.limb_1 y.limb_1) (op x.limb_2 y.limb_2)
      (op x.limb_3 y.limb_3)

unfoldable pub and_uint256 : Uint256 → Uint256 → Uint256
and_uint256 = limbwise bit_and

unfoldable pub or_uint256 : Uint256 → Uint256 → Uint256
or_uint256 = limbwise bit_or

unfoldable pub xor_uint256 : Uint256 → Uint256 → Uint256
xor_uint256 = limbwise bit_xor

-- ~, in uint64_t
abbrev pub not_limb : ℕ → ℕ
not_limb n = 2 ^ 64 - 1 - n

unfoldable pub not_uint256 : Uint256 → Uint256
not_uint256 x =
    limbs (not_limb x.limb_0) (not_limb x.limb_1) (not_limb x.limb_2) (not_limb x.limb_3)

-- operator==
unfoldable pub equal : Uint256 → Uint256 → Bool
equal x y =
    x.limb_0 == y.limb_0 && x.limb_1 == y.limb_1 && x.limb_2 == y.limb_2 && x.limb_3 == y.limb_3

-- A turn of the loop of operator<, over the answer of the turns that follow.
abbrev pub turn : ℕ → ℕ → Bool → Bool
turn a b rest = if ltb a b then true else if ltb b a then false else rest

-- operator<
unfoldable pub less : Uint256 → Uint256 → Bool
less x y =
    turn x.limb_3 y.limb_3
      (turn x.limb_2 y.limb_2 (turn x.limb_1 y.limb_1 (turn x.limb_0 y.limb_0 false)))

-- operator>, operator<=, operator>=, operator!=
unfoldable pub greater : Uint256 → Uint256 → Bool
unfolding less
greater x y = less y x

unfoldable pub less_equal : Uint256 → Uint256 → Bool
unfolding greater
less_equal x y = not (greater x y)

unfoldable pub greater_equal : Uint256 → Uint256 → Bool
unfolding less
greater_equal x y = not (less x y)

unfoldable pub differ : Uint256 → Uint256 → Bool
unfolding equal
differ x y = not (equal x y)

unfoldable pub is_zero_uint256 : Uint256 → Bool
is_zero_uint256 x = x.limb_0 == 0 && x.limb_1 == 0 && x.limb_2 == 0 && x.limb_3 == 0

unfoldable pub to_uint64 : Uint256 → ℕ
to_uint64 x = x.limb_0

-- The operations whose bodies are left to be done: operator+, -, *, /, %, and the two shifts.
unfoldable pub undone : Uint256 → Uint256 → Uint256
undone x y = zero_uint256

unfoldable pub undone_shift : Uint256 → ℕ → Uint256
undone_shift x n = zero_uint256

-- toBytes and toBytes32 answer 32 zero bytes, toString "0".
unfoldable pub to_bytes : Uint256 → List ℕ
to_bytes x = replicate 32 0

unfoldable pub to_text : Uint256 → List ℕ
to_text x = 48 ∷ []

-- "0x", then 16 digits of each limb, from the most significant.
unfoldable pub to_hex_string : Uint256 → List ℕ
to_hex_string x =
    48
    ∷ (120
        ∷ hex_out 16 x.limb_3 (hex_out 16 x.limb_2 (hex_out 16 x.limb_1 (hex_out 16 x.limb_0 []))))
