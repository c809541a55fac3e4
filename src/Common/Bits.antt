-- ===== src/Common/Bits.antt =====
-- Bit operations on bytes, by a table of all pairs.
use Prim.Native.Nat.{ℕ, zero, suc, ◌<◌, bit_and, bit_or, bit_xor}
use mathlib.Core.Path.{◌≡◌, refl}
use mathlib.Core.Bool.{Bool, true, false}
use native.Mathlib.Omega.{arith}
use metaru.Common.Tests.{ltb, if◌then◌else◌}

-- Row `a` of an operation's table, up to column `k`, holds bytes.
row : (ℕ → ℕ → ℕ) → ℕ → ℕ → Bool
row op a zero = true
row op a (suc k) = let rest = row op a k in if ltb (op a k) 256 then rest else false

-- The rows up to `n` do.
rows : (ℕ → ℕ → ℕ) → ℕ → Bool
rows op zero = true
rows op (suc n) = let rest = rows op n in if row op n 256 then rest else false

module _ (op : ℕ → ℕ → ℕ) where
  row-lt : (a k b : ℕ) → row op a k ≡ true → b < k → op a b < 256
  unfolding row
  row-lt a zero b whole below = absurd (omega arith)
  row-lt a (suc k) b whole below = ground (arith, row-lt a k b)

  rows-row : (n a : ℕ) → rows op n ≡ true → a < n → row op a 256 ≡ true
  unfolding rows
  rows-row zero a whole below = absurd (omega arith)
  rows-row (suc n) a whole below = ground (arith, rows-row n a)

  table-lt : rows op 256 ≡ true → (a b : ℕ) → a < 256 → b < 256 → op a b < 256
  table-lt whole a b left right = row-lt a 256 b (rows-row 256 a whole left) right

and_table : rows bit_and 256 ≡ true
unfolding rows row
and_table = refl

or_table : rows bit_or 256 ≡ true
unfolding rows row
or_table = refl

xor_table : rows bit_xor 256 ≡ true
unfolding rows row
xor_table = refl

pub bit_and-lt : (a b : ℕ) → a < 256 → b < 256 → bit_and a b < 256
bit_and-lt = table-lt bit_and and_table

pub bit_or-lt : (a b : ℕ) → a < 256 → b < 256 → bit_or a b < 256
bit_or-lt = table-lt bit_or or_table

pub bit_xor-lt : (a b : ℕ) → a < 256 → b < 256 → bit_xor a b < 256
bit_xor-lt = table-lt bit_xor xor_table
