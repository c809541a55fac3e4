-- ===== src/Common/Digits.antt =====
-- Operations on binary digits are commutative, at every width.
use Prim.Native.Nat.{
  ℕ, zero, suc, ◌+◌, ◌*◌, ◌/◌, ◌%◌, ◌≤◌, min, max, digits, bit_and, bit_or, bit_and-bitwise,
  bit_or-bitwise, bit_xor, bit_xor-bitwise, differ,
}
use mathlib.Core.Path.{◌≡◌, refl, sym}
use native.Mathlib.Omega.{arith}

-- `z b` is what is left once the first number has run out, `f` the operation on two digits.
module _ (z : ℕ → ℕ) (f : ℕ → ℕ → ℕ) (tail : (b : ℕ) → z b ≡ z (b / 2) * 2 + f 0 (b % 2))
    (z_zero : z 0 ≡ 0) (f_comm : (x y : ℕ) → f x y ≡ f y x) where
  digits-zero : (n b : ℕ) → digits z f n 0 b ≡ z b
  digits-zero zero b = refl
  digits-zero (suc n) b = refl

  -- The law for the lowest digit.
  digits_step :
      (n a b : ℕ)
      → a ≤ suc n
      → digits z f (suc n) a b ≡ digits z f n (a / 2) (b / 2) * 2 + f (a % 2) (b % 2)
  digits_step n zero b p = omega (arith, tail b, digits-zero n (b / 2), digits-zero (suc n) b)
  digits_step n (suc a) b p = refl

  digits_right_zero : (n a : ℕ) → a ≤ n → digits z f n a 0 ≡ z a
  digits_right_zero zero zero h = refl
  digits_right_zero zero (suc a) h = absurd (omega arith)
  digits_right_zero (suc n) a h = omega (
    arith,
    digits_step n a 0 h,
    digits_right_zero n (a / 2) (omega arith),
    tail a,
    f_comm (a % 2) 0,
  )

  digits_comm : (n m a b : ℕ) → a ≤ n → b ≤ m → digits z f n a b ≡ digits z f m b a
  digits_comm zero m zero b p q = sym (digits_right_zero m b q)
  digits_comm zero m (suc a) b p q = absurd (omega arith)
  digits_comm (suc n) zero a zero p q = digits_right_zero (suc n) a p
  digits_comm (suc n) zero a (suc b) p q = absurd (omega arith)
  digits_comm (suc n) (suc m) a b p q = omega (
    arith,
    digits_step n a b p,
    digits_step m b a q,
    digits_comm n m (a / 2) (b / 2) (omega arith) (omega arith),
    f_comm (a % 2) (b % 2),
  )

differ-zero : (x : ℕ) → differ x 0 ≡ x
differ-zero zero = refl
differ-zero (suc x) = refl

differ_comm : (x y : ℕ) → differ x y ≡ differ y x
differ_comm zero y = sym (differ-zero y)
differ_comm (suc x) zero = refl
differ_comm (suc x) (suc y) = differ_comm x y

pub bit_and_comm : (a b : ℕ) → bit_and a b ≡ bit_and b a
bit_and_comm a b = omega (
  arith,
  bit_and-bitwise a b,
  bit_and-bitwise b a,
  digits_comm (λ b. zero) min (λ b. omega arith) refl (λ x y. omega arith) a b a b (omega arith)
      (omega arith),
)

pub bit_or_comm : (a b : ℕ) → bit_or a b ≡ bit_or b a
bit_or_comm a b = omega (
  arith,
  bit_or-bitwise a b,
  bit_or-bitwise b a,
  digits_comm (λ b. b) max (λ b. omega arith) refl (λ x y. omega arith) a b a b (omega arith)
      (omega arith),
)

pub bit_xor_comm : (a b : ℕ) → bit_xor a b ≡ bit_xor b a
bit_xor_comm a b = omega (
  arith,
  bit_xor-bitwise a b,
  bit_xor-bitwise b a,
  digits_comm (λ b. b) differ (λ b. omega arith) refl differ_comm a b a b (omega arith)
      (omega arith),
)
