-- ===== src/Common/Hex.antt =====
-- Hexadecimal digits, as characters of ASCII.
use Prim.Native.Nat.{ℕ, zero, suc, ◌+◌, ◌-◌, ◌*◌, ◌/◌, ◌%◌, ◌<◌}
use mathlib.Core.Path.{◌≡◌, refl, ◌∙◌, ap}
use mathlib.Core.Option.{Option, none, some}
use mathlib.Core.List.{List, [], ◌∷◌}
use native.Mathlib.Omega.{arith}
use metaru.Common.Tests.{ltb, leb, if◌then◌else◌}

-- The value of a digit.
unfoldable pub hex_digit : ℕ → Option ℕ
hex_digit c =
    if ltb c 48
    then none
    else if leb c 57
    then some (c - 48)
    else if ltb c 65
    then none
    else if leb c 70
    then some (c - 55)
    else if ltb c 97
    then none
    else if leb c 102
    then some (c - 87)
    else none

-- The digit of a number below 16, in lower case.
abbrev pub hex_char : ℕ → ℕ
hex_char d = if ltb d 10 then 48 + d else 87 + d

-- The number that a text of digits stands for, after `acc`.
unfoldable pub hex_value : ℕ → List ℕ → ℕ
unfolding hex_digit
hex_value acc [] = acc
hex_value acc (c ∷ text) = elim (hex_digit c) [
  | none ↦ acc
  | some d ↦ hex_value (acc * 16 + d) text
]

-- `n` digits of a number, before `text`.
unfoldable pub hex_out : ℕ → ℕ → List ℕ → List ℕ
hex_out zero v text = text
hex_out (suc n) v text = hex_out n (v / 16) (hex_char (v % 16) ∷ text)

pub hex_digit-hex_char : (d : ℕ) → d < 16 → hex_digit (hex_char d) ≡ some d
unfolding hex_digit
hex_digit-hex_char d below = ground arith

-- acc * 16 ^ n
abbrev pub scale : ℕ → ℕ → ℕ
scale zero acc = acc
scale (suc n) acc = scale n acc * 16

-- A number of at most `n` digits.
abbrev pub Fits : ℕ → ℕ → Type 0
Fits zero v = v ≡ 0
Fits (suc n) v = Fits n (v / 16)

pub hex_value-hex_out :
    (n v acc : ℕ) (text : List ℕ)
    → Fits n v
    → hex_value acc (hex_out n v text) ≡ hex_value (scale n acc + v) text
unfolding hex_value hex_out
hex_value-hex_out zero v acc text h = ap (λ a. hex_value a text) (omega arith)
hex_value-hex_out (suc n) v acc text h =
    let joined : (scale n acc + v / 16) * 16 + v % 16 ≡ scale n acc * 16 + v = omega arith in
    hex_value-hex_out n (v / 16) acc (hex_char (v % 16) ∷ text) h
    ∙ rw (hex_value, hex_digit-hex_char (v % 16) (omega arith), joined) refl
