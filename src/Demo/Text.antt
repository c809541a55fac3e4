-- ===== src/Demo/Text.antt =====
-- What zisk_demo/block_execution_demo.cpp prints of addresses and numbers, as characters of ASCII,
-- and how it is read back.
use metaru.Common.{
  drop, ℕ, ◌+◌, ◌*◌, ◌/◌, ◌%◌, ◌<◌, ◌≡◌, refl, List, [], ◌∷◌, ◌==◌, if◌then◌else◌, length, arith,
  inl, inr, Bool-cases,
}
use metaru.Word.{Word, IsBytes, value, value_from, u64_to_word}
use metaru.Common.Hex.{hex_digit, hex_char, hex_value, hex_digit-hex_char}
use metaru.Demo.{scan_byte, set_address, set_u256}

-- %02x of each byte in turn.
unfoldable pub print_bytes : List ℕ → List ℕ
print_bytes [] = []
print_bytes (b ∷ bytes) = hex_char (b / 16) ∷ (hex_char (b % 16) ∷ print_bytes bytes)

-- What print_address prints behind the label: "0x", then the bytes.
unfoldable pub print_address : List ℕ → List ℕ
unfolding print_bytes
print_address address = 48 ∷ (120 ∷ print_bytes address)

-- The loop of print_u256, which starts at the first byte that is not 0; "00" where there is none.
unfoldable pub print_started : Word → List ℕ
unfolding print_bytes
print_started [] = 48 ∷ 48 ∷ []
print_started (b ∷ bytes) =
    let rest = print_started bytes in if b == 0 then rest else print_bytes (b ∷ bytes)

-- What print_u256 prints behind the label.
unfoldable pub print_u256 : Word → List ℕ
unfolding print_started
print_u256 w = 48 ∷ (120 ∷ print_started w)

scan_byte-print : (b old : ℕ) → b < 256 → scan_byte (hex_char (b / 16)) (hex_char (b % 16)) old ≡ b
unfolding scan_byte
scan_byte-print b old below =
    rw
      (
        scan_byte,
        hex_digit-hex_char (b / 16) (omega arith),
        hex_digit-hex_char (b % 16) (omega arith),
      )
      (omega arith)

set_address-print_bytes :
    (address dest : List ℕ)
    → IsBytes address
    → length dest ≡ length address
    → set_address dest (print_bytes address) ≡ address
unfolding set_address print_bytes
set_address-print_bytes [] [] bytes same = refl
set_address-print_bytes [] (old ∷ dest) bytes same = absurd (omega arith)
set_address-print_bytes (b ∷ address) [] bytes same = absurd (omega arith)
set_address-print_bytes (b ∷ address) (old ∷ dest) bytes same =
    rw (scan_byte-print b old bytes.0, set_address-print_bytes address dest bytes.1 (omega arith))
      refl

-- Behind the "0x" that is printed in front, an address as it is printed is read back as it was,
-- whatever the destination of the same length holds.
pub set_address-print_address :
    (address dest : List ℕ)
    → IsBytes address
    → length dest ≡ length address
    → set_address dest (drop 2 (print_address address)) ≡ address
unfolding print_address
set_address-print_address = set_address-print_bytes

hex_value-print_bytes :
    (acc : ℕ) (bytes : List ℕ)
    → IsBytes bytes
    → hex_value acc (print_bytes bytes) ≡ value_from acc bytes
unfolding print_bytes value_from hex_value
hex_value-print_bytes acc [] h = refl
hex_value-print_bytes acc (b ∷ bytes) h =
    let joined : (acc * 16 + b / 16) * 16 + b % 16 ≡ acc * 256 + b = omega arith in
    rw
      (
        hex_value,
        hex_digit-hex_char (b / 16) (omega arith),
        hex_digit-hex_char (b % 16) (omega arith),
        joined,
      )
      (hex_value-print_bytes (acc * 256 + b) bytes h.1)

print_started-value : (w : Word) → IsBytes w → hex_value 0 (print_started w) ≡ value w
unfolding print_started value value_from hex_value hex_digit
print_started-value [] h = refl
print_started-value (b ∷ w) h = elim (Bool-cases (b == 0)) [
  | inl none_yet ↦ let e : b ≡ 0 = ground arith in rw e (print_started-value w h.1)
  | inr started ↦ rw started (hex_value-print_bytes 0 (b ∷ w) h)
]

-- What is printed of a number's bytes behind "0x" stands for the number.
print_u256-value : (w : Word) → IsBytes w → hex_value 0 (drop 2 (print_u256 w)) ≡ value w
unfolding print_u256
print_u256-value = print_started-value

-- The demo writes a number into a word as the interpreters do.
pub set_u256-eq-u64_to_word : (v : ℕ) → set_u256 v ≡ u64_to_word v
unfolding set_u256 u64_to_word
set_u256-eq-u64_to_word v =
    let e0 : v / 1 ≡ v = omega arith in
    let e2 : v / 65536 ≡ v / 256 / 256 = omega arith in
    let e3 : v / 16777216 ≡ v / 256 / 256 / 256 = omega arith in
    let e4 : v / 4294967296 ≡ v / 256 / 256 / 256 / 256 = omega arith in
    let e5 : v / 1099511627776 ≡ v / 256 / 256 / 256 / 256 / 256 = omega arith in
    let e6 : v / 281474976710656 ≡ v / 256 / 256 / 256 / 256 / 256 / 256 = omega arith in
    let e7 : v / 72057594037927936 ≡ v / 256 / 256 / 256 / 256 / 256 / 256 / 256 = omega arith in
    rw (set_u256, e0, e2, e3, e4, e5, e6, e7) refl
