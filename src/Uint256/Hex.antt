-- ===== src/Uint256/Hex.antt =====
-- toHexString of src/types/uint256.cpp.
use metaru.Common.{
  ℕ, zero, suc, ◌/◌, ◌%◌, ◌+◌, ◌^◌, ◌<◌, ◌≡◌, refl, ◌∙◌, ◌∷◌, arith, List, [], length,
}
use metaru.Common.Hex.{hex_char, hex_value, hex_out, hex_value-hex_out, Fits}
use metaru.Uint256.{Uint256, to_hex_string}
use metaru.Uint256.Laws.{IsUint256, number}

limb-Fits : (v : ℕ) → v < 2 ^ 64 → Fits 16 v
limb-Fits v h = omega arith

hex_value-nil : (acc : ℕ) → hex_value acc [] ≡ acc
unfolding hex_value
hex_value-nil acc = refl

length-hex_out : (n v : ℕ) (text : List ℕ) → length (hex_out n v text) ≡ n + length text
unfolding hex_out
length-hex_out zero v text = omega arith
length-hex_out (suc n) v text = omega (arith, length-hex_out n (v / 16) (hex_char (v % 16) ∷ text))

-- The text is "0x" and 64 digits, which stand for the number.
pub to_hex_string_lem :
    (x : Uint256)
    → IsUint256 x
    → (digits : List ℕ) × (to_hex_string x ≡ 48 ∷ (120 ∷ digits))
      × (length digits ≡ 64)
      × (hex_value 0 digits ≡ number x)
unfolding to_hex_string
to_hex_string_lem x h =
    let t1 = hex_out 16 x.limb_0 [] in
    let t2 = hex_out 16 x.limb_1 t1 in
    let t3 = hex_out 16 x.limb_2 t2 in
    (
      hex_out 16 x.limb_3 t3,
      refl,
      omega (
        arith,
        length-hex_out 16 x.limb_3 t3,
        length-hex_out 16 x.limb_2 t2,
        length-hex_out 16 x.limb_1 t1,
        length-hex_out 16 x.limb_0 [],
      ),
      hex_value-hex_out 16 x.limb_3 0 t3 (limb-Fits x.limb_3 h.3)
          ∙ hex_value-hex_out 16 x.limb_2 _ t2 (limb-Fits x.limb_2 h.2)
          ∙ hex_value-hex_out 16 x.limb_1 _ t1 (limb-Fits x.limb_1 h.1)
          ∙ hex_value-hex_out 16 x.limb_0 _ [] (limb-Fits x.limb_0 h.0)
          ∙ hex_value-nil _
          ∙ omega arith,
    )
