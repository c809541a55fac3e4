-- ===== src/Native/Laws.antt =====
-- Gas and memory of NativeMessageFrame (include/native_message_frame.h).
use metaru.Common.{◌+◌, ◌*◌, ◌≡◌, ◌≤◌, ◌<◌, ◌⊎◌, inl, inr, refl, some, arith, Bool-cases}
use metaru.Common.Int.{ℤ, pos, ◌-ℤ◌, ◌+ℤ◌, ◌≤ℤ◌, neg_part, ltb_ℤ, int_laws}
use metaru.Enums.{ExceptionalHaltReason}
use metaru.Native.{
  NativeMessageFrame, decrement_remaining_gas, increment_remaining_gas, memory_word_size,
  memory_byte_size,
}

-- Gas is taken in full even where there is not enough: then what remains is negative, and the reason of
-- the halt is INSUFFICIENT_GAS; else the reason stays. Returning the amount restores the gas, and leaves
-- the reason.
decrement_remaining_gas_lem :
    (f : NativeMessageFrame) (amount : ℤ)
    → let (remaining, after) = decrement_remaining_gas amount f in
      (after.gas_remaining ≡ remaining)
      × (((pos 0 ≤ℤ remaining) × (after.halt_reason ≡ f.halt_reason))
          ⊎ ((0 < neg_part remaining)
              × (after.halt_reason ≡ some ExceptionalHaltReason.insufficient_gas)))
      × ((increment_remaining_gas amount after).gas_remaining ≡ f.gas_remaining)
      × ((increment_remaining_gas amount after).halt_reason ≡ after.halt_reason)
unfolding decrement_remaining_gas increment_remaining_gas
decrement_remaining_gas_lem f amount =
    let back : f.gas_remaining -ℤ amount +ℤ amount ≡ f.gas_remaining = grind int_laws in
    elim (Bool-cases (ltb_ℤ (f.gas_remaining -ℤ amount) (pos 0))) [
      | inl low ↦ rw low (refl, inr (ground arith, refl), back, refl)
      | inr enough ↦ rw enough (refl, inl (ground arith, refl), back, refl)
    ]

-- Memory is counted in words, the last of which may be begun.
pub memory_word_size_lem :
    (f : NativeMessageFrame)
    → (memory_byte_size f ≤ memory_word_size f * 32)
      × (memory_word_size f * 32 < memory_byte_size f + 32)
unfolding memory_word_size
memory_word_size_lem f = omega arith
