-- ===== src/Evm/Agree.antt =====
-- The operations of src/evm.cpp against the handlers of src/evm_jumptable.cpp.
use metaru.Common.{
  ℕ, ◌≡◌, refl, sym, ap, fun_ext, ◌∙◌, Option, none, some, arith, ◌==◌, if◌then◌else◌, Bool-cases,
  inl, inr, ◌/◌, ◌%◌,
}
use metaru.Word.{Word, word_to_u64, u64_to_word, zero_word}
use metaru.Frame.{Frame}
use metaru.Instr.{Instr}
use metaru.Evm.Ops
use metaru.Evm.Ops.{on_u64}
use metaru.Jumptable.Ops.{OpResult, result}
use metaru.Jumptable.Ops as Table
use metaru.Evm.Run
use metaru.Jumptable.Run as TableRun

-- A handler's answer without its price.
abbrev pub unpriced : Option OpResult × Frame → Option ℕ × Frame
unpriced (some r, f) = (some r.pc_increment, f)
unpriced (none, f) = (none, f)

-- Neither a jump nor one of the operations that only one interpreter has.
abbrev pub IsShared : Instr → Type 0
IsShared Instr.jump = ⊥
IsShared Instr.jumpi = ⊥
IsShared Instr.msize = ⊥
IsShared Instr.sload = ⊥
IsShared Instr.sstore = ⊥
IsShared Instr.stub = ⊥
IsShared Instr.invalid = ⊥
IsShared _ = Unit

module _ (f : Frame) where
  binary-unpriced :
      (compute : Word → Word → Word) (cost : ℕ)
      → unpriced (Table.binary compute cost f) ≡ Ops.binary compute f
  unfolding Table.binary Ops.binary
  binary-unpriced compute cost = ground arith

  unary-unpriced :
      (compute : Word → Word) (cost : ℕ)
      → unpriced (Table.unary compute cost f) ≡ Ops.unary compute f
  unfolding Table.unary Ops.unary
  unary-unpriced compute cost = ground arith

  push_number-unpriced :
      (number : Frame → ℕ) → unpriced (Table.push_number number f) ≡ Ops.push_number number f
  unfolding Table.push_number Ops.push_number
  push_number-unpriced number = ground arith

  op_mload-unpriced : unpriced (Table.op_mload f) ≡ Ops.op_mload f
  unfolding Table.op_mload Ops.op_mload
  op_mload-unpriced = ground arith

  op_mstore-unpriced : unpriced (Table.op_mstore f) ≡ Ops.op_mstore f
  unfolding Table.op_mstore Ops.op_mstore
  op_mstore-unpriced = ground arith

  op_mstore8-unpriced : unpriced (Table.op_mstore8 f) ≡ Ops.op_mstore8 f
  unfolding Table.op_mstore8 Ops.op_mstore8
  op_mstore8-unpriced = ground arith

  op_push-unpriced : (n : ℕ) → unpriced (Table.op_push_n n f) ≡ Ops.op_push n f
  unfolding Table.op_push_n Ops.op_push
  op_push-unpriced n = ground arith

  op_dup-unpriced : (n : ℕ) → unpriced (Table.op_dup_n n f) ≡ Ops.op_dup n f
  unfolding Table.op_dup_n Ops.op_dup
  op_dup-unpriced n = ground arith

  op_swap-unpriced : (n : ℕ) → unpriced (Table.op_swap_n n f) ≡ Ops.op_swap n f
  unfolding Table.op_swap_n Ops.op_swap
  op_swap-unpriced n = ground arith

-- A quotient by zero is the zero word.
guarded :
    (compute : ℕ → ℕ → ℕ) (a b : Word)
    → on_u64 (λ x y. if y == 0 then 0 else compute x y) a b ≡ (
        if word_to_u64 b == 0
        then zero_word
        else u64_to_word (compute (word_to_u64 a) (word_to_u64 b)))
unfolding u64_to_word
guarded compute a b = elim (Bool-cases (word_to_u64 b == 0)) [
  | inl z ↦ rw z refl
  | inr nz ↦ rw nz refl
]

quotient-unpriced :
    (compute : ℕ → ℕ → ℕ) (f : Frame)
    → unpriced (Table.binary (on_u64 (λ x y. if y == 0 then 0 else compute x y)) 5 f)
      ≡ Ops.binary
          (λ a b.
            if word_to_u64 b == 0
            then zero_word
            else u64_to_word (compute (word_to_u64 a) (word_to_u64 b)))
          f
quotient-unpriced compute f =
    binary-unpriced f (on_u64 (λ x y. if y == 0 then 0 else compute x y)) 5
    ∙ ap (λ c. Ops.binary c f) (fun_ext (λ a. fun_ext (λ b. guarded compute a b)))

-- On every instruction that both have and that is no jump, the switch and the table do the same to
-- the frame, succeed alike, and advance pc alike.
pub perform-eq-unpriced :
    (i : Instr) (f : Frame) → IsShared i → Run.perform i f ≡ unpriced (TableRun.perform i f)
unfolding Run.perform TableRun.perform Ops.op_stop Ops.op_pop Ops.op_push0 Ops.op_div Ops.op_mod
    Ops.op_add Ops.op_mul Ops.op_sub Ops.op_lt Ops.op_gt Ops.op_eq Ops.op_and Ops.op_or Ops.op_xor
    Ops.op_iszero Ops.op_not Ops.op_pc Ops.op_gas Table.op_stop Table.op_pop Table.op_push0
    Table.op_div Table.op_mod Table.op_add Table.op_mul Table.op_sub Table.op_lt Table.op_gt
    Table.op_eq Table.op_and Table.op_or Table.op_xor Table.op_iszero Table.op_not Table.op_pc
    Table.op_gas Table.op_jumpdest
perform-eq-unpriced Instr.add f p = sym (binary-unpriced f _ 3)
perform-eq-unpriced Instr.mul f p = sym (binary-unpriced f _ 5)
perform-eq-unpriced Instr.sub f p = sym (binary-unpriced f _ 3)
perform-eq-unpriced Instr.div f p = sym (quotient-unpriced (λ a b. a / b) f)
perform-eq-unpriced Instr.modulo f p = sym (quotient-unpriced (λ a b. a % b) f)
perform-eq-unpriced Instr.lt f p = sym (binary-unpriced f _ 3)
perform-eq-unpriced Instr.gt f p = sym (binary-unpriced f _ 3)
perform-eq-unpriced Instr.eq f p = sym (binary-unpriced f _ 3)
perform-eq-unpriced Instr.and f p = sym (binary-unpriced f _ 3)
perform-eq-unpriced Instr.or f p = sym (binary-unpriced f _ 3)
perform-eq-unpriced Instr.xor f p = sym (binary-unpriced f _ 3)
perform-eq-unpriced Instr.iszero f p = sym (unary-unpriced f _ 3)
perform-eq-unpriced Instr.not f p = sym (unary-unpriced f _ 3)
perform-eq-unpriced Instr.pc f p = sym (push_number-unpriced f _)
perform-eq-unpriced Instr.gas f p = sym (push_number-unpriced f _)
perform-eq-unpriced Instr.mload f p = sym (op_mload-unpriced f)
perform-eq-unpriced Instr.mstore f p = sym (op_mstore-unpriced f)
perform-eq-unpriced Instr.mstore8 f p = sym (op_mstore8-unpriced f)
perform-eq-unpriced (Instr.push n) f p = sym (op_push-unpriced f n)
perform-eq-unpriced (Instr.dup n) f p = sym (op_dup-unpriced f n)
perform-eq-unpriced (Instr.swap n) f p = sym (op_swap-unpriced f n)
perform-eq-unpriced Instr.stop f p = refl
perform-eq-unpriced Instr.jumpdest f p = refl
perform-eq-unpriced Instr.pop f p = ground arith
perform-eq-unpriced Instr.push0 f p = ground arith
perform-eq-unpriced _ f p = absurd p
