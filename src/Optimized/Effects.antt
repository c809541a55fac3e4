-- ===== src/Optimized/Effects.antt =====
-- The handlers of src/evm_optimized.cpp are tame too: what they leave alone, and what they charge.
use metaru.Common.{ℕ, ◌≤◌, ◌+◌, ◌-◌, arith, u32}
use metaru.Word.{Word, u64_to_word, word_to_u64, zero_word}
use metaru.Frame.Memory.Laws.{ensure_memory-keeps}
use metaru.Frame.{Frame}
use metaru.Evm.Ops.{as_u64, push_word}
use metaru.Instr.{Instr}
use metaru.Jumptable.Effects.{IsTame}
use metaru.Optimized.Ops
use metaru.Optimized.Storage
use metaru.Optimized.Run.{perform, dispatch}

module _ (f : Frame) where
  binary-IsTame :
      (compute : Word → Word → Word) (cost : ℕ) → 1 ≤ cost → IsTame f (Ops.binary compute cost f)
  unfolding Ops.binary
  binary-IsTame compute cost h = ground arith

  unary-IsTame : (compute : Word → Word) (cost : ℕ) → 1 ≤ cost → IsTame f (Ops.unary compute cost f)
  unfolding Ops.unary
  unary-IsTame compute cost h = ground arith

  push_item-IsTame :
      (word : Frame → Word) (increment cost : ℕ)
      → 1 ≤ cost
      → IsTame f (Ops.push_item word increment cost f)
  unfolding Ops.push_item
  push_item-IsTame word increment cost h = ground arith

  op_sload-IsTame : IsTame f (Storage.op_sload f)
  unfolding Storage.op_sload Storage.load_from
  op_sload-IsTame = ground arith

  op_sstore-IsTame : IsTame f (Storage.op_sstore f)
  unfolding Storage.op_sstore Storage.write_slot Storage.store_to
  op_sstore-IsTame = ground arith

  op_mload-IsTame : IsTame f (Ops.op_mload f)
  unfolding Ops.op_mload
  op_mload-IsTame =
      ground (arith, ensure_memory-keeps (u32 (word_to_u64 (f.stack (f.stack_size - 1)))) 32 f)

  op_mstore-IsTame : IsTame f (Ops.op_mstore f)
  unfolding Ops.op_mstore
  op_mstore-IsTame =
      ground (arith, ensure_memory-keeps (u32 (word_to_u64 (f.stack (f.stack_size - 1)))) 32 f)

  op_mstore8-IsTame : IsTame f (Ops.op_mstore8 f)
  unfolding Ops.op_mstore8
  op_mstore8-IsTame =
      ground (arith, ensure_memory-keeps (u32 (word_to_u64 (f.stack (f.stack_size - 1)))) 1 f)

  op_jump-IsTame : IsTame f (Ops.op_jump f)
  unfolding Ops.op_jump
  op_jump-IsTame = ground arith

  op_jumpi-IsTame : IsTame f (Ops.op_jumpi f)
  unfolding Ops.op_jumpi
  op_jumpi-IsTame = ground arith

  perform-IsTame : (i : Instr) → IsTame f (perform i f)
  unfolding perform Ops.op_stop Ops.op_pop Ops.op_jumpdest Ops.op_push0 Ops.op_push_n Ops.op_dup_n
      Ops.op_swap_n Ops.op_stub Ops.op_invalid Ops.op_add Ops.op_mul Ops.op_sub Ops.op_div
      Ops.op_mod Ops.op_lt Ops.op_gt Ops.op_eq Ops.op_and Ops.op_or Ops.op_xor Ops.op_iszero
      Ops.op_not Ops.op_pc Ops.op_gas
  perform-IsTame Instr.add = binary-IsTame _ 3 (omega arith)
  perform-IsTame Instr.mul = binary-IsTame _ 5 (omega arith)
  perform-IsTame Instr.sub = binary-IsTame _ 3 (omega arith)
  perform-IsTame Instr.div = binary-IsTame _ 5 (omega arith)
  perform-IsTame Instr.modulo = binary-IsTame _ 5 (omega arith)
  perform-IsTame Instr.lt = binary-IsTame _ 3 (omega arith)
  perform-IsTame Instr.gt = binary-IsTame _ 3 (omega arith)
  perform-IsTame Instr.eq = binary-IsTame _ 3 (omega arith)
  perform-IsTame Instr.and = binary-IsTame _ 3 (omega arith)
  perform-IsTame Instr.or = binary-IsTame _ 3 (omega arith)
  perform-IsTame Instr.xor = binary-IsTame _ 3 (omega arith)
  perform-IsTame Instr.iszero = unary-IsTame _ 3 (omega arith)
  perform-IsTame Instr.not = unary-IsTame _ 3 (omega arith)
  perform-IsTame Instr.pc = push_item-IsTame (λ f'. u64_to_word f'.pc) 1 2 (omega arith)
  perform-IsTame Instr.gas =
      push_item-IsTame (λ f'. u64_to_word (as_u64 f'.gas_remaining)) 1 2 (omega arith)
  perform-IsTame Instr.sload = op_sload-IsTame
  perform-IsTame Instr.sstore = op_sstore-IsTame
  perform-IsTame Instr.push0 = push_item-IsTame (λ _. zero_word) 1 2 (omega arith)
  perform-IsTame (Instr.push n) = push_item-IsTame (push_word n) (1 + n) 3 (omega arith)
  perform-IsTame Instr.mload = op_mload-IsTame
  perform-IsTame Instr.mstore = op_mstore-IsTame
  perform-IsTame Instr.mstore8 = op_mstore8-IsTame
  perform-IsTame Instr.jump = op_jump-IsTame
  perform-IsTame Instr.jumpi = op_jumpi-IsTame
  perform-IsTame _ = ground arith

  pub dispatch-IsTame : (opcode : ℕ) → IsTame f (dispatch opcode f)
  unfolding dispatch
  dispatch-IsTame opcode = perform-IsTame _
