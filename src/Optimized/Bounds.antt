-- ===== src/Optimized/Bounds.antt =====
-- pc and the size of memory stay within their machine integers in src/evm_optimized.cpp too.
use metaru.Common.{ℕ, ◌≤◌, ◌+◌, ◌-◌, ◌≡◌, ◌⊎◌, some, Bool, true, arith, refl, all, all-get_or, u32}
use metaru.Word.{Word, u64_to_word, word_to_u64, zero_word}
use metaru.Frame.{Frame}
use metaru.Frame.Memory.{ensure_memory, memory_limit}
use metaru.Frame.Memory.Laws.{ensure_memory-keeps}
use metaru.Evm.Ops.{as_u64, push_word}
use metaru.Instr.{Instr}
use metaru.Loop.{Run}
use metaru.Jumptable.Bounds.{IsBounded, IsShort, is_short, is_short-IsShort}
use metaru.Jumptable.Limits.{IsWithin, execute-IsWithin}
use metaru.Optimized.Ops
use metaru.Optimized.Storage
use metaru.Optimized.Effects.{dispatch-IsTame}
use metaru.Optimized.Run.{perform, dispatch, decode, jump_table, execute_message}

ensure_memory-IsBounded :
    (offset size : ℕ) (f : Frame)
    → let g = (ensure_memory offset size f).1 in
      (g.memory_size ≡ f.memory_size) ⊎ (g.memory_size ≤ memory_limit)
unfolding ensure_memory
ensure_memory-IsBounded offset size f = ground arith

module _ (f : Frame) where
  binary-IsBounded :
      (compute : Word → Word → Word) (cost : ℕ) → IsBounded f (Ops.binary compute cost f)
  unfolding Ops.binary
  binary-IsBounded compute cost = ground arith

  unary-IsBounded : (compute : Word → Word) (cost : ℕ) → IsBounded f (Ops.unary compute cost f)
  unfolding Ops.unary
  unary-IsBounded compute cost = ground arith

  push_item-IsBounded :
      (word : Frame → Word) (increment cost : ℕ)
      → increment ≤ 33
      → IsBounded f (Ops.push_item word increment cost f)
  unfolding Ops.push_item
  push_item-IsBounded word increment cost h = ground arith

  op_sload-IsBounded : IsBounded f (Storage.op_sload f)
  unfolding Storage.op_sload Storage.load_from
  op_sload-IsBounded = ground arith

  op_sstore-IsBounded : IsBounded f (Storage.op_sstore f)
  unfolding Storage.op_sstore Storage.write_slot Storage.store_to
  op_sstore-IsBounded = ground arith

  op_mload-IsBounded : IsBounded f (Ops.op_mload f)
  unfolding Ops.op_mload
  op_mload-IsBounded =
      let offset = u32 (word_to_u64 (f.stack (f.stack_size - 1))) in
      ground (arith, ensure_memory-keeps offset 32 f, ensure_memory-IsBounded offset 32 f)

  op_mstore-IsBounded : IsBounded f (Ops.op_mstore f)
  unfolding Ops.op_mstore
  op_mstore-IsBounded =
      let offset = u32 (word_to_u64 (f.stack (f.stack_size - 1))) in
      ground (arith, ensure_memory-keeps offset 32 f, ensure_memory-IsBounded offset 32 f)

  op_mstore8-IsBounded : IsBounded f (Ops.op_mstore8 f)
  unfolding Ops.op_mstore8
  op_mstore8-IsBounded =
      let offset = u32 (word_to_u64 (f.stack (f.stack_size - 1))) in
      ground (arith, ensure_memory-keeps offset 1 f, ensure_memory-IsBounded offset 1 f)

  op_jump-IsBounded : IsBounded f (Ops.op_jump f)
  unfolding Ops.op_jump
  op_jump-IsBounded = ground arith

  op_jumpi-IsBounded : IsBounded f (Ops.op_jumpi f)
  unfolding Ops.op_jumpi
  op_jumpi-IsBounded = ground arith

  perform-IsBounded : (i : Instr) → IsShort i → IsBounded f (perform i f)
  unfolding perform Ops.op_stop Ops.op_pop Ops.op_jumpdest Ops.op_push0 Ops.op_push_n Ops.op_dup_n
      Ops.op_swap_n Ops.op_stub Ops.op_invalid Ops.op_add Ops.op_mul Ops.op_sub Ops.op_div
      Ops.op_mod Ops.op_lt Ops.op_gt Ops.op_eq Ops.op_and Ops.op_or Ops.op_xor Ops.op_iszero
      Ops.op_not Ops.op_pc Ops.op_gas
  perform-IsBounded Instr.add h = binary-IsBounded _ 3
  perform-IsBounded Instr.mul h = binary-IsBounded _ 5
  perform-IsBounded Instr.sub h = binary-IsBounded _ 3
  perform-IsBounded Instr.div h = binary-IsBounded _ 5
  perform-IsBounded Instr.modulo h = binary-IsBounded _ 5
  perform-IsBounded Instr.lt h = binary-IsBounded _ 3
  perform-IsBounded Instr.gt h = binary-IsBounded _ 3
  perform-IsBounded Instr.eq h = binary-IsBounded _ 3
  perform-IsBounded Instr.and h = binary-IsBounded _ 3
  perform-IsBounded Instr.or h = binary-IsBounded _ 3
  perform-IsBounded Instr.xor h = binary-IsBounded _ 3
  perform-IsBounded Instr.iszero h = unary-IsBounded _ 3
  perform-IsBounded Instr.not h = unary-IsBounded _ 3
  perform-IsBounded Instr.pc h = push_item-IsBounded (λ f'. u64_to_word f'.pc) 1 2 (omega arith)
  perform-IsBounded Instr.gas h =
      push_item-IsBounded (λ f'. u64_to_word (as_u64 f'.gas_remaining)) 1 2 (omega arith)
  perform-IsBounded Instr.push0 h = push_item-IsBounded (λ f'. zero_word) 1 2 (omega arith)
  perform-IsBounded (Instr.push n) h = push_item-IsBounded (push_word n) (1 + n) 3 (omega arith)
  perform-IsBounded Instr.mload h = op_mload-IsBounded
  perform-IsBounded Instr.mstore h = op_mstore-IsBounded
  perform-IsBounded Instr.mstore8 h = op_mstore8-IsBounded
  perform-IsBounded Instr.sload h = op_sload-IsBounded
  perform-IsBounded Instr.sstore h = op_sstore-IsBounded
  perform-IsBounded Instr.jump h = op_jump-IsBounded
  perform-IsBounded Instr.jumpi h = op_jumpi-IsBounded
  perform-IsBounded _ h = ground arith

table_is_short : all is_short jump_table ≡ true
unfolding is_short jump_table
table_is_short = refl

pub decode-IsShort : (opcode : ℕ) → IsShort (decode opcode)
unfolding decode is_short
decode-IsShort opcode =
    is_short-IsShort (decode opcode)
      (all-get_or is_short jump_table opcode Instr.invalid table_is_short refl)

pub dispatch-IsBounded : (opcode : ℕ) (f : Frame) → IsBounded f (dispatch opcode f)
unfolding dispatch
dispatch-IsBounded opcode f = perform-IsBounded f (decode opcode) (decode-IsShort opcode)

-- From any frame whose stack fits, execution returns with pc where it began, or at most 32 bytes
-- behind the code, and memory of the size that it had, or at most the limit of 2 ^ 20 bytes.
pub optimized-IsWithin :
    (traced : Bool) (f : Frame)
    → f.stack_size ≤ 1024
    → (out : Run) × (execute_message traced f ≡ some out) × IsWithin f out
unfolding execute_message
optimized-IsWithin =
    execute-IsWithin dispatch (λ opcode f. dispatch-IsTame f opcode) dispatch-IsBounded
