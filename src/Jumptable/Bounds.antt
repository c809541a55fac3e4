-- ===== src/Jumptable/Bounds.antt =====
-- pc and the size of memory stay within their machine integers: what a handler of
-- src/evm_jumptable.cpp does to them.
use metaru.Common.{
  ℕ, ◌≤◌, ◌<◌, ◌≡◌, ◌⊎◌, Option, some, Bool, true, arith, leb, refl, all, all-get_or,
}
use metaru.Word.{Word}
use metaru.Frame.{Frame}
use metaru.Frame.Memory.{memory_limit}
use metaru.Evm.Ops.{as_u64}
use metaru.Instr.{Instr}
use metaru.Jumptable.Ops
use metaru.Jumptable.Ops.{OpResult, Handler}
use metaru.Jumptable.Table.{jump_table, decode}
use metaru.Jumptable.Run.{perform, dispatch}

-- A frame `f` and what a handler made of it. PUSH32 takes the longest step.
pub record IsBounded (f : Frame) (o : Option OpResult × Frame) : Type 0 where
  pub pc : (o.1.pc ≡ f.pc) ⊎ (o.1.pc < f.context.code_size)
  pub reason : (o.1.halt_reason ≡ f.halt_reason) ⊎ (o.1.halt_reason ≤ 12)
  pub memory : (o.1.memory_size ≡ f.memory_size) ⊎ (o.1.memory_size ≤ memory_limit)
  pub step : (r : OpResult) → o.0 ≡ some r → r.pc_increment ≤ 33

-- The numbers that stand in the table.
abbrev pub IsShort : Instr → Type 0
IsShort (Instr.push n) = n ≤ 32
IsShort _ = Unit

module _ (f : Frame) where
  binary-IsBounded :
      (compute : Word → Word → Word) (cost : ℕ) → IsBounded f (Ops.binary compute cost f)
  unfolding Ops.binary
  binary-IsBounded compute cost = ground arith

  unary-IsBounded : (compute : Word → Word) (cost : ℕ) → IsBounded f (Ops.unary compute cost f)
  unfolding Ops.unary
  unary-IsBounded compute cost = ground arith

  push_number-IsBounded : (number : Frame → ℕ) → IsBounded f (Ops.push_number number f)
  unfolding Ops.push_number
  push_number-IsBounded number = ground arith

  op_mload-IsBounded : IsBounded f (Ops.op_mload f)
  unfolding Ops.op_mload
  op_mload-IsBounded = ground arith

  op_mstore-IsBounded : IsBounded f (Ops.op_mstore f)
  unfolding Ops.op_mstore
  op_mstore-IsBounded = ground arith

  op_mstore8-IsBounded : IsBounded f (Ops.op_mstore8 f)
  unfolding Ops.op_mstore8
  op_mstore8-IsBounded = ground arith

  op_jump-IsBounded : IsBounded f (Ops.op_jump f)
  unfolding Ops.op_jump
  op_jump-IsBounded = ground arith

  op_jumpi-IsBounded : IsBounded f (Ops.op_jumpi f)
  unfolding Ops.op_jumpi
  op_jumpi-IsBounded = ground arith

  pub perform-IsBounded : (i : Instr) → IsShort i → IsBounded f (perform i f)
  unfolding perform Ops.op_stop Ops.op_pop Ops.op_jumpdest Ops.op_push0 Ops.op_push_n Ops.op_dup_n
      Ops.op_swap_n Ops.op_stub Ops.op_invalid Ops.op_add Ops.op_mul Ops.op_sub Ops.op_div
      Ops.op_mod Ops.op_lt Ops.op_gt Ops.op_eq Ops.op_and Ops.op_or Ops.op_xor Ops.op_iszero
      Ops.op_not Ops.op_pc Ops.op_gas
  perform-IsBounded Instr.add h = binary-IsBounded _ 3
  perform-IsBounded Instr.mul h = binary-IsBounded _ 5
  perform-IsBounded Instr.sub h = binary-IsBounded _ 3
  perform-IsBounded Instr.div h = binary-IsBounded _ 5
  perform-IsBounded Instr.modulo h = binary-IsBounded _ 5
  perform-IsBounded Instr.lt h = binary-IsBounded _ 3
  perform-IsBounded Instr.gt h = binary-IsBounded _ 3
  perform-IsBounded Instr.eq h = binary-IsBounded _ 3
  perform-IsBounded Instr.and h = binary-IsBounded _ 3
  perform-IsBounded Instr.or h = binary-IsBounded _ 3
  perform-IsBounded Instr.xor h = binary-IsBounded _ 3
  perform-IsBounded Instr.iszero h = unary-IsBounded _ 3
  perform-IsBounded Instr.not h = unary-IsBounded _ 3
  perform-IsBounded Instr.pc h = push_number-IsBounded (λ f'. f'.pc)
  perform-IsBounded Instr.gas h = push_number-IsBounded (λ f'. as_u64 f'.gas_remaining)
  perform-IsBounded Instr.mload h = op_mload-IsBounded
  perform-IsBounded Instr.mstore h = op_mstore-IsBounded
  perform-IsBounded Instr.mstore8 h = op_mstore8-IsBounded
  perform-IsBounded Instr.jump h = op_jump-IsBounded
  perform-IsBounded Instr.jumpi h = op_jumpi-IsBounded
  perform-IsBounded _ h = ground arith

unfoldable pub is_short : Instr → Bool
is_short (Instr.push n) = leb n 32
is_short _ = true

pub is_short-IsShort : (i : Instr) → is_short i ≡ true → IsShort i
unfolding is_short
is_short-IsShort (Instr.push n) h = ground arith
is_short-IsShort _ h = tt

table_is_short : all is_short jump_table ≡ true
unfolding is_short jump_table
table_is_short = refl

pub dispatch-IsBounded : (opcode : ℕ) (f : Frame) → IsBounded f (dispatch opcode f)
unfolding dispatch decode is_short
dispatch-IsBounded opcode f = perform-IsBounded f (decode opcode) (
    is_short-IsShort (decode opcode)
      (all-get_or is_short jump_table opcode Instr.invalid table_is_short refl))
