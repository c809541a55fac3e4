-- ===== src/Evm/Effects.antt =====
-- What every operation of src/evm.cpp leaves alone.
use metaru.Common.{ℕ, ◌≤◌, ◌≡◌, ◌⊎◌, Option, arith}
use metaru.Word.{Word}
use metaru.Frame.{Frame, exceptional_halt, completed_success}
use metaru.Instr.{Instr}
use metaru.Evm.Ops
use metaru.Evm.Ops.{Op, as_u64}
use metaru.Evm.Run.{perform}

-- A frame `f` and what an operation made of it.
pub record IsTame (f : Frame) (o : Option ℕ × Frame) : Type 0 where
  pub fits : f.stack_size ≤ 1024 → o.1.stack_size ≤ 1024
  pub context : o.1.context ≡ f.context
  pub gas : o.1.gas_remaining ≡ f.gas_remaining
  pub state :
      (o.1.state ≡ f.state) ⊎ ((o.1.state ≡ exceptional_halt) ⊎ (o.1.state ≡ completed_success))

module _ (f : Frame) where
  binary-IsTame : (compute : Word → Word → Word) → IsTame f (Ops.binary compute f)
  unfolding Ops.binary
  binary-IsTame compute = ground arith

  unary-IsTame : (compute : Word → Word) → IsTame f (Ops.unary compute f)
  unfolding Ops.unary
  unary-IsTame compute = ground arith

  push_number-IsTame : (number : Frame → ℕ) → IsTame f (Ops.push_number number f)
  unfolding Ops.push_number
  push_number-IsTame number = ground arith

  op_mload-IsTame : IsTame f (Ops.op_mload f)
  unfolding Ops.op_mload
  op_mload-IsTame = ground arith

  op_mstore-IsTame : IsTame f (Ops.op_mstore f)
  unfolding Ops.op_mstore
  op_mstore-IsTame = ground arith

  op_mstore8-IsTame : IsTame f (Ops.op_mstore8 f)
  unfolding Ops.op_mstore8
  op_mstore8-IsTame = ground arith

  op_jump-IsTame : IsTame f (Ops.op_jump f)
  unfolding Ops.op_jump
  op_jump-IsTame = ground arith

  op_jumpi-IsTame : IsTame f (Ops.op_jumpi f)
  unfolding Ops.op_jumpi
  op_jumpi-IsTame = ground arith

  op_div-IsTame : IsTame f (Ops.op_div f)
  unfolding Ops.op_div
  op_div-IsTame = binary-IsTame _

  op_mod-IsTame : IsTame f (Ops.op_mod f)
  unfolding Ops.op_mod
  op_mod-IsTame = binary-IsTame _

  pub perform-IsTame : (i : Instr) → IsTame f (perform i f)
  unfolding perform Ops.op_stop Ops.op_pop Ops.op_push0 Ops.op_push Ops.op_dup Ops.op_swap
      Ops.op_stub Ops.op_add Ops.op_mul Ops.op_sub Ops.op_lt Ops.op_gt Ops.op_eq Ops.op_and
      Ops.op_or Ops.op_xor Ops.op_iszero Ops.op_not Ops.op_pc Ops.op_msize Ops.op_gas
  perform-IsTame Instr.add = binary-IsTame _
  perform-IsTame Instr.mul = binary-IsTame _
  perform-IsTame Instr.sub = binary-IsTame _
  perform-IsTame Instr.div = op_div-IsTame
  perform-IsTame Instr.modulo = op_mod-IsTame
  perform-IsTame Instr.lt = binary-IsTame _
  perform-IsTame Instr.gt = binary-IsTame _
  perform-IsTame Instr.eq = binary-IsTame _
  perform-IsTame Instr.and = binary-IsTame _
  perform-IsTame Instr.or = binary-IsTame _
  perform-IsTame Instr.xor = binary-IsTame _
  perform-IsTame Instr.iszero = unary-IsTame _
  perform-IsTame Instr.not = unary-IsTame _
  perform-IsTame Instr.pc = push_number-IsTame (λ f'. f'.pc)
  perform-IsTame Instr.msize = push_number-IsTame (λ f'. f'.memory_size)
  perform-IsTame Instr.gas = push_number-IsTame (λ f'. as_u64 f'.gas_remaining)
  perform-IsTame Instr.mload = op_mload-IsTame
  perform-IsTame Instr.mstore = op_mstore-IsTame
  perform-IsTame Instr.mstore8 = op_mstore8-IsTame
  perform-IsTame Instr.jump = op_jump-IsTame
  perform-IsTame Instr.jumpi = op_jumpi-IsTame
  perform-IsTame _ = ground arith
