-- ===== src/Jumptable/Effects.antt =====
-- What every handler of src/evm_jumptable.cpp leaves alone, and what it charges.
use metaru.Common.{ℕ, ◌≤◌, ◌≡◌, ◌≢◌, ◌⊎◌, Option, none, some, arith}
use metaru.Word.{Word}
use metaru.Frame.{Frame, code_executing, exceptional_halt, completed_success}
use metaru.Evm.Ops.{as_u64}
use metaru.Instr.{Instr}
use metaru.Jumptable.Ops
use metaru.Jumptable.Ops.{OpResult, Handler}
use metaru.Jumptable.Run.{perform, dispatch}

-- A frame `f` and what a handler made of it.
pub record IsTame (f : Frame) (o : Option OpResult × Frame) : Type 0 where
  pub fits : f.stack_size ≤ 1024 → o.1.stack_size ≤ 1024
  pub context : o.1.context ≡ f.context
  pub gas : o.1.gas_remaining ≡ f.gas_remaining
  -- A result has a price, unless execution is over.
  pub pays : (r : OpResult) → o.0 ≡ some r → (1 ≤ r.gas_cost) ⊎ (o.1.state ≢ code_executing)
  -- A failure leaves the state, or halts; nothing else but STOP sets it.
  pub fails : o.0 ≡ none → (o.1.state ≡ f.state) ⊎ (o.1.state ≡ exceptional_halt)
  pub goes_on : o.0 ≢ none → (o.1.state ≡ f.state) ⊎ (o.1.state ≡ completed_success)

module _ (f : Frame) where
  binary-IsTame :
      (compute : Word → Word → Word) (cost : ℕ) → 1 ≤ cost → IsTame f (Ops.binary compute cost f)
  unfolding Ops.binary
  binary-IsTame compute cost h = ground arith

  unary-IsTame : (compute : Word → Word) (cost : ℕ) → 1 ≤ cost → IsTame f (Ops.unary compute cost f)
  unfolding Ops.unary
  unary-IsTame compute cost h = ground arith

  push_number-IsTame : (number : Frame → ℕ) → IsTame f (Ops.push_number number f)
  unfolding Ops.push_number
  push_number-IsTame number = ground arith

  pub perform-IsTame : (i : Instr) → IsTame f (perform i f)
  unfolding perform Ops.op_stop Ops.op_pop Ops.op_mload Ops.op_mstore Ops.op_mstore8 Ops.op_jump
      Ops.op_jumpi Ops.op_jumpdest Ops.op_push0 Ops.op_push_n Ops.op_dup_n Ops.op_swap_n Ops.op_stub
      Ops.op_invalid Ops.op_add Ops.op_mul Ops.op_sub Ops.op_div Ops.op_mod Ops.op_lt Ops.op_gt
      Ops.op_eq Ops.op_and Ops.op_or Ops.op_xor Ops.op_iszero Ops.op_not Ops.op_pc Ops.op_gas
  perform-IsTame Instr.add = binary-IsTame _ 3 (omega arith)
  perform-IsTame Instr.mul = binary-IsTame _ 5 (omega arith)
  perform-IsTame Instr.sub = binary-IsTame _ 3 (omega arith)
  perform-IsTame Instr.div = binary-IsTame _ 5 (omega arith)
  perform-IsTame Instr.modulo = binary-IsTame _ 5 (omega arith)
  perform-IsTame Instr.lt = binary-IsTame _ 3 (omega arith)
  perform-IsTame Instr.gt = binary-IsTame _ 3 (omega arith)
  perform-IsTame Instr.eq = binary-IsTame _ 3 (omega arith)
  perform-IsTame Instr.and = binary-IsTame _ 3 (omega arith)
  perform-IsTame Instr.or = binary-IsTame _ 3 (omega arith)
  perform-IsTame Instr.xor = binary-IsTame _ 3 (omega arith)
  perform-IsTame Instr.iszero = unary-IsTame _ 3 (omega arith)
  perform-IsTame Instr.not = unary-IsTame _ 3 (omega arith)
  perform-IsTame Instr.pc = push_number-IsTame (λ f'. f'.pc)
  perform-IsTame Instr.gas = push_number-IsTame (λ f'. as_u64 f'.gas_remaining)
  perform-IsTame _ = ground arith

  pub dispatch-IsTame : (opcode : ℕ) → IsTame f (dispatch opcode f)
  unfolding dispatch
  dispatch-IsTame opcode = perform-IsTame _
