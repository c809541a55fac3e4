-- ===== src/Evm/Bounds.antt =====
-- pc and the size of memory stay within their machine integers in src/evm.cpp.
use metaru.Common.{
  ℕ, ◌≤◌, ◌<◌, ◌≡◌, ◌⊎◌, inl, inr, Option, none, some, Bool, true, arith, refl, List, Bool-cases,
}
use metaru.Common.Int.{pos, ltb_ℤ}
use metaru.Word.{Word}
use metaru.Frame.{Frame}
use metaru.Frame.Memory.{memory_limit}
use metaru.Instr.{Instr}
use metaru.Loop.{Run, Event, running, trace}
use metaru.Loop.Laws.{execute_ends, Keeps}
use metaru.Jumptable.Bounds.{IsShort}
use metaru.Jumptable.Limits.{IsWithin}
use metaru.Evm.Ops
use metaru.Evm.Ops.{as_u64}
use metaru.Evm.Decode.{decode}
use metaru.Evm.Effects.{IsTame, perform-IsTame}
use metaru.Evm.Ends.{evm_ends}
use metaru.Evm.Run.{perform, settle, round, cost_of, execute_message}

-- A frame `f` and what an operation made of it. PUSH32 takes the longest step.
record IsBounded (f : Frame) (o : Option ℕ × Frame) : Type 0 where
  pub pc : (o.1.pc ≡ f.pc) ⊎ (o.1.pc < f.context.code_size)
  pub reason : (o.1.halt_reason ≡ f.halt_reason) ⊎ (o.1.halt_reason ≤ 12)
  pub memory : (o.1.memory_size ≡ f.memory_size) ⊎ (o.1.memory_size ≤ memory_limit)
  pub step : (increment : ℕ) → o.0 ≡ some increment → increment ≤ 33

module _ (f : Frame) where
  binary-IsBounded : (compute : Word → Word → Word) → IsBounded f (Ops.binary compute f)
  unfolding Ops.binary
  binary-IsBounded compute = ground arith

  unary-IsBounded : (compute : Word → Word) → IsBounded f (Ops.unary compute f)
  unfolding Ops.unary
  unary-IsBounded compute = ground arith

  push_number-IsBounded : (number : Frame → ℕ) → IsBounded f (Ops.push_number number f)
  unfolding Ops.push_number
  push_number-IsBounded number = ground arith

  op_mload-IsBounded : IsBounded f (Ops.op_mload f)
  unfolding Ops.op_mload
  op_mload-IsBounded = ground arith

  op_mstore-IsBounded : IsBounded f (Ops.op_mstore f)
  unfolding Ops.op_mstore
  op_mstore-IsBounded = ground arith

  op_mstore8-IsBounded : IsBounded f (Ops.op_mstore8 f)
  unfolding Ops.op_mstore8
  op_mstore8-IsBounded = ground arith

  op_jump-IsBounded : IsBounded f (Ops.op_jump f)
  unfolding Ops.op_jump
  op_jump-IsBounded = ground arith

  op_jumpi-IsBounded : IsBounded f (Ops.op_jumpi f)
  unfolding Ops.op_jumpi
  op_jumpi-IsBounded = ground arith

  op_push-IsBounded : (n : ℕ) → n ≤ 32 → IsBounded f (Ops.op_push n f)
  unfolding Ops.op_push
  op_push-IsBounded n h = ground arith

  perform-IsBounded : (i : Instr) → IsShort i → IsBounded f (perform i f)
  unfolding perform Ops.op_stop Ops.op_pop Ops.op_push0 Ops.op_dup Ops.op_swap Ops.op_stub
      Ops.op_add Ops.op_mul Ops.op_sub Ops.op_div Ops.op_mod Ops.op_lt Ops.op_gt Ops.op_eq
      Ops.op_and Ops.op_or Ops.op_xor Ops.op_iszero Ops.op_not Ops.op_pc Ops.op_msize Ops.op_gas
  perform-IsBounded Instr.add h = binary-IsBounded _
  perform-IsBounded Instr.mul h = binary-IsBounded _
  perform-IsBounded Instr.sub h = binary-IsBounded _
  perform-IsBounded Instr.div h = binary-IsBounded _
  perform-IsBounded Instr.modulo h = binary-IsBounded _
  perform-IsBounded Instr.lt h = binary-IsBounded _
  perform-IsBounded Instr.gt h = binary-IsBounded _
  perform-IsBounded Instr.eq h = binary-IsBounded _
  perform-IsBounded Instr.and h = binary-IsBounded _
  perform-IsBounded Instr.or h = binary-IsBounded _
  perform-IsBounded Instr.xor h = binary-IsBounded _
  perform-IsBounded Instr.iszero h = unary-IsBounded _
  perform-IsBounded Instr.not h = unary-IsBounded _
  perform-IsBounded Instr.pc h = push_number-IsBounded (λ f'. f'.pc)
  perform-IsBounded Instr.msize h = push_number-IsBounded (λ f'. f'.memory_size)
  perform-IsBounded Instr.gas h = push_number-IsBounded (λ f'. as_u64 f'.gas_remaining)
  perform-IsBounded Instr.mload h = op_mload-IsBounded
  perform-IsBounded Instr.mstore h = op_mstore-IsBounded
  perform-IsBounded Instr.mstore8 h = op_mstore8-IsBounded
  perform-IsBounded Instr.jump h = op_jump-IsBounded
  perform-IsBounded Instr.jumpi h = op_jumpi-IsBounded
  perform-IsBounded (Instr.push n) h = op_push-IsBounded n h
  perform-IsBounded _ h = ground arith

-- The switch has PUSH1 to PUSH32.
decode-IsShort : (opcode : ℕ) → IsShort (decode opcode)
unfolding decode
decode-IsShort opcode = ground arith

settle-IsWithin :
    (traced : Bool) (cost : ℕ) (events : List Event) (f : Frame) (r : Run) (o : Option ℕ × Frame)
    → IsWithin f r
    → r.frame.pc < r.frame.context.code_size
    → IsTame r.frame o
    → IsBounded r.frame o
    → Keeps (IsWithin f) (IsWithin f) (settle traced cost events o)
unfolding settle
settle-IsWithin traced cost events f r (none, g) h inside t b = ground arith
settle-IsWithin traced cost events f r (some x, g) h inside t b = ground (arith, b.step x refl)

pub round-IsWithin :
    (traced : Bool) (f : Frame) (r : Run)
    → IsWithin f r
    → running r.frame ≡ true
    → Keeps (IsWithin f) (IsWithin f) (round traced r)
unfolding round
round-IsWithin traced f r h go = elim (Bool-cases (ltb_ℤ r.frame.gas_remaining (pos 3))) [
  | inl low ↦ rw low (ground arith)
  | inr enough ↦
      let opcode = r.frame.context.code r.frame.pc in
      rw enough (
        settle-IsWithin traced (cost_of opcode)
          (trace traced (Event.pre_execution r.frame) r.events) f r
          (perform (decode opcode) r.frame) h (ground arith) (perform-IsTame _ _)
          (perform-IsBounded r.frame (decode opcode) (decode-IsShort opcode)))
]

-- From any frame whose stack fits, execution returns with pc where it began, or at most 32 bytes
-- behind the code, and memory of the size that it had, or at most the limit of 2 ^ 20 bytes.
pub evm-IsWithin :
    (traced : Bool) (f : Frame)
    → f.stack_size ≤ 1024
    → (out : Run) × (execute_message traced f ≡ some out) × IsWithin f out
unfolding execute_message
evm-IsWithin traced f fits =
    let (out, e, _) = evm_ends traced f fits in
    (
      out,
      e,
      execute_ends (round traced) (IsWithin f) (IsWithin f) (round-IsWithin traced f)
          (λ r h stop. ground arith) f out (ground arith) e,
    )
