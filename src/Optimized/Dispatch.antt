-- ===== src/Optimized/Dispatch.antt =====
-- The handlers of the two tables of src/evm_jumptable.cpp and src/evm_optimized.cpp agree on what both
-- have, and so do the tables.
use metaru.Common.{
  ℕ, ◌≤◌, ◌≡◌, ◌≢◌, refl, subst, fun_ext, Bool, true, false, get_or, set, get_or-set_ne, all-get_or,
  bit_and, bit_or, bit_xor,
}
use metaru.Word.{Word, zip_bytes}
use metaru.Word.Laws.{and_comm, or_comm, xor_comm}
use metaru.Frame.{Frame}
use metaru.Instr.{Instr}
use metaru.Jumptable.Ops.{OpResult, Handler}
use metaru.Jumptable
use metaru.Jumptable.Run.{settle, round_of}
use metaru.Optimized
use metaru.Optimized.Agree
use metaru.Optimized.Agree.{forget_size, Agrees}

-- The two operations that only one of the tables has.
abbrev is_plain : Instr → Bool
is_plain Instr.sload = false
is_plain Instr.sstore = false
is_plain _ = true

module _ (f : Frame) (fits : f.stack_size ≤ 1024) where
  flipped-Agrees :
      (compute flipped : Word → Word → Word) (cost : ℕ)
      → ((v w : Word) → compute v w ≡ flipped v w)
      → Agrees (Jumptable.Ops.binary compute cost f) (Optimized.Ops.binary flipped cost f)
  flipped-Agrees compute flipped cost same =
      subst (λ c. Agrees (Jumptable.Ops.binary compute cost f) (Optimized.Ops.binary c cost f))
        (fun_ext λ v. fun_ext λ w. same v w) (Agree.binary-Agrees f fits compute cost)

  perform-Agrees :
      (i : Instr)
      → is_plain i ≡ true
      → Agrees (Jumptable.Run.perform i f) (Optimized.Run.perform i f)
  unfolding Jumptable.Run.perform Optimized.Run.perform Jumptable.Ops.op_stop Jumptable.Ops.op_stub
      Jumptable.Ops.op_invalid Jumptable.Ops.op_jumpdest Optimized.Ops.op_stop Optimized.Ops.op_stub
      Optimized.Ops.op_invalid Optimized.Ops.op_jumpdest Jumptable.Ops.op_add Jumptable.Ops.op_mul
      Jumptable.Ops.op_sub Jumptable.Ops.op_div Jumptable.Ops.op_mod Jumptable.Ops.op_lt
      Jumptable.Ops.op_gt Jumptable.Ops.op_eq Jumptable.Ops.op_and Jumptable.Ops.op_or
      Jumptable.Ops.op_xor Jumptable.Ops.op_iszero Jumptable.Ops.op_not Optimized.Ops.op_add
      Optimized.Ops.op_mul Optimized.Ops.op_sub Optimized.Ops.op_div Optimized.Ops.op_mod
      Optimized.Ops.op_lt Optimized.Ops.op_gt Optimized.Ops.op_eq Optimized.Ops.op_and
      Optimized.Ops.op_or Optimized.Ops.op_xor Optimized.Ops.op_iszero Optimized.Ops.op_not
  perform-Agrees Instr.stop n = (refl, refl)
  perform-Agrees Instr.add n = Agree.binary-Agrees f fits _ 3
  perform-Agrees Instr.mul n = Agree.binary-Agrees f fits _ 5
  perform-Agrees Instr.sub n = Agree.binary-Agrees f fits _ 3
  perform-Agrees Instr.div n = Agree.binary-Agrees f fits _ 5
  perform-Agrees Instr.modulo n = Agree.binary-Agrees f fits _ 5
  perform-Agrees Instr.lt n = Agree.binary-Agrees f fits _ 3
  perform-Agrees Instr.gt n = Agree.binary-Agrees f fits _ 3
  perform-Agrees Instr.eq n = Agree.binary-Agrees f fits _ 3
  perform-Agrees Instr.iszero n = Agree.unary-Agrees f fits _ 3
  perform-Agrees Instr.and n = flipped-Agrees _ (λ a b. zip_bytes bit_and b a) 3 and_comm
  perform-Agrees Instr.or n = flipped-Agrees _ (λ a b. zip_bytes bit_or b a) 3 or_comm
  perform-Agrees Instr.xor n = flipped-Agrees _ (λ a b. zip_bytes bit_xor b a) 3 xor_comm
  perform-Agrees Instr.not n = Agree.unary-Agrees f fits _ 3
  perform-Agrees Instr.pop n = Agree.op_pop-Agrees f fits
  perform-Agrees Instr.mload n = Agree.op_mload-Agrees f fits
  perform-Agrees Instr.mstore n = Agree.op_mstore-Agrees f fits
  perform-Agrees Instr.mstore8 n = Agree.op_mstore8-Agrees f fits
  perform-Agrees Instr.sload n = cc
  perform-Agrees Instr.sstore n = cc
  perform-Agrees Instr.jump n = Agree.op_jump-Agrees f fits
  perform-Agrees Instr.jumpi n = Agree.op_jumpi-Agrees f fits
  perform-Agrees Instr.pc n = Agree.op_pc-Agrees f fits
  perform-Agrees Instr.msize n = (refl, refl)
  perform-Agrees Instr.gas n = Agree.op_gas-Agrees f fits
  perform-Agrees Instr.jumpdest n = (refl, refl)
  perform-Agrees Instr.push0 n = Agree.op_push0-Agrees f fits
  perform-Agrees (Instr.push k) n = Agree.op_push_n-Agrees f fits k
  perform-Agrees (Instr.dup k) n = Agree.op_dup_n-Agrees f fits k
  perform-Agrees (Instr.swap k) n = Agree.op_swap_n-Agrees f fits k
  perform-Agrees Instr.stub n = (refl, refl)
  perform-Agrees Instr.invalid n = refl

-- The tables differ in two entries.
tables_differ :
    Optimized.Run.jump_table
    ≡ set (set Jumptable.Table.jump_table 0x44 Instr.sload) 0x45 Instr.sstore
unfolding Optimized.Run.jump_table Jumptable.Table.jump_table
tables_differ = refl

lookup-Agrees :
    (opcode : ℕ)
    → 0x44 ≢ opcode
    → 0x45 ≢ opcode
    → get_or Optimized.Run.jump_table opcode Instr.invalid
      ≡ get_or Jumptable.Table.jump_table opcode Instr.invalid
lookup-Agrees opcode load store =
    rw
      (
        tables_differ,
        get_or-set_ne (set Jumptable.Table.jump_table 0x44 Instr.sload) {i = 0x45} Instr.sstore
            Instr.invalid store,
      )
      (get_or-set_ne Jumptable.Table.jump_table {i = 0x44} Instr.sload Instr.invalid load)

decode-Agrees :
    (opcode : ℕ)
    → 0x44 ≢ opcode
    → 0x45 ≢ opcode
    → Optimized.Run.decode opcode ≡ Jumptable.Table.decode opcode
unfolding Jumptable.Table.decode Optimized.Run.decode
decode-Agrees = lookup-Agrees

decode_plain : (opcode : ℕ) → is_plain (Jumptable.Table.decode opcode) ≡ true
unfolding Jumptable.Table.decode
decode_plain opcode = all-get_or is_plain Jumptable.Table.jump_table opcode Instr.invalid refl refl

pub dispatch-Agrees :
    (opcode : ℕ) (f : Frame)
    → 0x44 ≢ opcode
    → 0x45 ≢ opcode
    → f.stack_size ≤ 1024
    → Agrees (Jumptable.Run.dispatch opcode f) (Optimized.Run.dispatch opcode f)
unfolding Jumptable.Run.dispatch Optimized.Run.dispatch
dispatch-Agrees opcode f load store fits =
    rw (decode-Agrees opcode load store)
      (perform-Agrees f fits (Jumptable.Table.decode opcode) (decode_plain opcode))
