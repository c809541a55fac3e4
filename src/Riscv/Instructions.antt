-- ===== src/Riscv/Instructions.antt =====
-- Every handler of the table does on bytes what it does on a frame.
use metaru.Common.{ℕ, ◌^◌, ◌<◌, refl, ap, ◌∙◌, sym, bit_and, bit_or, bit_xor}
use metaru.Word.{Word, u64_to_word, zip_bytes, complement}
use metaru.Common.Bits.{bit_and-lt, bit_or-lt, bit_xor-lt}
use metaru.Word.Laws.{u64_to_word-IsWord, length-zip_bytes, length-complement}
use metaru.Frame.{Frame}
use metaru.Instr.{Instr}
use metaru.Evm.Ops.{as_u64}
use metaru.Jumptable.Bounds.{IsShort}
use metaru.Optimized
use metaru.Optimized.Run.{decode}
use metaru.Layout.Store.{offset_of}
use metaru.Riscv
use metaru.Riscv.{Machine}
use metaru.Riscv.Run.{Turn}
use metaru.Riscv.Holds.{Regions, IsSpread, Holds}
use metaru.Riscv.Simulation.{Same, Simulates, sim, halt-Holds, state-Holds}
use metaru.Riscv.Handlers
use metaru.Riscv.Push.{op_push_n_sim}
use metaru.Riscv.Access.{IsReached, op_mload_sim, op_mstore_sim, op_mstore8_sim}
use metaru.Riscv.Slots.{op_sload_sim, op_sstore_sim}

-- What the instruction is let through to of memory lies in its room.
abbrev pub IsReaching : Regions → Frame → Instr → Type 0
IsReaching g f Instr.mload = IsReached g f (offset_of f) 32
IsReaching g f Instr.mstore = IsReached g f (offset_of f) 32
IsReaching g f Instr.mstore8 = IsReached g f (offset_of f) 1
IsReaching g f _ = Unit {0}

module _ (g : Regions) (apart : IsSpread g) (m : Machine) (f : Frame) (h : Holds g m f) where
  u64_sim :
      (compute : Word → Word → ℕ) (cost : ℕ)
      → Simulates g Same
          (Riscv.Ops.binary (λ x y. u64_to_word (compute x y)) cost m)
          (Optimized.Ops.binary (λ x y. u64_to_word (compute x y)) cost f)
  u64_sim compute cost =
      Handlers.binary_sim g apart m f h _ cost (λ x y p q. (u64_to_word-IsWord (compute x y)).0)

  bytes_sim :
      (op : ℕ → ℕ → ℕ)
      → ((a b : ℕ) → a < 256 → b < 256 → op a b < 256)
      → Simulates g Same
          (Riscv.Ops.binary (λ a b. zip_bytes op b a) 3 m)
          (Optimized.Ops.binary (λ a b. zip_bytes op b a) 3 f)
  bytes_sim op closed =
      Handlers.binary_sim g apart m f h _ 3
        (λ x y p q. length-zip_bytes op closed y x (q ∙ sym p) ∙ q)

  pub perform_sim :
      (i : Instr)
      → f.pc < f.context.code_size
      → f.context.code_size < 2 ^ 31
      → IsShort i
      → IsReaching g f i
      → Simulates g Same (Riscv.Run.perform i m) (Optimized.Run.perform i f)
  unfolding Riscv.Run.perform Optimized.Run.perform Riscv.Ops.op_add Optimized.Ops.op_add
      Riscv.Ops.op_mul Optimized.Ops.op_mul Riscv.Ops.op_sub Optimized.Ops.op_sub Riscv.Ops.op_div
      Optimized.Ops.op_div Riscv.Ops.op_mod Optimized.Ops.op_mod Riscv.Ops.op_lt Optimized.Ops.op_lt
      Riscv.Ops.op_gt Optimized.Ops.op_gt Riscv.Ops.op_eq Optimized.Ops.op_eq Riscv.Ops.op_and
      Optimized.Ops.op_and Riscv.Ops.op_or Optimized.Ops.op_or Riscv.Ops.op_xor Optimized.Ops.op_xor
      Riscv.Ops.op_iszero Optimized.Ops.op_iszero Riscv.Ops.op_not Optimized.Ops.op_not
      Riscv.Ops.op_stop Optimized.Ops.op_stop Riscv.Ops.op_stub Optimized.Ops.op_stub
      Riscv.Ops.op_invalid Optimized.Ops.op_invalid Riscv.Ops.op_jumpdest Optimized.Ops.op_jumpdest
      Riscv.Ops.op_pc Optimized.Ops.op_pc Riscv.Ops.op_gas Optimized.Ops.op_gas
  perform_sim Instr.stop inside small short memory = sim g refl (state-Holds g m f h 7)
  perform_sim Instr.add inside small short memory = u64_sim _ 3
  perform_sim Instr.mul inside small short memory = u64_sim _ 5
  perform_sim Instr.sub inside small short memory = u64_sim _ 3
  perform_sim Instr.div inside small short memory = u64_sim _ 5
  perform_sim Instr.modulo inside small short memory = u64_sim _ 5
  perform_sim Instr.lt inside small short memory = u64_sim _ 3
  perform_sim Instr.gt inside small short memory = u64_sim _ 3
  perform_sim Instr.eq inside small short memory = u64_sim _ 3
  perform_sim Instr.and inside small short memory = bytes_sim bit_and bit_and-lt
  perform_sim Instr.or inside small short memory = bytes_sim bit_or bit_or-lt
  perform_sim Instr.xor inside small short memory = bytes_sim bit_xor bit_xor-lt
  perform_sim Instr.iszero inside small short memory =
      Handlers.unary_sim g apart m f h _ 3 (λ x p. (u64_to_word-IsWord _).0)
  perform_sim Instr.not inside small short memory =
      Handlers.unary_sim g apart m f h complement 3 (λ x p. length-complement x ∙ p)
  perform_sim Instr.pop inside small short memory = Handlers.op_pop_sim g apart m f h
  perform_sim Instr.mload inside small short memory = op_mload_sim g apart m f h memory
  perform_sim Instr.mstore inside small short memory = op_mstore_sim g apart m f h memory
  perform_sim Instr.mstore8 inside small short memory = op_mstore8_sim g apart m f h memory
  perform_sim Instr.sload inside small short memory = op_sload_sim g apart m f h
  perform_sim Instr.sstore inside small short memory = op_sstore_sim g apart m f h
  perform_sim Instr.jump inside small short memory = Handlers.op_jump_sim g apart m f h
  perform_sim Instr.jumpi inside small short memory = Handlers.op_jumpi_sim g apart m f h
  perform_sim Instr.pc inside small short memory =
      Handlers.push_number_sim g apart m f h _ _ (λ m' f' h'. ap u64_to_word h'.fields.pc)
  perform_sim Instr.gas inside small short memory =
      Handlers.push_number_sim g apart m f h _ _
        (λ m' f' h'. ap (λ z. u64_to_word (as_u64 z)) h'.fields.gas_remaining)
  perform_sim Instr.msize inside small short memory = sim g refl h
  perform_sim Instr.jumpdest inside small short memory = sim g refl h
  perform_sim Instr.push0 inside small short memory = Handlers.op_push0_sim g apart m f h
  perform_sim (Instr.push n) inside small short memory =
      op_push_n_sim g apart m f h n inside small short
  perform_sim (Instr.dup n) inside small short memory = Handlers.op_dup_n_sim g apart m f h n
  perform_sim (Instr.swap n) inside small short memory = Handlers.op_swap_n_sim g apart m f h n
  perform_sim Instr.stub inside small short memory = sim g refl h
  perform_sim Instr.invalid inside small short memory = sim g tt (halt-Holds g m f h 2)
