-- ===== src/Testing/Programs.antt =====
-- A program of stack instructions, run to its end.
use metaru.Testing.{frame_of, context_of}
use metaru.Testing.Room.{machine_of, regions_of, regions_of-IsSpread, machine_of-Holds}
use metaru.Optimized.Equiv.{IsStorageFree}
use metaru.Riscv.{Machine}
use metaru.Riscv
use metaru.Optimized
use metaru.Loop.{signed_size}
use metaru.Riscv.Room.{is_memory}
use metaru.Riscv.Programs.{items_at, execute_machine-evaluate}
use metaru.Common.{
  ℕ, ◌≡◌, ◌<◌, refl, some, inr, false, List, [], ◌∷◌, true, arith, all-get_or, ltb, not, ◌==◌, ◌&&◌,
}
use metaru.Word.{u64_to_word, value}
use metaru.Frame.{completed_success}
use metaru.Frame.Items.{items, items_below}
use metaru.Frame.Memory.{read_bytes}
use metaru.Instr.{Instr}
use metaru.Loop.{Run}
use metaru.Jumptable.Table.{decode}
use metaru.Jumptable.Run.{execute_message}
use metaru.Jumptable.Values.{effect}
use metaru.Jumptable.Programs.{evaluate}
use metaru.Jumptable.Execution.{execute_message-evaluate}

-- PUSH1 3, PUSH1 5, SWAP1, SUB
abbrev subtracter : List ℕ
subtracter = 0x60 ∷ 3 ∷ 0x60 ∷ 5 ∷ 0x90 ∷ 0x03 ∷ []

abbrev instructions : List Instr
instructions = Instr.push 1 ∷ Instr.push 1 ∷ Instr.swap 1 ∷ Instr.sub ∷ []

subtracter_byte : (i : ℕ) → (context_of subtracter).code i < 256
subtracter_byte i = ground (arith, all-get_or (λ b. ltb b 256) subtracter i 0 refl refl)

subtracter_value :
    evaluate (context_of subtracter) 0 instructions []
    ≡ some (u64_to_word 18446744073709551614 ∷ [])
unfolding evaluate u64_to_word read_bytes effect value
subtracter_value = refl

execute_message-evaluate_example :
    (out : Run) × (execute_message true (frame_of subtracter 20) ≡ some out)
    × (out.frame.state ≡ completed_success)
    × (items out.frame ≡ u64_to_word 18446744073709551614 ∷ [])
unfolding items_below decode
execute_message-evaluate_example =
    execute_message-evaluate true (frame_of subtracter 20) instructions 20
      (u64_to_word 18446744073709551614 ∷ []) (omega arith, (omega arith, (tt, (tt, tt))))
      (refl, (refl, (refl, (refl, refl)))) subtracter_byte (omega arith) (omega arith) tt refl
      (omega arith) subtracter_value

subtracter-IsStorageFree : IsStorageFree (context_of subtracter)
subtracter-IsStorageFree pc inside =
    ground (arith, all-get_or (λ b. not (b == 0x44) && not (b == 0x45)) subtracter pc 0 refl refl)

subtracter_free :
    (pc : ℕ)
    → pc < signed_size (context_of subtracter).code_size
    → is_memory (Optimized.Run.decode ((context_of subtracter).code pc)) ≡ false
unfolding Optimized.Run.decode
subtracter_free pc inside =
    ground
      (arith, all-get_or (λ b. not (is_memory (Optimized.Run.decode b))) subtracter pc 0 refl refl)

execute_machine-evaluate_example :
    (out : Machine) × (Riscv.Run.execute_message (machine_of 32 subtracter 20) ≡ some out)
    × (out.state ≡ completed_success)
    × (items_at out ≡ u64_to_word 18446744073709551614 ∷ [])
unfolding items_below decode
execute_machine-evaluate_example =
    execute_machine-evaluate (regions_of 32 subtracter 20) (machine_of 32 subtracter 20)
      (frame_of subtracter 20) instructions 20 (u64_to_word 18446744073709551614 ∷ [])
      (regions_of-IsSpread 32 subtracter 20) (machine_of-Holds 32 subtracter 20)
      (inr subtracter_free) subtracter-IsStorageFree (omega arith, (omega arith, (tt, (tt, tt))))
      (refl, (refl, (refl, (refl, refl)))) subtracter_byte (omega arith) tt refl (omega arith)
      subtracter_value
