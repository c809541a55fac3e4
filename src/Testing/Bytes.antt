-- ===== src/Testing/Bytes.antt =====
-- The interpreter on bytes.
use metaru.Common.{
  map, ℕ, ◌+◌, ◌<◌, ◌≡◌, refl, some, [], ◌∷◌, replicate, get_or, false, arith, not, all-get_or, All,
}
use metaru.Common.Int.{◌-ℤ◌}
use metaru.Word.{word_to_u64, zero_word}
use metaru.Frame.Memory.{read_bytes, write_bytes}
use metaru.Loop.{Run}
use metaru.Evm.Ops.{bytes_to_copy}
use metaru.Optimized
use metaru.Demo.{Transaction, create_mock_block}
use metaru.Demo.Execution.{Report, execute_block, signed_u64}
use metaru.Riscv
use metaru.Riscv.{Machine}
use metaru.Riscv.Holds.{Holds, IsOutside}
use metaru.Riscv.Room.{is_memory}
use metaru.Optimized.Run.{decode}
use metaru.Riscv.Refine.{riscv-Refines, execute_message-IsOutside}
use metaru.Riscv.Blocks.{new_machine, execute_machine_block}
use metaru.Riscv.Blocks.Laws.{
  IsContained, free-IsContained, execute_machine_block-eq-execute_block, execute_machine_block_lem,
}
use metaru.Demo.Execution.Laws.{AllPairs, summary}
use metaru.Demo.Witness.Laws.{listing}
use mathlib.Core.Option
use metaru.Testing.{frame_of}
use metaru.Testing.Room.{
  storing, machine_of, regions_of, regions_of-IsSpread, machine_of-Holds, storing-StaysInRoom,
}

riscv-Refines_example :
    (out : Machine) × (r : Run) × (Riscv.Run.execute_message (machine_of 32 storing 100) ≡ some out)
    × (Optimized.Run.execute_message false (frame_of storing 100) ≡ some r)
    × Holds (regions_of 32 storing 100) out r.frame
riscv-Refines_example =
    riscv-Refines (regions_of 32 storing 100) (machine_of 32 storing 100) (frame_of storing 100)
      (regions_of-IsSpread 32 storing 100) (machine_of-Holds 32 storing 100) storing-StaysInRoom

execute_message-IsOutside_example :
    (out : Machine) × (Riscv.Run.execute_message (machine_of 32 storing 100) ≡ some out)
    × ((i : ℕ)
        → IsOutside (regions_of 32 storing 100) i
        → out.bytes i ≡ (machine_of 32 storing 100).bytes i)
    × ((i : ℕ)
        → i < 5
        → out.bytes (33280 + 32 + i) ≡ (machine_of 32 storing 100).bytes (33280 + 32 + i))
execute_message-IsOutside_example =
    execute_message-IsOutside (regions_of 32 storing 100) (machine_of 32 storing 100)
      (frame_of storing 100) (regions_of-IsSpread 32 storing 100) (machine_of-Holds 32 storing 100)
      storing-StaysInRoom

payload_free :
    (i : ℕ) → i < 6 → is_memory (decode (get_or (0x60 ∷ 5 ∷ 0x60 ∷ 0x0a ∷ 1 ∷ 0 ∷ []) i 0)) ≡ false
unfolding decode
payload_free i h = ground (
  arith,
  all-get_or (λ b. not (is_memory (decode b))) (0x60 ∷ 5 ∷ 0x60 ∷ 0x0a ∷ 1 ∷ 0 ∷ []) i 0 refl refl,
)

mock_block-IsContained : All IsContained create_mock_block.transactions
unfolding create_mock_block
mock_block-IsContained = (
  free-IsContained _ refl (λ i h. absurd (omega arith)),
  (free-IsContained _ refl payload_free, tt),
)

execute_machine_block-eq-execute_block_example :
    (report : Report) × (execute_machine_block create_mock_block ≡ some report)
    × (execute_block create_mock_block ≡ some report)
execute_machine_block-eq-execute_block_example =
    execute_machine_block-eq-execute_block create_mock_block mock_block-IsContained

execute_machine_block_lem_example :
    (report : Report) × (execute_machine_block create_mock_block ≡ some report)
    × AllPairs create_mock_block.transactions report.receipts
    × (report.final_state ≡ map summary (listing create_mock_block))
execute_machine_block_lem_example =
    execute_machine_block_lem create_mock_block mock_block-IsContained

-- PUSH1 0xfe, PUSH2 0x0406, MSTORE8, STOP. The access is to byte 6 of the code, behind the 1024 bytes of
-- the buffer's memory, and the byte that is written there runs as INVALID.
abbrev self_writing : Transaction
self_writing = record {
  origin = replicate 20 1;
  target = replicate 20 2;
  value = zero_word;
  payload = 0x60 ∷ 0xfe ∷ 0x61 ∷ 0x04 ∷ 0x06 ∷ 0x53 ∷ 0 ∷ [];
  gas_limit = 100;
  gas_price = zero_word;
}

self_writing_halts :
    Option.map
      (λ (m : Machine). m.state ∷ m.halt_reason ∷ [])
      (Riscv.Run.execute_message (new_machine self_writing))
    ≡ some (4 ∷ 2 ∷ [])
unfolding Riscv.Run.execute_message new_machine signed_u64 decode write_bytes Riscv.Ops.op_push_n
    ◌-ℤ◌ read_bytes bytes_to_copy Riscv.Ops.op_mstore8 word_to_u64 Riscv.Ops.op_invalid
self_writing_halts = refl
