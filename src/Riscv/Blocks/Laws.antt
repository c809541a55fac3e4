-- ===== src/Riscv/Blocks/Laws.antt =====
-- The program that works on bytes reports what the block demo does.
use metaru.Common.{
  map, ap, ℕ, ◌+◌, ◌*◌, ◌<◌, ◌≡◌, refl, ◌∙◌, inl, inr, some, List, [], ◌∷◌, All, length, u32,
  get_or, arith, false,
}
use metaru.Frame.Memory.{write_bytes}
use metaru.Frame.Memory.Laws.{write_bytes_outside, read_bytes-agree}
use metaru.Layout.Overlap.{read_bytes-zero, write_bytes-get_or}
use metaru.Loop.{Run}
use metaru.Optimized.Run.{decode}
use metaru.Demo.{Transaction, Block}
use metaru.Demo.Execution.{new_frame, receipt, run_all, execute_block, Report}
use metaru.Demo.Execution.Laws.{execute_block_lem, AllPairs, summary}
use metaru.Demo.Witness.Laws.{listing}
use metaru.Riscv.{Machine}
use metaru.Riscv.Holds.{Regions, IsSpread, Holds}
use metaru.Loop.Steps.{start}
use metaru.Riscv.Room.{StaysInRoom, HasRoom-StaysInRoom, is_memory}
use metaru.Riscv.Refine.{riscv-Refines}
use metaru.Riscv.Blocks.{new_machine, machine_receipt, run_machines, execute_machine_block}

-- The buffer of a transaction: 1024 bytes of memory, no storage.
abbrev pub buffer : Transaction → Regions
buffer tx = record {
  stack_ptr = 384;
  memory_ptr = 33152;
  code_ptr = 34176;
  storage_ptr = 0;
  room = 1024;
  slots = 0;
  code_size = u32 (length tx.payload);
  rest = (new_machine tx).bytes;
}

buffer-IsSpread : (tx : Transaction) → IsSpread (buffer tx)
buffer-IsSpread tx = record {
  stack_memory = inl (omega arith);
  stack_code = inl (omega arith);
  stack_storage = inr (omega arith);
  memory_code = inl (omega arith);
  memory_storage = inr (omega arith);
  code_storage = inr (omega arith);
}

new_machine-Holds :
    (tx : Transaction) → length tx.target ≡ 20 → Holds (buffer tx) (new_machine tx) (new_frame tx)
unfolding new_machine new_frame
new_machine-Holds tx named =
    let outside : (i : ℕ) → i < 34176 → write_bytes (λ _. 0) 34176 tx.payload i ≡ 0 =
      λ i h. write_bytes_outside (λ _. 0) 34176 tx.payload i (inl h) in
    record {
      fields = ground arith;
      content = record {
        stack_at = λ i h.
            read_bytes-agree (write_bytes (λ _. 0) 34176 tx.payload) (λ _. 0) (384 + i * 32) 32
              (λ k p q. outside k (omega arith))
            ∙ read_bytes-zero (384 + i * 32) 32;
        memory_at = λ i h. outside (33152 + i) (omega arith);
        code_at =
            λ i h. write_bytes-get_or (λ _. 0) 34176 (34176 + i) i tx.payload refl (omega arith);
        storage_at = λ i h. absurd (omega arith);
        rest_at = λ i h. refl;
      };
    }

-- A transaction to an address of 20 bytes, whose run reaches no byte outside its memory.
abbrev pub IsContained : Transaction → Type 0
IsContained tx = (length tx.target ≡ 20) × StaysInRoom (buffer tx) (start (new_frame tx))

-- Without MLOAD, MSTORE and MSTORE8 it reaches none.
pub free-IsContained :
    (tx : Transaction)
    → length tx.target ≡ 20
    → ((i : ℕ) → i < length tx.payload → is_memory (decode (get_or tx.payload i 0)) ≡ false)
    → IsContained tx
unfolding new_frame
free-IsContained tx named free = (
  named,
  HasRoom-StaysInRoom (buffer tx) (new_frame tx) (omega arith)
      (inr (λ pc h. free pc (ground arith))),
)

-- Bytes that hold a frame give the frame's receipt.
receipt_same :
    (g : Regions) (m : Machine) (out : Run)
    → Holds g m out.frame
    → machine_receipt m ≡ receipt out.frame
unfolding machine_receipt receipt
receipt_same g m out h = rw (h.fields.state, h.fields.gas_remaining, h.fields.gas_refund) refl

run_machines_same : (txs : List Transaction) → All IsContained txs → run_machines txs ≡ run_all txs
unfolding run_machines run_all
run_machines_same [] contained = refl
run_machines_same (tx ∷ txs) contained =
    let (out, r, ran, ends, holds) =
      riscv-Refines (buffer tx) (new_machine tx) (new_frame tx) (buffer-IsSpread tx)
        (new_machine-Holds tx contained.0.0) contained.0.1 in
    rw (ran, ends, run_machines_same txs contained.1, receipt_same (buffer tx) out r holds) refl

-- Let a block's transactions be to addresses of 20 bytes, and let ensure_memory, at each MLOAD,
-- MSTORE and MSTORE8 that the block demo comes to, allow only what lies in the 1024 bytes of
-- memory. Then the block runs to the same report in the program that works on bytes as in the block
-- demo.
pub execute_machine_block-eq-execute_block :
    (block : Block)
    → All IsContained block.transactions
    → (report : Report) × (execute_machine_block block ≡ some report)
      × (execute_block block ≡ some report)
unfolding execute_machine_block execute_block
execute_machine_block-eq-execute_block block contained =
    let (report, ran, _, _) = execute_block_lem block in
    (report, rw (run_machines_same block.transactions contained) ran, ran)

-- Let a block's transactions be to addresses of 20 bytes, and let ensure_memory, at each MLOAD,
-- MSTORE and MSTORE8 that they come to, allow only what lies in the 1024 bytes of memory. Then the
-- block runs on the bytes to a report. It has a receipt for each transaction in turn, which says
-- success or exceptional halt by the state's right name, with no more gas than the limit; a
-- transaction without code succeeds and keeps its gas. The accounts are listed as the witness was
-- built.
pub execute_machine_block_lem :
    (block : Block)
    → All IsContained block.transactions
    → (report : Report) × (execute_machine_block block ≡ some report)
      × AllPairs block.transactions report.receipts
      × (report.final_state ≡ map summary (listing block))
execute_machine_block_lem block contained =
    let (report, ran, told, listed) = execute_block_lem block in
    let (report', on_bytes, ran') = execute_machine_block-eq-execute_block block contained in
    let same : report' ≡ report = cc (ran, ran') in (report, on_bytes ∙ ap some same, told, listed)
