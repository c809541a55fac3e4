-- ===== src/Riscv/Blocks.antt =====
-- The block demo's part of zisk_demo/block_execution_demo_riscv.cpp: the buffer of a transaction's
-- frame, the run of a block on it, and the program.
pub mod Laws
use metaru.Common.{ℕ, ◌+◌, ◌*◌, Option, none, some, List, [], ◌∷◌, ◌==◌, length, u32}
use metaru.Common.Options.{◌>>=◌}
use metaru.Common.Int.{pos}
use metaru.Frame.Memory.{write_bytes}
use metaru.Demo.{Transaction, Block, create_mock_block}
use metaru.Demo.Witness.{WitnessMemory, build_block_witness}
use metaru.Demo.Execution.{signed_u64, state_name, Receipt, balances, Report}
use metaru.Riscv.{Machine}
use metaru.Riscv.Run.{execute_message}

-- The constructor of FrameMemory: 384 bytes of the frame, 1024 items, 1024 bytes of memory, the code.
-- The fields that it does not write are zero, as the buffer is; storage_ptr is one of them.
unfoldable pub new_machine : Transaction → Machine
new_machine tx =
    let header_size : ℕ = 384 in
    let stack_bytes : ℕ = 1024 * 32 in
    let memory_bytes : ℕ = 1024 in
    record {
      pc = 0;
      gas_remaining = signed_u64 tx.gas_limit;
      gas_refund = pos 0;
      stack_size = 0;
      memory_size = 0;
      state = 0;
      halt_reason = 0;
      is_static = 0;
      code_size = u32 (length tx.payload);
      storage_slot_count = 0;
      max_storage_slots = 0;
      contract = tx.target;
      stack_ptr = header_size;
      memory_ptr = header_size + stack_bytes;
      code_ptr = header_size + stack_bytes + memory_bytes;
      storage_ptr = 0;
      bytes = write_bytes (λ _. 0) (header_size + stack_bytes + memory_bytes) tx.payload;
    }

-- What is printed of a transaction's run.
unfoldable pub machine_receipt : Machine → Receipt
unfolding state_name
machine_receipt m = record {
  final_state = state_name m.state;
  gas_remaining = m.gas_remaining;
  gas_refund = m.gas_refund;
  succeeded = m.state == 7;
}

-- The loop over the transactions, each on a buffer of its own.
unfoldable pub run_machines : List Transaction → Option (List Receipt)
unfolding machine_receipt new_machine
run_machines [] = some []
run_machines (tx ∷ txs) = do
  out ← execute_message (new_machine tx)
  rest ← run_machines txs
  some (machine_receipt out ∷ rest)

-- execute_block, with what is printed as the result.
unfoldable pub execute_machine_block : Block → Option Report
unfolding run_machines balances
execute_machine_block block = do
  let w = build_block_witness block
  receipts ← run_machines block.transactions
  some (record { receipts = receipts; final_state = balances w.accounts 0 w.account_count })

unfoldable pub main : Option Report
unfolding execute_machine_block
main = execute_machine_block create_mock_block
