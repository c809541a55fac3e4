-- ===== src/Testing/Blocks.antt =====
-- The demo's mock block and its buffers.
use metaru.Common.{
  drop, ℕ, ◌+◌, ◌*◌, ◌≡◌, ◌≢◌, ◌≤◌, ◌⊎◌, ◌↔◌, refl, some, [], ◌∷◌, replicate, get_or, true, arith,
}
use metaru.Common.Int.{pos, ◌-ℤ◌}
use metaru.Enums.{MessageFrameState}
use metaru.Accounts.{find_account}
use metaru.Word.{u64_to_word, word_to_u64}
use metaru.Evm.Ops.{push_word}
use metaru.Optimized
use metaru.Demo.{create_mock_block, set_address}
use metaru.Demo.Text.{print_address, set_address-print_address}
use metaru.Demo.Witness.{blank, build_block_witness}
use metaru.Demo.Witness.Laws.{
  IsFilled, listing, build_block_witness_lem, find_account-build_block_witness,
}
use metaru.Demo.Execution.{named, signed_u64, new_frame, run_all}
use metaru.Demo.Bare.{
  create_bare_mock_block, BareTransaction, BareBlock, build_bare_witness, max_witness_size,
}
use metaru.Demo.Bare.Laws.{to_block, listed, build_bare_witness-size}

-- The receipts of the mock block: a transfer, and a call of 3 operations and STOP.
mock_receipts :
    run_all create_mock_block.transactions
    ≡ some (
        record {
          final_state = named MessageFrameState.completed_success;
          gas_remaining = pos 21000;
          gas_refund = pos 0;
          succeeded = true;
        }
        ∷ record {
          final_state = named MessageFrameState.completed_success;
          gas_remaining = pos 99991;
          gas_refund = pos 0;
          succeeded = true;
        }
        ∷ [])
unfolding run_all create_mock_block new_frame Optimized.Run.execute_message word_to_u64 ◌-ℤ◌
    u64_to_word Optimized.Ops.op_push_n Optimized.Ops.push_item Optimized.Ops.op_stop
    Optimized.Ops.op_add Optimized.Ops.binary push_word signed_u64
mock_receipts = refl

build_block_witness_lem_example :
    let w = build_block_witness create_mock_block in
    IsFilled 7 100 (listing create_mock_block) w
    × (w.account_count ≡ 5)
    × (w.account_count ≤ w.max_accounts)
    × (w.accounts_ptr + w.max_accounts * 128 ≡ w.storage_ptr)
    × (w.storage_ptr + w.max_storage * 124 ≡ w.size)
unfolding create_mock_block
build_block_witness_lem_example = build_block_witness_lem create_mock_block

-- The second transaction has the sender of the first.
find_account-build_block_witness_example :
    let w = build_block_witness create_mock_block in
    let address = (get_or (listing create_mock_block) 3 blank).address in
    (j : ℕ) × (find_account w.accounts w.account_count address ≡ some j)
    × ((get_or (listing create_mock_block) j blank).address ≡ address)
    × (j ≤ 3)
    × ((j ≤ 1) ⊎ ((get_or (listing create_mock_block) 1 blank).address ≢ address))
unfolding create_mock_block
find_account-build_block_witness_example =
    find_account-build_block_witness create_mock_block 3 1 (omega arith) (omega arith)

abbrev bare_transaction : BareTransaction
bare_transaction = record {
  origin = replicate 20 1;
  target = replicate 20 2;
  value = u64_to_word 0;
  payload = λ i. get_or (0x60 ∷ 5 ∷ []) i 0;
  data_size = 2;
  gas_limit = 50;
  gas_price = u64_to_word 1;
}

abbrev bare_block : BareBlock
bare_block = record {
  number = 1;
  coinbase = replicate 20 9;
  gas_limit = 100;
  timestamp = 5;
  transactions = λ _. bare_transaction;
  tx_count = 8;
}

-- Two calls, of PUSH1.
abbrev two_calls : BareBlock
two_calls = record bare_block { tx_count = 2 }

build_bare_witness-size_example :
    (((build_bare_witness bare_block).size ≤ max_witness_size) ↔ (8 ≤ 6))
    × ((build_bare_witness bare_block).accounts_ptr
          + (build_bare_witness bare_block).account_count * 128
        ≤ max_witness_size)
build_bare_witness-size_example = build_bare_witness-size bare_block (omega arith)

set_address-print_address_example :
    set_address (replicate 3 0) (drop 2 (print_address (17 ∷ 0 ∷ 255 ∷ []))) ≡ 17 ∷ 0 ∷ 255 ∷ []
set_address-print_address_example =
    set_address-print_address (17 ∷ 0 ∷ 255 ∷ []) (replicate 3 0) (omega arith) refl

-- Both demos have the same mock block, whatever stands in the int that the second does not
-- initialise.
same_mock_block : (byte : ℕ → ℕ) → to_block (create_bare_mock_block byte) ≡ create_mock_block
unfolding create_bare_mock_block create_mock_block listed
same_mock_block byte = refl
