-- ===== src/Demo/Execution.antt =====
-- zisk_demo/block_execution_demo.cpp: the frame of a transaction, and the run of a block on
-- execute_message of src/evm_optimized.cpp, with what is printed as the result.
pub mod Laws
use metaru.Common.{
  ℕ, zero, suc, ◌+◌, ◌-◌, ◌^◌, Option, none, some, List, [], ◌∷◌, ◌++◌, Bool, true, false, ◌==◌,
  ltb, if◌then◌else◌, replicate, length, get_or, map, u32, leb,
}
use metaru.Common.Options.{◌>>=◌}
use metaru.Enums.{MessageFrameState}
use metaru.Common.Int.{ℤ, pos, negsuc}
use metaru.Word.{Word, zero_word}
use metaru.Frame.{Frame, Context, StorageEntry, completed_success}
use metaru.Loop.{Run}
use metaru.Optimized.Run.{execute_message}
use metaru.Accounts.{AccountEntry, Accounts}
use metaru.Demo.{Transaction, Block}
use metaru.Demo.Witness.{WitnessMemory, build_block_witness}

-- A uint64_t as int64_t.
unfoldable pub signed_u64 : ℕ → ℤ
signed_u64 n = if ltb n (2 ^ 63) then pos n else negsuc (2 ^ 64 - n - 1)

abbrev pub blank_slot : StorageEntry
blank_slot = record {
  address = replicate 20 0;
  key = zero_word;
  value = zero_word;
  original = zero_word;
  is_warm = 0;
}

-- The constructor of FrameMemory, for the transaction's parts: the fields that it does not write are
-- zero, as the buffer is.
abbrev pub init_frame : List ℕ → List ℕ → Word → ℕ → ℕ → (ℕ → ℕ) → Frame
init_frame origin target value gas_limit code_size code = record {
  pc = 0;
  gas_remaining = signed_u64 gas_limit;
  gas_refund = pos 0;
  stack_size = 0;
  memory_size = 0;
  state = 0;
  halt_reason = 0;
  storage_slot_count = 0;
  stack = λ _. zero_word;
  memory = λ _. 0;
  storage = λ _. blank_slot;
  context = record {
    section = 0;
    type = 0;
    is_static = 0;
    depth = 0;
    code_size = u32 code_size;
    input_size = 0;
    output_size = 0;
    return_data_size = 0;
    logs_count = 0;
    warm_addresses_count = 0;
    warm_storage_count = 0;
    max_storage_slots = 0;
    recipient = target;
    sender = origin;
    contract = target;
    originator = origin;
    mining_beneficiary = replicate 20 0;
    value = value;
    apparent_value = zero_word;
    gas_price = zero_word;
    code = code;
  };
}

unfoldable pub new_frame : Transaction → Frame
new_frame tx =
    init_frame tx.origin tx.target tx.value tx.gas_limit (length tx.payload)
      (λ i. get_or tx.payload i 0)

-- The texts of the array state_names: the enum's names, and one that it has not.
pub data StateName : Type 0 where
  named : MessageFrameState → StateName
  invalid : StateName

abbrev pub state_names : List StateName
state_names =
    named MessageFrameState.not_started
    ∷ named MessageFrameState.code_executing
    ∷ named MessageFrameState.code_suspended
    ∷ named MessageFrameState.code_success
    ∷ named MessageFrameState.exceptional_halt
    ∷ named MessageFrameState.revert
    ∷ invalid
    ∷ named MessageFrameState.completed_success
    ∷ named MessageFrameState.completed_failed
    ∷ []

-- A number that an int cannot hold is negative there, so the test puts it to 0 too.
unfoldable pub state_name : ℕ → StateName
state_name state = get_or state_names (if leb state 8 then state else 0) invalid

-- What is printed of a transaction's run.
pub record Receipt : Type 0 where
  pub final_state : StateName
  pub gas_remaining : ℤ
  pub gas_refund : ℤ
  pub succeeded : Bool

unfoldable pub receipt : Frame → Receipt
unfolding state_name
receipt f = record {
  final_state = state_name f.state;
  gas_remaining = f.gas_remaining;
  gas_refund = f.gas_refund;
  succeeded = f.state == completed_success;
}

-- The loop over the transactions, each on a frame of its own, without a tracer.
unfoldable pub run_all : List Transaction → Option (List Receipt)
unfolding receipt
run_all [] = some []
run_all (tx ∷ txs) = do
  out ← execute_message false (new_frame tx)
  rest ← run_all txs
  some (receipt out.frame ∷ rest)

-- The address, balance and nonce of `left` accounts from index `i` on.
unfoldable pub balances : Accounts → ℕ → ℕ → List (List ℕ × Word × ℕ)
balances accounts i zero = []
balances accounts i (suc left) =
    ((accounts i).address, (accounts i).balance, (accounts i).nonce)
    ∷ balances accounts (i + 1) left

pub record Report : Type 0 where
  pub receipts : List Receipt
  pub final_state : List (List ℕ × Word × ℕ)

-- No interpreter reaches the witness, so it is printed as it was built.
unfoldable pub execute_block : Block → Option Report
unfolding run_all balances
execute_block block = do
  let w = build_block_witness block
  receipts ← run_all block.transactions
  some (record { receipts = receipts; final_state = balances w.accounts 0 w.account_count })
