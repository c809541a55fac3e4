-- ===== src/Testing.antt =====
-- Frames and programs for the tests.
pub mod Runs
pub mod Machine
pub mod Data
pub mod Numbers
pub mod Blocks
pub mod Layouts
pub mod Turns
pub mod Programs
pub mod Room
pub mod Bytes
use metaru.Common.{
  ℕ, ◌≡◌, ◌≢◌, ◌≤◌, ◌<◌, ◌+◌, ◌-◌, ◌%◌, ◌^◌, ◌⊎◌, ◌↔◌, refl, none, some, List, [], ◌∷◌, get_or,
  true, false, length, All, replicate, arith, if◌then◌else◌, ◌==◌, set_at,
}
use metaru.Common.Int.{pos, pos_part, ◌-ℤ◌}
use metaru.Word.{IsWord, zero_word, u64_to_word, word_to_u64, value, is_zero, same_bytes}
use metaru.Word.Laws.{
  u64_to_word-IsWord, word_to_u64-eq-value, word_to_u64-u64_to_word, is_zero_iff, same_bytes_iff,
}
use metaru.Frame.{Frame, Context, StorageEntry, halt}
use metaru.Frame.Items.{items, items_below}
use metaru.Frame.Stack.{stack_push}
use metaru.Frame.Memory.{ensure_memory, memory_limit, grow}
use metaru.Frame.Memory.Laws.{ensure_memory_covers, ensure_memory_wraps}
use metaru.Instr
use metaru.Loop.{Run}
use metaru.Loop.Sound.{IsEnded}
use metaru.Loop.Tracing.{final_frame}
use metaru.Storage.{find, matches}
use metaru.Storage.Laws.{find_sound, find_complete}
use metaru.Evm
use metaru.Evm.Ops.{push_word}
use metaru.Evm.Agree.{unpriced, perform-eq-unpriced}
use metaru.Evm.Ends.{evm_ends}
use metaru.Evm.Tracing.{evm_untraced}
use metaru.Jumptable
use metaru.Jumptable.Ops.{result}
use metaru.Jumptable.Items.{left_on_stack}
use metaru.Jumptable.Values.{effect, perform_lem}
use metaru.Jumptable.Memory.{op_mload-op_mstore}
use metaru.Jumptable.Ends.{jumptable_ends}
use metaru.Jumptable.Tracing.{jumptable_traced, jumptable_untraced, IsTracedOut}
use metaru.Optimized
use metaru.Optimized.Storage.{find_slot, op_sload, op_sstore}
use metaru.Optimized.Storage.Laws.{
  held, lookup_cost, write_cost, HasRoom, op_sload_lem, op_sstore_lem, op_sstore_failure,
}
use metaru.Optimized.Equiv.{optimized-eq-jumptable, SameRun, IsStorageFree}
use metaru.Optimized.Ends.{optimized_ends}
use metaru.Optimized.Tracing.{optimized_traced, optimized_untraced}
use mathlib.Core.Option

-- A context for the code, in a call that is not static.
abbrev pub context_of : List ℕ → Context
context_of code = record {
  section = 0;
  type = 1;
  is_static = 0;
  depth = 0;
  code_size = length code;
  input_size = 0;
  output_size = 0;
  return_data_size = 0;
  logs_count = 0;
  warm_addresses_count = 0;
  warm_storage_count = 0;
  max_storage_slots = 4;
  recipient = replicate 20 2;
  sender = replicate 20 1;
  contract = replicate 20 2;
  originator = replicate 20 1;
  mining_beneficiary = replicate 20 9;
  value = zero_word;
  apparent_value = zero_word;
  gas_price = zero_word;
  code = λ i. get_or code i 0;
}

abbrev pub empty_entry : StorageEntry
empty_entry = record {
  address = replicate 20 0;
  key = zero_word;
  value = zero_word;
  original = zero_word;
  is_warm = 0;
}

-- A fresh frame.
abbrev pub frame_of : List ℕ → ℕ → Frame
frame_of code gas = record {
  pc = 0;
  gas_remaining = pos gas;
  gas_refund = pos 0;
  stack_size = 0;
  memory_size = 0;
  state = 0;
  halt_reason = 0;
  storage_slot_count = 0;
  stack = λ _. zero_word;
  memory = λ _. 0;
  storage = λ _. empty_entry;
  context = context_of code;
}

abbrev pub adder : List ℕ
adder = 0x60 ∷ 5 ∷ 0x60 ∷ 3 ∷ 0x01 ∷ 0x00 ∷ 0x00 ∷ []

abbrev pub storer : List ℕ
storer = 0x60 ∷ 7 ∷ 0x60 ∷ 1 ∷ 0x45 ∷ 0x60 ∷ 1 ∷ 0x44 ∷ 0x00 ∷ []

abbrev pub two_items : Frame
two_items = record (frame_of adder 100) {
  stack_size = 2;
  stack = λ i. if i == 0 then u64_to_word 5 else u64_to_word 3;
}

-- SSTORE of 5 under key 3, in a call that is not static, with room.
abbrev pub stored_entry : StorageEntry
stored_entry = record {
  address = replicate 20 2;
  key = u64_to_word 3;
  value = u64_to_word 9;
  original = u64_to_word 9;
  is_warm = 0;
}

abbrev pub with_entry : Frame
with_entry = record two_items { storage_slot_count = 1; storage = λ _. stored_entry }

abbrev pub full_storage : Frame
full_storage = record two_items { context = record (context_of adder) { max_storage_slots = 0 } }
