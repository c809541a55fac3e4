-- ===== src/Testing/Runs.antt =====
-- Runs of the interpreters on small programs.
use metaru.Testing.{frame_of, adder, storer}
use metaru.Common.{ℕ, ◌≡◌, refl, some, List, [], ◌∷◌, true}
use metaru.Common.Int.{pos_part, ◌-ℤ◌}
use metaru.Word.{u64_to_word, word_to_u64, same_bytes}
use metaru.Loop.{Run}
use metaru.Evm
use metaru.Evm.Ops.{push_word}
use metaru.Jumptable
use metaru.Jumptable.Ops.{result}
use metaru.Optimized
use metaru.Optimized.Storage.{find_slot, op_sload, op_sstore}
use mathlib.Core.Option

-- State, reason, gas, stack size, and the low bits of the item at the bottom.
abbrev summary : Run → List ℕ
summary r =
    r.frame.state
    ∷ r.frame.halt_reason
    ∷ pos_part r.frame.gas_remaining
    ∷ r.frame.stack_size
    ∷ word_to_u64 (r.frame.stack 0)
    ∷ []

add_run :
    Option.map summary (Evm.Run.execute_message true (frame_of adder 100))
    ≡ some (7 ∷ 0 ∷ 91 ∷ 1 ∷ 8 ∷ [])
unfolding Evm.Run.execute_message word_to_u64 ◌-ℤ◌ Evm.Ops.op_push Evm.Ops.op_add Evm.Ops.binary
    Evm.Ops.op_stop u64_to_word
add_run = refl

table_add_run :
    Option.map summary (Jumptable.Run.execute_message true (frame_of adder 100))
    ≡ some (7 ∷ 0 ∷ 91 ∷ 1 ∷ 8 ∷ [])
unfolding Jumptable.Run.execute_message word_to_u64 ◌-ℤ◌ Jumptable.Ops.op_push_n
    Jumptable.Ops.op_add Jumptable.Ops.binary Jumptable.Ops.op_stop u64_to_word
table_add_run = refl

store_run :
    Option.map summary (Optimized.Run.execute_message true (frame_of storer 100000))
    ≡ some (7 ∷ 0 ∷ 79891 ∷ 1 ∷ 7 ∷ [])
unfolding Optimized.Run.execute_message word_to_u64 ◌-ℤ◌ Optimized.Ops.op_push_n
    Optimized.Ops.push_item Optimized.Ops.op_stop u64_to_word Optimized.Storage.op_sstore
    Optimized.Storage.write_slot Optimized.Storage.store_to Optimized.Storage.store_new
    Optimized.Storage.op_sload Optimized.Storage.load_from Optimized.Storage.find_slot push_word
    same_bytes
store_run = refl

-- The same with 0x55 and 0x54, which the switch calls SSTORE and SLOAD: both are stubs, so the
-- items stay and there is no entry.
stub_run :
    Option.map
      (λ (r : Run). r.frame.storage_slot_count ∷ summary r)
      (Optimized.Run.execute_message true
        (frame_of (0x60 ∷ 7 ∷ 0x60 ∷ 1 ∷ 0x55 ∷ 0x60 ∷ 1 ∷ 0x54 ∷ 0x00 ∷ []) 100000))
    ≡ some (0 ∷ 7 ∷ 0 ∷ 99985 ∷ 3 ∷ 7 ∷ [])
unfolding Optimized.Run.execute_message word_to_u64 ◌-ℤ◌ Optimized.Ops.op_push_n
    Optimized.Ops.push_item Optimized.Ops.op_stop Optimized.Ops.op_stub push_word u64_to_word
stub_run = refl
