-- ===== src/Riscv/Storage.antt =====
-- SLOAD and SSTORE of zisk_demo/block_execution_demo_riscv.cpp, on entries of 124 bytes
-- (include/storage_memory.h).
use metaru.Common.{
  ℕ, zero, suc, Bool, ◌+◌, ◌*◌, Option, none, some, List, ◌==◌, ◌&&◌, not, leb, if◌then◌else◌,
  set_at,
}
use metaru.Common.Int.{pos, ◌+ℤ◌}
use metaru.Word.{Word, is_zero, same_bytes, zero_word}
use metaru.Frame.Memory.{read_bytes, write_bytes}
use metaru.Jumptable.Ops.{result}
use metaru.Riscv.{
  Machine, Action, ◌>>=◌, ◌>>◌, pure, fail, read, update, halt, stack_top, stack_free, word_at, put,
}
use metaru.Riscv.Ops.{Handler}

-- &entries[i]
abbrev pub entry_ptr : ℕ → ℕ → ℕ
entry_ptr base i = base + i * 124

-- Two memcmp calls: the address, then the key.
unfoldable pub entry_matches : (ℕ → ℕ) → ℕ → List ℕ → Word → Bool
entry_matches bytes pointer address key =
    same_bytes (read_bytes bytes pointer 20) address
    && same_bytes (read_bytes bytes (pointer + 20) 32) key

-- storage::find from index `i`, with `left` entries to go: nullptr, or a pointer to the entry.
unfoldable pub find_from : ℕ → ℕ → (ℕ → ℕ) → ℕ → List ℕ → Word → Option ℕ
unfolding entry_matches
find_from zero i bytes base address key = none
find_from (suc left) i bytes base address key =
    if entry_matches bytes (entry_ptr base i) address key
    then some (entry_ptr base i)
    else find_from left (i + 1) bytes base address key

unfoldable pub find_slot : Word → Machine → Option ℕ
unfolding find_from
find_slot key m = find_from m.storage_slot_count 0 m.bytes m.storage_ptr m.contract key

-- The price of an access, by is_warm.
unfoldable pub access_cost : ℕ → ℕ
access_cost is_warm = if is_warm == 0 then 2100 else 100

-- entry->is_warm = 1
abbrev pub warm : ℕ → Action (Unit {0})
warm entry = update (λ m. record m { bytes = set_at m.bytes (entry + 116) 1 })

-- The item becomes the value of the entry, which is then warm; a missing entry reads as zero.
unfoldable pub load_from : ℕ → Option ℕ → Handler
unfolding access_cost
load_from pointer none = do put pointer zero_word; pure (result 1 2100)
load_from pointer (some entry) = do
  value ← word_at (entry + 52)
  put pointer value
  is_warm ← read (λ m. m.bytes (entry + 116))
  warm entry
  pure (result 1 (access_cost is_warm))

unfoldable pub op_sload : Handler
unfolding stack_top find_slot
op_sload = do
  pointer ← stack_top 0
  key_word ← word_at pointer
  entry ← read (find_slot key_word)
  load_from pointer entry

-- The price of a write to an entry that was found.
unfoldable pub store_cost : Word → Word → Word → ℕ → ℕ
unfolding access_cost
store_cost value current original is_warm =
    if is_zero value
    then access_cost is_warm
    else if is_zero current && not (is_zero original)
    then access_cost is_warm
    else if is_zero current
    then 20000
    else access_cost is_warm

-- A write to an entry that was found. Its parts are read before it is written.
unfoldable pub store_found : ℕ → Word → Handler
unfolding stack_free store_cost
store_found entry value = do
  original ← word_at (entry + 84)
  current ← word_at (entry + 52)
  is_warm ← read (λ m. m.bytes (entry + 116))
  let refund = if is_zero value && not (is_zero current) then 4800 else 0
  update (λ m. record m { gas_refund = m.gas_refund +ℤ pos refund })
  put (entry + 52) value
  warm entry
  _ ← stack_free 2
  pure (result 1 (store_cost value current original is_warm))

-- storage::add: nullptr, or a pointer to the new entry.
unfoldable pub add_slot : Word → Action ℕ
add_slot key m =
    if leb m.max_storage_slots m.storage_slot_count
    then (none, halt 2 m)
    else (let entry = entry_ptr m.storage_ptr m.storage_slot_count in
        let named = write_bytes (write_bytes m.bytes entry m.contract) (entry + 20) key in
        let zeroed =
          write_bytes (write_bytes named (entry + 52) zero_word) (entry + 84) zero_word in
        (
          some entry,
          record m {
            bytes = set_at zeroed (entry + 116) 0;
            storage_slot_count = m.storage_slot_count + 1;
          },
        ))

-- A write to a slot that has no entry.
unfoldable pub store_new : Word → Word → Handler
unfolding stack_free add_slot
store_new key value = do
  entry ← add_slot key
  put (entry + 52) value
  put (entry + 84) value
  warm entry
  _ ← stack_free 2
  pure (result 1 20000)

unfoldable pub store_to : Word → Word → Option ℕ → Handler
unfolding store_found store_new
store_to key value (some entry) = store_found entry value
store_to key value none = store_new key value

-- SSTORE in a call that is not static.
unfoldable pub write_slot : Handler
unfolding stack_top find_slot
write_slot = do
  key_pointer ← stack_top 0
  value_pointer ← stack_top 1
  key_word ← word_at key_pointer
  value_word ← word_at value_pointer
  entry ← read (find_slot key_word)
  store_to key_word value_word entry

-- A static call writes nothing.
unfoldable pub op_sstore : Handler
op_sstore = do
  is_static ← read (λ m. m.is_static)
  if is_static == 0 then write_slot else (update (halt 6) >> fail)
