-- ===== src/Optimized/Storage.antt =====
-- SLOAD and SSTORE of src/evm_optimized.cpp.
pub mod Laws
use metaru.Common.{
  ℕ, Bool, true, false, ◌+◌, Option, none, some, ◌==◌, not, ◌&&◌, if◌then◌else◌, set_at,
}
use metaru.Common.Int.{ℤ, pos, ◌+ℤ◌}
use metaru.Word.{Word, is_zero, zero_word}
use metaru.Frame.{
  Frame, Context, StorageEntry, Command, ◌>>=◌, ◌>>◌, pure, fail, read, update, halt,
}
use metaru.Frame.Stack.{store_item}
use metaru.Storage.{find, add}
use metaru.Jumptable.Ops.{result, Handler}
use metaru.Optimized.Ops.{stack_top, stack_free, item_at}

-- The lookup under the contract's address.
unfoldable pub find_slot : Word → Frame → Option ℕ
unfolding find
find_slot key f = find f.storage f.storage_slot_count f.context.contract key

abbrev pub store_entry : ℕ → (StorageEntry → StorageEntry) → Frame → Frame
store_entry i change f = record f { storage = set_at f.storage i (change (f.storage i)) }

-- The price of an access to an entry.
unfoldable pub access_cost : StorageEntry → ℕ
access_cost e = if e.is_warm == 0 then 2100 else 100

-- The item at `slot` becomes the value, and the entry warm; a missing entry reads as zero.
unfoldable pub load_from : ℕ → Option ℕ → Handler
unfolding access_cost
load_from slot none = do store_item slot zero_word; pure (result 1 2100)
load_from slot (some i) = do
  entry ← read (λ f. f.storage i)
  store_item slot entry.value
  update (store_entry i (λ e. record e { is_warm = 1 }))
  pure (result 1 (access_cost entry))

unfoldable pub op_sload : Handler
unfolding stack_top
op_sload = do
  slot ← stack_top 0
  key_word ← item_at slot
  entry ← read (find_slot key_word)
  load_from slot entry

-- The price of a write to an entry that was found.
unfoldable pub store_cost : Word → StorageEntry → ℕ
unfolding access_cost
store_cost value entry =
    if is_zero value
    then access_cost entry
    else if is_zero entry.value && not (is_zero entry.original)
    then access_cost entry
    else if is_zero entry.value
    then 20000
    else access_cost entry

-- A slot that goes from a value to zero is refunded.
unfoldable pub refund : Word → StorageEntry → ℕ
refund value entry = if is_zero value && not (is_zero entry.value) then 4800 else 0

-- A write to entry `i`.
unfoldable pub store_found : ℕ → Word → Handler
unfolding stack_free store_cost refund
store_found i value = do
  entry ← read (λ f. f.storage i)
  update (λ f. record f { gas_refund = f.gas_refund +ℤ pos (refund value entry) })
  update (store_entry i (λ e. record e { value = value; is_warm = 1 }))
  _ ← stack_free 2
  pure (result 1 (store_cost value entry))

-- A new entry, where there is room.
unfoldable pub add_slot : Word → Command ℕ
unfolding add
add_slot key f =
    elim (add f.storage f.storage_slot_count f.context.max_storage_slots f.context.contract key) [
      | none ↦ (none, halt 2 f)
      | some (entries, count, i) ↦
          (some i, record f { storage = entries; storage_slot_count = count })
    ]

-- A write to a slot that has no entry.
unfoldable pub store_new : Word → Word → Handler
unfolding stack_free add_slot
store_new key value = do
  i ← add_slot key
  update (store_entry i (λ e. record e { value = value; original = value; is_warm = 1 }))
  _ ← stack_free 2
  pure (result 1 20000)

unfoldable pub store_to : Word → Word → Option ℕ → Handler
unfolding store_found store_new
store_to key value (some i) = store_found i value
store_to key value none = store_new key value

-- SSTORE in a call that is not static.
unfoldable pub write_slot : Handler
unfolding stack_top
write_slot = do
  key_slot ← stack_top 0
  value_slot ← stack_top 1
  key_word ← item_at key_slot
  value_word ← item_at value_slot
  entry ← read (find_slot key_word)
  store_to key_word value_word entry

-- A static call writes nothing.
unfoldable pub op_sstore : Handler
op_sstore = do
  is_static ← read (λ f. f.context.is_static)
  if is_static == 0 then write_slot else (update (halt 6) >> fail)
