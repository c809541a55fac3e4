-- ===== src/Testing/Data.antt =====
-- The properties of words, memory, storage and accounts at concrete values.
use metaru.Testing.{empty_entry, two_items, stored_entry, with_entry, full_storage}
use metaru.Accounts.{
  AccountEntry, Accounts, find_account, add_account, transfer_value, is_empty_account,
  mark_warm_account,
}
use metaru.Accounts.Laws.{transfer_value_iff, add_account_lem}
use metaru.Common.{
  Option, ℕ, ◌≡◌, ◌≢◌, ◌≤◌, ◌<◌, ◌%◌, ◌^◌, ◌⊎◌, ◌↔◌, refl, none, some, List, true, replicate, arith,
  if◌then◌else◌, ◌==◌,
}
use metaru.Word.{zero_word, u64_to_word, word_to_u64, value, same_bytes}
use metaru.Word.Laws.{u64_to_word-IsWord, word_to_u64_lem}
use metaru.Frame.{StorageEntry, halt}
use metaru.Frame.Memory.{ensure_memory}
use metaru.Frame.Memory.Laws.{ensure_memory_wraps}
use metaru.Storage.{find, matches}
use metaru.Storage.Laws.{find_lem}
use metaru.Jumptable.Ops.{result}
use metaru.Optimized
use metaru.Optimized.Storage.{find_slot, op_sload, op_sstore}
use metaru.Optimized.Storage.Laws.{
  held, lookup_cost, write_cost, HasRoom, op_sload_lem, op_sstore_lem, op_sstore_failure,
}

has_room : HasRoom two_items (find_slot (u64_to_word 3) two_items)
unfolding find_slot find
has_room = omega arith

op_sstore_lem_example :
    ((op_sstore two_items).0
      ≡ some
          (result 1 (write_cost (u64_to_word 5) two_items (find_slot (u64_to_word 3) two_items))))
    × (held (u64_to_word 3) (op_sstore two_items).1 ≡ (
        if same_bytes (u64_to_word 3) (u64_to_word 3)
        then u64_to_word 5
        else held (u64_to_word 3) two_items))
    × ((op_sstore two_items).1.stack_size ≡ 0)
op_sstore_lem_example = op_sstore_lem two_items (u64_to_word 3) refl (omega arith) has_room

op_sload_lem_example :
    ((op_sload with_entry).0
      ≡ some (result 1 (lookup_cost with_entry (find_slot (u64_to_word 3) with_entry))))
    × ((op_sload with_entry).1.stack 1 ≡ held (u64_to_word 3) with_entry)
    × (held (u64_to_word 4) (op_sload with_entry).1 ≡ held (u64_to_word 4) with_entry)
    × ((op_sload with_entry).1.stack_size ≡ 2)
op_sload_lem_example = op_sload_lem with_entry (u64_to_word 4) (omega arith)

no_room : (op_sstore full_storage).0 ≡ none
unfolding op_sstore Optimized.Storage.write_slot Optimized.Storage.store_to
    Optimized.Storage.store_new find_slot find
no_room = refl

op_sstore_failure_example :
    ((op_sstore full_storage ≡ (none, halt 6 full_storage)) × (full_storage.context.is_static ≢ 0))
    ⊎ ((op_sstore full_storage ≡ (none, halt 2 full_storage))
        × (find_slot (u64_to_word 3) full_storage ≡ none)
        × (full_storage.context.max_storage_slots ≤ full_storage.storage_slot_count))
op_sstore_failure_example = op_sstore_failure full_storage (omega arith) no_room

abbrev entries : ℕ → StorageEntry
entries i = if i == 1 then stored_entry else empty_entry

finds : find entries 3 (replicate 20 2) (u64_to_word 3) ≡ some 1
unfolding find matches same_bytes u64_to_word
finds = refl

ensure_memory_wraps_example :
    ((ensure_memory 4294967290 32 two_items).0 ≡ some tt)
    × ((ensure_memory 4294967290 32 two_items).1.memory_size < 4294967290)
ensure_memory_wraps_example =
    ensure_memory_wraps 4294967290 two_items (omega arith) (omega arith) (omega arith)

abbrev account : List ℕ → ℕ → AccountEntry
account address amount = record {
  address = address;
  balance = u64_to_word amount;
  nonce = 0;
  code_hash = zero_word;
  code_size = 0;
  code_offset = 0;
  is_warm = 0;
}

abbrev two_accounts : Accounts
two_accounts i = if i == 0 then account (replicate 20 1) 700 else account (replicate 20 2) 5

transfer_value_iff_example :
    (((transfer_value two_accounts (some 0) (some 1) (u64_to_word 70)).0 ≡ true)
      ↔ (value (u64_to_word 70) ≤ value (u64_to_word 700)))
    × ((transfer_value two_accounts (some 0) (some 1) (u64_to_word 70)).1 ≡ two_accounts)
transfer_value_iff_example =
    transfer_value_iff two_accounts 0 1 (u64_to_word 70) (u64_to_word-IsWord 70)
      (u64_to_word-IsWord 700)

abbrev first : Option ℕ
first = some 0

no_account : find_account two_accounts 2 (replicate 20 3) ≡ none
unfolding find_account same_bytes
no_account = refl

add_account_lem_example :
    (entries' : Accounts) × (add_account two_accounts 2 4 (replicate 20 3) ≡ some (entries', 3, 2))
    × (find_account entries' 3 (replicate 20 2) ≡ (
        if same_bytes (replicate 20 3) (replicate 20 2)
        then some 2
        else find_account two_accounts 2 (replicate 20 2)))
    × (is_empty_account entries' (some 2) ≡ true)
    × (mark_warm_account entries' (some 2) ≡ (100, entries'))
add_account_lem_example =
    add_account_lem two_accounts 2 4 (replicate 20 3) (replicate 20 2) no_account (omega arith)

finds_account : find_account two_accounts 2 (replicate 20 2) ≡ some 1
unfolding find_account same_bytes
finds_account = refl

find_lem_example :
    ((j : ℕ) × (find entries 3 (replicate 20 2) (u64_to_word 3) ≡ some j)
      × (j < 3)
      × ((entries j).address ≡ replicate 20 2)
      × ((entries j).key ≡ u64_to_word 3)
      × ((j ≤ 2) ⊎ (((entries 2).address ≢ replicate 20 2) ⊎ ((entries 2).key ≢ u64_to_word 3))))
    ⊎ ((find entries 3 (replicate 20 2) (u64_to_word 3) ≡ none)
        × (((entries 2).address ≢ replicate 20 2) ⊎ ((entries 2).key ≢ u64_to_word 3)))
find_lem_example = find_lem entries 3 (replicate 20 2) (u64_to_word 3) 2 (omega arith)

word_to_u64_lem_example :
    (word_to_u64 (u64_to_word 77) ≡ value (u64_to_word 77) % 2 ^ 64)
    × (word_to_u64 (u64_to_word 78) ≡ 78)
word_to_u64_lem_example = word_to_u64_lem (u64_to_word 77) 78 (u64_to_word-IsWord 77) (omega arith)
