-- ===== src/Storage.antt =====
-- include/storage_memory.h: storage slots of all accounts in one flat array.
pub mod Laws
pub mod Map
use metaru.Common.{
  ℕ, zero, suc, ◌+◌, Option, none, some, List, Bool, ◌&&◌, ◌==◌, leb, if◌then◌else◌, set_at,
}
use metaru.Word.{Word, same_bytes, zero_word}
use metaru.Frame.{StorageEntry}

-- Two memcmp calls: the address, then the key.
unfoldable pub matches : List ℕ → Word → StorageEntry → Bool
matches address key e = same_bytes e.address address && same_bytes e.key key

-- The loop from index `i`, with `left` entries to go.
unfoldable pub find_from : ℕ → ℕ → (ℕ → StorageEntry) → List ℕ → Word → Option ℕ
find_from zero i entries address key = none
find_from (suc left) i entries address key =
    if matches address key (entries i) then some i else find_from left (i + 1) entries address key

-- The index of the entry, or nullptr.
unfoldable pub find : (ℕ → StorageEntry) → ℕ → List ℕ → Word → Option ℕ
unfolding find_from matches
find entries count address key = find_from count 0 entries address key

-- The entry that `add` writes.
abbrev pub new_entry : List ℕ → Word → StorageEntry
new_entry address key = record {
  address = address;
  key = key;
  value = zero_word;
  original = zero_word;
  is_warm = 0;
}

-- The entries, their count, and the index of the new entry, where there is room.
unfoldable pub add :
    (ℕ → StorageEntry) → ℕ → ℕ → List ℕ → Word → Option ((ℕ → StorageEntry) × ℕ × ℕ)
add entries count max_slots address key =
    if leb max_slots count
    then none
    else some (set_at entries count (new_entry address key), count + 1, count)
