-- ===== src/Optimized/Storage/Laws.antt =====
-- SLOAD and SSTORE against storage as a map from keys to words.
use metaru.Common.{
  ℕ, ◌+◌, ◌-◌, ◌≤◌, ◌<◌, ◌≡◌, ◌≢◌, refl, fun_ext, ◌⊎◌, inl, inr, Option, none, some, false, arith,
  ◌==◌, if◌then◌else◌, set_at, Bool-cases,
}
use native.Mathlib.Numerals.{add-one}
use metaru.Word.{Word, same_bytes}
use metaru.Frame.{Frame, StorageEntry, halt}
use metaru.Storage.{new_entry}
use metaru.Storage.Map.{slot, slot-set, slot-add, slot-touch}
use metaru.Jumptable.Ops.{result}
use metaru.Optimized.Storage.{
  find_slot, load_from, access_cost, op_sload, op_sstore, store_to, store_found, store_new,
  store_cost, write_slot,
}

-- What a key of the running contract holds.
unfoldable pub held : Word → Frame → Word
held key f = slot f.storage f.storage_slot_count f.context.contract key

-- The price of a lookup's answer: 100 for an entry that is warm, else 2100.
abbrev pub lookup_cost : Frame → Option ℕ → ℕ
lookup_cost f none = 2100
lookup_cost f (some i) = if (f.storage i).is_warm == 0 then 2100 else 100

load_from_lem :
    (item : ℕ) (key other : Word) (f : Frame) (found : Option ℕ)
    → find_slot key f ≡ found
    → ((load_from item found f).0 ≡ some (result 1 (lookup_cost f found)))
      × ((load_from item found f).1.stack item ≡ held key f)
      × (held other (load_from item found f).1 ≡ held other f)
      × ((load_from item found f).1.stack_size ≡ f.stack_size)
unfolding load_from held find_slot slot access_cost
load_from_lem item key other f none e = (refl, ground arith, refl, refl)
load_from_lem item key other f (some i) e = (
  refl,
  ground arith,
  slot-touch f.storage f.storage_slot_count f.context.contract key other i
      (record (f.storage i) { is_warm = 1 }) refl refl refl,
  refl,
)

op_sload-eq :
    (f : Frame)
    → 0 < f.stack_size
    → op_sload f ≡ load_from (f.stack_size - 1) (find_slot (f.stack (f.stack_size - 1)) f) f
unfolding op_sload
op_sload-eq f h = ground arith

-- With an item on the stack SLOAD replaces the key there by what the key holds, and changes what no
-- key holds. It costs 100 if the key has a warm entry, else 2100.
pub op_sload_lem :
    (f : Frame) (other : Word)
    → 0 < f.stack_size
    → let top = f.stack_size - 1 in
      let key = f.stack top in
      ((op_sload f).0 ≡ some (result 1 (lookup_cost f (find_slot key f))))
      × ((op_sload f).1.stack top ≡ held key f)
      × (held other (op_sload f).1 ≡ held other f)
      × ((op_sload f).1.stack_size ≡ f.stack_size)
op_sload_lem f other h = rw (op_sload-eq f h) (
    load_from_lem (f.stack_size - 1) (f.stack (f.stack_size - 1)) other f
      (find_slot (f.stack (f.stack_size - 1)) f) refl)

store_found_lem :
    (i : ℕ) (key value other : Word) (f : Frame)
    → 2 ≤ f.stack_size
    → find_slot key f ≡ some i
    → ((store_found i value f).0 ≡ some (result 1 (store_cost value (f.storage i))))
      × (held other (store_found i value f).1
          ≡ (if same_bytes other key then value else held other f))
      × ((store_found i value f).1.stack_size ≡ f.stack_size - 2)
unfolding store_found held find_slot
store_found_lem i key value other f h e = (
  ground arith,
  ground (
    arith,
    slot-set f.storage f.storage_slot_count f.context.contract key other i
        (record (f.storage i) { value = value; is_warm = 1 }) e refl refl,
  ),
  ground arith,
)

-- The entry that a write to a new slot leaves.
abbrev written : Frame → Word → Word → StorageEntry
written f key value = record {
  address = f.context.contract;
  key = key;
  value = value;
  original = value;
  is_warm = 1;
}

set_at_twice :
    (s : ℕ → StorageEntry) (c : ℕ) (n : StorageEntry) (change : StorageEntry → StorageEntry)
    → set_at (set_at s c n) c (change (set_at s c n c)) ≡ set_at s c (change n)
set_at_twice s c n change = fun_ext λ j. ground arith

-- A write to a slot with no entry, where there is room.
store_new-eq :
    (key value : Word) (f : Frame)
    → 2 ≤ f.stack_size
    → f.storage_slot_count < f.context.max_storage_slots
    → store_new key value f ≡ (
      some (result 1 20000),
      record f {
        storage = set_at f.storage f.storage_slot_count (written f key value);
        storage_slot_count = f.storage_slot_count + 1;
        stack_size = f.stack_size - 2;
      },
    )
unfolding store_new
store_new-eq key value f h room = ground (
  arith,
  set_at_twice f.storage f.storage_slot_count (new_entry f.context.contract key)
      (λ e. record e { value = value; original = value; is_warm = 1 }),
)

store_new_lem :
    (key value other : Word) (f : Frame)
    → 2 ≤ f.stack_size
    → find_slot key f ≡ none
    → f.storage_slot_count < f.context.max_storage_slots
    → ((store_new key value f).0 ≡ some (result 1 20000))
      × (held other (store_new key value f).1
          ≡ (if same_bytes other key then value else held other f))
      × ((store_new key value f).1.stack_size ≡ f.stack_size - 2)
unfolding held find_slot
store_new_lem key value other f h e room =
    rw (store_new-eq key value f h room, add-one)
      (
        refl,
        slot-add f.storage f.storage_slot_count f.context.contract key other (written f key value) e
            refl refl,
        refl,
      )

op_sstore-eq :
    (f : Frame)
    → f.context.is_static ≡ 0
    → 2 ≤ f.stack_size
    → let key = f.stack (f.stack_size - 1) in
      op_sstore f ≡ store_to key (f.stack (f.stack_size - 2)) (find_slot key f) f
unfolding op_sstore write_slot
op_sstore-eq f s h = ground arith

-- The price of a write by what the lookup answered.
abbrev pub write_cost : Word → Frame → Option ℕ → ℕ
write_cost value f none = 20000
write_cost value f (some i) = store_cost value (f.storage i)

-- The lookup found an entry, or there is room for one.
abbrev pub HasRoom : Frame → Option ℕ → Type 0
HasRoom f none = f.storage_slot_count < f.context.max_storage_slots
HasRoom f (some i) = Unit

store_to_lem :
    (key value other : Word) (f : Frame) (found : Option ℕ)
    → 2 ≤ f.stack_size
    → find_slot key f ≡ found
    → HasRoom f found
    → ((store_to key value found f).0 ≡ some (result 1 (write_cost value f found)))
      × (held other (store_to key value found f).1
          ≡ (if same_bytes other key then value else held other f))
      × ((store_to key value found f).1.stack_size ≡ f.stack_size - 2)
unfolding store_to
store_to_lem key value other f none h e room = store_new_lem key value other f h e room
store_to_lem key value other f (some i) h e room = store_found_lem i key value other f h e

-- In a call that is not static, with two items on the stack, and an entry for the key or room for
-- one, SSTORE pops both and the key holds the value; what the other keys hold is unchanged. The
-- price is that of the entry that was found, or 20000.
pub op_sstore_lem :
    (f : Frame) (other : Word)
    → f.context.is_static ≡ 0
    → 2 ≤ f.stack_size
    → HasRoom f (find_slot (f.stack (f.stack_size - 1)) f)
    → let key = f.stack (f.stack_size - 1) in
      let value = f.stack (f.stack_size - 2) in
      ((op_sstore f).0 ≡ some (result 1 (write_cost value f (find_slot key f))))
      × (held other (op_sstore f).1 ≡ (if same_bytes other key then value else held other f))
      × ((op_sstore f).1.stack_size ≡ f.stack_size - 2)
op_sstore_lem f other s h room = rw (op_sstore-eq f s h) (
    store_to_lem (f.stack (f.stack_size - 1)) (f.stack (f.stack_size - 2)) other f
      (find_slot (f.stack (f.stack_size - 1)) f) h refl room)

op_sstore_static :
    (f : Frame)
    → (f.context.is_static == 0) ≡ false
    → (op_sstore f ≡ (none, halt 6 f)) × (f.context.is_static ≢ 0)
unfolding op_sstore
op_sstore_static f static = ground arith

store_to_failure :
    (key value : Word) (f : Frame) (found : Option ℕ)
    → (store_to key value found f).0 ≡ none
    → (store_to key value found f ≡ (none, halt 2 f))
      × (found ≡ none)
      × (f.context.max_storage_slots ≤ f.storage_slot_count)
unfolding store_to store_new store_found
store_to_failure key value f none e = ground arith
store_to_failure key value f (some i) e = ground arith

-- With two items on the stack SSTORE fails only in a static call, or for a key with no entry when
-- there is no room for one. Both times nothing changes but the state and the reason of the halt.
pub op_sstore_failure :
    (f : Frame)
    → 2 ≤ f.stack_size
    → (op_sstore f).0 ≡ none
    → ((op_sstore f ≡ (none, halt 6 f)) × (f.context.is_static ≢ 0))
      ⊎ ((op_sstore f ≡ (none, halt 2 f))
          × (find_slot (f.stack (f.stack_size - 1)) f ≡ none)
          × (f.context.max_storage_slots ≤ f.storage_slot_count))
op_sstore_failure f h e = elim (Bool-cases (f.context.is_static == 0)) [
  | inl dynamic ↦
      let same = op_sstore-eq f (ground arith) h in
      rw same (
        inr (
          store_to_failure (f.stack (f.stack_size - 1)) (f.stack (f.stack_size - 2)) f
            (find_slot (f.stack (f.stack_size - 1)) f) (rw same at e)))
  | inr static ↦ inl (op_sstore_static f static)
]
