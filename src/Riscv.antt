-- ===== src/Riscv.antt =====
-- zisk_demo/block_execution_demo_riscv.cpp, one program of the in-place interpreter and the block demo:
-- its machine, a frame in one run of bytes that every pointer leads into, and the helpers on it.
pub mod Ops
pub mod Storage
pub mod Run
pub mod Holds
pub mod Simulation
pub mod Handlers
pub mod Push
pub mod Access
pub mod Entries
pub mod Parts
pub mod Slots
pub mod Instructions
pub mod Turns
pub mod Room
pub mod Refine
pub mod Programs
pub mod Blocks
use metaru.Common.{
  ℕ, ◌+◌, ◌-◌, ◌*◌, Option, none, some, List, Bool, true, false, ◌==◌, ltb, leb, if◌then◌else◌,
  set_at,
}
use metaru.Common.Int.{ℤ}
use metaru.Frame.Memory.{read_bytes, write_bytes, clear_bytes, grown_size, memory_limit}

-- The fields of struct MessageFrameMemory that the program reads or writes, with its offsets, and the
-- bytes from the frame's start on. The fields themselves are not among the bytes.
pub record Machine : Type 0 where
  pub pc : ℕ
  pub gas_remaining : ℤ
  pub gas_refund : ℤ
  pub stack_size : ℕ
  pub memory_size : ℕ
  pub state : ℕ
  pub halt_reason : ℕ
  pub is_static : ℕ
  pub code_size : ℕ
  pub storage_slot_count : ℕ
  pub max_storage_slots : ℕ
  pub contract : List ℕ
  pub stack_ptr : ℕ
  pub memory_ptr : ℕ
  pub code_ptr : ℕ
  pub storage_ptr : ℕ
  pub bytes : ℕ → ℕ

-- An action may fail, and what it did before stays done.
abbrev pub Action : Type 0 → Type 0
Action A = Machine → Option A × Machine

abbrev pub followed_by : {A B : Type 0} → Option A × Machine → (A → Action B) → Option B × Machine
followed_by (some a, m) k = k a m
followed_by (none, m) k = (none, m)

infixl 5 ◌>>=◌ ◌>>◌
abbrev pub ◌>>=◌ : {A B : Type 0} → Action A → (A → Action B) → Action B
action >>= k = λ m. followed_by (action m) k

abbrev pub ◌>>◌ : {B : Type 0} → Action (Unit {0}) → Action B → Action B
action >> k = action >>= λ _. k

abbrev pub pure : {A : Type 0} → A → Action A
pure a m = (some a, m)

-- return {-1, 0}
abbrev pub fail : {A : Type 0} → Action A
fail m = (none, m)

abbrev pub read : {A : Type 0} → (Machine → A) → Action A
read field m = (some (field m), m)

abbrev pub update : (Machine → Machine) → Action (Unit {0})
update g m = (some tt, g m)

-- state = EXCEPTIONAL_HALT; halt_reason = reason
abbrev pub halt : ℕ → Machine → Machine
halt reason m = record m { state = 4; halt_reason = reason }

-- nullptr, or a pointer to the item at `offset` from the top. (A handler returns {-1, 0} on any
-- nullptr, whichever item it asked for.)
unfoldable pub stack_top : ℕ → Action ℕ
stack_top offset m =
    if leb m.stack_size offset
    then (none, m)
    else (some (m.stack_ptr + (m.stack_size - 1 - offset) * 32), m)

-- nullptr, or a pointer to a new item, which holds what was there.
unfoldable pub stack_alloc : Action ℕ
stack_alloc m =
    if leb 1024 m.stack_size
    then (none, m)
    else (some (m.stack_ptr + m.stack_size * 32), record m { stack_size = m.stack_size + 1 })

unfoldable pub stack_free : ℕ → Action Bool
stack_free count m =
    if ltb m.stack_size count
    then (some false, m)
    else (some true, record m { stack_size = m.stack_size - count })

-- The 32 bytes behind a pointer.
abbrev pub word_at : ℕ → Action (List ℕ)
word_at pointer = read (λ m. read_bytes m.bytes pointer 32)

-- memcpy(pointer, w, length of w)
abbrev pub put : ℕ → List ℕ → Action (Unit {0})
put pointer w = update (λ m. record m { bytes = write_bytes m.bytes pointer w })

-- The memset of ensure_memory, and the new size.
unfoldable pub grow : ℕ → Machine → Machine
grow new_size m = record m {
  bytes = clear_bytes m.bytes (m.memory_ptr + m.memory_size) (new_size - m.memory_size);
  memory_size = new_size;
}

unfoldable pub ensure_memory : ℕ → ℕ → Action (Unit {0})
unfolding grown_size grow
ensure_memory offset size m =
    let new_size = grown_size offset size in
    if size == 0
    then (some tt, m)
    else if ltb m.memory_size (offset + size)
    then (if ltb memory_limit new_size
        then (none, m)
        else (if ltb m.memory_size new_size then (some tt, grow new_size m) else (some tt, m)))
    else (some tt, m)
