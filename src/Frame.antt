-- ===== src/Frame.antt =====
-- The message frame that the interpreters share with their caller (include/message_frame_memory.h),
-- with the regions that its offsets lead to, as one state, and the commands that update it.
-- The regions are taken as disjoint arrays: stack items by slot, memory and code by byte, storage
-- by entry.
pub mod Stack
pub mod Memory
pub mod Items
use metaru.Common.{ℕ, ◌≡◌, Option, none, some, List}
use metaru.Common.Int.{ℤ}
use metaru.Word.{Word}

-- struct StorageEntry (its padding is left out).
pub record StorageEntry : Type 0 where
  pub address : List ℕ
  pub key : Word
  pub value : Word
  pub original : Word
  pub is_warm : ℕ

-- The fields of struct MessageFrameMemory that no interpreter writes, and the code bytes.
pub record Context : Type 0 where
  pub section : ℕ
  pub type : ℕ
  pub is_static : ℕ
  pub depth : ℕ
  pub code_size : ℕ
  pub input_size : ℕ
  pub output_size : ℕ
  pub return_data_size : ℕ
  pub logs_count : ℕ
  pub warm_addresses_count : ℕ
  pub warm_storage_count : ℕ
  pub max_storage_slots : ℕ
  pub recipient : List ℕ
  pub sender : List ℕ
  pub contract : List ℕ
  pub originator : List ℕ
  pub mining_beneficiary : List ℕ
  pub value : Word
  pub apparent_value : Word
  pub gas_price : Word
  pub code : ℕ → ℕ

-- The fields that an interpreter writes. `pc`, `stack_size` and `memory_size` are int32_t that the
-- caller hands over as sizes, so they are natural numbers; the two amounts of gas are signed.
pub record Frame : Type 0 where
  pub pc : ℕ
  pub gas_remaining : ℤ
  pub gas_refund : ℤ
  pub stack_size : ℕ
  pub memory_size : ℕ
  pub state : ℕ
  pub halt_reason : ℕ
  pub storage_slot_count : ℕ
  pub stack : ℕ → Word
  pub memory : ℕ → ℕ
  pub storage : ℕ → StorageEntry
  pub context : Context

-- A command may fail, and what it did to the frame before it failed stays done.
abbrev pub Command : Type 0 → Type 0
Command A = Frame → Option A × Frame

abbrev pub and_then : {A B : Type 0} → Option A × Frame → (A → Command B) → Option B × Frame
and_then (some a, f) k = k a f
and_then (none, f) k = (none, f)

infixl 5 ◌>>=◌ ◌>>◌
abbrev pub ◌>>=◌ : {A B : Type 0} → Command A → (A → Command B) → Command B
m >>= k = λ f. and_then (m f) k

abbrev pub ◌>>◌ : {B : Type 0} → Command (Unit {0}) → Command B → Command B
m >> k = m >>= λ _. k

abbrev pub pure : {A : Type 0} → A → Command A
pure a f = (some a, f)

-- return -1
abbrev pub fail : {A : Type 0} → Command A
fail f = (none, f)

abbrev pub read : {A : Type 0} → (Frame → A) → Command A
read field f = (some (field f), f)

abbrev pub update : (Frame → Frame) → Command (Unit {0})
update g f = (some tt, g f)

-- enum class MessageFrameState, where the interpreters write its numbers.
abbrev pub code_executing : ℕ
code_executing = 1

abbrev pub exceptional_halt : ℕ
exceptional_halt = 4

abbrev pub completed_success : ℕ
completed_success = 7

-- frame->state = EXCEPTIONAL_HALT; frame->halt_reason = reason
abbrev pub halt : ℕ → Frame → Frame
halt reason f = record f { state = exceptional_halt; halt_reason = reason }
