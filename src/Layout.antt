-- ===== src/Layout.antt =====
-- The frame as one run of bytes: the helpers of include/message_frame_memory.h, which follow the frame's
-- offsets, and the helpers of src/evm.cpp on the bytes that the offsets lead to.
pub mod Laws
pub mod Regions
pub mod Store
pub mod Overlap
pub mod Struct
use metaru.Common.{
  ℕ, ◌+◌, ◌-◌, ◌*◌, Option, none, some, List, [], ◌∷◌, Bool, true, false, ◌==◌, ltb, leb,
  if◌then◌else◌, set_at, length, get_or, u32,
}
use metaru.Word.{Word, word_to_u64}
use metaru.Frame.Memory.{read_bytes, write_bytes, clear_bytes, grown_size, memory_limit}

-- The sizes and offsets of struct MessageFrameMemory, and the bytes from the frame's start on. The
-- struct's own fields are not among the bytes.
pub record Image : Type 0 where
  pub stack_size : ℕ
  pub memory_size : ℕ
  pub code_size : ℕ
  pub output_size : ℕ
  pub return_data_size : ℕ
  pub stack_ptr : ℕ
  pub memory_ptr : ℕ
  pub code_ptr : ℕ
  pub input_ptr : ℕ
  pub output_ptr : ℕ
  pub return_data_ptr : ℕ
  pub bytes : ℕ → ℕ

-- A pointer is the number of bytes from the frame's start.
unfoldable pub get_stack_item : Image → ℕ → ℕ
get_stack_item m index = m.stack_ptr + index * 32

unfoldable pub get_memory : Image → ℕ → ℕ
get_memory m offset = m.memory_ptr + offset

unfoldable pub get_code : Image → ℕ
get_code m = m.code_ptr

unfoldable pub get_input : Image → ℕ
get_input m = m.input_ptr

unfoldable pub set_output : Image → List ℕ → Image
unfolding write_bytes
set_output m data_bytes = record m {
  bytes = write_bytes m.bytes m.output_ptr data_bytes;
  output_size = u32 (length data_bytes);
}

unfoldable pub set_return_data : Image → List ℕ → Image
unfolding write_bytes
set_return_data m data_bytes = record m {
  bytes = write_bytes m.bytes m.return_data_ptr data_bytes;
  return_data_size = u32 (length data_bytes);
}

-- stack_peek: nullptr, or a pointer.
unfoldable pub peek_at : ℕ → Image → Option ℕ
peek_at offset m =
    if leb m.stack_size offset then none else some (m.stack_ptr + (m.stack_size - 1 - offset) * 32)

-- stack_push of an item of 32 bytes.
unfoldable pub push_bytes : Word → Image → Option (Unit {0}) × Image
unfolding write_bytes
push_bytes w m = if leb 1024 m.stack_size then (none, m) else (
  some tt,
  record m {
    bytes = write_bytes m.bytes (m.stack_ptr + m.stack_size * 32) w;
    stack_size = m.stack_size + 1;
  },
)

-- stack_pop
unfoldable pub pop_bytes : Image → Option Word × Image
unfolding read_bytes
pop_bytes m = if m.stack_size == 0 then (none, m) else (
  some (read_bytes m.bytes (m.stack_ptr + (m.stack_size - 1) * 32) 32),
  record m { stack_size = m.stack_size - 1 },
)

-- The memset of ensure_memory, and the new size.
unfoldable pub grow_bytes : ℕ → Image → Image
grow_bytes new_size m = record m {
  bytes = clear_bytes m.bytes (m.memory_ptr + m.memory_size) (new_size - m.memory_size);
  memory_size = new_size;
}

-- ensure_memory
unfoldable pub reserve : ℕ → ℕ → Image → Option (Unit {0}) × Image
unfolding grown_size grow_bytes
reserve offset size m =
    let new_size = grown_size offset size in
    if size == 0
    then (some tt, m)
    else if ltb m.memory_size (offset + size)
    then (if ltb memory_limit new_size
        then (none, m)
        else (if ltb m.memory_size new_size
            then (some tt, grow_bytes new_size m)
            else (some tt, m)))
    else (some tt, m)

-- What follows a step that may have failed.
abbrev pub after :
    {A B : Type 0} → Option A × Image → (A → Image → Option B × Image) → Option B × Image
after (some a, m) k = k a m
after (none, m) k = (none, m)

-- MSTORE's and MSTORE8's writes at an offset of memory.
abbrev pub store_word : ℕ → Word → Image → Image
store_word offset w m = record m { bytes = write_bytes m.bytes (m.memory_ptr + offset) w }

abbrev pub store_byte : ℕ → ℕ → Image → Image
store_byte offset b m = record m { bytes = set_at m.bytes (m.memory_ptr + offset) b }

-- op_mstore
unfoldable pub store_op : Image → Option ℕ × Image
unfolding pop_bytes reserve
store_op m = after (pop_bytes m) (λ offset_word m1. after (pop_bytes m1) (λ value m2.
    let offset = u32 (word_to_u64 offset_word) in
    after (reserve offset 32 m2) (λ _ m3. (some 1, store_word offset value m3))))

-- op_mstore8
unfoldable pub store_byte_op : Image → Option ℕ × Image
unfolding pop_bytes reserve
store_byte_op m = after (pop_bytes m) (λ offset_word m1. after (pop_bytes m1) (λ value m2.
    let offset = u32 (word_to_u64 offset_word) in
    after (reserve offset 1 m2) (λ _ m3. (some 1, store_byte offset (get_or value 31 0) m3))))

-- op_mload
unfoldable pub load_op : Image → Option ℕ × Image
unfolding pop_bytes reserve push_bytes
load_op m = after (pop_bytes m) (λ offset_word m1.
    let offset = u32 (word_to_u64 offset_word) in
    after (reserve offset 32 m1) (λ _ m2.
      after (push_bytes (read_bytes m2.bytes (m2.memory_ptr + offset) 32) m2)
        (λ _ m3. (some 1, m3))))
