-- ===== src/Layout/Overlap.antt =====
-- What lies where: an index of the stack against its top, and the frame of
-- zisk_demo/block_execution_demo.cpp, whose code lies 1024 bytes behind the start of memory.
use metaru.Common.{
  ℕ, zero, suc, ◌+◌, ◌-◌, ◌*◌, ◌^◌, ◌≤◌, ◌<◌, ◌≡◌, refl, ap, ◌∙◌, inl, some, List, [], ◌∷◌, false,
  leb, set_at, length, get_or, replicate, arith, u32,
}
use metaru.Frame.Memory.{read_bytes, write_bytes, memory_limit, grown_size}
use metaru.Frame.Memory.Laws.{write_bytes_outside, read_bytes-agree}
use metaru.Demo.{Transaction}
use metaru.Demo.Execution.{new_frame}
use metaru.Layout.{
  Image, get_stack_item, get_memory, get_code, peek_at, reserve, grow_bytes, store_byte,
}
use metaru.Layout.Laws.{IsImage}

-- getStackItem counts from the bottom: its item `index` is the one that stack_peek finds
-- `stack_size - 1 - index` below the top.
get_stack_item-peek_at :
    (m : Image) (index : ℕ)
    → index < m.stack_size
    → peek_at (m.stack_size - 1 - index) m ≡ some (get_stack_item m index)
unfolding peek_at get_stack_item
get_stack_item-peek_at m index below =
    let inside : leb m.stack_size (m.stack_size - 1 - index) ≡ false = ground arith in
    let slot : m.stack_size - 1 - (m.stack_size - 1 - index) ≡ index = omega arith in
    rw (inside, slot) refl

-- The buffer of FrameMemory: 384 bytes of the frame, the stack, 1024 bytes of memory, the code.
unfoldable pub frame_image : Transaction → Image
unfolding write_bytes
frame_image tx =
    let header_size : ℕ = 384 in
    let stack_bytes : ℕ = 1024 * 32 in
    let memory_bytes : ℕ = 1024 in
    record {
      stack_size = 0;
      memory_size = 0;
      code_size = u32 (length tx.payload);
      output_size = 0;
      return_data_size = 0;
      stack_ptr = header_size;
      memory_ptr = header_size + stack_bytes;
      code_ptr = header_size + stack_bytes + memory_bytes;
      input_ptr = 0;
      output_ptr = 0;
      return_data_ptr = 0;
      bytes = write_bytes (λ _. 0) (header_size + stack_bytes + memory_bytes) tx.payload;
    }

pub read_bytes-zero : (offset n : ℕ) → read_bytes (λ _. 0) offset n ≡ replicate n 0
unfolding read_bytes
read_bytes-zero offset zero = refl
read_bytes-zero offset (suc n) = ap (λ w. 0 ∷ w) (read_bytes-zero (offset + 1) n)

pub write_bytes-get_or :
    (m : ℕ → ℕ) (at j k : ℕ) (w : List ℕ)
    → j ≡ at + k
    → k < length w
    → write_bytes m at w j ≡ get_or w k 0
unfolding write_bytes
write_bytes-get_or m at j k [] e below = absurd (omega arith)
write_bytes-get_or m at j zero (b ∷ w) e below =
    write_bytes_outside (set_at m at b) (at + 1) w j (omega arith) ∙ ground arith
write_bytes-get_or m at j (suc k) (b ∷ w) e below =
    write_bytes-get_or (set_at m at b) (at + 1) j k w (omega arith) (omega arith)

-- The buffer holds the frame of the transaction, with room for 1024 bytes of memory.
pub frame_image-IsImage :
    (tx : Transaction) → length tx.payload < 2 ^ 32 → IsImage 1024 (frame_image tx) (new_frame tx)
unfolding frame_image new_frame
frame_image-IsImage tx short =
    let outside : (i : ℕ) → i < 34176 → write_bytes (λ _. 0) 34176 tx.payload i ≡ 0 =
      λ i h. write_bytes_outside (λ _. 0) 34176 tx.payload i (inl h) in
    record {
      laid_out = record {
        stack_memory = inl (omega arith);
        stack_code = inl (omega arith);
        memory_code = inl (omega arith);
      };
      items = refl;
      extent = refl;
      code_bytes = refl;
      stack = λ i h.
          read_bytes-agree (write_bytes (λ _. 0) 34176 tx.payload) (λ _. 0) (384 + i * 32) 32
            (λ k p q. outside k (omega arith))
          ∙ read_bytes-zero (384 + i * 32) 32;
      memory = λ i h. outside (33152 + i) (omega arith);
      code = λ i h. write_bytes-get_or (λ _. 0) 34176 (34176 + i) i tx.payload refl (omega arith);
    }

grown_size_word :
    (k : ℕ)
    → k + 1024 < memory_limit
    → (1024 + k < grown_size (1024 + k) 1) × (grown_size (1024 + k) 1 ≤ memory_limit)
unfolding grown_size
grown_size_word k small = omega arith

-- In the demo's buffer ensure_memory allows an access at 1024 + k, up to its limit. It clears the
-- byte of the code that lies there, and MSTORE8 writes it.
pub store_byte-get_code :
    (tx : Transaction) (k b : ℕ)
    → k + 1024 < memory_limit
    → let reserved = reserve (1024 + k) 1 (frame_image tx) in
      (reserved.0 ≡ some tt)
      × (reserved.1.bytes (get_code (frame_image tx) + k) ≡ 0)
      × (get_memory (frame_image tx) (1024 + k) ≡ get_code (frame_image tx) + k)
      × ((store_byte (1024 + k) b reserved.1).bytes (get_code (frame_image tx) + k) ≡ b)
unfolding reserve frame_image get_memory get_code
store_byte-get_code tx k b small =
    let size = grown_size (1024 + k) 1 in
    let (low, high) = grown_size_word k small in
    let grows : reserve (1024 + k) 1 (frame_image tx)
        ≡ (some tt, grow_bytes size (frame_image tx)) =
      ground arith in
    rw grows (refl, ground arith, omega arith, ground arith)
