-- ===== src/Layout/Regions.antt =====
-- Writes to memory and its growth, on the bytes and on the frame.
use metaru.Common.{
  ℕ, zero, suc, ◌+◌, ◌-◌, ◌*◌, ◌≤◌, ◌<◌, ◌≡◌, refl, ap, ◌∙◌, ◌⊎◌, List, [], ◌∷◌, set_at, length,
  arith,
}
use metaru.Word.{Word}
use metaru.Frame.{Frame}
use metaru.Frame.Memory.{read_bytes, write_bytes, clear_bytes, grow}
use metaru.Frame.Memory.Laws.{write_bytes_outside, read_bytes-write_bytes_apart, read_bytes-agree}
use metaru.Layout.{Image, grow_bytes, store_word, store_byte}
use metaru.Layout.Laws.{IsImage}

clear_bytes_outside :
    (bytes : ℕ → ℕ) (at n i : ℕ) → (i < at) ⊎ (at + n ≤ i) → clear_bytes bytes at n i ≡ bytes i
clear_bytes_outside bytes at n i h = ground arith

pub grow_bytes-IsImage :
    (room : ℕ) (m : Image) (f : Frame) (size : ℕ)
    → IsImage room m f
    → m.memory_size ≤ size
    → size ≤ room
    → IsImage room (grow_bytes size m) (grow size f)
unfolding grow_bytes grow
grow_bytes-IsImage room m f size r up fits = record {
  laid_out = r.laid_out;
  items = r.items;
  extent = refl;
  code_bytes = r.code_bytes;
  stack = λ i h.
      read_bytes-agree _ m.bytes (m.stack_ptr + i * 32) 32 (λ k p q.
        clear_bytes_outside m.bytes (m.memory_ptr + m.memory_size) (size - m.memory_size) k
          (omega (arith, r.laid_out.stack_memory)))
      ∙ r.stack i h;
  memory = λ i h. ground (arith, r.memory i h, r.extent);
  code = λ i h.
      clear_bytes_outside m.bytes (m.memory_ptr + m.memory_size) (size - m.memory_size)
        (m.code_ptr + i) (omega (arith, r.laid_out.memory_code))
      ∙ r.code i h;
}

-- A run at an address is one at the offset from the region's start.
pub read_bytes-shift :
    (bytes m : ℕ → ℕ) (base at offset n : ℕ)
    → at ≡ base + offset
    → ((i : ℕ) → offset ≤ i → i < offset + n → bytes (base + i) ≡ m i)
    → read_bytes bytes at n ≡ read_bytes m offset n
unfolding read_bytes
read_bytes-shift bytes m base at offset zero e same = refl
read_bytes-shift bytes m base at offset (suc n) e same =
    let here : bytes at ≡ m offset = ap bytes e ∙ same offset (omega arith) (omega arith) in
    rw
      (
        here,
        read_bytes-shift bytes m base (at + 1) (offset + 1) n (omega arith)
            (λ i p q. same i (omega arith) (omega arith)),
      )
      refl

-- A write at an address is one at the offset from the region's start.
pub write_bytes-shift :
    (bytes m : ℕ → ℕ) (base at offset i : ℕ) (w : List ℕ)
    → at ≡ base + offset
    → bytes (base + i) ≡ m i
    → write_bytes bytes at w (base + i) ≡ write_bytes m offset w i
unfolding write_bytes
write_bytes-shift bytes m base at offset i [] e same = same
write_bytes-shift bytes m base at offset i (b ∷ w) e same =
    write_bytes-shift (set_at bytes at b) (set_at m offset b) base (at + 1) (offset + 1) i w
      (omega arith) (ground arith)

pub store_word-IsImage :
    (room : ℕ) (m : Image) (f : Frame) (offset : ℕ) (w : Word)
    → IsImage room m f
    → length w ≡ 32
    → offset + 32 ≤ room
    → IsImage room (store_word offset w m) (record f { memory = write_bytes f.memory offset w })
store_word-IsImage room m f offset w r full fits = record {
  laid_out = r.laid_out;
  items = r.items;
  extent = r.extent;
  code_bytes = r.code_bytes;
  stack = λ i h.
      read_bytes-write_bytes_apart m.bytes (m.memory_ptr + offset) w (m.stack_ptr + i * 32) 32
        (omega (arith, r.laid_out.stack_memory))
      ∙ r.stack i h;
  memory = λ i h.
      write_bytes-shift m.bytes f.memory m.memory_ptr (m.memory_ptr + offset) offset i w refl
        (r.memory i h);
  code = λ i h.
      write_bytes_outside m.bytes (m.memory_ptr + offset) w (m.code_ptr + i)
        (omega (arith, r.laid_out.memory_code))
      ∙ r.code i h;
}

-- One byte is a run of one.
pub store_byte-IsImage :
    (room : ℕ) (m : Image) (f : Frame) (offset b : ℕ)
    → IsImage room m f
    → offset < room
    → IsImage room (store_byte offset b m) (record f { memory = set_at f.memory offset b })
store_byte-IsImage room m f offset b r fits = record {
  laid_out = r.laid_out;
  items = r.items;
  extent = r.extent;
  code_bytes = r.code_bytes;
  stack = λ i h.
      read_bytes-agree _ m.bytes (m.stack_ptr + i * 32) 32
        (λ k p q. ground (arith, r.laid_out.stack_memory))
      ∙ r.stack i h;
  memory = λ i h. ground (arith, r.memory i h);
  code = λ i h. ground (arith, r.code i h, r.laid_out.memory_code);
}
