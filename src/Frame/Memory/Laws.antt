-- ===== src/Frame/Memory/Laws.antt =====
-- Runs of bytes are read back as they were written, and what ensure_memory promises.
use metaru.Common.{
  ℕ, zero, suc, ◌+◌, ◌%◌, ◌^◌, ◌≤◌, ◌<◌, ◌≡◌, refl, ap, ◌⊎◌, inl, some, List, [], ◌∷◌, arith,
  length, set_at,
}
use metaru.Frame.{Frame}
use metaru.Frame.Memory.{read_bytes, write_bytes, ensure_memory, grow, memory_limit}

-- A byte outside the run that is written keeps its value.
pub write_bytes_outside :
    (m : ℕ → ℕ) (offset : ℕ) (w : List ℕ) (i : ℕ)
    → (i < offset) ⊎ (offset + length w ≤ i)
    → write_bytes m offset w i ≡ m i
unfolding write_bytes
write_bytes_outside m offset [] i h = refl
write_bytes_outside m offset (b ∷ w) i h =
    ground (arith, write_bytes_outside (set_at m offset b) (offset + 1) w i)

pub read_bytes-agree :
    (m m' : ℕ → ℕ) (offset n : ℕ)
    → ((i : ℕ) → offset ≤ i → i < offset + n → m i ≡ m' i)
    → read_bytes m offset n ≡ read_bytes m' offset n
unfolding read_bytes
read_bytes-agree m m' offset zero h = refl
read_bytes-agree m m' offset (suc n) h = rw (
  h offset (omega arith) (omega arith),
  read_bytes-agree m m' (offset + 1) n (λ i p q. h i (omega arith) (omega arith)),
)

-- Bytes are read back as they were written.
pub read_bytes-write_bytes :
    (m : ℕ → ℕ) (offset : ℕ) (w : List ℕ)
    → read_bytes (write_bytes m offset w) offset (length w) ≡ w
unfolding read_bytes write_bytes
read_bytes-write_bytes m offset [] = refl
read_bytes-write_bytes m offset (b ∷ w) =
    rw
      (
        write_bytes_outside (set_at m offset b) (offset + 1) w offset (inl (omega arith)),
        read_bytes-write_bytes (set_at m offset b) (offset + 1) w,
      )
      (ground arith)

pub length-read_bytes : (m : ℕ → ℕ) (offset n : ℕ) → length (read_bytes m offset n) ≡ n
unfolding read_bytes
length-read_bytes m offset zero = refl
length-read_bytes m offset (suc n) = ap suc (length-read_bytes m (offset + 1) n)

-- A run that does not meet the one that is written is read as before.
pub read_bytes-write_bytes_apart :
    (m : ℕ → ℕ) (offset : ℕ) (w : List ℕ) (start n : ℕ)
    → (start + n ≤ offset) ⊎ (offset + length w ≤ start)
    → read_bytes (write_bytes m offset w) start n ≡ read_bytes m start n
read_bytes-write_bytes_apart m offset w start n h =
    read_bytes-agree (write_bytes m offset w) m start n
      (λ i p q. write_bytes_outside m offset w i (ground arith))

-- Memory and its size are all that ensure_memory changes.
pub ensure_memory-keeps :
    (offset size : ℕ) (f : Frame)
    → let g = (ensure_memory offset size f).1 in
      g ≡ record f { memory = g.memory; memory_size = g.memory_size }
unfolding ensure_memory
ensure_memory-keeps offset size f = ground arith

-- Where the end of an access, rounded up, fits 32 bits, success means that memory reaches it. It
-- has grown in whole words to at most the limit, and the new bytes are zero; nothing else changed.
pub ensure_memory_covers :
    (offset size : ℕ) (f g : Frame)
    → offset + size + 31 < 2 ^ 32
    → 0 < size
    → ensure_memory offset size f ≡ (some tt, g)
    → (offset + size ≤ g.memory_size)
      × ((g ≡ f)
          ⊎ ((f.memory_size < g.memory_size)
              × (g.memory_size ≤ memory_limit)
              × (g.memory_size % 32 ≡ 0)
              × (g ≡ grow g.memory_size f)))
unfolding ensure_memory
ensure_memory_covers offset size f g small some_bytes e = ground arith

-- From 2 ^ 32 - 63 on the rounded size of a word's access wraps: ensure_memory succeeds although
-- the access lies beyond the end of memory.
pub ensure_memory_wraps :
    (offset : ℕ) (f : Frame)
    → 2 ^ 32 ≤ offset + 63
    → offset < 2 ^ 32
    → f.memory_size ≤ memory_limit
    → ((ensure_memory offset 32 f).0 ≡ some tt)
      × ((ensure_memory offset 32 f).1.memory_size < offset)
unfolding ensure_memory
ensure_memory_wraps offset f high fits small = ground arith
