-- ===== src/Layout/Laws.antt =====
-- Where the regions of a frame lie apart, its bytes represent the frame that the other modules take.
use metaru.Common.{
  ℕ, ◌+◌, ◌-◌, ◌*◌, ◌≤◌, ◌<◌, ◌≡◌, ◌≢◌, refl, ap, ◌∙◌, ◌⊎◌, inl, inr, some, List, true, false, ◌==◌,
  leb, set_at, length, arith, Bool-cases,
}
use metaru.Word.{Word}
use metaru.Frame.{Frame}
use metaru.Frame.Stack.{stack_push, stack_pop}
use metaru.Frame.Memory.{read_bytes, write_bytes}
use metaru.Frame.Memory.Laws.{
  write_bytes_outside, read_bytes-write_bytes, read_bytes-write_bytes_apart,
}
use metaru.Layout.{Image, push_bytes, pop_bytes}

-- Two runs of bytes that do not meet.
abbrev pub IsApart : ℕ → ℕ → ℕ → ℕ → Type 0
IsApart a n b k = (a + n ≤ b) ⊎ (b + k ≤ a)

-- The stack has 1024 slots, memory has `room` bytes, and they and the code do not meet.
pub record IsLaidOut (room stack_ptr memory_ptr code_ptr code_size : ℕ) : Type 0 where
  pub stack_memory : IsApart stack_ptr (1024 * 32) memory_ptr room
  pub stack_code : IsApart stack_ptr (1024 * 32) code_ptr code_size
  pub memory_code : IsApart memory_ptr room code_ptr code_size

-- The bytes hold what the arrays of the frame do, as far as the regions reach.
pub record IsImage (room : ℕ) (m : Image) (f : Frame) : Type 0 where
  pub laid_out : IsLaidOut room m.stack_ptr m.memory_ptr m.code_ptr m.code_size
  pub items : m.stack_size ≡ f.stack_size
  pub extent : m.memory_size ≡ f.memory_size
  pub code_bytes : m.code_size ≡ f.context.code_size
  pub stack : (i : ℕ) → i < 1024 → read_bytes m.bytes (m.stack_ptr + i * 32) 32 ≡ f.stack i
  pub memory : (i : ℕ) → i < room → m.bytes (m.memory_ptr + i) ≡ f.memory i
  pub code : (i : ℕ) → i < m.code_size → m.bytes (m.code_ptr + i) ≡ f.context.code i

pub read_back :
    (bytes : ℕ → ℕ) (at start n : ℕ) (w : List ℕ)
    → length w ≡ n
    → start ≡ at
    → read_bytes (write_bytes bytes at w) start n ≡ w
read_back bytes at start n w full same = rw (same, ← full) (read_bytes-write_bytes bytes at w)

module _ (room : ℕ) (m : Image) (f : Frame) (r : IsImage room m f) where
  -- The slots after a push: the new one holds the item, the others are as they were.
  slot-push :
      (w : Word) (i : ℕ)
      → length w ≡ 32
      → i < 1024
      → read_bytes
          (write_bytes m.bytes (m.stack_ptr + m.stack_size * 32) w)
          (m.stack_ptr + i * 32)
          32
        ≡ set_at f.stack f.stack_size w i
  slot-push w i full below = elim (Bool-cases (i == f.stack_size)) [
    | inl top ↦
        let e : i ≡ f.stack_size = ground arith in
        rw top (
          read_back m.bytes (m.stack_ptr + m.stack_size * 32) (m.stack_ptr + i * 32) 32 w full
            (omega (arith, e, r.items)))
    | inr other ↦
        let ne : i ≢ f.stack_size = ground arith in
        rw other (
          read_bytes-write_bytes_apart m.bytes (m.stack_ptr + m.stack_size * 32) w
            (m.stack_ptr + i * 32) 32 (omega (arith, ne, full, r.items))
          ∙ r.stack i below)
  ]

  -- A push of 32 bytes is that of the item.
  pub push_bytes-IsImage :
      (w : Word)
      → length w ≡ 32
      → ((push_bytes w m).0 ≡ (stack_push w f).0)
        × IsImage room (push_bytes w m).1 (stack_push w f).1
  unfolding push_bytes stack_push
  push_bytes-IsImage w full = elim (Bool-cases (leb 1024 f.stack_size)) [
    | inl over ↦
        let over_bytes : leb 1024 m.stack_size ≡ true = ground (arith, r.items) in
        rw (over_bytes, over) (refl, r)
    | inr fits ↦
        let below : m.stack_size < 1024 = ground (arith, r.items) in
        let fits_bytes : leb 1024 m.stack_size ≡ false = ground arith in
        rw (fits_bytes, fits)
          (
            refl,
            record {
              laid_out = r.laid_out;
              items = omega (arith, r.items);
              extent = r.extent;
              code_bytes = r.code_bytes;
              stack = λ i h. slot-push w i full h;
              memory = λ i h.
                  write_bytes_outside m.bytes _ w (m.memory_ptr + i)
                    (omega (arith, r.laid_out.stack_memory, full))
                  ∙ r.memory i h;
              code = λ i h.
                  write_bytes_outside m.bytes _ w (m.code_ptr + i)
                    (omega (arith, r.laid_out.stack_code, full))
                  ∙ r.code i h;
            },
          )
  ]

  -- A pop of 32 bytes is that of the item.
  pub pop_bytes-IsImage :
      f.stack_size ≤ 1024
      → ((pop_bytes m).0 ≡ (stack_pop f).0) × IsImage room (pop_bytes m).1 (stack_pop f).1
  unfolding pop_bytes stack_pop
  pop_bytes-IsImage fits = elim (Bool-cases (f.stack_size == 0)) [
    | inl empty ↦
        let empty_bytes : (m.stack_size == 0) ≡ true = ground (arith, r.items) in
        rw (empty_bytes, empty) (refl, r)
    | inr some_item ↦
        let some_bytes : (m.stack_size == 0) ≡ false = ground (arith, r.items) in
        let top : m.stack_size - 1 ≡ f.stack_size - 1 = omega (arith, r.items) in
        rw (some_bytes, some_item)
          (
            ap some (rw top (r.stack (f.stack_size - 1) (ground arith))),
            record {
              laid_out = r.laid_out;
              items = omega (arith, r.items);
              extent = r.extent;
              code_bytes = r.code_bytes;
              stack = r.stack;
              memory = r.memory;
              code = r.code;
            },
          )
  ]
