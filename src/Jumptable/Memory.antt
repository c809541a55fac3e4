-- ===== src/Jumptable/Memory.antt =====
-- MSTORE and MLOAD of src/evm_jumptable.cpp together.
use metaru.Common.{ℕ, ◌+◌, ◌-◌, ◌≤◌, ◌<◌, ◌≡◌, subst, some, arith, set_at, length, u32}
use metaru.Word.{Word, word_to_u64}
use metaru.Frame.{Frame}
use metaru.Frame.Stack.{stack_push}
use metaru.Frame.Memory.{read_bytes, write_bytes, ensure_memory}
use metaru.Frame.Memory.Laws.{read_bytes-write_bytes}
use metaru.Jumptable.Ops.{OpResult, result, op_mload, op_mstore}

-- Once memory has been made to reach an access, it is not grown for it again.
ensure_memory-again :
    (offset size : ℕ) (f g : Frame)
    → ensure_memory offset size f ≡ (some tt, g)
    → (m : ℕ → ℕ) (s : ℕ → Word) (n : ℕ)
    → let h = record g { memory = m; stack = s; stack_size = n } in
      ensure_memory offset size h ≡ (some tt, h)
unfolding ensure_memory
ensure_memory-again offset size f g e m s n = ground arith

-- What MSTORE does where it succeeds.
record Stored (f g : Frame) : Type 0 where
  made : Frame
  two : 2 ≤ f.stack_size
  covered :
      ensure_memory
        (u32 (word_to_u64 (f.stack (f.stack_size - 1))))
        32
        (record f { stack_size = f.stack_size - 2 })
      ≡ (some tt, made)
  same : g ≡ record made {
    memory =
        write_bytes made.memory
          (u32 (word_to_u64 (f.stack (f.stack_size - 1))))
          (f.stack (f.stack_size - 2));
  }

ensure_memory-stack :
    (offset size : ℕ) (f g : Frame)
    → ensure_memory offset size f ≡ (some tt, g)
    → (g.stack ≡ f.stack) × (g.stack_size ≡ f.stack_size)
unfolding ensure_memory
ensure_memory-stack offset size f g e = ground arith

op_mstore-Stored : (f g : Frame) (r : OpResult) → op_mstore f ≡ (some r, g) → Stored f g
unfolding op_mstore
op_mstore-Stored f g r e = record {
  made =
      (ensure_memory (u32 (word_to_u64 (f.stack (f.stack_size - 1)))) 32
        (record f { stack_size = f.stack_size - 2 })).1;
  two = ground arith;
  covered = ground arith;
  same = ground arith;
}

-- The frame after the store, with the key pushed.
abbrev key_again : Word → Word → Frame → Frame
key_again key stored made = record made {
  memory = write_bytes made.memory (u32 (word_to_u64 key)) stored;
  stack = set_at made.stack made.stack_size key;
  stack_size = made.stack_size + 1;
}

pushed_again :
    (f g h : Frame) (r : OpResult) (s : Stored f g)
    → f.stack_size ≤ 1024
    → stack_push (f.stack (f.stack_size - 1)) g ≡ (some tt, h)
    → h ≡ key_again (f.stack (f.stack_size - 1)) (f.stack (f.stack_size - 2)) s.made
unfolding stack_push
pushed_again f g h r s fits pushed = ground (arith, s.same)

op_mload-key_again :
    (key stored : Word) (f made : Frame)
    → f.stack_size < 1024
    → length stored ≡ 32
    → ensure_memory (u32 (word_to_u64 key)) 32 f ≡ (some tt, made)
    → let h = key_again key stored made in
      op_mload h
      ≡ (some (result 1 3), record h { stack = set_at h.stack (h.stack_size - 1) stored })
unfolding op_mload
op_mload-key_again key stored f made room size covered =
    let offset = u32 (word_to_u64 key) in
    let memory = write_bytes made.memory offset stored in
    let loaded : read_bytes memory offset 32 ≡ stored =
      subst (λ n. read_bytes memory offset n ≡ stored) size
        (read_bytes-write_bytes made.memory offset stored) in
    ground (
      arith,
      loaded,
      ensure_memory-stack offset 32 f made covered,
      ensure_memory-again offset 32 f made covered memory (set_at made.stack made.stack_size key)
          (made.stack_size + 1 - 1),
    )

-- Where MSTORE succeeds and the offset is pushed again, MLOAD succeeds and leaves the stored word in
-- the offset's place; memory stays as MSTORE left it.
pub op_mload-op_mstore :
    (f g h : Frame) (r : OpResult)
    → f.stack_size ≤ 1024
    → length (f.stack (f.stack_size - 2)) ≡ 32
    → op_mstore f ≡ (some r, g)
    → stack_push (f.stack (f.stack_size - 1)) g ≡ (some tt, h)
    → op_mload h ≡ (
      some (result 1 3),
      record h { stack = set_at h.stack (h.stack_size - 1) (f.stack (f.stack_size - 2)) },
    )
op_mload-op_mstore f g h r fits size stored pushed =
    let s = op_mstore-Stored f g r stored in
    rw (pushed_again f g h r s fits pushed) (
      op_mload-key_again (f.stack (f.stack_size - 1)) (f.stack (f.stack_size - 2))
        (record f { stack_size = f.stack_size - 2 }) s.made (ground arith) size s.covered)
