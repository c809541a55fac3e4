-- ===== src/Testing/Room.antt =====
-- Frames that lie in bytes, and a run of one that stays in 32 bytes of memory.
use metaru.Common.{
  length, ℕ, ◌+◌, ◌-◌, ◌*◌, ◌<◌, ◌≡◌, refl, inl, inr, [], ◌∷◌, List, replicate, get_or, leb,
  if◌then◌else◌, false, arith, ◌∙◌,
}
use metaru.Common.Int.{pos, ◌-ℤ◌}
use metaru.Word.{word_to_u64}
use metaru.Frame.Memory.{read_bytes}
use metaru.Frame.Memory.Laws.{read_bytes-agree}
use metaru.Layout.Overlap.{read_bytes-zero}
use metaru.Loop.{Run, next, returned, running}
use metaru.Evm.Ops.{bytes_to_copy, push_word}
use metaru.Optimized
use metaru.Riscv.{Machine}
use metaru.Riscv.Holds.{Regions, IsSpread, Holds, entry_at, entry_at-agree}
use metaru.Riscv.Room.{StaysInRoom-next, StaysInRoom-over, StaysInRoom}
use metaru.Loop.Steps.{start}
use metaru.Optimized.Run.{decode}
use metaru.Testing.{frame_of, empty_entry}
use metaru.Frame.Memory.{ensure_memory}
use metaru.Riscv.Instructions.{IsReaching}

-- PUSH1 7, PUSH1 0, MSTORE8
abbrev pub storing : List ℕ
storing = 0x60 ∷ 7 ∷ 0x60 ∷ 0 ∷ 0x53 ∷ []

-- Storage, the stack, memory with `room` bytes, and the code.
abbrev pub machine_of : ℕ → List ℕ → ℕ → Machine
machine_of room code gas = record {
  pc = 0;
  gas_remaining = pos gas;
  gas_refund = pos 0;
  stack_size = 0;
  memory_size = 0;
  state = 0;
  halt_reason = 0;
  is_static = 0;
  code_size = length code;
  storage_slot_count = 0;
  max_storage_slots = 4;
  contract = replicate 20 2;
  stack_ptr = 512;
  memory_ptr = 33280;
  code_ptr = 33280 + room;
  storage_ptr = 0;
  bytes = λ i. if leb (33280 + room) i then get_or code (i - (33280 + room)) 0 else 0;
}

abbrev pub regions_of : ℕ → List ℕ → ℕ → Regions
regions_of room code gas = record {
  stack_ptr = 512;
  memory_ptr = 33280;
  code_ptr = 33280 + room;
  storage_ptr = 0;
  room = room;
  slots = 4;
  code_size = length code;
  rest = (machine_of room code gas).bytes;
}

pub regions_of-IsSpread : (room : ℕ) (code : List ℕ) (gas : ℕ) → IsSpread (regions_of room code gas)
regions_of-IsSpread room code gas = record {
  stack_memory = inl (omega arith);
  stack_code = inl (omega arith);
  stack_storage = inr (omega arith);
  memory_code = inl (omega arith);
  memory_storage = inr (omega arith);
  code_storage = inr (omega arith);
}

zero_entry : (p : ℕ) → entry_at (λ _. 0) p ≡ empty_entry
unfolding entry_at
zero_entry p =
    rw
      (
        read_bytes-zero p 20,
        read_bytes-zero (p + 20) 32,
        read_bytes-zero (p + 52) 32,
        read_bytes-zero (p + 84) 32,
      )
      refl

bytes_at_code :
    (room : ℕ) (code : List ℕ) (gas i : ℕ)
    → (machine_of room code gas).bytes (33280 + room + i) ≡ get_or code i 0
bytes_at_code room code gas i = ground arith

bytes_below_code :
    (room : ℕ) (code : List ℕ) (gas i : ℕ)
    → i < 33280 + room
    → (machine_of room code gas).bytes i ≡ 0
bytes_below_code room code gas i h = ground arith

pub machine_of-Holds :
    (room : ℕ) (code : List ℕ) (gas : ℕ)
    → Holds (regions_of room code gas) (machine_of room code gas) (frame_of code gas)
machine_of-Holds room code gas = record {
  fields = ground arith;
  content = record {
    stack_at = λ i h.
        read_bytes-agree (machine_of room code gas).bytes (λ _. 0) (512 + i * 32) 32
          (λ k p q. bytes_below_code room code gas k (omega arith))
        ∙ read_bytes-zero (512 + i * 32) 32;
    memory_at = λ i h. bytes_below_code room code gas (33280 + i) (omega arith);
    code_at = λ i h. bytes_at_code room code gas i;
    storage_at = λ i h.
        entry_at-agree (machine_of room code gas).bytes (λ _. 0) (0 + i * 124)
          (λ k p q. bytes_below_code room code gas k (omega arith))
        ∙ zero_entry (0 + i * 124);
    rest_at = λ i h. refl;
  };
}

-- The frames that the run passes through.
abbrev first_run : Run
first_run = start (frame_of storing 100)

abbrev after : Run → Run
after r = elim (Optimized.Run.round false r) [ next s ↦ s | returned s ↦ s ]

abbrev second_run : Run
second_run = after first_run

abbrev third_run : Run
third_run = after second_run

abbrev last_run : Run
last_run = after third_run

first_step : Optimized.Run.round false first_run ≡ next second_run
unfolding Optimized.Run.round Optimized.Ops.op_push_n Optimized.Ops.push_item ◌-ℤ◌
first_step = refl

second_step : Optimized.Run.round false second_run ≡ next third_run
unfolding Optimized.Run.round Optimized.Ops.op_push_n Optimized.Ops.push_item ◌-ℤ◌
second_step = refl

third_step : Optimized.Run.round false third_run ≡ next last_run
unfolding Optimized.Run.round Optimized.Ops.op_push_n Optimized.Ops.op_mstore8
    Optimized.Ops.push_item ◌-ℤ◌ decode read_bytes bytes_to_copy word_to_u64 push_word ensure_memory
third_step = refl

last_over : running last_run.frame ≡ false
unfolding Optimized.Run.round Optimized.Ops.op_push_n Optimized.Ops.op_mstore8
    Optimized.Ops.push_item ◌-ℤ◌ decode read_bytes bytes_to_copy word_to_u64 push_word ensure_memory
last_over = refl

-- The byte is written to offset 0.
third-IsReaching :
    IsReaching
      (regions_of 32 storing 100)
      third_run.frame
      (decode (third_run.frame.context.code third_run.frame.pc))
unfolding Optimized.Run.round Optimized.Ops.op_push_n Optimized.Ops.op_mstore8
    Optimized.Ops.push_item ◌-ℤ◌ decode read_bytes bytes_to_copy word_to_u64 push_word ensure_memory
third-IsReaching = λ allowed. (omega arith, inr (omega arith))

second-IsReaching :
    IsReaching
      (regions_of 32 storing 100)
      second_run.frame
      (decode (second_run.frame.context.code second_run.frame.pc))
unfolding Optimized.Run.round Optimized.Ops.op_push_n Optimized.Ops.push_item ◌-ℤ◌ decode
second-IsReaching = tt

pub storing-StaysInRoom : StaysInRoom (regions_of 32 storing 100) (start (frame_of storing 100))
unfolding decode
storing-StaysInRoom =
    let g = regions_of 32 storing 100 in
    StaysInRoom-next g first_run second_run first_step tt (
      StaysInRoom-next g second_run third_run second_step second-IsReaching (
        StaysInRoom-next g third_run last_run third_step third-IsReaching
          (StaysInRoom-over g last_run last_over)))
