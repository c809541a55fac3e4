-- ===== src/Mock/Agree.antt =====
-- ADD and PUSH1 of the mock against those of src/evm.cpp.
use metaru.Common.{ℕ, ◌+◌, ◌-◌, ◌≤◌, ◌<◌, ◌≡◌, refl, arith, ◌^◌, ◌%◌}
use metaru.Word.{u64_to_word, word_to_u64}
use metaru.Frame.{Frame}
use metaru.Evm.Ops.{op_add, op_push, binary, bytes_to_copy, push_word}
use metaru.Mock.{mock_add, mock_push1, byte_word}

byte_word-u64 : (b : ℕ) → b < 256 → byte_word b ≡ u64_to_word b
unfolding u64_to_word
byte_word-u64 b h = ground arith

word_to_u64-byte_word : (b : ℕ) → b < 256 → word_to_u64 (byte_word b) ≡ b
unfolding word_to_u64
word_to_u64-byte_word b h = omega arith

-- With two items on the stack that are bytes, whose sum is a byte, the mock adds like the switch
-- interpreter.
pub mock_add-agree :
    (f : Frame) (a b : ℕ)
    → 2 ≤ f.stack_size
    → f.stack_size ≤ 1024
    → a + b < 256
    → f.stack (f.stack_size - 1) ≡ byte_word a
    → f.stack (f.stack_size - 2) ≡ byte_word b
    → mock_add f ≡ op_add f
unfolding mock_add op_add binary
mock_add-agree f a b two fits small first second = ground (
  arith,
  word_to_u64-byte_word a (omega arith),
  word_to_u64-byte_word b (omega arith),
  byte_word-u64 (a + b) small,
)

bytes_to_copy-one : (size pc : ℕ) → size < 2 ^ 31 → pc + 1 < size → bytes_to_copy 1 size pc ≡ 1
unfolding bytes_to_copy
bytes_to_copy-one size pc short inside =
    let left : (size + 2 ^ 33 - pc - 1) % 2 ^ 32 ≡ size - pc - 1 = omega arith in
    rw left (ground arith)

push_word-one :
    (f : Frame)
    → f.context.code_size < 2 ^ 31
    → f.pc + 1 < f.context.code_size
    → push_word 1 f ≡ byte_word (f.context.code (f.pc + 1))
unfolding push_word
push_word-one f short inside = rw (bytes_to_copy-one f.context.code_size f.pc short inside) refl

-- With a byte of code behind the opcode and room on the stack, the mock pushes like the switch
-- interpreter.
pub mock_push1-agree :
    (f : Frame)
    → f.context.code_size < 2 ^ 31
    → f.pc + 1 < f.context.code_size
    → f.stack_size < 1024
    → mock_push1 f ≡ op_push 1 f
unfolding mock_push1 op_push
mock_push1-agree f short inside room = ground (arith, push_word-one f short inside)
