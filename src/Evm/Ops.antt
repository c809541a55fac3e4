-- ===== src/Evm/Ops.antt =====
-- The op_* functions of src/evm.cpp. The result is the increment of pc; a command that fails
-- returns -1.
use metaru.Common.{
  ℕ, ◌+◌, ◌-◌, ◌*◌, ◌/◌, ◌%◌, ◌^◌, ◌++◌, none, some, bit_and, bit_or, bit_xor, min, ltb, leb, ◌==◌,
  if◌then◌else◌, set_at, replicate, u32, u64, sub_u64, get_or,
}
use metaru.Common.Int.{ℤ, pos, negsuc}
use metaru.Word.{
  Word, word_to_u64, u64_to_word, is_zero, same_bytes, zip_bytes, complement, zero_word, flag,
}
use metaru.Frame.{Frame, Command, ◌>>=◌, ◌>>◌, pure, read, update, halt, completed_success}
use metaru.Frame.Stack.{stack_peek, stack_push, stack_pop}
use metaru.Frame.Memory.{read_bytes, write_bytes, ensure_memory}

abbrev pub Op : Type 0
Op = Command ℕ

-- Two items are popped, and `compute` of them is pushed.
unfoldable pub binary : (Word → Word → Word) → Op
unfolding stack_pop stack_push
binary compute = do a ← stack_pop; b ← stack_pop; stack_push (compute a b); pure 1

-- `compute` on the low 64 bits.
abbrev pub on_u64 : (ℕ → ℕ → ℕ) → Word → Word → Word
on_u64 compute a b = u64_to_word (compute (word_to_u64 a) (word_to_u64 b))

unfoldable pub op_stop : Op
op_stop f = (some 0, record f { state = completed_success })

unfoldable pub op_add : Op
op_add = binary (on_u64 (λ a b. u64 (a + b)))

unfoldable pub op_mul : Op
op_mul = binary (on_u64 (λ a b. u64 (a * b)))

unfoldable pub op_sub : Op
op_sub = binary (on_u64 sub_u64)

-- Division by zero gives the zero word.
unfoldable pub op_div : Op
op_div =
    binary
      (λ a b. if word_to_u64 b == 0 then zero_word else u64_to_word (word_to_u64 a / word_to_u64 b))

unfoldable pub op_mod : Op
op_mod =
    binary
      (λ a b. if word_to_u64 b == 0 then zero_word else u64_to_word (word_to_u64 a % word_to_u64 b))

unfoldable pub op_lt : Op
op_lt = binary (on_u64 (λ a b. flag (ltb a b)))

unfoldable pub op_gt : Op
op_gt = binary (on_u64 (λ a b. flag (ltb b a)))

unfoldable pub op_eq : Op
op_eq = binary (λ a b. u64_to_word (flag (same_bytes a b)))

unfoldable pub op_and : Op
op_and = binary (zip_bytes bit_and)

unfoldable pub op_or : Op
op_or = binary (zip_bytes bit_or)

unfoldable pub op_xor : Op
op_xor = binary (zip_bytes bit_xor)

-- One item is popped, and `compute` of it is pushed.
unfoldable pub unary : (Word → Word) → Op
unfolding stack_pop stack_push
unary compute = do a ← stack_pop; stack_push (compute a); pure 1

unfoldable pub op_iszero : Op
op_iszero = unary (λ a. u64_to_word (flag (is_zero a)))

unfoldable pub op_not : Op
op_not = unary complement

unfoldable pub op_pop : Op
unfolding stack_pop
op_pop = do _ ← stack_pop; pure 1

-- std::min(n, (int)(code_size - pc - 1)): the difference is taken in uint32_t, and a negative
-- count copies nothing.
unfoldable pub bytes_to_copy : ℕ → ℕ → ℕ → ℕ
bytes_to_copy n code_size pc =
    let left = (code_size + 2 ^ 33 - pc - 1) % 2 ^ 32 in if ltb left (2 ^ 31) then min n left else 0

-- The copied bytes stand at the end of the word.
unfoldable pub push_word : ℕ → Frame → Word
unfolding bytes_to_copy read_bytes
push_word n f =
    let count = bytes_to_copy n f.context.code_size f.pc in
    replicate (32 - count) 0 ++ read_bytes f.context.code (f.pc + 1) count

unfoldable pub op_push : ℕ → Op
unfolding push_word stack_push
op_push n = do w ← read (push_word n); stack_push w; pure (1 + n)

unfoldable pub op_push0 : Op
unfolding stack_push
op_push0 = do stack_push zero_word; pure 1

unfoldable pub op_dup : ℕ → Op
unfolding stack_peek stack_push
op_dup n = do item ← stack_peek (n - 1); copy ← read (λ f. f.stack item); stack_push copy; pure 1

unfoldable pub op_swap : ℕ → Op
op_swap n f =
    if ltb f.stack_size (n + 1)
    then (none, f)
    else (let top = f.stack_size - 1 in
        let target = f.stack_size - 1 - n in
        (
          some 1,
          record f { stack = set_at (set_at f.stack top (f.stack target)) target (f.stack top) },
        ))

-- The destination's low 64 bits select the target; what is wrong with it is a halt, not a failure.
unfoldable pub take_jump : ℕ → Op
take_jump dest f =
    if leb f.context.code_size dest
    then (some 0, halt 7 f)
    else if f.context.code dest == 0x5b
    then (some 0, record f { pc = dest })
    else (some 0, halt 6 f)

unfoldable pub op_jump : Op
unfolding stack_pop take_jump
op_jump = do dest ← stack_pop; take_jump (word_to_u64 dest)

unfoldable pub op_jumpi : Op
unfolding stack_pop take_jump
op_jumpi = do
  dest ← stack_pop
  condition ← stack_pop
  if is_zero condition then pure 1 else take_jump (word_to_u64 dest)

-- A number as an item.
unfoldable pub push_number : (Frame → ℕ) → Op
unfolding stack_push
push_number number = do n ← read number; stack_push (u64_to_word n); pure 1

unfoldable pub op_pc : Op
op_pc = push_number (λ f. f.pc)

unfoldable pub op_msize : Op
op_msize = push_number (λ f. f.memory_size)

-- An int64_t as a uint64_t.
abbrev pub as_u64 : ℤ → ℕ
as_u64 (pos n) = u64 n
as_u64 (negsuc n) = 2 ^ 64 - 1 - u64 n

unfoldable pub op_gas : Op
op_gas = push_number (λ f. as_u64 f.gas_remaining)

unfoldable pub op_mload : Op
unfolding stack_pop stack_push ensure_memory read_bytes
op_mload = do
  offset_word ← stack_pop
  let offset = u32 (word_to_u64 offset_word)
  ensure_memory offset 32
  result ← read (λ f. read_bytes f.memory offset 32)
  stack_push result
  pure 1

unfoldable pub op_mstore : Op
unfolding stack_pop ensure_memory write_bytes
op_mstore = do
  offset_word ← stack_pop
  value ← stack_pop
  let offset = u32 (word_to_u64 offset_word)
  ensure_memory offset 32
  update (λ f. record f { memory = write_bytes f.memory offset value })
  pure 1

unfoldable pub op_mstore8 : Op
unfolding stack_pop ensure_memory
op_mstore8 = do
  offset_word ← stack_pop
  value ← stack_pop
  let offset = u32 (word_to_u64 offset_word)
  ensure_memory offset 1
  update (λ f. record f { memory = set_at f.memory offset (get_or value 31 0) })
  pure 1

-- Operations that need the world state.
unfoldable pub op_stub : Op
op_stub f = (some 0, halt 2 f)
