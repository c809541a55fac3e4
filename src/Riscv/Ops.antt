-- ===== src/Riscv/Ops.antt =====
-- The handlers of zisk_demo/block_execution_demo_riscv.cpp but for storage, on the bytes.
use metaru.Common.{
  ℕ, Bool, ◌+◌, ◌-◌, ◌*◌, ◌/◌, ◌%◌, none, some, bit_and, bit_or, bit_xor, ltb, leb, ◌==◌, ◌||◌, not,
  if◌then◌else◌, set_at, u32, u64, sub_u64, get_or,
}
use metaru.Word.{
  Word, word_to_u64, u64_to_word, is_zero, same_bytes, zip_bytes, complement, zero_word, flag,
}
use metaru.Frame.Memory.{read_bytes, write_bytes}
use metaru.Evm.Ops.{on_u64, bytes_to_copy, as_u64}
use metaru.Jumptable.Ops.{OpResult, result}
use metaru.Riscv.{
  Machine, Action, ◌>>=◌, ◌>>◌, pure, fail, read, update, halt, stack_top, stack_alloc, stack_free,
  word_at, put, ensure_memory,
}

-- OpHandler
abbrev pub Handler : Type 0
Handler = Action OpResult

-- The result is written over the second item.
unfoldable pub binary : (Word → Word → Word) → ℕ → Handler
unfolding stack_top stack_free
binary compute cost = do
  a ← stack_top 0
  b ← stack_top 1
  x ← word_at a
  y ← word_at b
  put b (compute x y)
  _ ← stack_free 1
  pure (result 1 cost)

-- The result is written over the item.
unfoldable pub unary : (Word → Word) → ℕ → Handler
unfolding stack_top
unary compute cost = do a ← stack_top 0; x ← word_at a; put a (compute x); pure (result 1 cost)

unfoldable pub op_stop : Handler
op_stop m = (some (result 0 0), record m { state = 7 })

unfoldable pub op_add : Handler
op_add = binary (on_u64 (λ a b. u64 (a + b))) 3

unfoldable pub op_mul : Handler
op_mul = binary (on_u64 (λ a b. u64 (a * b))) 5

unfoldable pub op_sub : Handler
op_sub = binary (on_u64 sub_u64) 3

unfoldable pub op_div : Handler
op_div = binary (on_u64 (λ a b. if b == 0 then 0 else a / b)) 5

unfoldable pub op_mod : Handler
op_mod = binary (on_u64 (λ a b. if b == 0 then 0 else a % b)) 5

unfoldable pub op_lt : Handler
op_lt = binary (on_u64 (λ a b. flag (ltb a b))) 3

unfoldable pub op_gt : Handler
op_gt = binary (on_u64 (λ a b. flag (ltb b a))) 3

unfoldable pub op_eq : Handler
op_eq = binary (λ a b. u64_to_word (flag (same_bytes a b))) 3

-- b[i] &= a[i]
unfoldable pub op_and : Handler
op_and = binary (λ a b. zip_bytes bit_and b a) 3

unfoldable pub op_or : Handler
op_or = binary (λ a b. zip_bytes bit_or b a) 3

unfoldable pub op_xor : Handler
op_xor = binary (λ a b. zip_bytes bit_xor b a) 3

unfoldable pub op_iszero : Handler
op_iszero = unary (λ a. u64_to_word (flag (is_zero a))) 3

unfoldable pub op_not : Handler
op_not = unary complement 3

unfoldable pub op_pop : Handler
unfolding stack_free
op_pop = do freed ← stack_free 1; if freed then pure (result 1 2) else fail

unfoldable pub op_mload : Handler
unfolding stack_top ensure_memory
op_mload = do
  pointer ← stack_top 0
  offset_word ← word_at pointer
  let offset = u32 (word_to_u64 offset_word)
  ensure_memory offset 32
  loaded ← read (λ m. read_bytes m.bytes (m.memory_ptr + offset) 32)
  put pointer loaded
  pure (result 1 3)

unfoldable pub op_mstore : Handler
unfolding stack_top stack_free ensure_memory
op_mstore = do
  pointer ← stack_top 0
  value_pointer ← stack_top 1
  offset_word ← word_at pointer
  let offset = u32 (word_to_u64 offset_word)
  ensure_memory offset 32
  value ← word_at value_pointer
  update (λ m. record m { bytes = write_bytes m.bytes (m.memory_ptr + offset) value })
  _ ← stack_free 2
  pure (result 1 3)

unfoldable pub op_mstore8 : Handler
unfolding stack_top stack_free ensure_memory
op_mstore8 = do
  pointer ← stack_top 0
  value_pointer ← stack_top 1
  offset_word ← word_at pointer
  let offset = u32 (word_to_u64 offset_word)
  ensure_memory offset 1
  value ← word_at value_pointer
  update (λ m. record m { bytes = set_at m.bytes (m.memory_ptr + offset) (get_or value 31 0) })
  _ ← stack_free 2
  pure (result 1 3)

-- dest >= code_size || code[dest] != 0x5b
unfoldable pub bad_dest : ℕ → Machine → Bool
bad_dest dest m = leb m.code_size dest || not (m.bytes (m.code_ptr + dest) == 0x5b)

-- A bad target halts and fails, with the destination still on the stack.
unfoldable pub op_jump : Handler
unfolding stack_top stack_free bad_dest
op_jump = do
  pointer ← stack_top 0
  dest_word ← word_at pointer
  let dest = u32 (word_to_u64 dest_word)
  bad ← read (bad_dest dest)
  if bad
      then (update (halt 3) >> fail)
      else do _ ← stack_free 1; update (λ m. record m { pc = dest }); pure (result 0 8)

unfoldable pub op_jumpi : Handler
unfolding stack_top stack_free bad_dest
op_jumpi = do
  pointer ← stack_top 0
  cond_pointer ← stack_top 1
  dest_word ← word_at pointer
  cond_word ← word_at cond_pointer
  let dest = u32 (word_to_u64 dest_word)
  _ ← stack_free 2
  bad ← read (bad_dest dest)
  if is_zero cond_word
      then pure (result 1 10)
      else if bad
      then (update (halt 3) >> fail)
      else do update (λ m. record m { pc = dest }); pure (result 0 10)

-- A new item, and the number that is written into it. It is read after the allocation.
unfoldable pub push_number : (Machine → ℕ) → Handler
unfolding stack_alloc
push_number number = do
  pointer ← stack_alloc
  n ← read number
  put pointer (u64_to_word n)
  pure (result 1 2)

unfoldable pub op_pc : Handler
op_pc = push_number (λ m. m.pc)

unfoldable pub op_gas : Handler
op_gas = push_number (λ m. as_u64 m.gas_remaining)

unfoldable pub op_jumpdest : Handler
op_jumpdest = pure (result 1 1)

unfoldable pub op_push0 : Handler
unfolding stack_alloc
op_push0 = do pointer ← stack_alloc; put pointer zero_word; pure (result 1 2)

-- The item is zeroed, then its last bytes are copied from the code. A copy of no bytes changes none.
unfoldable pub op_push_n : ℕ → Handler
unfolding stack_alloc
op_push_n n = do
  pointer ← stack_alloc
  put pointer zero_word
  count ← read (λ m. bytes_to_copy n m.code_size m.pc)
  copied ← read (λ m. read_bytes m.bytes (m.code_ptr + (m.pc + 1)) count)
  put (pointer + (32 - count)) copied
  pure (result (1 + n) 3)

unfoldable pub op_dup_n : ℕ → Handler
unfolding stack_top stack_alloc
op_dup_n n = do
  source ← stack_top (n - 1)
  dest ← stack_alloc
  w ← word_at source
  put dest w
  pure (result 1 3)

unfoldable pub op_swap_n : ℕ → Handler
unfolding stack_top
op_swap_n n = do
  top ← stack_top 0
  other ← stack_top n
  temp ← word_at top
  below ← word_at other
  put top below
  put other temp
  pure (result 1 3)

unfoldable pub op_stub : Handler
op_stub = pure (result 1 3)

unfoldable pub op_invalid : Handler
op_invalid m = (none, halt 2 m)
