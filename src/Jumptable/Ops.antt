-- ===== src/Jumptable/Ops.antt =====
-- The handlers of src/evm_jumptable.cpp. Each returns an increment of pc and a price; a command
-- that fails returns {-1, 0}.
use metaru.Common.{
  ℕ, Bool, ◌+◌, ◌-◌, ◌*◌, ◌/◌, ◌%◌, none, some, bit_and, bit_or, bit_xor, ltb, leb, ◌==◌, ◌||◌, not,
  if◌then◌else◌, set_at, u32, u64, sub_u64, get_or,
}
use metaru.Word.{
  Word, word_to_u64, u64_to_word, is_zero, same_bytes, zip_bytes, complement, zero_word, flag,
}
use metaru.Frame.{Frame, Command, ◌>>=◌, ◌>>◌, pure, read, update, halt, completed_success}
use metaru.Frame.Stack.{stack_peek, stack_push, stack_pop, store_item}
use metaru.Frame.Memory.{read_bytes, write_bytes, ensure_memory}
use metaru.Evm.Ops.{on_u64, push_word, as_u64}

-- struct OpResult
pub record OpResult : Type 0 where
  pub pc_increment : ℕ
  pub gas_cost : ℕ

abbrev pub result : ℕ → ℕ → OpResult
result increment cost = record { pc_increment = increment; gas_cost = cost }

-- OpHandler
abbrev pub Handler : Type 0
Handler = Command OpResult

unfoldable pub binary : (Word → Word → Word) → ℕ → Handler
unfolding stack_pop stack_push
binary compute cost = do
  a ← stack_pop
  b ← stack_pop
  stack_push (compute a b)
  pure (result 1 cost)

unfoldable pub op_stop : Handler
op_stop f = (some (result 0 0), record f { state = completed_success })

unfoldable pub op_add : Handler
op_add = binary (on_u64 (λ a b. u64 (a + b))) 3

unfoldable pub op_mul : Handler
op_mul = binary (on_u64 (λ a b. u64 (a * b))) 5

unfoldable pub op_sub : Handler
op_sub = binary (on_u64 sub_u64) 3

unfoldable pub op_div : Handler
op_div = binary (on_u64 (λ a b. if b == 0 then 0 else a / b)) 5

unfoldable pub op_mod : Handler
op_mod = binary (on_u64 (λ a b. if b == 0 then 0 else a % b)) 5

unfoldable pub op_lt : Handler
op_lt = binary (on_u64 (λ a b. flag (ltb a b))) 3

unfoldable pub op_gt : Handler
op_gt = binary (on_u64 (λ a b. flag (ltb b a))) 3

unfoldable pub op_eq : Handler
op_eq = binary (λ a b. u64_to_word (flag (same_bytes a b))) 3

unfoldable pub op_and : Handler
op_and = binary (zip_bytes bit_and) 3

unfoldable pub op_or : Handler
op_or = binary (zip_bytes bit_or) 3

unfoldable pub op_xor : Handler
op_xor = binary (zip_bytes bit_xor) 3

unfoldable pub unary : (Word → Word) → ℕ → Handler
unfolding stack_pop stack_push
unary compute cost = do a ← stack_pop; stack_push (compute a); pure (result 1 cost)

unfoldable pub op_iszero : Handler
op_iszero = unary (λ a. u64_to_word (flag (is_zero a))) 3

unfoldable pub op_not : Handler
op_not = unary complement 3

unfoldable pub op_pop : Handler
unfolding stack_pop
op_pop = do _ ← stack_pop; pure (result 1 2)

unfoldable pub op_mload : Handler
unfolding stack_pop stack_push ensure_memory read_bytes
op_mload = do
  offset_word ← stack_pop
  let offset = u32 (word_to_u64 offset_word)
  ensure_memory offset 32
  loaded ← read (λ f. read_bytes f.memory offset 32)
  stack_push loaded
  pure (result 1 3)

unfoldable pub op_mstore : Handler
unfolding stack_pop ensure_memory write_bytes
op_mstore = do
  offset_word ← stack_pop
  value ← stack_pop
  let offset = u32 (word_to_u64 offset_word)
  ensure_memory offset 32
  update (λ f. record f { memory = write_bytes f.memory offset value })
  pure (result 1 3)

unfoldable pub op_mstore8 : Handler
unfolding stack_pop ensure_memory
op_mstore8 = do
  offset_word ← stack_pop
  value_word ← stack_pop
  let offset = u32 (word_to_u64 offset_word)
  ensure_memory offset 1
  update (λ f. record f { memory = set_at f.memory offset (get_or value_word 31 0) })
  pure (result 1 3)

-- dest >= code_size || code[dest] != 0x5b
unfoldable pub bad_dest : ℕ → Frame → Bool
bad_dest dest f = leb f.context.code_size dest || not (f.context.code dest == 0x5b)

-- A bad target halts and fails; a good one sets pc.
unfoldable pub take_jump : ℕ → ℕ → Handler
unfolding bad_dest
take_jump dest cost f =
    if bad_dest dest f then (none, halt 3 f) else (some (result 0 cost), record f { pc = dest })

unfoldable pub op_jump : Handler
unfolding stack_pop take_jump
op_jump = do dest_word ← stack_pop; take_jump (u32 (word_to_u64 dest_word)) 8

unfoldable pub op_jumpi : Handler
unfolding stack_pop take_jump
op_jumpi = do
  dest_word ← stack_pop
  cond_word ← stack_pop
  if is_zero cond_word then pure (result 1 10) else take_jump (u32 (word_to_u64 dest_word)) 10

unfoldable pub push_number : (Frame → ℕ) → Handler
unfolding stack_push
push_number number = do n ← read number; stack_push (u64_to_word n); pure (result 1 2)

unfoldable pub op_pc : Handler
op_pc = push_number (λ f. f.pc)

unfoldable pub op_gas : Handler
op_gas = push_number (λ f. as_u64 f.gas_remaining)

unfoldable pub op_jumpdest : Handler
op_jumpdest = pure (result 1 1)

unfoldable pub op_push0 : Handler
unfolding stack_push
op_push0 = do stack_push zero_word; pure (result 1 2)

unfoldable pub op_push_n : ℕ → Handler
unfolding push_word stack_push
op_push_n n = do w ← read (push_word n); stack_push w; pure (result (1 + n) 3)

unfoldable pub op_dup_n : ℕ → Handler
unfolding stack_peek stack_push
op_dup_n n = do
  slot ← stack_peek (n - 1)
  item ← read (λ f. f.stack slot)
  stack_push item
  pure (result 1 3)

unfoldable pub op_swap_n : ℕ → Handler
unfolding stack_peek
op_swap_n n = do
  top ← stack_peek 0
  other ← stack_peek n
  temp ← read (λ f. f.stack top)
  below ← read (λ f. f.stack other)
  store_item top below
  store_item other temp
  pure (result 1 3)

unfoldable pub op_invalid : Handler
op_invalid f = (none, halt 2 f)

unfoldable pub op_stub : Handler
op_stub = pure (result 1 3)
