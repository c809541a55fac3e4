-- ===== src/Optimized/Ops.antt =====
-- The handlers of src/evm_optimized.cpp but for storage. A pointer to an item is its slot.
use metaru.Common.{
  ℕ, Bool, true, false, ◌+◌, ◌-◌, ◌*◌, ◌/◌, ◌%◌, none, some, bit_and, bit_or, bit_xor, ltb, leb,
  ◌==◌, if◌then◌else◌, set_at, u32, u64, sub_u64, get_or,
}
use metaru.Word.{
  Word, word_to_u64, u64_to_word, is_zero, same_bytes, zip_bytes, complement, zero_word, flag,
}
use metaru.Frame.{Frame, Command, ◌>>=◌, ◌>>◌, pure, fail, read, update, halt, completed_success}
use metaru.Frame.Stack.{store_item}
use metaru.Frame.Memory.{read_bytes, write_bytes, ensure_memory}
use metaru.Evm.Ops.{on_u64, push_word, as_u64}
use metaru.Jumptable.Ops.{result, Handler, bad_dest}

-- nullptr, or the slot of the item at `offset` from the top. (A handler returns {-1, 0} on any
-- nullptr, whichever item it asked for.)
unfoldable pub stack_top : ℕ → Command ℕ
stack_top offset f =
    if leb f.stack_size offset then (none, f) else (some (f.stack_size - 1 - offset), f)

-- nullptr, or the slot of a new item, which holds what was there.
unfoldable pub stack_alloc : Command ℕ
stack_alloc f =
    if leb 1024 f.stack_size
    then (none, f)
    else (some f.stack_size, record f { stack_size = f.stack_size + 1 })

unfoldable pub stack_free : ℕ → Command Bool
stack_free count f =
    if ltb f.stack_size count
    then (some false, f)
    else (some true, record f { stack_size = f.stack_size - count })

abbrev pub item_at : ℕ → Command Word
item_at slot = read (λ f. f.stack slot)

-- The result is written over the second item.
unfoldable pub binary : (Word → Word → Word) → ℕ → Handler
unfolding stack_top stack_free
binary compute cost = do
  a ← stack_top 0
  b ← stack_top 1
  x ← item_at a
  y ← item_at b
  store_item b (compute x y)
  _ ← stack_free 1
  pure (result 1 cost)

-- The result is written over the item.
unfoldable pub unary : (Word → Word) → ℕ → Handler
unfolding stack_top
unary compute cost = do
  a ← stack_top 0
  x ← item_at a
  store_item a (compute x)
  pure (result 1 cost)

unfoldable pub op_stop : Handler
op_stop f = (some (result 0 0), record f { state = completed_success })

unfoldable pub op_add : Handler
op_add = binary (on_u64 (λ a b. u64 (a + b))) 3

unfoldable pub op_mul : Handler
op_mul = binary (on_u64 (λ a b. u64 (a * b))) 5

unfoldable pub op_sub : Handler
op_sub = binary (on_u64 sub_u64) 3

unfoldable pub op_div : Handler
op_div = binary (on_u64 (λ a b. if b == 0 then 0 else a / b)) 5

unfoldable pub op_mod : Handler
op_mod = binary (on_u64 (λ a b. if b == 0 then 0 else a % b)) 5

unfoldable pub op_lt : Handler
op_lt = binary (on_u64 (λ a b. flag (ltb a b))) 3

unfoldable pub op_gt : Handler
op_gt = binary (on_u64 (λ a b. flag (ltb b a))) 3

unfoldable pub op_eq : Handler
op_eq = binary (λ a b. u64_to_word (flag (same_bytes a b))) 3

-- b[i] &= a[i]
unfoldable pub op_and : Handler
op_and = binary (λ a b. zip_bytes bit_and b a) 3

unfoldable pub op_or : Handler
op_or = binary (λ a b. zip_bytes bit_or b a) 3

unfoldable pub op_xor : Handler
op_xor = binary (λ a b. zip_bytes bit_xor b a) 3

unfoldable pub op_iszero : Handler
op_iszero = unary (λ a. u64_to_word (flag (is_zero a))) 3

unfoldable pub op_not : Handler
op_not = unary complement 3

unfoldable pub op_pop : Handler
unfolding stack_free
op_pop = do freed ← stack_free 1; if freed then pure (result 1 2) else fail

unfoldable pub op_mload : Handler
unfolding stack_top
op_mload = do
  slot ← stack_top 0
  offset_word ← item_at slot
  let offset = u32 (word_to_u64 offset_word)
  ensure_memory offset 32
  loaded ← read (λ f. read_bytes f.memory offset 32)
  store_item slot loaded
  pure (result 1 3)

unfoldable pub op_mstore : Handler
unfolding stack_top stack_free
op_mstore = do
  slot ← stack_top 0
  value_slot ← stack_top 1
  offset_word ← item_at slot
  let offset = u32 (word_to_u64 offset_word)
  ensure_memory offset 32
  update (λ f. record f { memory = write_bytes f.memory offset (f.stack value_slot) })
  _ ← stack_free 2
  pure (result 1 3)

unfoldable pub op_mstore8 : Handler
unfolding stack_top stack_free
op_mstore8 = do
  slot ← stack_top 0
  value_slot ← stack_top 1
  offset_word ← item_at slot
  let offset = u32 (word_to_u64 offset_word)
  ensure_memory offset 1
  update (λ f. record f { memory = set_at f.memory offset (get_or (f.stack value_slot) 31 0) })
  _ ← stack_free 2
  pure (result 1 3)

-- A bad target halts and fails, with the destination still on the stack.
unfoldable pub op_jump : Handler
unfolding stack_top stack_free bad_dest
op_jump = do
  slot ← stack_top 0
  dest_word ← item_at slot
  let dest = u32 (word_to_u64 dest_word)
  bad ← read (bad_dest dest)
  if bad
      then (update (halt 3) >> fail)
      else do _ ← stack_free 1; update (λ f. record f { pc = dest }); pure (result 0 8)

unfoldable pub op_jumpi : Handler
unfolding stack_top stack_free bad_dest
op_jumpi = do
  slot ← stack_top 0
  cond_slot ← stack_top 1
  dest_word ← item_at slot
  cond_word ← item_at cond_slot
  let dest = u32 (word_to_u64 dest_word)
  _ ← stack_free 2
  bad ← read (bad_dest dest)
  if is_zero cond_word
      then pure (result 1 10)
      else if bad
      then (update (halt 3) >> fail)
      else do update (λ f. record f { pc = dest }); pure (result 0 10)

-- A new item, and then what is written into it. The number is read after the allocation.
unfoldable pub push_item : (Frame → Word) → ℕ → ℕ → Handler
unfolding stack_alloc
push_item word increment cost = do
  slot ← stack_alloc
  w ← read word
  store_item slot w
  pure (result increment cost)

unfoldable pub op_pc : Handler
op_pc = push_item (λ f. u64_to_word f.pc) 1 2

unfoldable pub op_gas : Handler
op_gas = push_item (λ f. u64_to_word (as_u64 f.gas_remaining)) 1 2

unfoldable pub op_jumpdest : Handler
op_jumpdest = pure (result 1 1)

unfoldable pub op_push0 : Handler
op_push0 = push_item (λ f. zero_word) 1 2

unfoldable pub op_push_n : ℕ → Handler
op_push_n n = push_item (push_word n) (1 + n) 3

unfoldable pub op_dup_n : ℕ → Handler
unfolding stack_top stack_alloc
op_dup_n n = do
  source ← stack_top (n - 1)
  dest ← stack_alloc
  w ← item_at source
  store_item dest w
  pure (result 1 3)

unfoldable pub op_swap_n : ℕ → Handler
unfolding stack_top
op_swap_n n = do
  top ← stack_top 0
  other ← stack_top n
  temp ← item_at top
  below ← item_at other
  store_item top below
  store_item other temp
  pure (result 1 3)

unfoldable pub op_stub : Handler
op_stub = pure (result 1 3)

unfoldable pub op_invalid : Handler
op_invalid f = (none, halt 2 f)
