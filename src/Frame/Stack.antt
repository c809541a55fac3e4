-- ===== src/Frame/Stack.antt =====
-- The stack helpers of src/evm.cpp and src/evm_jumptable.cpp, which copy items.
use metaru.Common.{ℕ, ◌+◌, ◌-◌, none, some, ◌==◌, leb, if◌then◌else◌, set_at}
use metaru.Word.{Word}
use metaru.Frame.{Command}

-- nullptr, or the slot of the item at `offset` from the top.
unfoldable pub stack_peek : ℕ → Command ℕ
stack_peek offset f =
    if leb f.stack_size offset then (none, f) else (some (f.stack_size - 1 - offset), f)

unfoldable pub stack_push : Word → Command (Unit {0})
stack_push w f = if leb 1024 f.stack_size then (none, f) else (
  some tt,
  record f { stack = set_at f.stack f.stack_size w; stack_size = f.stack_size + 1 },
)

unfoldable pub stack_pop : Command Word
stack_pop f =
    if f.stack_size == 0
    then (none, f)
    else (some (f.stack (f.stack_size - 1)), record f { stack_size = f.stack_size - 1 })

-- memcpy(item, word, WORD_SIZE) into the slot of an item.
abbrev pub store_item : ℕ → Word → Command (Unit {0})
store_item slot w f = (some tt, record f { stack = set_at f.stack slot w })
