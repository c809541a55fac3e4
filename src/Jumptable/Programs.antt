-- ===== src/Jumptable/Programs.antt =====
-- Whole programs of instructions that touch the stack alone, run by the loop of src/evm_jumptable.cpp.
use metaru.Common.{
  ℕ, ◌+◌, ◌-◌, ◌^◌, ◌≤◌, ◌<◌, ◌≡◌, refl, Option, none, some, List, [], ◌∷◌, ◌++◌, All, arith,
  replicate, length, leb, if◌then◌else◌,
}
use metaru.Common.Options.{◌>>=◌}
use metaru.Word.{Word, IsWord, zero_word}
use metaru.Frame.{Frame, Context}
use metaru.Frame.Items.{items, items_below, items_below-set_at, length-items_below}
use metaru.Frame.Memory.{read_bytes}
use metaru.Instr.{Instr}
use metaru.Evm.Ops.{push_word, bytes_to_copy}
use metaru.Jumptable.Ops
use metaru.Jumptable.Ops.{OpResult}
use metaru.Jumptable.Table.{decode}
use metaru.Jumptable.Run.{perform}
use metaru.Jumptable.Items.{left_on_stack}
use metaru.Jumptable.Values.{effect, IsStackOnly, perform_lem}

-- The bytes that an instruction takes.
abbrev pub width : Instr → ℕ
width (Instr.push n) = 1 + n
width _ = 1

abbrev pub push_item : Word → List Word → Option (List Word)
push_item w stack = if leb 1024 (length stack) then none else some (w ∷ stack)

-- The `n` bytes behind the opcode, as the low bytes of a word.
abbrev pub data_at : Context → ℕ → ℕ → Word
data_at c pc n = replicate (32 - n) 0 ++ read_bytes c.code (pc + 1) n

-- An instruction at `pc` on the stack as a list, from the top.
abbrev pub effect_at : Context → ℕ → Instr → List Word → Option (List Word)
effect_at c pc (Instr.push n) = push_item (data_at c pc n)
effect_at c pc Instr.push0 = push_item zero_word
effect_at c pc i = effect i

-- The instructions from `pc` on, in order.
unfoldable pub evaluate : Context → ℕ → List Instr → List Word → Option (List Word)
evaluate c pc [] stack = some stack
evaluate c pc (i ∷ is) stack = effect_at c pc i stack >>= evaluate c (pc + width i) is

-- The instructions stand in the code from `pc` to its end.
abbrev pub IsPlaced : Context → ℕ → List Instr → Type 0
IsPlaced c pc [] = pc ≡ c.code_size
IsPlaced c pc (i ∷ is) = (decode (c.code pc) ≡ i) × IsPlaced c (pc + width i) is

-- Neither STOP nor an instruction that looks at more than the stack and its own data.
abbrev pub IsPlain : Instr → Type 0
IsPlain Instr.stop = ⊥
IsPlain (Instr.push n) = n ≤ 32
IsPlain Instr.push0 = Unit
IsPlain i = IsStackOnly i

-- What a plain instruction does beside its work on the stack.
pub record IsSimple (f : Frame) (i : Instr) (o : Option OpResult × Frame) : Type 0 where
  pub pc : o.1.pc ≡ f.pc
  pub state : o.1.state ≡ f.state
  pub result : (x : OpResult) → o.0 ≡ some x → (x.pc_increment ≡ width i) × (x.gas_cost ≤ 5)

module _ (f : Frame) where
  binary-IsSimple :
      (compute : Word → Word → Word) (cost : ℕ) (i : Instr)
      → cost ≤ 5
      → width i ≡ 1
      → IsSimple f i (Ops.binary compute cost f)
  unfolding Ops.binary
  binary-IsSimple compute cost i h w = ground arith

  unary-IsSimple :
      (compute : Word → Word) (cost : ℕ) (i : Instr)
      → cost ≤ 5
      → width i ≡ 1
      → IsSimple f i (Ops.unary compute cost f)
  unfolding Ops.unary
  unary-IsSimple compute cost i h w = ground arith

  pub perform-IsSimple : (i : Instr) → IsPlain i → IsSimple f i (perform i f)
  unfolding perform Ops.op_pop Ops.op_jumpdest Ops.op_push0 Ops.op_push_n Ops.op_dup_n Ops.op_swap_n
      Ops.op_stub Ops.op_add Ops.op_mul Ops.op_sub Ops.op_div Ops.op_mod Ops.op_lt Ops.op_gt
      Ops.op_eq Ops.op_and Ops.op_or Ops.op_xor Ops.op_iszero Ops.op_not
  perform-IsSimple Instr.add p = binary-IsSimple _ 3 _ (omega arith) refl
  perform-IsSimple Instr.mul p = binary-IsSimple _ 5 _ (omega arith) refl
  perform-IsSimple Instr.sub p = binary-IsSimple _ 3 _ (omega arith) refl
  perform-IsSimple Instr.div p = binary-IsSimple _ 5 _ (omega arith) refl
  perform-IsSimple Instr.modulo p = binary-IsSimple _ 5 _ (omega arith) refl
  perform-IsSimple Instr.lt p = binary-IsSimple _ 3 _ (omega arith) refl
  perform-IsSimple Instr.gt p = binary-IsSimple _ 3 _ (omega arith) refl
  perform-IsSimple Instr.eq p = binary-IsSimple _ 3 _ (omega arith) refl
  perform-IsSimple Instr.and p = binary-IsSimple _ 3 _ (omega arith) refl
  perform-IsSimple Instr.or p = binary-IsSimple _ 3 _ (omega arith) refl
  perform-IsSimple Instr.xor p = binary-IsSimple _ 3 _ (omega arith) refl
  perform-IsSimple Instr.iszero p = unary-IsSimple _ 3 _ (omega arith) refl
  perform-IsSimple Instr.not p = unary-IsSimple _ 3 _ (omega arith) refl
  perform-IsSimple Instr.pop p = ground arith
  perform-IsSimple (Instr.dup n) p = ground arith
  perform-IsSimple (Instr.swap n) p = ground arith
  perform-IsSimple (Instr.push n) p = ground arith
  perform-IsSimple Instr.push0 p = ground arith
  perform-IsSimple Instr.jumpdest p = ground arith
  perform-IsSimple Instr.stub p = ground arith
  perform-IsSimple _ p = absurd p

all_copied : (n size pc : ℕ) → pc + (1 + n) ≤ size → size < 2 ^ 31 → bytes_to_copy n size pc ≡ n
unfolding bytes_to_copy
all_copied n size pc h k = ground arith

push_values :
    (f : Frame) (n : ℕ)
    → f.pc + (1 + n) ≤ f.context.code_size
    → f.context.code_size < 2 ^ 31
    → left_on_stack (Ops.op_push_n n f) ≡ push_item (data_at f.context f.pc n) (items f)
unfolding Ops.op_push_n push_word items_below
push_values f n h k =
    let count = all_copied n f.context.code_size f.pc h k in
    let size = length-items_below f.stack f.stack_size in
    rw count (
      ground (
        arith,
        size,
        items_below-set_at f.stack f.stack_size f.stack_size (data_at f.context f.pc n),
      ))

push0_values : (f : Frame) → left_on_stack (Ops.op_push0 f) ≡ push_item zero_word (items f)
unfolding Ops.op_push0 items_below
push0_values f = ground (
  arith,
  length-items_below f.stack f.stack_size,
  items_below-set_at f.stack f.stack_size f.stack_size zero_word,
)

-- A plain instruction has its effect on the list of the items.
pub perform_at :
    (i : Instr) (f : Frame)
    → IsPlain i
    → f.stack_size ≤ 1024
    → All IsWord (items f)
    → f.pc + width i ≤ f.context.code_size
    → f.context.code_size < 2 ^ 31
    → left_on_stack (perform i f) ≡ effect_at f.context f.pc i (items f)
unfolding perform
perform_at Instr.stop f p h w inside small = absurd p
perform_at (Instr.push n) f p h w inside small = push_values f n inside small
perform_at Instr.push0 f p h w inside small = push0_values f
perform_at i f p h w inside small = perform_lem i f p h w
