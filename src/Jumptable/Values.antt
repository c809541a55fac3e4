-- ===== src/Jumptable/Values.antt =====
-- The handlers of src/evm_jumptable.cpp that touch the stack alone, against arithmetic on the
-- numbers that the items stand for.
use metaru.Common.{
  ℕ, ◌+◌, ◌*◌, ◌/◌, ◌%◌, ◌-◌, ◌≤◌, ◌≡◌, refl, ap, ◌∙◌, List, [], ◌∷◌, Option, some, arith, ◌==◌,
  ltb, if◌then◌else◌, All, ◌^◌, bit_and, bit_or, bit_xor, u64, sub_u64,
}
use metaru.Word.Laws.{word_to_u64-eq-value, is_zero_iff}
use metaru.Word.{Word, IsWord, value, u64_to_word, is_zero, same_bytes, zip_bytes, complement, flag}
use metaru.Frame.{Frame}
use metaru.Frame.Items.{items}
use metaru.Instr.{Instr}
use metaru.Evm.Ops.{on_u64}
use metaru.Jumptable.Ops
use metaru.Jumptable.Ops.{OpResult, result}
use metaru.Jumptable.Run.{perform}
use metaru.Jumptable.Items.{
  left_on_stack, pop_one, drop_top, pop_two, copy_item, exchange, pop_lem, unary_lem, binary_lem,
  dup_lem, swap_lem,
}

-- `compute` on the numbers that two words stand for, modulo 2 ^ 64.
abbrev pub on_values : (ℕ → ℕ → ℕ) → Word → Word → Word
on_values compute a b = u64_to_word (compute (value a % 2 ^ 64) (value b % 2 ^ 64))

-- What an instruction that touches the stack alone does to the stack as a list, from the top.
unfoldable pub effect : Instr → List Word → Option (List Word)
effect Instr.add = pop_two (on_values (λ a b. (a + b) % 2 ^ 64))
effect Instr.mul = pop_two (on_values (λ a b. (a * b) % 2 ^ 64))
effect Instr.sub = pop_two (on_values (λ a b. (a + 2 ^ 64 - b) % 2 ^ 64))
effect Instr.div = pop_two (on_values (λ a b. if b == 0 then 0 else a / b))
effect Instr.modulo = pop_two (on_values (λ a b. if b == 0 then 0 else a % b))
effect Instr.lt = pop_two (on_values (λ a b. flag (ltb a b)))
effect Instr.gt = pop_two (on_values (λ a b. flag (ltb b a)))
effect Instr.eq = pop_two (λ a b. u64_to_word (flag (same_bytes a b)))
effect Instr.and = pop_two (zip_bytes bit_and)
effect Instr.or = pop_two (zip_bytes bit_or)
effect Instr.xor = pop_two (zip_bytes bit_xor)
effect Instr.iszero = pop_one (λ a. u64_to_word (flag (value a == 0)))
effect Instr.not = pop_one complement
effect Instr.pop = drop_top
effect (Instr.dup n) = copy_item (n - 1)
effect (Instr.swap n) = exchange n
effect _ = some

on_u64-on_values :
    (compute : ℕ → ℕ → ℕ) (stack : List Word)
    → All IsWord stack
    → pop_two (on_u64 compute) stack ≡ pop_two (on_values compute) stack
on_u64-on_values compute [] h = refl
on_u64-on_values compute (a ∷ []) h = refl
on_u64-on_values compute (a ∷ b ∷ rest) h =
    rw (word_to_u64-eq-value a h.0, word_to_u64-eq-value b h.1.0) refl

binary_values :
    (compute : ℕ → ℕ → ℕ) (cost : ℕ) (f : Frame)
    → f.stack_size ≤ 1024
    → All IsWord (items f)
    → left_on_stack (Ops.binary (on_u64 compute) cost f) ≡ pop_two (on_values compute) (items f)
binary_values compute cost f h w =
    binary_lem f f.stack (on_u64 compute) cost f.stack_size h ∙ on_u64-on_values compute (items f) w

sub_u64-eq : (a b : ℕ) → sub_u64 a (b % 2 ^ 64) ≡ (a + 2 ^ 64 - b % 2 ^ 64) % 2 ^ 64
sub_u64-eq a b = omega arith

difference :
    (stack : List Word)
    → pop_two (on_values sub_u64) stack
      ≡ pop_two (on_values (λ a b. (a + 2 ^ 64 - b) % 2 ^ 64)) stack
difference [] = refl
difference (a ∷ []) = refl
difference (a ∷ b ∷ rest) =
    ap (λ n. some (u64_to_word n ∷ rest)) (sub_u64-eq (value a % 2 ^ 64) (value b))

is_zero-value : (w : Word) → is_zero w ≡ (value w == 0)
is_zero-value w = ground (arith, is_zero_iff w)

iszero_values :
    (stack : List Word)
    → pop_one (λ a. u64_to_word (flag (is_zero a))) stack
      ≡ pop_one (λ a. u64_to_word (flag (value a == 0))) stack
iszero_values [] = refl
iszero_values (a ∷ rest) = ap (λ z. some (u64_to_word (flag z) ∷ rest)) (is_zero-value a)

abbrev pub IsStackOnly : Instr → Type 0
IsStackOnly Instr.add = Unit
IsStackOnly Instr.mul = Unit
IsStackOnly Instr.sub = Unit
IsStackOnly Instr.div = Unit
IsStackOnly Instr.modulo = Unit
IsStackOnly Instr.lt = Unit
IsStackOnly Instr.gt = Unit
IsStackOnly Instr.eq = Unit
IsStackOnly Instr.and = Unit
IsStackOnly Instr.or = Unit
IsStackOnly Instr.xor = Unit
IsStackOnly Instr.iszero = Unit
IsStackOnly Instr.not = Unit
IsStackOnly Instr.pop = Unit
IsStackOnly (Instr.dup n) = Unit
IsStackOnly (Instr.swap n) = Unit
IsStackOnly Instr.jumpdest = Unit
IsStackOnly Instr.stub = Unit
IsStackOnly Instr.stop = Unit
IsStackOnly _ = ⊥

-- On a stack of at most 1024 items, all words, a handler that touches the stack alone, op_stub
-- among them, succeeds exactly where its effect on the list of the items does, and leaves that
-- list; arithmetic is that of the items' values modulo 2 ^ 64.
pub perform_lem :
    (i : Instr) (f : Frame)
    → IsStackOnly i
    → f.stack_size ≤ 1024
    → All IsWord (items f)
    → left_on_stack (perform i f) ≡ effect i (items f)
unfolding perform effect Ops.op_add Ops.op_mul Ops.op_sub Ops.op_div Ops.op_mod Ops.op_lt Ops.op_gt
    Ops.op_eq Ops.op_and Ops.op_or Ops.op_xor Ops.op_iszero Ops.op_not Ops.op_jumpdest Ops.op_stub
    Ops.op_stop
perform_lem Instr.add f p h w = binary_values (λ a b. u64 (a + b)) 3 f h w
perform_lem Instr.mul f p h w = binary_values (λ a b. u64 (a * b)) 5 f h w
perform_lem Instr.sub f p h w = binary_values sub_u64 3 f h w ∙ difference (items f)
perform_lem Instr.div f p h w = binary_values (λ a b. if b == 0 then 0 else a / b) 5 f h w
perform_lem Instr.modulo f p h w = binary_values (λ a b. if b == 0 then 0 else a % b) 5 f h w
perform_lem Instr.lt f p h w = binary_values (λ a b. flag (ltb a b)) 3 f h w
perform_lem Instr.gt f p h w = binary_values (λ a b. flag (ltb b a)) 3 f h w
perform_lem Instr.eq f p h w = binary_lem f f.stack _ 3 f.stack_size h
perform_lem Instr.and f p h w = binary_lem f f.stack _ 3 f.stack_size h
perform_lem Instr.or f p h w = binary_lem f f.stack _ 3 f.stack_size h
perform_lem Instr.xor f p h w = binary_lem f f.stack _ 3 f.stack_size h
perform_lem Instr.iszero f p h w = unary_lem f f.stack _ 3 f.stack_size h ∙ iszero_values (items f)
perform_lem Instr.not f p h w = unary_lem f f.stack _ 3 f.stack_size h
perform_lem Instr.pop f p h w = pop_lem f f.stack f.stack_size
perform_lem (Instr.dup n) f p h w = dup_lem f f.stack n f.stack_size
perform_lem (Instr.swap n) f p h w = swap_lem f f.stack n f.stack_size
perform_lem Instr.jumpdest f p h w = refl
perform_lem Instr.stub f p h w = refl
perform_lem Instr.stop f p h w = refl
perform_lem _ f p h w = absurd p
