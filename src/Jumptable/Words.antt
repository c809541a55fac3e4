-- ===== src/Jumptable/Words.antt =====
-- What the handlers of src/evm_jumptable.cpp that touch the stack alone leave on it are words.
use metaru.Common.{
  ℕ, zero, suc, ◌-◌, Option, none, some, List, [], ◌∷◌, All, get_elem?, set, if◌then◌else◌, leb,
  length, Bool-cases, inl, inr,
}
use metaru.Word.{Word, IsWord}
use metaru.Word.Laws.{u64_to_word-IsWord, and-IsWord, or-IsWord, xor-IsWord, complement-IsWord}
use metaru.Instr.{Instr}
use metaru.Jumptable.Items.{pop_one, drop_top, pop_two}
use metaru.Jumptable.Values.{effect}

-- A stack that is left, if any, is of words.
abbrev pub AllSome : Option (List Word) → Type 0
AllSome (some stack) = All IsWord stack
AllSome none = Unit

pop_two-AllSome :
    (compute : Word → Word → Word) (stack : List Word)
    → ((a b : Word) → IsWord a → IsWord b → IsWord (compute a b))
    → All IsWord stack
    → AllSome (pop_two compute stack)
pop_two-AllSome compute [] c h = tt
pop_two-AllSome compute (a ∷ []) c h = tt
pop_two-AllSome compute (a ∷ b ∷ rest) c h = (c a b h.0 h.1.0, h.1.1)

pop_one-AllSome :
    (compute : Word → Word) (stack : List Word)
    → ((a : Word) → IsWord a → IsWord (compute a))
    → All IsWord stack
    → AllSome (pop_one compute stack)
pop_one-AllSome compute [] c h = tt
pop_one-AllSome compute (a ∷ rest) c h = (c a h.0, h.1)

drop_top-AllSome : (stack : List Word) → All IsWord stack → AllSome (drop_top stack)
drop_top-AllSome [] h = tt
drop_top-AllSome (a ∷ rest) h = h.1

-- An item at an offset, if there is one.
abbrev Holds : Option Word → Type 0
Holds (some w) = IsWord w
Holds none = Unit

get_elem?-Holds : (stack : List Word) (i : ℕ) → All IsWord stack → Holds (get_elem? stack i)
get_elem?-Holds [] i h = tt
get_elem?-Holds (w ∷ stack) zero h = h.0
get_elem?-Holds (w ∷ stack) (suc i) h = get_elem?-Holds stack i h.1

set-All :
    (stack : List Word) (i : ℕ) (w : Word)
    → IsWord w
    → All IsWord stack
    → All IsWord (set stack i w)
set-All [] i w k h = tt
set-All (v ∷ stack) zero w k h = (k, h.1)
set-All (v ∷ stack) (suc i) w k h = (h.0, set-All stack i w k h.1)

pub push-AllSome :
    (w : Word) (stack : List Word)
    → IsWord w
    → All IsWord stack
    → AllSome (if leb 1024 (length stack) then none else some (w ∷ stack))
push-AllSome w stack k h = elim (Bool-cases (leb 1024 (length stack))) [
  | inl full ↦ rw full tt
  | inr room ↦ rw room (k, h)
]

copy-AllSome :
    (item : Option Word) (stack : List Word)
    → Holds item
    → All IsWord stack
    → AllSome (elim item [
      | none ↦ none
      | some w ↦ if leb 1024 (length stack) then none else some (w ∷ stack)
    ])
copy-AllSome none stack k h = tt
copy-AllSome (some w) stack k h = push-AllSome w stack k h

exchange-AllSome :
    (n : ℕ) (top other : Option Word) (stack : List Word)
    → Holds top
    → Holds other
    → All IsWord stack
    → AllSome (elim top [
      | none ↦ none
      | some a ↦ elim other [ none ↦ none | some b ↦ some (set (set stack 0 b) n a) ]
    ])
exchange-AllSome n none other stack k l h = tt
exchange-AllSome n (some a) none stack k l h = tt
exchange-AllSome n (some a) (some b) stack k l h =
    set-All (set stack 0 b) n a k (set-All stack 0 b l h)

pub effect-AllSome : (i : Instr) (stack : List Word) → All IsWord stack → AllSome (effect i stack)
unfolding effect
effect-AllSome Instr.add stack h = pop_two-AllSome _ stack (λ a b p q. u64_to_word-IsWord _) h
effect-AllSome Instr.mul stack h = pop_two-AllSome _ stack (λ a b p q. u64_to_word-IsWord _) h
effect-AllSome Instr.sub stack h = pop_two-AllSome _ stack (λ a b p q. u64_to_word-IsWord _) h
effect-AllSome Instr.div stack h = pop_two-AllSome _ stack (λ a b p q. u64_to_word-IsWord _) h
effect-AllSome Instr.modulo stack h = pop_two-AllSome _ stack (λ a b p q. u64_to_word-IsWord _) h
effect-AllSome Instr.lt stack h = pop_two-AllSome _ stack (λ a b p q. u64_to_word-IsWord _) h
effect-AllSome Instr.gt stack h = pop_two-AllSome _ stack (λ a b p q. u64_to_word-IsWord _) h
effect-AllSome Instr.eq stack h = pop_two-AllSome _ stack (λ a b p q. u64_to_word-IsWord _) h
effect-AllSome Instr.and stack h = pop_two-AllSome _ stack and-IsWord h
effect-AllSome Instr.or stack h = pop_two-AllSome _ stack or-IsWord h
effect-AllSome Instr.xor stack h = pop_two-AllSome _ stack xor-IsWord h
effect-AllSome Instr.iszero stack h = pop_one-AllSome _ stack (λ a p. u64_to_word-IsWord _) h
effect-AllSome Instr.not stack h = pop_one-AllSome _ stack complement-IsWord h
effect-AllSome Instr.pop stack h = drop_top-AllSome stack h
effect-AllSome (Instr.dup n) stack h = copy-AllSome _ stack (get_elem?-Holds stack (n - 1) h) h
effect-AllSome (Instr.swap n) stack h =
    exchange-AllSome n _ _ stack (get_elem?-Holds stack 0 h) (get_elem?-Holds stack n h) h
effect-AllSome _ stack h = h
