-- ===== src/Jumptable/Items.antt =====
-- The handlers of src/evm_jumptable.cpp that touch the stack alone, against the stack as a list.
use metaru.Common.{
  ℕ, zero, suc, ◌-◌, ◌≤◌, ◌≡◌, refl, List, [], ◌∷◌, Option, none, some, arith, leb, if◌then◌else◌,
  set_at, length, get_elem?, set, Bool-cases, inl, inr,
}
use metaru.Word.{Word}
use metaru.Frame.{Frame}
use metaru.Frame.Items.{
  items, items_below, items_below-set_at, items_below-set_at_offset, length-items_below,
  get_elem?-items_below,
}
use metaru.Jumptable.Ops
use metaru.Jumptable.Ops.{OpResult, result}

-- What a handler leaves on the stack, where it succeeds.
abbrev pub left_on_stack : Option OpResult × Frame → Option (List Word)
left_on_stack (some r, f) = some (items f)
left_on_stack (none, f) = none

abbrev pub pop_one : (Word → Word) → List Word → Option (List Word)
pop_one compute [] = none
pop_one compute (a ∷ rest) = some (compute a ∷ rest)

abbrev pub drop_top : List Word → Option (List Word)
drop_top [] = none
drop_top (a ∷ rest) = some rest

abbrev pub pop_two : (Word → Word → Word) → List Word → Option (List Word)
pop_two compute (a ∷ b ∷ rest) = some (compute a b ∷ rest)
pop_two compute _ = none

-- DUPn: a copy of item `i` from the top, unless the stack is full.
abbrev pub copy_item : ℕ → List Word → Option (List Word)
copy_item i stack = elim (get_elem? stack i) [
  | none ↦ none
  | some w ↦ if leb 1024 (length stack) then none else some (w ∷ stack)
]

-- SWAPn: the top and item `n` change places.
abbrev pub exchange : ℕ → List Word → Option (List Word)
exchange n stack = elim (get_elem? stack 0) [
  | none ↦ none
  | some a ↦ elim (get_elem? stack n) [ none ↦ none | some b ↦ some (set (set stack 0 b) n a) ]
]

abbrev with_stack : Frame → (ℕ → Word) → ℕ → Frame
with_stack f s n = record f { stack = s; stack_size = n }

module _ (f : Frame) (s : ℕ → Word) where
  pub pop_lem : (n : ℕ) → left_on_stack (Ops.op_pop (with_stack f s n)) ≡ drop_top (items_below s n)
  unfolding Ops.op_pop items_below
  pop_lem zero = refl
  pop_lem (suc n) = ground arith

  pub unary_lem :
      (compute : Word → Word) (cost n : ℕ)
      → n ≤ 1024
      → left_on_stack (Ops.unary compute cost (with_stack f s n))
        ≡ pop_one compute (items_below s n)
  unfolding Ops.unary items_below
  unary_lem compute cost zero h = refl
  unary_lem compute cost (suc n) h = ground (arith, items_below-set_at s n n (compute (s n)))

  pub binary_lem :
      (compute : Word → Word → Word) (cost n : ℕ)
      → n ≤ 1024
      → left_on_stack (Ops.binary compute cost (with_stack f s n))
        ≡ pop_two compute (items_below s n)
  unfolding Ops.binary items_below
  binary_lem compute cost zero h = refl
  binary_lem compute cost (suc zero) h = refl
  binary_lem compute cost (suc (suc n)) h =
      ground (arith, items_below-set_at s n n (compute (s (suc n)) (s n)))

  get_elem?-beyond : (n i : ℕ) → n ≤ i → get_elem? (items_below s n) i ≡ none
  unfolding items_below
  get_elem?-beyond zero i h = refl
  get_elem?-beyond (suc n) zero h = absurd (omega arith)
  get_elem?-beyond (suc n) (suc i) h = get_elem?-beyond n i (omega arith)

  pub dup_lem :
      (i n : ℕ)
      → left_on_stack (Ops.op_dup_n i (with_stack f s n)) ≡ copy_item (i - 1) (items_below s n)
  unfolding Ops.op_dup_n items_below
  dup_lem i n = elim (Bool-cases (leb n (i - 1))) [
    | inl out ↦ ground (arith, get_elem?-beyond n (i - 1) (ground arith))
    | inr inside ↦ ground (
      arith,
      get_elem?-items_below s n (i - 1) (ground arith),
      length-items_below s n,
      items_below-set_at s n n (s (n - 1 - (i - 1))),
    )
  ]

  pub swap_lem :
      (i n : ℕ) → left_on_stack (Ops.op_swap_n i (with_stack f s n)) ≡ exchange i (items_below s n)
  unfolding Ops.op_swap_n
  swap_lem i n = elim (Bool-cases (leb n i)) [
    | inl out ↦ ground (arith, get_elem?-beyond n i (ground arith), get_elem?-beyond n 0)
    | inr inside ↦ ground (
      arith,
      get_elem?-items_below s n i (ground arith),
      get_elem?-items_below s n 0 (ground arith),
      items_below-set_at_offset s n 0 (s (n - 1 - i)) (ground arith),
      items_below-set_at_offset (set_at s (n - 1) (s (n - 1 - i))) n i (s (n - 1)) (ground arith),
    )
  ]
