-- ===== src/Riscv/Handlers.antt =====
-- The handlers that touch the stack alone, on the bytes and on the frame.
use metaru.Common.{
  ℕ, ◌+◌, ◌-◌, ◌≡◌, refl, ap, ◌∙◌, sym, inl, inr, leb, length, arith, Bool-cases, u32,
}
use metaru.Word.{Word, u64_to_word, word_to_u64, is_zero}
use metaru.Word.Laws.{u64_to_word-IsWord, zero_word-IsWord}
use metaru.Frame.{Frame}
use metaru.Frame.Memory.{read_bytes}
use metaru.Jumptable
use metaru.Optimized
use metaru.Riscv.{Machine, Action, followed_by}
use metaru.Riscv
use metaru.Riscv.Holds.{Regions, IsSpread, Holds}
use metaru.Riscv.Simulation.{
  Same, IsItem, Simulates, sim, bind_sim, top_sim, alloc_sim, free_sim, word-IsItem, put-Holds,
  if_sim, halt-Holds, pc-Holds,
}

-- A function on words of 32 bytes.
abbrev KeepsLength : (Word → Word → Word) → Type 0
KeepsLength compute = (x y : Word) → length x ≡ 32 → length y ≡ 32 → length (compute x y) ≡ 32

-- The test of a jump's target.
bad_dest_same :
    (g : Regions) (m : Machine) (f : Frame) (h : Holds g m f) (dest : ℕ)
    → Riscv.Ops.bad_dest dest m ≡ Jumptable.Ops.bad_dest dest f
unfolding Riscv.Ops.bad_dest Jumptable.Ops.bad_dest
bad_dest_same g m f h dest = elim (Bool-cases (leb f.context.code_size dest)) [
  | inl beyond ↦ rw (h.fields.code_size, beyond) refl
  | inr inside ↦
      let byte : m.bytes (m.code_ptr + dest) ≡ f.context.code dest =
        rw h.fields.code_base (h.content.code_at dest (ground (arith, h.fields.code_fits))) in
      rw (h.fields.code_size, byte) refl
]

module _ (g : Regions) (apart : IsSpread g) (m : Machine) (f : Frame) (h : Holds g m f) where
  pub binary_sim :
      (compute : Word → Word → Word) (cost : ℕ)
      → KeepsLength compute
      → Simulates g Same (Riscv.Ops.binary compute cost m) (Optimized.Ops.binary compute cost f)
  unfolding Riscv.Ops.binary Optimized.Ops.binary
  binary_sim compute cost keeps = bind_sim g (top_sim g m f h 0) (λ a i m1 f1 sa h1.
      bind_sim g (top_sim g m1 f1 h1 1) (λ b j m2 f2 sb h2.
        let x = word-IsItem g m2 f2 h2 a i sa in
        let y = word-IsItem g m2 f2 h2 b j sb in
        let result : IsItem (compute (read_bytes m2.bytes a 32) (read_bytes m2.bytes b 32))
            (compute (f2.stack i) (f2.stack j)) =
          (rw (x.0, y.0) refl, keeps _ _ x.1 y.1) in
        bind_sim g (free_sim g _ _ (put-Holds g m2 f2 h2 b j _ _ apart sb result) 1)
          (λ _ _ m3 f3 _ h3. sim g refl h3)))

  pub unary_sim :
      (compute : Word → Word) (cost : ℕ)
      → ((x : Word) → length x ≡ 32 → length (compute x) ≡ 32)
      → Simulates g Same (Riscv.Ops.unary compute cost m) (Optimized.Ops.unary compute cost f)
  unfolding Riscv.Ops.unary Optimized.Ops.unary
  unary_sim compute cost keeps = bind_sim g (top_sim g m f h 0) (λ a i m1 f1 sa h1.
      let x = word-IsItem g m1 f1 h1 a i sa in
      sim g refl (put-Holds g m1 f1 h1 a i _ _ apart sa (ap compute x.0, keeps _ x.1)))

  pub op_pop_sim : Simulates g Same (Riscv.Ops.op_pop m) (Optimized.Ops.op_pop f)
  unfolding Riscv.Ops.op_pop Optimized.Ops.op_pop
  op_pop_sim =
      bind_sim g (free_sim g m f h 1)
        (λ freed freed' m1 f1 e h1. if_sim g freed freed' _ _ _ _ e (sim g refl h1) (sim g tt h1))

  pub op_dup_n_sim :
      (n : ℕ) → Simulates g Same (Riscv.Ops.op_dup_n n m) (Optimized.Ops.op_dup_n n f)
  unfolding Riscv.Ops.op_dup_n Optimized.Ops.op_dup_n
  op_dup_n_sim n = bind_sim g (top_sim g m f h (n - 1)) (λ a i m1 f1 sa h1.
      bind_sim g (alloc_sim g m1 f1 h1) (λ b j m2 f2 sb h2.
        sim g refl (put-Holds g m2 f2 h2 b j _ _ apart sb (word-IsItem g m2 f2 h2 a i sa))))

  pub op_swap_n_sim :
      (n : ℕ) → Simulates g Same (Riscv.Ops.op_swap_n n m) (Optimized.Ops.op_swap_n n f)
  unfolding Riscv.Ops.op_swap_n Optimized.Ops.op_swap_n
  op_swap_n_sim n = bind_sim g (top_sim g m f h 0) (λ a i m1 f1 sa h1.
      bind_sim g (top_sim g m1 f1 h1 n) (λ b j m2 f2 sb h2.
        let swapped = put-Holds g m2 f2 h2 a i _ _ apart sa (word-IsItem g m2 f2 h2 b j sb) in
        sim g refl (put-Holds g _ _ swapped b j _ _ apart sb (word-IsItem g m2 f2 h2 a i sa))))

  pub op_jump_sim : Simulates g Same (Riscv.Ops.op_jump m) (Optimized.Ops.op_jump f)
  unfolding Riscv.Ops.op_jump Optimized.Ops.op_jump
  op_jump_sim = bind_sim g (top_sim g m f h 0) (λ a i m1 f1 sa h1.
      let x = word-IsItem g m1 f1 h1 a i sa in
      let dest = u32 (word_to_u64 (f1.stack i)) in
      rw x.0 (
        if_sim g _ _ _ _ _ _ (bad_dest_same g m1 f1 h1 dest) (sim g tt (halt-Holds g m1 f1 h1 3)) (
          bind_sim g (free_sim g m1 f1 h1 1)
            (λ _ _ m2 f2 _ h2. sim g refl (pc-Holds g m2 f2 h2 dest)))))

  pub op_jumpi_sim : Simulates g Same (Riscv.Ops.op_jumpi m) (Optimized.Ops.op_jumpi f)
  unfolding Riscv.Ops.op_jumpi Optimized.Ops.op_jumpi
  op_jumpi_sim = bind_sim g (top_sim g m f h 0) (λ a i m1 f1 sa h1.
      bind_sim g (top_sim g m1 f1 h1 1) (λ b j m2 f2 sb h2.
        let x = word-IsItem g m2 f2 h2 a i sa in
        let y = word-IsItem g m2 f2 h2 b j sb in
        let dest = u32 (word_to_u64 (f2.stack i)) in
        rw (x.0, y.0)
          (bind_sim g (free_sim g m2 f2 h2 2) (λ _ _ m3 f3 _ h3.
            if_sim g (is_zero (f2.stack j)) (is_zero (f2.stack j)) {m = m3} {f = f3} _ _ _ _ refl
              (sim g refl h3)
              (if_sim g _ _ {m = m3} {f = f3} _ _ _ _ (bad_dest_same g m3 f3 h3 dest)
                (sim g tt (halt-Holds g m3 f3 h3 3)) (sim g refl (pc-Holds g m3 f3 h3 dest)))))))

  pub push_number_sim :
      (number : Machine → ℕ) (word : Frame → Word)
      → ((m : Machine) (f : Frame) → Holds g m f → u64_to_word (number m) ≡ word f)
      → Simulates g Same (Riscv.Ops.push_number number m) (Optimized.Ops.push_item word 1 2 f)
  unfolding Riscv.Ops.push_number Optimized.Ops.push_item
  push_number_sim number word same = bind_sim g (alloc_sim g m f h) (λ a i m1 f1 sa h1.
      let e = same m1 f1 h1 in
      sim g refl (
        put-Holds g m1 f1 h1 a i _ _ apart sa
          (e, ap length (sym e) ∙ (u64_to_word-IsWord (number m1)).0)))

  pub op_push0_sim : Simulates g Same (Riscv.Ops.op_push0 m) (Optimized.Ops.op_push0 f)
  unfolding Riscv.Ops.op_push0 Optimized.Ops.op_push0 Optimized.Ops.push_item
  op_push0_sim = bind_sim g (alloc_sim g m f h) (λ a i m1 f1 sa h1.
      sim g refl (put-Holds g m1 f1 h1 a i _ _ apart sa (refl, zero_word-IsWord.0)))
