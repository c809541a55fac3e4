-- ===== src/Riscv/Push.antt =====
-- PUSH on the bytes: zeros, and then the copied bytes over the last of them.
use metaru.Common.{
  ℕ, zero, suc, ◌+◌, ◌-◌, ◌^◌, ◌≤◌, ◌<◌, ◌≡◌, refl, ap, ◌∙◌, sym, subst, ◌⊎◌, inl, inr, some, List,
  [], ◌∷◌, ◌++◌, set_at, length, replicate, length-append, length-replicate, arith, fun_ext,
  Bool-cases, leb, ltb, ◌&&◌,
}
use metaru.Word.{zero_word}
use metaru.Word.Laws.{zero_word-IsWord}
use metaru.Frame.{Frame}
use metaru.Frame.Memory.{read_bytes, write_bytes}
use metaru.Frame.Memory.Laws.{write_bytes_outside, length-read_bytes}
use metaru.Layout.Regions.{read_bytes-shift}
use metaru.Evm.Ops.{push_word, bytes_to_copy}
use metaru.Optimized
use metaru.Riscv
use metaru.Riscv.{Machine}
use metaru.Riscv.Holds.{Regions, IsSpread, Holds}
use metaru.Riscv.Simulation.{Same, Simulates, sim, bind_sim_at, alloc_sim, put-Holds}

-- A byte is the same after a write where it was before, or where it is written.
write_bytes-agree :
    (m m' : ℕ → ℕ) (q i : ℕ) (w : List ℕ)
    → (m i ≡ m' i) ⊎ ((q ≤ i) × (i < q + length w))
    → write_bytes m q w i ≡ write_bytes m' q w i
unfolding write_bytes
write_bytes-agree m m' q i [] (inl e) = e
write_bytes-agree m m' q i [] (inr h) = absurd (omega arith)
write_bytes-agree m m' q i (b ∷ w) h =
    write_bytes-agree (set_at m q b) (set_at m' q b) (q + 1) i w (ground arith)

-- The second of two writes of one length to one place.
write_bytes-write_bytes :
    (m : ℕ → ℕ) (q : ℕ) (u w : List ℕ)
    → length u ≡ length w
    → write_bytes (write_bytes m q u) q w ≡ write_bytes m q w
write_bytes-write_bytes m q u w e = fun_ext λ i.
    elim (Bool-cases (leb q i && ltb i (q + length w))) [
      | inl within ↦ write_bytes-agree (write_bytes m q u) m q i w (inr (ground arith))
      | inr out ↦
          write_bytes-agree (write_bytes m q u) m q i w
            (inl (write_bytes_outside m q u i (ground arith)))
    ]

write_bytes-append :
    (m : ℕ → ℕ) (q : ℕ) (u w : List ℕ)
    → write_bytes m q (u ++ w) ≡ write_bytes (write_bytes m q u) (q + length u) w
unfolding write_bytes
write_bytes-append m q [] w = ap (λ n. write_bytes m n w) (omega arith)
write_bytes-append m q (b ∷ u) w =
    write_bytes-append (set_at m q b) (q + 1) u w
    ∙ ap (λ n. write_bytes (write_bytes (set_at m q b) (q + 1) u) n w) (omega arith)

replicate-append : (k n : ℕ) → replicate {A = ℕ} (k + n) 0 ≡ replicate k 0 ++ replicate n 0
replicate-append zero n = ap (λ j. replicate j 0) (omega arith)
replicate-append (suc k) n =
    let next : suc k + n ≡ suc (k + n) = omega arith in
    ap (λ j. replicate j 0) next ∙ ap (λ w. 0 ∷ w) (replicate-append k n)

-- Zeros with a word's end written over them.
write_bytes_tail :
    (m : ℕ → ℕ) (q k : ℕ) (w : List ℕ)
    → k + length w ≡ 32
    → write_bytes (write_bytes m q zero_word) (q + k) w ≡ write_bytes m q (replicate k 0 ++ w)
write_bytes_tail m q k w e =
    let parts : zero_word ≡ replicate k 0 ++ replicate (length w) 0 =
      ap (λ n. replicate n 0) (sym e) ∙ replicate-append k (length w) in
    let front = write_bytes m q (replicate k 0) in
    let zeros : write_bytes m q zero_word ≡ write_bytes front (q + k) (replicate (length w) 0) =
      ap (write_bytes m q) parts
      ∙ write_bytes-append m q (replicate k 0) (replicate (length w) 0)
      ∙ ap (λ n. write_bytes front (q + n) (replicate (length w) 0))
          (length-replicate {A = ℕ} k 0) in
    ap (λ z. write_bytes z (q + k) w) zeros
    ∙ write_bytes-write_bytes front (q + k) (replicate (length w) 0) w
        (length-replicate {A = ℕ} (length w) 0)
    ∙ ap (λ n. write_bytes front (q + n) w) (sym (length-replicate {A = ℕ} k 0))
    ∙ sym (write_bytes-append m q (replicate k 0) w)

-- The bytes that PUSH copies lie within the code.
count_fits :
    (n size pc : ℕ)
    → pc < size
    → size < 2 ^ 31
    → n ≤ 32
    → (pc + 1 + bytes_to_copy n size pc ≤ size) × (bytes_to_copy n size pc ≤ 32)
unfolding bytes_to_copy
count_fits n size pc h k s = ground arith

-- A word of zeros with bytes at its end is a word's worth of bytes.
length-padded :
    (k n : ℕ) (w : List ℕ) → length w ≡ n → k + n ≡ 32 → length (replicate k 0 ++ w) ≡ 32
length-padded k n w e h =
    length-append (replicate k 0) w ∙ omega (arith, length-replicate {A = ℕ} k 0)

-- The bytes that PUSH leaves, with its item at `a`.
abbrev pushed : ℕ → ℕ → Machine → ℕ → ℕ
pushed n a m =
    let zeroed = write_bytes m.bytes a zero_word in
    let count = bytes_to_copy n m.code_size m.pc in
    write_bytes zeroed (a + (32 - count)) (read_bytes zeroed (m.code_ptr + (m.pc + 1)) count)

-- An allocation leaves what PUSH reads.
alloc_keeps :
    (f f1 : Frame) (i : ℕ)
    → Optimized.Ops.stack_alloc f ≡ (some i, f1)
    → (f1.pc ≡ f.pc) × (f1.context ≡ f.context)
unfolding Optimized.Ops.stack_alloc
alloc_keeps f f1 i e = ground arith

module _ (g : Regions) (apart : IsSpread g) (m : Machine) (f : Frame) (h : Holds g m f) where
  pub op_push_n_sim :
      (n : ℕ)
      → f.pc < f.context.code_size
      → f.context.code_size < 2 ^ 31
      → n ≤ 32
      → Simulates g Same (Riscv.Ops.op_push_n n m) (Optimized.Ops.op_push_n n f)
  unfolding Riscv.Ops.op_push_n Optimized.Ops.op_push_n Optimized.Ops.push_item push_word
  op_push_n_sim n inside small few = bind_sim_at g (alloc_sim g m f h) (λ a i m1 f1 sa h1 e.
      let kept = alloc_keeps f f1 i e in
      let pc : m1.pc ≡ f1.pc = h1.fields.pc in
      let size : m1.code_size ≡ f1.context.code_size = h1.fields.code_size in
      let count = bytes_to_copy n f1.context.code_size f1.pc in
      let fits =
        count_fits n f1.context.code_size f1.pc (rw (kept.0, kept.1) inside) (rw kept.1 small)
          few in
      let zeroed =
        put-Holds g m1 f1 h1 a i zero_word zero_word apart sa (refl, zero_word-IsWord.0) in
      let copied : read_bytes (write_bytes m1.bytes a zero_word) (m1.code_ptr + (f1.pc + 1)) count
          ≡ read_bytes f1.context.code (f1.pc + 1) count =
        read_bytes-shift (write_bytes m1.bytes a zero_word) f1.context.code g.code_ptr
          (m1.code_ptr + (f1.pc + 1)) (f1.pc + 1) count (omega (arith, h1.fields.code_base))
          (λ k low high.
            zeroed.content.code_at k (omega (arith, fits.0, h1.fields.code_fits, high))) in
      let length_is : length (read_bytes f1.context.code (f1.pc + 1) count) ≡ count =
        length-read_bytes f1.context.code (f1.pc + 1) count in
      let whole : (32 - count) + count ≡ 32 = omega (arith, fits.1) in
      let tail =
        write_bytes_tail m1.bytes a (32 - count) (read_bytes f1.context.code (f1.pc + 1) count)
          (ap (λ k. (32 - count) + k) length_is ∙ whole) in
      let written : pushed n a m1 ≡ write_bytes m1.bytes a (push_word n f1) =
        rw (size, pc)
          (ap (write_bytes (write_bytes m1.bytes a zero_word) (a + (32 - count))) copied ∙ tail) in
      sim g refl (
        subst
          (λ b.
            Holds g (record m1 { bytes = b })
              (record f1 { stack = set_at f1.stack i (push_word n f1) }))
          (sym written)
          (put-Holds g m1 f1 h1 a i _ _ apart sa
            (refl, length-padded (32 - count) count _ length_is whole))))
