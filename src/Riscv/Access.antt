-- ===== src/Riscv/Access.antt =====
-- MLOAD, MSTORE and MSTORE8 on the bytes and on the frame, where memory has the room that they reach.
use metaru.Common.{
  ℕ, ◌+◌, ◌≤◌, ◌<◌, ◌≡◌, refl, ap, ◌==◌, ltb, set_at, length, arith, u32, get_or, List, some, ◌-◌,
  ◌⊎◌, inl, inr, Option, false, true, ◌∙◌, sym, subst,
}
use metaru.Word.{word_to_u64}
use metaru.Frame.{Frame}
use metaru.Frame.Memory
use metaru.Frame.Memory.{read_bytes, write_bytes, memory_limit, grown_size, clear_bytes}
use metaru.Frame.Memory.Laws.{write_bytes_outside, length-read_bytes}
use metaru.Layout.Store.{offset_of}
use metaru.Layout.Regions.{read_bytes-shift, write_bytes-shift}
use metaru.Optimized
use metaru.Riscv
use metaru.Riscv.{Machine}
use metaru.Riscv.Holds.{Regions, IsSpread, Holds, change_memory}
use metaru.Riscv.Simulation.{
  Same, Simulates, sim, bind_sim, bind_sim_at, choose_sim, top_sim, free_sim, word-IsItem,
  put-Holds,
}

-- Where ensure_memory allows an access, it lies in the room of the memory, and so does what memory has
-- grown to.
abbrev pub IsReached : Regions → Frame → ℕ → ℕ → Type 0
IsReached g f offset size =
    (Memory.ensure_memory offset size f).0 ≡ some tt
    → (offset + size ≤ g.room)
      × (((Memory.ensure_memory offset size f).1 ≡ f)
          ⊎ ((Memory.ensure_memory offset size f).1.memory_size ≤ g.room))

top_at :
    (n : ℕ) (f f1 : Frame) (i : ℕ)
    → Optimized.Ops.stack_top n f ≡ (some i, f1)
    → (f1 ≡ f) × (i ≡ f.stack_size - 1 - n)
unfolding Optimized.Ops.stack_top
top_at n f f1 i e = ground arith

answer : {p : Option (Unit {0}) × Frame} {f : Frame} → p ≡ (some tt, f) → p.0 ≡ some tt
answer e = ap (λ (o : Option (Unit {0}) × Frame). o.0) e

module _ (g : Regions) (apart : IsSpread g) where
  grow-Holds :
      (m : Machine) (f : Frame) (size : ℕ)
      → Holds g m f
      → f.memory_size ≤ size
      → size ≤ g.room
      → Holds g (Riscv.grow size m) (Memory.grow size f)
  unfolding Riscv.grow Memory.grow
  grow-Holds m f size h up low = record {
    fields = ground (arith, h.fields);
    content =
        change_memory g apart m.bytes f.stack f.memory f.context.code f.storage h.content _ _
          (λ i out. ground (arith, h.fields.memory_base, h.fields.memory_size))
          (λ i k.
            ground (arith, h.fields.memory_base, h.fields.memory_size, h.content.memory_at i k));
  }

  grown_fits :
      (f : Frame) (offset size : ℕ)
      → IsReached g f offset size
      → (size == 0) ≡ false
      → ltb f.memory_size (offset + size) ≡ true
      → ltb memory_limit (grown_size offset size) ≡ false
      → ltb f.memory_size (grown_size offset size) ≡ true
      → grown_size offset size ≤ g.room
  unfolding Memory.ensure_memory Memory.grow
  grown_fits f offset size reached some_bytes beyond allowed up =
      let grown : Memory.ensure_memory offset size f
          ≡ (some tt, Memory.grow (grown_size offset size) f) =
        rw (some_bytes, beyond, allowed, up) refl in
      let extent : (Memory.ensure_memory offset size f).1.memory_size ≡ grown_size offset size =
        ap (λ (o : Option (Unit {0}) × Frame). o.1.memory_size) grown in
      elim (reached (ap (λ (o : Option (Unit {0}) × Frame). o.0) grown)).1 [
        | inl same ↦
            let kept : grown_size offset size ≡ f.memory_size =
              sym extent ∙ ap (λ (h : Frame). h.memory_size) same in
            absurd (ground (arith, kept, up))
        | inr fits ↦ subst (λ n. n ≤ g.room) extent fits
      ]

  ensure_sim :
      (m : Machine) (f : Frame) (offset size : ℕ)
      → Holds g m f
      → IsReached g f offset size
      → Simulates g
          (Same {A = Unit {0}})
          (Riscv.ensure_memory offset size m)
          (Memory.ensure_memory offset size f)
  unfolding Riscv.ensure_memory Memory.ensure_memory
  ensure_sim m f offset size h reached =
      let low : (n : ℕ) → ltb m.memory_size n ≡ ltb f.memory_size n =
        λ n. ap (λ k. ltb k n) h.fields.memory_size in
      let new_size = grown_size offset size in
      rw (low (offset + size), low new_size)
        (choose_sim g (size == 0) (λ _. sim g refl h)
          (λ some_bytes.
            choose_sim g (ltb f.memory_size (offset + size))
              (λ beyond.
                choose_sim g (ltb memory_limit new_size) (λ _. sim g tt h)
                  (λ allowed.
                    choose_sim g (ltb f.memory_size new_size)
                      (λ up. sim g refl (
                        grow-Holds m f new_size h (ground arith)
                          (grown_fits f offset size reached some_bytes beyond allowed up)))
                      (λ _. sim g refl h)))
              (λ _. sim g refl h)))

  -- Bytes written to memory.
  store-Holds :
      (m : Machine) (f : Frame) (offset : ℕ) (w w' : List ℕ)
      → Holds g m f
      → w ≡ w'
      → offset + length w' ≤ g.room
      → Holds g
          (record m { bytes = write_bytes m.bytes (m.memory_ptr + offset) w })
          (record f { memory = write_bytes f.memory offset w' })
  store-Holds m f offset w w' h e fits = rw e (record {
    fields = ground (arith, h.fields);
    content =
        change_memory g apart m.bytes f.stack f.memory f.context.code f.storage h.content _ _
          (λ i out.
            write_bytes_outside m.bytes (m.memory_ptr + offset) w' i
              (omega (arith, h.fields.memory_base)))
          (λ i k.
            write_bytes-shift m.bytes f.memory g.memory_ptr (m.memory_ptr + offset) offset i w'
              (omega (arith, h.fields.memory_base)) (h.content.memory_at i k));
  })

  store_byte-Holds :
      (m : Machine) (f : Frame) (offset b b' : ℕ)
      → Holds g m f
      → b ≡ b'
      → offset < g.room
      → Holds g
          (record m { bytes = set_at m.bytes (m.memory_ptr + offset) b })
          (record f { memory = set_at f.memory offset b' })
  store_byte-Holds m f offset b b' h e fits = record {
    fields = ground (arith, h.fields);
    content =
        change_memory g apart m.bytes f.stack f.memory f.context.code f.storage h.content _ _
          (λ i out. ground (arith, h.fields.memory_base))
          (λ i k. ground (arith, h.fields.memory_base, h.content.memory_at i k));
  }

  -- The offset that was read is the one on top.
  top-IsReached :
      (f f1 : Frame) (i size : ℕ)
      → IsReached g f (offset_of f) size
      → Optimized.Ops.stack_top 0 f ≡ (some i, f1)
      → IsReached g f1 (u32 (word_to_u64 (f1.stack i))) size
  top-IsReached f f1 i size reached e =
      let (same, place) = top_at 0 f f1 i e in
      let slot : i ≡ f.stack_size - 1 = omega (arith, place) in
      subst (λ (h : Frame). IsReached g h (u32 (word_to_u64 (h.stack i))) size) (sym same)
        (subst (λ j. IsReached g f (u32 (word_to_u64 (f.stack j))) size) (sym slot) reached)

  below-IsReached :
      (f1 f2 : Frame) (i j size : ℕ)
      → IsReached g f1 (u32 (word_to_u64 (f1.stack i))) size
      → Optimized.Ops.stack_top 1 f1 ≡ (some j, f2)
      → IsReached g f2 (u32 (word_to_u64 (f2.stack i))) size
  below-IsReached f1 f2 i j size reached e =
      subst (λ (h : Frame). IsReached g h (u32 (word_to_u64 (h.stack i))) size)
        (sym (top_at 1 f1 f2 j e).0) reached

  module _ (m : Machine) (f : Frame) (h : Holds g m f) where
    pub op_mload_sim :
        IsReached g f (offset_of f) 32
        → Simulates g Same (Riscv.Ops.op_mload m) (Optimized.Ops.op_mload f)
    unfolding Riscv.Ops.op_mload Optimized.Ops.op_mload
    op_mload_sim reached = bind_sim_at g (top_sim g m f h 0) (λ a i m1 f1 sa h1 top.
        let x = word-IsItem g m1 f1 h1 a i sa in
        let offset = u32 (word_to_u64 (f1.stack i)) in
        let at = top-IsReached f f1 i 32 reached top in
        rw x.0 (
          bind_sim_at g (ensure_sim m1 f1 offset 32 h1 at) (λ _ _ m2 f2 _ h2 allowed.
            let inside : offset + 32 ≤ g.room = (at (answer allowed)).0 in
            let loaded : read_bytes m2.bytes (m2.memory_ptr + offset) 32
                ≡ read_bytes f2.memory offset 32 =
              read_bytes-shift m2.bytes f2.memory g.memory_ptr (m2.memory_ptr + offset) offset 32
                (omega (arith, h2.fields.memory_base))
                (λ k low high. h2.content.memory_at k (omega (arith, inside))) in
            sim g refl (
              put-Holds g m2 f2 h2 a i _ _ apart sa
                (loaded, length-read_bytes f2.memory offset 32)))))

    pub op_mstore_sim :
        IsReached g f (offset_of f) 32
        → Simulates g Same (Riscv.Ops.op_mstore m) (Optimized.Ops.op_mstore f)
    unfolding Riscv.Ops.op_mstore Optimized.Ops.op_mstore
    op_mstore_sim reached = bind_sim_at g (top_sim g m f h 0) (λ a i m1 f1 sa h1 top.
        bind_sim_at g (top_sim g m1 f1 h1 1) (λ b j m2 f2 sb h2 below.
          let x = word-IsItem g m2 f2 h2 a i sa in
          let offset = u32 (word_to_u64 (f2.stack i)) in
          let at = below-IsReached f1 f2 i j 32 (top-IsReached f f1 i 32 reached top) below in
          rw x.0 (
            bind_sim_at g (ensure_sim m2 f2 offset 32 h2 at) (λ _ _ m3 f3 _ h3 allowed.
              let y = word-IsItem g m3 f3 h3 b j sb in
              let inside : offset + 32 ≤ g.room = (at (answer allowed)).0 in
              let stored = store-Holds m3 f3 offset _ _ h3 y.0 (rw y.1 inside) in
              bind_sim g (free_sim g _ _ stored 2) (λ _ _ m4 f4 _ h4. sim g refl h4)))))

    pub op_mstore8_sim :
        IsReached g f (offset_of f) 1
        → Simulates g Same (Riscv.Ops.op_mstore8 m) (Optimized.Ops.op_mstore8 f)
    unfolding Riscv.Ops.op_mstore8 Optimized.Ops.op_mstore8
    op_mstore8_sim reached = bind_sim_at g (top_sim g m f h 0) (λ a i m1 f1 sa h1 top.
        bind_sim_at g (top_sim g m1 f1 h1 1) (λ b j m2 f2 sb h2 below.
          let x = word-IsItem g m2 f2 h2 a i sa in
          let offset = u32 (word_to_u64 (f2.stack i)) in
          let at = below-IsReached f1 f2 i j 1 (top-IsReached f f1 i 1 reached top) below in
          rw x.0 (
            bind_sim_at g (ensure_sim m2 f2 offset 1 h2 at) (λ _ _ m3 f3 _ h3 allowed.
              let y = word-IsItem g m3 f3 h3 b j sb in
              let inside : offset + 1 ≤ g.room = (at (answer allowed)).0 in
              let stored =
                store_byte-Holds m3 f3 offset _ _ h3 (ap (λ w. get_or w 31 0) y.0)
                  (omega (arith, inside)) in
              bind_sim g (free_sim g _ _ stored 2) (λ _ _ m4 f4 _ h4. sim g refl h4)))))
