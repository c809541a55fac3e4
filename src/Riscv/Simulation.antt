-- ===== src/Riscv/Simulation.antt =====
-- The helpers on the bytes do what those on the frame do, and so do sequences of what does.
use metaru.Common.{
  ℕ, ◌+◌, ◌-◌, ◌*◌, ◌≤◌, ◌<◌, ◌≡◌, refl, ap, sym, ◌∙◌, inl, inr, Option, none, some, List, Bool,
  true, false, leb, ltb, if◌then◌else◌, set_at, length, arith, Bool-cases,
}
use metaru.Word.{Word}
use metaru.Frame.{Frame, Command, and_then}
use metaru.Frame
use metaru.Frame.Memory.{read_bytes, write_bytes}
use metaru.Frame.Memory.Laws.{length-read_bytes}
use metaru.Optimized.Ops
use metaru.Riscv
use metaru.Riscv.{Machine, Action, followed_by, stack_top, stack_alloc, stack_free, word_at, put}
use metaru.Riscv.Holds.{Regions, IsSpread, Holds, put_item}

-- Both fail, or both answer, with answers that `V` relates.
abbrev pub Answers : {A B : Type 0} → (A → B → Type 0) → Option A → Option B → Type 0
Answers V none none = Unit
Answers V (some a) (some b) = V a b
Answers V _ _ = ⊥

abbrev pub Same : {A : Type 0} → A → A → Type 0
Same a b = a ≡ b

-- A word of 32 bytes, and the item that it is.
abbrev pub IsItem : List ℕ → Word → Type 0
IsItem w v = (w ≡ v) × (length v ≡ 32)

module _ (g : Regions) where
  -- Answers that agree, and bytes that hold the frame.
  pub record Simulates {A B : Type 0} (V : A → B → Type 0) (o : Option A × Machine)
      (p : Option B × Frame) : Type 0 where
    pub answers : Answers V o.0 p.0
    pub holds : Holds g o.1 p.1

  abbrev pub sim :
      {A B : Type 0} {V : A → B → Type 0} {o : Option A × Machine} {p : Option B × Frame}
      → Answers V o.0 p.0
      → Holds g o.1 p.1
      → Simulates V o p
  sim a h = record { answers = a; holds = h }

  -- The step may use what the frame's side answered.
  pub bind_sim_at :
      {A B C D : Type 0} {V : A → B → Type 0} {W : C → D → Type 0} {o : Option A × Machine}
      {p : Option B × Frame} {k : A → Action C} {l : B → Command D}
      → Simulates V o p
      → ((a : A) (b : B) (m : Machine) (f : Frame)
          → V a b
          → Holds g m f
          → p ≡ (some b, f)
          → Simulates W (k a m) (l b f))
      → Simulates W (followed_by o k) (and_then p l)
  bind_sim_at {o = (none, m)} {p = (none, f)} r step = sim tt r.holds
  bind_sim_at {o = (none, m)} {p = (some b, f)} r step = absurd r.answers
  bind_sim_at {o = (some a, m)} {p = (none, f)} r step = absurd r.answers
  bind_sim_at {o = (some a, m)} {p = (some b, f)} r step = step a b m f r.answers r.holds refl

  pub bind_sim :
      {A B C D : Type 0} {V : A → B → Type 0} {W : C → D → Type 0} {o : Option A × Machine}
      {p : Option B × Frame} {k : A → Action C} {l : B → Command D}
      → Simulates V o p
      → ((a : A) (b : B) (m : Machine) (f : Frame)
          → V a b
          → Holds g m f
          → Simulates W (k a m) (l b f))
      → Simulates W (followed_by o k) (and_then p l)
  bind_sim r step = bind_sim_at r (λ a b m f v h e. step a b m f v h)

  -- A choice by tests that agree.
  pub if_sim :
      {A B : Type 0} {V : A → B → Type 0} (b c : Bool) {m : Machine} {f : Frame} (k k' : Action A)
      (l l' : Command B)
      → b ≡ c
      → Simulates V (k m) (l f)
      → Simulates V (k' m) (l' f)
      → Simulates V ((if b then k else k') m) ((if c then l else l') f)
  if_sim true true k k' l l' e yes_sim no_sim = yes_sim
  if_sim false false k k' l l' e yes_sim no_sim = no_sim
  if_sim true false k k' l l' e yes_sim no_sim = absurd (cc e)
  if_sim false true k k' l l' e yes_sim no_sim = absurd (cc e)

  pub choose_sim :
      {A B : Type 0} {V : A → B → Type 0} (b : Bool) {o o' : Option A × Machine}
      {p p' : Option B × Frame}
      → (b ≡ true → Simulates V o p)
      → (b ≡ false → Simulates V o' p')
      → Simulates V (if b then o else o') (if b then p else p')
  choose_sim true yes_sim no_sim = yes_sim refl
  choose_sim false yes_sim no_sim = no_sim refl

  -- A pointer to a slot.
  abbrev pub IsSlot : ℕ → ℕ → Type 0
  IsSlot p i = (p ≡ g.stack_ptr + i * 32) × (i < 1024)

  module _ (m : Machine) (f : Frame) (h : Holds g m f) where
    pub top_sim : (offset : ℕ) → Simulates IsSlot (stack_top offset m) (Ops.stack_top offset f)
    unfolding stack_top Ops.stack_top
    top_sim offset = elim (Bool-cases (leb f.stack_size offset)) [
      | inl low ↦
          let low_too : leb m.stack_size offset ≡ true = rw h.fields.stack_size low in
          rw (low_too, low) (sim tt h)
      | inr deep ↦
          let deep_too : leb m.stack_size offset ≡ false = rw h.fields.stack_size deep in
          let pointer : m.stack_ptr + (m.stack_size - 1 - offset) * 32
              ≡ g.stack_ptr + (f.stack_size - 1 - offset) * 32 =
            omega (arith, h.fields.stack_base, h.fields.stack_size) in
          rw (deep_too, deep) (sim (pointer, ground (arith, h.fields.stack_fits)) h)
    ]

    -- The same field of both changes.
    resized :
        (n n' : ℕ)
        → n ≡ n'
        → n' ≤ 1024
        → Holds g (record m { stack_size = n }) (record f { stack_size = n' })
    resized n n' e few = record { fields = ground (arith, h.fields); content = h.content }

    pub alloc_sim : Simulates IsSlot (stack_alloc m) (Ops.stack_alloc f)
    unfolding stack_alloc Ops.stack_alloc
    alloc_sim = elim (Bool-cases (leb 1024 f.stack_size)) [
      | inl full ↦
          let full_too : leb 1024 m.stack_size ≡ true = rw h.fields.stack_size full in
          rw (full_too, full) (sim tt h)
      | inr room ↦
          let room_too : leb 1024 m.stack_size ≡ false = rw h.fields.stack_size room in
          let pointer : m.stack_ptr + m.stack_size * 32 ≡ g.stack_ptr + f.stack_size * 32 =
            omega (arith, h.fields.stack_base, h.fields.stack_size) in
          rw (room_too, room)
            (sim (pointer, ground arith)
              (resized _ _ (ap (λ n. n + 1) h.fields.stack_size) (ground arith)))
    ]

    pub free_sim : (count : ℕ) → Simulates Same (stack_free count m) (Ops.stack_free count f)
    unfolding stack_free Ops.stack_free
    free_sim count = elim (Bool-cases (ltb f.stack_size count)) [
      | inl low ↦
          let low_too : ltb m.stack_size count ≡ true = rw h.fields.stack_size low in
          rw (low_too, low) (sim refl h)
      | inr enough ↦
          let enough_too : ltb m.stack_size count ≡ false = rw h.fields.stack_size enough in
          rw (enough_too, enough)
            (sim refl (
              resized _ _ (ap (λ n. n - count) h.fields.stack_size)
                (omega (arith, h.fields.stack_fits))))
    ]

    pub word-IsItem : (p i : ℕ) → IsSlot p i → IsItem (read_bytes m.bytes p 32) (f.stack i)
    word-IsItem p i s =
        let held : read_bytes m.bytes p 32 ≡ f.stack i = rw s.0 (h.content.stack_at i s.1) in
        (held, ap length (sym held) ∙ length-read_bytes m.bytes p 32)

    -- memcpy to the item.
    pub put-Holds :
        (p i : ℕ) (w : List ℕ) (v : Word)
        → IsSpread g
        → IsSlot p i
        → IsItem w v
        → Holds g
            (record m { bytes = write_bytes m.bytes p w })
            (record f { stack = set_at f.stack i v })
    put-Holds p i w v apart s e = record {
      fields = ground (arith, h.fields);
      content =
          rw (s.0, e.0)
            (put_item g apart m.bytes f.stack f.memory f.context.code f.storage h.content i v s.1
              e.1);
    }

    -- Fields that both change alike.
    pub halt-Holds : (reason : ℕ) → Holds g (Riscv.halt reason m) (Frame.halt reason f)
    halt-Holds reason = record { fields = ground (arith, h.fields); content = h.content }

    pub pc-Holds : (pc : ℕ) → Holds g (record m { pc = pc }) (record f { pc = pc })
    pc-Holds pc = record { fields = ground (arith, h.fields); content = h.content }

    pub state-Holds :
        (state : ℕ) → Holds g (record m { state = state }) (record f { state = state })
    state-Holds state = record { fields = ground (arith, h.fields); content = h.content }
