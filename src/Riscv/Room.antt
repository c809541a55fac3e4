-- ===== src/Riscv/Room.antt =====
-- When the accesses of memory stay in the room that it has, so that they reach no other bytes.
use metaru.Common.{
  ℕ, ◌+◌, ◌≤◌, ◌<◌, ◌≡◌, refl, Bool-cases, ltb, ◌==◌, ◌⊎◌, inl, inr, Bool, true, false, arith, sym,
  subst,
}
use metaru.Frame.{Frame, Context}
use metaru.Frame.Memory
use metaru.Frame.Memory.{memory_limit, grown_size}
use metaru.Layout.Store.{offset_of}
use metaru.Instr.{Instr}
use metaru.Loop.{Run, running, signed_size, next}
use metaru.Loop.Steps.{Reach, IsStep, turn, here, more, start}
use metaru.Interpreters.Turns.{IsPassed-IsSafe}
use metaru.Optimized.Run.{decode, round}
use metaru.Riscv.Holds.{Regions}
use metaru.Riscv.Access.{IsReached}
use metaru.Riscv.Instructions.{IsReaching}

-- At every turn of the loop on the frame, an access of memory that is allowed lies in its room.
abbrev pub StaysInRoom : Regions → Run → Type 0
StaysInRoom g first =
    (r : Run)
    → Reach (round false) first r
    → running r.frame ≡ true
    → IsReaching g r.frame (decode (r.frame.context.code r.frame.pc))

-- Room for the 32 bytes at any offset of 32 bits.
abbrev pub far : ℕ
far = 4294967328

abbrev pub is_memory : Instr → Bool
is_memory Instr.mload = true
is_memory Instr.mstore = true
is_memory Instr.mstore8 = true
is_memory _ = false

-- Memory reaches wherever an access does, or the code has no MLOAD, MSTORE or MSTORE8.
abbrev pub HasRoom : Regions → Context → Type 0
HasRoom g c =
    (far ≤ g.room)
    ⊎ ((pc : ℕ) → pc < signed_size c.code_size → is_memory (decode (c.code pc)) ≡ false)

-- Memory grows to its limit at most.
limited :
    (f : Frame) (offset size : ℕ)
    → ((Memory.ensure_memory offset size f).1 ≡ f)
      ⊎ ((Memory.ensure_memory offset size f).1.memory_size ≤ memory_limit)
unfolding Memory.ensure_memory Memory.grow
limited f offset size = elim (Bool-cases (size == 0)) [
  | inl e ↦ rw e (inl refl)
  | inr e ↦ rw e (elim (Bool-cases (ltb f.memory_size (offset + size))) [
    | inr covered ↦ rw covered (inl refl)
    | inl beyond ↦ rw beyond (elim (Bool-cases (ltb memory_limit (grown_size offset size))) [
      | inl high ↦ rw high (inl refl)
      | inr low ↦ rw low (elim (Bool-cases (ltb f.memory_size (grown_size offset size))) [
        | inl up ↦ rw up (inr (ground arith))
        | inr same ↦ rw same (inl refl)
      ])
    ])
  ])
]

far-IsReached :
    (g : Regions) (f : Frame) (size : ℕ)
    → far ≤ g.room
    → size ≤ 32
    → IsReached g f (offset_of f) size
far-IsReached g f size wide few allowed = (
  omega (arith, wide),
  elim (limited f (offset_of f) size) [ inl same ↦ inl same | inr low ↦ inr (omega (arith, low)) ],
)

far-IsReaching : (g : Regions) (f : Frame) (i : Instr) → far ≤ g.room → IsReaching g f i
far-IsReaching g f Instr.mload wide = far-IsReached g f 32 wide (omega arith)
far-IsReaching g f Instr.mstore wide = far-IsReached g f 32 wide (omega arith)
far-IsReaching g f Instr.mstore8 wide = far-IsReached g f 1 wide (omega arith)
far-IsReaching g f _ wide = tt

free-IsReaching : (g : Regions) (f : Frame) (i : Instr) → is_memory i ≡ false → IsReaching g f i
free-IsReaching g f Instr.mload free = absurd (cc free)
free-IsReaching g f Instr.mstore free = absurd (cc free)
free-IsReaching g f Instr.mstore8 free = absurd (cc free)
free-IsReaching g f _ free = tt

pub HasRoom-StaysInRoom :
    (g : Regions) (f : Frame) → f.stack_size ≤ 1024 → HasRoom g f.context → StaysInRoom g (start f)
HasRoom-StaysInRoom g f fits room r p go = elim room [
  | inl wide ↦ far-IsReaching g r.frame _ wide
  | inr free ↦
      let context : r.frame.context ≡ f.context =
        (IsPassed-IsSafe false f r fits (inr (inr p))).0.0.context in
      free-IsReaching g r.frame _ (
        subst (λ (c : Context). is_memory (decode (c.code r.frame.pc)) ≡ false) (sym context)
          (free r.frame.pc
            (subst (λ (c : Context). r.frame.pc < signed_size c.code_size) context (ground arith))))
]

-- Turns in sequence begin with one, if there are any.
first_turn :
    (r t : Run)
    → Reach (round false) r t
    → (r ≡ t) ⊎ ((s : Run) × IsStep (round false) r s × Reach (round false) s t)
first_turn r t here = inl refl
first_turn r t (more {s = m} p last) = elim (first_turn r m p) [
  | inl same ↦ inr (t, subst (λ (x : Run). IsStep (round false) x t) (sym same) last, here)
  | inr (s, step, rest) ↦ inr (s, step, more rest last)
]

-- Turn by turn.
pub StaysInRoom-next :
    (g : Regions) (r s : Run)
    → round false r ≡ next s
    → IsReaching g r.frame (decode (r.frame.context.code r.frame.pc))
    → StaysInRoom g s
    → StaysInRoom g r
StaysInRoom-next g r s e now later t p go = elim (first_turn r t p) [
  | inl same ↦
      subst (λ (x : Run). IsReaching g x.frame (decode (x.frame.context.code x.frame.pc))) same now
  | inr (s', turn on e', rest) ↦
      let same : s' ≡ s = cc (e, e') in
      later t (subst (λ (x : Run). Reach (round false) x t) same rest) go
]

pub StaysInRoom-over : (g : Regions) (r : Run) → running r.frame ≡ false → StaysInRoom g r
StaysInRoom-over g r over t p go = elim (first_turn r t p) [
  | inl same ↦ absurd (cc (over, subst (λ (x : Run). running x.frame ≡ true) (sym same) go))
  | inr (s, turn on e, rest) ↦ absurd (cc (over, on))
]
