-- ===== src/Optimized/Equiv.antt =====
-- The interpreter that works in place computes what the one that copies computes, on code without
-- storage operations.
use metaru.Common.{
  ℕ, ◌≤◌, ◌<◌, ◌≡◌, ◌≢◌, refl, sym, ◌∙◌, subst, ap, ◌⊎◌, inl, inr, Option, none, some, Bool, true,
  arith, ◌==◌, if◌then◌else◌, List, Bool-cases,
}
use mathlib.Core.Path.{subst₂}
use metaru.Common.Int.{pos, ltb_ℤ}
use metaru.Frame.{Frame, Context, halt, code_executing, exceptional_halt}
use metaru.Loop.{Run, Event, running, trace, signed_size}
use metaru.Loop.Laws.{Alike, SameEnd, execute-Alike}
use metaru.Jumptable.Ops.{OpResult}
use metaru.Jumptable
use metaru.Jumptable.Effects.{IsTame, dispatch-IsTame}
use metaru.Jumptable.Run.{settle, round_of}
use metaru.Jumptable.Ends.{jumptable_ends}
use metaru.Optimized.Ends.{optimized_ends}
use metaru.Optimized
use metaru.Optimized.Agree.{forget_size, Agrees}
use metaru.Optimized.Dispatch.{dispatch-Agrees}

-- Equal events and frames, but for the size of the stack of a run that halted.
abbrev pub SameRun : Run → Run → Type 0
SameRun a b =
    (a.events ≡ b.events)
    × (forget_size a.frame ≡ forget_size b.frame)
    × ((a.frame ≡ b.frame) ⊎ (a.frame.state ≡ exceptional_halt))

SameRun-refl : (r : Run) → SameRun r r
SameRun-refl r = (refl, refl, inl refl)

abbrev IsPlainRun : Context → Run → Type 0
IsPlainRun c r = (r.frame.stack_size ≤ 1024) × (r.frame.context ≡ c)

settle-Alike_self :
    (traced : Bool) (events : List Event) (f : Frame) (c : Context) (a : OpResult) (g : Frame)
    → IsPlainRun c (record { frame = f; events = events })
    → IsTame f (some a, g)
    → Alike
        (IsPlainRun c)
        SameRun
        (settle traced events (some a, g))
        (settle traced events (some a, g))
unfolding settle
settle-Alike_self traced events f c a g plain t =
    elim (Bool-cases (ltb_ℤ g.gas_remaining (pos a.gas_cost))) [
      | inl low ↦ rw low (SameRun-refl _)
      | inr enough ↦ rw enough (refl, ground arith)
    ]

-- What a failure that set no state becomes.
abbrev mark : Frame → Frame
mark g = if g.state == code_executing then halt 4 g else g

forget_size-mark : (g : Frame) → forget_size (mark g) ≡ mark (forget_size g)
forget_size-mark g = elim (Bool-cases (g.state == code_executing)) [ inl e ↦ rw e | inr e ↦ rw e ]

settle-Alike_none :
    (traced : Bool) (events : List Event) (f g h : Frame)
    → f.state ≡ code_executing
    → IsTame f (none, g)
    → forget_size g ≡ forget_size h
    → SameRun
        (record { frame = mark g; events = events })
        (record { frame = mark h; events = events })
settle-Alike_none traced events f g h s t e =
    (refl, forget_size-mark g ∙ ap mark e ∙ sym (forget_size-mark h), inr (ground arith))

settle-Alike :
    (traced : Bool) (events : List Event) (f : Frame) (c : Context) (o p : Option OpResult × Frame)
    → IsPlainRun c (record { frame = f; events = events })
    → f.state ≡ code_executing
    → IsTame f o
    → Agrees o p
    → Alike (IsPlainRun c) SameRun (settle traced events o) (settle traced events p)
unfolding settle
settle-Alike traced events f c (some a, g) (some b, h) plain s t e =
    subst₂
      (λ b' h'.
        Alike (IsPlainRun c) SameRun (settle traced events (some a, g))
          (settle traced events (some b', h')))
      e.0 e.1 (settle-Alike_self traced events f c a g plain t)
settle-Alike traced events f c (some a, g) (none, h) plain s t e = absurd e
settle-Alike traced events f c (none, g) (some b, h) plain s t e = absurd e
settle-Alike traced events f c (none, g) (none, h) plain s t e =
    settle-Alike_none traced events f g h s t e

-- The code has no byte 0x44 or 0x45, where this table has SLOAD and SSTORE, and the other has stubs.
abbrev pub IsStorageFree : Context → Type 0
IsStorageFree c = (pc : ℕ) → pc < signed_size c.code_size → (0x44 ≢ c.code pc) × (0x45 ≢ c.code pc)

round-Alike :
    (traced : Bool) (c : Context) (r : Run)
    → IsStorageFree c
    → IsPlainRun c r
    → running r.frame ≡ true
    → Alike (IsPlainRun c) SameRun (Jumptable.Run.round traced r) (Optimized.Run.round traced r)
unfolding Jumptable.Run.round Optimized.Run.round round_of
round-Alike traced c r free plain go = elim (Bool-cases (ltb_ℤ r.frame.gas_remaining (pos 3))) [
  | inl low ↦ rw low (SameRun-refl _)
  | inr enough ↦
      let opcode = r.frame.context.code r.frame.pc in
      let inside : r.frame.pc < signed_size r.frame.context.code_size = ground arith in
      let ok : (0x44 ≢ opcode) × (0x45 ≢ opcode) =
        subst IsStorageFree (sym plain.1) free r.frame.pc inside in
      rw enough (
        settle-Alike traced (trace traced (Event.pre_execution r.frame) r.events) r.frame c
          (Jumptable.Run.dispatch opcode r.frame) (Optimized.Run.dispatch opcode r.frame) plain
          (ground arith) (dispatch-IsTame r.frame opcode)
          (dispatch-Agrees opcode r.frame ok.0 ok.1 plain.0))
]

-- On code with no byte 0x44 or 0x45, where the in-place table alone has handlers, SLOAD and SSTORE,
-- and a stack that fits, the in-place and the jump table interpreter both return; they made the
-- same calls of the tracer, and their final frames are equal but for the size of the stack, which
-- may differ only where execution halted.
pub optimized-eq-jumptable :
    (traced : Bool) (f : Frame)
    → f.stack_size ≤ 1024
    → IsStorageFree f.context
    → (a b : Run) × (Jumptable.Run.execute_message traced f ≡ some a)
      × (Optimized.Run.execute_message traced f ≡ some b)
      × SameRun a b
unfolding Jumptable.Run.execute_message Optimized.Run.execute_message
optimized-eq-jumptable traced f fits free =
    let (a, p, _) = jumptable_ends traced f fits in
    let (b, q, _) = optimized_ends traced f fits in (a, b, p, q, subst₂ (SameEnd SameRun) p q same)
  where
    same :
        SameEnd SameRun
          (Jumptable.Run.execute_message traced f)
          (Optimized.Run.execute_message traced f)
    same =
        execute-Alike (Jumptable.Run.round traced) (Optimized.Run.round traced)
          (IsPlainRun f.context) SameRun (λ r plain. round-Alike traced f.context r free plain)
          SameRun-refl f (fits, refl)
