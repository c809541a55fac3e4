-- ===== src/Jumptable/Limits.antt =====
-- pc and the size of memory over whole runs of the loop of src/evm_jumptable.cpp.
use metaru.Common.{
  ℕ, ◌+◌, ◌≤◌, ◌<◌, ◌≡◌, refl, ◌⊎◌, inl, inr, Option, none, some, Bool, true, arith, List,
  Bool-cases,
}
use metaru.Common.Int.{pos, ltb_ℤ}
use metaru.Frame.{Frame}
use metaru.Frame.Memory.{memory_limit}
use metaru.Loop.{Run, Event, running, execute, trace}
use metaru.Loop.Laws.{execute_ends, Keeps}
use metaru.Jumptable.Ops.{OpResult, Handler}
use metaru.Jumptable.Effects.{IsTame, dispatch-IsTame}
use metaru.Jumptable.Bounds.{IsBounded, dispatch-IsBounded}
use metaru.Jumptable.Rounds.{round_of_ends}
use metaru.Jumptable.Run.{settle, round_of, dispatch, execute_message}

-- pc is where the run began, or at most 32 bytes behind the code; memory has the size that it had,
-- or at most the limit. The reason of a halt is what it was, or a number of the enum.
pub record IsWithin (f : Frame) (r : Run) : Type 0 where
  pub pc : (r.frame.pc ≡ f.pc) ⊎ (r.frame.pc ≤ f.context.code_size + 32)
  pub reason : (r.frame.halt_reason ≡ f.halt_reason) ⊎ (r.frame.halt_reason ≤ 12)
  pub memory : (r.frame.memory_size ≡ f.memory_size) ⊎ (r.frame.memory_size ≤ memory_limit)
  pub context : r.frame.context ≡ f.context

settle-IsWithin :
    (traced : Bool) (events : List Event) (f : Frame) (r : Run) (o : Option OpResult × Frame)
    → IsWithin f r
    → r.frame.pc < r.frame.context.code_size
    → IsTame r.frame o
    → IsBounded r.frame o
    → Keeps (IsWithin f) (IsWithin f) (settle traced events o)
unfolding settle
settle-IsWithin traced events f r (none, g) h inside t b = ground arith
settle-IsWithin traced events f r (some x, g) h inside t b = ground (arith, b.step x refl)

module _ (table : ℕ → Handler) (tame : (opcode : ℕ) (f : Frame) → IsTame f (table opcode f))
    (bounded : (opcode : ℕ) (f : Frame) → IsBounded f (table opcode f)) where
  pub round_of-IsWithin :
      (traced : Bool) (f : Frame) (r : Run)
      → IsWithin f r
      → running r.frame ≡ true
      → Keeps (IsWithin f) (IsWithin f) (round_of table traced r)
  unfolding round_of
  round_of-IsWithin traced f r h go = elim (Bool-cases (ltb_ℤ r.frame.gas_remaining (pos 3))) [
    | inl low ↦ rw low (ground arith)
    | inr enough ↦ rw enough (
        settle-IsWithin traced (trace traced (Event.pre_execution r.frame) r.events) f r
          (table (r.frame.context.code r.frame.pc) r.frame) h (ground arith) (tame _ _)
          (bounded _ _))
  ]

  pub execute-IsWithin :
      (traced : Bool) (f : Frame)
      → f.stack_size ≤ 1024
      → (out : Run) × (execute (round_of table traced) f ≡ some out) × IsWithin f out
  execute-IsWithin traced f fits =
      let (out, e, _) = round_of_ends table tame traced f fits in
      (
        out,
        e,
        execute_ends (round_of table traced) (IsWithin f) (IsWithin f) (round_of-IsWithin traced f)
            (λ r h stop. ground arith) f out (ground arith) e,
      )

-- From any frame whose stack fits, execution returns with pc where it began, or at most 32 bytes
-- behind the code, and memory of the size that it had, or at most the limit of 2 ^ 20 bytes.
pub jumptable-IsWithin :
    (traced : Bool) (f : Frame)
    → f.stack_size ≤ 1024
    → (out : Run) × (execute_message traced f ≡ some out) × IsWithin f out
unfolding execute_message
jumptable-IsWithin =
    execute-IsWithin dispatch (λ opcode f. dispatch-IsTame f opcode) dispatch-IsBounded
