-- ===== src/Interpreters/Turns.antt =====
-- The turns of the loops of src/evm.cpp, src/evm_jumptable.cpp and src/evm_optimized.cpp: which frames an
-- interpreter passes through, and what holds of every one.
use metaru.Common.{◌≡◌, ◌≤◌, ◌↔◌, ◌⊎◌, inl, inr, some, Bool, true, arith}
use metaru.Frame.{Frame}
use metaru.Loop.{Run, Progress, running}
use metaru.Loop.Laws.{Keeps}
use metaru.Loop.Sound.{IsGoing, IsEnded}
use metaru.Loop.Steps.{Reach, IsLeft, start, execute_iff, Reach-Keeps}
use metaru.Evm
use metaru.Evm.Ends.{round-Spends, round-Keeps}
use metaru.Evm.Bounds.{round-IsWithin}
use metaru.Jumptable
use metaru.Jumptable.Rounds.{round_of-Spends, round_of-Keeps}
use metaru.Jumptable.Limits.{IsWithin, round_of-IsWithin}
use metaru.Optimized

-- From `f` a run of the loop is left with `out`, after some number of turns.
abbrev pub IsOutcome : (Run → Progress) → Frame → Run → Type 0
IsOutcome round f out = (last : Run) × Reach round (start f) last × IsLeft round last out

-- An interpreter answers exactly the run with which its loop is left, however many turns that takes: the
-- bound on the turns that the model has decides nothing.
pub execute_message_iff :
    (traced : Bool) (f : Frame) (out : Run)
    → ((Evm.Run.execute_message traced f ≡ some out) ↔ IsOutcome (Evm.Run.round traced) f out)
      × ((Jumptable.Run.execute_message traced f ≡ some out)
          ↔ IsOutcome (Jumptable.Run.round traced) f out)
      × ((Optimized.Run.execute_message traced f ≡ some out)
          ↔ IsOutcome (Optimized.Run.round traced) f out)
unfolding Evm.Run.execute_message Jumptable.Run.execute_message Optimized.Run.execute_message
    Jumptable.Run.round Optimized.Run.round
execute_message_iff traced f out = (
  execute_iff (Evm.Run.round traced) (round-Spends traced) f out,
  execute_iff (Jumptable.Run.round traced)
      (round_of-Spends Jumptable.Run.dispatch
        (λ opcode g. Jumptable.Effects.dispatch-IsTame g opcode) traced)
      f out,
  execute_iff (Optimized.Run.round traced)
      (round_of-Spends Optimized.Run.dispatch
        (λ opcode g. Optimized.Effects.dispatch-IsTame g opcode) traced)
      f out,
)

-- A frame that one of the three passes through.
abbrev pub IsPassed : Bool → Frame → Run → Type 0
IsPassed traced f r =
    Reach (Evm.Run.round traced) (start f) r
    ⊎ (Reach (Jumptable.Run.round traced) (start f) r
        ⊎ Reach (Optimized.Run.round traced) (start f) r)

module _ (round : Bool → Run → Progress)
    (sound : (traced : Bool) (f : Frame) (r : Run)
      → IsGoing f r
      → running r.frame ≡ true
      → Keeps (IsGoing f) (IsEnded f) (round traced r))
    (within : (traced : Bool) (f : Frame) (r : Run)
      → IsWithin f r
      → running r.frame ≡ true
      → Keeps (IsWithin f) (IsWithin f) (round traced r)) where
  Reach-IsSafe :
      (traced : Bool) (f : Frame) (r : Run)
      → f.stack_size ≤ 1024
      → Reach (round traced) (start f) r
      → IsGoing f r × IsWithin f r
  Reach-IsSafe traced f r fits p = (
    Reach-Keeps (round traced) (IsGoing f) (IsEnded f) (sound traced f) (ground arith) p,
    Reach-Keeps (round traced) (IsWithin f) (IsWithin f) (within traced f) (ground arith) p,
  )

-- At every turn, not only at the end: the stack fits, the context and so the code is as it was, the gas
-- has not grown and is negative only where it was so at the start, pc is where it began or at most 32
-- bytes behind the code, and memory has the size that it had, or at most its limit.
pub IsPassed-IsSafe :
    (traced : Bool) (f : Frame) (r : Run)
    → f.stack_size ≤ 1024
    → IsPassed traced f r
    → IsGoing f r × IsWithin f r
unfolding Jumptable.Run.round Optimized.Run.round
IsPassed-IsSafe traced f r fits (inl p) =
    Reach-IsSafe Evm.Run.round round-Keeps round-IsWithin traced f r fits p
IsPassed-IsSafe traced f r fits (inr (inl p)) =
    Reach-IsSafe Jumptable.Run.round
      (round_of-Keeps Jumptable.Run.dispatch (λ o g. Jumptable.Effects.dispatch-IsTame g o))
      (round_of-IsWithin Jumptable.Run.dispatch (λ o g. Jumptable.Effects.dispatch-IsTame g o)
        Jumptable.Bounds.dispatch-IsBounded)
      traced f r fits p
IsPassed-IsSafe traced f r fits (inr (inr p)) =
    Reach-IsSafe Optimized.Run.round
      (round_of-Keeps Optimized.Run.dispatch (λ o g. Optimized.Effects.dispatch-IsTame g o))
      (round_of-IsWithin Optimized.Run.dispatch (λ o g. Optimized.Effects.dispatch-IsTame g o)
        Optimized.Bounds.dispatch-IsBounded)
      traced f r fits p
