-- ===== src/Optimized/Ends.antt =====
-- execute_message of src/evm_optimized.cpp returns, in bounds.
use metaru.Common.{◌≤◌, ◌≡◌, some, Bool}
use metaru.Frame.{Frame}
use metaru.Loop.{Run}
use metaru.Optimized.Effects.{dispatch-IsTame}
use metaru.Jumptable.Rounds.{round_of_ends}
use metaru.Loop.Sound.{IsEnded}
use metaru.Optimized.Run.{dispatch, execute_message}

-- From any frame whose stack fits, execution returns: halted or complete, with at most 1024 items
-- on the stack, the context (code included) as it was, no more gas than before, and no negative gas
-- unless the gas is untouched.
pub optimized_ends :
    (traced : Bool) (f : Frame)
    → f.stack_size ≤ 1024
    → (out : Run) × (execute_message traced f ≡ some out) × IsEnded f out
unfolding execute_message
optimized_ends = round_of_ends dispatch (λ opcode f. dispatch-IsTame f opcode)
