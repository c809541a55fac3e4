-- ===== src/Interpreters.antt =====
-- What the three interpreters (src/evm.cpp, src/evm_jumptable.cpp, src/evm_optimized.cpp) have in common.
pub mod Turns
use metaru.Common.{◌≡◌, ◌≤◌, some, Bool, true, false}
use metaru.Frame.{Frame}
use metaru.Loop.{Run}
use metaru.Loop.Tracing.{final_frame}
use metaru.Evm
use metaru.Evm.Bounds.{evm-IsWithin}
use metaru.Evm.Tracing.{evm_untraced}
use metaru.Jumptable
use metaru.Jumptable.Limits.{IsWithin, jumptable-IsWithin}
use metaru.Jumptable.Tracing.{jumptable_untraced}
use metaru.Optimized
use metaru.Optimized.Bounds.{optimized-IsWithin}
use metaru.Optimized.Tracing.{optimized_untraced}

-- From any frame whose stack fits, each interpreter returns with pc where it began, or at most 32
-- bytes behind the code, memory of the size that it had, or at most the limit of 2 ^ 20 bytes, and the
-- reason of the halt that it had, or a number up to 12.
pub execute_message-IsWithin :
    (traced : Bool) (f : Frame)
    → f.stack_size ≤ 1024
    → ((out : Run) × (Evm.Run.execute_message traced f ≡ some out) × IsWithin f out)
      × ((out : Run) × (Jumptable.Run.execute_message traced f ≡ some out) × IsWithin f out)
      × ((out : Run) × (Optimized.Run.execute_message traced f ≡ some out) × IsWithin f out)
execute_message-IsWithin traced f fits =
    (evm-IsWithin traced f fits, jumptable-IsWithin traced f fits, optimized-IsWithin traced f fits)

-- A tracer changes nothing in any of the three: the final frame is the one without it.
pub execute_message_untraced :
    (f : Frame)
    → (final_frame (Evm.Run.execute_message true f) ≡ final_frame (Evm.Run.execute_message false f))
      × (final_frame (Jumptable.Run.execute_message true f)
          ≡ final_frame (Jumptable.Run.execute_message false f))
      × (final_frame (Optimized.Run.execute_message true f)
          ≡ final_frame (Optimized.Run.execute_message false f))
execute_message_untraced f = (evm_untraced f, jumptable_untraced f, optimized_untraced f)
