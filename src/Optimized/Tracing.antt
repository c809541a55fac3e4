-- ===== src/Optimized/Tracing.antt =====
-- The calls of the tracer by execute_message of src/evm_optimized.cpp.
use metaru.Common.{◌≤◌, ◌≡◌, some, true, false}
use metaru.Frame.{Frame}
use metaru.Loop.{Run}
use metaru.Loop.Tracing.{final_frame}
use metaru.Jumptable.Tracing.{round_of_traced, round_of_untraced, IsTracedOut}
use metaru.Optimized.Run.{dispatch, execute_message}
use metaru.Optimized.Effects.{dispatch-IsTame}

-- With a tracer, and from any frame whose stack fits, execution returns, and the tracer has been
-- called before and after each operation in turn, with at most a last operation that it saw only
-- before. The prices that it was told are the gas that was spent.
pub optimized_traced :
    (f : Frame)
    → f.stack_size ≤ 1024
    → (out : Run) × (execute_message true f ≡ some out) × IsTracedOut f out
unfolding execute_message
optimized_traced = round_of_traced dispatch (λ opcode f. dispatch-IsTame f opcode)

-- A tracer changes nothing: the final frame is the one without it.
pub optimized_untraced :
    (f : Frame) → final_frame (execute_message true f) ≡ final_frame (execute_message false f)
unfolding execute_message
optimized_untraced = round_of_untraced dispatch
