-- ===== src/Loop.antt =====
-- The execution loop that the interpreters share in shape (src/evm.cpp, src/evm_jumptable.cpp,
-- src/evm_optimized.cpp), over the body of one round. The calls of a tracer are events.
pub mod Laws
pub mod Sound
pub mod Tracing
pub mod Steps
use metaru.Common.{
  ℕ, zero, suc, ◌+◌, Option, none, some, List, [], ◌∷◌, ◌++◌, Bool, true, false, ◌&&◌, ◌==◌, ltb,
  if◌then◌else◌, ◌^◌,
}
use metaru.Common.Int.{pos_part}
use metaru.Frame.{Frame, Context, code_executing, completed_success}

-- struct OperationResult of include/tracer_callback.h
pub record OperationResult : Type 0 where
  pub gas_cost : ℕ
  pub halt_reason : ℕ
  pub pc_increment : ℕ

-- trace_pre_execution(frame) and trace_post_execution(frame, &result), with what they are shown.
-- A tracer only reads the frame.
pub data Event : Type 0 where
  pre_execution : Frame → Event
  post_execution : Frame → OperationResult → Event

-- A frame, and the tracer's calls so far, the latest first.
pub record Run : Type 0 where
  pub frame : Frame
  pub events : List Event

-- How a round ends: at its end, or by a return.
pub data Progress : Type 0 where
  next : Run → Progress
  returned : Run → Progress

-- A call of the tracer, where there is one.
abbrev pub trace : Bool → Event → List Event → List Event
trace true e events = e ∷ events
trace false e events = events

-- static_cast<int32_t>(code_size), as a bound on a pc that is no negative number.
abbrev pub signed_size : ℕ → ℕ
signed_size n = if ltb n (2 ^ 31) then n else 0

-- pc < static_cast<int32_t>(code_size) && state == CODE_EXECUTING
abbrev pub running : Frame → Bool
running f = ltb f.pc (signed_size f.context.code_size) && f.state == code_executing

-- A loop that leaves by its test with the state unchanged has succeeded.
abbrev pub finish : Run → Run
finish r =
    if r.frame.state == code_executing
    then record r { frame = record (r.frame) { state = completed_success } }
    else r

module _ (round : Run → Progress) where
  -- The loop on fuel; `none` means that the fuel ran out.
  unfoldable pub loop : ℕ → Run → Option Run
  loop zero r = none
  loop (suc fuel) r = elim (running r.frame) [
    | false ↦ some (finish r)
    | true ↦ elim (round r) [ next r' ↦ loop fuel r' | returned r' ↦ some r' ]
  ]

  -- execute_message. Each round that goes on spends gas, so the gas bounds the rounds.
  unfoldable pub execute : Frame → Option Run
  unfolding loop
  execute f =
      loop (pos_part f.gas_remaining + 2)
        (record { frame = record f { state = code_executing }; events = [] })
