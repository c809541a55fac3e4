-- ===== src/Loop/Sound.antt =====
-- What every run of an interpreter keeps, and how it ends.
use metaru.Common.{◌≤◌, ◌≡◌, ◌⊎◌}
use metaru.Common.Int.{pos, ◌≤ℤ◌}
use metaru.Frame.{Frame, code_executing, exceptional_halt, completed_success}
use metaru.Loop.{Run}

-- What a run keeps of the frame `f` that it began with.
pub record IsSound (f : Frame) (r : Run) : Type 0 where
  pub fits : r.frame.stack_size ≤ 1024
  pub context : r.frame.context ≡ f.context
  pub gas_le : r.frame.gas_remaining ≤ℤ f.gas_remaining
  pub gas_nonneg : (r.frame.gas_remaining ≡ f.gas_remaining) ⊎ (pos 0 ≤ℤ r.frame.gas_remaining)

abbrev pub IsOver : Run → Type 0
IsOver r = (r.frame.state ≡ exceptional_halt) ⊎ (r.frame.state ≡ completed_success)

abbrev pub IsGoing : Frame → Run → Type 0
IsGoing f r = IsSound f r × ((r.frame.state ≡ code_executing) ⊎ IsOver r)

abbrev pub IsEnded : Frame → Run → Type 0
IsEnded f r = IsSound f r × IsOver r
