-- ===== src/Loop/Tracing.antt =====
-- What a tracer learns from its calls.
use metaru.Common.{
  ◌+◌, ◌≡◌, List, [], ◌∷◌, Bool, true, false, ℕ, zero, suc, ◌==◌, refl, ap, subst, Bool-cases, inl,
  inr, Option, none, some, ◌∙◌,
}
use metaru.Common.Int.{pos, pos_part, ◌-ℤ◌}
use metaru.Loop.Laws.{loop-stops, loop-next, loop-returned}
use metaru.Frame.{Frame, code_executing}
use metaru.Loop.{
  Run, Progress, next, returned, running, finish, loop, execute, Event, pre_execution,
  post_execution,
}

-- The sum of the prices that the tracer is told.
unfoldable pub spent : List Event → ℕ
spent [] = 0
spent (pre_execution f ∷ events) = spent events
spent (post_execution f result ∷ events) = result.gas_cost + spent events

-- Calls in pairs, one before and one after each operation.
unfoldable pub is_paired : List Event → Bool
is_paired [] = true
is_paired (post_execution f result ∷ pre_execution g ∷ events) = is_paired events
is_paired _ = false

-- Pairs, but for the last operation, which may have failed.
unfoldable pub is_protocol : List Event → Bool
is_protocol (pre_execution f ∷ events) = is_paired events
is_protocol events = is_paired events

-- The calls account for the gas since the frame `f`.
abbrev pub IsAccount : Frame → Run → Type 0
IsAccount f r = r.frame.gas_remaining ≡ f.gas_remaining -ℤ pos (spent r.events)

-- Two rounds that leave the same frame, whatever the tracer saw.
abbrev pub SameFrames : Progress → Progress → Type 0
SameFrames (next r) (next r') = r.frame ≡ r'.frame
SameFrames (returned r) (returned r') = r.frame ≡ r'.frame
SameFrames _ _ = ⊥

abbrev pub final_frame : Option Run → Option Frame
final_frame (some r) = some r.frame
final_frame none = none

module _ (round round' : Run → Progress)
    (same : (r r' : Run) → r.frame ≡ r'.frame → SameFrames (round r) (round' r')) where
  step_frames :
      (fuel : ℕ) (r r' : Run)
      → running r.frame ≡ true
      → running r'.frame ≡ true
      → ((x x' : Run)
          → x.frame ≡ x'.frame
          → final_frame (loop round fuel x) ≡ final_frame (loop round' fuel x'))
      → (p p' : Progress) → round r ≡ p
      → round' r' ≡ p'
      → SameFrames p p'
      → final_frame (loop round (suc fuel) r) ≡ final_frame (loop round' (suc fuel) r')
  step_frames fuel r r' go go' ih (next x) (next x') a b h =
      rw (loop-next round fuel r x go a, loop-next round' fuel r' x' go' b) (ih x x' h)
  step_frames fuel r r' go go' ih (returned x) (returned x') a b h =
      rw (loop-returned round fuel r x go a, loop-returned round' fuel r' x' go' b) (ap some h)
  step_frames fuel r r' go go' ih (next x) (returned x') a b h = absurd h
  step_frames fuel r r' go go' ih (returned x) (next x') a b h = absurd h

  finish_frames : (r r' : Run) → r.frame ≡ r'.frame → (finish r).frame ≡ (finish r').frame
  finish_frames r r' h =
      ap (λ f. (finish (record { frame = f; events = r.events })).frame) h
      ∙ elim (Bool-cases (r'.frame.state == code_executing)) [
        | inl e ↦ rw e refl
        | inr e ↦ rw e refl
      ]

  loop_frames :
      (fuel : ℕ) (r r' : Run)
      → r.frame ≡ r'.frame
      → final_frame (loop round fuel r) ≡ final_frame (loop round' fuel r')
  unfolding loop
  loop_frames zero r r' h = refl
  loop_frames (suc fuel) r r' h = elim (Bool-cases (running r.frame)) [
    | inr stop ↦
        rw
          (
            loop-stops round fuel r stop,
            loop-stops round' fuel r' (subst (λ f. running f ≡ false) h stop),
          )
          (ap some (finish_frames r r' h))
    | inl go ↦
        step_frames fuel r r' go (subst (λ f. running f ≡ true) h go) (loop_frames fuel) (round r)
          (round' r') refl refl (same r r' h)
  ]

  pub execute_frames : (f : Frame) → final_frame (execute round f) ≡ final_frame (execute round' f)
  unfolding execute
  execute_frames f =
      let start : Run = record { frame = record f { state = code_executing }; events = [] } in
      loop_frames (pos_part f.gas_remaining + 2) start start refl
