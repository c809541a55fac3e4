-- ===== src/Evm/Tracing.antt =====
-- The calls of the tracer by execute_message of src/evm.cpp.
use metaru.Common.{
  ℕ, ◌≡◌, refl, subst, Option, none, some, true, false, Bool-cases, inl, inr, List, ◌∷◌,
}
use metaru.Common.Int.{pos, ◌-ℤ◌, ltb_ℤ}
use metaru.Frame.{Frame}
use metaru.Loop.{Run, Event}
use metaru.Loop.Tracing.{SameFrames, final_frame, execute_frames}
use metaru.Evm.Decode.{decode}
use metaru.Evm.Run.{settle, round, perform, cost_of, execute_message}

settle-SameFrames :
    (cost : ℕ) (events events' : List Event) (o : Option ℕ × Frame)
    → SameFrames (settle true cost events o) (settle false cost events' o)
unfolding settle
settle-SameFrames cost events events' (none, g) = refl
settle-SameFrames cost events events' (some x, g) =
    elim (Bool-cases (ltb_ℤ (g.gas_remaining -ℤ pos cost) (pos 0))) [
      | inl low ↦ rw low refl
      | inr enough ↦ rw enough refl
    ]

untraced_at :
    (r : Run) (events' : List Event)
    → SameFrames (round true r) (round false (record { frame = r.frame; events = events' }))
unfolding round
untraced_at r events' = elim (Bool-cases (ltb_ℤ r.frame.gas_remaining (pos 3))) [
  | inl low ↦ rw low refl
  | inr enough ↦
      let opcode = r.frame.context.code r.frame.pc in
      rw enough (
        settle-SameFrames (cost_of opcode) (Event.pre_execution r.frame ∷ r.events) events'
          (perform (decode opcode) r.frame))
]

round-SameFrames : (r r' : Run) → r.frame ≡ r'.frame → SameFrames (round true r) (round false r')
round-SameFrames r r' h =
    subst (λ f. SameFrames (round true r) (round false (record { frame = f; events = r'.events })))
      h (untraced_at r r'.events)

-- A tracer changes nothing: the final frame is the one without it.
pub evm_untraced :
    (f : Frame) → final_frame (execute_message true f) ≡ final_frame (execute_message false f)
unfolding execute_message
evm_untraced = execute_frames (round true) (round false) round-SameFrames
