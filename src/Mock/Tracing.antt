-- ===== src/Mock/Tracing.antt =====
-- The calls of the tracer by the mock of src/mock_evm_with_tracer.cpp.
use metaru.Common.{
  ℕ, ◌+◌, ◌<◌, ◌≡◌, refl, inl, inr, Option, none, some, true, false, arith, [], ◌∷◌, Bool-cases,
  ◌==◌,
}
use metaru.Common.Int.{ℤ, pos, pos_part, ltb_ℤ, ◌-ℤ◌, int_laws}
use metaru.Frame.{Frame}
use metaru.Loop.{Run, Event}
use metaru.Loop.Tracing.{spent, is_paired, is_protocol, IsAccount}
use metaru.Jumptable.Tracing.{IsTracedOut, is_paired-protocol, sub_twice}
use metaru.Mock.{
  mock_perform, mock_add, mock_push1, mock_settle, mock_stop, mock_round, mock_execute_message,
}
use metaru.Mock.Ends.{Outcome, mock_loop_ends}

abbrev IsTraced : Frame → Run → Type 0
IsTraced f r = IsAccount f r × (is_paired r.events ≡ true)

-- Only the price touches the gas.
mock_perform-gas :
    (opcode : ℕ) (f : Frame) → (mock_perform opcode f).1.gas_remaining ≡ f.gas_remaining
unfolding mock_perform mock_add mock_push1
mock_perform-gas opcode f = ground arith

less_gas : (g : ℤ) → ltb_ℤ g (pos 3) ≡ false → pos_part (g -ℤ pos 3) < pos_part g
unfolding ◌-ℤ◌
less_gas g enough = ground arith

settle-Outcome :
    (f : Frame) (r : Run) (o : Option ℕ × Frame)
    → IsTraced f r
    → o.1.gas_remaining ≡ r.frame.gas_remaining
    → ltb_ℤ r.frame.gas_remaining (pos 3) ≡ false
    → Outcome
        (IsTraced f)
        (IsTracedOut f)
        r
        (mock_settle true (Event.pre_execution r.frame ∷ r.events) o)
unfolding mock_settle is_paired is_protocol spent
settle-Outcome f r (none, g) h gas enough = ground arith
settle-Outcome f r (some x, g) h gas enough =
    ground
      (arith, sub_twice f.gas_remaining (spent r.events) 3, less_gas r.frame.gas_remaining enough)

round-Outcome :
    (f : Frame) (r : Run)
    → IsTraced f r
    → Outcome (IsTraced f) (IsTracedOut f) r (mock_round true r)
unfolding mock_round mock_stop is_paired is_protocol spent
round-Outcome f r h = elim (Bool-cases (ltb_ℤ r.frame.gas_remaining (pos 3))) [
  | inl low ↦ rw low (h.0, is_paired-protocol r.events h.1)
  | inr enough ↦ elim (Bool-cases (r.frame.context.code r.frame.pc == 0x00)) [
    | inl stop ↦ rw (enough, stop) (ground arith)
    | inr other ↦
        rw (enough, other)
          (settle-Outcome f r (mock_perform (r.frame.context.code r.frame.pc) r.frame) h
            (mock_perform-gas (r.frame.context.code r.frame.pc) r.frame) enough)
  ]
]

-- With a tracer the mock returns from every frame, and has called the tracer in pairs but for a last
-- operation that failed; the prices that it told are the gas that was spent.
mock_traced :
    (f : Frame) → (out : Run) × (mock_execute_message true f ≡ some out) × IsTracedOut f out
unfolding mock_execute_message spent is_paired
mock_traced f =
    mock_loop_ends true (IsTraced f) (IsTracedOut f) (round-Outcome f)
      (λ r h. (h.0, is_paired-protocol r.events h.1)) (pos_part f.gas_remaining + 1)
      (record { frame = f; events = [] }) (grind int_laws, refl) (omega arith)
