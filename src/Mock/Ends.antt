-- ===== src/Mock/Ends.antt =====
-- A run of the mock of src/mock_evm_with_tracer.cpp returns, in bounds, and what its tracer sees.
use metaru.Common.{
  ℕ, zero, suc, ◌+◌, ◌≤◌, ◌<◌, ◌≡◌, refl, subst, inl, inr, some, Bool, false, arith, ltb, ◌==◌,
  List, [], Bool-cases,
}
use metaru.Common.Int.{pos, pos_part, ltb_ℤ, ◌-ℤ◌}
use metaru.Frame.{Frame, completed_success}
use metaru.Loop.{Run, Event, Progress, next, returned, signed_size, trace}
use metaru.Loop.Laws.{Progress-cases}
use metaru.Loop.Sound.{IsSound, IsEnded}
use metaru.Mock.{mock_perform, mock_settle, mock_round, mock_loop, mock_execute_message}

-- A round that goes on keeps `P` and spends gas; one that returns does so in `Q`.
abbrev pub Outcome : (Run → Type 0) → (Run → Type 0) → Run → Progress → Type 0
Outcome P Q r (next r') = P r' × (pos_part r'.frame.gas_remaining < pos_part r.frame.gas_remaining)
Outcome P Q r (returned r') = Q r'

-- The state behind the loop.
abbrev pub leave : Run → Run
leave r = record r { frame = record (r.frame) { state = completed_success } }

module _ (traced : Bool) (P Q : Run → Type 0)
    (keep : (r : Run) → P r → Outcome P Q r (mock_round traced r))
    (close : (r : Run) → P r → Q (leave r)) where
  -- Fuel above the gas is enough.
  pub mock_loop_ends :
      (fuel : ℕ) (r : Run)
      → P r
      → pos_part r.frame.gas_remaining < fuel
      → (out : Run) × (mock_loop traced fuel r ≡ some out) × Q out
  unfolding mock_loop
  mock_loop_ends zero r p h = absurd (omega arith)
  mock_loop_ends (suc fuel) r p h =
      elim (Bool-cases (ltb r.frame.pc (signed_size r.frame.context.code_size))) [
        | inr stop ↦ (leave r, rw (stop, mock_loop) refl, close r p)
        | inl go ↦ elim (Progress-cases (mock_round traced r)) [
          | inl (r', e) ↦
              let kept = subst (Outcome P Q r) e (keep r p) in
              let (out, same, q) = mock_loop_ends fuel r' kept.0 (omega arith) in
              (out, rw (go, e, mock_loop) same, q)
          | inr (r', e) ↦ (r', rw (go, e, mock_loop) refl, subst (Outcome P Q r) e (keep r p))
        ]
      ]

settle-Outcome :
    (traced : Bool) (events : List Event) (f : Frame) (r : Run) (opcode : ℕ)
    → IsSound f r
    → ltb_ℤ r.frame.gas_remaining (pos 3) ≡ false
    → Outcome (IsSound f) (IsEnded f) r (mock_settle traced events (mock_perform opcode r.frame))
unfolding mock_settle mock_perform ◌-ℤ◌
settle-Outcome traced events f r opcode s enough = ground arith

mock_round-Outcome :
    (traced : Bool) (f : Frame) (r : Run)
    → IsSound f r
    → Outcome (IsSound f) (IsEnded f) r (mock_round traced r)
unfolding mock_round
mock_round-Outcome traced f r s = elim (Bool-cases (ltb_ℤ r.frame.gas_remaining (pos 3))) [
  | inl low ↦ rw low (ground arith)
  | inr enough ↦ elim (Bool-cases (r.frame.context.code r.frame.pc == 0x00)) [
    | inl stop ↦ rw (enough, stop) (ground arith)
    | inr other ↦
        rw (enough, other)
          (settle-Outcome traced (trace traced (Event.pre_execution r.frame) r.events) f r
            (r.frame.context.code r.frame.pc) s enough)
  ]
]

-- From any frame whose stack fits, the mock returns: halted or complete, with at most 1024 items on
-- the stack, the context as it was, no more gas than before, and no negative gas unless the gas is
-- untouched.
pub mock_ends :
    (traced : Bool) (f : Frame)
    → f.stack_size ≤ 1024
    → (out : Run) × (mock_execute_message traced f ≡ some out) × IsEnded f out
unfolding mock_execute_message
mock_ends traced f fits =
    mock_loop_ends traced (IsSound f) (IsEnded f) (mock_round-Outcome traced f)
      (λ r s. ground arith) (pos_part f.gas_remaining + 1) (record { frame = f; events = [] })
      (ground arith) (omega arith)
