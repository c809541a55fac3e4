-- ===== src/Evm/Ends.antt =====
-- execute_message of src/evm.cpp returns, in bounds.
use metaru.Common.{
  ℕ, ◌≤◌, ◌<◌, ◌≡◌, ◌≢◌, ◌⊎◌, inl, inr, Option, none, some, Bool, true, false, arith, ◌==◌, List,
  Bool-cases,
}
use metaru.Common.Int.{pos, pos_part, ◌-ℤ◌, ltb_ℤ}
use metaru.Frame.{Frame, code_executing}
use metaru.Loop.{Run, Event, next, running, trace}
use metaru.Loop.Laws.{Spends, execute_total, execute_ends, Keeps}
use metaru.Loop.Sound.{IsSound, IsGoing, IsEnded}
use metaru.Evm.Decode.{decode}
use metaru.Evm.Effects.{IsTame, perform-IsTame}
use metaru.Evm.Run.{settle, round, perform, cost_of, execute_message}
use metaru.Evm.Ops.{op_stop}

settle_spends :
    (traced : Bool) (cost : ℕ) (events : List Event) (f : Frame) (o : Option ℕ × Frame) (r' : Run)
    → IsTame f o
    → (1 ≤ cost) ⊎ (o.1.state ≢ code_executing)
    → ltb_ℤ f.gas_remaining (pos 3) ≡ false
    → settle traced cost events o ≡ next r'
    → (pos_part r'.frame.gas_remaining < pos_part f.gas_remaining)
      ⊎ (r'.frame.state ≢ code_executing)
unfolding settle ◌-ℤ◌
settle_spends traced cost events f (none, g) r' t c h e = cc
settle_spends traced cost events f (some x, g) r' t (inl p) h e = ground arith
settle_spends traced cost events f (some x, g) r' t (inr q) h e = ground arith

stop_over : (g : Frame) → (perform (decode 0) g).1.state ≢ code_executing
unfolding perform decode op_stop
stop_over g h = absurd (omega arith)

-- STOP is free, and ends execution.
cost_or_over :
    (opcode : ℕ) (f : Frame)
    → (1 ≤ cost_of opcode) ⊎ ((perform (decode opcode) f).1.state ≢ code_executing)
unfolding cost_of
cost_or_over opcode f = elim (Bool-cases (opcode == 0)) [
  | inr paid ↦ rw paid (inl (omega arith))
  | inl free ↦ let e : opcode ≡ 0 = ground arith in rw e (inr (stop_over f))
]

pub round-Spends : (traced : Bool) → Spends (round traced)
unfolding round
round-Spends traced r r' e = elim (Bool-cases (ltb_ℤ r.frame.gas_remaining (pos 3))) [
  | inl low ↦ ground arith
  | inr enough ↦
      let opcode = r.frame.context.code r.frame.pc in
      settle_spends traced (cost_of opcode) (trace traced (Event.pre_execution r.frame) r.events)
        r.frame (perform (decode opcode) r.frame) r' (perform-IsTame _ _)
        (cost_or_over opcode r.frame) enough (rw enough at e)
]

settle-Keeps :
    (traced : Bool) (cost : ℕ) (events : List Event) (f : Frame) (r : Run) (o : Option ℕ × Frame)
    → cost ≤ 3
    → ltb_ℤ r.frame.gas_remaining (pos 3) ≡ false
    → IsSound f r
    → r.frame.state ≡ code_executing
    → IsTame r.frame o
    → Keeps (IsGoing f) (IsEnded f) (settle traced cost events o)
unfolding settle ◌-ℤ◌
settle-Keeps traced cost events f r (none, g) c h s x t = ground arith
settle-Keeps traced cost events f r (some x', g) c h s x t = ground arith

cost_le : (opcode : ℕ) → cost_of opcode ≤ 3
unfolding cost_of
cost_le opcode = ground arith

pub round-Keeps :
    (traced : Bool) (f : Frame) (r : Run)
    → IsGoing f r
    → running r.frame ≡ true
    → Keeps (IsGoing f) (IsEnded f) (round traced r)
unfolding round
round-Keeps traced f r h go = elim (Bool-cases (ltb_ℤ r.frame.gas_remaining (pos 3))) [
  | inl low ↦ rw low (ground arith)
  | inr enough ↦
      let opcode = r.frame.context.code r.frame.pc in
      rw enough (
        settle-Keeps traced (cost_of opcode) (trace traced (Event.pre_execution r.frame) r.events) f
          r (perform (decode opcode) r.frame) (cost_le opcode) enough h.0 (ground arith)
          (perform-IsTame _ _))
]

-- From any frame whose stack fits, execution returns: halted or complete, with at most 1024 items
-- on the stack, the context (code included) as it was, no more gas than before, and no negative gas
-- unless the gas is untouched.
pub evm_ends :
    (traced : Bool) (f : Frame)
    → f.stack_size ≤ 1024
    → (out : Run) × (execute_message traced f ≡ some out) × IsEnded f out
unfolding execute_message
evm_ends traced f fits =
    let (out, e) = execute_total (round traced) (round-Spends traced) f in
    (
      out,
      e,
      execute_ends (round traced) (IsGoing f) (IsEnded f) (round-Keeps traced f)
          (λ r h stop. ground arith) f out (ground arith) e,
    )
