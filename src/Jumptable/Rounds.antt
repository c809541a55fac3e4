-- ===== src/Jumptable/Rounds.antt =====
-- The loop of src/evm_jumptable.cpp over any table of handlers that are tame: it ends, and the
-- pc, the stack and the gas stay in bounds.
use metaru.Common.{
  ℕ, ◌≤◌, ◌<◌, ◌≡◌, ◌≢◌, refl, ◌⊎◌, inl, inr, Option, none, some, Bool, true, false, arith, List,
  Bool-cases,
}
use metaru.Common.Int.{pos, pos_part, ◌-ℤ◌, ltb_ℤ}
use metaru.Frame.{Frame, code_executing}
use metaru.Loop.{Run, Event, next, running, execute, trace}
use metaru.Loop.Laws.{Spends, execute_total, execute_ends, Keeps}
use metaru.Loop.Sound.{IsSound, IsGoing, IsEnded}
use metaru.Jumptable.Ops.{OpResult, Handler}
use metaru.Jumptable.Effects.{IsTame}
use metaru.Jumptable.Run.{settle, round_of}

settle_spends :
    (traced : Bool) (events : List Event) (f : Frame) (o : Option OpResult × Frame) (r' : Run)
    → IsTame f o
    → ltb_ℤ f.gas_remaining (pos 3) ≡ false
    → settle traced events o ≡ next r'
    → (pos_part r'.frame.gas_remaining < pos_part f.gas_remaining)
      ⊎ (r'.frame.state ≢ code_executing)
unfolding settle ◌-ℤ◌
settle_spends traced events f (none, g) r' t h e = cc
settle_spends traced events f (some x, g) r' t h e = elim (t.pays x refl) [
  | inl p ↦ ground arith
  | inr q ↦ ground arith
]

settle-Keeps :
    (traced : Bool) (events : List Event) (f : Frame) (r : Run) (o : Option OpResult × Frame)
    → IsSound f r
    → r.frame.state ≡ code_executing
    → IsTame r.frame o
    → Keeps (IsGoing f) (IsEnded f) (settle traced events o)
unfolding settle ◌-ℤ◌
settle-Keeps traced events f r (none, g) s x t = ground arith
settle-Keeps traced events f r (some x', g) s x t = ground arith

module _ (table : ℕ → Handler) (tame : (opcode : ℕ) (f : Frame) → IsTame f (table opcode f)) where
  pub round_of-Spends : (traced : Bool) → Spends (round_of table traced)
  unfolding round_of
  round_of-Spends traced r r' e = elim (Bool-cases (ltb_ℤ r.frame.gas_remaining (pos 3))) [
    | inl low ↦ ground arith
    | inr enough ↦
        settle_spends traced (trace traced (Event.pre_execution r.frame) r.events) r.frame
          (table (r.frame.context.code r.frame.pc) r.frame) r' (tame _ _) enough (rw enough at e)
  ]

  pub round_of-Keeps :
      (traced : Bool) (f : Frame) (r : Run)
      → IsGoing f r
      → running r.frame ≡ true
      → Keeps (IsGoing f) (IsEnded f) (round_of table traced r)
  unfolding round_of
  round_of-Keeps traced f r h go = elim (Bool-cases (ltb_ℤ r.frame.gas_remaining (pos 3))) [
    | inl low ↦ rw low (ground arith)
    | inr enough ↦ rw enough (
        settle-Keeps traced (trace traced (Event.pre_execution r.frame) r.events) f r
          (table (r.frame.context.code r.frame.pc) r.frame) h.0 (ground arith) (tame _ _))
  ]

  -- The loop ends, within its bounds.
  pub round_of_ends :
      (traced : Bool) (f : Frame)
      → f.stack_size ≤ 1024
      → (out : Run) × (execute (round_of table traced) f ≡ some out) × IsEnded f out
  round_of_ends traced f fits =
      let (out, e) = execute_total (round_of table traced) (round_of-Spends traced) f in
      (
        out,
        e,
        execute_ends (round_of table traced) (IsGoing f) (IsEnded f) (round_of-Keeps traced f)
            (λ r h stop. ground arith) f out (ground arith) e,
      )
