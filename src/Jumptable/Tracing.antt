-- ===== src/Jumptable/Tracing.antt =====
-- The calls of the tracer by the loop of src/evm_jumptable.cpp, over any table of tame handlers.
use metaru.Common.{
  ℕ, ◌+◌, ◌≤◌, ◌≡◌, refl, subst, inl, inr, Option, none, some, true, false, arith, List, [], ◌∷◌,
  Bool-cases,
}
use metaru.Common.Int.{ℤ, pos, ◌-ℤ◌, ltb_ℤ, int_laws}
use metaru.Frame.{Frame, code_executing}
use metaru.Loop.{Run, Event, finish, execute}
use metaru.Loop.Laws.{execute_ends, Keeps}
use metaru.Loop.Tracing.{
  spent, is_paired, is_protocol, IsAccount, SameFrames, final_frame, execute_frames,
}
use metaru.Jumptable.Ops.{OpResult, Handler}
use metaru.Jumptable.Effects.{IsTame, dispatch-IsTame}
use metaru.Jumptable.Run.{settle, round_of, dispatch, execute_message}
use metaru.Jumptable.Rounds.{round_of_ends}

abbrev IsTraced : Frame → Run → Type 0
IsTraced f r = IsAccount f r × (is_paired r.events ≡ true)

abbrev pub IsTracedOut : Frame → Run → Type 0
IsTracedOut f r = IsAccount f r × (is_protocol r.events ≡ true)

pub is_paired-protocol : (events : List Event) → is_paired events ≡ true → is_protocol events ≡ true
unfolding is_protocol is_paired
is_paired-protocol [] h = h
is_paired-protocol (Event.pre_execution f ∷ events) h = absurd (ground arith)
is_paired-protocol (Event.post_execution f r ∷ events) h = h

pub sub_twice : (a : ℤ) (m n : ℕ) → a -ℤ pos m -ℤ pos n ≡ a -ℤ pos (n + m)
sub_twice a m n = grind int_laws

settle-IsTraced :
    (f : Frame) (r : Run) (o : Option OpResult × Frame)
    → IsTraced f r
    → IsTame r.frame o
    → Keeps (IsTraced f) (IsTracedOut f) (settle true (Event.pre_execution r.frame ∷ r.events) o)
unfolding settle is_paired is_protocol spent
settle-IsTraced f r (none, g) h t = ground arith
settle-IsTraced f r (some x, g) h t = elim (Bool-cases (ltb_ℤ g.gas_remaining (pos x.gas_cost))) [
  | inl low ↦ rw low (ground arith)
  | inr enough ↦
      rw enough (ground (arith, sub_twice f.gas_remaining (spent r.events) x.gas_cost, t.gas))
]

module _ (table : ℕ → Handler) (tame : (opcode : ℕ) (f : Frame) → IsTame f (table opcode f)) where
  round_of-IsTraced :
      (f : Frame) (r : Run)
      → IsTraced f r
      → Keeps (IsTraced f) (IsTracedOut f) (round_of table true r)
  unfolding round_of
  round_of-IsTraced f r h = elim (Bool-cases (ltb_ℤ r.frame.gas_remaining (pos 3))) [
    | inl low ↦ rw low (h.0, is_paired-protocol r.events h.1)
    | inr enough ↦
        rw enough
          (settle-IsTraced f r (table (r.frame.context.code r.frame.pc) r.frame) h (tame _ _))
  ]

  finish-IsTraced : (f : Frame) (r : Run) → IsTraced f r → IsTracedOut f (finish r)
  finish-IsTraced f r h = ground (arith, is_paired-protocol r.events)

  start-IsTraced :
      (f : Frame) → IsTraced f (record { frame = record f { state = code_executing }; events = [] })
  unfolding spent is_paired
  start-IsTraced f = (grind int_laws, refl)

  pub round_of_traced :
      (f : Frame)
      → f.stack_size ≤ 1024
      → (out : Run) × (execute (round_of table true) f ≡ some out) × IsTracedOut f out
  round_of_traced f fits =
      let (out, e, _) = round_of_ends table tame true f fits in
      (
        out,
        e,
        execute_ends (round_of table true) (IsTraced f) (IsTracedOut f)
            (λ r h go. round_of-IsTraced f r h) (λ r h stop. finish-IsTraced f r h) f out
            (start-IsTraced f) e,
      )

-- With a tracer, and from any frame whose stack fits, execution returns, and the tracer has been
-- called before and after each operation in turn, with at most a last operation that it saw only
-- before. The prices that it was told are the gas that was spent.
pub jumptable_traced :
    (f : Frame)
    → f.stack_size ≤ 1024
    → (out : Run) × (execute_message true f ≡ some out) × IsTracedOut f out
unfolding execute_message
jumptable_traced = round_of_traced dispatch (λ opcode f. dispatch-IsTame f opcode)

settle-SameFrames :
    (events events' : List Event) (o : Option OpResult × Frame)
    → SameFrames (settle true events o) (settle false events' o)
unfolding settle
settle-SameFrames events events' (none, g) = refl
settle-SameFrames events events' (some x, g) =
    elim (Bool-cases (ltb_ℤ g.gas_remaining (pos x.gas_cost))) [
      | inl low ↦ rw low refl
      | inr enough ↦ rw enough refl
    ]

untraced_at :
    (table : ℕ → Handler) (r : Run) (events' : List Event)
    → SameFrames
        (round_of table true r)
        (round_of table false (record { frame = r.frame; events = events' }))
unfolding round_of
untraced_at table r events' = elim (Bool-cases (ltb_ℤ r.frame.gas_remaining (pos 3))) [
  | inl low ↦ rw low refl
  | inr enough ↦ rw enough (
      settle-SameFrames (Event.pre_execution r.frame ∷ r.events) events'
        (table (r.frame.context.code r.frame.pc) r.frame))
]

round_of-SameFrames :
    (table : ℕ → Handler) (r r' : Run)
    → r.frame ≡ r'.frame
    → SameFrames (round_of table true r) (round_of table false r')
round_of-SameFrames table r r' h =
    subst
      (λ f.
        SameFrames (round_of table true r)
          (round_of table false (record { frame = f; events = r'.events })))
      h (untraced_at table r r'.events)

pub round_of_untraced :
    (table : ℕ → Handler) (f : Frame)
    → final_frame (execute (round_of table true) f) ≡ final_frame (execute (round_of table false) f)
round_of_untraced table f =
    execute_frames (round_of table true) (round_of table false) (round_of-SameFrames table) f

-- A tracer changes nothing: the final frame is the one without it.
pub jumptable_untraced :
    (f : Frame) → final_frame (execute_message true f) ≡ final_frame (execute_message false f)
unfolding execute_message
jumptable_untraced = round_of_untraced dispatch
