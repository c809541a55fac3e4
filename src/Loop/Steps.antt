-- ===== src/Loop/Steps.antt =====
-- The loop as steps: which runs it passes through, and that its fuel decides nothing.
use metaru.Common.{
  ℕ, zero, suc, ◌+◌, ◌≡◌, ◌↔◌, inl, inr, ap, ◌∙◌, sym, subst, some, true, false, Bool-cases, arith,
  [],
}
use metaru.Common.Int.{pos_part}
use metaru.Frame.{Frame, code_executing}
use metaru.Loop.{Run, Progress, next, returned, running, finish, loop, execute}
use metaru.Loop.Laws.{
  Progress-cases, Spends, Keeps, loop-stops, loop-next, loop-returned, execute_total,
}

-- One turn of the loop.
pub data IsStep (round : Run → Progress) (r s : Run) : Type 0 where
  turn : running r.frame ≡ true → round r ≡ next s → IsStep round r s

-- Turns in sequence.
pub data Reach (round : Run → Progress) (r : Run) : Run → Type 0 where
  here : Reach round r r
  more : {s t : Run} → Reach round r s → IsStep round s t → Reach round r t

-- How the loop is left: by its test, or by a return from a turn.
pub data IsLeft (round : Run → Progress) (r out : Run) : Type 0 where
  by_test : running r.frame ≡ false → out ≡ finish r → IsLeft round r out
  by_return : running r.frame ≡ true → round r ≡ returned out → IsLeft round r out

-- The frame as the loop finds it.
abbrev pub start : Frame → Run
start f = record { frame = record f { state = code_executing }; events = [] }

-- From `r` the loop is left with `out`.
data Ends (round : Run → Progress) : Run → Run → Type 0 where
  left : {r out : Run} → IsLeft round r out → Ends round r out
  step : {r s out : Run} → IsStep round r s → Ends round s out → Ends round r out

module _ (round : Run → Progress) where
  Reach-Ends : {r s out : Run} → Reach round r s → Ends round s out → Ends round r out
  Reach-Ends here e = e
  Reach-Ends (more p st) e = Reach-Ends p (step st e)

  IsLeft-unique : (r a b : Run) → IsLeft round r a → IsLeft round r b → a ≡ b
  IsLeft-unique r a b (by_test t e) (by_test t' e') = e ∙ sym e'
  IsLeft-unique r a b (by_test t e) (by_return t' e') = absurd (ground arith)
  IsLeft-unique r a b (by_return t e) (by_test t' e') = absurd (ground arith)
  IsLeft-unique r a b (by_return t e) (by_return t' e') = cc

  not_both : (r s out : Run) → IsStep round r s → IsLeft round r out → ⊥
  not_both r s out (turn t e) (by_test t' e') = ground arith
  not_both r s out (turn t e) (by_return t' e') = cc

  IsStep-unique : (r s t : Run) → IsStep round r s → IsStep round r t → s ≡ t
  IsStep-unique r s t (turn a e) (turn b e') = cc

  Ends-unique : {r a b : Run} → Ends round r a → Ends round r b → a ≡ b
  Ends-unique (left x) (left y) = IsLeft-unique _ _ _ x y
  Ends-unique (left x) (step y e) = absurd (not_both _ _ _ y x)
  Ends-unique (step x e) (left y) = absurd (not_both _ _ _ x y)
  Ends-unique {b = b} (step x e) (step y e') =
      Ends-unique e (subst (λ z. Ends round z b) (IsStep-unique _ _ _ y x) e')

  loop-Reach :
      (fuel : ℕ) (first r out : Run)
      → Reach round first r
      → loop round fuel r ≡ some out
      → (last : Run) × Reach round first last × IsLeft round last out
  unfolding loop
  loop-Reach zero first r out p e = cc
  loop-Reach (suc fuel) first r out p e = elim (Bool-cases (running r.frame)) [
    | inr stop ↦
        let same : finish r ≡ out = cc (loop-stops round fuel r stop) in
        (r, p, by_test stop (sym same))
    | inl go ↦ elim (Progress-cases (round r)) [
      | inr (r', q) ↦
          let same : r' ≡ out = cc (loop-returned round fuel r r' go q) in
          (r, p, by_return go (q ∙ ap returned same))
      | inl (r', q) ↦
          loop-Reach fuel first r' out (more p (turn go q))
            (sym (loop-next round fuel r r' go q) ∙ e)
    ]
  ]

  -- The loop on fuel answers exactly the run with which it is left after some number of turns.
  pub execute_iff :
      Spends round
      → (f : Frame) (out : Run)
      → (execute round f ≡ some out)
        ↔ ((last : Run) × Reach round (start f) last × IsLeft round last out)
  unfolding execute
  execute_iff spends f out = (
    λ e. loop-Reach (pos_part f.gas_remaining + 2) (start f) (start f) out here e,
    λ (last, p, exit).
        let (out', e) = execute_total round spends f in
        let (last', p', exit') =
          loop-Reach (pos_part f.gas_remaining + 2) (start f) (start f) out' here e in
        let same : out' ≡ out =
          Ends-unique (Reach-Ends p' (left exit')) (Reach-Ends p (left exit)) in
        e ∙ ap some same,
  )

  -- What the turns keep holds at every one of them.
  pub Reach-Keeps :
      (P Q : Run → Type 0)
      → ((r : Run) → P r → running r.frame ≡ true → Keeps P Q (round r))
      → {r s : Run} → P r
      → Reach round r s
      → P s
  Reach-Keeps P Q keep h here = h
  Reach-Keeps P Q keep h (more p (turn t e)) =
      subst (Keeps P Q) e (keep _ (Reach-Keeps P Q keep h p) t)
