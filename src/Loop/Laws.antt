-- ===== src/Loop/Laws.antt =====
-- What holds of the loop whatever a round does: it ends when rounds spend gas, it keeps what rounds
-- keep, and two loops agree when their rounds do.
use metaru.Common.{
  ℕ, zero, suc, ◌+◌, ◌<◌, ◌≡◌, ◌≢◌, refl, ◌∙◌, sym, subst, ◌⊎◌, inl, inr, Option, none, some, true,
  false, Bool-cases, arith, [],
}
use metaru.Common.Int.{pos_part}
use metaru.Frame.{Frame, code_executing}
use metaru.Loop.{Run, Progress, next, returned, running, finish, loop, execute}

pub Progress-cases : (p : Progress) → ((r : Run) × (p ≡ next r)) ⊎ ((r : Run) × (p ≡ returned r))
Progress-cases (next r) = inl (r, refl)
Progress-cases (returned r) = inr (r, refl)

-- A round that goes on spends gas, or leaves the state of execution.
abbrev pub Spends : (Run → Progress) → Type 0
Spends round =
    (r r' : Run)
    → round r ≡ next r'
    → (pos_part r'.frame.gas_remaining < pos_part r.frame.gas_remaining)
      ⊎ (r'.frame.state ≢ code_executing)

-- A round goes on in `P`, or returns in `Q`.
abbrev pub Keeps : (Run → Type 0) → (Run → Type 0) → Progress → Type 0
Keeps P Q (next r) = P r
Keeps P Q (returned r) = Q r

module _ (round : Run → Progress) where
  pub loop-stops :
      (fuel : ℕ) (r : Run) → running r.frame ≡ false → loop round (suc fuel) r ≡ some (finish r)
  unfolding loop
  loop-stops fuel r e = rw (e, loop)

  pub loop-next :
      (fuel : ℕ) (r r' : Run)
      → running r.frame ≡ true
      → round r ≡ next r'
      → loop round (suc fuel) r ≡ loop round fuel r'
  unfolding loop
  loop-next fuel r r' e p = rw (e, p, loop)

  pub loop-returned :
      (fuel : ℕ) (r r' : Run)
      → running r.frame ≡ true
      → round r ≡ returned r'
      → loop round (suc fuel) r ≡ some r'
  unfolding loop
  loop-returned fuel r r' e p = rw (e, p, loop)

  -- Fuel above the gas is enough.
  pub loop_total :
      Spends round
      → (fuel : ℕ) (r : Run) → pos_part r.frame.gas_remaining + 1 < fuel
      → (out : Run) × (loop round fuel r ≡ some out)
  loop_total spends zero r h = absurd (omega arith)
  loop_total spends (suc zero) r h = absurd (omega arith)
  loop_total spends (suc (suc k)) r h = elim (Bool-cases (running r.frame)) [
    | inr e ↦ (finish r, loop-stops (suc k) r e)
    | inl e ↦ elim (Progress-cases (round r)) [
      | inr (r', p) ↦ (r', loop-returned (suc k) r r' e p)
      | inl (r', p) ↦ elim (spends r r' p) [
        | inl lt ↦
            let (out, q) = loop_total spends (suc k) r' (omega arith) in
            (out, loop-next (suc k) r r' e p ∙ q)
        | inr left ↦ (finish r', loop-next (suc k) r r' e p ∙ loop-stops k r' (ground arith))
      ]
    ]
  ]

  -- The gas of the frame is fuel enough.
  pub execute_total : Spends round → (f : Frame) → (out : Run) × (execute round f ≡ some out)
  unfolding execute
  execute_total spends f =
      loop_total spends (pos_part f.gas_remaining + 2)
        (record { frame = record f { state = code_executing }; events = [] }) (omega arith)

  module _ (P Q : Run → Type 0) where
    -- From `P`, a loop whose rounds keep it can only end in `Q`.
    pub loop_ends :
        ((r : Run) → P r → running r.frame ≡ true → Keeps P Q (round r))
        → ((r : Run) → P r → running r.frame ≡ false → Q (finish r))
        → (fuel : ℕ) (r out : Run) → P r
        → loop round fuel r ≡ some out
        → Q out
    unfolding loop
    loop_ends keep close zero r out h e = cc
    loop_ends keep close (suc fuel) r out h e = elim (Bool-cases (running r.frame)) [
      | inr stop ↦
          let q : finish r ≡ out = cc (loop-stops fuel r stop) in subst Q q (close r h stop)
      | inl go ↦ elim (Progress-cases (round r)) [
        | inr (r', p) ↦
            let q : r' ≡ out = cc (loop-returned fuel r r' go p) in
            subst Q q (subst (Keeps P Q) p (keep r h go))
        | inl (r', p) ↦
            loop_ends keep close fuel r' out (subst (Keeps P Q) p (keep r h go))
              (sym (loop-next fuel r r' go p) ∙ e)
      ]
    ]

    pub execute_ends :
        ((r : Run) → P r → running r.frame ≡ true → Keeps P Q (round r))
        → ((r : Run) → P r → running r.frame ≡ false → Q (finish r))
        → (f : Frame) (out : Run)
        → P (record { frame = record f { state = code_executing }; events = [] })
        → execute round f ≡ some out
        → Q out
    unfolding execute
    execute_ends keep close f out h e = loop_ends keep close _ _ out h e

-- Two rounds that go on alike in `P`, or return runs related by `E`.
abbrev pub Alike : (Run → Type 0) → (Run → Run → Type 0) → Progress → Progress → Type 0
Alike P E (next a) (next b) = (a ≡ b) × P a
Alike P E (returned a) (returned b) = E a b
Alike P E _ _ = ⊥

-- Two loops that end in related runs, or both run out of fuel.
abbrev pub SameEnd : (Run → Run → Type 0) → Option Run → Option Run → Type 0
SameEnd E none none = Unit
SameEnd E (some a) (some b) = E a b
SameEnd E _ _ = ⊥

module _ (left right : Run → Progress) (P : Run → Type 0) (E : Run → Run → Type 0) where
  step-Alike :
      (fuel : ℕ) (r : Run)
      → running r.frame ≡ true
      → ((r' : Run) → P r' → SameEnd E (loop left fuel r') (loop right fuel r'))
      → (p q : Progress) → left r ≡ p
      → right r ≡ q
      → Alike P E p q
      → SameEnd E (loop left (suc fuel) r) (loop right (suc fuel) r)
  step-Alike fuel r go ih (next x) (next y) a b c =
      rw (loop-next left fuel r x go a, loop-next right fuel r y go b, ← c.0) (ih x c.1)
  step-Alike fuel r go ih (next x) (returned y) a b c = absurd c
  step-Alike fuel r go ih (returned x) (next y) a b c = absurd c
  step-Alike fuel r go ih (returned x) (returned y) a b c =
      rw (loop-returned left fuel r x go a, loop-returned right fuel r y go b) c

  -- Loops whose rounds are alike end in related runs.
  pub loop-Alike :
      ((r : Run) → P r → running r.frame ≡ true → Alike P E (left r) (right r))
      → ((r : Run) → E r r)
      → (fuel : ℕ) (r : Run) → P r
      → SameEnd E (loop left fuel r) (loop right fuel r)
  unfolding loop
  loop-Alike alike same zero r h = tt
  loop-Alike alike same (suc fuel) r h = elim (Bool-cases (running r.frame)) [
    | inr stop ↦ rw (loop-stops left fuel r stop, loop-stops right fuel r stop) (same (finish r))
    | inl go ↦
        step-Alike fuel r go (loop-Alike alike same fuel) (left r) (right r) refl refl
          (alike r h go)
  ]

  pub execute-Alike :
      ((r : Run) → P r → running r.frame ≡ true → Alike P E (left r) (right r))
      → ((r : Run) → E r r)
      → (f : Frame) → P (record { frame = record f { state = code_executing }; events = [] })
      → SameEnd E (execute left f) (execute right f)
  unfolding execute
  execute-Alike alike same f h = loop-Alike alike same _ _ h
