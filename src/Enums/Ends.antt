-- ===== src/Enums/Ends.antt =====
-- The numbers of the enums in a frame that an interpreter leaves.
use metaru.Common.{
  ℕ, zero, suc, ◌≡◌, ◌≤◌, ◌⊎◌, inl, inr, refl, ◌∙◌, subst, Option, some, Bool, arith, List, [], ◌∷◌,
  length, ◌<◌, ◌+◌,
}
use metaru.Enums.{MessageFrameState, ExceptionalHaltReason, state_number, reason_number}
use metaru.Frame.{Frame}
use metaru.Loop.{Run}
use metaru.Loop.Sound.{IsEnded}
use metaru.Evm
use metaru.Evm.Ends.{evm_ends}
use metaru.Evm.Bounds.{evm-IsWithin}
use metaru.Jumptable
use metaru.Jumptable.Ends.{jumptable_ends}
use metaru.Jumptable.Limits.{IsWithin, jumptable-IsWithin}
use metaru.Optimized
use metaru.Optimized.Ends.{optimized_ends}
use metaru.Optimized.Bounds.{optimized-IsWithin}

-- The reason of a halt is a number of its enum.
abbrev pub HasReason : Frame → Type 0
HasReason f = (x : ExceptionalHaltReason) × (f.halt_reason ≡ reason_number x)

-- So is the state, and it is one of the two that end a run.
pub record IsTyped (f : Frame) : Type 0 where
  pub state :
      (f.state ≡ state_number MessageFrameState.exceptional_halt)
      ⊎ (f.state ≡ state_number MessageFrameState.completed_success)
  pub reason : HasReason f

-- The enum in its order.
abbrev reasons : List ExceptionalHaltReason
reasons =
    ExceptionalHaltReason.no_reason ∷ ExceptionalHaltReason.insufficient_gas
    ∷ ExceptionalHaltReason.invalid_operation ∷ ExceptionalHaltReason.invalid_jump_destination
    ∷ ExceptionalHaltReason.stack_overflow ∷ ExceptionalHaltReason.stack_underflow
    ∷ ExceptionalHaltReason.illegal_state_change ∷ ExceptionalHaltReason.out_of_bounds
    ∷ ExceptionalHaltReason.code_too_large ∷ ExceptionalHaltReason.invalid_code
    ∷ ExceptionalHaltReason.precompile_error ∷ ExceptionalHaltReason.too_many_stack_items
    ∷ ExceptionalHaltReason.insufficient_stack_items ∷ []

-- The numbers of a list's elements go up from `k`.
abbrev IsNumbered : ℕ → List ExceptionalHaltReason → Type 0
IsNumbered k [] = Unit
IsNumbered k (x ∷ xs) = (k ≡ reason_number x) × IsNumbered (suc k) xs

numbered :
    (k n : ℕ) (xs : List ExceptionalHaltReason)
    → IsNumbered k xs
    → n < length xs
    → (x : ExceptionalHaltReason) × (k + n ≡ reason_number x)
numbered k n [] p h = absurd (omega arith)
numbered k zero (x ∷ xs) p h = (x, omega (arith, p.0))
numbered k (suc n) (x ∷ xs) p h =
    let (y, e) = numbered (suc k) n xs p.1 (omega arith) in (y, omega (arith, e))

reason_of : (n : ℕ) → n ≤ 12 → (x : ExceptionalHaltReason) × (n ≡ reason_number x)
reason_of n h =
    let numbers : IsNumbered 0 reasons = (
      refl,
      (
        refl,
        (refl, (refl, (refl, (refl, (refl, (refl, (refl, (refl, (refl, (refl, (refl, tt))))))))))),
      ),
    ) in
    let (x, e) = numbered 0 n reasons numbers (omega arith) in (x, omega (arith, e))

-- What is known of the same run twice.
typed :
    (f : Frame) (o : Option Run)
    → HasReason f
    → ((out : Run) × (o ≡ some out) × IsEnded f out)
    → ((out : Run) × (o ≡ some out) × IsWithin f out)
    → (out : Run) × (o ≡ some out) × IsTyped out.frame
typed f o (x, known) (out, e, ended) (out', e', within) =
    let same : out' ≡ out = cc in
    let w : IsWithin f out = subst (IsWithin f) same within in
    (
      out,
      e,
      record {
        state = ended.1;
        reason = elim w.reason [
          | inl kept ↦ (x, kept ∙ known)
          | inr small ↦ reason_of out.frame.halt_reason small
        ];
      },
    )

-- From a frame whose stack fits and whose reason of a halt is a number of the enum, each of the three
-- interpreters returns with a state and a reason that are numbers of their enums, the state
-- EXCEPTIONAL_HALT or COMPLETED_SUCCESS.
pub execute_message-IsTyped :
    (traced : Bool) (f : Frame)
    → f.stack_size ≤ 1024
    → HasReason f
    → ((out : Run) × (Evm.Run.execute_message traced f ≡ some out) × IsTyped out.frame)
      × ((out : Run) × (Jumptable.Run.execute_message traced f ≡ some out) × IsTyped out.frame)
      × ((out : Run) × (Optimized.Run.execute_message traced f ≡ some out) × IsTyped out.frame)
execute_message-IsTyped traced f fits known = (
  typed f _ known (evm_ends traced f fits) (evm-IsWithin traced f fits),
  typed f _ known (jumptable_ends traced f fits) (jumptable-IsWithin traced f fits),
  typed f _ known (optimized_ends traced f fits) (optimized-IsWithin traced f fits),
)
