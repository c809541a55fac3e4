-- ===== src/Common/Search.antt =====
-- A linear search: the first index that passes a test.
use Prim.Native.Nat.{ℕ, zero, suc, ◌+◌, ◌≤◌, ◌<◌}
use mathlib.Core.Path.{◌≡◌, refl}
use mathlib.Core.Bool.{Bool, true, false}
use mathlib.Core.Option.{Option, none, some}
use native.Mathlib.Omega.{arith}
use metaru.Common.Tests.{if◌then◌else◌, Bool-cases}
use mathlib.Core.Logic.{◌⊎◌, inl, inr}

-- From index `i`, with `left` indices to go.
unfoldable pub search : (ℕ → Bool) → ℕ → ℕ → Option ℕ
search test i zero = none
search test i (suc left) = let later = search test (i + 1) left in if test i then some i else later

-- The answer is in range and passes, and nothing before it does.
pub search_first :
    (test : ℕ → Bool) (i left j k : ℕ)
    → search test i left ≡ some j
    → (i ≤ j) × (j < i + left) × (test j ≡ true) × ((k < i) ⊎ ((j ≤ k) ⊎ (test k ≡ false)))
unfolding search
search_first test i zero j k e = absurd (ground arith)
search_first test i (suc left) j k e = elim (Bool-cases (test i)) [
  | inl here ↦ ground arith
  | inr past ↦
      let later = search_first test (i + 1) left j k (ground arith) in
      let split : (k < i) ⊎ ((k ≡ i) ⊎ (i + 1 ≤ k)) = omega arith in
      (omega arith, omega arith, later.2, ground arith)
]

pub search_absent :
    (test : ℕ → Bool) (i left k : ℕ)
    → search test i left ≡ none
    → i ≤ k
    → k < i + left
    → test k ≡ false
unfolding search
search_absent test i zero k e low high = absurd (omega arith)
search_absent test i (suc left) k e low high = elim (Bool-cases (test i)) [
  | inl here ↦ ground arith
  | inr past ↦ ground (arith, search_absent test (i + 1) left k)
]

-- Tests that agree in range are searched alike.
pub search-congr :
    (test test' : ℕ → Bool) (i left : ℕ)
    → ((j : ℕ) → j < i + left → test j ≡ test' j)
    → search test i left ≡ search test' i left
unfolding search
search-congr test test' i zero same = refl
search-congr test test' i (suc left) same =
    rw (same i (omega arith), search-congr test test' (i + 1) left (λ j h. same j (omega arith)))

-- One more index is looked at last.
pub search-snoc :
    (test : ℕ → Bool) (i left last : ℕ)
    → i + left ≡ last
    → search test i (suc left)
      ≡ elim (search test i left) [ some j ↦ some j | none ↦ if test last then some last else none ]
unfolding search
search-snoc test i zero last e = let e' : i ≡ last = omega arith in rw e' refl
search-snoc test i (suc left) last e = elim (Bool-cases (test i)) [
  | inl here ↦ rw here refl
  | inr past ↦ rw past (search-snoc test (i + 1) left last (omega arith))
]
