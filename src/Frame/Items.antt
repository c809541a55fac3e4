-- ===== src/Frame/Items.antt =====
-- The stack as a list of words, the top first.
use metaru.Common.{
  ℕ, zero, suc, ◌-◌, ◌≤◌, ◌<◌, ◌≡◌, refl, ap, ◌∙◌, List, [], ◌∷◌, some, false, arith, ◌==◌, set_at,
  length, get_elem?, set,
}
use metaru.Word.{Word}
use metaru.Frame.{Frame}

unfoldable pub items_below : (ℕ → Word) → ℕ → List Word
items_below s zero = []
items_below s (suc n) = s n ∷ items_below s n

abbrev pub items : Frame → List Word
items f = items_below f.stack f.stack_size

pub length-items_below : (s : ℕ → Word) (n : ℕ) → length (items_below s n) ≡ n
unfolding items_below
length-items_below s zero = refl
length-items_below s (suc n) = ap suc (length-items_below s n)

-- A write at or above the top is not seen.
pub items_below-set_at :
    (s : ℕ → Word) (n i : ℕ) (w : Word) → n ≤ i → items_below (set_at s i w) n ≡ items_below s n
unfolding items_below
items_below-set_at s zero i w h = refl
items_below-set_at s (suc n) i w h = ground (arith, items_below-set_at s n i w)

pub items_below-pos :
    (s : ℕ → Word) (n : ℕ) → 0 < n → items_below s n ≡ s (n - 1) ∷ items_below s (n - 1)
unfolding items_below
items_below-pos s zero h = absurd (omega arith)
items_below-pos s (suc n) h = let e : suc n - 1 ≡ n = omega arith in rw e refl

-- The item at an offset from the top.
pub get_elem?-items_below :
    (s : ℕ → Word) (n i : ℕ) → i < n → get_elem? (items_below s n) i ≡ some (s (n - 1 - i))
unfolding items_below
get_elem?-items_below s zero i h = absurd (omega arith)
get_elem?-items_below s (suc n) zero h = let e : suc n - 1 - 0 ≡ n = omega arith in rw e refl
get_elem?-items_below s (suc n) (suc i) h =
    let e : suc n - 1 - suc i ≡ n - 1 - i = omega arith in
    rw e (get_elem?-items_below s n i (omega arith))

-- A write of the top item.
items_below-set_top :
    (s : ℕ → Word) (n : ℕ) (w : Word) → items_below (set_at s n w) (suc n) ≡ w ∷ items_below s n
unfolding items_below
items_below-set_top s n w = ground (arith, items_below-set_at s n n w)

-- A write of the item at an offset.
pub items_below-set_at_offset :
    (s : ℕ → Word) (n i : ℕ) (w : Word)
    → i < n
    → items_below (set_at s (n - 1 - i) w) n ≡ set (items_below s n) i w
unfolding items_below
items_below-set_at_offset s zero i w h = absurd (omega arith)
items_below-set_at_offset s (suc n) zero w h =
    let e : suc n - 1 - 0 ≡ n = omega arith in
    ap (λ k. items_below (set_at s k w) (suc n)) e ∙ items_below-set_top s n w
items_below-set_at_offset s (suc n) (suc i) w h =
    let e : suc n - 1 - suc i ≡ n - 1 - i = omega arith in
    let d : (n == n - 1 - i) ≡ false = ground arith in
    ap (λ k. items_below (set_at s k w) (suc n)) e
    ∙ rw (d, items_below-set_at_offset s n i w (omega arith)) refl
