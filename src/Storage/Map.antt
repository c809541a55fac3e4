-- ===== src/Storage/Map.antt =====
-- The flat array as a map: what a key of an account holds, with zero for what has no entry.
use metaru.Common.{
  ℕ, suc, ◌≡◌, ◌≢◌, refl, sym, ap, ◌∙◌, inl, inr, Option, none, some, false, List, arith, ◌==◌,
  if◌then◌else◌, set_at, Bool-cases, Option-cases,
}
use metaru.Word.{Word, same_bytes, zero_word}
use metaru.Word.Laws.{same_bytes_iff}
use metaru.Frame.{StorageEntry}
use metaru.Storage.{matches, find}
use metaru.Storage.Laws.{find_sound, find-congr, find-set_at, matches_iff}

-- The value of a search's answer.
abbrev pub value_at : (ℕ → StorageEntry) → Option ℕ → Word
value_at entries none = zero_word
value_at entries (some i) = (entries i).value

unfoldable pub slot : (ℕ → StorageEntry) → ℕ → List ℕ → Word → Word
slot entries count address key = value_at entries (find entries count address key)

-- A write of an entry that keeps its address and key is no change to a search.
set_at-matches :
    (entries : ℕ → StorageEntry) (address : List ℕ) (key : Word) (i j : ℕ) (e : StorageEntry)
    → e.address ≡ (entries i).address
    → e.key ≡ (entries i).key
    → matches address key (set_at entries i e j) ≡ matches address key (entries j)
unfolding matches
set_at-matches entries address key i j e a k = elim (Bool-cases (j == i)) [
  | inl here ↦ let same : j ≡ i = ground arith in rw (here, same, a, k) refl
  | inr off ↦ rw off refl
]

module _ (entries : ℕ → StorageEntry) (count : ℕ) (address : List ℕ) (key other : Word) where
  pub find-set_value :
      (i : ℕ) (e : StorageEntry)
      → e.address ≡ (entries i).address
      → e.key ≡ (entries i).key
      → find (set_at entries i e) count address other ≡ find entries count address other
  find-set_value i e a k =
      find-congr (set_at entries i e) entries count address other
        (λ j h. set_at-matches entries address other i j e a k)

  pub slot-set :
      (i : ℕ) (e : StorageEntry)
      → find entries count address key ≡ some i
      → e.address ≡ (entries i).address
      → e.key ≡ (entries i).key
      → slot (set_at entries i e) count address other
        ≡ (if same_bytes other key then e.value else slot entries count address other)
  unfolding slot
  slot-set i e found a k = rw (find-set_value i e a k) (elim (Bool-cases (same_bytes other key)) [
    | inl same ↦
        let eq : other ≡ key = (same_bytes_iff other key).0 same in
        rw (same, eq, found) (ground arith)
    | inr differ ↦ rw differ (elim (Option-cases (find entries count address other)) [
      | inl absent ↦ rw absent refl
      | inr (j, there) ↦ rw there (ground (arith, off j there differ))
    ])
  ])
    where
      off :
          (j : ℕ) → find entries count address other ≡ some j → same_bytes other key ≡ false → j ≢ i
      off j there differ e' =
          let left = (find_sound entries count address other there).2 in
          let right = (find_sound entries count address key found).2 in
          let eq : other ≡ key = sym left ∙ ap (λ x. (entries x).key) e' ∙ right in
          cc ((same_bytes_iff other key).1 eq)

  pub slot-add :
      (e : StorageEntry)
      → find entries count address key ≡ none
      → e.address ≡ address
      → e.key ≡ key
      → slot (set_at entries count e) (suc count) address other
        ≡ (if same_bytes other key then e.value else slot entries count address other)
  unfolding slot
  slot-add e absent a k =
      rw (find-set_at entries count e address other) (elim (Bool-cases (same_bytes other key)) [
        | inl same ↦
            let eq : other ≡ key = (same_bytes_iff other key).0 same in
            rw
              (
                same,
                ap (find entries count address) eq ∙ absent,
                (matches_iff address other e).1 (a, k ∙ sym eq),
              )
              (ground arith)
        | inr differ ↦ rw differ (elim (Option-cases (find entries count address other)) [
          | inl none_there ↦ rw (none_there, unmatched differ) refl
          | inr (j, there) ↦
              let below = (find_sound entries count address other there).0 in
              rw there (ground arith)
        ])
      ])
    where
      unmatched : same_bytes other key ≡ false → matches address other e ≡ false
      unmatched differ = elim (Bool-cases (matches address other e)) [
        | inr no_match ↦ no_match
        | inl match ↦
            let eq : other ≡ key = sym ((matches_iff address other e).0 match).1 ∙ k in
            cc ((same_bytes_iff other key).1 eq)
      ]

  -- A write of an entry that keeps its value too changes nothing in the map.
  pub slot-touch :
      (i : ℕ) (e : StorageEntry)
      → e.address ≡ (entries i).address
      → e.key ≡ (entries i).key
      → e.value ≡ (entries i).value
      → slot (set_at entries i e) count address other ≡ slot entries count address other
  unfolding slot
  slot-touch i e a k v =
      rw (find-set_value i e a k) (elim (Option-cases (find entries count address other)) [
        | inl absent ↦ rw absent refl
        | inr (j, there) ↦ rw there (ground arith)
      ])
