-- ===== src/Storage/Laws.antt =====
-- The linear search finds the first entry with the address and the key, and only that.
use metaru.Common.{
  ℕ, zero, suc, ◌+◌, ◌≤◌, ◌<◌, ◌≡◌, ◌≢◌, refl, inl, inr, none, some, true, List, arith,
  if◌then◌else◌, set_at, Bool-cases, Option-cases, ◌↔◌, ◌⊎◌, false,
}
use metaru.Word.{Word, same_bytes}
use metaru.Word.Laws.{same_bytes_iff}
use metaru.Frame.{StorageEntry}
use metaru.Storage.{matches, find, find_from}

-- The test of an entry decides its address and its key.
pub matches_iff :
    (address : List ℕ) (key : Word) (e : StorageEntry)
    → (matches address key e ≡ true) ↔ ((e.address ≡ address) × (e.key ≡ key))
unfolding matches
matches_iff address key e =
    ground (arith, same_bytes_iff e.address address, same_bytes_iff e.key key)

-- An entry that fails the test has another address or another key.
matches_differ :
    (address : List ℕ) (key : Word) (e : StorageEntry)
    → matches address key e ≡ false
    → (e.address ≢ address) ⊎ (e.key ≢ key)
unfolding matches
matches_differ address key e fails = elim (Bool-cases (same_bytes e.address address)) [
  | inr other ↦ inl (λ same. cc (other, (same_bytes_iff e.address address).1 same))
  | inl here ↦ elim (Bool-cases (same_bytes e.key key)) [
    | inr other ↦ inr (λ same. cc (other, (same_bytes_iff e.key key).1 same))
    | inl too ↦ absurd (ground (arith, here, too, fails))
  ]
]

module _ (address : List ℕ) (key : Word) where
  -- Two arrays that test alike in range are searched alike.
  find_from-congr :
      (entries entries' : ℕ → StorageEntry) (left i : ℕ)
      → ((j : ℕ)
          → j < i + left
          → matches address key (entries j) ≡ matches address key (entries' j))
      → find_from left i entries address key ≡ find_from left i entries' address key
  unfolding find_from
  find_from-congr entries entries' zero i same = refl
  find_from-congr entries entries' (suc left) i same = rw (
    same i (omega arith),
    find_from-congr entries entries' left (i + 1) (λ j h. same j (omega arith)),
  )

  module _ (entries : ℕ → StorageEntry) where
    find_from_sound :
        (left i j : ℕ)
        → find_from left i entries address key ≡ some j
        → (i ≤ j) × (j < i + left) × (matches address key (entries j) ≡ true)
    unfolding find_from
    find_from_sound zero i j e = cc
    find_from_sound (suc left) i j e = elim (Bool-cases (matches address key (entries i))) [
      | inl here ↦ ground arith
      | inr past ↦ ground (arith, find_from_sound left (i + 1) j)
    ]

    find_from_complete :
        (left i t : ℕ)
        → i ≤ t
        → t < i + left
        → matches address key (entries t) ≡ true
        → (j : ℕ) × (find_from left i entries address key ≡ some j) × (j ≤ t)
    unfolding find_from
    find_from_complete zero i t p q h = absurd (omega arith)
    find_from_complete (suc left) i t p q h = elim (Bool-cases (matches address key (entries i))) [
      | inl here ↦ (i, rw here refl, p)
      | inr past ↦
          let differ : i ≢ t = λ e. cc (e) in
          let (j, found, le) = find_from_complete left (i + 1) t (omega arith) (omega arith) h in
          (j, rw past found, le)
    ]

    -- One more entry is looked at last.
    find_from-snoc :
        (left i last : ℕ)
        → i + left ≡ last
        → find_from (suc left) i entries address key ≡ elim (find_from left i entries address key) [
          | some j ↦ some j
          | none ↦ if matches address key (entries last) then some last else none
        ]
    unfolding find_from
    find_from-snoc zero i last e = let e' : i ≡ last = omega arith in rw e' refl
    find_from-snoc (suc left) i last e = elim (Bool-cases (matches address key (entries i))) [
      | inl here ↦ rw here refl
      | inr past ↦ rw past (find_from-snoc left (i + 1) last (omega arith))
    ]

-- What the search answers is the index of an entry in range with the address and the key.
pub find_sound :
    (entries : ℕ → StorageEntry) (count : ℕ) (address : List ℕ) (key : Word) {j : ℕ}
    → find entries count address key ≡ some j
    → (j < count) × ((entries j).address ≡ address) × ((entries j).key ≡ key)
unfolding find
find_sound entries count address key {j} e =
    let found = find_from_sound address key entries count 0 j e in
    let same = (matches_iff address key (entries j)).0 found.2 in (omega arith, same.0, same.1)

-- Where an entry in range has the address and the key, the search answers an index no later.
pub find_complete :
    (entries : ℕ → StorageEntry) (count : ℕ) (address : List ℕ) (key : Word) (i : ℕ)
    → i < count
    → (entries i).address ≡ address
    → (entries i).key ≡ key
    → (j : ℕ) × (find entries count address key ≡ some j) × (j ≤ i)
unfolding find
find_complete entries count address key i h a k =
    find_from_complete address key entries count 0 i (omega arith) (omega arith)
      ((matches_iff address key (entries i)).1 (a, k))

-- The search answers the first entry in range with the address and the key, or that there is none:
-- against any entry in range, the answer is no later, or that entry has another address or another
-- key.
pub find_lem :
    (entries : ℕ → StorageEntry) (count : ℕ) (address : List ℕ) (key : Word) (k : ℕ)
    → k < count
    → ((j : ℕ) × (find entries count address key ≡ some j)
        × (j < count)
        × ((entries j).address ≡ address)
        × ((entries j).key ≡ key)
        × ((j ≤ k) ⊎ (((entries k).address ≢ address) ⊎ ((entries k).key ≢ key))))
      ⊎ ((find entries count address key ≡ none)
          × (((entries k).address ≢ address) ⊎ ((entries k).key ≢ key)))
find_lem entries count address key k below =
    let other : (matches address key (entries k) ≡ true)
        → (j : ℕ) × (find entries count address key ≡ some j) × (j ≤ k) =
      λ h.
        let same = (matches_iff address key (entries k)).0 h in
        find_complete entries count address key k below same.0 same.1 in
    elim (Option-cases (find entries count address key)) [
      | inr (j, e) ↦
          let found = find_sound entries count address key e in
          inl (
            j,
            e,
            found.0,
            found.1,
            found.2,
            elim (Bool-cases (matches address key (entries k))) [
              | inr differs ↦ inr (matches_differ address key (entries k) differs)
              | inl here ↦
                  let (i, e', le) = other here in let same : i ≡ j = cc in inl (omega arith)
            ],
          )
      | inl missed ↦ inr (
        missed,
        elim (Bool-cases (matches address key (entries k))) [
          | inr differs ↦ matches_differ address key (entries k) differs
          | inl here ↦ let (i, e', le) = other here in absurd (cc)
        ],
      )
    ]

-- The search goes by addresses and keys in range alone.
pub find-congr :
    (entries entries' : ℕ → StorageEntry) (count : ℕ) (address : List ℕ) (key : Word)
    → ((j : ℕ) → j < count → matches address key (entries j) ≡ matches address key (entries' j))
    → find entries count address key ≡ find entries' count address key
unfolding find
find-congr entries entries' count address key same =
    find_from-congr address key entries entries' count 0 (λ j h. same j (omega arith))

find-snoc :
    (entries : ℕ → StorageEntry) (count : ℕ) (address : List ℕ) (key : Word)
    → find entries (suc count) address key ≡ elim (find entries count address key) [
      | some j ↦ some j
      | none ↦ if matches address key (entries count) then some count else none
    ]
unfolding find
find-snoc entries count address key = find_from-snoc address key entries count 0 count (omega arith)

-- The entries in range do not see a write behind them.
find-set_at_end :
    (entries : ℕ → StorageEntry) (count : ℕ) (e : StorageEntry) (address : List ℕ) (key : Word)
    → find (set_at entries count e) count address key ≡ find entries count address key
find-set_at_end entries count e address key =
    find-congr (set_at entries count e) entries count address key (λ j h. ground arith)

-- A search of one entry more, after a write of that entry.
pub find-set_at :
    (entries : ℕ → StorageEntry) (count : ℕ) (e : StorageEntry) (address : List ℕ) (key : Word)
    → find (set_at entries count e) (suc count) address key
      ≡ elim (find entries count address key) [
        | some j ↦ some j
        | none ↦ if matches address key e then some count else none
      ]
find-set_at entries count e address key =
    rw
      (
        find-snoc (set_at entries count e) count address key,
        find-set_at_end entries count e address key,
      )
      (ground arith)
