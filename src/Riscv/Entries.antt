-- ===== src/Riscv/Entries.antt =====
-- Entries of storage in the bytes: each part is what was written to it last, and the search for one.
use metaru.Common.{
  ℕ, zero, suc, ◌+◌, ◌≤◌, ◌<◌, ◌≡◌, refl, ap, ◌∙◌, ◌⊎◌, inl, inr, List, Bool-cases, set_at, length,
  arith,
}
use metaru.Word.{Word, zero_word}
use metaru.Word.Laws.{zero_word-IsWord}
use metaru.Frame.{StorageEntry}
use metaru.Frame.Memory.{read_bytes, write_bytes}
use metaru.Frame.Memory.Laws.{write_bytes_outside, read_bytes-write_bytes_apart, read_bytes-agree}
use metaru.Layout.Laws.{read_back}
use metaru.Storage
use metaru.Storage.{new_entry, matches}
use metaru.Riscv
use metaru.Riscv.Storage.{entry_ptr}
use metaru.Riscv.Holds.{Regions, HasBytes, entry_at}
use metaru.Riscv.Simulation.{Answers}

module _ (b : ℕ → ℕ) (p : ℕ) where
  entry_at-address :
      (w : List ℕ)
      → length w ≡ 20
      → entry_at (write_bytes b p w) p ≡ record (entry_at b p) { address = w }
  unfolding entry_at
  entry_at-address w full =
      rw
        (
          read_back b p p 20 w full refl,
          read_bytes-write_bytes_apart b p w (p + 20) 32 (omega arith),
          read_bytes-write_bytes_apart b p w (p + 52) 32 (omega arith),
          read_bytes-write_bytes_apart b p w (p + 84) 32 (omega arith),
          write_bytes_outside b p w (p + 116) (omega arith),
        )
        refl

  entry_at-key :
      (w : List ℕ)
      → length w ≡ 32
      → entry_at (write_bytes b (p + 20) w) p ≡ record (entry_at b p) { key = w }
  unfolding entry_at
  entry_at-key w full =
      rw
        (
          read_bytes-write_bytes_apart b (p + 20) w p 20 (omega arith),
          read_back b (p + 20) (p + 20) 32 w full refl,
          read_bytes-write_bytes_apart b (p + 20) w (p + 52) 32 (omega arith),
          read_bytes-write_bytes_apart b (p + 20) w (p + 84) 32 (omega arith),
          write_bytes_outside b (p + 20) w (p + 116) (omega arith),
        )
        refl

  pub entry_at-value :
      (w : List ℕ)
      → length w ≡ 32
      → entry_at (write_bytes b (p + 52) w) p ≡ record (entry_at b p) { value = w }
  unfolding entry_at
  entry_at-value w full =
      rw
        (
          read_bytes-write_bytes_apart b (p + 52) w p 20 (omega arith),
          read_bytes-write_bytes_apart b (p + 52) w (p + 20) 32 (omega arith),
          read_back b (p + 52) (p + 52) 32 w full refl,
          read_bytes-write_bytes_apart b (p + 52) w (p + 84) 32 (omega arith),
          write_bytes_outside b (p + 52) w (p + 116) (omega arith),
        )
        refl

  pub entry_at-original :
      (w : List ℕ)
      → length w ≡ 32
      → entry_at (write_bytes b (p + 84) w) p ≡ record (entry_at b p) { original = w }
  unfolding entry_at
  entry_at-original w full =
      rw
        (
          read_bytes-write_bytes_apart b (p + 84) w p 20 (omega arith),
          read_bytes-write_bytes_apart b (p + 84) w (p + 20) 32 (omega arith),
          read_bytes-write_bytes_apart b (p + 84) w (p + 52) 32 (omega arith),
          read_back b (p + 84) (p + 84) 32 w full refl,
          write_bytes_outside b (p + 84) w (p + 116) (omega arith),
        )
        refl

  kept_parts :
      (a n v : ℕ)
      → (a + n ≤ p + 116) ⊎ (p + 117 ≤ a)
      → read_bytes (set_at b (p + 116) v) a n ≡ read_bytes b a n
  kept_parts a n v h = read_bytes-agree (set_at b (p + 116) v) b a n (λ i low high. ground arith)

  warm_byte : (v : ℕ) → set_at b (p + 116) v (p + 116) ≡ v
  warm_byte v = ground arith

  pub entry_at-is_warm :
      (v : ℕ) → entry_at (set_at b (p + 116) v) p ≡ record (entry_at b p) { is_warm = v }
  unfolding entry_at
  entry_at-is_warm v =
      rw
        (
          kept_parts p 20 v (omega arith),
          kept_parts (p + 20) 32 v (omega arith),
          kept_parts (p + 52) 32 v (omega arith),
          kept_parts (p + 84) 32 v (omega arith),
          warm_byte v,
        )
        refl

-- What an update of an entry writes.
pub entry_at-found :
    (b : ℕ → ℕ) (p : ℕ) (v : List ℕ)
    → length v ≡ 32
    → entry_at (set_at (write_bytes b (p + 52) v) (p + 116) 1) p
      ≡ record (entry_at b p) { value = v; is_warm = 1 }
entry_at-found b p v full =
    entry_at-is_warm (write_bytes b (p + 52) v) p 1
    ∙ ap (λ (e : StorageEntry). record e { is_warm = 1 }) (entry_at-value b p v full)

-- The values of an entry that was just added.
pub entry_at-added :
    (b : ℕ → ℕ) (p : ℕ) (v : List ℕ)
    → length v ≡ 32
    → entry_at (set_at (write_bytes (write_bytes b (p + 52) v) (p + 84) v) (p + 116) 1) p
      ≡ record (entry_at b p) { value = v; original = v; is_warm = 1 }
entry_at-added b p v full =
    let valued = write_bytes b (p + 52) v in
    entry_at-is_warm (write_bytes valued (p + 84) v) p 1
    ∙ ap (λ (e : StorageEntry). record e { is_warm = 1 })
        (entry_at-original valued p v full
          ∙ ap (λ (e : StorageEntry). record e { original = v }) (entry_at-value b p v full))

-- All that storage::add writes.
pub entry_at-new :
    (b : ℕ → ℕ) (p : ℕ) (address key : List ℕ)
    → length address ≡ 20
    → length key ≡ 32
    → entry_at
        (set_at
          (write_bytes
            (write_bytes (write_bytes (write_bytes b p address) (p + 20) key) (p + 52) zero_word)
            (p + 84)
            zero_word)
          (p + 116)
          0)
        p
      ≡ new_entry address key
entry_at-new b p address key full full_key =
    let addressed = write_bytes b p address in
    let named = write_bytes addressed (p + 20) key in
    let zeroed = write_bytes named (p + 52) zero_word in
    entry_at-is_warm (write_bytes zeroed (p + 84) zero_word) p 0
    ∙ ap (λ (e : StorageEntry). record e { is_warm = 0 })
        (entry_at-original zeroed p zero_word zero_word-IsWord.0
          ∙ ap (λ (e : StorageEntry). record e { original = zero_word })
              (entry_at-value named p zero_word zero_word-IsWord.0
                ∙ ap (λ (e : StorageEntry). record e { value = zero_word })
                    (entry_at-key addressed p key full_key
                      ∙ ap (λ (e : StorageEntry). record e { key = key })
                          (entry_at-address b p address full))))

-- A pointer to an entry, and its index.
abbrev pub IsEntry : Regions → ℕ → ℕ → Type 0
IsEntry g p n = (p ≡ entry_ptr g.storage_ptr n) × (n < g.slots)

matches_same :
    (b : ℕ → ℕ) (p : ℕ) (address : List ℕ) (key : Word)
    → Riscv.Storage.entry_matches b p address key ≡ matches address key (entry_at b p)
unfolding Riscv.Storage.entry_matches matches entry_at
matches_same b p address key = refl

-- The search finds the same entry, or none.
pub find-Answers :
    (g : Regions) (b : ℕ → ℕ) (s : ℕ → Word) (mem code : ℕ → ℕ) (st : ℕ → StorageEntry) (left i : ℕ)
    (address : List ℕ) (key : Word)
    → HasBytes g b s mem code st
    → i + left ≤ g.slots
    → Answers
        (IsEntry g)
        (Riscv.Storage.find_from left i b g.storage_ptr address key)
        (Storage.find_from left i st address key)
unfolding Riscv.Storage.find_from Storage.find_from
find-Answers g b s mem code st zero i address key h fits = tt
find-Answers g b s mem code st (suc left) i address key h fits =
    let p = entry_ptr g.storage_ptr i in
    let same : Riscv.Storage.entry_matches b p address key ≡ matches address key (st i) =
      matches_same b p address key ∙ ap (matches address key) (h.storage_at i (omega arith)) in
    elim (Bool-cases (matches address key (st i))) [
      | inl found ↦ rw (same, found) (refl, omega arith)
      | inr other ↦
          rw (same, other) (find-Answers g b s mem code st left (i + 1) address key h (omega arith))
    ]
