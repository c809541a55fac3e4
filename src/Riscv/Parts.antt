-- ===== src/Riscv/Parts.antt =====
-- A machine with one entry of storage changed holds the frame with that entry changed.
use metaru.Common.{ℕ, ◌+◌, ◌≤◌, ◌<◌, ◌≡◌, ap, ◌∙◌, sym, ◌⊎◌, List, set_at, length, arith}
use metaru.Word.{Word, zero_word}
use metaru.Frame.{Frame, StorageEntry}
use metaru.Frame.Memory.{read_bytes, write_bytes}
use metaru.Frame.Memory.Laws.{write_bytes_outside}
use metaru.Optimized.Storage.{store_entry}
use metaru.Riscv.{Machine}
use metaru.Riscv.Holds.{Regions, IsSpread, Holds, entry_at, change_storage}
use metaru.Riscv.Entries.{IsEntry, entry_at-is_warm, entry_at-found, entry_at-added}
use metaru.Riscv.Simulation.{IsItem}

-- The parts of an entry as they are read.
pub record HasParts (b : ℕ → ℕ) (p : ℕ) (e : StorageEntry) : Type 0 where
  pub value : read_bytes b (p + 52) 32 ≡ e.value
  pub original : read_bytes b (p + 84) 32 ≡ e.original
  pub is_warm : b (p + 116) ≡ e.is_warm

entry_at-HasParts : (b : ℕ → ℕ) (p : ℕ) (e : StorageEntry) → entry_at b p ≡ e → HasParts b p e
unfolding entry_at
entry_at-HasParts b p e same = record {
  value = ap (λ (x : StorageEntry). x.value) same;
  original = ap (λ (x : StorageEntry). x.original) same;
  is_warm = ap (λ (x : StorageEntry). x.is_warm) same;
}

-- The bytes that storage::add leaves.
abbrev pub added : (ℕ → ℕ) → ℕ → List ℕ → Word → ℕ → ℕ
added b p address key =
    let named = write_bytes (write_bytes b p address) (p + 20) key in
    set_at (write_bytes (write_bytes named (p + 52) zero_word) (p + 84) zero_word) (p + 116) 0

pub added_outside :
    (b : ℕ → ℕ) (p : ℕ) (address : List ℕ) (key : Word) (i : ℕ)
    → length address ≡ 20
    → length key ≡ 32
    → (i < p) ⊎ (p + 124 ≤ i)
    → added b p address key i ≡ b i
added_outside b p address key i full full_key out =
    let addressed = write_bytes b p address in
    let named = write_bytes addressed (p + 20) key in
    let zeroed = write_bytes named (p + 52) zero_word in
    let last : added b p address key i ≡ write_bytes zeroed (p + 84) zero_word i = ground arith in
    last
    ∙ write_bytes_outside zeroed (p + 84) zero_word i (omega arith)
    ∙ write_bytes_outside named (p + 52) zero_word i (omega arith)
    ∙ write_bytes_outside addressed (p + 20) key i (omega arith)
    ∙ write_bytes_outside b p address i (omega arith)

module _ (g : Regions) (apart : IsSpread g) where
  module _ (m : Machine) (f : Frame) (h : Holds g m f) (p n : ℕ) (at : IsEntry g p n) where
    pub parts : HasParts m.bytes p (f.storage n)
    parts = entry_at-HasParts m.bytes p (f.storage n) (rw at.0 (h.content.storage_at n at.1))

    -- A change of one entry.
    pub entry-Holds :
        (c : ℕ → ℕ) (e : StorageEntry)
        → ((i : ℕ) → (i < p) ⊎ (p + 124 ≤ i) → c i ≡ m.bytes i)
        → entry_at c p ≡ e
        → Holds g (record m { bytes = c }) (record f { storage = set_at f.storage n e })
    entry-Holds c e outside inside = record {
      fields = ground (arith, h.fields);
      content =
          change_storage g apart m.bytes f.stack f.memory f.context.code f.storage h.content c n e
            at.1 (λ i out. outside i (rw at.0 out)) (ap (entry_at c) (sym at.0) ∙ inside);
    }

    held : entry_at m.bytes p ≡ f.storage n
    held = rw at.0 (h.content.storage_at n at.1)

    pub warm-Holds :
        Holds g
          (record m { bytes = set_at m.bytes (p + 116) 1 })
          (store_entry n (λ e. record e { is_warm = 1 }) f)
    warm-Holds =
        entry-Holds (set_at m.bytes (p + 116) 1) _ (λ i out. ground arith)
          (entry_at-is_warm m.bytes p 1 ∙ ap (λ (e : StorageEntry). record e { is_warm = 1 }) held)

    pub found-Holds :
        (v w : List ℕ)
        → IsItem v w
        → Holds g
            (record m { bytes = set_at (write_bytes m.bytes (p + 52) v) (p + 116) 1 })
            (store_entry n (λ e. record e { value = w; is_warm = 1 }) f)
    found-Holds v w item = rw item.0 (
        entry-Holds (set_at (write_bytes m.bytes (p + 52) w) (p + 116) 1) _
          (λ i out. ground (arith, item.1, write_bytes_outside m.bytes (p + 52) w i))
          (entry_at-found m.bytes p w item.1
            ∙ ap (λ (e : StorageEntry). record e { value = w; is_warm = 1 }) held))

    pub added-Holds :
        (v w : List ℕ)
        → IsItem v w
        → Holds g
            (record m {
              bytes = set_at (write_bytes (write_bytes m.bytes (p + 52) v) (p + 84) v) (p + 116) 1;
            })
            (store_entry n (λ e. record e { value = w; original = w; is_warm = 1 }) f)
    added-Holds v w item =
        let valued = write_bytes m.bytes (p + 52) w in
        rw item.0 (
          entry-Holds (set_at (write_bytes valued (p + 84) w) (p + 116) 1) _
            (λ i out. ground (
              arith,
              item.1,
              write_bytes_outside valued (p + 84) w i,
              write_bytes_outside m.bytes (p + 52) w i,
            ))
            (entry_at-added m.bytes p w item.1
              ∙ ap (λ (e : StorageEntry). record e { value = w; original = w; is_warm = 1 }) held))
