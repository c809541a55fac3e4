-- ===== src/Riscv/Holds.antt =====
-- When the bytes of a Machine hold a Frame, and what writes to one region leave of that.
use metaru.Common.{
  ℕ, ◌+◌, ◌*◌, ◌≤◌, ◌<◌, ◌≡◌, ◌≢◌, refl, ap, ◌∙◌, ◌⊎◌, inl, inr, ◌==◌, set_at, length, arith,
  Bool-cases,
}
use metaru.Word.{Word}
use metaru.Frame.{Frame, StorageEntry}
use metaru.Frame.Memory.{read_bytes, write_bytes}
use metaru.Frame.Memory.Laws.{write_bytes_outside, read_bytes-agree, read_bytes-write_bytes_apart}
use metaru.Layout.Laws.{IsApart, read_back}
use metaru.Riscv.{Machine}
use metaru.Riscv.Storage.{entry_ptr}

-- Where the regions start, how many bytes of memory, slots of storage and bytes of code they have, and
-- the bytes around them.
pub record Regions : Type 0 where
  pub stack_ptr : ℕ
  pub memory_ptr : ℕ
  pub code_ptr : ℕ
  pub storage_ptr : ℕ
  pub room : ℕ
  pub slots : ℕ
  pub code_size : ℕ
  pub rest : ℕ → ℕ

-- No two regions meet.
pub record IsSpread (g : Regions) : Type 0 where
  pub stack_memory : IsApart g.stack_ptr (1024 * 32) g.memory_ptr g.room
  pub stack_code : IsApart g.stack_ptr (1024 * 32) g.code_ptr g.code_size
  pub stack_storage : IsApart g.stack_ptr (1024 * 32) g.storage_ptr (g.slots * 124)
  pub memory_code : IsApart g.memory_ptr g.room g.code_ptr g.code_size
  pub memory_storage : IsApart g.memory_ptr g.room g.storage_ptr (g.slots * 124)
  pub code_storage : IsApart g.code_ptr g.code_size g.storage_ptr (g.slots * 124)

-- An address in none of the regions that are written.
abbrev pub IsOutside : Regions → ℕ → Type 0
IsOutside g i =
    ((i < g.stack_ptr) ⊎ (g.stack_ptr + 32768 ≤ i))
    × ((i < g.memory_ptr) ⊎ (g.memory_ptr + g.room ≤ i))
    × ((i < g.storage_ptr) ⊎ (g.storage_ptr + g.slots * 124 ≤ i))

-- The entry whose first byte is at a pointer.
unfoldable pub entry_at : (ℕ → ℕ) → ℕ → StorageEntry
entry_at bytes p = record {
  address = read_bytes bytes p 20;
  key = read_bytes bytes (p + 20) 32;
  value = read_bytes bytes (p + 52) 32;
  original = read_bytes bytes (p + 84) 32;
  is_warm = bytes (p + 116);
}

-- The fields of the machine are those of the frame, and within the regions.
pub record HasFields (g : Regions) (m : Machine) (f : Frame) : Type 0 where
  pub stack_base : m.stack_ptr ≡ g.stack_ptr
  pub memory_base : m.memory_ptr ≡ g.memory_ptr
  pub code_base : m.code_ptr ≡ g.code_ptr
  pub storage_base : m.storage_ptr ≡ g.storage_ptr
  pub pc : m.pc ≡ f.pc
  pub gas_remaining : m.gas_remaining ≡ f.gas_remaining
  pub gas_refund : m.gas_refund ≡ f.gas_refund
  pub stack_size : m.stack_size ≡ f.stack_size
  pub memory_size : m.memory_size ≡ f.memory_size
  pub state : m.state ≡ f.state
  pub halt_reason : m.halt_reason ≡ f.halt_reason
  pub is_static : m.is_static ≡ f.context.is_static
  pub code_size : m.code_size ≡ f.context.code_size
  pub code_fits : f.context.code_size ≡ g.code_size
  pub storage_slot_count : m.storage_slot_count ≡ f.storage_slot_count
  pub max_storage_slots : m.max_storage_slots ≡ f.context.max_storage_slots
  pub contract : m.contract ≡ f.context.contract
  pub contract_length : length f.context.contract ≡ 20
  pub stack_fits : f.stack_size ≤ 1024
  pub storage_fits : f.storage_slot_count ≤ g.slots
  pub slots_fit : f.context.max_storage_slots ≤ g.slots

-- The bytes of the regions are what the arrays have.
pub record HasBytes (g : Regions) (bytes : ℕ → ℕ) (stack : ℕ → Word) (memory code : ℕ → ℕ)
    (storage : ℕ → StorageEntry) : Type 0 where
  pub stack_at : (i : ℕ) → i < 1024 → read_bytes bytes (g.stack_ptr + i * 32) 32 ≡ stack i
  pub memory_at : (i : ℕ) → i < g.room → bytes (g.memory_ptr + i) ≡ memory i
  pub code_at : (i : ℕ) → i < g.code_size → bytes (g.code_ptr + i) ≡ code i
  pub storage_at : (i : ℕ) → i < g.slots → entry_at bytes (entry_ptr g.storage_ptr i) ≡ storage i
  pub rest_at : (i : ℕ) → IsOutside g i → bytes i ≡ g.rest i

pub record Holds (g : Regions) (m : Machine) (f : Frame) : Type 0 where
  pub fields : HasFields g m f
  pub content : HasBytes g m.bytes f.stack f.memory f.context.code f.storage

-- Where the bytes of an entry agree, so do its parts.
pub entry_at-agree :
    (b c : ℕ → ℕ) (p : ℕ)
    → ((i : ℕ) → p ≤ i → i < p + 124 → b i ≡ c i)
    → entry_at b p ≡ entry_at c p
unfolding entry_at
entry_at-agree b c p same =
    rw
      (
        read_bytes-agree b c p 20 (λ i h k. same i (omega arith) (omega arith)),
        read_bytes-agree b c (p + 20) 32 (λ i h k. same i (omega arith) (omega arith)),
        read_bytes-agree b c (p + 52) 32 (λ i h k. same i (omega arith) (omega arith)),
        read_bytes-agree b c (p + 84) 32 (λ i h k. same i (omega arith) (omega arith)),
        same (p + 116) (omega arith) (omega arith),
      )
      refl

module _ (g : Regions) (apart : IsSpread g) (b : ℕ → ℕ) (s : ℕ → Word) (mem code : ℕ → ℕ)
    (st : ℕ → StorageEntry) (h : HasBytes g b s mem code st) where
  -- Bytes that differ in the slots of the stack at most.
  pub change_stack :
      (c : ℕ → ℕ) (t : ℕ → Word)
      → ((i : ℕ) → (i < g.stack_ptr) ⊎ (g.stack_ptr + 32768 ≤ i) → c i ≡ b i)
      → ((i : ℕ) → i < 1024 → read_bytes c (g.stack_ptr + i * 32) 32 ≡ t i)
      → HasBytes g c t mem code st
  change_stack c t outside inside = record {
    stack_at = inside;
    memory_at =
        λ i k. outside (g.memory_ptr + i) (omega (arith, apart.stack_memory)) ∙ h.memory_at i k;
    code_at = λ i k. outside (g.code_ptr + i) (omega (arith, apart.stack_code)) ∙ h.code_at i k;
    storage_at = λ i k.
        entry_at-agree c b (entry_ptr g.storage_ptr i)
          (λ j p q. outside j (omega (arith, apart.stack_storage)))
        ∙ h.storage_at i k;
    rest_at = λ i k. outside i k.0 ∙ h.rest_at i k;
  }

  -- Bytes that differ in memory at most.
  pub change_memory :
      (c : ℕ → ℕ) (n : ℕ → ℕ)
      → ((i : ℕ) → (i < g.memory_ptr) ⊎ (g.memory_ptr + g.room ≤ i) → c i ≡ b i)
      → ((i : ℕ) → i < g.room → c (g.memory_ptr + i) ≡ n i)
      → HasBytes g c s n code st
  change_memory c n outside inside = record {
    stack_at = λ i k.
        read_bytes-agree c b (g.stack_ptr + i * 32) 32
          (λ j p q. outside j (omega (arith, apart.stack_memory)))
        ∙ h.stack_at i k;
    memory_at = inside;
    code_at = λ i k. outside (g.code_ptr + i) (omega (arith, apart.memory_code)) ∙ h.code_at i k;
    storage_at = λ i k.
        entry_at-agree c b (entry_ptr g.storage_ptr i)
          (λ j p q. outside j (omega (arith, apart.memory_storage)))
        ∙ h.storage_at i k;
    rest_at = λ i k. outside i k.1 ∙ h.rest_at i k;
  }

  -- Bytes that differ in one entry of storage at most.
  pub change_storage :
      (c : ℕ → ℕ) (n : ℕ) (e : StorageEntry)
      → n < g.slots
      → ((i : ℕ)
          → (i < entry_ptr g.storage_ptr n) ⊎ (entry_ptr g.storage_ptr n + 124 ≤ i)
          → c i ≡ b i)
      → entry_at c (entry_ptr g.storage_ptr n) ≡ e
      → HasBytes g c s mem code (set_at st n e)
  change_storage c n e below outside inside = record {
    stack_at = λ i k.
        read_bytes-agree c b (g.stack_ptr + i * 32) 32
          (λ j p q. outside j (omega (arith, apart.stack_storage)))
        ∙ h.stack_at i k;
    memory_at =
        λ i k. outside (g.memory_ptr + i) (omega (arith, apart.memory_storage)) ∙ h.memory_at i k;
    code_at = λ i k. outside (g.code_ptr + i) (omega (arith, apart.code_storage)) ∙ h.code_at i k;
    storage_at = λ i k. elim (Bool-cases (i == n)) [
      | inl here ↦
          let e' : i ≡ n = ground arith in
          rw here (ap (λ j. entry_at c (entry_ptr g.storage_ptr j)) e' ∙ inside)
      | inr other ↦
          let ne : i ≢ n = ground arith in
          rw other (
            entry_at-agree c b (entry_ptr g.storage_ptr i) (λ j p q. outside j (omega (arith, ne)))
            ∙ h.storage_at i k)
    ];
    rest_at = λ i k. outside i (omega (arith, k.2)) ∙ h.rest_at i k;
  }

  -- A word in a slot of the stack.
  pub put_item :
      (i : ℕ) (w : Word)
      → i < 1024
      → length w ≡ 32
      → HasBytes g (write_bytes b (g.stack_ptr + i * 32) w) (set_at s i w) mem code st
  put_item i w below full =
      change_stack _ _ (λ j out. write_bytes_outside b (g.stack_ptr + i * 32) w j (omega arith))
        (λ j k. elim (Bool-cases (j == i)) [
          | inl here ↦
              let e : j ≡ i = ground arith in
              rw here (
                read_back b (g.stack_ptr + i * 32) (g.stack_ptr + j * 32) 32 w full
                  (omega (arith, e)))
          | inr other ↦
              let ne : j ≢ i = ground arith in
              rw other (
                read_bytes-write_bytes_apart b (g.stack_ptr + i * 32) w (g.stack_ptr + j * 32) 32
                  (omega (arith, ne))
                ∙ h.stack_at j k)
        ])
