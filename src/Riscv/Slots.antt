-- ===== src/Riscv/Slots.antt =====
-- SLOAD and SSTORE on the bytes and on the frame.
use metaru.Common.{
  ℕ, ◌+◌, ◌<◌, ◌≡◌, refl, ap, ◌∙◌, sym, inl, inr, Option, none, some, List, Bool-cases, true, false,
  set_at, length, arith, leb, ◌==◌,
}
use metaru.Common.Int.{pos, ◌+ℤ◌}
use metaru.Word.{Word}
use metaru.Word.Laws.{zero_word-IsWord}
use metaru.Frame.{Frame, StorageEntry}
use metaru.Frame
use metaru.Frame.Memory.Laws.{length-read_bytes}
use metaru.Storage.{new_entry}
use metaru.Storage
use metaru.Optimized
use metaru.Optimized.Storage.{store_entry}
use metaru.Riscv
use metaru.Riscv.{Machine}
use metaru.Riscv.Storage.{entry_ptr}
use metaru.Riscv.Holds.{Regions, IsSpread, Holds}
use metaru.Riscv.Entries.{IsEntry, entry_at-new, find-Answers}
use metaru.Riscv.Simulation.{
  Answers, Same, IsItem, IsSlot, Simulates, sim, bind_sim, if_sim, top_sim, free_sim, word-IsItem,
  put-Holds, halt-Holds,
}
use metaru.Riscv.Parts.{
  parts, added, added_outside, entry-Holds, warm-Holds, found-Holds, added-Holds,
}

module _ (g : Regions) (apart : IsSpread g) where
  module _ (m : Machine) (f : Frame) (h : Holds g m f) where
    find_slot-Answers :
        (key : Word)
        → Answers (IsEntry g) (Riscv.Storage.find_slot key m) (Optimized.Storage.find_slot key f)
    unfolding Riscv.Storage.find_slot Optimized.Storage.find_slot Storage.find
    find_slot-Answers key =
        rw (h.fields.storage_slot_count, h.fields.storage_base, h.fields.contract)
          (find-Answers g m.bytes f.stack f.memory f.context.code f.storage f.storage_slot_count 0
            f.context.contract key h.content (omega (arith, h.fields.storage_fits)))

    load_from_sim :
        (p i : ℕ) (found : Option ℕ) (found' : Option ℕ)
        → IsSlot g p i
        → Answers (IsEntry g) found found'
        → Simulates g Same
            (Riscv.Storage.load_from p found m)
            (Optimized.Storage.load_from i found' f)
    unfolding Riscv.Storage.load_from Optimized.Storage.load_from Riscv.Storage.access_cost
        Optimized.Storage.access_cost
    load_from_sim p i none none s e =
        sim g refl (put-Holds g m f h p i _ _ apart s (refl, zero_word-IsWord.0))
    load_from_sim p i none (some n) s e = absurd e
    load_from_sim p i (some q) none s e = absurd e
    load_from_sim p i (some q) (some n) s e =
        let read_value = (parts g apart m f h q n e).value in
        let full = length-read_bytes m.bytes (q + 52) 32 in
        let put =
          put-Holds g m f h p i _ _ apart s (read_value, ap length (sym read_value) ∙ full) in
        let warm = (parts g apart _ _ put q n e).is_warm in
        sim g (rw warm refl) (warm-Holds g apart _ _ put q n e)

    refund-Holds :
        (n : ℕ)
        → Holds g
            (record m { gas_refund = m.gas_refund +ℤ pos n })
            (record f { gas_refund = f.gas_refund +ℤ pos n })
    refund-Holds n = record {
      fields = ground (arith, h.fields, ap (λ z. z +ℤ pos n) h.fields.gas_refund);
      content = h.content;
    }

    store_found_sim :
        (q n : ℕ) (v w : List ℕ)
        → IsEntry g q n
        → IsItem v w
        → Simulates g Same (Riscv.Storage.store_found q v m) (Optimized.Storage.store_found n w f)
    unfolding Riscv.Storage.store_found Optimized.Storage.store_found Optimized.Storage.refund
        Riscv.Storage.store_cost Optimized.Storage.store_cost Riscv.Storage.access_cost
        Optimized.Storage.access_cost
    store_found_sim q n v w e item =
        let entry = parts g apart m f h q n e in
        rw (item.0, entry.original, entry.value, entry.is_warm)
          (bind_sim g
            (free_sim g _ _
              (found-Holds g apart _ _ (refund-Holds (Optimized.Storage.refund w (f.storage n))) q n
                e w w (refl, item.1))
              2)
            (λ _ _ m1 f1 _ h1. sim g refl h1))

    -- The frame of a machine that has one entry more.
    new-Holds :
        (key : Word)
        → length key ≡ 32
        → f.storage_slot_count < f.context.max_storage_slots
        → IsEntry g (entry_ptr m.storage_ptr m.storage_slot_count) f.storage_slot_count
          × Holds g
              (record m {
                bytes = added m.bytes (entry_ptr m.storage_ptr m.storage_slot_count) m.contract key;
                storage_slot_count = m.storage_slot_count + 1;
              })
              (record f {
                storage = set_at f.storage f.storage_slot_count (new_entry f.context.contract key);
                storage_slot_count = f.storage_slot_count + 1;
              })
    new-Holds key full room =
        let p = entry_ptr m.storage_ptr m.storage_slot_count in
        let at : IsEntry g p f.storage_slot_count = (
          omega (arith, h.fields.storage_base, h.fields.storage_slot_count),
          omega (arith, h.fields.slots_fit),
        ) in
        let named : length m.contract ≡ 20 =
          ap length h.fields.contract ∙ h.fields.contract_length in
        let changed =
          entry-Holds g apart m f h p f.storage_slot_count at (added m.bytes p m.contract key)
            (new_entry f.context.contract key)
            (λ i out. added_outside m.bytes p m.contract key i named full out)
            (entry_at-new m.bytes p m.contract key named full
              ∙ ap (λ a. new_entry a key) h.fields.contract) in
        (at, record { fields = ground (arith, h.fields); content = changed.content })

    add_slot_sim :
        (key : Word)
        → length key ≡ 32
        → Simulates g (IsEntry g) (Riscv.Storage.add_slot key m) (Optimized.Storage.add_slot key f)
    unfolding Riscv.Storage.add_slot Optimized.Storage.add_slot Storage.add
    add_slot_sim key full =
        elim (Bool-cases (leb f.context.max_storage_slots f.storage_slot_count)) [
          | inl none_left ↦
              let too : leb m.max_storage_slots m.storage_slot_count ≡ true =
                rw (h.fields.max_storage_slots, h.fields.storage_slot_count) none_left in
              let refused : Optimized.Storage.add_slot key f ≡ (none, Frame.halt 2 f) =
                ground arith in
              rw (too, refused) (sim g tt (halt-Holds g m f h 2))
          | inr left ↦
              let too : leb m.max_storage_slots m.storage_slot_count ≡ false =
                rw (h.fields.max_storage_slots, h.fields.storage_slot_count) left in
              let (at, holds) = new-Holds key full (ground arith) in
              let entries =
                set_at f.storage f.storage_slot_count (new_entry f.context.contract key) in
              let answered : Optimized.Storage.add_slot key f ≡ (
                some f.storage_slot_count,
                record f { storage = entries; storage_slot_count = f.storage_slot_count + 1 },
              ) =
                ground arith in
              rw (too, answered) (sim g at holds)
        ]

    store_new_sim :
        (key : Word) (v w : List ℕ)
        → length key ≡ 32
        → IsItem v w
        → Simulates g Same (Riscv.Storage.store_new key v m) (Optimized.Storage.store_new key w f)
    unfolding Riscv.Storage.store_new Optimized.Storage.store_new
    store_new_sim key v w full item = bind_sim g (add_slot_sim key full) (λ q n m1 f1 e h1.
        bind_sim g (free_sim g _ _ (added-Holds g apart m1 f1 h1 q n e v w item) 2)
          (λ _ _ m2 f2 _ h2. sim g refl h2))

    store_to_sim :
        (key : Word) (v w : List ℕ) (found found' : Option ℕ)
        → length key ≡ 32
        → IsItem v w
        → Answers (IsEntry g) found found'
        → Simulates g Same
            (Riscv.Storage.store_to key v found m)
            (Optimized.Storage.store_to key w found' f)
    unfolding Riscv.Storage.store_to Optimized.Storage.store_to
    store_to_sim key v w none none full item e = store_new_sim key v w full item
    store_to_sim key v w (some q) (some n) full item e = store_found_sim q n v w e item
    store_to_sim key v w none (some n) full item e = absurd e
    store_to_sim key v w (some q) none full item e = absurd e

  module _ (m : Machine) (f : Frame) (h : Holds g m f) where
    pub op_sload_sim : Simulates g Same (Riscv.Storage.op_sload m) (Optimized.Storage.op_sload f)
    unfolding Riscv.Storage.op_sload Optimized.Storage.op_sload
    op_sload_sim = bind_sim g (top_sim g m f h 0) (λ a i m1 f1 sa h1.
        let x = word-IsItem g m1 f1 h1 a i sa in
        rw x.0 (load_from_sim m1 f1 h1 a i _ _ sa (find_slot-Answers m1 f1 h1 (f1.stack i))))

    write_slot_sim : Simulates g Same (Riscv.Storage.write_slot m) (Optimized.Storage.write_slot f)
    unfolding Riscv.Storage.write_slot Optimized.Storage.write_slot
    write_slot_sim = bind_sim g (top_sim g m f h 0) (λ a i m1 f1 sa h1.
        bind_sim g (top_sim g m1 f1 h1 1) (λ b j m2 f2 sb h2.
          let x = word-IsItem g m2 f2 h2 a i sa in
          rw x.0 (
            store_to_sim m2 f2 h2 (f2.stack i) _ _ _ _ x.1 (word-IsItem g m2 f2 h2 b j sb)
              (find_slot-Answers m2 f2 h2 (f2.stack i)))))

    pub op_sstore_sim : Simulates g Same (Riscv.Storage.op_sstore m) (Optimized.Storage.op_sstore f)
    unfolding Riscv.Storage.op_sstore Optimized.Storage.op_sstore
    op_sstore_sim =
        if_sim g (m.is_static == 0) (f.context.is_static == 0) _ _ _ _
          (ap (λ n. n == 0) h.fields.is_static) write_slot_sim (sim g tt (halt-Holds g m f h 6))
