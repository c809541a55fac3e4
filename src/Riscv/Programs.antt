-- ===== src/Riscv/Programs.antt =====
-- Whole programs of stack instructions, run by execute_message on the bytes.
use metaru.Common.{
  ℕ, zero, suc, ◌+◌, ◌*◌, ◌^◌, ◌≤◌, ◌<◌, ◌≡◌, refl, ap, ◌∙◌, sym, subst, inl, inr, some, List,
  length, All, arith, false,
}
use metaru.Common.Int.{pos}
use metaru.Word.{Word, IsWord}
use metaru.Frame.{Frame, completed_success}
use metaru.Frame.Items.{items, items_below}
use metaru.Frame.Memory.{read_bytes}
use metaru.Instr.{Instr}
use metaru.Loop.{Run}
use metaru.Jumptable.Programs.{IsPlain, IsPlaced, evaluate}
use metaru.Jumptable.Execution.{HasBytes, execute_message-evaluate}
use metaru.Optimized.Equiv.{SameRun, IsStorageFree, optimized-eq-jumptable}
use metaru.Riscv.{Machine}
use metaru.Riscv.Run.{execute_message}
use metaru.Riscv.Holds.{Regions, IsSpread, Holds}
use metaru.Riscv.Room.{HasRoom, HasRoom-StaysInRoom}
use metaru.Riscv.Refine.{riscv-Refines}

-- The stack as a list that is read from the bytes, the top first.
abbrev pub items_at : Machine → List Word
items_at m = items_below (λ i. read_bytes m.bytes (m.stack_ptr + i * 32) 32) m.stack_size

-- Two stacks that agree below a size have the same items there.
items_below-agree :
    (s t : ℕ → Word) (n : ℕ) → ((i : ℕ) → i < n → s i ≡ t i) → items_below s n ≡ items_below t n
unfolding items_below
items_below-agree s t zero same = refl
items_below-agree s t (suc n) same =
    rw (same n (omega arith), items_below-agree s t n (λ i h. same i (omega arith))) refl

items_at-items : (g : Regions) (m : Machine) (f : Frame) → Holds g m f → items_at m ≡ items f
items_at-items g m f h =
    rw (h.fields.stack_base, h.fields.stack_size)
      (items_below-agree _ f.stack f.stack_size
        (λ i k. h.content.stack_at i (omega (arith, h.fields.stack_fits))))

-- What the in-place interpreter ends with, where the jump table interpreter has succeeded.
same_success :
    (a b : Run) (after : List Word)
    → SameRun a b
    → a.frame.state ≡ completed_success
    → items a.frame ≡ after
    → (b.frame.state ≡ completed_success) × (items b.frame ≡ after)
same_success a b after same done listed = elim (same.2) [
  | inl e ↦ (ap (λ (f : Frame). f.state) (sym e) ∙ done, ap items (sym e) ∙ listed)
  | inr halted ↦ absurd (omega (arith, halted, done))
]

-- Let the regions lie apart, and the bytes hold a frame whose code has no byte 0x44 or 0x45, those
-- of SLOAD and SSTORE, and whose memory has room for an access at any offset of 32 bits, or whose
-- code has no byte of MLOAD, MSTORE or MSTORE8. Let instructions that touch the stack alone, PUSH
-- and stubs included, stand from pc to the end of code of bytes that is smaller than 2 ^ 31, with 5
-- of gas for each at the least, and the items be words. Where the list of the items goes through
-- their effects in turn, execution on the bytes succeeds and leaves the list that comes out in the
-- bytes of the stack.
pub execute_machine-evaluate :
    (g : Regions) (m : Machine) (f : Frame) (is : List Instr) (k : ℕ) (after : List Word)
    → IsSpread g
    → Holds g m f
    → HasRoom g f.context
    → IsStorageFree f.context
    → All IsPlain is
    → IsPlaced f.context f.pc is
    → HasBytes f.context
    → f.context.code_size < 2 ^ 31
    → All IsWord (items_at m)
    → m.gas_remaining ≡ pos k
    → 5 * length is ≤ k
    → evaluate f.context f.pc is (items_at m) ≡ some after
    → (out : Machine) × (execute_message m ≡ some out)
      × (out.state ≡ completed_success)
      × (items_at out ≡ after)
execute_machine-evaluate g m f is k after apart h room free plain placed bytes small words gas
      enough e =
    let listed = items_at-items g m f h in
    let fits = h.fields.stack_fits in
    let (a, ran, done, left) =
      execute_message-evaluate false f is k after plain placed bytes small fits
        (subst (All IsWord) listed words) (sym h.fields.gas_remaining ∙ gas) enough
        (ap (evaluate f.context f.pc is) (sym listed) ∙ e) in
    let (a', b, ran', ran_b, same) = optimized-eq-jumptable false f fits free in
    let (out, b', ran_out, ran_b', holds) =
      riscv-Refines g m f apart h (HasRoom-StaysInRoom g f fits room) in
    let a_same : a ≡ a' = cc (ran, ran') in
    let b_same : b ≡ b' = cc (ran_b, ran_b') in
    let (success, items_b) =
      same_success a b after (subst (λ x. SameRun x b) (sym a_same) same) done left in
    let holds_b : Holds g out b.frame =
      subst (λ (x : Run). Holds g out x.frame) (sym b_same) holds in
    (out, ran_out, holds_b.fields.state ∙ success, items_at-items g out b.frame holds_b ∙ items_b)
