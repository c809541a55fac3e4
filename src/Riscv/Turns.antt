-- ===== src/Riscv/Turns.antt =====
-- A turn of the loop does on bytes what it does on a frame.
use metaru.Common.{
  ℕ, ◌+◌, ◌^◌, ◌<◌, ◌≡◌, refl, ap, inl, inr, Option, none, some, List, Bool-cases, true, false,
  arith, ◌==◌, ltb, if◌then◌else◌,
}
use metaru.Common.Int.{pos, ◌-ℤ◌, ltb_ℤ}
use metaru.Frame.{Frame, Context}
use metaru.Frame
use metaru.Loop.{Run, Progress, Event, signed_size}
use metaru.Loop
use metaru.Evm
use metaru.Jumptable.Ops.{OpResult}
use metaru.Jumptable
use metaru.Optimized
use metaru.Optimized.Run.{decode}
use metaru.Optimized.Bounds.{decode-IsShort}
use metaru.Riscv
use metaru.Riscv.{Machine}
use metaru.Riscv.Run.{Turn}
use metaru.Riscv.Holds.{Regions, IsSpread, Holds}
use metaru.Riscv.Simulation.{Same, Simulates, halt-Holds, state-Holds}
use metaru.Riscv.Instructions.{IsReaching, perform_sim}

-- The turns end alike, on bytes that hold the frame.
abbrev pub TurnHolds : Regions → Turn → Progress → Type 0
TurnHolds g (Turn.next m) (Progress.next r) = Holds g m r.frame
TurnHolds g (Turn.returned m) (Progress.returned r) = Holds g m r.frame
TurnHolds g _ _ = ⊥

-- The parts of a turn on both sides.
module _ (g : Regions) (m : Machine) (f : Frame) (h : Holds g m f) where
  paid-Holds :
      (k : ℕ)
      → Holds g
          (record m { gas_remaining = m.gas_remaining -ℤ pos k })
          (record f { gas_remaining = f.gas_remaining -ℤ pos k })
  paid-Holds k = record {
    fields = ground (arith, h.fields, ap (λ z. z -ℤ pos k) h.fields.gas_remaining);
    content = h.content;
  }

  advance-Holds :
      (n : ℕ) → Holds g (if ltb 0 n then record m { pc = m.pc + n } else m) (Evm.Run.advance n f)
  advance-Holds n = elim (Bool-cases (ltb 0 n)) [
    | inl forth ↦ rw forth (record {
      fields = ground (arith, h.fields, ap (λ k. k + n) h.fields.pc);
      content = h.content;
    })
    | inr stay ↦ rw stay h
  ]

  mark-Holds :
      Holds g
        (if m.state == 1 then Riscv.halt 4 m else m)
        (if f.state == 1 then Frame.halt 4 f else f)
  mark-Holds = elim (Bool-cases (f.state == 1)) [
    | inl on ↦
        let on_too : (m.state == 1) ≡ true = rw h.fields.state on in
        rw (on_too, on) (halt-Holds g m f h 4)
    | inr off ↦ let off_too : (m.state == 1) ≡ false = rw h.fields.state off in rw (off_too, off) h
  ]

  pub finish-Holds :
      (events : List Event)
      → Holds g (Riscv.Run.finish m) (Loop.finish (record { frame = f; events = events })).frame
  finish-Holds events = elim (Bool-cases (f.state == 1)) [
    | inl on ↦
        let on_too : (m.state == 1) ≡ true = rw h.fields.state on in
        rw (on_too, on) (state-Holds g m f h 7)
    | inr off ↦ let off_too : (m.state == 1) ≡ false = rw h.fields.state off in rw (off_too, off) h
  ]

  pub running_same : Riscv.Run.running m ≡ Loop.running f
  running_same = rw (h.fields.pc, h.fields.code_size, h.fields.state) refl

  opcode_same : f.pc < f.context.code_size → m.bytes (m.code_ptr + m.pc) ≡ f.context.code f.pc
  opcode_same inside =
      rw (h.fields.code_base, h.fields.pc)
        (h.content.code_at f.pc (omega (arith, h.fields.code_fits)))

module _ (g : Regions) (apart : IsSpread g) where
  settle_holds :
      (events : List Event) (o : Option OpResult × Machine) (p : Option OpResult × Frame)
      → Simulates g Same o p
      → TurnHolds g (Riscv.Run.settle o) (Jumptable.Run.settle false events p)
  unfolding Riscv.Run.settle Jumptable.Run.settle
  settle_holds events (none, m) (some y, f) s = absurd s.answers
  settle_holds events (some x, m) (none, f) s = absurd s.answers
  settle_holds events (none, m) (none, f) s = mark-Holds g m f s.holds
  settle_holds events (some x, m) (some y, f) s =
      let same : ltb_ℤ m.gas_remaining (pos y.gas_cost) ≡ ltb_ℤ f.gas_remaining (pos y.gas_cost) =
        ap (λ z. ltb_ℤ z (pos y.gas_cost)) s.holds.fields.gas_remaining in
      rw (s.answers) (elim (Bool-cases (ltb_ℤ f.gas_remaining (pos y.gas_cost))) [
        | inl low ↦ rw (same, low) (halt-Holds g m f s.holds 1)
        | inr enough ↦
            rw (same, enough)
              (advance-Holds g _ _ (paid-Holds g m f s.holds y.gas_cost) y.pc_increment)
      ])

  pub round-Holds :
      (m : Machine) (r : Run)
      → Holds g m r.frame
      → IsReaching g r.frame (decode (r.frame.context.code r.frame.pc))
      → Loop.running r.frame ≡ true
      → TurnHolds g (Riscv.Run.round m) (Optimized.Run.round false r)
  unfolding Riscv.Run.round Optimized.Run.round Jumptable.Run.round_of Riscv.Run.dispatch
      Optimized.Run.dispatch
  round-Holds m r h memory go =
      let f = r.frame in
      let inside : f.pc < signed_size f.context.code_size = ground arith in
      let bounds : (f.pc < f.context.code_size) × (f.context.code_size < 2 ^ 31) = ground arith in
      let i = decode (f.context.code f.pc) in
      let low : ltb_ℤ m.gas_remaining (pos 3) ≡ ltb_ℤ f.gas_remaining (pos 3) =
        ap (λ z. ltb_ℤ z (pos 3)) h.fields.gas_remaining in
      rw (low, opcode_same g m f h bounds.0)
        (elim (Bool-cases (ltb_ℤ f.gas_remaining (pos 3))) [
          | inl short ↦ rw short (halt-Holds g m f h 1)
          | inr enough ↦ rw enough (
              settle_holds r.events _ _ (
                perform_sim g apart m f h i bounds.0 bounds.1 (decode-IsShort (f.context.code f.pc))
                  memory))
        ])
