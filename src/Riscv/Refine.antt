-- ===== src/Riscv/Refine.antt =====
-- execute_message on the bytes refines execute_message of src/evm_optimized.cpp on the frame.
use metaru.Common.{
  ℕ, zero, suc, ◌+◌, ◌<◌, ◌≡◌, refl, ap, ◌∙◌, sym, subst, inl, inr, Option, none, some, Bool-cases,
  true, false, arith,
}
use metaru.Common.Int.{pos_part}
use metaru.Frame.{Frame}
use metaru.Loop.{Run, Progress, Event, signed_size}
use metaru.Loop
use metaru.Loop.Laws.{loop-stops}
use metaru.Optimized
use metaru.Optimized.Run.{decode}
use metaru.Optimized.Ends.{optimized_ends}
use metaru.Riscv
use metaru.Riscv.{Machine}
use metaru.Riscv.Run.{Turn}
use metaru.Riscv.Holds.{Regions, IsSpread, Holds, IsOutside}
use metaru.Riscv.Simulation.{Answers, state-Holds}
use metaru.Loop.Steps.{Reach, here, more, turn, start}
use metaru.Riscv.Room.{StaysInRoom}
use metaru.Riscv.Turns.{TurnHolds, finish-Holds, running_same, round-Holds}

module _ (g : Regions) (apart : IsSpread g) where
  riscv_stops :
      (fuel : ℕ) (m : Machine)
      → Riscv.Run.running m ≡ false
      → Riscv.Run.loop (suc fuel) m ≡ some (Riscv.Run.finish m)
  unfolding Riscv.Run.loop
  riscv_stops fuel m e = rw (e, Riscv.Run.loop)

  riscv_goes :
      (fuel : ℕ) (m : Machine)
      → Riscv.Run.running m ≡ true
      → Riscv.Run.loop (suc fuel) m ≡ elim (Riscv.Run.round m) [
        | Turn.next m' ↦ Riscv.Run.loop fuel m'
        | Turn.returned m' ↦ some m'
      ]
  unfolding Riscv.Run.loop
  riscv_goes fuel m e = rw (e, Riscv.Run.loop)

  frame_goes :
      (fuel : ℕ) (r : Run)
      → Loop.running r.frame ≡ true
      → Loop.loop (Optimized.Run.round false) (suc fuel) r ≡ elim (Optimized.Run.round false r) [
        | Progress.next r' ↦ Loop.loop (Optimized.Run.round false) fuel r'
        | Progress.returned r' ↦ some r'
      ]
  unfolding Loop.loop
  frame_goes fuel r e = rw (e, Loop.loop)

  -- What a turn leaves, where the rest of the loop agrees.
  turn_holds :
      (fuel : ℕ) (t : Turn) (q : Progress)
      → TurnHolds g t q
      → ((m : Machine) (r : Run)
          → q ≡ Progress.next r
          → Holds g m r.frame
          → Answers
              (λ (out : Machine) (end : Run). Holds g out end.frame)
              (Riscv.Run.loop fuel m)
              (Loop.loop (Optimized.Run.round false) fuel r))
      → Answers
          (λ (out : Machine) (end : Run). Holds g out end.frame)
          (elim t [ Turn.next m' ↦ Riscv.Run.loop fuel m' | Turn.returned m' ↦ some m' ])
          (elim q [
            | Progress.next r' ↦ Loop.loop (Optimized.Run.round false) fuel r'
            | Progress.returned r' ↦ some r'
          ])
  turn_holds fuel (Turn.next m) (Progress.next r) h rest = rest m r refl h
  turn_holds fuel (Turn.next m) (Progress.returned r) h rest = absurd h
  turn_holds fuel (Turn.returned m) (Progress.next r) h rest = absurd h
  turn_holds fuel (Turn.returned m) (Progress.returned r) h rest = h

  loop-Holds :
      (fuel : ℕ) (m : Machine) (first r : Run)
      → StaysInRoom g first
      → Reach (Optimized.Run.round false) first r
      → Holds g m r.frame
      → Answers
          (λ (out : Machine) (end : Run). Holds g out end.frame)
          (Riscv.Run.loop fuel m)
          (Loop.loop (Optimized.Run.round false) fuel r)
  unfolding Riscv.Run.loop Loop.loop
  loop-Holds zero m first r room p h = tt
  loop-Holds (suc fuel) m first r room p h = elim (Bool-cases (Loop.running r.frame)) [
    | inr stop ↦
        let stop_too : Riscv.Run.running m ≡ false = running_same g m r.frame h ∙ stop in
        rw (riscv_stops fuel m stop_too, loop-stops (Optimized.Run.round false) fuel r stop)
          (finish-Holds g m r.frame h r.events)
    | inl go ↦
        let go_too : Riscv.Run.running m ≡ true = running_same g m r.frame h ∙ go in
        rw (riscv_goes fuel m go_too, frame_goes fuel r go)
          (turn_holds fuel (Riscv.Run.round m) (Optimized.Run.round false r)
            (round-Holds g apart m r h (room r p go) go)
            (λ m' r' step h'. loop-Holds fuel m' first r' room (more p (turn go step)) h'))
  ]

-- Both run to an end, on bytes that hold the frame.
end_of :
    (g : Regions) (a : Option Machine) (b : Option Run) (r : Run)
    → Answers (λ (out : Machine) (end : Run). Holds g out end.frame) a b
    → b ≡ some r
    → (out : Machine) × (a ≡ some out) × Holds g out r.frame
end_of g none none r h e = absurd (cc e)
end_of g none (some b) r h e = absurd h
end_of g (some a) none r h e = absurd h
end_of g (some a) (some b) r h e =
    let same : b ≡ r = cc e in (a, refl, subst (λ (x : Run). Holds g a x.frame) same h)

-- Let the regions lie apart, and the bytes hold a frame, and let ensure_memory, at each MLOAD,
-- MSTORE and MSTORE8 that src/evm_optimized.cpp comes to on the frame, allow only what lies in the
-- room for memory. Then execution on the bytes returns, that on the frame does, and the bytes that
-- are left hold the frame that is left.
pub riscv-Refines :
    (g : Regions) (m : Machine) (f : Frame)
    → IsSpread g
    → Holds g m f
    → StaysInRoom g (start f)
    → (out : Machine) × (r : Run) × (Riscv.Run.execute_message m ≡ some out)
      × (Optimized.Run.execute_message false f ≡ some r)
      × Holds g out r.frame
unfolding Riscv.Run.execute_message Optimized.Run.execute_message Loop.execute
riscv-Refines g m f apart h room =
    let (r, ends, _) = optimized_ends false f h.fields.stack_fits in
    let begin = record m { state = 1 } in
    let begun =
      loop-Holds g apart (pos_part f.gas_remaining + 2) begin (start f) (start f) room here
        (state-Holds g m f h 1) in
    let (out, ran, holds) = end_of g _ _ r begun ends in
    let fuel : pos_part m.gas_remaining + 2 ≡ pos_part f.gas_remaining + 2 =
      ap (λ z. pos_part z + 2) h.fields.gas_remaining in
    (out, r, ap (λ n. Riscv.Run.loop n begin) fuel ∙ ran, ends, holds)

-- Let the regions lie apart, and the bytes hold a frame, and let ensure_memory, at each MLOAD,
-- MSTORE and MSTORE8 that src/evm_optimized.cpp comes to on the frame, allow only what lies in the
-- room for memory. Then execution on the bytes returns, and has changed no byte outside the stack,
-- memory and storage; nor any byte of the code.
pub execute_message-IsOutside :
    (g : Regions) (m : Machine) (f : Frame)
    → IsSpread g
    → Holds g m f
    → StaysInRoom g (start f)
    → (out : Machine) × (Riscv.Run.execute_message m ≡ some out)
      × ((i : ℕ) → IsOutside g i → out.bytes i ≡ m.bytes i)
      × ((i : ℕ) → i < g.code_size → out.bytes (g.code_ptr + i) ≡ m.bytes (g.code_ptr + i))
execute_message-IsOutside g m f apart h room =
    let (out, r, ran, _, holds) = riscv-Refines g m f apart h room in
    (
      out,
      ran,
      λ i k. holds.content.rest_at i k ∙ sym (h.content.rest_at i k),
      λ i k.
          holds.content.rest_at (g.code_ptr + i)
            (omega (arith, apart.stack_code, apart.memory_code, apart.code_storage))
          ∙ sym (
              h.content.rest_at (g.code_ptr + i)
                (omega (arith, apart.stack_code, apart.memory_code, apart.code_storage))),
    )
