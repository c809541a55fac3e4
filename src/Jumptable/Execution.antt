-- ===== src/Jumptable/Execution.antt =====
-- Whole programs of instructions that touch the stack alone, run by the loop of
-- src/evm_jumptable.cpp.
use metaru.Common.{
  ℕ, zero, suc, ◌+◌, ◌*◌, ◌-◌, ◌^◌, ◌≤◌, ◌<◌, ◌≡◌, refl, ◌∙◌, sym, subst, Option, none, some, List,
  [], ◌∷◌, All, All-append, All-replicate, arith, replicate, length, Bool, true, false,
  length-append, length-replicate,
}
use metaru.Common.Options.{bind_some}
use metaru.Common.Int.{pos, ◌-ℤ◌, ltb_ℤ}
use metaru.Word.{Word, IsWord, IsBytes}
use metaru.Word.Laws.{zero_word-IsWord}
use metaru.Frame.{Frame, Context, code_executing, completed_success}
use metaru.Frame.Items.{items}
use metaru.Frame.Memory.{read_bytes}
use metaru.Frame.Memory.Laws.{length-read_bytes}
use metaru.Instr.{Instr}
use metaru.Loop.{Run, Event, next, trace, running, finish}
use metaru.Loop.Steps.{IsStep, turn, Reach, here, more, by_test, start, execute_iff}
use metaru.Jumptable.Ops.{OpResult}
use metaru.Jumptable.Table.{decode}
use metaru.Jumptable.Run.{perform, dispatch, settle, round_of, round, execute_message}
use metaru.Jumptable.Effects.{IsTame, perform-IsTame, dispatch-IsTame}
use metaru.Jumptable.Rounds.{round_of-Spends}
use metaru.Jumptable.Items.{left_on_stack}
use metaru.Jumptable.Words.{AllSome, effect-AllSome, push-AllSome}
use metaru.Jumptable.Programs.{
  width, data_at, effect_at, evaluate, IsPlaced, IsPlain, IsSimple, perform-IsSimple, perform_at,
}

-- The code is of bytes.
abbrev pub HasBytes : Context → Type 0
HasBytes c = (i : ℕ) → c.code i < 256

read_bytes-IsBytes : (s : ℕ → ℕ) (i n : ℕ) → ((k : ℕ) → s k < 256) → IsBytes (read_bytes s i n)
unfolding read_bytes
read_bytes-IsBytes s i zero h = tt
read_bytes-IsBytes s i (suc n) h = (h i, read_bytes-IsBytes s (i + 1) n h)

data_at-IsWord : (c : Context) (pc n : ℕ) → HasBytes c → n ≤ 32 → IsWord (data_at c pc n)
data_at-IsWord c pc n h k = (
  length-append (replicate (32 - n) 0) (read_bytes c.code (pc + 1) n)
      ∙ rw (length-replicate {A = ℕ} (32 - n) 0, length-read_bytes c.code (pc + 1) n) (omega arith),
  All-append _ _ _ (All-replicate _ (32 - n) 0 (omega arith))
      (read_bytes-IsBytes c.code (pc + 1) n h),
)

effect_at-AllSome :
    (c : Context) (pc : ℕ) (i : Instr) (stack : List Word)
    → HasBytes c
    → IsPlain i
    → All IsWord stack
    → AllSome (effect_at c pc i stack)
effect_at-AllSome c pc (Instr.push n) stack b p h =
    push-AllSome _ stack (data_at-IsWord c pc n b p) h
effect_at-AllSome c pc Instr.push0 stack b p h = push-AllSome _ stack zero_word-IsWord h
effect_at-AllSome c pc i stack b p h = effect-AllSome i stack h

-- A run in the code of `c` at `pc`, with `stack` and enough gas for `left` instructions.
record IsAt (c : Context) (at left : ℕ) (stack : List Word) (r : Run) : Type 0 where
  context : r.frame.context ≡ c
  pc : r.frame.pc ≡ at
  state : r.frame.state ≡ code_executing
  gas : (k : ℕ) × (r.frame.gas_remaining ≡ pos k) × (5 * left ≤ k)
  fits : r.frame.stack_size ≤ 1024
  listed : items r.frame ≡ stack
  words : All IsWord stack

settle_next :
    (traced : Bool) (events : List Event) (f : Frame) (i : Instr) (o : Option OpResult × Frame)
    (left k : ℕ) (stack : List Word)
    → IsTame f o
    → IsSimple f i o
    → left_on_stack o ≡ some stack
    → All IsWord stack
    → f.state ≡ code_executing
    → f.stack_size ≤ 1024
    → f.gas_remaining ≡ pos k
    → 5 * suc left ≤ k
    → 0 < width i
    → (s : Run) × (settle traced events o ≡ next s) × IsAt f.context (f.pc + width i) left stack s
unfolding settle ◌-ℤ◌
settle_next traced events f i (none, g) left k stack t m e w st fit gas enough wide = absurd (cc e)
settle_next traced events f i (some x, g) left k stack t m e w st fit gas enough wide =
    let (step, price) = m.result x refl in
    let paid : Frame = record g { gas_remaining = g.gas_remaining -ℤ pos x.gas_cost } in
    (
      record {
        frame = record paid { pc = paid.pc + x.pc_increment };
        events =
            trace traced
              (Event.post_execution paid
                (record { gas_cost = x.gas_cost; halt_reason = 0; pc_increment = x.pc_increment }))
              events;
      },
      ground arith,
      record {
        context = t.context;
        pc = cc (m.pc, step);
        state = m.state ∙ st;
        gas = (k - x.gas_cost, ground arith, omega arith);
        fits = t.fits fit;
        listed = cc e;
        words = w;
      },
    )

-- The loop's test.
running_inside :
    (f : Frame)
    → f.state ≡ code_executing
    → f.context.code_size < 2 ^ 31
    → f.pc < f.context.code_size
    → running f ≡ true
running_inside f state small inside = ground arith

running_at_end :
    (f : Frame) → f.context.code_size < 2 ^ 31 → f.pc ≡ f.context.code_size → running f ≡ false
running_at_end f small end = ground arith

module _ (traced : Bool) (c : Context) (small : c.code_size < 2 ^ 31) (bytes : HasBytes c) where
  -- A turn of the loop on a plain instruction.
  round_next :
      (at left : ℕ) (i : Instr) (stack after : List Word) (r : Run)
      → IsAt c at (suc left) stack r
      → decode (c.code at) ≡ i
      → IsPlain i
      → 0 < width i
      → at + width i ≤ c.code_size
      → effect_at c at i stack ≡ some after
      → (s : Run) × IsStep (round traced) r s × IsAt c (at + width i) left after s
  unfolding round round_of dispatch
  round_next at left i stack after r h found plain wide inside e =
      let (k, gas, enough) = h.gas in
      let opcode : decode (r.frame.context.code r.frame.pc) ≡ i = rw (h.context, h.pc) found in
      let here_is : left_on_stack (perform i r.frame) ≡ some after =
        perform_at i r.frame plain h.fits (subst (All IsWord) (sym h.listed) h.words)
          (rw (h.context, h.pc) inside) (rw h.context small)
        ∙ rw (h.context, h.pc, h.listed) e in
      let words : All IsWord after =
        subst AllSome e (effect_at-AllSome c at i stack bytes plain h.words) in
      let (s, settled, at_s) =
        settle_next traced (trace traced (Event.pre_execution r.frame) r.events) r.frame i
          (perform i r.frame) left k after (perform-IsTame r.frame i)
          (perform-IsSimple r.frame i plain) here_is words h.state h.fits gas enough wide in
      let go : running r.frame ≡ true =
        running_inside r.frame h.state (rw h.context small) (rw (h.pc, h.context) (omega arith)) in
      let low : ltb_ℤ r.frame.gas_remaining (pos 3) ≡ false = rw gas (ground arith) in
      (
        s,
        turn go (rw (low, opcode) settled),
        subst (λ d. IsAt d (at + width i) left after s) h.context
            (subst (λ p. IsAt r.frame.context (p + width i) left after s) h.pc at_s),
      )

  IsPlaced-le : (is : List Instr) (at : ℕ) → IsPlaced c at is → at ≤ c.code_size
  IsPlaced-le [] at h = omega arith
  IsPlaced-le (i ∷ is) at h = omega (arith, IsPlaced-le is (at + width i) h.1)

  width-pos : (i : Instr) → 0 < width i
  width-pos (Instr.push n) = omega arith
  width-pos _ = omega arith

  run_through :
      (is : List Instr) (at : ℕ) (stack after : List Word) (first r : Run)
      → All IsPlain is
      → IsPlaced c at is
      → evaluate c at is stack ≡ some after
      → Reach (round traced) first r
      → IsAt c at (length is) stack r
      → (s : Run) × Reach (round traced) first s × IsAt c c.code_size 0 after s
  unfolding evaluate
  run_through [] at stack after first r plain placed e reach h =
      let same : stack ≡ after = cc e in
      (r, reach, subst (λ n. IsAt c n 0 after r) placed (subst (λ z. IsAt c at 0 z r) same h))
  run_through (i ∷ is) at stack after first r plain placed e reach h =
      let (middle, worked, rest) =
        bind_some (effect_at c at i stack) (evaluate c (at + width i) is) after e in
      let (s, step, at_s) =
        round_next at (length is) i stack middle r h placed.0 plain.0 (width-pos i)
          (IsPlaced-le is (at + width i) placed.1) worked in
      run_through is (at + width i) middle after first s plain.1 placed.1 rest (more reach step)
        at_s

-- Let instructions that touch the stack alone, PUSH and stubs included, stand from pc to the end of
-- code of bytes that is smaller than 2 ^ 31, with 5 of gas for each at the least, and at most 1024
-- items, all words, on the stack. Where the list of the items goes through their effects in turn,
-- execution succeeds and leaves the list that comes out.
pub execute_message-evaluate :
    (traced : Bool) (f : Frame) (is : List Instr) (k : ℕ) (after : List Word)
    → All IsPlain is
    → IsPlaced f.context f.pc is
    → HasBytes f.context
    → f.context.code_size < 2 ^ 31
    → f.stack_size ≤ 1024
    → All IsWord (items f)
    → f.gas_remaining ≡ pos k
    → 5 * length is ≤ k
    → evaluate f.context f.pc is (items f) ≡ some after
    → (out : Run) × (execute_message traced f ≡ some out)
      × (out.frame.state ≡ completed_success)
      × (items out.frame ≡ after)
unfolding execute_message round
execute_message-evaluate traced f is k after plain placed bytes small fits words gas enough e =
    let first : IsAt f.context f.pc (length is) (items f) (start f) = record {
      context = refl;
      pc = refl;
      state = refl;
      gas = (k, gas, enough);
      fits = fits;
      listed = refl;
      words = words;
    } in
    let (s, reach, h) =
      run_through traced f.context small bytes is f.pc (items f) after (start f) (start f) plain
        placed e here first in
    let over : running s.frame ≡ false =
      running_at_end s.frame (rw h.context small) (rw (h.pc, h.context) refl) in
    (
      finish s,
      (execute_iff (round traced)
            (round_of-Spends dispatch (λ opcode g. dispatch-IsTame g opcode) traced) f (finish s)).1
          (s, reach, by_test over refl),
      rw h.state refl,
      rw h.state h.listed,
    )
