-- ===== src/Demo/Execution/Laws.antt =====
-- A block runs to its report: a receipt for each transaction, and the accounts as they were.
use metaru.Common.{
  ℕ, suc, ◌+◌, ◌≡◌, ◌<◌, ◌≢◌, ◌↔◌, ◌⊎◌, refl, ap, ◌∙◌, some, List, [], ◌∷◌, true, false, length,
  u32, get_or, map, arith, inl, inr,
}
use metaru.Common.Int.{pos, ◌≤ℤ◌}
use metaru.Enums.{MessageFrameState, state_number}
use metaru.Word.{Word}
use metaru.Frame.{code_executing, completed_success}
use metaru.Loop.{Run}
use metaru.Loop.Laws.{execute_ends}
use metaru.Loop.Sound.{IsEnded}
use metaru.Optimized.Run.{execute_message, round}
use metaru.Optimized.Ends.{optimized_ends}
use metaru.Accounts.{AccountEntry, Accounts}
use metaru.Demo.{Transaction, Block}
use metaru.Demo.Witness.{blank, build_block_witness}
use metaru.Demo.Witness.Laws.{listing, build_block_witness_lem}
use metaru.Demo.Execution.{
  new_frame, signed_u64, named, state_name, Receipt, receipt, run_all, balances, Report,
  execute_block,
}

-- The name that is printed is the enum's for five of the eight states.
pub state_name_iff :
    (s : MessageFrameState)
    → (state_name (state_number s) ≡ named s) ↔ (
        (s ≢ MessageFrameState.code_success)
        × (s ≢ MessageFrameState.code_suspended)
        × (s ≢ MessageFrameState.completed_failed))
unfolding state_name
state_name_iff MessageFrameState.not_started = ground arith
state_name_iff MessageFrameState.code_executing = ground arith
state_name_iff MessageFrameState.code_success = ground arith
state_name_iff MessageFrameState.code_suspended = ground arith
state_name_iff MessageFrameState.exceptional_halt = ground arith
state_name_iff MessageFrameState.revert = ground arith
state_name_iff MessageFrameState.completed_failed = ground arith
state_name_iff MessageFrameState.completed_success = ground arith

-- What a receipt tells of a transaction.
pub record IsReceipt (tx : Transaction) (r : Receipt) : Type 0 where
  pub outcome :
      ((r.final_state ≡ named MessageFrameState.exceptional_halt) × (r.succeeded ≡ false))
      ⊎ ((r.final_state ≡ named MessageFrameState.completed_success) × (r.succeeded ≡ true))
  pub gas_le : r.gas_remaining ≤ℤ signed_u64 tx.gas_limit
  pub no_code :
      (0 < length tx.payload)
      ⊎ ((r.succeeded ≡ true)
          × (r.gas_remaining ≡ signed_u64 tx.gas_limit)
          × (r.gas_refund ≡ pos 0))

abbrev pub AllPairs : List Transaction → List Receipt → Type 0
AllPairs [] [] = Unit
AllPairs (tx ∷ txs) (r ∷ rs) = IsReceipt tx r × AllPairs txs rs
AllPairs _ _ = ⊥

-- A frame without code is complete at once.
execute_message-no_code :
    (tx : Transaction) (out : Run)
    → tx.payload ≡ []
    → execute_message false (new_frame tx) ≡ some out
    → (out.frame.state ≡ completed_success)
      × (out.frame.gas_remaining ≡ signed_u64 tx.gas_limit)
      × (out.frame.gas_refund ≡ pos 0)
unfolding execute_message new_frame
execute_message-no_code tx out empty e =
    let size : u32 (length tx.payload) ≡ 0 = rw empty refl in
    execute_ends (round false)
      (λ r.
        (r.frame.state ≡ code_executing)
        × (r.frame.context.code_size ≡ 0)
        × (r.frame.gas_remaining ≡ signed_u64 tx.gas_limit)
        × (r.frame.gas_refund ≡ pos 0))
      (λ r.
        (r.frame.state ≡ completed_success)
        × (r.frame.gas_remaining ≡ signed_u64 tx.gas_limit)
        × (r.frame.gas_refund ≡ pos 0))
      (λ r p go. absurd (ground arith)) (λ r p stop. ground arith) (new_frame tx) out
      (refl, size, refl, refl) e

no_code_or : (code : List ℕ) → (0 < length code) ⊎ (code ≡ [])
no_code_or [] = inr refl
no_code_or (b ∷ code) = inl (omega arith)

receipt-IsReceipt :
    (tx : Transaction) (out : Run)
    → execute_message false (new_frame tx) ≡ some out
    → IsEnded (new_frame tx) out
    → IsReceipt tx (receipt out.frame)
unfolding receipt new_frame state_name
receipt-IsReceipt tx out e ended = record {
  outcome = ground (arith, ended);
  gas_le = ended.0.gas_le;
  no_code = elim (no_code_or tx.payload) [
    | inl some_code ↦ inl some_code
    | inr empty ↦ inr (ground (arith, execute_message-no_code tx out empty e))
  ];
}

run_all-AllPairs :
    (txs : List Transaction) → (rs : List Receipt) × (run_all txs ≡ some rs) × AllPairs txs rs
unfolding run_all new_frame
run_all-AllPairs [] = ([], refl, tt)
run_all-AllPairs (tx ∷ txs) =
    let (out, e, ended) = optimized_ends false (new_frame tx) (omega arith) in
    let (rs, rest, all) = run_all-AllPairs txs in
    (receipt out.frame ∷ rs, rw (e, rest) refl, (receipt-IsReceipt tx out e ended, all))

-- What is printed of an entry.
abbrev pub summary : AccountEntry → List ℕ × Word × ℕ
summary e = (e.address, e.balance, e.nonce)

balances-map :
    (accounts : Accounts) (i : ℕ) (entries : List AccountEntry)
    → ((k : ℕ) → accounts (i + k) ≡ get_or entries k blank)
    → balances accounts i (length entries) ≡ map summary entries
unfolding balances
balances-map accounts i [] at = refl
balances-map accounts i (e ∷ entries) at =
    let here : accounts i ≡ e = ap accounts (omega arith) ∙ at 0 in
    let behind : balances accounts (i + 1) (length entries) ≡ map summary entries =
      balances-map accounts (i + 1) entries (λ k. ap accounts (omega arith) ∙ at (suc k)) in
    rw (here, behind) refl

-- On frames whose regions do not overlap, a block runs to a report. It has a receipt for each
-- transaction in turn, which says success or exceptional halt by the state's right name, with no
-- more gas than the limit; a transaction without code succeeds and keeps its gas. The accounts are
-- listed as the witness was built.
pub execute_block_lem :
    (block : Block)
    → (report : Report) × (execute_block block ≡ some report)
      × AllPairs block.transactions report.receipts
      × (report.final_state ≡ map summary (listing block))
unfolding execute_block
execute_block_lem block =
    let (rs, ran, all) = run_all-AllPairs block.transactions in
    let w = build_block_witness block in
    let full = (build_block_witness_lem block).0 in
    (
      record { receipts = rs; final_state = balances w.accounts 0 w.account_count },
      rw ran refl,
      all,
      rw full.count (
          balances-map w.accounts 0 (listing block)
            (λ k. ap w.accounts (omega arith) ∙ full.entry k)),
    )
