-- ===== src/Demo/Bare/Laws.antt =====
-- The demo on fixed arrays does what the one on vectors does, and where its witness fits its buffer.
use metaru.Common.{
  ℕ, zero, suc, ◌+◌, ◌*◌, ◌≡◌, ◌≤◌, ◌↔◌, refl, ap, ◌∙◌, fun_ext, List, [], ◌∷◌, ltb, if◌then◌else◌,
  length, get_or, arith,
}
use metaru.Demo.{Transaction, Block}
use metaru.Demo.Witness.{WitnessMemory, add_parties, build_block_witness}
use metaru.Demo.Witness.Laws.{build_block_witness_lem}
use metaru.Demo.Execution.{run_all, new_frame, execute_block}
use metaru.Demo.Bare.{
  BareTransaction, BareBlock, add_parties_from, build_bare_witness, new_bare_frame, run_from,
  execute_bare_block, max_witness_size, max_transactions,
}

-- The first `n` elements of an array from index `i` on.
unfoldable pub listed : {A : Type 0} → (ℕ → A) → ℕ → ℕ → List A
listed a i zero = []
listed a i (suc n) = a i ∷ listed a (i + 1) n

-- The vectors that the arrays stand for.
abbrev pub to_transaction : BareTransaction → Transaction
to_transaction tx = record {
  origin = tx.origin;
  target = tx.target;
  value = tx.value;
  payload = listed tx.payload 0 tx.data_size;
  gas_limit = tx.gas_limit;
  gas_price = tx.gas_price;
}

abbrev pub to_block : BareBlock → Block
to_block block = record {
  number = block.number;
  coinbase = block.coinbase;
  gas_limit = block.gas_limit;
  timestamp = block.timestamp;
  transactions = listed (λ i. to_transaction (block.transactions i)) 0 block.tx_count;
}

length-listed : {A : Type 0} (a : ℕ → A) (i n : ℕ) → length (listed a i n) ≡ n
unfolding listed
length-listed a i zero = refl
length-listed a i (suc n) = ap suc (length-listed a (i + 1) n)

get_or-listed :
    (a : ℕ → ℕ) (i n k : ℕ) → get_or (listed a i n) k 0 ≡ (if ltb k n then a (i + k) else 0)
unfolding listed
get_or-listed a i zero k = ground arith
get_or-listed a i (suc n) zero = ground arith
get_or-listed a i (suc n) (suc k) = ground (arith, get_or-listed a (i + 1) n k)

new_frame-to_transaction :
    (tx : BareTransaction) → new_frame (to_transaction tx) ≡ new_bare_frame tx
unfolding new_frame new_bare_frame
new_frame-to_transaction tx =
    let code : (λ i. get_or (listed tx.payload 0 tx.data_size) i 0)
        ≡ (λ i. if ltb i tx.data_size then tx.payload i else 0) =
      fun_ext (λ k.
        let start : 0 + k ≡ k = omega arith in
        get_or-listed tx.payload 0 tx.data_size k ∙ rw start refl) in
    rw (length-listed tx.payload 0 tx.data_size, code) refl

add_parties-listed :
    (transactions : ℕ → BareTransaction) (i left : ℕ) (w : WitnessMemory)
    → add_parties (listed (λ k. to_transaction (transactions k)) i left) w
      ≡ add_parties_from transactions i left w
unfolding add_parties add_parties_from listed
add_parties-listed transactions i zero w = refl
add_parties-listed transactions i (suc left) w = add_parties-listed transactions (i + 1) left _

run_all-listed :
    (transactions : ℕ → BareTransaction) (i left : ℕ)
    → run_all (listed (λ k. to_transaction (transactions k)) i left) ≡ run_from transactions i left
unfolding run_all run_from listed
run_all-listed transactions i zero = refl
run_all-listed transactions i (suc left) =
    rw (new_frame-to_transaction (transactions i), run_all-listed transactions (i + 1) left) refl

build_block_witness-to_block :
    (block : BareBlock) → build_block_witness (to_block block) ≡ build_bare_witness block
unfolding build_block_witness build_bare_witness
build_block_witness-to_block block =
    rw (length-listed (λ i. to_transaction (block.transactions i)) 0 block.tx_count)
      (add_parties-listed block.transactions 0 block.tx_count _)

-- The demo on fixed arrays reports what the demo on vectors does of the same block.
pub execute_block-to_block :
    (block : BareBlock) → execute_block (to_block block) ≡ execute_bare_block block
unfolding execute_block execute_bare_block
execute_block-to_block block =
    rw
      (
        execute_block,
        build_block_witness-to_block block,
        run_all-listed block.transactions 0 block.tx_count,
      )
      refl

-- The buffer takes the header, the accounts and 100 storage entries exactly up to 6 transactions.
-- The accounts that are written stay in it for all 10.
pub build_bare_witness-size :
    (block : BareBlock)
    → block.tx_count ≤ max_transactions
    → let w = build_bare_witness block in
      ((w.size ≤ max_witness_size) ↔ (block.tx_count ≤ 6))
      × (w.accounts_ptr + w.account_count * 128 ≤ max_witness_size)
build_bare_witness-size block h =
    let counted = length-listed (λ i. to_transaction (block.transactions i)) 0 block.tx_count in
    let known = build_block_witness_lem (to_block block) in
    rw (← build_block_witness-to_block block) (
      (λ fits. omega (arith, counted, known.0.whole), λ few. omega (arith, counted, known.0.whole)),
      omega (arith, counted, known.0.behind_header, known.1),
    )
