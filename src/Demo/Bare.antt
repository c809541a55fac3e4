-- ===== src/Demo/Bare.antt =====
-- zisk_demo/block_execution_demo_baremetal.cpp: the same demo on arrays of a fixed size.
pub mod Laws
use metaru.Common.{
  get_or, replicate, ◌==◌, ℕ, zero, suc, ◌+◌, ◌*◌, ◌-◌, Option, none, some, List, [], ◌∷◌, false,
  ltb, if◌then◌else◌, set_at, replicate, u32, u8, leb,
}
use metaru.Common.Options.{◌>>=◌}
use metaru.Word.{Word}
use metaru.Frame.{Frame}
use metaru.Loop.{Run}
use metaru.Optimized.Run.{execute_message}
use metaru.Demo.{set_u256, set_address, big_endian}
use metaru.Demo.{set_u256, digits}
use metaru.Common.Hex.{hex_digit}
use metaru.Demo.Witness.{
  WitnessMemory, new_witness, append, write_coinbase, write_sender, write_recipient,
}
use metaru.Demo.Execution.{init_frame, Receipt, receipt, balances, Report}

-- struct Transaction, whose data is an array of 1024 bytes of which `data_size` count.
pub record BareTransaction : Type 0 where
  pub origin : List ℕ
  pub target : List ℕ
  pub value : Word
  pub payload : ℕ → ℕ
  pub data_size : ℕ
  pub gas_limit : ℕ
  pub gas_price : Word

-- struct Block, with an array of 10 transactions of which `tx_count` count.
pub record BareBlock : Type 0 where
  pub number : ℕ
  pub coinbase : List ℕ
  pub gas_limit : ℕ
  pub timestamp : ℕ
  pub transactions : ℕ → BareTransaction
  pub tx_count : ℕ

abbrev pub max_tx_data_size : ℕ
max_tx_data_size = 1024

abbrev pub max_transactions : ℕ
max_transactions = 10

-- header + accounts + storage
abbrev pub max_witness_size : ℕ
max_witness_size = 64 + 128 * 20 + 124 * 100

-- sscanf with "%2x" at two characters, as `scan_byte` has them, into an int, which it leaves where
-- there is no digit.
unfoldable pub scan_int : ℕ → ℕ → ℕ → ℕ
unfolding hex_digit
scan_int high low old = elim (hex_digit high) [
  | none ↦ old
  | some h ↦ elim (hex_digit low) [ none ↦ h | some l ↦ h * 16 + l ]
]

-- The loop of set_address from index `i`. The int of each turn is not initialised: `byte i` is what
-- is in it.
unfoldable pub bare_set_address : (ℕ → ℕ) → ℕ → List ℕ → List ℕ → List ℕ
unfolding scan_int
bare_set_address byte i (old ∷ dest) (high ∷ (low ∷ hex)) =
    u8 (scan_int high low (byte i)) ∷ bare_set_address byte (i + 1) dest hex
bare_set_address byte i dest _ = dest

-- The two transactions of the mock block, in an array whose other elements are never read.
unfoldable pub create_bare_mock_block : (ℕ → ℕ) → BareBlock
unfolding bare_set_address set_u256
create_bare_mock_block byte =
    let address_of : List ℕ → List ℕ = bare_set_address byte 0 (replicate 20 0) in
    let first : BareTransaction = record {
      origin = address_of (digits 49 49);
      target = address_of (digits 50 50);
      value = set_u256 1000000000000000000;
      payload = λ _. 0;
      data_size = 0;
      gas_limit = 21000;
      gas_price = set_u256 20000000000;
    } in
    let second : BareTransaction = record {
      origin = address_of (digits 49 49);
      target = address_of (digits 51 51);
      value = set_u256 0;
      payload = λ i. get_or (0x60 ∷ 0x05 ∷ 0x60 ∷ 0x0a ∷ 0x01 ∷ 0x00 ∷ []) i 0;
      data_size = 6;
      gas_limit = 100000;
      gas_price = set_u256 20000000000;
    } in
    record {
      number = 12345;
      coinbase = address_of (replicate 40 49);
      gas_limit = 30000000;
      timestamp = 1699999999;
      transactions = λ i. if i == 0 then first else second;
      tx_count = 2;
    }

-- The loop over the transactions from index `i`, with `left` to go.
unfoldable pub add_parties_from : (ℕ → BareTransaction) → ℕ → ℕ → WitnessMemory → WitnessMemory
add_parties_from transactions i zero w = w
add_parties_from transactions i (suc left) w =
    let tx = transactions i in
    let sent = append (write_sender tx.origin) w in
    add_parties_from transactions (i + 1) left (append (write_recipient tx.target) sent)

-- The buffer of `max_witness_size` bytes stands for that of the size which the layout asks for.
unfoldable pub build_bare_witness : BareBlock → WitnessMemory
unfolding add_parties_from
build_bare_witness block =
    let count : ℕ = block.tx_count * 3 + 1 in
    add_parties_from block.transactions 0 block.tx_count
      (append (write_coinbase block.coinbase) (new_witness count 100))

-- memset over the buffer, then memcpy of `data_size` bytes.
unfoldable pub new_bare_frame : BareTransaction → Frame
new_bare_frame tx =
    init_frame tx.origin tx.target tx.value tx.gas_limit tx.data_size
      (λ i. if ltb i tx.data_size then tx.payload i else 0)

unfoldable pub run_from : (ℕ → BareTransaction) → ℕ → ℕ → Option (List Receipt)
unfolding new_bare_frame receipt
run_from transactions i zero = some []
run_from transactions i (suc left) = do
  out ← execute_message false (new_bare_frame (transactions i))
  rest ← run_from transactions (i + 1) left
  some (receipt out.frame ∷ rest)

unfoldable pub execute_bare_block : BareBlock → Option Report
unfolding run_from build_bare_witness balances
execute_bare_block block = do
  let w = build_bare_witness block
  receipts ← run_from block.transactions 0 block.tx_count
  some (record { receipts = receipts; final_state = balances w.accounts 0 w.account_count })
