-- ===== src/Demo/Witness.antt =====
-- The witness of zisk_demo/block_execution_demo.cpp: a header, then the accounts, then the storage, in one
-- buffer, and the accounts of a block in it.
pub mod Laws
use metaru.Common.{ℕ, ◌+◌, ◌*◌, List, [], ◌∷◌, replicate, length, set_at}
use metaru.Word.{Word, zero_word}
use metaru.Accounts.{AccountEntry, Accounts}
use metaru.Demo.{Transaction, Block, set_u256}

-- The header's fields that are written, the entries, and the size of the buffer.
pub record WitnessMemory : Type 0 where
  pub account_count : ℕ
  pub max_accounts : ℕ
  pub accounts_ptr : ℕ
  pub storage_count : ℕ
  pub max_storage : ℕ
  pub storage_ptr : ℕ
  pub accounts : Accounts
  pub size : ℕ

-- An entry of zero bytes.
abbrev pub blank : AccountEntry
blank = record {
  address = replicate 20 0;
  balance = zero_word;
  nonce = 0;
  code_hash = zero_word;
  code_size = 0;
  code_offset = 0;
  is_warm = 0;
}

-- The constructor, on a buffer of zeros.
abbrev pub new_witness : ℕ → ℕ → WitnessMemory
new_witness account_count storage_count =
    let header_size : ℕ = 64 in
    let accounts_size : ℕ = account_count * 128 in
    let storage_size : ℕ = storage_count * 124 in
    record {
      account_count = 0;
      max_accounts = account_count;
      accounts_ptr = header_size;
      storage_count = 0;
      max_storage = storage_count;
      storage_ptr = header_size + accounts_size;
      accounts = λ _. blank;
      size = header_size + accounts_size + storage_size;
    }

-- &accounts[account_count++], with what is then written there.
abbrev pub append : (AccountEntry → AccountEntry) → WitnessMemory → WitnessMemory
append write w = record w {
  account_count = w.account_count + 1;
  accounts = set_at w.accounts w.account_count (write (w.accounts w.account_count));
}

abbrev pub write_coinbase : List ℕ → AccountEntry → AccountEntry
write_coinbase address e = record e {
  address = address;
  balance = set_u256 1000000000000000000;
  nonce = 0;
  is_warm = 1;
}

abbrev pub write_sender : List ℕ → AccountEntry → AccountEntry
write_sender address e = record e {
  address = address;
  balance = set_u256 10000000000000000000;
  nonce = 0;
  is_warm = 1;
}

abbrev pub write_recipient : List ℕ → AccountEntry → AccountEntry
write_recipient address e = record e {
  address = address;
  balance = set_u256 0;
  nonce = 0;
  code_size = 0;
  is_warm = 0;
}

-- The loop over the transactions.
unfoldable pub add_parties : List Transaction → WitnessMemory → WitnessMemory
add_parties [] w = w
add_parties (tx ∷ txs) w =
    add_parties txs (append (write_recipient tx.target) (append (write_sender tx.origin) w))

unfoldable pub build_block_witness : Block → WitnessMemory
unfolding add_parties
build_block_witness block =
    let count : ℕ = length block.transactions * 3 + 1 in
    add_parties block.transactions (append (write_coinbase block.coinbase) (new_witness count 100))
