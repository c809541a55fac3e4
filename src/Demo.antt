-- ===== src/Demo.antt =====
-- zisk_demo/block_execution_demo.cpp: a block of transactions that runs on the in-place interpreter,
-- with accounts in a witness. Its data, and its helpers on addresses and numbers.
pub mod Text
pub mod Witness
pub mod Execution
pub mod Bare
use metaru.Common.{
  ℕ, zero, suc, ◌+◌, ◌-◌, ◌*◌, ◌/◌, ◌%◌, ◌^◌, Option, none, some, List, [], ◌∷◌, ◌++◌, ◌==◌, ltb,
  leb, if◌then◌else◌, replicate, u8,
}
use metaru.Common.Hex.{hex_digit}
use metaru.Word.{Word}

pub record Transaction : Type 0 where
  pub origin : List ℕ
  pub target : List ℕ
  pub value : Word
  pub payload : List ℕ
  pub gas_limit : ℕ
  pub gas_price : Word

pub record Block : Type 0 where
  pub number : ℕ
  pub coinbase : List ℕ
  pub gas_limit : ℕ
  pub timestamp : ℕ
  pub transactions : List Transaction

-- sscanf with "%2hhx" at two characters, neither of them white space, a sign or an x: the number
-- of the digits before the first character that is none; with no digit the byte is left.
unfoldable pub scan_byte : ℕ → ℕ → ℕ → ℕ
unfolding hex_digit
scan_byte high low old = elim (hex_digit high) [
  | none ↦ old
  | some h ↦ elim (hex_digit low) [ none ↦ h | some l ↦ u8 (h * 16 + l) ]
]

-- The loop over the bytes of `dest`, two characters each.
unfoldable pub set_address : List ℕ → List ℕ → List ℕ
unfolding scan_byte
set_address (old ∷ dest) (high ∷ (low ∷ hex)) = scan_byte high low old ∷ set_address dest hex
set_address dest _ = dest

-- (value >> (i * 8)) & 0xFF, for i from n - 1 down to 0.
unfoldable pub big_endian : ℕ → ℕ → List ℕ
big_endian zero value = []
big_endian (suc i) value = (value / 2 ^ (i * 8)) % 256 ∷ big_endian i value

unfoldable pub set_u256 : ℕ → Word
unfolding big_endian
set_u256 value = replicate 24 0 ++ big_endian 8 value

-- An address of one digit, zeros, and one digit.
abbrev pub digits : ℕ → ℕ → List ℕ
digits first last = first ∷ replicate 38 48 ++ last ∷ []

abbrev pub address_of : List ℕ → List ℕ
unfolding set_address
address_of = set_address (replicate 20 0)

abbrev transfer : Transaction
unfolding set_u256
transfer = record {
  origin = address_of (digits 49 49);
  target = address_of (digits 50 50);
  value = set_u256 1000000000000000000;
  payload = [];
  gas_limit = 21000;
  gas_price = set_u256 20000000000;
}

abbrev call : Transaction
unfolding set_u256
call = record {
  origin = address_of (digits 49 49);
  target = address_of (digits 51 51);
  value = set_u256 0;
  payload = 0x60 ∷ 0x05 ∷ 0x60 ∷ 0x0a ∷ 0x01 ∷ 0x00 ∷ [];
  gas_limit = 100000;
  gas_price = set_u256 20000000000;
}

unfoldable pub create_mock_block : Block
unfolding address_of transfer call
create_mock_block = record {
  number = 12345;
  coinbase = address_of (replicate 40 49);
  gas_limit = 30000000;
  timestamp = 1699999999;
  transactions = transfer ∷ call ∷ [];
}
