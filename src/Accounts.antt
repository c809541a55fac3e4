-- ===== src/Accounts.antt =====
-- include/account_witness.h: the accounts that a transaction may touch, in one flat array. A pointer
-- to an entry is its index, and nullptr is `none`.
pub mod Laws
use metaru.Common.{
  ℕ, zero, suc, ◌+◌, Option, none, some, List, [], ◌∷◌, Bool, true, false, ◌==◌, ltb, leb,
  if◌then◌else◌, set_at, u64, replicate,
}
use metaru.Common.Search.{search}
use metaru.Word.{Word, same_bytes, is_zero, zero_word}

-- struct AccountEntry (its padding is left out).
pub record AccountEntry : Type 0 where
  pub address : List ℕ
  pub balance : Word
  pub nonce : ℕ
  pub code_hash : Word
  pub code_size : ℕ
  pub code_offset : ℕ
  pub is_warm : ℕ

abbrev pub Accounts : Type 0
Accounts = ℕ → AccountEntry

unfoldable pub find_account : Accounts → ℕ → List ℕ → Option ℕ
unfolding search
find_account entries count address = search (λ i. same_bytes (entries i).address address) 0 count

-- The offset of the code from the witness, or nullptr, and the size.
unfoldable pub get_code : Accounts → Option ℕ → Option ℕ × ℕ
get_code entries none = (none, 0)
get_code entries (some i) =
    if (entries i).code_size == 0
    then (none, 0)
    else (some (entries i).code_offset, (entries i).code_size)

unfoldable pub is_empty_account : Accounts → Option ℕ → Bool
unfolding is_zero
is_empty_account entries none = true
is_empty_account entries (some i) =
    if (entries i).nonce == 0
    then (if is_zero (entries i).balance then (entries i).code_size == 0 else false)
    else false

unfoldable pub account_exists : Option ℕ → Bool
account_exists none = false
account_exists (some i) = true

abbrev pub new_account : List ℕ → AccountEntry
new_account address = record {
  address = address;
  balance = zero_word;
  nonce = 0;
  code_hash = zero_word;
  code_size = 0;
  code_offset = 0;
  is_warm = 1;
}

-- The entries, their count, and the new entry, where there is room.
unfoldable pub add_account : Accounts → ℕ → ℕ → List ℕ → Option (Accounts × ℕ × ℕ)
add_account entries count max_accounts address =
    if leb max_accounts count
    then none
    else some (set_at entries count (new_account address), count + 1, count)

abbrev pub change : Accounts → Option ℕ → (AccountEntry → AccountEntry) → Accounts
change entries none f = entries
change entries (some i) f = set_at entries i (f (entries i))

-- The price, and the account warm.
unfoldable pub mark_warm_account : Accounts → Option ℕ → ℕ × Accounts
mark_warm_account entries none = (2600, entries)
mark_warm_account entries (some i) = (
  (if (entries i).is_warm == 0 then 2600 else 100),
  change entries (some i) (λ e. record e { is_warm = 1 }),
)

-- The loop that compares two amounts from the most significant byte: false where the first
-- difference is the wrong way.
unfoldable pub suffices : Word → Word → Bool
suffices (a ∷ balance) (b ∷ amount) =
    let rest = suffices balance amount in if ltb a b then false else if ltb b a then true else rest
suffices _ _ = true

-- The transfer itself is left to be done in the source: no balance changes.
unfoldable pub transfer_value : Accounts → Option ℕ → Option ℕ → Word → Bool × Accounts
unfolding suffices is_zero
transfer_value entries (some i) (some j) amount =
    if is_zero amount then (true, entries) else (suffices (entries i).balance amount, entries)
transfer_value entries _ _ amount = (false, entries)

-- nonce++, in uint64_t
unfoldable pub increment_nonce : Accounts → Option ℕ → Accounts
increment_nonce entries account =
    change entries account (λ e. record e { nonce = u64 (e.nonce + 1) })

unfoldable pub set_account_code : Accounts → Option ℕ → Word → ℕ → ℕ → Accounts
set_account_code entries account hash size offset =
    change entries account
      (λ e. record e { code_hash = hash; code_size = size; code_offset = offset })
