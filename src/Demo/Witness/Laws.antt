-- ===== src/Demo/Witness/Laws.antt =====
-- The witness of a block: what its entries are, where they lie, and which of them a search answers.
use metaru.Common.{
  ℕ, zero, suc, ◌+◌, ◌*◌, ◌≤◌, ◌<◌, ◌≡◌, refl, ap, ◌∙◌, subst, length-append, sym, some, List, [],
  ◌∷◌, ◌++◌, ◌==◌, if◌then◌else◌, length, get_or, arith, inl, inr, ◌⊎◌, ◌≢◌,
}
use mathlib.Core.List.{append-nil, append_assoc}
use metaru.Word.{zero_word, u64_to_word}
use metaru.Accounts.{AccountEntry, find_account}
use metaru.Demo.Text.{set_u256-eq-u64_to_word}
use metaru.Accounts.Laws.{find_account_first, find_account_lem}
use metaru.Demo.{Transaction, Block}
use metaru.Demo.Witness.{
  WitnessMemory, blank, new_witness, append, write_coinbase, write_sender, write_recipient,
  add_parties, build_block_witness,
}

-- An account without code that has sent nothing.
abbrev pub account : List ℕ → ℕ → ℕ → AccountEntry
account address amount is_warm = record {
  address = address;
  balance = u64_to_word amount;
  nonce = 0;
  code_hash = zero_word;
  code_size = 0;
  code_offset = 0;
  is_warm = is_warm;
}

-- Senders with 10 ETH that are warm, and recipients with nothing that are cold, in the order of the
-- transactions.
unfoldable pub parties : List Transaction → List AccountEntry
parties [] = []
parties (tx ∷ txs) =
    account tx.origin 10000000000000000000 1 ∷ (account tx.target 0 0 ∷ parties txs)

-- All entries of a block: the coinbase has 1 ETH, and is warm.
abbrev pub listing : Block → List AccountEntry
listing block = account block.coinbase 1000000000000000000 1 ∷ parties block.transactions

-- A witness with the listed entries alone, the rest of its buffer as it was laid out for `n` and
-- `m`.
pub record IsFilled (n m : ℕ) (entries : List AccountEntry) (w : WitnessMemory) : Type 0 where
  pub count : w.account_count ≡ length entries
  pub maximum : w.max_accounts ≡ n
  pub slots : (w.storage_count ≡ 0) × (w.max_storage ≡ m)
  pub behind_header : w.accounts_ptr ≡ 64
  pub behind_accounts : w.storage_ptr ≡ 64 + n * 128
  pub whole : w.size ≡ 64 + n * 128 + m * 124
  pub entry : (k : ℕ) → w.accounts k ≡ get_or entries k blank

get_or-length : {A : Type 0} (xs : List A) (d : A) → get_or xs (length xs) d ≡ d
get_or-length [] d = refl
get_or-length (x ∷ xs) d = get_or-length xs d

get_or-snoc :
    {A : Type 0} (xs : List A) (x d : A) (k : ℕ)
    → get_or (xs ++ x ∷ []) k d ≡ (if k == length xs then x else get_or xs k d)
get_or-snoc [] x d zero = refl
get_or-snoc [] x d (suc k) = ground arith
get_or-snoc (y ∷ xs) x d zero = ground arith
get_or-snoc (y ∷ xs) x d (suc k) = ground (arith, get_or-snoc xs x d k)

append-IsFilled :
    (n m : ℕ) (entries : List AccountEntry) (w : WitnessMemory)
    (write : AccountEntry → AccountEntry) (e : AccountEntry)
    → write blank ≡ e
    → IsFilled n m entries w
    → IsFilled n m (entries ++ e ∷ []) (append write w)
append-IsFilled n m entries w write e written f = record {
  count = omega (arith, length-append entries (e ∷ []), f.count);
  maximum = f.maximum;
  slots = f.slots;
  behind_header = f.behind_header;
  behind_accounts = f.behind_accounts;
  whole = f.whole;
  entry = λ k.
      let new : w.accounts (length entries) ≡ blank =
        f.entry (length entries) ∙ get_or-length entries blank in
      rw (f.count, f.entry k, new, written, get_or-snoc entries e blank k) refl;
}

-- What the three writes leave of a blank entry.
write_coinbase-blank :
    (address : List ℕ) → write_coinbase address blank ≡ account address 1000000000000000000 1
write_coinbase-blank address = rw (set_u256-eq-u64_to_word 1000000000000000000) refl

write_sender-blank :
    (address : List ℕ) → write_sender address blank ≡ account address 10000000000000000000 1
write_sender-blank address = rw (set_u256-eq-u64_to_word 10000000000000000000) refl

write_recipient-blank : (address : List ℕ) → write_recipient address blank ≡ account address 0 0
write_recipient-blank address = rw (set_u256-eq-u64_to_word 0) refl

add_parties-IsFilled :
    (n m : ℕ) (txs : List Transaction) (entries : List AccountEntry) (w : WitnessMemory)
    → IsFilled n m entries w
    → IsFilled n m (entries ++ parties txs) (add_parties txs w)
unfolding add_parties parties
add_parties-IsFilled n m [] entries w f = rw (append-nil entries) f
add_parties-IsFilled n m (tx ∷ txs) entries w f =
    let sent =
      append-IsFilled n m entries w (write_sender tx.origin) _ (write_sender-blank tx.origin) f in
    let both =
      append-IsFilled n m _ _ (write_recipient tx.target) _ (write_recipient-blank tx.target)
        sent in
    let after = append (write_recipient tx.target) (append (write_sender tx.origin) w) in
    subst (λ xs. IsFilled n m xs (add_parties txs after))
      (append_assoc _ (account tx.target 0 0 ∷ []) (parties txs)
        ∙ append_assoc entries (account tx.origin 10000000000000000000 1 ∷ []) _)
      (add_parties-IsFilled n m txs _ _ both)

pub length-parties : (txs : List Transaction) → length (parties txs) ≡ length txs * 2
unfolding parties
length-parties [] = refl
length-parties (tx ∷ txs) = omega (arith, length-parties txs)

-- The witness of a block has the coinbase with 1 ETH, then of each transaction the sender with 10
-- ETH and the recipient with nothing, by their addresses, all but the recipients warm, and blank
-- entries behind; the entries stay in the room that was laid out for them, and the storage begins
-- where that room ends.
pub build_block_witness_lem :
    (block : Block)
    → let w = build_block_witness block in
      IsFilled (length block.transactions * 3 + 1) 100 (listing block) w
      × (w.account_count ≡ length block.transactions * 2 + 1)
      × (w.account_count ≤ w.max_accounts)
      × (w.accounts_ptr + w.max_accounts * 128 ≡ w.storage_ptr)
      × (w.storage_ptr + w.max_storage * 124 ≡ w.size)
unfolding build_block_witness
build_block_witness_lem block =
    let n = length block.transactions * 3 + 1 in
    let bare : IsFilled n 100 [] (new_witness n 100) = record {
      count = refl;
      maximum = refl;
      slots = (refl, refl);
      behind_header = refl;
      behind_accounts = refl;
      whole = refl;
      entry = λ k. refl;
    } in
    let first =
      append-IsFilled n 100 [] (new_witness n 100) (write_coinbase block.coinbase) _
        (write_coinbase-blank block.coinbase) bare in
    let full = add_parties-IsFilled n 100 block.transactions _ _ first in
    let counted = length-parties block.transactions in
    (
      full,
      omega (arith, full.count),
      omega (arith, full.count, full.maximum),
      omega (arith, full.behind_header, full.maximum, full.behind_accounts),
      omega (arith, full.slots, full.behind_accounts, full.whole),
    )

-- A search for the address of an entry answers the first entry of the block with that address.
pub find_account-build_block_witness :
    (block : Block) (k i : ℕ)
    → k < length block.transactions * 2 + 1
    → i < length block.transactions * 2 + 1
    → let w = build_block_witness block in
      let address = (get_or (listing block) k blank).address in
      (j : ℕ) × (find_account w.accounts w.account_count address ≡ some j)
      × ((get_or (listing block) j blank).address ≡ address)
      × (j ≤ k)
      × ((j ≤ i) ⊎ ((get_or (listing block) i blank).address ≢ address))
find_account-build_block_witness block k i below inside =
    let w = build_block_witness block in
    let address = (get_or (listing block) k blank).address in
    let known = build_block_witness_lem block in
    let full : IsFilled (length block.transactions * 3 + 1) 100 (listing block) w = known.0 in
    let counted : w.account_count ≡ length block.transactions * 2 + 1 = known.1 in
    let named : (x : ℕ) → (w.accounts x).address ≡ (get_or (listing block) x blank).address =
      λ x. ap (λ e. e.address) (full.entry x) in
    elim (find_account_lem w.accounts w.account_count address k (omega arith)) [
      | inr (missed, other) ↦ absurd (other (named k))
      | inl (j, e, under, same, le) ↦ (
        j,
        e,
        sym (named j) ∙ same,
        elim le [ inl small ↦ small | inr other ↦ absurd (other (named k)) ],
        elim (find_account_first w.accounts w.account_count address j i e).2 [
          | inl early ↦ inl early
          | inr other ↦ inr (λ again. other (named i ∙ again))
        ],
      )
    ]
