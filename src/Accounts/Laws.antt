-- ===== src/Accounts/Laws.antt =====
-- The accounts of include/account_witness.h as a map from addresses, and their amounts as numbers.
use metaru.Common.{
  ◌≢◌, ℕ, ◌+◌, ◌*◌, ◌≤◌, ◌<◌, ◌≡◌, ◌↔◌, ◌⊎◌, inl, inr, refl, ◌∙◌, fun_ext, Option, none, some, List,
  [], ◌∷◌, Bool, true, ◌==◌, ltb, if◌then◌else◌, set_at, arith, length, Bool-cases, Option-cases,
}
use native.Mathlib.Numerals.{add-one}
use metaru.Common.Search.{search_first, search_absent, search-congr, search-snoc}
use metaru.Word.{Word, IsWord, IsBytes, same_bytes, is_zero, value, value_from}
use metaru.Word.Laws.{same_bytes_iff, is_zero_iff}
use metaru.Accounts.{
  AccountEntry, Accounts, find_account, add_account, new_account, is_empty_account,
  mark_warm_account, suffices, transfer_value,
}

-- What comes first decides.
value_from-lt :
    (acc acc' : ℕ) (v w : List ℕ)
    → IsBytes v
    → length v ≡ length w
    → acc < acc'
    → value_from acc v < value_from acc' w
unfolding value_from
value_from-lt acc acc' [] [] p h lt = lt
value_from-lt acc acc' [] (b ∷ w) p h lt = absurd (omega arith)
value_from-lt acc acc' (a ∷ v) [] p h lt = absurd (omega arith)
value_from-lt acc acc' (a ∷ v) (b ∷ w) p h lt =
    value_from-lt (acc * 256 + a) (acc' * 256 + b) v w p.1 (omega arith) (omega arith)

-- The comparison of the bytes is that of the numbers.
suffices-value_from :
    (acc : ℕ) (v w : List ℕ)
    → IsBytes v
    → IsBytes w
    → length v ≡ length w
    → (suffices v w ≡ true) ↔ (value_from acc w ≤ value_from acc v)
unfolding suffices value_from
suffices-value_from acc [] [] p q h = (λ _. omega arith, λ _. refl)
suffices-value_from acc [] (b ∷ w) p q h = absurd (omega arith)
suffices-value_from acc (a ∷ v) [] p q h = absurd (omega arith)
suffices-value_from acc (a ∷ v) (b ∷ w) p q h = elim (Bool-cases (ltb a b)) [
  | inl less ↦
      let short =
        value_from-lt (acc * 256 + a) (acc * 256 + b) v w p.1 (omega arith) (ground arith) in
      rw less (λ e. cc, λ le. absurd (omega arith))
  | inr not_less ↦ elim (Bool-cases (ltb b a)) [
    | inl more ↦
        let long =
          value_from-lt (acc * 256 + b) (acc * 256 + a) w v q.1 (omega arith) (ground arith) in
        rw (not_less, more) (λ e. omega arith, λ le. refl)
    | inr not_more ↦
        let same : a ≡ b = ground arith in
        rw (not_less, not_more, same)
          (suffices-value_from (acc * 256 + b) v w p.1 q.1 (omega arith))
  ]
]

-- A transfer of words between two accounts that are there is granted exactly where the balance
-- covers the amount. No balance changes either way.
pub transfer_value_iff :
    (entries : Accounts) (i j : ℕ) (amount : Word)
    → IsWord amount
    → IsWord (entries i).balance
    → (((transfer_value entries (some i) (some j) amount).0 ≡ true)
        ↔ (value amount ≤ value (entries i).balance))
      × ((transfer_value entries (some i) (some j) amount).1 ≡ entries)
unfolding transfer_value value
transfer_value_iff entries i j amount p q = elim (Bool-cases (is_zero amount)) [
  | inl zero_amount ↦
      rw zero_amount ((λ _. omega (arith, (is_zero_iff amount).0 zero_amount), λ _. refl), refl)
  | inr some_amount ↦
      rw some_amount (suffices-value_from 0 (entries i).balance amount q.1 p.1 (omega arith), refl)
]

-- An account that is there is empty exactly where its nonce, its balance and its code's size are
-- zero; one that is not there is empty.
pub is_empty_account_iff :
    (entries : Accounts) (account : Option ℕ)
    → (is_empty_account entries account ≡ true) ↔ (
        (account ≡ none)
        ⊎ ((i : ℕ) × (account ≡ some i)
            × ((entries i).nonce ≡ 0)
            × (value (entries i).balance ≡ 0)
            × ((entries i).code_size ≡ 0)))
unfolding is_empty_account
is_empty_account_iff entries none = (λ _. inl refl, λ _. refl)
is_empty_account_iff entries (some i) =
    let balance = is_zero_iff (entries i).balance in
    (
      λ e. inr (i, refl, ground arith, ground (arith, balance), ground arith),
      λ h. elim h [
        | inl gone ↦ absurd (cc gone)
        | inr (x, here, no_nonce, no_balance, no_code) ↦
            let same : i ≡ x = cc here in ground (arith, balance)
      ],
    )

-- A search of one account more, after a write of that account.
find_account-set_at :
    (entries : Accounts) (count : ℕ) (e : AccountEntry) (address : List ℕ)
    → find_account (set_at entries count e) (count + 1) address
      ≡ elim (find_account entries count address) [
        | some j ↦ some j
        | none ↦ if same_bytes e.address address then some count else none
      ]
unfolding find_account
find_account-set_at entries count e address =
    let test : ℕ → Bool = λ j. same_bytes (set_at entries count e j).address address in
    let behind =
      search-congr test (λ j. same_bytes (entries j).address address) 0 count
        (λ j h. ground arith) in
    rw (add-one, search-snoc test 0 count count (omega arith), behind) (ground arith)

new_account-empty :
    (entries : Accounts) (i : ℕ) (address : List ℕ)
    → is_empty_account (set_at entries i (new_account address)) (some i) ≡ true
unfolding is_empty_account
new_account-empty entries i address = ground arith

set_at-again :
    (entries : Accounts) (i : ℕ) (e : AccountEntry) (f : AccountEntry → AccountEntry)
    → f e ≡ e
    → set_at (set_at entries i e) i (f (set_at entries i e i)) ≡ set_at entries i e
set_at-again entries i e f same = fun_ext λ j. ground arith

warm_already :
    (entries : Accounts) (i : ℕ) (e : AccountEntry)
    → e.is_warm ≡ 1
    → mark_warm_account (set_at entries i e) (some i) ≡ (100, set_at entries i e)
unfolding mark_warm_account
warm_already entries i e warm =
    ground (arith, set_at-again entries i e (λ x. record x { is_warm = 1 }) (ground arith))

-- Where the address has no account and there is room, an account is added that the search then
-- finds; it is empty and warm. Every other address is answered as before.
pub add_account_lem :
    (entries : Accounts) (count max_accounts : ℕ) (address other : List ℕ)
    → find_account entries count address ≡ none
    → count < max_accounts
    → (entries' : Accounts) × (add_account entries count max_accounts address
        ≡ some (entries', count + 1, count))
      × (find_account entries' (count + 1) other
          ≡ (if same_bytes address other then some count else find_account entries count other))
      × (is_empty_account entries' (some count) ≡ true)
      × (mark_warm_account entries' (some count) ≡ (100, entries'))
unfolding add_account
add_account_lem entries count max_accounts address other missing room =
    let entries' = set_at entries count (new_account address) in
    (
      entries',
      ground arith,
      find_account-set_at entries count (new_account address) other ∙ merge,
      new_account-empty entries count address,
      warm_already entries count (new_account address) refl,
    )
  where
    merge :
        elim (find_account entries count other) [
          | some j ↦ some j
          | none ↦ if same_bytes address other then some count else none
        ]
        ≡ (if same_bytes address other then some count else find_account entries count other)
    merge = elim (Bool-cases (same_bytes address other)) [
      | inl same ↦
          let e : address ≡ other = (same_bytes_iff address other).0 same in
          ground (arith, same_bytes_iff address other)
      | inr differ ↦ ground arith
    ]

-- An access to an account costs 2600 where it is cold and 100 where it is warm; the next one costs
-- 100 and changes nothing.
pub mark_warm_account-again :
    (entries : Accounts) (i : ℕ)
    → let (cost, after) = mark_warm_account entries (some i) in
      (cost ≡ (if (entries i).is_warm == 0 then 2600 else 100))
      × (mark_warm_account after (some i) ≡ (100, after))
unfolding mark_warm_account
mark_warm_account-again entries i =
    (refl, warm_already entries i (record (entries i) { is_warm = 1 }) refl)

-- What the search answers is in range and has the address, and is the first such account.
pub find_account_first :
    (entries : Accounts) (count : ℕ) (address : List ℕ) (j k : ℕ)
    → find_account entries count address ≡ some j
    → (j < count) × ((entries j).address ≡ address) × ((j ≤ k) ⊎ ((entries k).address ≢ address))
unfolding find_account
find_account_first entries count address j k e =
    let found = search_first (λ i. same_bytes (entries i).address address) 0 count j k e in
    (
      omega arith,
      (same_bytes_iff (entries j).address address).0 found.2,
      ground (arith, same_bytes_iff (entries k).address address),
    )

-- Where the search fails no account in range has the address.
pub find_account_absent :
    (entries : Accounts) (count : ℕ) (address : List ℕ) (k : ℕ)
    → find_account entries count address ≡ none
    → k < count
    → (entries k).address ≢ address
unfolding find_account
find_account_absent entries count address k e below =
    let missed = search_absent (λ i. same_bytes (entries i).address address) 0 count k e in
    ground (arith, same_bytes_iff (entries k).address address)

-- The search answers the first account in range with the address, or that there is none: against any
-- account in range, the answer is no later, or that account has another address.
pub find_account_lem :
    (entries : Accounts) (count : ℕ) (address : List ℕ) (k : ℕ)
    → k < count
    → ((j : ℕ) × (find_account entries count address ≡ some j)
        × (j < count)
        × ((entries j).address ≡ address)
        × ((j ≤ k) ⊎ ((entries k).address ≢ address)))
      ⊎ ((find_account entries count address ≡ none) × ((entries k).address ≢ address))
find_account_lem entries count address k below =
    elim (Option-cases (find_account entries count address)) [
      | inl missed ↦ inr (missed, find_account_absent entries count address k missed below)
      | inr (j, e) ↦
          let found = find_account_first entries count address j k e in
          inl (j, e, found.0, found.1, found.2)
    ]
