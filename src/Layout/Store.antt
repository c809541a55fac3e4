-- ===== src/Layout/Store.antt =====
-- MLOAD, MSTORE and MSTORE8 of src/evm.cpp on the bytes, against the operations on the frame.
use metaru.Common.{
  ℕ, ◌+◌, ◌-◌, ◌*◌, ◌^◌, ◌≤◌, ◌<◌, ◌≡◌, refl, ap, ◌∙◌, subst, inl, inr, Option, none, some, ◌==◌,
  set_at, length, arith, Bool-cases, u32, get_or,
}
use metaru.Word.{Word, word_to_u64}
use metaru.Frame.{Frame, and_then}
use metaru.Frame.Stack.{stack_push, stack_pop}
use metaru.Frame.Memory.{read_bytes, write_bytes, ensure_memory, memory_limit, grown_size}
use metaru.Frame.Memory.Laws.{length-read_bytes, ensure_memory_covers}
use metaru.Evm.Ops.{op_mstore, op_mstore8, op_mload}
use metaru.Layout.{
  Image, after, pop_bytes, push_bytes, reserve, store_word, store_byte, store_op, store_byte_op,
  load_op,
}
use metaru.Layout.Regions.{
  read_bytes-shift, grow_bytes-IsImage, store_word-IsImage, store_byte-IsImage,
}
use metaru.Layout.Laws.{IsImage, push_bytes-IsImage, pop_bytes-IsImage}

-- The same result, and bytes that hold the frame.
abbrev pub Refines : {A : Type 0} → ℕ → Option A × Image → Option A × Frame → Type 0
Refines room o p = (o.0 ≡ p.0) × IsImage room o.1 p.1

-- Steps that refine make a sequence that does.
after-Refines :
    {A B : Type 0} (room : ℕ) (o : Option A × Image) (p : Option A × Frame)
    (k : A → Image → Option B × Image) (l : A → Frame → Option B × Frame)
    → Refines room o p
    → ((a : A) (m : Image) (f : Frame)
        → o ≡ (some a, m)
        → p ≡ (some a, f)
        → IsImage room m f
        → Refines room (k a m) (l a f))
    → Refines room (after o k) (and_then p l)
after-Refines room (none, m) (none, f) k l r step = (refl, r.1)
after-Refines room (none, m) (some a, f) k l r step = absurd (cc r.0)
after-Refines room (some a, m) (none, f) k l r step = absurd (cc r.0)
after-Refines room (some a, m) (some b, f) k l r step =
    let e : a ≡ b = cc r.0 in
    subst (λ x. Refines room (k a m) (l x f)) e (step a m f refl (rw e refl) r.1)

reserve-Refines :
    (room : ℕ) (m : Image) (f : Frame) (offset size : ℕ)
    → memory_limit ≤ room
    → IsImage room m f
    → Refines room (reserve offset size m) (ensure_memory offset size f)
unfolding reserve ensure_memory
reserve-Refines room m f offset size wide r =
    ground (arith, r.extent, grow_bytes-IsImage room m f (grown_size offset size) r)

-- A push, and the increment of pc.
push_then :
    (room : ℕ) (m : Image) (f : Frame) (w w' : Word)
    → IsImage room m f
    → w ≡ w'
    → length w ≡ 32
    → Refines {A = ℕ} room
        (after (push_bytes w m) (λ _ m'. (some 1, m')))
        (and_then (stack_push w' f) (λ _ g. (some 1, g)))
push_then room m f w w' r same full =
    after-Refines room (push_bytes w m) (stack_push w' f) _ _
      (subst (λ x. Refines room (push_bytes w m) (stack_push x f)) same
        (push_bytes-IsImage room m f r w full))
      (λ _ m' f' e p r'. (refl, r'))

-- After ensure_memory has succeeded, the access lies in the room.
access_fits :
    (room offset size : ℕ) (f g : Frame)
    → memory_limit ≤ room
    → f.memory_size ≤ room
    → offset + size + 31 < 2 ^ 32
    → 0 < size
    → ensure_memory offset size f ≡ (some tt, g)
    → offset + size ≤ room
access_fits room offset size f g wide small short some_bytes e =
    let (covers, grown) = ensure_memory_covers offset size f g short some_bytes e in
    elim grown [
      | inl same ↦
          let s : g.memory_size ≡ f.memory_size = ap (λ x. x.memory_size) same in omega arith
      | inr (more, bound, whole, rest) ↦ omega arith
    ]

-- The offset that the item on top stands for.
abbrev pub offset_of : Frame → ℕ
offset_of f = u32 (word_to_u64 (f.stack (f.stack_size - 1)))

-- What a pop that succeeds tells.
record IsPopped (f : Frame) (w : Word) (g : Frame) : Type 0 where
  item : w ≡ f.stack (f.stack_size - 1)
  smaller : g.stack_size ≤ f.stack_size
  extent : g.memory_size ≡ f.memory_size

stack_pop-IsPopped : (f g : Frame) (w : Word) → stack_pop f ≡ (some w, g) → IsPopped f w g
unfolding stack_pop
stack_pop-IsPopped f g w e = ground arith

length-pop_bytes : (m m' : Image) (w : Word) → pop_bytes m ≡ (some w, m') → length w ≡ 32
unfolding pop_bytes
length-pop_bytes m m' w e = elim (Bool-cases (m.stack_size == 0)) [
  | inl empty ↦ absurd (ground arith)
  | inr some_item ↦
      let read : w ≡ read_bytes m.bytes (m.stack_ptr + (m.stack_size - 1) * 32) 32 = ground arith in
      ap length read ∙ length-read_bytes m.bytes (m.stack_ptr + (m.stack_size - 1) * 32) 32
]

-- The access at the offset on top of `f`, after two pops or one, lies in the room.
access_inside :
    (room size : ℕ) (f g h : Frame) (offset_word : Word)
    → memory_limit ≤ room
    → f.memory_size ≤ room
    → offset_of f + 63 < 2 ^ 32
    → 0 < size
    → size ≤ 32
    → offset_word ≡ f.stack (f.stack_size - 1)
    → g.memory_size ≡ f.memory_size
    → ensure_memory (u32 (word_to_u64 offset_word)) size g ≡ (some tt, h)
    → u32 (word_to_u64 offset_word) + size ≤ room
access_inside room size f g h offset_word wide small short some_bytes few item kept e =
    let same : u32 (word_to_u64 offset_word) ≡ offset_of f = ap (λ w. u32 (word_to_u64 w)) item in
    access_fits room (u32 (word_to_u64 offset_word)) size g h wide (omega arith) (omega arith)
      some_bytes e

-- Two pops, then an access of `size` bytes at the first item, then `write` or its like on the frame.
module _ (room : ℕ) (m : Image) (f : Frame) (wide : memory_limit ≤ room)
    (small : f.memory_size ≤ room) (fits : f.stack_size ≤ 1024) (short : offset_of f + 63 < 2 ^ 32)
    (r : IsImage room m f) where
  two_pops :
      (size : ℕ) (write : ℕ → Word → Image → Image) (write' : ℕ → Word → Frame → Frame)
      → 0 < size
      → size ≤ 32
      → ((m' : Image) (f' : Frame) (offset : ℕ) (w : Word)
          → IsImage room m' f'
          → length w ≡ 32
          → offset + size ≤ room
          → IsImage room (write offset w m') (write' offset w f'))
      → Refines {A = ℕ} room
          (after (pop_bytes m) (λ offset_word m1. after (pop_bytes m1) (λ w m2.
            after
              (reserve (u32 (word_to_u64 offset_word)) size m2)
              (λ _ m3. (some 1, write (u32 (word_to_u64 offset_word)) w m3)))))
          (and_then (stack_pop f) (λ offset_word f1. and_then (stack_pop f1) (λ w f2.
            and_then
              (ensure_memory (u32 (word_to_u64 offset_word)) size f2)
              (λ _ f3. (some 1, write' (u32 (word_to_u64 offset_word)) w f3)))))
  two_pops size write write' some_bytes few writes =
      after-Refines room (pop_bytes m) (stack_pop f) _ _ (pop_bytes-IsImage room m f r fits)
        (λ offset_word m1 f1 e1 p1 r1.
          let first = stack_pop-IsPopped f f1 offset_word p1 in
          after-Refines room (pop_bytes m1) (stack_pop f1) _ _
            (pop_bytes-IsImage room m1 f1 r1 (omega (arith, first.smaller)))
            (λ w m2 f2 e2 p2 r2.
              let second = stack_pop-IsPopped f1 f2 w p2 in
              after-Refines room (reserve (u32 (word_to_u64 offset_word)) size m2)
                (ensure_memory (u32 (word_to_u64 offset_word)) size f2) _ _
                (reserve-Refines room m2 f2 _ size wide r2)
                (λ _ m3 f3 e3 p3 r3. (
                  refl,
                  writes m3 f3 _ w r3 (length-pop_bytes m1 m2 w e2) (
                      access_inside room size f f2 f3 offset_word wide small short some_bytes few
                        first.item (second.extent ∙ first.extent) p3),
                ))))

  store_op-Refines : Refines room (store_op m) (op_mstore f)
  unfolding store_op op_mstore
  store_op-Refines =
      two_pops 32 store_word (λ offset w g. record g { memory = write_bytes g.memory offset w })
        (omega arith) (omega arith)
        (λ m' f' offset w r' full inside. store_word-IsImage room m' f' offset w r' full inside)

  store_byte_op-Refines : Refines room (store_byte_op m) (op_mstore8 f)
  unfolding store_byte_op op_mstore8
  store_byte_op-Refines =
      two_pops 1 (λ offset w. store_byte offset (get_or w 31 0))
        (λ offset w g. record g { memory = set_at g.memory offset (get_or w 31 0) }) (omega arith)
        (omega arith)
        (λ m' f' offset w r' full inside.
          store_byte-IsImage room m' f' offset (get_or w 31 0) r' (omega arith))

  load_op-Refines : Refines room (load_op m) (op_mload f)
  unfolding load_op op_mload
  load_op-Refines =
      after-Refines room (pop_bytes m) (stack_pop f) _ _ (pop_bytes-IsImage room m f r fits)
        (λ offset_word m1 f1 e1 p1 r1.
          let first = stack_pop-IsPopped f f1 offset_word p1 in
          let offset = u32 (word_to_u64 offset_word) in
          after-Refines room (reserve offset 32 m1) (ensure_memory offset 32 f1) _ _
            (reserve-Refines room m1 f1 offset 32 wide r1)
            (λ _ m2 f2 e2 p2 r2.
              let inside =
                access_inside room 32 f f1 f2 offset_word wide small short (omega arith)
                  (omega arith) first.item first.extent p2 in
              let word =
                read_bytes-shift m2.bytes f2.memory m2.memory_ptr (m2.memory_ptr + offset) offset 32
                  refl (λ i p q. r2.memory i (omega arith)) in
              push_then room m2 f2 _ _ r2 word
                (length-read_bytes m2.bytes (m2.memory_ptr + offset) 32)))

-- Where the regions lie apart, memory has room for its limit, the stack fits, and the offset on top does
-- not wrap in 32 bits, then MSTORE, MSTORE8 and MLOAD on the bytes are those on the frame: they fail or
-- succeed alike, and the bytes hold the frame that they leave.
pub memory_ops-Refine :
    (room : ℕ) (m : Image) (f : Frame)
    → memory_limit ≤ room
    → f.memory_size ≤ room
    → f.stack_size ≤ 1024
    → offset_of f + 63 < 2 ^ 32
    → IsImage room m f
    → Refines room (store_op m) (op_mstore f)
      × Refines room (store_byte_op m) (op_mstore8 f)
      × Refines room (load_op m) (op_mload f)
memory_ops-Refine room m f wide small fits short r = (
  store_op-Refines room m f wide small fits short r,
  store_byte_op-Refines room m f wide small fits short r,
  load_op-Refines room m f wide small fits short r,
)
