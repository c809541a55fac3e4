-- ===== src/Frame/Memory.antt =====
-- The memory helper of the interpreters (src/evm.cpp), and runs of bytes.
pub mod Laws
use metaru.Common.{
  ℕ, zero, suc, ◌+◌, ◌*◌, ◌/◌, ◌-◌, List, [], ◌∷◌, Option, none, some, ◌==◌, ltb, if◌then◌else◌,
  set_at, u32, ◌&&◌, leb,
}
use metaru.Frame.{Frame, Command}

-- memcpy(out, bytes + offset, n)
unfoldable pub read_bytes : (ℕ → ℕ) → ℕ → ℕ → List ℕ
read_bytes m offset zero = []
read_bytes m offset (suc n) = m offset ∷ read_bytes m (offset + 1) n

-- memcpy(bytes + offset, w, length of w)
unfoldable pub write_bytes : (ℕ → ℕ) → ℕ → List ℕ → ℕ → ℕ
write_bytes m offset [] = m
write_bytes m offset (b ∷ bs) = write_bytes (set_at m offset b) (offset + 1) bs

-- memset(bytes + offset, 0, n)
abbrev pub clear_bytes : (ℕ → ℕ) → ℕ → ℕ → ℕ → ℕ
clear_bytes m offset n i = if leb offset i && ltb i (offset + n) then 0 else m i

-- 1024 * 1024
abbrev pub memory_limit : ℕ
memory_limit = 1048576

-- The size of memory up to `offset + size`, in whole words, as the uint32_t that it is kept in.
unfoldable pub grown_size : ℕ → ℕ → ℕ
grown_size offset size = u32 ((offset + size + 31) / 32 * 32)

-- The new memory is cleared.
unfoldable pub grow : ℕ → Frame → Frame
grow new_size f = record f {
  memory = clear_bytes f.memory f.memory_size (new_size - f.memory_size);
  memory_size = new_size;
}

-- `offset` and `size` are uint32_t, and their sum is taken in uint64_t. A false answer fails.
unfoldable pub ensure_memory : ℕ → ℕ → Command (Unit {0})
unfolding grown_size grow
ensure_memory offset size f =
    let new_size = grown_size offset size in
    if size == 0
    then (some tt, f)
    else if ltb f.memory_size (offset + size)
    then (if ltb memory_limit new_size
        then (none, f)
        else (if ltb f.memory_size new_size then (some tt, grow new_size f) else (some tt, f)))
    else (some tt, f)
