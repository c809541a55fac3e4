-- ===== src/Evm/Decode.antt =====
-- The switch of src/evm.cpp.
use metaru.Common.{ℕ, ◌-◌, Bool, ◌==◌, ltb, ◌||◌, if◌then◌else◌}
use metaru.Instr.{Instr}

-- The cases that stand for operations on the world state.
is_stub : ℕ → Bool
is_stub o =
    o == 0x31
    || o == 0xf0
    || o == 0xf1
    || o == 0xf2
    || o == 0xf4
    || o == 0xf5
    || o == 0xfa
    || o == 0xfd
    || o == 0xff
    || o == 0x54
    || o == 0x55

decode_low : ℕ → Instr
decode_low o =
    if o == 0x00
    then Instr.stop
    else if o == 0x01
    then Instr.add
    else if o == 0x02
    then Instr.mul
    else if o == 0x03
    then Instr.sub
    else if o == 0x04
    then Instr.div
    else if o == 0x06
    then Instr.modulo
    else if o == 0x10
    then Instr.lt
    else if o == 0x11
    then Instr.gt
    else if o == 0x14
    then Instr.eq
    else if o == 0x15
    then Instr.iszero
    else if o == 0x16
    then Instr.and
    else if o == 0x17
    then Instr.or
    else if o == 0x18
    then Instr.xor
    else if o == 0x19
    then Instr.not
    else Instr.invalid

decode_mid : ℕ → Instr
decode_mid o =
    if o == 0x50
    then Instr.pop
    else if o == 0x51
    then Instr.mload
    else if o == 0x52
    then Instr.mstore
    else if o == 0x53
    then Instr.mstore8
    else if o == 0x56
    then Instr.jump
    else if o == 0x57
    then Instr.jumpi
    else if o == 0x58
    then Instr.pc
    else if o == 0x59
    then Instr.msize
    else if o == 0x5a
    then Instr.gas
    else if o == 0x5b
    then Instr.jumpdest
    else if o == 0x5f
    then Instr.push0
    else Instr.invalid

unfoldable pub decode : ℕ → Instr
unfolding decode_low decode_mid is_stub
decode o =
    if is_stub o
    then Instr.stub
    else if ltb o 0x50
    then decode_low o
    else if ltb o 0x60
    then decode_mid o
    else if ltb o 0x80
    then Instr.push (o - 0x5f)
    else if ltb o 0x90
    then Instr.dup (o - 0x7f)
    else if ltb o 0xa0
    then Instr.swap (o - 0x8f)
    else Instr.invalid
