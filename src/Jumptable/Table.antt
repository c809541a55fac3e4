-- ===== src/Jumptable/Table.antt =====
-- JUMP_TABLE of src/evm_jumptable.cpp.
use metaru.Common.{ℕ, zero, suc, ◌+◌, List, [], ◌∷◌, ◌++◌, replicate, get_or}
use metaru.Instr.{Instr}

abbrev pub stubs : ℕ → List Instr
stubs n = replicate n Instr.stub

-- op_push1, op_push2, … and the like.
abbrev pub numbered : (ℕ → Instr) → ℕ → ℕ → List Instr
numbered handler first zero = []
numbered handler first (suc n) = handler first ∷ numbered handler (first + 1) n

-- Rows 0x00 to 0x1f.
abbrev pub arithmetic_rows : List Instr
arithmetic_rows =
    (Instr.stop ∷ Instr.add ∷ Instr.mul ∷ Instr.sub ∷ Instr.div ∷ Instr.stub ∷ Instr.modulo ∷ [])
    ++ (stubs 9
        ++ ((Instr.lt ∷ Instr.gt ∷ Instr.stub ∷ Instr.stub ∷ Instr.eq ∷ Instr.iszero ∷ Instr.and
              ∷ [])
            ++ ((Instr.or ∷ Instr.xor ∷ Instr.not ∷ []) ++ stubs 6)))

-- Row 0x50 to 0x5f.
abbrev pub flow_rows : List Instr
flow_rows =
    (Instr.pop ∷ Instr.mload ∷ Instr.mstore ∷ Instr.mstore8 ∷ Instr.stub ∷ Instr.stub ∷ Instr.jump
      ∷ [])
    ++ ((Instr.jumpi ∷ Instr.pc ∷ Instr.stub ∷ Instr.gas ∷ Instr.jumpdest ∷ Instr.stub ∷ [])
        ++ (Instr.stub ∷ Instr.stub ∷ Instr.push0 ∷ []))

-- Rows 0x60 to 0xff.
abbrev pub wide_rows : List Instr
wide_rows =
    numbered Instr.push 1 32
    ++ (numbered Instr.dup 1 16
        ++ (numbered Instr.swap 1 16
            ++ (stubs 93 ++ (Instr.invalid ∷ Instr.invalid ∷ Instr.invalid ∷ []))))

unfoldable pub jump_table : List Instr
jump_table = arithmetic_rows ++ (stubs 48 ++ (flow_rows ++ wide_rows))

-- JUMP_TABLE[opcode]; an opcode is a uint8_t, so the index is in range.
unfoldable pub decode : ℕ → Instr
unfolding jump_table
decode opcode = get_or jump_table opcode Instr.invalid
