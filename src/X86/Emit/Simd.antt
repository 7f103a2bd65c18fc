-- ===== src/X86/Emit/Simd.antt =====
-- src/backend/codegen/x86_64_writer.hpp: instructions on the xmm registers, which are their numbers.
use occult.Common.{
  ℕ, ◌+◌, Bool, true, false, ◌||◌, ◌&&◌, not, ◌==◌, leb, ◌%◌, ◌++◌, [], ◌∷◌, Bytes, if◌then◌else◌,
  Option, none, some,
}
use occult.Bytes.{little_endian}
use occult.X86.Registers.{Grp, rebase_register, rip}
use occult.X86.Encoding.{
  rex_of, rex_bit, rex_b, rex_r, rex_w, rex_wb, rex_wr, rex_wrb, operand_size_override,
  two_byte_opcode_prefix, indirect, disp8, disp32, register_direct, indexed, rip_relative,
  special_sib_index, modrm, sib,
}
use occult.X86.Memory.{Mem, is_scaled, is_stack_ptr, is_stack_base_ptr}
use occult.X86.Emit.Prefix.{
  reg_r8b, reg_8, reg_r8w, reg_16, reg_r8d, reg_32, reg_r8q, reg_64, two_byte,
}
use occult.X86.Emit.Memory.{address_mode, needs_rex, needed_rex, with_address}

abbrev pub Simd128 : Type 0
Simd128 = ℕ

abbrev pub is_extended : Simd128 → Bool
is_extended base = leb 8 base

unfoldable pub emit_reg_to_simd128 : ℕ → Grp → Simd128 → Bytes → Bool → Bytes
emit_reg_to_simd128 op dest base prefix is_two_byte =
    prefix
    ++ (if reg_r8q dest
        then (if is_extended base then rex_wrb else rex_wb) ∷ []
        else if reg_64 dest
        then (if is_extended base then rex_wr else rex_w) ∷ []
        else if reg_r8d dest
        then (if is_extended base then rex_of false true false true else rex_b) ∷ []
        else if is_extended base
        then rex_r ∷ []
        else [])
    ++ two_byte is_two_byte
    ++ (op ∷ modrm register_direct base (rebase_register dest) ∷ [])

-- `simd_rex`; no byte stands for its result 0, which its callers test.
abbrev pub simd_rex : Simd128 → Simd128 → Bytes
simd_rex dest base = needed_rex (is_extended dest) false (is_extended base)

-- An instruction between two xmm registers: `prefix`, REX, 0x0F, `op` and ModRM. It is the body that
-- `emit_addsd` and its like share.
unfoldable pub emit_simd128_to_simd128 : Bytes → ℕ → Simd128 → Simd128 → Bytes
emit_simd128_to_simd128 prefix op dest base =
    prefix
    ++ simd_rex dest base
    ++ (two_byte_opcode_prefix ∷ op ∷ modrm register_direct dest base ∷ [])

-- A conversion between a general and an xmm register: the body that `emit_cvttsd2si` and its like
-- share. `reg` and `rm` are the two numbers with the flags that extend them.
unfoldable pub emit_conversion : ℕ → ℕ → ℕ → Bool → ℕ → Bool → Bytes
emit_conversion prefix op reg reg_extended rm rm_extended =
    prefix
    ∷ (rex_w + rex_bit 4 reg_extended + rex_bit 1 rm_extended)
    ∷ two_byte_opcode_prefix
    ∷ op
    ∷ modrm register_direct (reg % 8) (rm % 8)
    ∷ []

unfoldable pub check_reg_r2m_simd : ℕ → ℕ → Mem → Grp → Bytes → Bool → Bytes
check_reg_r2m_simd op8 op dest base prefix simd_extended =
    let d = dest.reg in
    let index_r8q = is_scaled (dest.mode) && reg_r8q (dest.index) in
    let index_64 = is_scaled (dest.mode) && reg_64 (dest.index) in
    let two = prefix ++ (two_byte_opcode_prefix ∷ []) in
    if reg_r8b d || reg_8 d || reg_r8b base || reg_8 base
    then (if needs_rex d base
        then rex_of false (reg_r8b base || simd_extended) index_r8q (reg_r8b d) ∷ []
        else needed_rex (reg_r8b base || simd_extended) index_r8q (reg_r8b d))
      ++ two
      ++ (op8 ∷ [])
    else if reg_r8w d || reg_16 d || reg_r8w base || reg_16 base
    then operand_size_override ∷ needed_rex (reg_r8w base || simd_extended) index_r8q (reg_r8w d)
      ++ two
      ++ (op ∷ [])
    else if reg_r8d d || reg_32 d || reg_r8d base || reg_32 base
    then needed_rex (reg_r8d base || simd_extended) index_r8q (reg_r8d d) ++ two ++ (op ∷ [])
    else if reg_r8q d || reg_64 d || reg_r8q base || reg_64 base || index_r8q || index_64
    then rex_of true (reg_r8q base || simd_extended) index_r8q (reg_r8q d) ∷ two ++ (op ∷ [])
    else (if simd_extended then rex_of false true false false ∷ [] else []) ++ two ++ (op ∷ [])

-- The constructor of ModRM that `[reg]` and `[rbp]` choose takes the general register as the field reg
-- and the xmm register as the field rm.
unfoldable pub simd_address_bytes : Mem → Simd128 → Option Bytes
simd_address_bytes dest base =
    let d = dest.reg in
    let rm = rebase_register d in
    let with_sib = λ (mode : ℕ). modrm mode base indexed ∷ sib (dest.scale) (dest.index) rm ∷ [] in
    let stack = λ (mode : ℕ). modrm mode base indexed ∷ sib 0 special_sib_index rm ∷ [] in
    let offset = little_endian 4 (dest.disp) in
    address_mode (dest.mode) (dest.second_mode)
      (if not (is_stack_ptr d) && not (is_stack_base_ptr d)
        then some (modrm disp8 rm base ∷ 0 ∷ [])
        else if is_stack_base_ptr d && not (is_stack_ptr d)
        then some (modrm disp8 rm base ∷ 0 ∷ [])
        else if not (is_stack_base_ptr d) && is_stack_ptr d
        then some (stack indirect)
        else none)
      (some
        (if not (is_stack_ptr d) then modrm disp32 base rm ∷ offset else stack disp32 ++ offset))
      (some (with_sib indirect)) (some (with_sib disp32 ++ offset))

unfoldable pub emit_simd128_to_mem : ℕ → Simd128 → Mem → Bytes → Bytes
emit_simd128_to_mem op base dest prefix =
    let opcode = check_reg_r2m_simd op op dest base prefix (is_extended base) in
    if dest.reg == rip
    then opcode ++ (modrm indirect base rip_relative ∷ little_endian 4 (dest.disp))
    else with_address (simd_address_bytes dest base) opcode
