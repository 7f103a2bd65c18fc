-- ===== src/X86/Emit/Memory.antt =====
-- src/backend/codegen/x86_64_writer.hpp: instructions with a memory operand.
use occult.Common.{
  ℕ, Bool, true, false, ◌||◌, ◌&&◌, not, ◌==◌, ◌++◌, [], ◌∷◌, Bytes, if◌then◌else◌, Option, none,
  some,
}
use occult.Bytes.{little_endian}
use occult.X86.Registers.{Grp, rebase_register, rip, spl, bpl, sil, dil}
use occult.X86.Encoding.{
  rex_of, operand_size_override, indirect, disp8, disp32, indexed, rip_relative, special_sib_index,
  modrm, sib,
}
use occult.X86.Memory.{Mem, MemMode, is_scaled, is_stack_ptr, is_stack_base_ptr}
use occult.X86.Emit.Prefix.{
  reg_r8b, reg_8, reg_r8w, reg_16, reg_r8d, reg_32, reg_r8q, reg_64, two_byte,
}
use occult.X86.Emit.Immediate.{Imm, ImmMode, do_8, do_16, no_64, normal, emit_imm}

-- A REX byte is pushed only if a bit is set in it.
abbrev pub needed_rex : Bool → Bool → Bool → Bytes
needed_rex r x b = if r || x || b then rex_of false r x b ∷ [] else []

unfoldable pub needs_rex : Grp → Grp → Bool
needs_rex dest base =
    dest == spl
    || dest == bpl
    || dest == sil
    || dest == dil
    || base == spl
    || base == bpl
    || base == sil
    || base == dil

-- The prefixes and the opcode. The branches after the one for 64 bits are for registers of no range.
unfoldable pub check_reg_r2m : ℕ → ℕ → Mem → Grp → Bool → Bytes
check_reg_r2m op8 op dest base is_two_byte =
    let d = dest.reg in
    let index_r8q = is_scaled (dest.mode) && reg_r8q (dest.index) in
    let index_64 = is_scaled (dest.mode) && reg_64 (dest.index) in
    if reg_r8b d || reg_8 d || reg_r8b base || reg_8 base
    then (if needs_rex d base then rex_of false (reg_r8b base) index_r8q (reg_r8b d) ∷ [] else [])
      ++ two_byte is_two_byte
      ++ (op8 ∷ [])
    else if reg_r8w d || reg_16 d || reg_r8w base || reg_16 base
    then operand_size_override ∷ needed_rex (reg_r8w base) index_r8q (reg_r8w d)
      ++ two_byte is_two_byte
      ++ (op ∷ [])
    else if reg_r8d d || reg_32 d || reg_r8d base || reg_32 base
    then needed_rex (reg_r8d base) index_r8q (reg_r8d d) ++ two_byte is_two_byte ++ (op ∷ [])
    else if reg_r8q d || reg_64 d || reg_r8q base || reg_64 base || index_r8q || index_64
    then rex_of true (reg_r8q base) index_r8q (reg_r8q d) ∷ two_byte is_two_byte ++ (op ∷ [])
    else 8 ∷ two_byte is_two_byte ++ (op ∷ [])

-- The chain of tests on the two modes; `none` where no branch is taken.
abbrev pub address_mode :
    MemMode → MemMode → Option Bytes → Option Bytes → Option Bytes → Option Bytes → Option Bytes
address_mode MemMode.reg second at_reg at_disp at_index at_index_disp = at_reg
address_mode MemMode.disp second at_reg at_disp at_index at_index_disp = at_disp
address_mode MemMode.scaled_index MemMode.no_mode at_reg at_disp at_index at_index_disp = at_index
address_mode MemMode.scaled_index MemMode.disp at_reg at_disp at_index at_index_disp = at_index_disp
address_mode _ _ at_reg at_disp at_index at_index_disp = none

-- The addressing bytes of a memory operand: ModRM, SIB and displacement. `plain` is the mode and the
-- displacement of `[reg]`, in which the two users differ, and `reg` is the field of ModRM. An operand
-- whose mode is in no branch pushes nothing, which is `none`.
unfoldable pub address_bytes : ℕ → Bytes → Mem → ℕ → Option Bytes
address_bytes plain_mode plain_disp dest reg =
    let d = dest.reg in
    let rm = rebase_register d in
    let with_sib = λ (mode : ℕ). modrm mode reg indexed ∷ sib (dest.scale) (dest.index) rm ∷ [] in
    let stack = λ (mode : ℕ). modrm mode reg indexed ∷ sib 0 special_sib_index rm ∷ [] in
    let offset = little_endian 4 (dest.disp) in
    address_mode (dest.mode) (dest.second_mode)
      (if not (is_stack_ptr d) && not (is_stack_base_ptr d)
        then some (modrm plain_mode reg rm ∷ plain_disp)
        else if is_stack_base_ptr d && not (is_stack_ptr d)
        then some (modrm disp8 reg rm ∷ 0 ∷ [])
        else if not (is_stack_base_ptr d) && is_stack_ptr d
        then some (stack indirect)
        else none)
      (some (if not (is_stack_ptr d) then modrm disp32 reg rm ∷ offset else stack disp32 ++ offset))
      (some (if is_stack_base_ptr d then with_sib disp32 ++ offset else with_sib indirect))
      (some (with_sib disp32 ++ offset))

-- What the branches of an operand that is not relative to rip push.
abbrev pub with_address : Option Bytes → Bytes → Bytes
with_address none opcode = []
with_address (some address) opcode = opcode ++ address

unfoldable pub emit_reg_to_mem : ℕ → ℕ → Mem → Grp → Bool → Bytes
emit_reg_to_mem op8 op dest base is_two_byte =
    let opcode = check_reg_r2m op8 op dest base is_two_byte in
    if dest.reg == rip
    then opcode
      ++ (modrm indirect (rebase_register base) rip_relative ∷ little_endian 4 (dest.disp))
    else with_address (address_bytes disp8 (0 ∷ []) dest (rebase_register base)) opcode

abbrev pub imm_size : ImmMode → ℕ
imm_size do_8 = 1
imm_size do_16 = 2
imm_size no_64 = 4
imm_size normal = 8

-- `none` is the exception for an operand that is relative to rip.
unfoldable pub emit_mem_imm : ℕ → ℕ → Mem → Imm → ℕ → ImmMode → Option Bytes
emit_mem_imm op8 op dest imm rm im_m =
    if dest.reg == rip
    then none
    else some (
        with_address (address_bytes indirect [] dest rm)
          (check_reg_r2m op8 op dest (dest.reg) false)
        ++ emit_imm imm (imm_size im_m))

-- `emit_setX_mem8`
abbrev pub emit_setx_mem8 : ℕ → Mem → Bytes
emit_setx_mem8 op m = emit_reg_to_mem op op m 0 true
