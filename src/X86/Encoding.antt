-- ===== src/X86/Encoding.antt =====
-- src/backend/codegen/x86_64_defs.hpp: prefixes, the ModRM and the SIB byte. The fields that the source
-- joins by `|` have no bit in common, so their sum is meant.
use occult.Common.{ℕ, ◌+◌, ◌*◌, ◌%◌, Bool, if◌then◌else◌}
use occult.X86.Registers.{Grp, rebase_register}

-- `rex | w | r | x | b`, each bit if its flag is set.
abbrev pub rex_bit : ℕ → Bool → ℕ
rex_bit bit flag = if flag then bit else 0

abbrev pub rex_of : Bool → Bool → Bool → Bool → ℕ
rex_of w r x b = 0x40 + rex_bit 8 w + rex_bit 4 r + rex_bit 2 x + rex_bit 1 b

abbrev pub rex_b : ℕ
rex_b = 0x41

abbrev pub rex_r : ℕ
rex_r = 0x44

abbrev pub rex_rb : ℕ
rex_rb = 0x45

abbrev pub rex_w : ℕ
rex_w = 0x48

abbrev pub rex_wb : ℕ
rex_wb = 0x49

abbrev pub rex_wr : ℕ
rex_wr = 0x4C

abbrev pub rex_wrb : ℕ
rex_wrb = 0x4D

abbrev pub operand_size_override : ℕ
operand_size_override = 0x66

-- `k2ByteOpcodePrefix`, `kSpecialSIBIndex`, `kREP_Prefix` and `kREPNE_Prefix`
abbrev pub two_byte_opcode_prefix : ℕ
two_byte_opcode_prefix = 0x0F

abbrev pub special_sib_index : ℕ
special_sib_index = 4

abbrev pub rep_prefix : ℕ
rep_prefix = 0xF3

abbrev pub repne_prefix : ℕ
repne_prefix = 0xF2

-- `rm_field::indexed` and `rm_field::rip_relative`
abbrev pub indexed : ℕ
indexed = 4

abbrev pub rip_relative : ℕ
rip_relative = 5

-- `mod_field`
abbrev pub indirect : ℕ
indirect = 0

abbrev pub disp8 : ℕ
disp8 = 1

abbrev pub disp32 : ℕ
disp32 = 2

abbrev pub register_direct : ℕ
register_direct = 3

-- `modrm::operator std::uint8_t`, with the fields in the order of the byte. The constructors of the
-- source take the register or the r/m field first, as their argument types say.
abbrev pub modrm : ℕ → ℕ → ℕ → ℕ
modrm mode reg rm = mode % 4 * 64 + reg % 8 * 8 + rm % 8

-- `sib::operator std::uint8_t`
abbrev pub sib : ℕ → Grp → Grp → ℕ
sib scale index base = scale * 64 % 256 + rebase_register index * 8 + rebase_register base
