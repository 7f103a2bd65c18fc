-- ===== src/X86/RoundTrip/Address.antt =====
-- src/backend/codegen/x86_64_writer.hpp: the ModRM byte, the SIB byte and the displacement of a memory
-- operand, decoded.
use occult.Common.{
  ℕ, ◌%◌, ◌<◌, Bool, true, ◌==◌, some, ◌++◌, [], ◌∷◌, Bytes, ap, ◌≡◌, arith, if◌then◌else◌,
}
use occult.Bytes.{little_endian, of_little_endian-little_endian}
use occult.X86.Encoding.{modrm, sib}
use occult.X86.Numbering.{bits64}
use occult.X86.Place.{
  Place, at, offset, indexed, indexed_offset, mem_of, operand_of, rex_b_of, rex_x_of, is_place,
}
use occult.X86.Emit.Memory.{address_bytes}
use occult.X86.Decoder.{
  Head, decode_modrm, decode_operand, decode_sib, decode_disp, decode_disp32, extend, instruction,
}
use occult.X86.RoundTrip.Ranges.{
  is_stack_ptr-grp_of, is_stack_base_ptr-grp_of, rebase_register-grp_of,
}

pub decode_disp32-little_endian :
    (d : ℕ) (rest : Bytes)
    → d < 0x100000000
    → decode_disp32 (little_endian 4 d ++ rest) ≡ some (d, rest)
unfolding little_endian
decode_disp32-little_endian d rest h =
    ap (λ (v : ℕ). some (v, rest)) (of_little_endian-little_endian 4 d (omega arith))

-- The mode and the displacement of `[reg]`: a zero displacement of 8 bits, or none.
abbrev pub plain_mode : Bool → ℕ
plain_mode short = if short then 1 else 0

abbrev pub plain_disp : Bool → Bytes
plain_disp short = if short then 0 ∷ [] else []

-- The bytes of a place, by its fields.
abbrev pub place_bytes : Bool → ℕ → Place → Bytes
place_bytes short reg (at e f) =
    if f == 4
    then modrm 0 reg 4 ∷ sib 0 4 f ∷ []
    else if f == 5
    then modrm 1 reg f ∷ 0 ∷ []
    else modrm (plain_mode short) reg f ∷ plain_disp short
place_bytes short reg (offset e f d) =
    if f == 4
    then modrm 2 reg 4 ∷ sib 0 4 f ∷ little_endian 4 d
    else modrm 2 reg f ∷ little_endian 4 d
place_bytes short reg (indexed e f ei fi s) =
    if f == 5
    then modrm 2 reg 4 ∷ sib s fi f ∷ little_endian 4 0
    else modrm 0 reg 4 ∷ sib s fi f ∷ []
place_bytes short reg (indexed_offset e f ei fi s d) =
    modrm 2 reg 4 ∷ sib s fi f ∷ little_endian 4 d

pub address_bytes-place_bytes :
    (short : Bool) (reg : ℕ) (place : Place)
    → is_place place ≡ true
    → address_bytes (plain_mode short) (plain_disp short) (mem_of place) reg
      ≡ some (place_bytes short reg place)
unfolding address_bytes
address_bytes-place_bytes short reg (at e f) valid =
    let small : f < 8 = ground arith in
    rw
      (
        is_stack_ptr-grp_of e f small,
        is_stack_base_ptr-grp_of e f small,
        rebase_register-grp_of bits64 e f small,
      )
      (ground arith)
address_bytes-place_bytes short reg (offset e f d) valid =
    let small : f < 8 = ground arith in
    rw (is_stack_ptr-grp_of e f small, rebase_register-grp_of bits64 e f small) (ground arith)
address_bytes-place_bytes short reg (indexed e f ei fi s) valid =
    let small : f < 8 = ground arith in
    rw (is_stack_base_ptr-grp_of e f small, rebase_register-grp_of bits64 e f small) (ground arith)
address_bytes-place_bytes short reg (indexed_offset e f ei fi s d) valid =
    let small : f < 8 = ground arith in rw (rebase_register-grp_of bits64 e f small) (ground arith)

module _ (h : Head) (short : Bool) (reg : ℕ) (rest : Bytes) where
  pub decode_modrm-place_bytes :
      (place : Place)
      → is_place place ≡ true
      → h.b ≡ rex_b_of place
      → h.x ≡ rex_x_of place
      → decode_modrm h (place_bytes short reg place ++ rest)
        ≡ some (instruction h (extend (h.r) (reg % 8)) (operand_of place, rest))
  unfolding decode_modrm decode_operand decode_sib decode_disp
  decode_modrm-place_bytes (at e f) valid b x = rw (b, x) (ground arith)
  decode_modrm-place_bytes (offset e f d) valid b x =
      rw (b, x) (ground (arith, decode_disp32-little_endian d rest))
  decode_modrm-place_bytes (indexed e f ei fi s) valid b x =
      rw (b, x) (ground (arith, decode_disp32-little_endian 0 rest))
  decode_modrm-place_bytes (indexed_offset e f ei fi s d) valid b x =
      rw (b, x) (ground (arith, decode_disp32-little_endian d rest))
