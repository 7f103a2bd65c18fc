-- ===== src/X86/RoundTrip/SimdMemory.antt =====
-- src/backend/codegen/x86_64_writer.hpp: moves between an xmm register and memory in 64-bit registers, decoded.
use occult.Common.{
  ℕ, ◌<◌, Bool, true, false, ◌&&◌, not, ◌==◌, some, ◌++◌, [], ◌∷◌, Bytes, append-append, ◌≡◌, refl,
  arith,
}
use occult.X86.Encoding.{rex_of}
use occult.X86.Numbering.{bits32, bits64, grp_of}
use occult.X86.Memory.{Mem, is_scaled}
use occult.X86.Place.{
  Place, at, offset, indexed, indexed_offset, mem_of, operand_of, rex_b_of, rex_x_of, is_place,
  base_field, base_field-lt, mem_of-reg,
}
use occult.X86.Emit.Prefix.{reg_r8q}
use occult.X86.Emit.Simd.{is_extended, check_reg_r2m_simd, simd_address_bytes, emit_simd128_to_mem}
use occult.X86.Decoder.{decode, decode_head, is_prefix, extend, Head}
use occult.X86.RoundTrip.Ranges.{
  reg_r8b-grp_of, reg_8-grp_of, reg_r8w-grp_of, reg_16-grp_of, reg_r8d-grp_of, reg_32-grp_of,
  reg_r8q-grp_of, reg_64-grp_of, needs_rex-grp_of, is_stack_ptr-grp_of, is_stack_base_ptr-grp_of,
  rebase_register-grp_of,
}
use occult.X86.RoundTrip.Bytes.{decode_head-plain}
use occult.X86.RoundTrip.Memory.{mem_of-ne-rip, mem_of-index}
use occult.X86.RoundTrip.Address.{place_bytes, decode_modrm-place_bytes}

-- The REX byte before the prefix: an xmm register from 8 on is taken for a 32-bit register.
abbrev stray_rex : Bool → Bool → Bool → ℕ
stray_rex true x b = rex_of false true x false
stray_rex false x b = rex_of true false x b

module _ (op p : ℕ) (m : Mem) (eb : Bool) (fb : ℕ) (small : fb < 8)
    (dest : m.reg ≡ grp_of bits64 eb fb) where
  check_reg_r2m_simd-stray_rex :
      (x e : Bool) (f : ℕ)
      → f < 8
      → (is_scaled (m.mode) && reg_r8q (m.index)) ≡ x
      → check_reg_r2m_simd op op m (extend e f) (p ∷ []) e ≡ stray_rex e x eb ∷ p ∷ 0x0F ∷ op ∷ []
  unfolding check_reg_r2m_simd
  check_reg_r2m_simd-stray_rex x true f h index =
      rw (dest, index, needs_rex-grp_of bits32 eb fb false f small h)
        (rw
          (
            reg_r8b-grp_of, reg_8-grp_of, reg_r8w-grp_of, reg_16-grp_of, reg_r8d-grp_of,
            reg_32-grp_of, reg_r8q-grp_of, reg_64-grp_of,
          )
          (rw
            (
              reg_r8b-grp_of bits32 false f h,
              reg_8-grp_of bits32 false f h,
              reg_r8w-grp_of bits32 false f h,
              reg_16-grp_of bits32 false f h,
              reg_r8d-grp_of bits32 false f h,
              reg_32-grp_of bits32 false f h,
            )
            (ground arith)))
  check_reg_r2m_simd-stray_rex x false f h index =
      rw (dest, index, needs_rex-grp_of bits64 eb fb false f small h)
        (rw
          (
            reg_r8b-grp_of, reg_8-grp_of, reg_r8w-grp_of, reg_16-grp_of, reg_r8d-grp_of,
            reg_32-grp_of, reg_r8q-grp_of, reg_64-grp_of,
          )
          (rw
            (
              reg_r8b-grp_of bits64 false f h,
              reg_8-grp_of bits64 false f h,
              reg_r8w-grp_of bits64 false f h,
              reg_16-grp_of bits64 false f h,
              reg_r8d-grp_of bits64 false f h,
              reg_32-grp_of bits64 false f h,
              reg_r8q-grp_of bits64 false f h,
              reg_64-grp_of bits64 false f h,
            )
            (ground arith)))

mem_of-stray_rex :
    (op p : ℕ) (place : Place) (e : Bool) (f : ℕ)
    → f < 8
    → is_place place ≡ true
    → check_reg_r2m_simd op op (mem_of place) (extend e f) (p ∷ []) e
      ≡ stray_rex e (rex_x_of place) (rex_b_of place) ∷ p ∷ 0x0F ∷ op ∷ []
mem_of-stray_rex op p place e f small valid =
    check_reg_r2m_simd-stray_rex op p (mem_of place) (rex_b_of place) (base_field place)
      (base_field-lt place valid) (mem_of-reg place) (rex_x_of place) e f small
      (mem_of-index place valid)

-- A place with every register replaced by the one of the same field below 8.
abbrev pub lowered : Place → Place
lowered (at e f) = at false f
lowered (offset e f d) = offset false f d
lowered (indexed e f ei fi s) = indexed false f false fi s
lowered (indexed_offset e f ei fi s d) = indexed_offset false f false fi s d

lowered-rex :
    (place : Place) → (false ≡ rex_b_of (lowered place)) × (false ≡ rex_x_of (lowered place))
lowered-rex (at e f) = (refl, refl)
lowered-rex (offset e f d) = (refl, refl)
lowered-rex (indexed e f ei fi s) = (refl, refl)
lowered-rex (indexed_offset e f ei fi s d) = (refl, refl)

-- The places whose addressing bytes are those of the general instructions.
abbrev pub is_simd_place : Place → Bool
is_simd_place (at e f) = f == 4
is_simd_place (offset e f d) = true
is_simd_place (indexed e f ei fi s) = not (f == 5)
is_simd_place (indexed_offset e f ei fi s d) = true

simd_address_bytes-place_bytes :
    (place : Place) (n : ℕ)
    → is_place place ≡ true
    → is_simd_place place ≡ true
    → simd_address_bytes (mem_of place) n ≡ some (place_bytes true n (lowered place))
unfolding simd_address_bytes
simd_address_bytes-place_bytes (at e f) n valid simd =
    let small : f < 8 = ground arith in
    rw
      (
        is_stack_ptr-grp_of e f small,
        is_stack_base_ptr-grp_of e f small,
        rebase_register-grp_of bits64 e f small,
      )
      (ground arith)
simd_address_bytes-place_bytes (offset e f d) n valid simd =
    let small : f < 8 = ground arith in
    rw (is_stack_ptr-grp_of e f small, rebase_register-grp_of bits64 e f small) (ground arith)
simd_address_bytes-place_bytes (indexed e f ei fi s) n valid simd =
    let small : f < 8 = ground arith in rw (rebase_register-grp_of bits64 e f small) (ground arith)
simd_address_bytes-place_bytes (indexed_offset e f ei fi s d) n valid simd =
    let small : f < 8 = ground arith in rw (rebase_register-grp_of bits64 e f small) (ground arith)

-- A REX byte before the prefix is not read.
decode_head-stray_rex :
    (e x b : Bool) (p op : ℕ) (rest : Bytes)
    → is_prefix p ≡ true
    → decode_head [] (stray_rex e x b ∷ p ∷ 0x0F ∷ op ∷ rest)
      ≡ decode_head (p ∷ []) (0x0F ∷ op ∷ rest)
unfolding decode_head
decode_head-stray_rex true x b p op rest valid = ground arith
decode_head-stray_rex false x b p op rest valid = ground arith

-- A move between an xmm register and memory in 64-bit registers is read as one of the registers
-- with the same three bits below 8, whatever they were, and with the same scale and displacement,
-- since the REX byte stands before the prefix. The operand is not a register alone, except rsp and
-- r12, and has no rbp or r13 with an index alone; the index is not rsp or r12 and the displacement
-- has 32 bits.
pub decode-emit_simd128_to_mem :
    (op p : ℕ) (place : Place) (e : Bool) (f : ℕ) (rest : Bytes)
    → is_prefix p ≡ true
    → f < 8
    → is_place place ≡ true
    → is_place (lowered place) ≡ true
    → is_simd_place place ≡ true
    → decode (emit_simd128_to_mem op (extend e f) (mem_of place) (p ∷ []) ++ rest)
      ≡ some (record {
        prefixes = p ∷ [];
        has_rex = false;
        wide = false;
        two_byte = true;
        opcode = op;
        reg = f;
        rm = operand_of (lowered place);
        rest = rest;
      })
unfolding emit_simd128_to_mem decode
decode-emit_simd128_to_mem op p place e f rest prefix small valid low simd =
    let n = extend e f in
    let bytes = place_bytes true n (lowered place) in
    let h : Head = record {
      prefixes = p ∷ [];
      has_rex = false;
      w = false;
      r = false;
      x = false;
      b = false;
      two_byte = true;
      opcode = op;
      rest = bytes ++ rest;
    } in
    let extended : is_extended n ≡ e = ground arith in
    rw
      (
        extended,
        mem_of-ne-rip place valid,
        simd_address_bytes-place_bytes place n valid simd,
        mem_of-stray_rex op p place e f small valid,
        append-append,
        decode_head-stray_rex e (rex_x_of place) (rex_b_of place) p op (bytes ++ rest) prefix,
        decode_head-plain true op (p ∷ []) (bytes ++ rest) refl,
        decode_modrm-place_bytes h true n rest (lowered place) low (lowered-rex place).0
            (lowered-rex place).1,
      )
      (ground arith)
