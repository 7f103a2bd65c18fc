-- ===== src/X86/RoundTrip/Bytes.antt =====
-- src/backend/codegen/x86_64_writer.hpp: the decoder on the prefixes, the opcode and the ModRM byte that every
-- instruction of the encoder is made of.
use occult.Common.{
  ℕ, ◌/◌, ◌%◌, ◌<◌, Bool, true, false, ◌||◌, not, ◌==◌, some, ◌++◌, [], ◌∷◌, Bytes, ◌≡◌, arith,
}
use occult.X86.Encoding.{rex_of, modrm}
use occult.X86.Emit.Prefix.{two_byte}
use occult.X86.Numbering.{
  Width, bits8, bits16, bits32, bits64, size_prefix, is_wide, opcode_of, has_rex,
}
use occult.X86.Emit.Memory.{needed_rex}
use occult.X86.Decoder.{Head, is_prefix, is_rex, decode_rex, decode_opcode, decode_head}

-- An opcode that is no prefix byte, or stands after 0x0F.
abbrev pub is_opcode : Bool → ℕ → Bool
is_opcode two op = two || not (is_prefix op || is_rex op || op == 0x0F)

pub decode_head-rex :
    (w r x b two : Bool) (op : ℕ) (prefixes rest : Bytes)
    → is_opcode two op ≡ true
    → decode_head prefixes (rex_of w r x b ∷ two_byte two ++ (op ∷ rest))
      ≡ some (record {
        prefixes = prefixes;
        has_rex = true;
        w = w;
        r = r;
        x = x;
        b = b;
        two_byte = two;
        opcode = op;
        rest = rest;
      })
unfolding decode_head decode_rex decode_opcode
decode_head-rex w r x b two op prefixes rest h = ground arith

pub decode_head-plain :
    (two : Bool) (op : ℕ) (prefixes rest : Bytes)
    → is_opcode two op ≡ true
    → decode_head prefixes (two_byte two ++ (op ∷ rest))
      ≡ some (record {
        prefixes = prefixes;
        has_rex = false;
        w = false;
        r = false;
        x = false;
        b = false;
        two_byte = two;
        opcode = op;
        rest = rest;
      })
unfolding decode_head decode_rex decode_opcode
decode_head-plain two op prefixes rest h = ground arith

-- The prefixes and the opcode of an operation of a width, with the bits that REX carries.
abbrev pub head_bytes : Width → Bool → Bool → Bool → Bool → ℕ → ℕ → Bytes
head_bytes bits64 r x b two op8 op = rex_of true r x b ∷ two_byte two ++ (op ∷ [])
head_bytes bits16 r x b two op8 op = 0x66 ∷ needed_rex r x b ++ two_byte two ++ (op ∷ [])
head_bytes bits32 r x b two op8 op = needed_rex r x b ++ two_byte two ++ (op ∷ [])
head_bytes bits8 r x b two op8 op = needed_rex r x b ++ two_byte two ++ (op8 ∷ [])

abbrev pub read_head : Width → Bool → Bool → Bool → Bool → ℕ → ℕ → Bytes → Head
read_head width r x b two op8 op rest = record {
  prefixes = size_prefix width;
  has_rex = has_rex width (r || x || b);
  w = is_wide width;
  r = r;
  x = x;
  b = b;
  two_byte = two;
  opcode = opcode_of width op8 op;
  rest = rest;
}

pub decode_head-head_bytes :
    (width : Width) (r x b two : Bool) (op8 op : ℕ) (rest : Bytes)
    → is_opcode two (opcode_of width op8 op) ≡ true
    → decode_head [] (head_bytes width r x b two op8 op ++ rest)
      ≡ some (read_head width r x b two op8 op rest)
unfolding decode_head decode_rex decode_opcode
decode_head-head_bytes bits8 r x b two op8 op rest h = ground arith
decode_head-head_bytes bits16 r x b two op8 op rest h = ground arith
decode_head-head_bytes bits32 r x b two op8 op rest h = ground arith
decode_head-head_bytes bits64 r x b two op8 op rest h = ground arith

pub modrm-mode : (mode reg rm : ℕ) → mode < 4 → modrm mode reg rm / 64 ≡ mode
modrm-mode mode reg rm h = omega arith

pub modrm-reg : (mode reg rm : ℕ) → modrm mode reg rm / 8 % 8 ≡ reg % 8
modrm-reg mode reg rm = omega arith

pub modrm-rm : (mode reg rm : ℕ) → modrm mode reg rm % 8 ≡ rm % 8
modrm-rm mode reg rm = omega arith
