-- ===== src/X86/RoundTrip/Jump.antt =====
-- src/backend/codegen/x86_64_writer.hpp: jumps, followed as the processor does: the distance counts from the
-- byte after the jump, modulo the size of the address.
use occult.Common.{ℕ, ◌+◌, ◌%◌, ◌^◌, drop, length, Bytes, ◌≡◌, arith}
use occult.Bytes.{
  little_endian, of_little_endian, of_little_endian-little_endian, length-little_endian,
}
use occult.X86.Emit.Jump.{relative, emit_short_jump, emit_near_jump, emit_long_jump}

relative-bits8 :
    (target current length : ℕ)
    → (current + length + relative 8 target current length) % 256 ≡ target % 256
relative-bits8 target current length = omega arith

relative-bits32 :
    (target current length : ℕ)
    → (current + length + relative 32 target current length) % 0x100000000 ≡ target % 0x100000000
relative-bits32 target current length = omega arith

-- The four bytes of a distance give it back.
relative-little_endian :
    (target current length : ℕ)
    → of_little_endian (little_endian 4 (relative 32 target current length))
      ≡ relative 32 target current length
relative-little_endian target current length =
    of_little_endian-little_endian 4 (relative 32 target current length) (omega arith)

-- Where a jump with opcode bytes of the given number goes.
unfoldable pub destination : ℕ → ℕ → ℕ → Bytes → ℕ
destination bits opcode_size current jump =
    (current + length jump + of_little_endian (drop opcode_size jump)) % 2 ^ bits

emit_short_jump-destination :
    (opcode target current : ℕ)
    → destination 8 1 current (emit_short_jump opcode target current) ≡ target % 256
unfolding destination emit_short_jump of_little_endian
emit_short_jump-destination opcode target current = omega (arith, relative-bits8 target current 2)

-- A short jump reaches its target modulo 2 ^ 8, a near and a long jump modulo 2 ^ 32, wherever the
-- jump stands in the code and whatever its opcode.
pub emit_jump-destination :
    (opcode target current : ℕ)
    → (destination 8 1 current (emit_short_jump opcode target current) ≡ target % 2 ^ 8)
      × (destination 32 2 current (emit_near_jump opcode target current) ≡ target % 2 ^ 32)
      × (destination 32 1 current (emit_long_jump opcode target current) ≡ target % 2 ^ 32)
unfolding destination emit_near_jump emit_long_jump
emit_jump-destination opcode target current =
    let near = relative-little_endian target current 6 in
    let long = relative-little_endian target current 5 in
    (
      emit_short_jump-destination opcode target current,
      rw (length-little_endian, near) (omega (arith, relative-bits32 target current 6)),
      rw (length-little_endian, long) (omega (arith, relative-bits32 target current 5)),
    )
