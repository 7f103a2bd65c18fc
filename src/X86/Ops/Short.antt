-- ===== src/X86/Ops/Short.antt =====
-- src/backend/codegen/x86_64_writer.hpp: the public methods on jumps by an 8-bit distance.
use occult.Common.{ℕ, Bytes}
use occult.X86.Emit.Jump.{emit_short_jump}
use occult.X86.Opcodes.{
  jb_rel8, jbe_rel8, jl_rel8, jle_rel8, jmp_rel8, jnb_rel8, jnbe_rel8, jnl_rel8, jnle_rel8,
  jno_rel8, jnp_rel8, jns_rel8, jnz_rel8, jo_rel8, jp_rel8, js_rel8, jz_rel8,
}

abbrev pub emit_jo_short : ℕ → ℕ → Bytes
emit_jo_short target current = emit_short_jump jo_rel8 target current

abbrev pub emit_jno_short : ℕ → ℕ → Bytes
emit_jno_short target current = emit_short_jump jno_rel8 target current

abbrev pub emit_jb_short : ℕ → ℕ → Bytes
emit_jb_short target current = emit_short_jump jb_rel8 target current

abbrev pub emit_jnb_short : ℕ → ℕ → Bytes
emit_jnb_short target current = emit_short_jump jnb_rel8 target current

abbrev pub emit_jz_short : ℕ → ℕ → Bytes
emit_jz_short target current = emit_short_jump jz_rel8 target current

abbrev pub emit_jnz_short : ℕ → ℕ → Bytes
emit_jnz_short target current = emit_short_jump jnz_rel8 target current

abbrev pub emit_jbe_short : ℕ → ℕ → Bytes
emit_jbe_short target current = emit_short_jump jbe_rel8 target current

abbrev pub emit_jnbe_short : ℕ → ℕ → Bytes
emit_jnbe_short target current = emit_short_jump jnbe_rel8 target current

abbrev pub emit_js_short : ℕ → ℕ → Bytes
emit_js_short target current = emit_short_jump js_rel8 target current

abbrev pub emit_jns_short : ℕ → ℕ → Bytes
emit_jns_short target current = emit_short_jump jns_rel8 target current

abbrev pub emit_jp_short : ℕ → ℕ → Bytes
emit_jp_short target current = emit_short_jump jp_rel8 target current

abbrev pub emit_jnp_short : ℕ → ℕ → Bytes
emit_jnp_short target current = emit_short_jump jnp_rel8 target current

abbrev pub emit_jl_short : ℕ → ℕ → Bytes
emit_jl_short target current = emit_short_jump jl_rel8 target current

abbrev pub emit_jnl_short : ℕ → ℕ → Bytes
emit_jnl_short target current = emit_short_jump jnl_rel8 target current

abbrev pub emit_jle_short : ℕ → ℕ → Bytes
emit_jle_short target current = emit_short_jump jle_rel8 target current

abbrev pub emit_jnle_short : ℕ → ℕ → Bytes
emit_jnle_short target current = emit_short_jump jnle_rel8 target current

abbrev pub emit_jmp_short : ℕ → ℕ → Bytes
emit_jmp_short target current = emit_short_jump jmp_rel8 target current
