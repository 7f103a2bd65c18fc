-- ===== src/X86/Ops/Near.antt =====
-- src/backend/codegen/x86_64_writer.hpp: the public methods on jumps and calls by a 32-bit distance.
use occult.Common.{ℕ, Bytes}
use occult.X86.Emit.Jump.{emit_near_jump, emit_long_jump}
use occult.X86.Opcodes.{
  call_rel32, jb_rel32, jbe_rel32, jl_rel32, jle_rel32, jmp_rel32, jnb_rel32, jnbe_rel32, jnl_rel32,
  jnle_rel32, jno_rel32, jnp_rel32, jns_rel32, jnz_rel32, jo_rel32, jp_rel32, js_rel32, jz_rel32,
}

abbrev pub emit_jo_near : ℕ → ℕ → Bytes
emit_jo_near target current = emit_near_jump jo_rel32 target current

abbrev pub emit_jno_near : ℕ → ℕ → Bytes
emit_jno_near target current = emit_near_jump jno_rel32 target current

abbrev pub emit_jb_near : ℕ → ℕ → Bytes
emit_jb_near target current = emit_near_jump jb_rel32 target current

abbrev pub emit_jnb_near : ℕ → ℕ → Bytes
emit_jnb_near target current = emit_near_jump jnb_rel32 target current

abbrev pub emit_jz_near : ℕ → ℕ → Bytes
emit_jz_near target current = emit_near_jump jz_rel32 target current

abbrev pub emit_jnz_near : ℕ → ℕ → Bytes
emit_jnz_near target current = emit_near_jump jnz_rel32 target current

abbrev pub emit_jbe_near : ℕ → ℕ → Bytes
emit_jbe_near target current = emit_near_jump jbe_rel32 target current

abbrev pub emit_jnbe_near : ℕ → ℕ → Bytes
emit_jnbe_near target current = emit_near_jump jnbe_rel32 target current

abbrev pub emit_js_near : ℕ → ℕ → Bytes
emit_js_near target current = emit_near_jump js_rel32 target current

abbrev pub emit_jns_near : ℕ → ℕ → Bytes
emit_jns_near target current = emit_near_jump jns_rel32 target current

abbrev pub emit_jp_near : ℕ → ℕ → Bytes
emit_jp_near target current = emit_near_jump jp_rel32 target current

abbrev pub emit_jnp_near : ℕ → ℕ → Bytes
emit_jnp_near target current = emit_near_jump jnp_rel32 target current

abbrev pub emit_jl_near : ℕ → ℕ → Bytes
emit_jl_near target current = emit_near_jump jl_rel32 target current

abbrev pub emit_jnl_near : ℕ → ℕ → Bytes
emit_jnl_near target current = emit_near_jump jnl_rel32 target current

abbrev pub emit_jle_near : ℕ → ℕ → Bytes
emit_jle_near target current = emit_near_jump jle_rel32 target current

abbrev pub emit_jnle_near : ℕ → ℕ → Bytes
emit_jnle_near target current = emit_near_jump jnle_rel32 target current

abbrev pub emit_call : ℕ → ℕ → Bytes
emit_call target current = emit_long_jump call_rel32 target current

abbrev pub emit_jmp_near : ℕ → ℕ → Bytes
emit_jmp_near target current = emit_long_jump jmp_rel32 target current
