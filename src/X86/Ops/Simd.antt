-- ===== src/X86/Ops/Simd.antt =====
-- src/backend/codegen/x86_64_writer.hpp: the public methods on xmm registers.
use occult.Common.{true, ◌++◌, [], ◌∷◌, Bytes}
use occult.X86.Registers.{Grp}
use occult.X86.Encoding.{rep_prefix, repne_prefix, operand_size_override}
use occult.X86.Memory.{Mem}
use occult.X86.Emit.Prefix.{reg_r8q}
use occult.X86.Emit.Simd.{
  Simd128, is_extended, emit_reg_to_simd128, emit_simd128_to_simd128, emit_conversion,
  emit_simd128_to_mem,
}
use occult.X86.Opcodes.{
  addsd_xmm_to_xmm_or_m64, addss_xmm_to_xmm_or_m32, cvtsd2ss_xmm_or_m64_to_xmm,
  cvtsi2sd_rm32_to_64_to_xmm, cvtss2sd_xmm_or_m32_to_xmm, cvttsd2si_xmm_or_m64_to_r32_to_64,
  divsd_xmm_to_xmm_or_m64, divss_xmm_to_xmm_or_m32, movd_xmm_to_rm32_to_64, movq_rm64_from_xmm,
  movq_xmm_to_rm32_to_64, movsd_xmm_or_m64_to_xmm, movsd_xmm_to_xmm_or_m64, movss_xmm_or_m32_to_xmm,
  movss_xmm_to_xmm_or_m32, mulsd_xmm_to_xmm_or_m64, mulss_xmm_to_xmm_or_m32,
  subsd_xmm_to_xmm_or_m64, subss_xmm_to_xmm_or_m32, xorps_xmm_to_xmm_or_m128,
}

abbrev pub emit_xorps : Simd128 → Simd128 → Bytes
emit_xorps dest base = emit_simd128_to_simd128 [] xorps_xmm_to_xmm_or_m128 dest base

abbrev pub emit_movq : Simd128 → Grp → Bytes
emit_movq dest base =
    emit_reg_to_simd128 movq_xmm_to_rm32_to_64 base dest (operand_size_override ∷ []) true

abbrev pub emit_movq_to_reg : Grp → Simd128 → Bytes
emit_movq_to_reg dest base =
    emit_reg_to_simd128 movq_rm64_from_xmm dest base (operand_size_override ∷ []) true

abbrev pub emit_movd : Simd128 → Grp → Bytes
emit_movd dest base =
    emit_reg_to_simd128 movd_xmm_to_rm32_to_64 base dest (operand_size_override ∷ []) true

abbrev pub emit_addsd : Simd128 → Simd128 → Bytes
emit_addsd dest base = emit_simd128_to_simd128 (repne_prefix ∷ []) addsd_xmm_to_xmm_or_m64 dest base

abbrev pub emit_addss : Simd128 → Simd128 → Bytes
emit_addss dest base = emit_simd128_to_simd128 (rep_prefix ∷ []) addss_xmm_to_xmm_or_m32 dest base

abbrev pub emit_subsd : Simd128 → Simd128 → Bytes
emit_subsd dest base = emit_simd128_to_simd128 (repne_prefix ∷ []) subsd_xmm_to_xmm_or_m64 dest base

abbrev pub emit_subss : Simd128 → Simd128 → Bytes
emit_subss dest base = emit_simd128_to_simd128 (rep_prefix ∷ []) subss_xmm_to_xmm_or_m32 dest base

abbrev pub emit_mulsd : Simd128 → Simd128 → Bytes
emit_mulsd dest base = emit_simd128_to_simd128 (repne_prefix ∷ []) mulsd_xmm_to_xmm_or_m64 dest base

abbrev pub emit_mulss : Simd128 → Simd128 → Bytes
emit_mulss dest base = emit_simd128_to_simd128 (rep_prefix ∷ []) mulss_xmm_to_xmm_or_m32 dest base

abbrev pub emit_divsd : Simd128 → Simd128 → Bytes
emit_divsd dest base = emit_simd128_to_simd128 (repne_prefix ∷ []) divsd_xmm_to_xmm_or_m64 dest base

abbrev pub emit_divss : Simd128 → Simd128 → Bytes
emit_divss dest base = emit_simd128_to_simd128 (rep_prefix ∷ []) divss_xmm_to_xmm_or_m32 dest base

abbrev pub emit_cvttsd2si : Grp → Simd128 → Bytes
emit_cvttsd2si dst src =
    emit_conversion repne_prefix cvttsd2si_xmm_or_m64_to_r32_to_64 dst (reg_r8q dst) src
      (is_extended src)

abbrev pub emit_cvtsi2sd : Simd128 → Grp → Bytes
emit_cvtsi2sd dst src =
    emit_conversion repne_prefix cvtsi2sd_rm32_to_64_to_xmm dst (is_extended dst) src (reg_r8q src)

abbrev pub emit_cvttss2si : Grp → Simd128 → Bytes
emit_cvttss2si dst src =
    emit_conversion rep_prefix cvttsd2si_xmm_or_m64_to_r32_to_64 dst (reg_r8q dst) src
      (is_extended src)

abbrev pub emit_cvtsi2ss : Simd128 → Grp → Bytes
emit_cvtsi2ss dst src =
    emit_conversion rep_prefix cvtsi2sd_rm32_to_64_to_xmm dst (is_extended dst) src (reg_r8q src)

abbrev pub emit_cvtss2sd : Simd128 → Simd128 → Bytes
emit_cvtss2sd dest base =
    emit_simd128_to_simd128 (rep_prefix ∷ []) cvtss2sd_xmm_or_m32_to_xmm dest base

abbrev pub emit_cvtsd2ss : Simd128 → Simd128 → Bytes
emit_cvtsd2ss dest base =
    emit_simd128_to_simd128 (repne_prefix ∷ []) cvtsd2ss_xmm_or_m64_to_xmm dest base

abbrev pub emit_movss : Simd128 → Simd128 → Bytes
emit_movss dest base = emit_simd128_to_simd128 (rep_prefix ∷ []) movsd_xmm_or_m64_to_xmm dest base

abbrev pub emit_movsd : Simd128 → Simd128 → Bytes
emit_movsd dest base = emit_simd128_to_simd128 (repne_prefix ∷ []) movsd_xmm_or_m64_to_xmm dest base

abbrev pub emit_movss_to_mem : Mem → Simd128 → Bytes
emit_movss_to_mem dest base =
    emit_simd128_to_mem movss_xmm_to_xmm_or_m32 base dest (rep_prefix ∷ [])

abbrev pub emit_movss_from_mem : Simd128 → Mem → Bytes
emit_movss_from_mem dest base =
    emit_simd128_to_mem movss_xmm_or_m32_to_xmm dest base (rep_prefix ∷ [])

abbrev pub emit_movsd_to_mem : Mem → Simd128 → Bytes
emit_movsd_to_mem dest base =
    emit_simd128_to_mem movsd_xmm_to_xmm_or_m64 base dest (repne_prefix ∷ [])

abbrev pub emit_movsd_from_mem : Simd128 → Mem → Bytes
emit_movsd_from_mem dest base =
    emit_simd128_to_mem movsd_xmm_or_m64_to_xmm dest base (repne_prefix ∷ [])

abbrev pub emit_fmod_double : Simd128 → Simd128 → Simd128 → Simd128 → Simd128 → Grp → Bytes
emit_fmod_double result x y temp1 temp2 temp_gpr =
    emit_movsd temp1 x
    ++ emit_divsd temp1 y
    ++ emit_cvttsd2si temp_gpr temp1
    ++ emit_cvtsi2sd temp2 temp_gpr
    ++ emit_mulsd temp2 y
    ++ emit_movsd result x
    ++ emit_subsd result temp2

abbrev pub emit_fmod_float : Simd128 → Simd128 → Simd128 → Simd128 → Simd128 → Grp → Bytes
emit_fmod_float result x y temp1 temp2 temp_gpr =
    emit_movss temp1 x
    ++ emit_divss temp1 y
    ++ emit_cvttss2si temp_gpr temp1
    ++ emit_cvtsi2ss temp2 temp_gpr
    ++ emit_mulss temp2 y
    ++ emit_movss result x
    ++ emit_subss result temp2

abbrev pub emit_comiss : Simd128 → Simd128 → Bytes
emit_comiss dest base = emit_simd128_to_simd128 [] 0x2F dest base

abbrev pub emit_comisd : Simd128 → Simd128 → Bytes
emit_comisd dest base = emit_simd128_to_simd128 (operand_size_override ∷ []) 0x2F dest base
