-- ===== src/X86/Opcodes.antt =====
-- src/backend/codegen/x86_64_defs.hpp: the opcodes that the writer uses, by the names of the enumerations
-- `opcode`, `opcode_2b` and `float_opcode_2b`.
use occult.Common.{ℕ}

abbrev pub add_rm8_r8 : ℕ
add_rm8_r8 = 0

abbrev pub add_rm16_to_64_r16_to_64 : ℕ
add_rm16_to_64_r16_to_64 = 1

abbrev pub add_r8_rm8 : ℕ
add_r8_rm8 = 2

abbrev pub add_r16_to_64_rm16_to_64 : ℕ
add_r16_to_64_rm16_to_64 = 3

abbrev pub or_rm8_r8 : ℕ
or_rm8_r8 = 8

abbrev pub or_rm16_to_64_r16_to_64 : ℕ
or_rm16_to_64_r16_to_64 = 9

abbrev pub or_r8_rm8 : ℕ
or_r8_rm8 = 10

abbrev pub or_r16_to_64_rm16_to_64 : ℕ
or_r16_to_64_rm16_to_64 = 11

abbrev pub adc_rm8_r8 : ℕ
adc_rm8_r8 = 16

abbrev pub adc_rm16_to_64_r16_to_64 : ℕ
adc_rm16_to_64_r16_to_64 = 17

abbrev pub adc_r8_rm8 : ℕ
adc_r8_rm8 = 18

abbrev pub adc_r16_to_64_rm16_to_64 : ℕ
adc_r16_to_64_rm16_to_64 = 19

abbrev pub sbb_rm8_r8 : ℕ
sbb_rm8_r8 = 24

abbrev pub sbb_rm16_to_64_r16_to_64 : ℕ
sbb_rm16_to_64_r16_to_64 = 25

abbrev pub sbb_r8_rm8 : ℕ
sbb_r8_rm8 = 26

abbrev pub sbb_r16_to_64_rm16_to_64 : ℕ
sbb_r16_to_64_rm16_to_64 = 27

abbrev pub and_rm8_r8 : ℕ
and_rm8_r8 = 32

abbrev pub and_rm16_to_64_r16_to_64 : ℕ
and_rm16_to_64_r16_to_64 = 33

abbrev pub and_r8_rm8 : ℕ
and_r8_rm8 = 34

abbrev pub and_r16_to_64_rm16_to_64 : ℕ
and_r16_to_64_rm16_to_64 = 35

abbrev pub sub_rm8_r8 : ℕ
sub_rm8_r8 = 40

abbrev pub sub_rm16_to_64_r16_to_64 : ℕ
sub_rm16_to_64_r16_to_64 = 41

abbrev pub sub_r8_rm8 : ℕ
sub_r8_rm8 = 42

abbrev pub sub_r16_to_64_rm16_to_64 : ℕ
sub_r16_to_64_rm16_to_64 = 43

abbrev pub xor_rm8_r8 : ℕ
xor_rm8_r8 = 48

abbrev pub xor_rm16_to_64_r16_to_64 : ℕ
xor_rm16_to_64_r16_to_64 = 49

abbrev pub xor_r8_rm8 : ℕ
xor_r8_rm8 = 50

abbrev pub xor_r16_to_64_rm16_to_64 : ℕ
xor_r16_to_64_rm16_to_64 = 51

abbrev pub cmp_rm8_r8 : ℕ
cmp_rm8_r8 = 56

abbrev pub cmp_rm16_to_64_r16_to_64 : ℕ
cmp_rm16_to_64_r16_to_64 = 57

abbrev pub cmp_r8_rm8 : ℕ
cmp_r8_rm8 = 58

abbrev pub cmp_r16_to_64_rm16_to_64 : ℕ
cmp_r16_to_64_rm16_to_64 = 59

abbrev pub push_r64_or_16 : ℕ
push_r64_or_16 = 80

abbrev pub pop_r64_or_16 : ℕ
pop_r64_or_16 = 88

abbrev pub movsxd_r64_or_32_rm32 : ℕ
movsxd_r64_or_32_rm32 = 99

abbrev pub push_imm16_or_32 : ℕ
push_imm16_or_32 = 104

abbrev pub imul_r16_to_64_rm16_to_64_imm16_to_32 : ℕ
imul_r16_to_64_rm16_to_64_imm16_to_32 = 105

abbrev pub push_imm8 : ℕ
push_imm8 = 106

abbrev pub imul_r16_to_64_rm16_to_64_imm8 : ℕ
imul_r16_to_64_rm16_to_64_imm8 = 107

abbrev pub jo_rel8 : ℕ
jo_rel8 = 112

abbrev pub jno_rel8 : ℕ
jno_rel8 = 113

abbrev pub jb_rel8 : ℕ
jb_rel8 = 114

abbrev pub jnb_rel8 : ℕ
jnb_rel8 = 115

abbrev pub jz_rel8 : ℕ
jz_rel8 = 116

abbrev pub jnz_rel8 : ℕ
jnz_rel8 = 117

abbrev pub jbe_rel8 : ℕ
jbe_rel8 = 118

abbrev pub jnbe_rel8 : ℕ
jnbe_rel8 = 119

abbrev pub js_rel8 : ℕ
js_rel8 = 120

abbrev pub jns_rel8 : ℕ
jns_rel8 = 121

abbrev pub jp_rel8 : ℕ
jp_rel8 = 122

abbrev pub jnp_rel8 : ℕ
jnp_rel8 = 123

abbrev pub jl_rel8 : ℕ
jl_rel8 = 124

abbrev pub jnl_rel8 : ℕ
jnl_rel8 = 125

abbrev pub jle_rel8 : ℕ
jle_rel8 = 126

abbrev pub jnle_rel8 : ℕ
jnle_rel8 = 127

abbrev pub add_rm8_imm8 : ℕ
add_rm8_imm8 = 128

abbrev pub or_rm8_imm8 : ℕ
or_rm8_imm8 = 128

abbrev pub add_rm8_to_64_imm16_or_32 : ℕ
add_rm8_to_64_imm16_or_32 = 129

abbrev pub or_rm8_to_64_imm16_or_32 : ℕ
or_rm8_to_64_imm16_or_32 = 129

abbrev pub test_rm16_to_64_r16_to_64 : ℕ
test_rm16_to_64_r16_to_64 = 133

abbrev pub xchg_r8_rm8 : ℕ
xchg_r8_rm8 = 134

abbrev pub xchg_r16_to_64_rm16_to_64 : ℕ
xchg_r16_to_64_rm16_to_64 = 135

abbrev pub mov_rm8_r8 : ℕ
mov_rm8_r8 = 136

abbrev pub mov_rm16_to_64_r16_to_64 : ℕ
mov_rm16_to_64_r16_to_64 = 137

abbrev pub mov_r8_rm8 : ℕ
mov_r8_rm8 = 138

abbrev pub mov_r16_to_64_rm16_to_64 : ℕ
mov_r16_to_64_rm16_to_64 = 139

abbrev pub lea_r16_to_64_mem : ℕ
lea_r16_to_64_mem = 141

abbrev pub pop_rm16_to_64 : ℕ
pop_rm16_to_64 = 143

abbrev pub nop : ℕ
nop = 144

abbrev pub cwd : ℕ
cwd = 153

abbrev pub mov_r8_imm8 : ℕ
mov_r8_imm8 = 176

abbrev pub mov_r16_to_64_imm16_to_64 : ℕ
mov_r16_to_64_imm16_to_64 = 184

abbrev pub rol_rm8_imm8 : ℕ
rol_rm8_imm8 = 192

abbrev pub rol_rm16_to_64_imm8 : ℕ
rol_rm16_to_64_imm8 = 193

abbrev pub retn : ℕ
retn = 195

abbrev pub mov_rm8_imm8 : ℕ
mov_rm8_imm8 = 198

abbrev pub mov_rm16_to_64_imm16_or_32 : ℕ
mov_rm16_to_64_imm16_or_32 = 199

abbrev pub retf : ℕ
retf = 203

abbrev pub shr_rm8_cl : ℕ
shr_rm8_cl = 210

abbrev pub sar_rm8_cl : ℕ
sar_rm8_cl = 210

abbrev pub shr_rm16_to_64_cl : ℕ
shr_rm16_to_64_cl = 211

abbrev pub sar_rm16_to_64_cl : ℕ
sar_rm16_to_64_cl = 211

abbrev pub test_rm8_imm8 : ℕ
test_rm8_imm8 = 246

abbrev pub not_rm8 : ℕ
not_rm8 = 246

abbrev pub mul_ax_al_rm8 : ℕ
mul_ax_al_rm8 = 246

abbrev pub test_rm16_to_64_imm16_or_32 : ℕ
test_rm16_to_64_imm16_or_32 = 247

abbrev pub not_rm16_to_64 : ℕ
not_rm16_to_64 = 247

abbrev pub mul_rdx_rax_rm16_to_64 : ℕ
mul_rdx_rax_rm16_to_64 = 247

abbrev pub inc_rm8 : ℕ
inc_rm8 = 254

abbrev pub dec_rm8 : ℕ
dec_rm8 = 254

abbrev pub inc_rm16_to_64 : ℕ
inc_rm16_to_64 = 255

abbrev pub call_rm16_or_32 : ℕ
call_rm16_or_32 = 255

abbrev pub jmp_rm16_or_32 : ℕ
jmp_rm16_or_32 = 255

abbrev pub push_rm16_or_32 : ℕ
push_rm16_or_32 = 255

abbrev pub call_rel32 : ℕ
call_rel32 = 232

abbrev pub jmp_rel32 : ℕ
jmp_rel32 = 233

abbrev pub jmp_rel8 : ℕ
jmp_rel8 = 235

abbrev pub syscall : ℕ
syscall = 5

abbrev pub jo_rel32 : ℕ
jo_rel32 = 128

abbrev pub jno_rel32 : ℕ
jno_rel32 = 129

abbrev pub jb_rel32 : ℕ
jb_rel32 = 130

abbrev pub jnb_rel32 : ℕ
jnb_rel32 = 131

abbrev pub jz_rel32 : ℕ
jz_rel32 = 132

abbrev pub jnz_rel32 : ℕ
jnz_rel32 = 133

abbrev pub jbe_rel32 : ℕ
jbe_rel32 = 134

abbrev pub jnbe_rel32 : ℕ
jnbe_rel32 = 135

abbrev pub js_rel32 : ℕ
js_rel32 = 136

abbrev pub jns_rel32 : ℕ
jns_rel32 = 137

abbrev pub jp_rel32 : ℕ
jp_rel32 = 138

abbrev pub jnp_rel32 : ℕ
jnp_rel32 = 139

abbrev pub jl_rel32 : ℕ
jl_rel32 = 140

abbrev pub jnl_rel32 : ℕ
jnl_rel32 = 141

abbrev pub jle_rel32 : ℕ
jle_rel32 = 142

abbrev pub jnle_rel32 : ℕ
jnle_rel32 = 143

abbrev pub seto_rm8 : ℕ
seto_rm8 = 144

abbrev pub setno_rm8 : ℕ
setno_rm8 = 145

abbrev pub setb_rm8 : ℕ
setb_rm8 = 146

abbrev pub setnb_rm8 : ℕ
setnb_rm8 = 147

abbrev pub setz_rm8 : ℕ
setz_rm8 = 148

abbrev pub setnz_rm8 : ℕ
setnz_rm8 = 149

abbrev pub setbe_rm8 : ℕ
setbe_rm8 = 150

abbrev pub setnbe_rm8 : ℕ
setnbe_rm8 = 151

abbrev pub sets_rm8 : ℕ
sets_rm8 = 153

abbrev pub setns_rm8 : ℕ
setns_rm8 = 153

abbrev pub setp_rm8 : ℕ
setp_rm8 = 154

abbrev pub setnp_rm8 : ℕ
setnp_rm8 = 155

abbrev pub setl_rm8 : ℕ
setl_rm8 = 156

abbrev pub setnl_rm8 : ℕ
setnl_rm8 = 157

abbrev pub setle_rm8 : ℕ
setle_rm8 = 158

abbrev pub setnle_rm8 : ℕ
setnle_rm8 = 159

abbrev pub movzx_r16_to_64_rm8 : ℕ
movzx_r16_to_64_rm8 = 182

abbrev pub movzx_r16_to_64_rm16 : ℕ
movzx_r16_to_64_rm16 = 183

abbrev pub movsx_r16_to_64_rm8 : ℕ
movsx_r16_to_64_rm8 = 190

abbrev pub movsx_r16_to_64_rm16 : ℕ
movsx_r16_to_64_rm16 = 191

abbrev pub xorps_xmm_to_xmm_or_m128 : ℕ
xorps_xmm_to_xmm_or_m128 = 87

abbrev pub addss_xmm_to_xmm_or_m32 : ℕ
addss_xmm_to_xmm_or_m32 = 88

abbrev pub addsd_xmm_to_xmm_or_m64 : ℕ
addsd_xmm_to_xmm_or_m64 = 88

abbrev pub mulss_xmm_to_xmm_or_m32 : ℕ
mulss_xmm_to_xmm_or_m32 = 89

abbrev pub mulsd_xmm_to_xmm_or_m64 : ℕ
mulsd_xmm_to_xmm_or_m64 = 89

abbrev pub subss_xmm_to_xmm_or_m32 : ℕ
subss_xmm_to_xmm_or_m32 = 92

abbrev pub subsd_xmm_to_xmm_or_m64 : ℕ
subsd_xmm_to_xmm_or_m64 = 92

abbrev pub divss_xmm_to_xmm_or_m32 : ℕ
divss_xmm_to_xmm_or_m32 = 94

abbrev pub divsd_xmm_to_xmm_or_m64 : ℕ
divsd_xmm_to_xmm_or_m64 = 94

abbrev pub movd_xmm_to_rm32_to_64 : ℕ
movd_xmm_to_rm32_to_64 = 110

abbrev pub movq_xmm_to_rm32_to_64 : ℕ
movq_xmm_to_rm32_to_64 = 110

abbrev pub movq_rm64_from_xmm : ℕ
movq_rm64_from_xmm = 126

abbrev pub movss_xmm_to_xmm_or_m32 : ℕ
movss_xmm_to_xmm_or_m32 = 17

abbrev pub movsd_xmm_to_xmm_or_m64 : ℕ
movsd_xmm_to_xmm_or_m64 = 17

abbrev pub movss_xmm_or_m32_to_xmm : ℕ
movss_xmm_or_m32_to_xmm = 16

abbrev pub movsd_xmm_or_m64_to_xmm : ℕ
movsd_xmm_or_m64_to_xmm = 16

abbrev pub cvttsd2si_xmm_or_m64_to_r32_to_64 : ℕ
cvttsd2si_xmm_or_m64_to_r32_to_64 = 44

abbrev pub cvtsi2sd_rm32_to_64_to_xmm : ℕ
cvtsi2sd_rm32_to_64_to_xmm = 42

abbrev pub cvtss2sd_xmm_or_m32_to_xmm : ℕ
cvtss2sd_xmm_or_m32_to_xmm = 90

abbrev pub cvtsd2ss_xmm_or_m64_to_xmm : ℕ
cvtsd2ss_xmm_or_m64_to_xmm = 90
