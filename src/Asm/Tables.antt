-- ===== src/Asm/Tables.antt =====
-- src/backend/codegen/x86_64_assembler_defs.hpp: the tables of the inline assembler.
use occult.Common.{ℕ, Bool, ◌||◌, Option, none, some, List, [], ◌∷◌, Bytes, codes, is_some}
use occult.Linker.Link.{find}
use occult.X86.Registers
use occult.X86.Registers.{Grp}
use occult.X86.Emit.Simd.{Simd128}
use occult.Asm.Token
use occult.Asm.Token.{InstrToken}

unfoldable pub assembler_token_to_gpr64 : List (InstrToken × Grp)
assembler_token_to_gpr64 =
    (Token.rax, Registers.rax)
    ∷ (Token.rcx, Registers.rcx)
    ∷ (Token.rdx, Registers.rdx)
    ∷ (Token.rbx, Registers.rbx)
    ∷ (Token.rsp, Registers.rsp)
    ∷ (Token.rbp, Registers.rbp)
    ∷ (Token.rsi, Registers.rsi)
    ∷ (Token.rdi, Registers.rdi)
    ∷ (Token.r8, Registers.r8)
    ∷ (Token.r9, Registers.r9)
    ∷ (Token.r10, Registers.r10)
    ∷ (Token.r11, Registers.r11)
    ∷ (Token.r12, Registers.r12)
    ∷ (Token.r13, Registers.r13)
    ∷ (Token.r14, Registers.r14)
    ∷ (Token.r15, Registers.r15)
    ∷ (Token.rip, Registers.rip)
    ∷ []

unfoldable pub assembler_token_to_gpr32 : List (InstrToken × Grp)
assembler_token_to_gpr32 =
    (Token.eax, Registers.rax)
    ∷ (Token.ecx, Registers.rcx)
    ∷ (Token.edx, Registers.rdx)
    ∷ (Token.ebx, Registers.rbx)
    ∷ (Token.esp, Registers.rsp)
    ∷ (Token.ebp, Registers.rbp)
    ∷ (Token.esi, Registers.rsi)
    ∷ (Token.edi, Registers.rdi)
    ∷ (Token.r8d, Registers.r8)
    ∷ (Token.r9d, Registers.r9)
    ∷ (Token.r10d, Registers.r10)
    ∷ (Token.r11d, Registers.r11)
    ∷ (Token.r12d, Registers.r12)
    ∷ (Token.r13d, Registers.r13)
    ∷ (Token.r14d, Registers.r14)
    ∷ (Token.r15d, Registers.r15)
    ∷ []

unfoldable pub assembler_token_to_gpr16 : List (InstrToken × Grp)
assembler_token_to_gpr16 =
    (Token.ax, Registers.rax)
    ∷ (Token.cx, Registers.rcx)
    ∷ (Token.dx, Registers.rdx)
    ∷ (Token.bx, Registers.rbx)
    ∷ (Token.sp, Registers.rsp)
    ∷ (Token.bp, Registers.rbp)
    ∷ (Token.si, Registers.rsi)
    ∷ (Token.di, Registers.rdi)
    ∷ (Token.r8w, Registers.r8)
    ∷ (Token.r9w, Registers.r9)
    ∷ (Token.r10w, Registers.r10)
    ∷ (Token.r11w, Registers.r11)
    ∷ (Token.r12w, Registers.r12)
    ∷ (Token.r13w, Registers.r13)
    ∷ (Token.r14w, Registers.r14)
    ∷ (Token.r15w, Registers.r15)
    ∷ []

unfoldable pub assembler_token_to_gpr8 : List (InstrToken × Grp)
assembler_token_to_gpr8 =
    (Token.al, Registers.rax)
    ∷ (Token.cl, Registers.rcx)
    ∷ (Token.dl, Registers.rdx)
    ∷ (Token.bl, Registers.rbx)
    ∷ (Token.spl, Registers.rsp)
    ∷ (Token.bpl, Registers.rbp)
    ∷ (Token.sil, Registers.rsi)
    ∷ (Token.dil, Registers.rdi)
    ∷ (Token.r8b, Registers.r8)
    ∷ (Token.r9b, Registers.r9)
    ∷ (Token.r10b, Registers.r10)
    ∷ (Token.r11b, Registers.r11)
    ∷ (Token.r12b, Registers.r12)
    ∷ (Token.r13b, Registers.r13)
    ∷ (Token.r14b, Registers.r14)
    ∷ (Token.r15b, Registers.r15)
    ∷ []

unfoldable pub assembler_token_to_simd : List (InstrToken × Simd128)
assembler_token_to_simd =
    (Token.xmm0, 0)
    ∷ (Token.xmm1, 1)
    ∷ (Token.xmm2, 2)
    ∷ (Token.xmm3, 3)
    ∷ (Token.xmm4, 4)
    ∷ (Token.xmm5, 5)
    ∷ (Token.xmm6, 6)
    ∷ (Token.xmm7, 7)
    ∷ (Token.xmm8, 8)
    ∷ (Token.xmm9, 9)
    ∷ (Token.xmm10, 10)
    ∷ (Token.xmm11, 11)
    ∷ (Token.xmm12, 12)
    ∷ (Token.xmm13, 13)
    ∷ (Token.xmm14, 14)
    ∷ (Token.xmm15, 15)
    ∷ []

unfoldable pub assembler_operator_map : List (ℕ × InstrToken)
assembler_operator_map =
    (b'[', Token.bracket_left_tt)
    ∷ (b']', Token.bracket_right_tt)
    ∷ (b'*', Token.multiplication_tt)
    ∷ (b'-', Token.minus_tt)
    ∷ (b'+', Token.addition_tt)
    ∷ (b',', Token.comma_tt)
    ∷ []

unfoldable pub assembler_kw_map : List (Bytes × InstrToken)
assembler_kw_map =
    (codes "mov", Token.mov_tt)
    ∷ (codes "syscall", Token.syscall_tt)
    ∷ (codes "ret", Token.ret_tt)
    ∷ (codes "movss", Token.movss_tt)
    ∷ (codes "movsd", Token.movsd_tt)
    ∷ (codes "lea", Token.lea_tt)
    ∷ (codes "movsx", Token.movsx_tt)
    ∷ (codes "movzx", Token.movzx_tt)
    ∷ (codes "movsxd", Token.movsxd_tt)
    ∷ (codes "push", Token.push_tt)
    ∷ (codes "pop", Token.pop_tt)
    ∷ (codes "add", Token.add_tt)
    ∷ (codes "sub", Token.sub_tt)
    ∷ (codes "idiv", Token.idiv_tt)
    ∷ (codes "imul", Token.imul_tt)
    ∷ (codes "div", Token.div_tt)
    ∷ (codes "mul", Token.mul_tt)
    ∷ (codes "neg", Token.neg_tt)
    ∷ (codes "movq", Token.movq_tt)
    ∷ (codes "addss", Token.addss_tt)
    ∷ (codes "addsd", Token.addsd_tt)
    ∷ (codes "subss", Token.subss_tt)
    ∷ (codes "subsd", Token.subsd_tt)
    ∷ (codes "divss", Token.divss_tt)
    ∷ (codes "divsd", Token.divsd_tt)
    ∷ (codes "mulss", Token.mulss_tt)
    ∷ (codes "mulsd", Token.mulsd_tt)
    ∷ (codes "and", Token.and_tt)
    ∷ (codes "or", Token.or_tt)
    ∷ (codes "xor", Token.xor_tt)
    ∷ (codes "not", Token.not_tt)
    ∷ (codes "shl", Token.shl_tt)
    ∷ (codes "shr", Token.shr_tt)
    ∷ (codes "sar", Token.sar_tt)
    ∷ (codes "call", Token.call_tt)
    ∷ (codes "rax", Token.rax)
    ∷ (codes "rcx", Token.rcx)
    ∷ (codes "rdx", Token.rdx)
    ∷ (codes "rbx", Token.rbx)
    ∷ (codes "rsp", Token.rsp)
    ∷ (codes "rbp", Token.rbp)
    ∷ (codes "rsi", Token.rsi)
    ∷ (codes "rdi", Token.rdi)
    ∷ (codes "eax", Token.eax)
    ∷ (codes "ecx", Token.ecx)
    ∷ (codes "edx", Token.edx)
    ∷ (codes "ebx", Token.ebx)
    ∷ (codes "esp", Token.esp)
    ∷ (codes "ebp", Token.ebp)
    ∷ (codes "esi", Token.esi)
    ∷ (codes "edi", Token.edi)
    ∷ (codes "ax", Token.ax)
    ∷ (codes "cx", Token.cx)
    ∷ (codes "dx", Token.dx)
    ∷ (codes "bx", Token.bx)
    ∷ (codes "sp", Token.sp)
    ∷ (codes "bp", Token.bp)
    ∷ (codes "si", Token.si)
    ∷ (codes "di", Token.di)
    ∷ (codes "al", Token.al)
    ∷ (codes "cl", Token.cl)
    ∷ (codes "dl", Token.dl)
    ∷ (codes "bl", Token.bl)
    ∷ (codes "spl", Token.spl)
    ∷ (codes "bpl", Token.bpl)
    ∷ (codes "sil", Token.sil)
    ∷ (codes "dil", Token.dil)
    ∷ (codes "r8", Token.r8)
    ∷ (codes "r9", Token.r9)
    ∷ (codes "r10", Token.r10)
    ∷ (codes "r11", Token.r11)
    ∷ (codes "r12", Token.r12)
    ∷ (codes "r13", Token.r13)
    ∷ (codes "r14", Token.r14)
    ∷ (codes "r15", Token.r15)
    ∷ (codes "r8d", Token.r8d)
    ∷ (codes "r9d", Token.r9d)
    ∷ (codes "r10d", Token.r10d)
    ∷ (codes "r11d", Token.r11d)
    ∷ (codes "r12d", Token.r12d)
    ∷ (codes "r13d", Token.r13d)
    ∷ (codes "r14d", Token.r14d)
    ∷ (codes "r15d", Token.r15d)
    ∷ (codes "r8w", Token.r8w)
    ∷ (codes "r9w", Token.r9w)
    ∷ (codes "r10w", Token.r10w)
    ∷ (codes "r11w", Token.r11w)
    ∷ (codes "r12w", Token.r12w)
    ∷ (codes "r13w", Token.r13w)
    ∷ (codes "r14w", Token.r14w)
    ∷ (codes "r15w", Token.r15w)
    ∷ (codes "r8b", Token.r8b)
    ∷ (codes "r9b", Token.r9b)
    ∷ (codes "r10b", Token.r10b)
    ∷ (codes "r11b", Token.r11b)
    ∷ (codes "r12b", Token.r12b)
    ∷ (codes "r13b", Token.r13b)
    ∷ (codes "r14b", Token.r14b)
    ∷ (codes "r15b", Token.r15b)
    ∷ (codes "rip", Token.rip)
    ∷ (codes "xmm0", Token.xmm0)
    ∷ (codes "xmm1", Token.xmm1)
    ∷ (codes "xmm2", Token.xmm2)
    ∷ (codes "xmm3", Token.xmm3)
    ∷ (codes "xmm4", Token.xmm4)
    ∷ (codes "xmm5", Token.xmm5)
    ∷ (codes "xmm6", Token.xmm6)
    ∷ (codes "xmm7", Token.xmm7)
    ∷ (codes "xmm8", Token.xmm8)
    ∷ (codes "xmm9", Token.xmm9)
    ∷ (codes "xmm10", Token.xmm10)
    ∷ (codes "xmm11", Token.xmm11)
    ∷ (codes "xmm12", Token.xmm12)
    ∷ (codes "xmm13", Token.xmm13)
    ∷ (codes "xmm14", Token.xmm14)
    ∷ (codes "xmm15", Token.xmm15)
    ∷ []

-- `none` is the exception for a token that is no register.
unfoldable pub assembler_token_to_gpr : InstrToken → Option Grp
assembler_token_to_gpr tt = elim (find tt assembler_token_to_gpr64) [
  | some reg ↦ some reg
  | none ↦ elim (find tt assembler_token_to_gpr32) [
    | some reg ↦ some reg
    | none ↦ elim (find tt assembler_token_to_gpr16) [
      | some reg ↦ some reg
      | none ↦ find tt assembler_token_to_gpr8
    ]
  ]
]

unfoldable pub is_gpr : InstrToken → Bool
is_gpr tt =
    is_some (find tt assembler_token_to_gpr64)
    || is_some (find tt assembler_token_to_gpr32)
    || is_some (find tt assembler_token_to_gpr16)
    || is_some (find tt assembler_token_to_gpr8)

unfoldable pub is_xmm : InstrToken → Bool
is_xmm tt = is_some (find tt assembler_token_to_simd)

unfoldable pub is_gpr8 : InstrToken → Bool
is_gpr8 tt = is_some (find tt assembler_token_to_gpr8)

-- `assembler_token_to_simd[tt]`, which is 0 for a token that has no entry.
unfoldable pub to_simd : InstrToken → Simd128
to_simd tt = elim (find tt assembler_token_to_simd) [ none ↦ 0 | some reg ↦ reg ]
