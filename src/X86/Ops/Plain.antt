-- ===== src/X86/Ops/Plain.antt =====
-- src/backend/codegen/x86_64_writer.hpp: the public methods on no operand, and the prologue and the epilogue of a function.
use occult.Common.{◌++◌, [], ◌∷◌, Bytes}
use occult.X86.Registers.{rbp, rsp}
use occult.X86.Encoding.{rex_w, two_byte_opcode_prefix}
use occult.X86.Opcodes.{cwd, nop, retf, retn, syscall}
use occult.X86.Ops.Reg
use occult.X86.Ops.RegToReg

abbrev pub emit_nop : Bytes
emit_nop = nop ∷ []

abbrev pub emit_retn : Bytes
emit_retn = retn ∷ []

abbrev pub emit_ret : Bytes
emit_ret = emit_retn

abbrev pub emit_retf : Bytes
emit_retf = retf ∷ []

abbrev pub emit_cqo : Bytes
emit_cqo = rex_w ∷ cwd ∷ []

abbrev pub emit_syscall : Bytes
emit_syscall = two_byte_opcode_prefix ∷ syscall ∷ []

abbrev pub emit_function_prologue : Bytes
emit_function_prologue = Reg.emit_push rbp ++ RegToReg.emit_mov rbp rsp

abbrev pub emit_function_epilogue : Bytes
emit_function_epilogue = RegToReg.emit_mov rsp rbp ++ Reg.emit_pop rbp
