-- ===== src/X86/Memory.antt =====
-- src/backend/codegen/x86_64_writer.hpp: memory operands. A displacement is the 32-bit pattern of the
-- signed field; a mode that the constructors leave alone is `no_mode`.
use occult.Common.{ℕ, Bool, true, false, ◌||◌, ◌==◌}
use occult.X86.Registers.{
  Grp, rax, rsp, esp, sp, spl, r12, r12d, r12w, r12b, rbp, ebp, bp, bpl, r13, r13d, r13w, r13b,
}

pub data MemMode : Type 0 where
  no_mode : MemMode
  disp : MemMode
  reg : MemMode
  scaled_index : MemMode
  abs : MemMode

pub record Mem : Type 0 where
  pub reg : Grp
  pub scale : ℕ
  pub index : Grp
  pub disp : ℕ
  pub mode : MemMode
  pub second_mode : MemMode

-- The five constructors of `mem`, by their arguments.
abbrev pub mem_reg : Grp → Mem
mem_reg r = record {
  reg = r;
  scale = 0;
  index = rax;
  disp = 0;
  mode = MemMode.reg;
  second_mode = no_mode;
}

abbrev pub mem_disp : Grp → ℕ → Mem
mem_disp r d = record {
  reg = r;
  scale = 0;
  index = rax;
  disp = d;
  mode = MemMode.disp;
  second_mode = no_mode;
}

abbrev pub mem_index : Grp → Grp → Mem
mem_index r i = record {
  reg = r;
  scale = 0;
  index = i;
  disp = 0;
  mode = scaled_index;
  second_mode = no_mode;
}

abbrev pub mem_scaled : Grp → Grp → ℕ → Mem
mem_scaled r i s = record {
  reg = r;
  scale = s;
  index = i;
  disp = 0;
  mode = scaled_index;
  second_mode = no_mode;
}

abbrev pub mem_scaled_disp : Grp → Grp → ℕ → ℕ → Mem
mem_scaled_disp r i s d = record {
  reg = r;
  scale = s;
  index = i;
  disp = d;
  mode = scaled_index;
  second_mode = MemMode.disp;
}

abbrev pub is_scaled : MemMode → Bool
is_scaled scaled_index = true
is_scaled _ = false

-- `IS_STACK_PTR` and `IS_STACK_BASE_PTR`
unfoldable pub is_stack_ptr : Grp → Bool
is_stack_ptr dest =
    dest == rsp
    || dest == esp
    || dest == sp
    || dest == spl
    || dest == r12
    || dest == r12d
    || dest == r12w
    || dest == r12b

unfoldable pub is_stack_base_ptr : Grp → Bool
is_stack_base_ptr dest =
    dest == rbp
    || dest == ebp
    || dest == bp
    || dest == bpl
    || dest == r13
    || dest == r13d
    || dest == r13w
    || dest == r13b
