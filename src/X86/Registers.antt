-- ===== src/X86/Registers.antt =====
-- src/backend/codegen/x86_64_defs.hpp: the general purpose registers. The enumeration `grp` is its
-- underlying `std::uint8_t`, since the writer casts between the two; a register is its number there.
use occult.Common.{
  ℕ, Bool, ◌&&◌, ◌||◌, ◌==◌, leb, if◌then◌else◌, ◌%◌, Option, none, some, List, [], ◌∷◌,
}

abbrev pub Grp : Type 0
Grp = ℕ

abbrev pub rax : Grp
rax = 0

abbrev pub rcx : Grp
rcx = 1

abbrev pub rdx : Grp
rdx = 2

abbrev pub rbx : Grp
rbx = 3

abbrev pub rsp : Grp
rsp = 4

abbrev pub rbp : Grp
rbp = 5

abbrev pub rsi : Grp
rsi = 6

abbrev pub rdi : Grp
rdi = 7

abbrev pub eax : Grp
eax = 8

abbrev pub ecx : Grp
ecx = 9

abbrev pub edx : Grp
edx = 10

abbrev pub ebx : Grp
ebx = 11

abbrev pub esp : Grp
esp = 12

abbrev pub ebp : Grp
ebp = 13

abbrev pub esi : Grp
esi = 14

abbrev pub edi : Grp
edi = 15

abbrev pub ax : Grp
ax = 16

abbrev pub cx : Grp
cx = 17

abbrev pub dx : Grp
dx = 18

abbrev pub bx : Grp
bx = 19

abbrev pub sp : Grp
sp = 20

abbrev pub bp : Grp
bp = 21

abbrev pub si : Grp
si = 22

abbrev pub di : Grp
di = 23

abbrev pub al : Grp
al = 24

abbrev pub cl : Grp
cl = 25

abbrev pub dl : Grp
dl = 26

abbrev pub bl : Grp
bl = 27

abbrev pub spl : Grp
spl = 28

abbrev pub bpl : Grp
bpl = 29

abbrev pub sil : Grp
sil = 30

abbrev pub dil : Grp
dil = 31

abbrev pub r8 : Grp
r8 = 32

abbrev pub r9 : Grp
r9 = 33

abbrev pub r10 : Grp
r10 = 34

abbrev pub r11 : Grp
r11 = 35

abbrev pub r12 : Grp
r12 = 36

abbrev pub r13 : Grp
r13 = 37

abbrev pub r14 : Grp
r14 = 38

abbrev pub r15 : Grp
r15 = 39

abbrev pub r8d : Grp
r8d = 40

abbrev pub r9d : Grp
r9d = 41

abbrev pub r10d : Grp
r10d = 42

abbrev pub r11d : Grp
r11d = 43

abbrev pub r12d : Grp
r12d = 44

abbrev pub r13d : Grp
r13d = 45

abbrev pub r14d : Grp
r14d = 46

abbrev pub r15d : Grp
r15d = 47

abbrev pub r8w : Grp
r8w = 48

abbrev pub r9w : Grp
r9w = 49

abbrev pub r10w : Grp
r10w = 50

abbrev pub r11w : Grp
r11w = 51

abbrev pub r12w : Grp
r12w = 52

abbrev pub r13w : Grp
r13w = 53

abbrev pub r14w : Grp
r14w = 54

abbrev pub r15w : Grp
r15w = 55

abbrev pub r8b : Grp
r8b = 56

abbrev pub r9b : Grp
r9b = 57

abbrev pub r10b : Grp
r10b = 58

abbrev pub r11b : Grp
r11b = 59

abbrev pub r12b : Grp
r12b = 60

abbrev pub r13b : Grp
r13b = 61

abbrev pub r14b : Grp
r14b = 62

abbrev pub r15b : Grp
r15b = 63

abbrev pub rip : Grp
rip = 64

-- `REG_RANGE`
abbrev pub reg_range : Grp → Grp → Grp → Bool
reg_range to_cmp start end = leb start to_cmp && leb to_cmp end

-- `& 0b111`
abbrev pub rebase_register : Grp → Grp
rebase_register reg = reg % 8

-- `none` is the exception for a register that has not 64 bits.
abbrev pub is_64 : Grp → Bool
is_64 reg = reg_range reg rax rdi || reg_range reg r8 r15

abbrev as_32_table : List (Grp × Grp)
as_32_table =
    (rax, eax)
    ∷ (rbx, ebx)
    ∷ (rcx, ecx)
    ∷ (rdx, edx)
    ∷ (rsi, esi)
    ∷ (rdi, edi)
    ∷ (rbp, ebp)
    ∷ (rsp, esp)
    ∷ (r8, r8d)
    ∷ (r9, r9d)
    ∷ (r10, r10d)
    ∷ (r11, r11d)
    ∷ (r12, r12d)
    ∷ (r13, r13d)
    ∷ (r14, r14d)
    ∷ (r15, r15d)
    ∷ []

abbrev as_8_table : List (Grp × Grp)
as_8_table =
    (rax, al)
    ∷ (rbx, bl)
    ∷ (rcx, cl)
    ∷ (rdx, dl)
    ∷ (rsi, sil)
    ∷ (rdi, dil)
    ∷ (rbp, bpl)
    ∷ (rsp, spl)
    ∷ (r8, r8b)
    ∷ (r9, r9b)
    ∷ (r10, r10b)
    ∷ (r11, r11b)
    ∷ (r12, r12b)
    ∷ (r13, r13b)
    ∷ (r14, r14b)
    ∷ (r15, r15b)
    ∷ []

abbrev as_16_table : List (Grp × Grp)
as_16_table =
    (rax, ax)
    ∷ (rbx, bx)
    ∷ (rcx, cx)
    ∷ (rdx, dx)
    ∷ (rsi, si)
    ∷ (rdi, di)
    ∷ (rbp, bp)
    ∷ (rsp, sp)
    ∷ (r8, r8w)
    ∷ (r9, r9w)
    ∷ (r10, r10w)
    ∷ (r11, r11w)
    ∷ (r12, r12w)
    ∷ (r13, r13w)
    ∷ (r14, r14w)
    ∷ (r15, r15w)
    ∷ []

-- The cases of a switch.
unfoldable pub find_register : Grp → List (Grp × Grp) → Option Grp
find_register reg [] = none
find_register reg ((from, to) ∷ cases) =
    let rest = find_register reg cases in if reg == from then some to else rest

unfoldable pub as_32 : Grp → Option Grp
as_32 reg = if is_64 reg then find_register reg as_32_table else none

unfoldable pub as_8 : Grp → Option Grp
as_8 reg = if is_64 reg then find_register reg as_8_table else none

unfoldable pub as_16 : Grp → Option Grp
as_16 reg = if is_64 reg then find_register reg as_16_table else none
