-- ===== src/Asm/Token.antt =====
-- src/backend/codegen/x86_64_assembler_defs.hpp: the tokens of the inline assembler. The enumeration is its
-- underlying `std::uint8_t`.
use occult.Common.{ℕ, Bytes}

abbrev pub InstrToken : Type 0
InstrToken = ℕ

abbrev pub mov_tt : InstrToken
mov_tt = 0

abbrev pub syscall_tt : InstrToken
syscall_tt = 1

abbrev pub ret_tt : InstrToken
ret_tt = 2

abbrev pub movss_tt : InstrToken
movss_tt = 3

abbrev pub movsd_tt : InstrToken
movsd_tt = 4

abbrev pub lea_tt : InstrToken
lea_tt = 5

abbrev pub movsx_tt : InstrToken
movsx_tt = 6

abbrev pub movzx_tt : InstrToken
movzx_tt = 7

abbrev pub movsxd_tt : InstrToken
movsxd_tt = 8

abbrev pub push_tt : InstrToken
push_tt = 9

abbrev pub pop_tt : InstrToken
pop_tt = 10

abbrev pub add_tt : InstrToken
add_tt = 11

abbrev pub sub_tt : InstrToken
sub_tt = 12

abbrev pub idiv_tt : InstrToken
idiv_tt = 13

abbrev pub imul_tt : InstrToken
imul_tt = 14

abbrev pub div_tt : InstrToken
div_tt = 15

abbrev pub mul_tt : InstrToken
mul_tt = 16

abbrev pub neg_tt : InstrToken
neg_tt = 17

abbrev pub movq_tt : InstrToken
movq_tt = 18

abbrev pub addss_tt : InstrToken
addss_tt = 19

abbrev pub addsd_tt : InstrToken
addsd_tt = 20

abbrev pub subss_tt : InstrToken
subss_tt = 21

abbrev pub subsd_tt : InstrToken
subsd_tt = 22

abbrev pub divss_tt : InstrToken
divss_tt = 23

abbrev pub divsd_tt : InstrToken
divsd_tt = 24

abbrev pub mulss_tt : InstrToken
mulss_tt = 25

abbrev pub mulsd_tt : InstrToken
mulsd_tt = 26

abbrev pub and_tt : InstrToken
and_tt = 27

abbrev pub or_tt : InstrToken
or_tt = 28

abbrev pub xor_tt : InstrToken
xor_tt = 29

abbrev pub not_tt : InstrToken
not_tt = 30

abbrev pub shl_tt : InstrToken
shl_tt = 31

abbrev pub shr_tt : InstrToken
shr_tt = 32

abbrev pub sar_tt : InstrToken
sar_tt = 33

abbrev pub call_tt : InstrToken
call_tt = 34

abbrev pub bracket_left_tt : InstrToken
bracket_left_tt = 35

abbrev pub bracket_right_tt : InstrToken
bracket_right_tt = 36

abbrev pub multiplication_tt : InstrToken
multiplication_tt = 37

abbrev pub minus_tt : InstrToken
minus_tt = 38

abbrev pub addition_tt : InstrToken
addition_tt = 39

abbrev pub comma_tt : InstrToken
comma_tt = 40

abbrev pub rax : InstrToken
rax = 41

abbrev pub rcx : InstrToken
rcx = 42

abbrev pub rdx : InstrToken
rdx = 43

abbrev pub rbx : InstrToken
rbx = 44

abbrev pub rsp : InstrToken
rsp = 45

abbrev pub rbp : InstrToken
rbp = 46

abbrev pub rsi : InstrToken
rsi = 47

abbrev pub rdi : InstrToken
rdi = 48

abbrev pub eax : InstrToken
eax = 49

abbrev pub ecx : InstrToken
ecx = 50

abbrev pub edx : InstrToken
edx = 51

abbrev pub ebx : InstrToken
ebx = 52

abbrev pub esp : InstrToken
esp = 53

abbrev pub ebp : InstrToken
ebp = 54

abbrev pub esi : InstrToken
esi = 55

abbrev pub edi : InstrToken
edi = 56

abbrev pub ax : InstrToken
ax = 57

abbrev pub cx : InstrToken
cx = 58

abbrev pub dx : InstrToken
dx = 59

abbrev pub bx : InstrToken
bx = 60

abbrev pub sp : InstrToken
sp = 61

abbrev pub bp : InstrToken
bp = 62

abbrev pub si : InstrToken
si = 63

abbrev pub di : InstrToken
di = 64

abbrev pub al : InstrToken
al = 65

abbrev pub cl : InstrToken
cl = 66

abbrev pub dl : InstrToken
dl = 67

abbrev pub bl : InstrToken
bl = 68

abbrev pub spl : InstrToken
spl = 69

abbrev pub bpl : InstrToken
bpl = 70

abbrev pub sil : InstrToken
sil = 71

abbrev pub dil : InstrToken
dil = 72

abbrev pub r8 : InstrToken
r8 = 73

abbrev pub r9 : InstrToken
r9 = 74

abbrev pub r10 : InstrToken
r10 = 75

abbrev pub r11 : InstrToken
r11 = 76

abbrev pub r12 : InstrToken
r12 = 77

abbrev pub r13 : InstrToken
r13 = 78

abbrev pub r14 : InstrToken
r14 = 79

abbrev pub r15 : InstrToken
r15 = 80

abbrev pub r8d : InstrToken
r8d = 81

abbrev pub r9d : InstrToken
r9d = 82

abbrev pub r10d : InstrToken
r10d = 83

abbrev pub r11d : InstrToken
r11d = 84

abbrev pub r12d : InstrToken
r12d = 85

abbrev pub r13d : InstrToken
r13d = 86

abbrev pub r14d : InstrToken
r14d = 87

abbrev pub r15d : InstrToken
r15d = 88

abbrev pub r8w : InstrToken
r8w = 89

abbrev pub r9w : InstrToken
r9w = 90

abbrev pub r10w : InstrToken
r10w = 91

abbrev pub r11w : InstrToken
r11w = 92

abbrev pub r12w : InstrToken
r12w = 93

abbrev pub r13w : InstrToken
r13w = 94

abbrev pub r14w : InstrToken
r14w = 95

abbrev pub r15w : InstrToken
r15w = 96

abbrev pub r8b : InstrToken
r8b = 97

abbrev pub r9b : InstrToken
r9b = 98

abbrev pub r10b : InstrToken
r10b = 99

abbrev pub r11b : InstrToken
r11b = 100

abbrev pub r12b : InstrToken
r12b = 101

abbrev pub r13b : InstrToken
r13b = 102

abbrev pub r14b : InstrToken
r14b = 103

abbrev pub r15b : InstrToken
r15b = 104

abbrev pub rip : InstrToken
rip = 105

abbrev pub xmm0 : InstrToken
xmm0 = 106

abbrev pub xmm1 : InstrToken
xmm1 = 107

abbrev pub xmm2 : InstrToken
xmm2 = 108

abbrev pub xmm3 : InstrToken
xmm3 = 109

abbrev pub xmm4 : InstrToken
xmm4 = 110

abbrev pub xmm5 : InstrToken
xmm5 = 111

abbrev pub xmm6 : InstrToken
xmm6 = 112

abbrev pub xmm7 : InstrToken
xmm7 = 113

abbrev pub xmm8 : InstrToken
xmm8 = 114

abbrev pub xmm9 : InstrToken
xmm9 = 115

abbrev pub xmm10 : InstrToken
xmm10 = 116

abbrev pub xmm11 : InstrToken
xmm11 = 117

abbrev pub xmm12 : InstrToken
xmm12 = 118

abbrev pub xmm13 : InstrToken
xmm13 = 119

abbrev pub xmm14 : InstrToken
xmm14 = 120

abbrev pub xmm15 : InstrToken
xmm15 = 121

abbrev pub number_literal_tt : InstrToken
number_literal_tt = 122

abbrev pub end_of_assembly_tt : InstrToken
end_of_assembly_tt = 123

abbrev pub unknown_tt : InstrToken
unknown_tt = 124

pub record AssemblerToken : Type 0 where
  pub lexeme : Bytes
  pub tt : InstrToken
