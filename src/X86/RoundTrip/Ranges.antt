-- ===== src/X86/RoundTrip/Ranges.antt =====
-- src/backend/codegen/x86_64_writer.hpp: the tests of a register's range on the registers of each width.
use occult.Common.{ℕ, ◌<◌, Bool, true, false, ◌&&◌, not, leb, ◌==◌, ◌≡◌, arith}
use occult.X86.Numbering.{Width, bits8, bits16, bits32, bits64, grp_of}
use occult.X86.Emit.Memory.{needs_rex}
use occult.X86.Registers.{rebase_register}
use occult.X86.Memory.{is_stack_ptr, is_stack_base_ptr}
use occult.X86.Emit.Prefix.{reg_r8b, reg_8, reg_r8w, reg_16, reg_r8d, reg_32, reg_r8q, reg_64}

abbrev pub is_bits8 : Width → Bool
is_bits8 bits8 = true
is_bits8 _ = false

abbrev pub is_bits16 : Width → Bool
is_bits16 bits16 = true
is_bits16 _ = false

abbrev pub is_bits32 : Width → Bool
is_bits32 bits32 = true
is_bits32 _ = false

abbrev pub is_bits64 : Width → Bool
is_bits64 bits64 = true
is_bits64 _ = false

pub reg_8-grp_of :
    (width : Width) (e : Bool) (f : ℕ)
    → f < 8
    → reg_8 (grp_of width e f) ≡ (is_bits8 width && not e)
unfolding reg_8
reg_8-grp_of bits8 e f h = ground arith
reg_8-grp_of bits16 e f h = ground arith
reg_8-grp_of bits32 e f h = ground arith
reg_8-grp_of bits64 e f h = ground arith

pub reg_r8b-grp_of :
    (width : Width) (e : Bool) (f : ℕ) → f < 8 → reg_r8b (grp_of width e f) ≡ (is_bits8 width && e)
unfolding reg_r8b
reg_r8b-grp_of bits8 e f h = ground arith
reg_r8b-grp_of bits16 e f h = ground arith
reg_r8b-grp_of bits32 e f h = ground arith
reg_r8b-grp_of bits64 e f h = ground arith

pub reg_16-grp_of :
    (width : Width) (e : Bool) (f : ℕ)
    → f < 8
    → reg_16 (grp_of width e f) ≡ (is_bits16 width && not e)
unfolding reg_16
reg_16-grp_of bits8 e f h = ground arith
reg_16-grp_of bits16 e f h = ground arith
reg_16-grp_of bits32 e f h = ground arith
reg_16-grp_of bits64 e f h = ground arith

pub reg_r8w-grp_of :
    (width : Width) (e : Bool) (f : ℕ) → f < 8 → reg_r8w (grp_of width e f) ≡ (is_bits16 width && e)
unfolding reg_r8w
reg_r8w-grp_of bits8 e f h = ground arith
reg_r8w-grp_of bits16 e f h = ground arith
reg_r8w-grp_of bits32 e f h = ground arith
reg_r8w-grp_of bits64 e f h = ground arith

pub reg_32-grp_of :
    (width : Width) (e : Bool) (f : ℕ)
    → f < 8
    → reg_32 (grp_of width e f) ≡ (is_bits32 width && not e)
unfolding reg_32
reg_32-grp_of bits8 e f h = ground arith
reg_32-grp_of bits16 e f h = ground arith
reg_32-grp_of bits32 e f h = ground arith
reg_32-grp_of bits64 e f h = ground arith

pub reg_r8d-grp_of :
    (width : Width) (e : Bool) (f : ℕ) → f < 8 → reg_r8d (grp_of width e f) ≡ (is_bits32 width && e)
unfolding reg_r8d
reg_r8d-grp_of bits8 e f h = ground arith
reg_r8d-grp_of bits16 e f h = ground arith
reg_r8d-grp_of bits32 e f h = ground arith
reg_r8d-grp_of bits64 e f h = ground arith

pub reg_64-grp_of :
    (width : Width) (e : Bool) (f : ℕ)
    → f < 8
    → reg_64 (grp_of width e f) ≡ (is_bits64 width && not e)
unfolding reg_64
reg_64-grp_of bits8 e f h = ground arith
reg_64-grp_of bits16 e f h = ground arith
reg_64-grp_of bits32 e f h = ground arith
reg_64-grp_of bits64 e f h = ground arith

pub reg_r8q-grp_of :
    (width : Width) (e : Bool) (f : ℕ) → f < 8 → reg_r8q (grp_of width e f) ≡ (is_bits64 width && e)
unfolding reg_r8q
reg_r8q-grp_of bits8 e f h = ground arith
reg_r8q-grp_of bits16 e f h = ground arith
reg_r8q-grp_of bits32 e f h = ground arith
reg_r8q-grp_of bits64 e f h = ground arith

-- spl, bpl, sil and dil are the byte registers that only a REX byte tells from ah, ch, dh and bh.
pub needs_rex-grp_of :
    (width : Width) (eb : Bool) (fb : ℕ) (e : Bool) (f : ℕ)
    → fb < 8
    → f < 8
    → needs_rex (grp_of bits64 eb fb) (grp_of width e f) ≡ (is_bits8 width && not e && leb 4 f)
unfolding needs_rex
needs_rex-grp_of bits8 eb fb e f h h' = ground arith
needs_rex-grp_of bits16 eb fb e f h h' = ground arith
needs_rex-grp_of bits32 eb fb e f h h' = ground arith
needs_rex-grp_of bits64 eb fb e f h h' = ground arith

pub is_stack_ptr-grp_of : (e : Bool) (f : ℕ) → f < 8 → is_stack_ptr (grp_of bits64 e f) ≡ (f == 4)
unfolding is_stack_ptr
is_stack_ptr-grp_of e f h = ground arith

pub is_stack_base_ptr-grp_of :
    (e : Bool) (f : ℕ) → f < 8 → is_stack_base_ptr (grp_of bits64 e f) ≡ (f == 5)
unfolding is_stack_base_ptr
is_stack_base_ptr-grp_of e f h = ground arith

pub rebase_register-grp_of :
    (width : Width) (e : Bool) (f : ℕ) → f < 8 → rebase_register (grp_of width e f) ≡ f
rebase_register-grp_of bits8 e f h = ground arith
rebase_register-grp_of bits16 e f h = ground arith
rebase_register-grp_of bits32 e f h = ground arith
rebase_register-grp_of bits64 e f h = ground arith
