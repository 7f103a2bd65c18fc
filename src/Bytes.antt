-- ===== src/Bytes.antt =====
-- Little-endian integers: the loops `(value >> (j * 8)) & 0xFF` of src/backend/linker/linker.cpp,
-- src/backend/codegen/code_cache.hpp and `emit_imm` of src/backend/codegen/x86_64_writer.hpp.
use native.Mathlib.Nat.{pow-suc}
use occult.Common.{
  ℕ, zero, suc, ◌+◌, ◌*◌, ◌/◌, ◌%◌, ◌^◌, ◌<◌, ◌≡◌, refl, [], ◌∷◌, Bytes, length, arith, ap,
}

-- `for (j = 0; j < n; ++j) push_back((value >> (j * 8)) & 0xFF)`
unfoldable pub little_endian : ℕ → ℕ → Bytes
little_endian zero value = []
little_endian (suc n) value = (value % 256) ∷ little_endian n (value / 256)

-- `for (j = 0; …) value |= static_cast<std::uint64_t>(byte[j]) << (j * 8)`
unfoldable pub of_little_endian : Bytes → ℕ
of_little_endian [] = 0
of_little_endian (b ∷ bs) = b + 256 * of_little_endian bs

pub length-little_endian : (n value : ℕ) → length (little_endian n value) ≡ n
unfolding little_endian
length-little_endian zero value = refl
length-little_endian (suc n) value = ap suc (length-little_endian n (value / 256))

-- What is written in n bytes is read back modulo 256 ^ n.
pub of_little_endian-little_endian :
    (n value : ℕ) → value < 256 ^ n → of_little_endian (little_endian n value) ≡ value
unfolding little_endian of_little_endian
of_little_endian-little_endian zero value h = omega arith
of_little_endian-little_endian (suc n) value h =
    let small : value < 256 ^ n * 256 = rw pow-suc at h in
    omega (arith, of_little_endian-little_endian n (value / 256) (omega arith))
