-- ===== src/Cache/Write.antt =====
-- src/backend/codegen/bytecode_format.hpp and code_cache.hpp: the contents of a file of compiled code. The
-- halves of the function's hash are arguments; the structure is packed and written in memory order.
use occult.Common.{
  ℕ, ◌+◌, Option, none, some, List, [], ◌∷◌, ◌++◌, Bytes, bytes_eq, length, if◌then◌else◌,
}
use occult.Bytes.{little_endian}

abbrev pub occult_magic : ℕ
occult_magic = 0x4F43434C

pub data Arch : Type 0 where
  x86_64 riscv64 arm64 : Arch

unfoldable pub arch_code : Arch → ℕ
arch_code x86_64 = 54
arch_code riscv64 = 18
arch_code arm64 = 98

pub record BytecodeHeader : Type 0 where
  pub magic : ℕ
  pub version_major : ℕ
  pub version_minor : ℕ
  pub target_arch : Arch
  pub header_size : ℕ
  pub code_offset : ℕ
  pub code_size : ℕ
  pub const_pool_offset : ℕ
  pub const_pool_count : ℕ
  pub address_map_offset : ℕ
  pub ir_hash_low : ℕ
  pub ir_hash_high : ℕ

abbrev pub sizeof_bytecode_header : ℕ
sizeof_bytecode_header = 59

unfoldable pub header_bytes : BytecodeHeader → Bytes
header_bytes h =
    little_endian 4 h.magic
    ++ (little_endian 2 h.version_major
        ++ (little_endian 2 h.version_minor
            ++ (little_endian 1 (arch_code h.target_arch)
                ++ (little_endian 2 h.header_size
                    ++ (little_endian 4 h.code_offset
                        ++ (little_endian 8 h.code_size
                            ++ (little_endian 8 h.const_pool_offset
                                ++ (little_endian 4 h.const_pool_count
                                    ++ (little_endian 8 h.address_map_offset
                                        ++ (little_endian 8 h.ir_hash_low
                                            ++ little_endian 8 h.ir_hash_high))))))))))

unfoldable pub generate_bytecode_header : ℕ × ℕ → Arch → BytecodeHeader
generate_bytecode_header hash target_arch = record {
  magic = occult_magic;
  version_major = 2;
  version_minor = 2;
  target_arch = target_arch;
  header_size = sizeof_bytecode_header;
  code_offset = sizeof_bytecode_header;
  code_size = 0;
  const_pool_offset = 0;
  const_pool_count = 0;
  address_map_offset = 0;
  ir_hash_low = hash.0;
  ir_hash_high = hash.1;
}

unfoldable pub find_code : Bytes → List (Bytes × Bytes) → Option Bytes
find_code name [] = none
find_code name ((x, code) ∷ m) =
    let rest = find_code name m in if bytes_eq name x then some code else rest

-- The address and the name of each function.
unfoldable pub serialized_addr_map : List (Bytes × ℕ) → Bytes
serialized_addr_map [] = []
serialized_addr_map ((name, fn) ∷ m) = little_endian 8 fn ++ (name ++ (0 ∷ serialized_addr_map m))

-- The address, the length and the bytes of each literal.
unfoldable pub serialized_string_map : List (ℕ × Bytes) → Bytes
serialized_string_map [] = []
serialized_string_map ((address, literal) ∷ m) =
    little_endian 8 address
    ++ (little_endian 8 (length literal) ++ (literal ++ (0 ∷ serialized_string_map m)))

-- The header with the fields that depend on the code and the maps.
unfoldable pub filled_header : ℕ × ℕ → Bytes → List (Bytes × ℕ) → List (ℕ × Bytes) → BytecodeHeader
filled_header hash code function_map string_literals =
    let address_map_offset = sizeof_bytecode_header + length code in
    record (generate_bytecode_header hash x86_64) {
      const_pool_count = length string_literals;
      code_size = length code;
      address_map_offset = address_map_offset;
      const_pool_offset = address_map_offset + length (serialized_addr_map function_map);
    }

unfoldable pub bytes_to_write : ℕ × ℕ → Bytes → List (Bytes × ℕ) → List (ℕ × Bytes) → Bytes
bytes_to_write hash code function_map string_literals =
    header_bytes (filled_header hash code function_map string_literals)
    ++ (code ++ (serialized_addr_map function_map ++ serialized_string_map string_literals))

-- `none` is the exception for a function without code. A file that cannot be opened is outside the model.
unfoldable pub write_cached_code :
    ℕ × ℕ → Bytes → List (Bytes × Bytes) → List (Bytes × ℕ) → List (ℕ × Bytes) → Option Bytes
write_cached_code hash name function_raw_code_map function_map string_literals =
    elim (find_code name function_raw_code_map) [
      | none ↦ none
      | some code ↦ some (bytes_to_write hash code function_map string_literals)
    ]
