-- ===== src/Cache/File.antt =====
-- src/backend/codegen/code_cache.hpp: the file as a whole.
use occult.Common.{
  ℕ, ◌+◌, ◌-◌, ◌^◌, ◌<◌, ◌≡◌, refl, sym, ap, ◌∙◌, some, List, ◌++◌, Bytes, length, drop, All, arith,
  drop-drop, drop-append, take-append, Yields, yields,
}
use occult.Bytes.{little_endian, of_little_endian-little_endian}
use occult.Linker.Reader.{field}
use occult.Cache.Write.{
  header_bytes, filled_header, generate_bytecode_header, serialized_addr_map, find_code,
  serialized_string_map, bytes_to_write, sizeof_bytecode_header, write_cached_code,
}
use occult.Cache.Reader.{read_code, read_const_pool, read_address_map}
use occult.Cache.RoundTrip.{
  LiteralFits, FunctionFits, read_literals-serialized_string_map,
  read_functions-serialized_addr_map,
}

-- A file that is read back.
abbrev pub IsFileOf : Bytes → List (Bytes × ℕ) → List (ℕ × Bytes) → Bytes → Type 0
IsFileOf code function_map string_literals file =
    (read_code file ≡ code)
    × (read_address_map file ≡ function_map)
    × (read_const_pool file ≡ string_literals)

module _ (hash : ℕ × ℕ) (code : Bytes) (fs : List (Bytes × ℕ)) (ls : List (ℕ × Bytes)) where
  abbrev file : Bytes
  file = bytes_to_write hash code fs ls

  abbrev map_offset : ℕ
  map_offset = sizeof_bytecode_header + length code

  abbrev pool_offset : ℕ
  pool_offset = map_offset + length (serialized_addr_map fs)

  drop-header :
      drop sizeof_bytecode_header file
      ≡ code ++ (serialized_addr_map fs ++ serialized_string_map ls)
  unfolding bytes_to_write header_bytes little_endian
  drop-header = refl

  drop-code : drop map_offset file ≡ serialized_addr_map fs ++ serialized_string_map ls
  drop-code =
      sym (drop-drop sizeof_bytecode_header (length code) file)
      ∙ ap (drop (length code)) drop-header
      ∙ drop-append code (serialized_addr_map fs ++ serialized_string_map ls)

  drop-map : drop pool_offset file ≡ serialized_string_map ls
  drop-map =
      sym (drop-drop map_offset (length (serialized_addr_map fs)) file)
      ∙ ap (drop (length (serialized_addr_map fs))) drop-code
      ∙ drop-append (serialized_addr_map fs) (serialized_string_map ls)

  header_fields :
      pool_offset < 2 ^ 64
      → length ls < 2 ^ 32
      → (field 11 4 file ≡ sizeof_bytecode_header)
        × (field 15 8 file ≡ length code)
        × (field 23 8 file ≡ pool_offset)
        × (field 31 4 file ≡ length ls)
        × (field 35 8 file ≡ map_offset)
  unfolding bytes_to_write header_bytes little_endian field filled_header generate_bytecode_header
  header_fields small few = (
    of_little_endian-little_endian 4 sizeof_bytecode_header (omega arith),
    of_little_endian-little_endian 8 (length code) (omega arith),
    of_little_endian-little_endian 8 pool_offset small,
    of_little_endian-little_endian 4 (length ls) few,
    of_little_endian-little_endian 8 map_offset (omega arith),
  )

  bytes_to_write-IsFileOf :
      pool_offset < 2 ^ 64
      → length ls < 2 ^ 32
      → All FunctionFits fs
      → All LiteralFits ls
      → IsFileOf code fs ls file
  unfolding read_code read_address_map read_const_pool
  bytes_to_write-IsFileOf small few functions literals =
      let (at_code, size, at_pool, count, at_map) = header_fields small few in
      let region = serialized_addr_map fs in
      let far : pool_offset - map_offset ≡ length region = omega arith in
      (
        rw (at_code, size, drop-header) (take-append code (region ++ serialized_string_map ls)),
        rw (at_pool, at_map, drop-code, far, take-append region (serialized_string_map ls))
            (read_functions-serialized_addr_map fs (length region) functions (omega arith)),
        rw (at_pool, count, drop-map) (read_literals-serialized_string_map ls literals),
      )

-- For a function that has code, whatever its hash, a file is written, and a reader that follows the offsets in its header finds
-- the machine code, every function with its address, and every string literal with its address, in
-- order; if the offset of the constant pool fits 64 bits, there are fewer than 2 ^ 32 literals, the
-- addresses and lengths fit 64 bits, and no name of a function holds a 0.
pub write_cached_code-IsFileOf :
    (hash : ℕ × ℕ) (name code : Bytes) (codes : List (Bytes × Bytes)) (fs : List (Bytes × ℕ))
    (ls : List (ℕ × Bytes))
    → find_code name codes ≡ some code
    → sizeof_bytecode_header + length code + length (serialized_addr_map fs) < 2 ^ 64
    → length ls < 2 ^ 32
    → All FunctionFits fs
    → All LiteralFits ls
    → Yields (IsFileOf code fs ls) (write_cached_code hash name codes fs ls)
unfolding write_cached_code
write_cached_code-IsFileOf hash name code codes fs ls found small few functions literals =
    rw (write_cached_code, found)
      (yields (bytes_to_write-IsFileOf hash code fs ls small few functions literals))
