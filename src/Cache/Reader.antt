-- ===== src/Cache/Reader.antt =====
-- A reader of the files of src/backend/codegen/code_cache.hpp that follows the comments on their layout.
use occult.Common.{ℕ, zero, suc, ◌+◌, ◌-◌, List, [], ◌∷◌, Bytes, length, take, drop}
use occult.Linker.Reader.{field, c_string}

unfoldable pub read_code : Bytes → Bytes
read_code file = take (field 15 8 file) (drop (field 11 4 file) file)

-- The entries of the constant pool.
unfoldable pub read_literals : ℕ → Bytes → List (ℕ × Bytes)
read_literals zero bytes = []
read_literals (suc n) bytes =
    let size = field 8 8 bytes in
    (field 0 8 bytes, take size (drop 16 bytes)) ∷ read_literals n (drop (size + 1) (drop 16 bytes))

unfoldable pub read_const_pool : Bytes → List (ℕ × Bytes)
read_const_pool file = read_literals (field 31 4 file) (drop (field 23 8 file) file)

-- The entries of the address map, up to its end.
unfoldable pub read_functions : ℕ → Bytes → List (Bytes × ℕ)
read_functions zero bytes = []
read_functions (suc fuel) [] = []
read_functions (suc fuel) (b ∷ bs) =
    let name = c_string (drop 8 (b ∷ bs)) in
    (name, field 0 8 (b ∷ bs)) ∷ read_functions fuel (drop (length name + 1) (drop 8 (b ∷ bs)))

unfoldable pub read_address_map : Bytes → List (Bytes × ℕ)
read_address_map file =
    let region = take (field 23 8 file - field 35 8 file) (drop (field 35 8 file) file) in
    read_functions (length region) region
