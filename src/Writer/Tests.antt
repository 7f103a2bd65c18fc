-- ===== src/Writer/Tests.antt =====
-- Runs of the writer of src/backend/codegen/writer.cpp, and the theorems at concrete inputs.
use occult.Common.{◌+◌, ◌*◌, ◌<◌, ◌≤◌, Bytes, length, codes, true, ◌≡◌, refl, arith, [], ◌∷◌}
use occult.Linker.Link.{find_name}
use occult.Writer.{
  Writer, new_writer, push_byte, push_bytes, push_string, get_string_location, setup_function,
  ready,
}
use occult.Writer.Strings.{IsValid, operations-IsValid}
use occult.Writer.Memory.{setup_function-bounds}

abbrev hello : Bytes
hello = codes "hello"

abbrev greeted : Writer
unfolding push_string push_bytes find_name occult.Common.bytes_eq
greeted = (push_string (new_writer 4096) hello).0

-- The string is at 0, its second copy does not move it, and a string that was never pushed is at 0 too.
second_copy : (get_string_location (push_string greeted hello).0 hello).1 ≡ 0
unfolding push_string push_bytes find_name get_string_location occult.Common.bytes_eq
second_copy = refl

missing : (get_string_location greeted (codes "bye")).1 ≡ 0
unfolding push_string push_bytes find_name get_string_location occult.Common.bytes_eq
missing = refl

operations-IsValid_example :
    IsValid (new_writer 4096)
    × (IsValid (push_byte (new_writer 4096) 7)
        × (IsValid (push_bytes (new_writer 4096) hello)
            × IsValid (push_string (new_writer 4096) hello).0))
operations-IsValid_example = operations-IsValid (new_writer 4096) 4096 7 hello hello tt

abbrev one_byte : Writer
one_byte = record (new_writer 4096) { code = 0xC3 ∷ [] }

one_byte_ready : setup_function true true one_byte ≡ ready one_byte (0xC3 ∷ []) 4096
unfolding setup_function
one_byte_ready = refl

setup_function-bounds_example :
    ((0xC3 ∷ []) ≡ one_byte.code)
    × ((1 ≤ 4096) × ((4096 < 1 + 4096) × (4096 ≤ one_byte.allocated_size)))
setup_function-bounds_example =
    setup_function-bounds true true one_byte 256 (omega arith) refl one_byte_ready
