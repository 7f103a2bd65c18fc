-- ===== src/Linker/Reader.antt =====
-- A reader of ELF files that follows the format alone: it finds the section table by the offset in the
-- file's header, the names by the index there, and the contents of each section by its entry. It is
-- the independent description of what src/backend/linker/elf_header.cpp writes.
use occult.Common.{ℕ, zero, suc, ◌*◌, ◌==◌, not, List, [], ◌∷◌, Bytes, take, drop, take_while}
use occult.Bytes.{of_little_endian}

-- The number in n bytes at an offset.
unfoldable pub field : ℕ → ℕ → Bytes → ℕ
field offset n bytes = of_little_endian (take n (drop offset bytes))

unfoldable pub c_string : Bytes → Bytes
c_string bytes = take_while (λ b. not (b == 0)) bytes

-- What the section entry at the front of `entry` says lies where in the file.
unfoldable pub section_data : Bytes → Bytes → Bytes
section_data file entry = take (field 32 8 entry) (drop (field 24 8 entry) file)

unfoldable pub section_name : Bytes → Bytes → Bytes
section_name strings entry = c_string (drop (field 0 4 entry) strings)

-- The names and the contents of the first n entries of a section table.
unfoldable pub read_entries : ℕ → Bytes → Bytes → Bytes → List (Bytes × Bytes)
read_entries zero strings file table = []
read_entries (suc n) strings file table =
    (section_name strings table, section_data file table)
    ∷ read_entries n strings file (drop 64 table)

unfoldable pub read_sections : Bytes → List (Bytes × Bytes)
read_sections file =
    let table = drop (field 40 8 file) file in
    let strings = section_data file (drop (64 * field 62 2 file) table) in
    read_entries (field 60 2 file) strings file table
