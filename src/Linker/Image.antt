-- ===== src/Linker/Image.antt =====
-- src/backend/linker/elf_header.cpp: where the pieces of a file lie.
use occult.Common.{
  ℕ, ◌+◌, ◌-◌, ◌*◌, ◌%◌, ◌^◌, ◌<◌, ◌≤◌, ◌≡◌, refl, List, [], ◌∷◌, ◌++◌, Bytes, length, take, drop,
  All, arith, ap, length-append, length-drop, length-replicate, take_of_append, drop_of_append,
  drop-drop, drop-append, take-append, sym, ap, ◌∙◌,
}
use occult.Bytes.{little_endian, of_little_endian, of_little_endian-little_endian}
use occult.Linker.Elf.{
  SectionHeader, section_header_bytes, section_bytes, elf_header_bytes, program_header_bytes,
  generate_elf_header, generate_program_header, header_size,
}
use occult.Linker.Layout.{
  binary_header, Layout, contents, shstrtab, sections, align8, shtab_off, shtab_off_raw, padding,
  filesz, shnum,
}
use occult.Linker.Reader.{field, c_string, section_name, section_data, read_entries}

-- The fields that the reader uses fit their bytes.
abbrev pub Fits : SectionHeader → Type 0
Fits s = (s.sh_name < 2 ^ 32) × (s.sh_offset < 2 ^ 64) × (s.sh_size < 2 ^ 64)

pub align8_lem : (n : ℕ) → (n ≤ align8 n) × (align8 n < n + 8) × (align8 n % 8 ≡ 0)
unfolding align8
align8_lem n = (omega arith, omega arith, omega arith)

pub drop-section :
    (s : SectionHeader) (rest : Bytes) → drop 64 (section_header_bytes s ++ rest) ≡ rest
unfolding section_header_bytes little_endian
drop-section s rest = refl

pub field-name :
    (s : SectionHeader) (rest : Bytes)
    → Fits s
    → field 0 4 (section_header_bytes s ++ rest) ≡ s.sh_name
unfolding section_header_bytes little_endian field
field-name s rest h = of_little_endian-little_endian 4 s.sh_name h.0

pub field-offset :
    (s : SectionHeader) (rest : Bytes)
    → Fits s
    → field 24 8 (section_header_bytes s ++ rest) ≡ s.sh_offset
unfolding section_header_bytes little_endian field
field-offset s rest h = of_little_endian-little_endian 8 s.sh_offset h.1

pub field-size :
    (s : SectionHeader) (rest : Bytes)
    → Fits s
    → field 32 8 (section_header_bytes s ++ rest) ≡ s.sh_size
unfolding section_header_bytes little_endian field
field-size s rest h = of_little_endian-little_endian 8 s.sh_size h.2

-- What the reader makes of a table of entries.
unfoldable pub entries : Bytes → Bytes → List SectionHeader → List (Bytes × Bytes)
entries strings file [] = []
entries strings file (s ∷ ss) =
    (c_string (drop s.sh_name strings), take s.sh_size (drop s.sh_offset file))
    ∷ entries strings file ss

pub read_entries-section_bytes :
    (strings file : Bytes) (ss : List SectionHeader)
    → All Fits ss
    → read_entries (length ss) strings file (section_bytes ss) ≡ entries strings file ss
unfolding read_entries section_bytes entries section_name section_data
read_entries-section_bytes strings file [] h = refl
read_entries-section_bytes strings file (s ∷ ss) h = rw (
  field-name s (section_bytes ss) h.0,
  field-offset s (section_bytes ss) h.0,
  field-size s (section_bytes ss) h.0,
  drop-section s (section_bytes ss),
  read_entries-section_bytes strings file ss h.1,
)

pub drop-contents :
    (a : Layout)
    → drop header_size (contents a)
      ≡ a.code ++ (shstrtab a ++ (padding a ++ section_bytes (sections a)))
unfolding contents elf_header_bytes program_header_bytes little_endian binary_header
    generate_elf_header generate_program_header
drop-contents a = refl

-- The three fields of the header that the reader follows.
pub field-header :
    (a : Layout)
    → shtab_off a < 2 ^ 64
    → (field 40 8 (contents a) ≡ shtab_off a)
      × (field 60 2 (contents a) ≡ of_little_endian (little_endian 2 (shnum a)))
      × (field 62 2 (contents a) ≡ of_little_endian (little_endian 2 (shnum a - 1)))
unfolding contents elf_header_bytes program_header_bytes little_endian binary_header
    generate_elf_header generate_program_header field
field-header a h = (of_little_endian-little_endian 8 (shtab_off a) h, refl, refl)

drop-code :
    (a : Layout)
    → drop (filesz a) (contents a) ≡ shstrtab a ++ (padding a ++ section_bytes (sections a))
drop-code a =
    sym (drop-drop header_size (length a.code) (contents a))
    ∙ ap (drop (length a.code)) (drop-contents a)
    ∙ drop-append a.code (shstrtab a ++ (padding a ++ section_bytes (sections a)))

drop-names :
    (a : Layout) → drop (shtab_off_raw a) (contents a) ≡ padding a ++ section_bytes (sections a)
drop-names a =
    sym (drop-drop (filesz a) (length (shstrtab a)) (contents a))
    ∙ ap (drop (length (shstrtab a))) (drop-code a)
    ∙ drop-append (shstrtab a) (padding a ++ section_bytes (sections a))

-- The section table begins where the header says.
pub drop-table : (a : Layout) → drop (shtab_off a) (contents a) ≡ section_bytes (sections a)
drop-table a =
    let n = shtab_off a - shtab_off_raw a in
    let far : shtab_off_raw a + n ≡ shtab_off a = omega (arith, align8_lem (shtab_off_raw a)) in
    ap (λ k. drop k (contents a)) (sym far)
    ∙ sym (drop-drop (shtab_off_raw a) n (contents a))
    ∙ ap (drop n) (drop-names a)
    ∙ ap (λ k. drop k (padding a ++ section_bytes (sections a))) (sym (length-replicate n 0))
    ∙ drop-append (padding a) (section_bytes (sections a))

-- The three pieces that the section entries describe.
pub text-contents :
    (a : Layout)
    → a.text_size ≤ length a.code
    → take a.text_size (drop header_size (contents a)) ≡ take a.text_size a.code
text-contents a h =
    ap (take a.text_size) (drop-contents a)
    ∙ take_of_append a.text_size a.code (shstrtab a ++ (padding a ++ section_bytes (sections a))) h

pub rodata-contents :
    (a : Layout)
    → a.text_size ≤ length a.code
    → take (length a.code - a.text_size) (drop (header_size + a.text_size) (contents a))
      ≡ drop a.text_size a.code
rodata-contents a h =
    let rest = shstrtab a ++ (padding a ++ section_bytes (sections a)) in
    ap (take (length a.code - a.text_size)) (
      sym (drop-drop header_size a.text_size (contents a))
      ∙ ap (drop a.text_size) (drop-contents a)
      ∙ drop_of_append a.text_size a.code rest h)
    ∙ ap (λ k. take k (drop a.text_size a.code ++ rest)) (sym (length-drop a.text_size a.code))
    ∙ take-append (drop a.text_size a.code) rest

pub shstrtab-contents :
    (a : Layout) → take (length (shstrtab a)) (drop (filesz a) (contents a)) ≡ shstrtab a
shstrtab-contents a =
    ap (take (length (shstrtab a))) (drop-code a)
    ∙ take-append (shstrtab a) (padding a ++ section_bytes (sections a))

length-section_bytes : (ss : List SectionHeader) → length (section_bytes ss) ≡ 64 * length ss
unfolding section_bytes section_header_bytes little_endian
length-section_bytes [] = refl
length-section_bytes (s ∷ ss) = omega (arith, length-section_bytes ss)

length-sections : (a : Layout) → length (sections a) ≡ shnum a
unfolding sections
length-sections a = ground arith

length-header :
    (a : Layout) (rest : Bytes)
    → length (
        elf_header_bytes (binary_header a)
        ++ (program_header_bytes (generate_program_header (filesz a) a.vaddr a.paddr a.memsz)
            ++ rest))
      ≡ header_size + length rest
unfolding elf_header_bytes program_header_bytes little_endian binary_header generate_elf_header
    generate_program_header
length-header a rest = omega arith

-- A file is the section table's offset, which is a multiple of 8 and lies less than 8 bytes behind
-- the names, and 64 bytes for each section long: the size that the compiler reports.
pub length-contents :
    (a : Layout)
    → (length (contents a) ≡ shtab_off a + shnum a * 64)
      × (shtab_off a % 8 ≡ 0)
      × (shtab_off_raw a ≤ shtab_off a)
      × (shtab_off a < shtab_off_raw a + 8)
unfolding contents
length-contents a =
    let tail = padding a ++ section_bytes (sections a) in
    let (le, lt, al) = align8_lem (shtab_off_raw a) in
    (
      omega (
        arith,
        length-header a (a.code ++ (shstrtab a ++ tail)),
        length-append a.code (shstrtab a ++ tail),
        length-append (shstrtab a) tail,
        length-append (padding a) (section_bytes (sections a)),
        length-replicate {A = ℕ} (shtab_off a - shtab_off_raw a) 0,
        length-section_bytes (sections a),
        length-sections a,
        le,
      ),
      al,
      le,
      lt,
    )
