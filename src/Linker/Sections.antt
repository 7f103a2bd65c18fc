-- ===== src/Linker/Sections.antt =====
-- src/backend/linker/elf_header.cpp, `elf::generate_binary`: the section table against a reader.
use occult.Common.{
  ℕ, suc, ◌+◌, ◌-◌, ◌*◌, ◌^◌, ◌<◌, ◌≤◌, ◌≡◌, refl, sym, ap, ◌∙◌, Bool, true, false, Option, some,
  List, [], ◌∷◌, ◌++◌, Bytes, codes, length, take, drop, All, arith, Bool-cases, inl, inr,
  if◌then◌else◌, ltb, ◌==◌, ◌||◌, drop-drop, Yields, yields,
}
use occult.Bytes.{little_endian, of_little_endian}
use occult.Linker.Elf.{SectionHeader, no_section, section_header_bytes, section_bytes}
use occult.Linker.Layout.{
  text_section, rodata_section, shstrtab_section, Layout, contents, layout, generate_binary,
  shstrtab, sections, shtab_off, shtab_off_raw, filesz, shnum, has_data,
}
use occult.Linker.Reader.{c_string, section_data, read_entries, read_sections}
use occult.Linker.Image.{
  Fits, align8_lem, drop-section, field-offset, field-size, field-header, entries,
  read_entries-section_bytes, drop-table, text-contents, rodata-contents, shstrtab-contents,
}

-- The sections that the linker's arguments describe: the names and the contents.
unfoldable pub described : Layout → List (Bytes × Bytes)
described a =
    let names = (codes ".shstrtab", shstrtab a) ∷ [] in
    ([], [])
    ∷ (codes ".text", take a.text_size a.code)
    ∷ (if has_data a then (codes ".rodata", drop a.text_size a.code) ∷ names else names)

section_data-section :
    (file : Bytes) (s : SectionHeader) (rest : Bytes)
    → Fits s
    → section_data file (section_header_bytes s ++ rest) ≡ take s.sh_size (drop s.sh_offset file)
unfolding section_data
section_data-section file s rest h = rw (field-offset s rest h, field-size s rest h)

-- The reader finds the count, the index of the names and the table.
read_sections-contents :
    (a : Layout) (n k : ℕ)
    → shtab_off a < 2 ^ 64
    → of_little_endian (little_endian 2 (shnum a)) ≡ n
    → of_little_endian (little_endian 2 (shnum a - 1)) ≡ k
    → read_sections (contents a)
      ≡ read_entries n
          (section_data (contents a) (drop (64 * k) (section_bytes (sections a))))
          (contents a)
          (section_bytes (sections a))
unfolding read_sections
read_sections-contents a n k h hn hk =
    let (x, y, z) = field-header a h in rw (x, y, z, hn, hk, drop-table a)

small_offset : (a : Layout) → shtab_off a < 2 ^ 64 → filesz a + length (shstrtab a) < 2 ^ 64
small_offset a h = omega (arith, align8_lem (shtab_off_raw a))

entries-data :
    (a : Layout)
    → has_data a ≡ true
    → a.text_size ≤ length a.code
    → entries
        (shstrtab a)
        (contents a)
        (no_section ∷ text_section a ∷ rodata_section a ∷ shstrtab_section a ∷ [])
      ≡ described a
unfolding entries described text_section rodata_section shstrtab_section shstrtab c_string
    occult.Common.take_while
entries-data a h k = rw (text-contents a k, rodata-contents a k, shstrtab-contents a, h)

entries-text :
    (a : Layout)
    → has_data a ≡ false
    → a.text_size ≤ length a.code
    → entries (shstrtab a) (contents a) (no_section ∷ text_section a ∷ shstrtab_section a ∷ [])
      ≡ described a
unfolding entries described text_section shstrtab_section shstrtab c_string occult.Common.take_while
entries-text a h k = rw (text-contents a k, shstrtab-contents a, h)

length-shstrtab : (a : Layout) → length (shstrtab a) < 32
unfolding shstrtab
length-shstrtab a = elim (Bool-cases (has_data a)) [
  | inl h ↦ rw h (omega arith)
  | inr h ↦ rw h (omega arith)
]

sections-Fits :
    (a : Layout)
    → shtab_off a < 2 ^ 64
    → a.text_size ≤ length a.code
    → Fits (text_section a) × Fits (rodata_section a) × Fits (shstrtab_section a)
unfolding text_section rodata_section shstrtab_section
sections-Fits a h k =
    let small = small_offset a h in
    let names = length-shstrtab a in
    (
      (omega arith, omega arith, omega arith),
      (ground arith, omega arith, omega arith),
      (ground arith, omega arith, omega arith),
    )

data-names :
    (a : Layout)
    → Fits (shstrtab_section a)
    → section_data (contents a) (section_bytes (shstrtab_section a ∷ [])) ≡ shstrtab a
unfolding section_bytes shstrtab_section
data-names a h = section_data-section (contents a) (shstrtab_section a) [] h ∙ shstrtab-contents a

drop-entry :
    (n : ℕ) (s : SectionHeader) (ss : List SectionHeader)
    → drop (64 * suc n) (section_bytes (s ∷ ss)) ≡ drop (64 * n) (section_bytes ss)
unfolding section_bytes
drop-entry n s ss =
    ap (λ k. drop k (section_header_bytes s ++ section_bytes ss)) (omega arith)
    ∙ sym (drop-drop 64 (64 * n) (section_header_bytes s ++ section_bytes ss))
    ∙ ap (drop (64 * n)) (drop-section s (section_bytes ss))

sections-data :
    (a : Layout)
    → has_data a ≡ true
    → sections a ≡ no_section ∷ text_section a ∷ rodata_section a ∷ shstrtab_section a ∷ []
unfolding sections
sections-data a d = rw d

sections-text :
    (a : Layout)
    → has_data a ≡ false
    → sections a ≡ no_section ∷ text_section a ∷ shstrtab_section a ∷ []
unfolding sections
sections-text a d = rw d

read_sections-data :
    (a : Layout)
    → has_data a ≡ true
    → shtab_off a < 2 ^ 64
    → a.text_size ≤ length a.code
    → read_sections (contents a) ≡ described a
unfolding little_endian of_little_endian
read_sections-data a d h k =
    let (t, r, n) = sections-Fits a h k in
    let s = no_section ∷ text_section a ∷ rodata_section a ∷ shstrtab_section a ∷ [] in
    let walk =
      read_entries-section_bytes (shstrtab a) (contents a) s
        ((omega arith, omega arith, omega arith), (t, (r, (n, tt)))) in
    let table =
      drop-entry 2 no_section (text_section a ∷ rodata_section a ∷ shstrtab_section a ∷ [])
      ∙ drop-entry 1 (text_section a) (rodata_section a ∷ shstrtab_section a ∷ [])
      ∙ drop-entry 0 (rodata_section a) (shstrtab_section a ∷ []) in
    let found = read_sections-contents a 4 3 h (rw d) (rw d) in
    rw (found, sections-data a d, table, data-names a n) (walk ∙ entries-data a d k)

read_sections-text :
    (a : Layout)
    → has_data a ≡ false
    → shtab_off a < 2 ^ 64
    → a.text_size ≤ length a.code
    → read_sections (contents a) ≡ described a
unfolding little_endian of_little_endian
read_sections-text a d h k =
    let (t, r, n) = sections-Fits a h k in
    let s = no_section ∷ text_section a ∷ shstrtab_section a ∷ [] in
    let walk =
      read_entries-section_bytes (shstrtab a) (contents a) s
        ((omega arith, omega arith, omega arith), (t, (n, tt))) in
    let table =
      drop-entry 1 no_section (text_section a ∷ shstrtab_section a ∷ [])
      ∙ drop-entry 0 (text_section a) (shstrtab_section a ∷ []) in
    let found = read_sections-contents a 3 2 h (rw d) (rw d) in
    rw (found, sections-text a d, table, data-names a n) (walk ∙ entries-text a d k)

read_sections_lem :
    (a : Layout)
    → shtab_off a < 2 ^ 64
    → a.text_size ≤ length a.code
    → read_sections (contents a) ≡ described a
read_sections_lem a h k = elim (Bool-cases (has_data a)) [
  | inl d ↦ read_sections-data a d h k
  | inr d ↦ read_sections-text a d h k
]

-- `generate_binary` writes a file for every code that is not empty. In a file of the code, whose
-- length is below 2 ^ 63, the reader finds the unnamed section, `.text` with the first bytes of the
-- code, `.rodata` with the others if there are any, and `.shstrtab`.
pub generate_binary-read_sections :
    (c : ℕ) (cs : Bytes) (entry_addr vaddr paddr memsz text_size : ℕ)
    → length (c ∷ cs) < 2 ^ 63
    → Yields
        (λ file.
          read_sections file ≡ described (layout (c ∷ cs) entry_addr vaddr paddr memsz text_size))
        (generate_binary (c ∷ cs) entry_addr vaddr paddr memsz text_size)
unfolding generate_binary layout
generate_binary-read_sections c cs entry_addr vaddr paddr memsz text_size h =
    let a = layout (c ∷ cs) entry_addr vaddr paddr memsz text_size in
    yields (
      read_sections_lem a (omega (arith, align8_lem (shtab_off_raw a), length-shstrtab a))
        (ground arith))
