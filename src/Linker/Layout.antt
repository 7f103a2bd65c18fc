-- ===== src/Linker/Layout.antt =====
-- src/backend/linker/elf_header.cpp: `elf::generate_binary`, the layout of an ELF file and its contents.
use Prim.Native.Nat.{◌/◌}
use occult.Common.{
  ℕ, ◌+◌, ◌-◌, ◌*◌, Bool, ◌||◌, ◌==◌, ltb, if◌then◌else◌, Option, none, some, List, [], ◌∷◌, ◌++◌,
  Bytes, codes, length, replicate,
}
use occult.Linker.Elf.{
  ElfHeader, SectionHeader, header_size, elf_header_bytes, program_header_bytes, section_bytes,
  generate_elf_header, generate_program_header, no_section,
}

-- A name and its closing 0.
abbrev pub name_bytes : Bytes → Bytes
name_bytes s = s ++ 0 ∷ []

-- The arguments of `generate_binary`, with the defaults of `text_size` and `memsz` put in, as its
-- first lines do.
pub record Layout : Type 0 where
  pub code : Bytes
  pub entry_addr : ℕ
  pub vaddr : ℕ
  pub paddr : ℕ
  pub memsz : ℕ
  pub text_size : ℕ

abbrev pub filesz : Layout → ℕ
filesz a = header_size + length a.code

abbrev pub data_size : Layout → ℕ
data_size a = length a.code - a.text_size

abbrev pub has_data : Layout → Bool
has_data a = ltb 0 (data_size a)

-- The names of the sections, and where each starts.
abbrev pub text_name_off : ℕ
text_name_off = 1

abbrev pub rodata_name_off : Layout → ℕ
rodata_name_off a = if has_data a then 7 else 0

abbrev pub shstrtab_name_off : Layout → ℕ
shstrtab_name_off a = if has_data a then 15 else 7

unfoldable pub shstrtab : Layout → Bytes
shstrtab a =
    0
    ∷ (name_bytes (codes ".text")
        ++ ((if has_data a then name_bytes (codes ".rodata") else [])
            ++ name_bytes (codes ".shstrtab")))

abbrev pub shnum : Layout → ℕ
shnum a = if has_data a then 4 else 3

abbrev pub shtab_off_raw : Layout → ℕ
shtab_off_raw a = filesz a + length (shstrtab a)

-- `(n + 7) & ~7`
unfoldable pub align8 : ℕ → ℕ
align8 n = (n + 7) / 8 * 8

abbrev pub shtab_off : Layout → ℕ
shtab_off a = align8 (shtab_off_raw a)

-- SHT_PROGBITS is 1, SHT_STRTAB is 3; SHF_ALLOC is 2, SHF_EXECINSTR is 4.
unfoldable pub text_section : Layout → SectionHeader
text_section a = record no_section {
  sh_name = text_name_off;
  sh_type = 1;
  sh_flags = 6;
  sh_addr = a.vaddr + header_size;
  sh_offset = header_size;
  sh_size = a.text_size;
  sh_addralign = 16;
}

unfoldable pub rodata_section : Layout → SectionHeader
rodata_section a = record no_section {
  sh_name = rodata_name_off a;
  sh_type = 1;
  sh_flags = 2;
  sh_addr = a.vaddr + header_size + a.text_size;
  sh_offset = header_size + a.text_size;
  sh_size = data_size a;
  sh_addralign = 1;
}

unfoldable pub shstrtab_section : Layout → SectionHeader
shstrtab_section a = record no_section {
  sh_name = shstrtab_name_off a;
  sh_type = 3;
  sh_offset = filesz a;
  sh_size = length (shstrtab a);
  sh_addralign = 1;
}

unfoldable pub sections : Layout → List SectionHeader
sections a =
    no_section
    ∷ text_section a
    ∷ (if has_data a then rodata_section a ∷ shstrtab_section a ∷ [] else shstrtab_section a ∷ [])

-- The header with the three fields that `generate_binary` sets.
unfoldable pub binary_header : Layout → ElfHeader
binary_header a = record (generate_elf_header a.entry_addr) {
  e_shoff = shtab_off a;
  e_shnum = shnum a;
  e_shstrndx = shnum a - 1;
}

abbrev pub padding : Layout → Bytes
padding a = replicate (shtab_off a - shtab_off_raw a) 0

-- The writes to the file, in order.
unfoldable pub contents : Layout → Bytes
contents a =
    elf_header_bytes (binary_header a)
    ++ (program_header_bytes (generate_program_header (filesz a) a.vaddr a.paddr a.memsz)
        ++ (a.code ++ (shstrtab a ++ (padding a ++ section_bytes (sections a)))))

-- The defaults of the first lines.
unfoldable pub layout : Bytes → ℕ → ℕ → ℕ → ℕ → ℕ → Layout
layout code entry_addr vaddr paddr memsz text_size =
    let filesz = header_size + length code in
    record {
      code = code;
      entry_addr = entry_addr;
      vaddr = vaddr;
      paddr = paddr;
      memsz = if memsz == 0 || ltb memsz filesz then filesz else memsz;
      text_size = if text_size == 0 || ltb (length code) text_size then length code else text_size;
    }

-- `none` is the refusal to write no code. A file that cannot be created is outside the model.
unfoldable pub generate_binary : Bytes → ℕ → ℕ → ℕ → ℕ → ℕ → Option Bytes
generate_binary [] entry_addr vaddr paddr memsz text_size = none
generate_binary (c ∷ cs) entry_addr vaddr paddr memsz text_size =
    some (contents (layout (c ∷ cs) entry_addr vaddr paddr memsz text_size))
