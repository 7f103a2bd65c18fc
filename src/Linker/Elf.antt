-- ===== src/Linker/Elf.antt =====
-- src/backend/linker/elf_header.cpp: the headers of an ELF file. The structures and the
-- constants of <elf.h> are those of the 64-bit ELF format; a structure is written field by field,
-- little-endian, as it stands in memory on x86-64.
use occult.Common.{ℕ, ◌+◌, ◌==◌, if◌then◌else◌, List, [], ◌∷◌, ◌++◌, Bytes, replicate}
use occult.Bytes.{little_endian}

-- `Elf64_Ehdr`
pub record ElfHeader : Type 0 where
  pub e_ident : Bytes
  pub e_type : ℕ
  pub e_machine : ℕ
  pub e_version : ℕ
  pub e_entry : ℕ
  pub e_phoff : ℕ
  pub e_shoff : ℕ
  pub e_flags : ℕ
  pub e_ehsize : ℕ
  pub e_phentsize : ℕ
  pub e_phnum : ℕ
  pub e_shentsize : ℕ
  pub e_shnum : ℕ
  pub e_shstrndx : ℕ

-- `Elf64_Phdr`
pub record ProgramHeader : Type 0 where
  pub p_type : ℕ
  pub p_flags : ℕ
  pub p_offset : ℕ
  pub p_vaddr : ℕ
  pub p_paddr : ℕ
  pub p_filesz : ℕ
  pub p_memsz : ℕ
  pub p_align : ℕ

-- `Elf64_Shdr`
pub record SectionHeader : Type 0 where
  pub sh_name : ℕ
  pub sh_type : ℕ
  pub sh_flags : ℕ
  pub sh_addr : ℕ
  pub sh_offset : ℕ
  pub sh_size : ℕ
  pub sh_link : ℕ
  pub sh_info : ℕ
  pub sh_addralign : ℕ
  pub sh_entsize : ℕ

-- The sizes of the three structures.
abbrev pub sizeof_elf_header : ℕ
sizeof_elf_header = 64

abbrev pub sizeof_program_header : ℕ
sizeof_program_header = 56

abbrev pub sizeof_section_header : ℕ
sizeof_section_header = 64

abbrev pub header_size : ℕ
header_size = sizeof_elf_header + sizeof_program_header

-- The bytes of a structure.
unfoldable pub elf_header_bytes : ElfHeader → Bytes
elf_header_bytes h =
    h.e_ident
    ++ (little_endian 2 h.e_type
        ++ (little_endian 2 h.e_machine
            ++ (little_endian 4 h.e_version
                ++ (little_endian 8 h.e_entry
                    ++ (little_endian 8 h.e_phoff
                        ++ (little_endian 8 h.e_shoff
                            ++ (little_endian 4 h.e_flags
                                ++ (little_endian 2 h.e_ehsize
                                    ++ (little_endian 2 h.e_phentsize
                                        ++ (little_endian 2 h.e_phnum
                                            ++ (little_endian 2 h.e_shentsize
                                                ++ (little_endian 2 h.e_shnum
                                                    ++ little_endian 2 h.e_shstrndx))))))))))))

unfoldable pub program_header_bytes : ProgramHeader → Bytes
program_header_bytes p =
    little_endian 4 p.p_type
    ++ (little_endian 4 p.p_flags
        ++ (little_endian 8 p.p_offset
            ++ (little_endian 8 p.p_vaddr
                ++ (little_endian 8 p.p_paddr
                    ++ (little_endian 8 p.p_filesz
                        ++ (little_endian 8 p.p_memsz ++ little_endian 8 p.p_align))))))

unfoldable pub section_header_bytes : SectionHeader → Bytes
section_header_bytes s =
    little_endian 4 s.sh_name
    ++ (little_endian 4 s.sh_type
        ++ (little_endian 8 s.sh_flags
            ++ (little_endian 8 s.sh_addr
                ++ (little_endian 8 s.sh_offset
                    ++ (little_endian 8 s.sh_size
                        ++ (little_endian 4 s.sh_link
                            ++ (little_endian 4 s.sh_info
                                ++ (little_endian 8 s.sh_addralign
                                    ++ little_endian 8 s.sh_entsize))))))))

unfoldable pub section_bytes : List SectionHeader → Bytes
section_bytes [] = []
section_bytes (s ∷ ss) = section_header_bytes s ++ section_bytes ss

-- ELFMAG, ELFCLASS64, ELFDATA2LSB and EV_CURRENT, then zeros.
abbrev pub elf_ident : Bytes
elf_ident = 0x7f ∷ b'E' ∷ b'L' ∷ b'F' ∷ 2 ∷ 1 ∷ 1 ∷ replicate 9 0

-- ET_EXEC is 2, EM_X86_64 is 62.
unfoldable pub generate_elf_header : ℕ → ElfHeader
generate_elf_header entry_addr = record {
  e_ident = elf_ident;
  e_type = 2;
  e_machine = 62;
  e_version = 1;
  e_entry = entry_addr;
  e_phoff = sizeof_elf_header;
  e_shoff = 0;
  e_flags = 0;
  e_ehsize = sizeof_elf_header;
  e_phentsize = sizeof_program_header;
  e_phnum = 1;
  e_shentsize = sizeof_section_header;
  e_shnum = 0;
  e_shstrndx = 0;
}

-- PT_LOAD is 1, PF_R | PF_X is 5.
unfoldable pub generate_program_header : ℕ → ℕ → ℕ → ℕ → ProgramHeader
generate_program_header filesz vaddr paddr memsz = record {
  p_type = 1;
  p_flags = 5;
  p_offset = 0;
  p_vaddr = vaddr;
  p_paddr = paddr;
  p_filesz = filesz;
  p_memsz = if memsz == 0 then filesz else memsz;
  p_align = 0x1000;
}

abbrev pub no_section : SectionHeader
no_section = record {
  sh_name = 0;
  sh_type = 0;
  sh_flags = 0;
  sh_addr = 0;
  sh_offset = 0;
  sh_size = 0;
  sh_link = 0;
  sh_info = 0;
  sh_addralign = 0;
  sh_entsize = 0;
}
