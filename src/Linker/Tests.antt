-- ===== src/Linker/Tests.antt =====
-- The linker on a small program, and its theorems at concrete inputs.
use occult.Common.{
  ℕ, ◌+◌, ◌*◌, ◌%◌, ◌<◌, ◌≤◌, ◌≡◌, refl, Bool, ◌⊎◌, true, false, Option, some, List, [], ◌∷◌, ◌++◌,
  Bytes, codes, length, take, drop, map, arith, Yields,
}
use occult.Linker.Layout.{
  Layout, contents, layout, generate_binary, shtab_off, shtab_off_raw, shnum,
}
use occult.Linker.Reader.{read_sections}
use occult.Linker.Sections.{described}
use occult.Linker.Link.{
  Symbols, LinkResult, created, no_main, patch_loop, place_functions, link_and_create_binary,
  has_function, find_name,
}
use occult.Linker.Pieces.{Piece, encode_all, relocate}
use occult.Linker.Image
use occult.Linker.Sections
use occult.Linker.Patch
use occult.Linker.Relocate
use occult.Linker.Placement
use occult.Linker.Strings
use occult.Linker.Strings.{literal_bytes}
use occult.Linker.Link.{place_strings, find, base_addr}
use occult.Linker.Elf.{header_size}

-- A byte of text and one of data.
abbrev two_bytes : Layout
two_bytes = layout (0xC3 ∷ 7 ∷ []) 0x400078 0x400000 0x400000 0 1

length-contents_example :
    (length (contents two_bytes) ≡ shtab_off two_bytes + shnum two_bytes * 64)
    × (shtab_off two_bytes % 8 ≡ 0)
    × (shtab_off_raw two_bytes ≤ shtab_off two_bytes)
    × (shtab_off two_bytes < shtab_off_raw two_bytes + 8)
length-contents_example = Image.length-contents two_bytes

generate_binary-read_sections_example :
    Yields
      (λ file. read_sections file ≡ described two_bytes)
      (generate_binary (0xC3 ∷ 7 ∷ []) 0x400078 0x400000 0x400000 0 1)
generate_binary-read_sections_example =
    Sections.generate_binary-read_sections 0xC3 (7 ∷ []) 0x400078 0x400000 0x400000 0 1
      (omega arith)

two_bytes-described :
    described two_bytes
    ≡ ([], [])
      ∷ (codes ".text", 0xC3 ∷ [])
      ∷ (codes ".rodata", 7 ∷ [])
      ∷ (
        codes ".shstrtab",
        0 ∷ codes ".text" ++ 0 ∷ codes ".rodata" ++ 0 ∷ codes ".shstrtab" ++ 0 ∷ [],
      )
      ∷ []
unfolding layout described occult.Linker.Layout.shstrtab
two_bytes-described = refl

-- `main` calls `work`, whose jit function stands at 0x7000.
abbrev functions : List (Bytes × Bytes)
functions =
    (codes "main", encode_all (Piece.call 0x7000 ∷ Piece.plain 0xC3 ∷ []))
    ∷ (codes "work", 0xC3 ∷ [])
    ∷ []

abbrev function_map : List (Bytes × ℕ)
function_map = (codes "work", 0x7000) ∷ []

link_and_create_binary-created_example :
    ((has_function (codes "main") functions ≡ true)
      × ((file : Bytes) × (link_and_create_binary function_map functions [] ≡ created file)))
    ⊎ ((has_function (codes "main") functions ≡ false)
        × (link_and_create_binary function_map functions [] ≡ no_main))
link_and_create_binary-created_example =
    Patch.link_and_create_binary-created function_map functions []

abbrev symbols : Symbols
symbols = record {
  func_addrs = (0x7000, codes "work") ∷ [];
  locations = (codes "work", 37) ∷ (codes "main", 24) ∷ [];
  relocation_map = (0x9000, 0x4000B6) ∷ [];
}

-- movabs rdi, 0x9000; movabs rax, 0x7000; call rax; ret
abbrev call_work : List Piece
call_work = Piece.load 0x48 0xBF 0x9000 ∷ Piece.call 0x7000 ∷ Piece.plain 0xC3 ∷ []

patch_loop-encode_all_example :
    patch_loop symbols 23 0 (encode_all call_work)
    ≡ some
        (encode_all (Piece.load 0x48 0xBF 0x4000B6 ∷ Piece.call 0x40009D ∷ Piece.plain 0xC3 ∷ []))
unfolding encode_all occult.Linker.Pieces.encode relocate occult.Linker.Link.new_function_addr
    occult.Linker.Link.find occult.Linker.Link.location_of find_name occult.Linker.Pieces.target
    occult.Common.bytes_eq occult.Linker.Pieces.movabs occult.Bytes.little_endian
    occult.Linker.Link.call_2b occult.Linker.Link.call_3b occult.Linker.Link.is_movabs_rax
patch_loop-encode_all_example =
    Relocate.patch_loop-encode_all symbols call_work
      (
        omega arith,
        refl,
        refl,
        refl,
        omega arith,
        (refl, (refl, (refl, (refl, (refl, (refl, (refl, (refl, (refl, tt))))))))),
        (omega arith, (refl, tt)),
      )
      [] 23 (omega arith)

place_functions-find_name_example :
    let placed = place_functions ([] ++ (codes "main", 0x90 ∷ 0xC3 ∷ []) ∷ []) (1 ∷ 2 ∷ []) [] in
    (at : ℕ) × (find_name (codes "main") placed.1 ≡ some at)
    × (take 2 (drop at placed.0) ≡ 0x90 ∷ 0xC3 ∷ [])
unfolding has_function
place_functions-find_name_example =
    Placement.place_functions-find_name [] [] (codes "main") (0x90 ∷ 0xC3 ∷ []) (1 ∷ 2 ∷ []) [] refl

place_strings-find_example :
    let placed = place_strings ([] ++ (0x9000, codes "hi") ∷ []) (0xC3 ∷ []) [] in
    (at : ℕ) × (find 0x9000 placed.1 ≡ some (base_addr + header_size + at + 8))
    × (take 11 (drop at placed.0) ≡ literal_bytes (codes "hi"))
    × (take 1 placed.0 ≡ 0xC3 ∷ [])
unfolding find occult.Bytes.little_endian
place_strings-find_example =
    Strings.place_strings-find [] [] 0x9000 (codes "hi") (0xC3 ∷ []) [] refl
