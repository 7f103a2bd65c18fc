-- ===== src/Linker/Link.antt =====
-- src/backend/linker/linker.cpp: `linker::link_and_create_binary`. A map is an association list, in the
-- order in which the source walks it; the address of a jit function is a number. What is printed
-- and timed is left out.
use occult.Common.{
  ℕ, zero, suc, ◌+◌, Bool, false, ◌&&◌, ◌||◌, ◌==◌, ltb, leb, if◌then◌else◌, Option, none, some,
  List, [], ◌∷◌, ◌++◌, Bytes, codes, bytes_eq, length, get_or, set, take, drop, replicate,
}
use occult.Bytes.{little_endian, of_little_endian}
use occult.Linker.Elf.{header_size}
use occult.Linker.Layout.{generate_binary}

-- `find` on a map by number and by name; `operator[]` gives 0 for a name that is missing.
unfoldable pub find {ℓ} : {A : Type ℓ} → ℕ → List (ℕ × A) → Option A
find k [] = none
find k ((x, a) ∷ m) = let rest = find k m in if k == x then some a else rest

unfoldable pub find_name : Bytes → List (Bytes × ℕ) → Option ℕ
find_name name [] = none
find_name name ((x, a) ∷ m) =
    let rest = find_name name m in if bytes_eq name x then some a else rest

unfoldable pub location_of : Bytes → List (Bytes × ℕ) → ℕ
location_of name locations = elim (find_name name locations) [ none ↦ 0 | some a ↦ a ]

-- `func_addr_map`: of two functions at one address the one walked later stays.
unfoldable pub func_addr_map : List (Bytes × ℕ) → List (ℕ × Bytes) → List (ℕ × Bytes)
func_addr_map [] m = m
func_addr_map ((name, fn) ∷ function_map) m = func_addr_map function_map ((fn, name) ∷ m)

abbrev pub start_stub_size : ℕ
start_stub_size = 24

abbrev pub base_addr : ℕ
base_addr = 0x400000

abbrev pub entry_addr : ℕ
entry_addr = base_addr + header_size

-- The loop that appends the functions' code and notes where each begins.
unfoldable pub place_functions :
    List (Bytes × Bytes) → Bytes → List (Bytes × ℕ) → Bytes × List (Bytes × ℕ)
place_functions [] final_code locations = (final_code, locations)
place_functions ((name, code) ∷ fs) final_code locations =
    place_functions fs (final_code ++ code) ((name, length final_code) ∷ locations)

-- `final_code[i] = …; final_code[i + 1] = …`
unfoldable pub write_at : ℕ → Bytes → Bytes → Bytes
write_at i [] final_code = final_code
write_at i (b ∷ bs) final_code = write_at (suc i) bs (set final_code i b)

-- movabs rax, main; call rax; mov rdi, rax; mov rax, 60; syscall
unfoldable pub start_stub : ℕ → Bytes
start_stub main_addr =
    0x48
    ∷ 0xB8
    ∷ (little_endian 8 main_addr
        ++ (0xFF ∷ 0xD0 ∷ 0x48 ∷ 0x89 ∷ 0xC7 ∷ 0x48 ∷ 0xC7 ∷ 0xC0 ∷ 0x3C ∷ 0 ∷ 0 ∷ 0 ∷ 0x0F ∷ 0x05
            ∷ []))

-- The loop that appends the string literals, each behind its length and before a 0, and notes the
-- new address of each.
unfoldable pub place_strings : List (ℕ × Bytes) → Bytes → List (ℕ × ℕ) → Bytes × List (ℕ × ℕ)
place_strings [] final_code relocation_map = (final_code, relocation_map)
place_strings ((old_addr, content) ∷ strings) final_code relocation_map =
    place_strings strings (final_code ++ (little_endian 8 (length content) ++ (content ++ 0 ∷ [])))
      ((old_addr, base_addr + header_size + length final_code + 8) ∷ relocation_map)

-- The three maps that the patch loop reads.
pub record Symbols : Type 0 where
  pub func_addrs : List (ℕ × Bytes)
  pub locations : List (Bytes × ℕ)
  pub relocation_map : List (ℕ × ℕ)

-- The tests on the bytes at i. A byte behind the end counts as 0; the source reads none, since it
-- tests the length first.
abbrev pub byte_at : Bytes → ℕ → ℕ
byte_at final_code i = get_or final_code i 0

unfoldable pub is_movabs_rax : Bytes → ℕ → Bool
is_movabs_rax final_code i = byte_at final_code i == 0x48 && byte_at final_code (i + 1) == 0xB8

unfoldable pub call_2b : Bytes → ℕ → Bool
call_2b final_code i =
    is_movabs_rax final_code i
    && (ltb (i + 11) (length final_code)
        && (byte_at final_code (i + 10) == 0xFF && byte_at final_code (i + 11) == 0xD0))

unfoldable pub call_3b : Bytes → ℕ → Bool
call_3b final_code i =
    is_movabs_rax final_code i
    && (ltb (i + 12) (length final_code)
        && (byte_at final_code (i + 10) == 0x48
            && (byte_at final_code (i + 11) == 0xFF && byte_at final_code (i + 12) == 0xD0)))

unfoldable pub is_movabs : Bytes → ℕ → Bool
is_movabs final_code i =
    (byte_at final_code i == 0x48 || byte_at final_code i == 0x49)
    && (leb 0xB8 (byte_at final_code (i + 1)) && leb (byte_at final_code (i + 1)) 0xBF)

-- The operand of the instruction at i, and the write of a new one.
unfoldable pub old_addr_at : Bytes → ℕ → ℕ
old_addr_at final_code i = of_little_endian (take 8 (drop (i + 2) final_code))

unfoldable pub patch_operand : Option ℕ → ℕ → Bytes → Bytes
patch_operand none i final_code = final_code
patch_operand (some new_addr) i final_code = write_at (i + 2) (little_endian 8 new_addr) final_code

-- Where a call of an old address is to go.
unfoldable pub new_function_addr : Symbols → ℕ → Option ℕ
new_function_addr s old_addr = elim (find old_addr s.func_addrs) [
  | none ↦ none
  | some name ↦ some (base_addr + header_size + location_of name s.locations)
]

unfoldable pub patch_call : Symbols → ℕ → Bytes → Bytes
patch_call s i final_code =
    patch_operand (new_function_addr s (old_addr_at final_code i)) i final_code

unfoldable pub patch_string : Symbols → ℕ → Bytes → Bytes
patch_string s i final_code =
    patch_operand (find (old_addr_at final_code i) s.relocation_map) i final_code

-- One round of the patch loop, with the step of the loop: the next position and the code.
unfoldable pub patch_step : Symbols → ℕ → Bytes → ℕ × Bytes
patch_step s i final_code =
    if call_2b final_code i || call_3b final_code i
    then (i + (if call_3b final_code i then 13 else 11), patch_call s i final_code)
    else if is_movabs final_code i
    then (i + 1, patch_string s i final_code)
    else (i + 1, final_code)

-- The loop, on fuel: `none` is fuel that did not suffice.
unfoldable pub patch_loop : Symbols → ℕ → ℕ → Bytes → Option Bytes
patch_loop s zero i final_code = if ltb (i + 11) (length final_code) then none else some final_code
patch_loop s (suc fuel) i final_code =
    let (j, patched) = patch_step s i final_code in
    let rest = patch_loop s fuel j patched in
    if ltb (i + 11) (length final_code) then rest else some final_code

pub data LinkResult : Type 0 where
  no_main : LinkResult
  out_of_fuel : LinkResult
  not_written : LinkResult
  created : Bytes → LinkResult

abbrev pub written : Option Bytes → LinkResult
written none = not_written
written (some file) = created file

abbrev pub link_patched : ℕ → Option Bytes → LinkResult
link_patched text_size none = out_of_fuel
link_patched text_size (some final_code) =
    written (generate_binary final_code entry_addr base_addr base_addr 0 text_size)

-- Whether a function is among those to place.
unfoldable pub has_function : Bytes → List (Bytes × Bytes) → Bool
has_function name [] = false
has_function name ((x, code) ∷ fs) = bytes_eq name x || has_function name fs

-- The code behind the placement, with the stub written.
unfoldable pub link_placed :
    List (Bytes × ℕ) → List (ℕ × Bytes) → Bytes → List (Bytes × ℕ) → Option ℕ → LinkResult
link_placed function_map strings final_code locations none = no_main
link_placed function_map strings final_code locations (some main) =
    let stub = start_stub (base_addr + header_size + main) in
    let (full, relocation_map) = place_strings strings (write_at 0 stub final_code) [] in
    let s : Symbols = record {
      func_addrs = func_addr_map function_map [];
      locations = locations;
      relocation_map = relocation_map;
    } in
    link_patched (length final_code) (patch_loop s (length full) 0 full)

unfoldable pub link_and_create_binary :
    List (Bytes × ℕ) → List (Bytes × Bytes) → List (ℕ × Bytes) → LinkResult
link_and_create_binary function_map function_raw_code_map string_literals =
    let (final_code, locations) =
      place_functions function_raw_code_map (replicate start_stub_size 0x90) [] in
    link_placed function_map string_literals final_code locations
      (find_name (codes "main") locations)
