-- ===== src/Linker/Patch.antt =====
-- src/backend/linker/linker.cpp: the patch loop always ends, and keeps the length of the code.
use occult.Common.{
  ℕ, zero, suc, ◌+◌, ◌-◌, ◌<◌, ◌≤◌, ◌≡◌, refl, ◌∙◌, true, false, ltb, Option, none, some, inl, inr,
  ◌⊎◌, List, [], ◌∷◌, ◌++◌, Bytes, length, set, arith, length-set, length-append, Option-cases,
  if-both, is_some, ◌||◌, codes, replicate, Yields-map, Yields, yields,
}
use occult.Bytes.{little_endian}
use occult.Linker.Elf.{header_size}
use occult.Linker.Layout.{generate_binary}
use occult.Linker.Link.{
  write_at, Symbols, patch_operand, patch_call, patch_string, new_function_addr, old_addr_at, find,
  patch_step, patch_loop, created, no_main, has_function, find_name, start_stub, base_addr,
  func_addr_map, start_stub_size, link_placed, link_patched, place_functions, place_strings,
  link_and_create_binary,
}

pub length-write_at :
    (i : ℕ) (bs final_code : Bytes) → length (write_at i bs final_code) ≡ length final_code
unfolding write_at
length-write_at i [] final_code = refl
length-write_at i (b ∷ bs) final_code =
    length-write_at (suc i) bs (set final_code i b) ∙ length-set final_code i b

pub length-patch_operand :
    (o : Option ℕ) (i : ℕ) (final_code : Bytes)
    → length (patch_operand o i final_code) ≡ length final_code
unfolding patch_operand
length-patch_operand none i final_code = refl
length-patch_operand (some a) i final_code = length-write_at (i + 2) _ final_code

pub patch_step_lem :
    (s : Symbols) (i : ℕ) (final_code : Bytes)
    → (length (patch_step s i final_code).1 ≡ length final_code)
      × (i < (patch_step s i final_code).0)
unfolding patch_step patch_call patch_string
patch_step_lem s i final_code = ground (
  arith,
  length-patch_operand (new_function_addr s (old_addr_at final_code i)) i final_code,
  length-patch_operand (find (old_addr_at final_code i) s.relocation_map) i final_code,
)

pub patch_loop-Yields :
    (s : Symbols) (fuel i : ℕ) (final_code : Bytes)
    → length final_code ≤ i + fuel
    → Yields (λ patched. length patched ≡ length final_code) (patch_loop s fuel i final_code)
unfolding patch_loop
patch_loop-Yields s zero i final_code h =
    if-both (Yields (λ p. length p ≡ length final_code)) (ltb (i + 11) (length final_code))
      (λ c. absurd (ground arith)) (λ c. yields refl)
patch_loop-Yields s (suc fuel) i final_code h =
    let next = patch_step_lem s i final_code in
    let (j, patched) = patch_step s i final_code in
    if-both (Yields (λ p. length p ≡ length final_code)) (ltb (i + 11) (length final_code))
      (λ c. Yields-map (λ p e. e ∙ next.0) (patch_loop-Yields s fuel j patched (omega arith)))
      (λ c. yields refl)

length-place_strings :
    (strings : List (ℕ × Bytes)) (final_code : Bytes) (m : List (ℕ × ℕ))
    → length final_code ≤ length (place_strings strings final_code m).0
unfolding place_strings
length-place_strings [] final_code m = omega arith
length-place_strings ((old_addr, content) ∷ strings) final_code m =
    let here = little_endian 8 (length content) ++ (content ++ 0 ∷ []) in
    omega
      (arith, length-append final_code here, length-place_strings strings (final_code ++ here) _)

length-place_functions :
    (fs : List (Bytes × Bytes)) (final_code : Bytes) (m : List (Bytes × ℕ))
    → length final_code ≤ length (place_functions fs final_code m).0
unfolding place_functions
length-place_functions [] final_code m = omega arith
length-place_functions ((name, code) ∷ fs) final_code m =
    omega (arith, length-append final_code code, length-place_functions fs (final_code ++ code) _)

link_patched-created :
    (text_size n : ℕ) (o : Option Bytes)
    → Yields (λ p. length p ≡ suc n) o
    → (file : Bytes) × (link_patched text_size o ≡ created file)
unfolding generate_binary
link_patched-created text_size n none h = elim h [ ]
link_patched-created text_size n (some []) (yields h) = absurd (omega arith)
link_patched-created text_size n (some (c ∷ cs)) (yields h) = (_, refl)

find_name-place_functions :
    (name : Bytes) (fs : List (Bytes × Bytes)) (final_code : Bytes) (m : List (Bytes × ℕ))
    → is_some (find_name name (place_functions fs final_code m).1)
      ≡ has_function name fs || is_some (find_name name m)
unfolding place_functions has_function find_name
find_name-place_functions name [] final_code m = refl
find_name-place_functions name ((x, code) ∷ fs) final_code m =
    ground
      (arith, find_name-place_functions name fs (final_code ++ code) ((x, length final_code) ∷ m))

link_placed-created :
    (function_map : List (Bytes × ℕ)) (strings : List (ℕ × Bytes)) (final_code : Bytes)
    (locations : List (Bytes × ℕ)) (main : ℕ)
    → 0 < length final_code
    → (file : Bytes) × (link_placed function_map strings final_code locations (some main)
        ≡ created file)
unfolding link_placed
link_placed-created function_map strings final_code locations main h =
    let stub = start_stub (base_addr + header_size + main) in
    let placed = place_strings strings (write_at 0 stub final_code) [] in
    let s : Symbols = record {
      func_addrs = func_addr_map function_map [];
      locations = locations;
      relocation_map = placed.1;
    } in
    let longer = length-place_strings strings (write_at 0 stub final_code) [] in
    let same = length-write_at 0 stub final_code in
    link_patched-created (length final_code) (length placed.0 - 1)
      (patch_loop s (length placed.0) 0 placed.0)
      (Yields-map (λ p e. omega (arith, e, longer, same))
        (patch_loop-Yields s (length placed.0) 0 placed.0 (omega arith)))

-- Linking gives a file exactly if there is a function `main`; without one it stops there. The fuel
-- of the patch loop, the length of the code, always suffices, and the code is never empty.
pub link_and_create_binary-created :
    (function_map : List (Bytes × ℕ)) (fs : List (Bytes × Bytes)) (strings : List (ℕ × Bytes))
    → ((has_function (codes "main") fs ≡ true)
        × ((file : Bytes) × (link_and_create_binary function_map fs strings ≡ created file)))
      ⊎ ((has_function (codes "main") fs ≡ false)
          × (link_and_create_binary function_map fs strings ≡ no_main))
unfolding link_and_create_binary link_placed find_name
link_and_create_binary-created function_map fs strings =
    let code : Bytes = replicate start_stub_size 0x90 in
    let placed = place_functions fs code [] in
    let there = find_name-place_functions (codes "main") fs code [] in
    let longer = length-place_functions fs code [] in
    elim (Option-cases (find_name (codes "main") placed.1)) [
      | inl e ↦ inr (ground (arith, there, e), rw e)
      | inr (main, e) ↦ inl (
        ground (arith, there, e),
        rw e (link_placed-created function_map strings placed.0 placed.1 main (omega arith)),
      )
    ]
