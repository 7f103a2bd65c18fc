-- ===== src/Linker/Strings.antt =====
-- src/backend/linker/linker.cpp: where the string literals are placed.
use occult.Common.{
  ℕ, ◌+◌, ◌≡◌, refl, sym, ap, ◌∙◌, none, some, List, [], ◌∷◌, ◌++◌, Bytes, length, take, drop,
  arith, append-append, append-nil, drop-append, take-append,
}
use occult.Bytes.{little_endian}
use occult.Linker.Elf.{header_size}
use occult.Linker.Link.{base_addr, place_strings, find}

-- A literal behind its length and before a 0.
abbrev pub literal_bytes : Bytes → Bytes
literal_bytes content = little_endian 8 (length content) ++ (content ++ 0 ∷ [])

place_strings-append :
    (xs ys : List (ℕ × Bytes)) (final_code : Bytes) (m : List (ℕ × ℕ))
    → place_strings (xs ++ ys) final_code m
      ≡ place_strings ys (place_strings xs final_code m).0 (place_strings xs final_code m).1
unfolding place_strings
place_strings-append [] ys final_code m = refl
place_strings-append ((x, c) ∷ xs) ys final_code m =
    place_strings-append xs ys (final_code ++ literal_bytes c) _

strings_stay :
    (ls : List (ℕ × Bytes)) (final_code : Bytes) (m : List (ℕ × ℕ))
    → (rest : Bytes) × ((place_strings ls final_code m).0 ≡ final_code ++ rest)
unfolding place_strings
strings_stay [] final_code m = ([], sym (append-nil final_code))
strings_stay ((x, c) ∷ ls) final_code m =
    let (rest, e) = strings_stay ls (final_code ++ literal_bytes c) _ in
    (literal_bytes c ++ rest, e ∙ append-append final_code (literal_bytes c) rest)

other_addresses :
    (old : ℕ) (ls : List (ℕ × Bytes)) (final_code : Bytes) (m : List (ℕ × ℕ))
    → find old ls ≡ none
    → find old (place_strings ls final_code m).1 ≡ find old m
unfolding place_strings find
other_addresses old [] final_code m h = refl
other_addresses old ((x, c) ∷ ls) final_code m h =
    other_addresses old ls (final_code ++ literal_bytes c)
      ((x, base_addr + header_size + length final_code + 8) ∷ m) (ground arith)
    ∙ ground arith

-- A string literal, where no literal behind it has the same old address, lies in the code of the program behind its
-- length and before a 0, and the new address noted for it is that of its first byte once the file
-- is loaded. Everything placed before stays where it was.
pub place_strings-find :
    (before after : List (ℕ × Bytes)) (old : ℕ) (content final_code : Bytes) (m : List (ℕ × ℕ))
    → find old after ≡ none
    → let placed = place_strings (before ++ (old, content) ∷ after) final_code m in
      (at : ℕ) × (find old placed.1 ≡ some (base_addr + header_size + at + 8))
      × (take (length (literal_bytes content)) (drop at placed.0) ≡ literal_bytes content)
      × (take (length final_code) placed.0 ≡ final_code)
unfolding place_strings find
place_strings-find before after old content final_code m h =
    let (front, addresses) = place_strings before final_code m in
    let bytes = literal_bytes content in
    let here = (old, base_addr + header_size + length front + 8) ∷ addresses in
    let split = place_strings-append before ((old, content) ∷ after) final_code m in
    let (rest, e) = strings_stay after (front ++ bytes) here in
    let (all, f) = strings_stay (before ++ (old, content) ∷ after) final_code m in
    (
      length front,
      ap (λ p. find old p.1) split
          ∙ other_addresses old after (front ++ bytes) here h
          ∙ ground arith,
      ap (λ p. take (length bytes) (drop (length front) p.0)) split
          ∙ ap (λ bs. take (length bytes) (drop (length front) bs))
              (e ∙ append-append front bytes rest)
          ∙ ap (take (length bytes)) (drop-append front (bytes ++ rest))
          ∙ take-append bytes rest,
      ap (take (length final_code)) f ∙ take-append final_code all,
    )
