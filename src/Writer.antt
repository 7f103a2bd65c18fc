-- ===== src/Writer.antt =====
-- src/backend/codegen/writer.hpp and writer.cpp: the buffer that the encoder appends to, the places of the
-- strings in it, and the executable copy of it. The answers of the operating system are arguments.
pub mod Strings
pub mod Memory
mod Tests
use occult.Common.{
  ℕ, ◌+◌, ◌-◌, ◌*◌, ◌/◌, Bool, true, false, ◌==◌, ltb, if◌then◌else◌, Option, none, some, List, [],
  ◌∷◌, ◌++◌, Bytes, length, is_some, Option-cases,
}
use occult.Linker.Link.{find_name}

pub record Writer : Type 0 where
  pub code : Bytes
  pub page_size : ℕ
  pub allocated_size : ℕ
  pub string_locations : List (Bytes × ℕ)

-- The constructor, where `mmap` answers.
abbrev pub new_writer : ℕ → Writer
new_writer page_size = record {
  code = [];
  page_size = page_size;
  allocated_size = page_size * 256;
  string_locations = [];
}

unfoldable pub push_byte : Writer → ℕ → Writer
push_byte w byte = record w { code = w.code ++ (byte ∷ []) }

unfoldable pub push_bytes : Writer → Bytes → Writer
push_bytes w bytes = record w { code = w.code ++ bytes }

-- `string_to_bytes`, of a string that is its bytes
abbrev pub string_to_bytes : Bytes → Bytes
string_to_bytes str = str

-- The map keeps the first place of a string; what is returned is the place after the first byte of this
-- one.
unfoldable pub push_string : Writer → Bytes → Writer × ℕ
push_string w str =
    let located =
      if is_some (find_name str (w.string_locations))
      then w
      else record w { string_locations = (str, length (w.code)) ∷ w.string_locations } in
    (push_bytes located (string_to_bytes str), length (w.code) + 1)

-- `string_locations[str]` makes an entry 0 for a string that has none.
unfoldable pub get_string_location : Writer → Bytes → Writer × ℕ
get_string_location w str = elim (find_name str (w.string_locations)) [
  | none ↦ (record w { string_locations = (str, 0) ∷ w.string_locations }, 0)
  | some location ↦ (w, location)
]

-- What `setup_function` ends with: the null pointer, one of its two exceptions, or memory that holds the
-- code and is executable up to a size.
pub data Setup : Type 0 where
  empty : Setup
  remap_failed : Setup
  protect_failed : Writer → Setup
  ready : Writer → (memory : Bytes) → (executable : ℕ) → Setup

unfoldable pub setup_function : (remaps protects : Bool) → Writer → Setup
setup_function remaps protects w =
    let required_size = length (w.code) in
    let new_size = (required_size / w.page_size + 1) * w.page_size in
    let aligned_size = (required_size + w.page_size - 1) / w.page_size * w.page_size in
    let grown =
      if ltb (w.allocated_size) required_size then record w { allocated_size = new_size } else w in
    if required_size == 0
    then empty
    else if (if ltb (w.allocated_size) required_size then remaps else true)
    then (if protects then ready grown (w.code) aligned_size else protect_failed grown)
    else remap_failed
