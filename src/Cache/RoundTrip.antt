-- ===== src/Cache/RoundTrip.antt =====
-- src/backend/codegen/code_cache.hpp: what is written is what the layout says.
use occult.Common.{
  ℕ, zero, suc, ◌+◌, ◌^◌, ◌<◌, ◌≤◌, ◌≡◌, refl, sym, ap, ◌∙◌, true, not, ◌==◌, List, [], ◌∷◌, ◌++◌,
  Bytes, length, drop, All, arith, length-append, drop-drop, drop-append, take-append,
  take_while-append,
}
use occult.Bytes.{little_endian, of_little_endian-little_endian}
use occult.Linker.Reader.{field, c_string}
use occult.Cache.Write.{serialized_addr_map, serialized_string_map}
use occult.Cache.Reader.{read_literals, read_functions}

-- What fits the bytes of an entry; a name ends at its first 0.
abbrev pub LiteralFits : ℕ × Bytes → Type 0
LiteralFits (address, literal) = (address < 2 ^ 64) × (length literal < 2 ^ 64)

abbrev pub FunctionFits : Bytes × ℕ → Type 0
FunctionFits (name, fn) = (fn < 2 ^ 64) × All (λ b. not (b == 0) ≡ true) name

behind_zero : (xs rest : Bytes) → drop (length xs + 1) (xs ++ (0 ∷ rest)) ≡ rest
behind_zero xs rest =
    sym (drop-drop (length xs) 1 (xs ++ (0 ∷ rest))) ∙ ap (drop 1) (drop-append xs (0 ∷ rest))

pub read_literals-serialized_string_map :
    (m : List (ℕ × Bytes))
    → All LiteralFits m
    → read_literals (length m) (serialized_string_map m) ≡ m
unfolding read_literals serialized_string_map field little_endian
read_literals-serialized_string_map [] h = refl
read_literals-serialized_string_map ((address, literal) ∷ m) h =
    let rest = serialized_string_map m in
    rw (
      of_little_endian-little_endian 8 address h.0.0,
      of_little_endian-little_endian 8 (length literal) h.0.1,
      take-append literal (0 ∷ rest),
      behind_zero literal rest,
      read_literals-serialized_string_map m h.1,
    )

pub read_functions-serialized_addr_map :
    (m : List (Bytes × ℕ)) (fuel : ℕ)
    → All FunctionFits m
    → length (serialized_addr_map m) ≤ fuel
    → read_functions fuel (serialized_addr_map m) ≡ m
unfolding read_functions serialized_addr_map field little_endian c_string
read_functions-serialized_addr_map [] zero h k = refl
read_functions-serialized_addr_map [] (suc fuel) h k = refl
read_functions-serialized_addr_map ((name, fn) ∷ m) zero h k = absurd (omega arith)
read_functions-serialized_addr_map ((name, fn) ∷ m) (suc fuel) h k =
    let rest = serialized_addr_map m in
    let shorter = length-append name (0 ∷ rest) in
    rw (
      of_little_endian-little_endian 8 fn h.0.0,
      take_while-append (λ b. not (b == 0)) name (0 ∷ rest) h.0.1 refl,
      behind_zero name rest,
      read_functions-serialized_addr_map m fuel h.1 (omega arith),
    )
