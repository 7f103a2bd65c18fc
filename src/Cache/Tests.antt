-- ===== src/Cache/Tests.antt =====
-- A small file of compiled code, and the theorem at it.
use occult.Common.{ℕ, ◌≡◌, refl, Option, List, [], ◌∷◌, Bytes, codes, Yields, arith}
use occult.Cache.Write.{write_cached_code, serialized_addr_map, find_code}
use occult.Cache.File
use occult.Cache.File.{IsFileOf}

abbrev cached : List (Bytes × Bytes)
cached = (codes "main", 0x90 ∷ 0xC3 ∷ []) ∷ []

abbrev addresses : List (Bytes × ℕ)
addresses = (codes "main", 0x7000) ∷ []

abbrev literals : List (ℕ × Bytes)
literals = (0x9000, codes "hi") ∷ []

write_cached_code-IsFileOf_example :
    Yields
      (IsFileOf (0x90 ∷ 0xC3 ∷ []) addresses literals)
      (write_cached_code (1, 2) (codes "main") cached addresses literals)
unfolding find_code occult.Common.bytes_eq serialized_addr_map occult.Bytes.little_endian
write_cached_code-IsFileOf_example =
    File.write_cached_code-IsFileOf (1, 2) (codes "main") (0x90 ∷ 0xC3 ∷ []) cached addresses
      literals refl (omega arith) (omega arith)
      ((omega arith, (refl, (refl, (refl, (refl, tt))))), tt) ((omega arith, omega arith), tt)
