-- ===== src/Linker/Pieces.antt =====
-- Machine code as the patch loop of src/backend/linker/linker.cpp is meant to see it: calls, loads of
-- addresses, and other bytes. It is the independent description of what the loop does.
use occult.Common.{
  ℕ, ◌^◌, ◌<◌, ◌≡◌, Bool, true, false, ◌&&◌, ◌||◌, ◌==◌, leb, Option, none, some, List, [], ◌∷◌,
  ◌++◌, Bytes, length, get_or,
}
use occult.Bytes.{little_endian}
use occult.Linker.Link.{Symbols, call_2b, call_3b, new_function_addr, find}

-- movabs rax, addr; call rax, in the two encodings; a move of an address into a register, with the two
-- bytes of its opcode; or a byte of anything else.
pub data Piece : Type 0 where
  call : ℕ → Piece
  long_call : ℕ → Piece
  load : ℕ → ℕ → ℕ → Piece
  plain : ℕ → Piece

unfoldable pub encode : Piece → Bytes
encode (call a) = 0x48 ∷ 0xB8 ∷ (little_endian 8 a ++ (0xFF ∷ 0xD0 ∷ []))
encode (long_call a) = 0x48 ∷ 0xB8 ∷ (little_endian 8 a ++ (0x48 ∷ 0xFF ∷ 0xD0 ∷ []))
encode (load b c a) = b ∷ c ∷ little_endian 8 a
encode (plain b) = b ∷ []

unfoldable pub encode_all : List Piece → Bytes
encode_all [] = []
encode_all (p ∷ ps) = encode p ++ encode_all ps

-- A call of a known function goes to where the function was placed, and the address of a string literal
-- becomes that of its copy.
unfoldable pub target : Option ℕ → ℕ → ℕ
target none old_addr = old_addr
target (some new_addr) old_addr = new_addr

unfoldable pub relocate : Symbols → Piece → Piece
relocate s (call a) = call (target (new_function_addr s a) a)
relocate s (long_call a) = long_call (target (new_function_addr s a) a)
relocate s (load b c a) = load b c (target (find a s.relocation_map) a)
relocate s (plain b) = plain b

-- The two bytes that begin a move of 8 bytes into a register.
unfoldable pub movabs : ℕ → ℕ → Bool
movabs b c = (b == 0x48 || b == 0x49) && (leb 0xB8 c && leb c 0xBF)

-- No byte of the first list begins such a move, where the second follows.
abbrev pub Quiet : Bytes → Bytes → Type 0
Quiet [] rest = Unit
Quiet (b ∷ bs) rest = (movabs b (get_or (bs ++ rest) 0 0) ≡ false) × Quiet bs rest

-- The addresses fit 64 bits. A load is no call, at least two bytes follow it, and the loop, which scans
-- on in the middle of it, finds no move there. No other byte begins a move.
abbrev pub Readable : Symbols → List Piece → Type 0
Readable s [] = Unit
Readable s (call a ∷ ps) = (a < 2 ^ 64) × Readable s ps
Readable s (long_call a ∷ ps) = (a < 2 ^ 64) × Readable s ps
Readable s (load b c a ∷ ps) =
    (a < 2 ^ 64)
    × (movabs b c ≡ true)
    × (call_2b (encode (load b c a) ++ encode_all ps) 0 ≡ false)
    × (call_3b (encode (load b c a) ++ encode_all ps) 0 ≡ false)
    × (1 < length (encode_all ps))
    × Quiet (c ∷ little_endian 8 (target (find a s.relocation_map) a)) (encode_all ps)
    × Readable s ps
Readable s (plain b ∷ ps) = (movabs b (get_or (encode_all ps) 0 0) ≡ false) × Readable s ps
