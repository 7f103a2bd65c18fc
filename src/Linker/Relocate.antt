-- ===== src/Linker/Relocate.antt =====
-- src/backend/linker/linker.cpp: the patch loop on code that is made of pieces.
use occult.Common.{
  ℕ, zero, suc, ◌+◌, ◌^◌, ◌<◌, ◌≤◌, ◌≡◌, refl, sym, ap, ◌∙◌, true, false, ltb, some, List, [], ◌∷◌,
  ◌++◌, Bytes, length, get_or, map, arith, length-append, append-append, Bool-cases, inl, inr,
}
use occult.Bytes.{little_endian}
use occult.Linker.Link.{Symbols, find, new_function_addr, patch_step, patch_loop, call_2b, call_3b}
use occult.Linker.Pieces.{
  Piece, call, long_call, load, plain, encode, encode_all, target, relocate, movabs, Quiet,
  Readable,
}
use occult.Linker.Rounds.{
  loop_done, loop_step, loop_scanned, plain_step, call_step, long_call_step, load_step,
}

-- The loop turns the one code into the other, behind anything that it has scanned.
abbrev Relocates : Symbols → Bytes → Bytes → Type 0
Relocates s code code' =
    (pre : Bytes) (fuel : ℕ)
    → length code ≤ fuel
    → patch_loop s fuel (length pre) (pre ++ code) ≡ some (pre ++ code')

nil-Relocates : (s : Symbols) → Relocates s [] []
nil-Relocates s pre fuel h =
    loop_done s fuel (length pre) (pre ++ []) (ground (arith, length-append pre []))

-- Fewer than twelve bytes stay as they are.
short_code :
    (s : Symbols) (code code' : Bytes) → length code < 12 → Relocates s code code' → code' ≡ code
short_code s code code' h k =
    let done = loop_done s (length code) 0 code (ground arith) in
    let same = k [] (length code) (omega arith) in cc

-- A step over `mid`, and what the loop does behind it.
step-Relocates :
    (s : Symbols) (code mid rest rest' : Bytes) (n : ℕ)
    → 11 < length code
    → length mid ≡ suc n
    → length rest < length code
    → patch_step s 0 code ≡ (suc n, mid ++ rest)
    → Relocates s rest rest'
    → Relocates s code (mid ++ rest')
step-Relocates s code mid rest rest' n long size less step k pre zero fuel = absurd (omega arith)
step-Relocates s code mid rest rest' n long size less step k pre (suc m) fuel =
    loop_step s m pre code (suc n) (mid ++ rest) (ground (arith, length-append pre code)) step
    ∙ ap (λ i. patch_loop s m (length pre + i) (pre ++ (mid ++ rest))) (sym size)
    ∙ loop_scanned s m pre mid rest
    ∙ k (pre ++ mid) m (omega arith)
    ∙ ap some (append-append pre mid rest')

byte-Relocates :
    (s : Symbols) (b : ℕ) (code code' : Bytes)
    → movabs b (get_or code 0 0) ≡ false
    → Relocates s code code'
    → Relocates s (b ∷ code) (b ∷ code')
byte-Relocates s b code code' h k = elim (Bool-cases (ltb 11 (length (b ∷ code)))) [
  | inl g ↦
      step-Relocates s (b ∷ code) (b ∷ []) code code' 0 (ground arith) refl (omega arith)
        (plain_step s b code h) k
  | inr g ↦ λ pre fuel le.
      loop_done s fuel (length pre) (pre ++ b ∷ code) (ground (arith, length-append pre (b ∷ code)))
      ∙ ap (λ bs. some (pre ++ (b ∷ bs))) (sym (short_code s code code' (ground arith) k))
]

bytes-Relocates :
    (s : Symbols) (bs code code' : Bytes)
    → Quiet bs code
    → Relocates s code code'
    → Relocates s (bs ++ code) (bs ++ code')
bytes-Relocates s [] code code' h k = k
bytes-Relocates s (b ∷ bs) code code' h k =
    byte-Relocates s b (bs ++ code) (bs ++ code') h.0 (bytes-Relocates s bs code code' h.1 k)

D0_movabs : (c : ℕ) → movabs 0xD0 c ≡ false
unfolding movabs
D0_movabs c = refl

module _ (s : Symbols) (rest rest' : Bytes) (k : Relocates s rest rest') where
  call-Relocates :
      (a : ℕ)
      → a < 2 ^ 64
      → Relocates s (encode (call a) ++ rest) (encode (relocate s (call a)) ++ rest')
  unfolding encode little_endian relocate
  call-Relocates a h =
      let new = target (new_function_addr s a) a in
      let mid : Bytes = 0x48 ∷ 0xB8 ∷ (little_endian 8 new ++ 0xFF ∷ []) in
      step-Relocates s (encode (call a) ++ rest) mid (0xD0 ∷ rest) (0xD0 ∷ rest') 10 (omega arith)
        refl (omega arith) (call_step a rest s h) (byte-Relocates s 0xD0 rest rest' (D0_movabs _) k)

  long_call-Relocates :
      (a : ℕ)
      → a < 2 ^ 64
      → Relocates s (encode (long_call a) ++ rest) (encode (relocate s (long_call a)) ++ rest')
  unfolding encode little_endian relocate
  long_call-Relocates a h =
      step-Relocates s (encode (long_call a) ++ rest) (encode (relocate s (long_call a))) rest rest'
        12 (omega arith) refl (omega arith) (long_call_step a rest s h) k

  load-Relocates :
      (b c a : ℕ)
      → a < 2 ^ 64
      → movabs b c ≡ true
      → call_2b (encode (load b c a) ++ rest) 0 ≡ false
      → call_3b (encode (load b c a) ++ rest) 0 ≡ false
      → 1 < length rest
      → Quiet (c ∷ little_endian 8 (target (find a s.relocation_map) a)) rest
      → Relocates s (encode (load b c a) ++ rest) (encode (relocate s (load b c a)) ++ rest')
  unfolding encode little_endian relocate
  load-Relocates b c a h m two three long quiet =
      let operand = c ∷ little_endian 8 (target (find a s.relocation_map) a) in
      step-Relocates s (encode (load b c a) ++ rest) (b ∷ []) (operand ++ rest) (operand ++ rest') 0
        (omega arith) refl (omega arith) (load_step b c a rest s h m two three)
        (bytes-Relocates s operand rest rest' quiet k)

  plain-Relocates :
      (b : ℕ)
      → movabs b (get_or rest 0 0) ≡ false
      → Relocates s (encode (plain b) ++ rest) (encode (relocate s (plain b)) ++ rest')
  unfolding encode relocate
  plain-Relocates b h = byte-Relocates s b rest rest' h k

-- On code made of calls through rax with addresses of 64 bits, in either encoding, of loads of an address of 64
-- bits into a register, and of other bytes of which none begins such a load, the patch loop gives the
-- same code with the address of every known function that is called replaced by the place of the function, and that of every string
-- literal that is loaded by the place of its copy, and nothing else changed; with at least as much fuel as
-- the code is long, and behind any bytes already scanned. A load must not be a call, must have two
-- bytes behind it, and its new operand must not look like the start of a load.
pub patch_loop-encode_all :
    (s : Symbols) (ps : List Piece)
    → Readable s ps
    → (pre : Bytes) (fuel : ℕ) → length (encode_all ps) ≤ fuel
    → patch_loop s fuel (length pre) (pre ++ encode_all ps)
      ≡ some (pre ++ encode_all (map (relocate s) ps))
unfolding encode_all
patch_loop-encode_all s [] r = nil-Relocates s
patch_loop-encode_all s (call a ∷ ps) r =
    call-Relocates s _ _ (patch_loop-encode_all s ps r.1) a r.0
patch_loop-encode_all s (long_call a ∷ ps) r =
    long_call-Relocates s _ _ (patch_loop-encode_all s ps r.1) a r.0
patch_loop-encode_all s (load b c a ∷ ps) r =
    load-Relocates s _ _ (patch_loop-encode_all s ps r.6) b c a r.0 r.1 r.2 r.3 r.4 r.5
patch_loop-encode_all s (plain b ∷ ps) r =
    plain-Relocates s _ _ (patch_loop-encode_all s ps r.1) b r.0
