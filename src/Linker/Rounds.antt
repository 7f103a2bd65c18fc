-- ===== src/Linker/Rounds.antt =====
-- src/backend/linker/linker.cpp: a round of the patch loop at each kind of piece.
use occult.Common.{
  ℕ, zero, suc, ◌+◌, ◌^◌, ◌<◌, ◌≡◌, refl, true, false, ltb, Option, none, some, ◌∷◌, ◌++◌, Bytes,
  length, get_or, arith, length-append, append-append,
}
use occult.Bytes.{little_endian, of_little_endian-little_endian}
use occult.Linker.Link.{
  Symbols, call_2b, call_3b, is_movabs, is_movabs_rax, old_addr_at, write_at, new_function_addr,
  find, patch_operand, patch_call, patch_string, patch_step, patch_loop,
}
use occult.Linker.Shift.{patch_step-append}
use occult.Linker.Pieces.{call, long_call, load, encode, target, relocate, movabs}

pub loop_done :
    (s : Symbols) (fuel i : ℕ) (code : Bytes)
    → ltb (i + 11) (length code) ≡ false
    → patch_loop s fuel i code ≡ some code
unfolding patch_loop
loop_done s zero i code h = rw h
loop_done s (suc fuel) i code h = rw h

pub loop_step :
    (s : Symbols) (fuel : ℕ) (pre suf : Bytes) (n : ℕ) (suf' : Bytes)
    → ltb (length pre + 11) (length (pre ++ suf)) ≡ true
    → patch_step s 0 suf ≡ (n, suf')
    → patch_loop s (suc fuel) (length pre) (pre ++ suf)
      ≡ patch_loop s fuel (length pre + n) (pre ++ suf')
unfolding patch_loop
loop_step s fuel pre suf n suf' h k = rw (h, patch_step-append s pre suf, k)

pub plain_step :
    (s : Symbols) (b : ℕ) (rest : Bytes)
    → movabs b (get_or rest 0 0) ≡ false
    → patch_step s 0 (b ∷ rest) ≡ (1, b ∷ rest)
unfolding patch_step call_2b call_3b is_movabs_rax is_movabs movabs
plain_step s b rest h = ground arith

-- A position is moved over what was scanned.
pub loop_scanned :
    (s : Symbols) (fuel : ℕ) (pre mid suf : Bytes)
    → patch_loop s fuel (length pre + length mid) (pre ++ (mid ++ suf))
      ≡ patch_loop s fuel (length (pre ++ mid)) ((pre ++ mid) ++ suf)
loop_scanned s fuel pre mid suf = rw (length-append pre mid, append-append pre mid suf)

module _ (a : ℕ) (rest : Bytes) where
  call-call_2b :
      (call_2b (encode (call a) ++ rest) 0 ≡ true) × (call_3b (encode (call a) ++ rest) 0 ≡ false)
  unfolding call_2b call_3b is_movabs_rax encode little_endian
  call-call_2b = (ground arith, ground arith)

  long_call-call_3b : call_3b (encode (long_call a) ++ rest) 0 ≡ true
  unfolding call_3b is_movabs_rax encode little_endian
  long_call-call_3b = ground arith

  old_addr_at-encode :
      a < 2 ^ 64
      → (old_addr_at (encode (call a) ++ rest) 0 ≡ a)
        × (old_addr_at (encode (long_call a) ++ rest) 0 ≡ a)
  unfolding encode little_endian old_addr_at
  old_addr_at-encode h =
      (of_little_endian-little_endian 8 a h, of_little_endian-little_endian 8 a h)

  patch_operand-encode :
      (o : Option ℕ)
      → (patch_operand o 0 (encode (call a) ++ rest) ≡ encode (call (target o a)) ++ rest)
        × (patch_operand o 0 (encode (long_call a) ++ rest)
            ≡ encode (long_call (target o a)) ++ rest)
  unfolding encode little_endian patch_operand target write_at
  patch_operand-encode none = (refl, refl)
  patch_operand-encode (some b) = (refl, refl)

  pub call_step :
      (s : Symbols)
      → a < 2 ^ 64
      → patch_step s 0 (encode (call a) ++ rest) ≡ (11, encode (relocate s (call a)) ++ rest)
  unfolding patch_step relocate patch_call
  call_step s h =
      let (two, three) = call-call_2b in
      let (old, old') = old_addr_at-encode h in
      let (now, now') = patch_operand-encode (new_function_addr s a) in rw (two, three, old, now)

  pub long_call_step :
      (s : Symbols)
      → a < 2 ^ 64
      → patch_step s 0 (encode (long_call a) ++ rest)
        ≡ (13, encode (relocate s (long_call a)) ++ rest)
  unfolding patch_step relocate patch_call
  long_call_step s h =
      let (old, old') = old_addr_at-encode h in
      let (now, now') = patch_operand-encode (new_function_addr s a) in
      rw (long_call-call_3b, old', now') (ground arith)

module _ (b c a : ℕ) (rest : Bytes) where
  load-old_addr_at : a < 2 ^ 64 → old_addr_at (encode (load b c a) ++ rest) 0 ≡ a
  unfolding encode little_endian old_addr_at
  load-old_addr_at h = of_little_endian-little_endian 8 a h

  load-is_movabs : is_movabs (encode (load b c a) ++ rest) 0 ≡ movabs b c
  unfolding encode little_endian is_movabs movabs
  load-is_movabs = refl

  load-patch_operand :
      (o : Option ℕ)
      → patch_operand o 0 (encode (load b c a) ++ rest) ≡ encode (load b c (target o a)) ++ rest
  unfolding encode little_endian patch_operand target write_at
  load-patch_operand none = refl
  load-patch_operand (some n) = refl

  pub load_step :
      (s : Symbols)
      → a < 2 ^ 64
      → movabs b c ≡ true
      → call_2b (encode (load b c a) ++ rest) 0 ≡ false
      → call_3b (encode (load b c a) ++ rest) 0 ≡ false
      → patch_step s 0 (encode (load b c a) ++ rest) ≡ (1, encode (relocate s (load b c a)) ++ rest)
  unfolding patch_step relocate patch_string
  load_step s h m two three = rw (
    two,
    three,
    load-is_movabs,
    m,
    load-old_addr_at h,
    load-patch_operand (find a s.relocation_map),
  )
