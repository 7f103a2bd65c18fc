-- ===== src/Linker/Shift.antt =====
-- src/backend/linker/linker.cpp: a round of the patch loop looks at nothing before its position.
use occult.Common.{
  ℕ, suc, ◌+◌, ◌≡◌, refl, sym, ap, ◌∙◌, ltb, Option, none, some, [], ◌∷◌, ◌++◌, Bytes, length, take,
  drop, arith, length-append, get_or_of_append, set_of_append, drop-drop, drop-append, set,
}
use occult.Bytes.{little_endian, of_little_endian}
use occult.Linker.Link.{
  Symbols, find, new_function_addr, byte_at, call_2b, call_3b, is_movabs, is_movabs_rax,
  old_addr_at, write_at, patch_operand, patch_call, patch_string, patch_step,
}

module _ (pre suf : Bytes) where
  byte_at-append : (k : ℕ) → byte_at (pre ++ suf) (length pre + k) ≡ byte_at suf k
  byte_at-append k = get_or_of_append pre suf (length pre + k) k 0 refl

  byte_at-front : byte_at (pre ++ suf) (length pre) ≡ byte_at suf 0
  byte_at-front = get_or_of_append pre suf (length pre) 0 0 (omega arith)

  ltb-append : (k : ℕ) → ltb (length pre + k) (length (pre ++ suf)) ≡ ltb k (length suf)
  ltb-append k = ground (arith, length-append pre suf)

  is_movabs_rax-append : is_movabs_rax (pre ++ suf) (length pre) ≡ is_movabs_rax suf 0
  unfolding is_movabs_rax
  is_movabs_rax-append = rw (byte_at-front, byte_at-append 1)

  call_2b-append : call_2b (pre ++ suf) (length pre) ≡ call_2b suf 0
  unfolding call_2b
  call_2b-append = rw (is_movabs_rax-append, ltb-append 11, byte_at-append 10, byte_at-append 11)

  call_3b-append : call_3b (pre ++ suf) (length pre) ≡ call_3b suf 0
  unfolding call_3b
  call_3b-append =
      rw (
        is_movabs_rax-append,
        ltb-append 12,
        byte_at-append 10,
        byte_at-append 11,
        byte_at-append 12,
      )

  is_movabs-append : is_movabs (pre ++ suf) (length pre) ≡ is_movabs suf 0
  unfolding is_movabs
  is_movabs-append = rw (byte_at-front, byte_at-append 1)

  old_addr_at-append : old_addr_at (pre ++ suf) (length pre) ≡ old_addr_at suf 0
  unfolding old_addr_at
  old_addr_at-append =
      ap (λ bs. of_little_endian (take 8 bs))
        (sym (drop-drop (length pre) 2 (pre ++ suf)) ∙ ap (drop 2) (drop-append pre suf))

write_at-append :
    (pre suf : Bytes) (i k : ℕ) (bs : Bytes)
    → i ≡ length pre + k
    → write_at i bs (pre ++ suf) ≡ pre ++ write_at k bs suf
unfolding write_at
write_at-append pre suf i k [] h = refl
write_at-append pre suf i k (b ∷ bs) h =
    rw (set_of_append pre suf i k b h)
      (write_at-append pre (set suf k b) (suc i) (suc k) bs (omega arith))

patch_operand-append :
    (pre suf : Bytes) (o : Option ℕ)
    → patch_operand o (length pre) (pre ++ suf) ≡ pre ++ patch_operand o 0 suf
unfolding patch_operand
patch_operand-append pre suf none = refl
patch_operand-append pre suf (some a) =
    write_at-append pre suf (length pre + 2) 2 (little_endian 8 a) refl

pub patch_step-append :
    (s : Symbols) (pre suf : Bytes)
    → patch_step s (length pre) (pre ++ suf)
      ≡ (length pre + (patch_step s 0 suf).0, pre ++ (patch_step s 0 suf).1)
unfolding patch_step patch_call patch_string
patch_step-append s pre suf =
    rw
      (
        call_2b-append pre suf,
        call_3b-append pre suf,
        is_movabs-append pre suf,
        old_addr_at-append pre suf,
        patch_operand-append pre suf (new_function_addr s (old_addr_at suf 0)),
        patch_operand-append pre suf (find (old_addr_at suf 0) s.relocation_map),
      )
      (ground arith)
