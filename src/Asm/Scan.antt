-- ===== src/Asm/Scan.antt =====
-- src/backend/codegen/x86_64_assembler.hpp: when the loop over `get_next_token` ends.
use occult.Common.{
  ℕ, zero, suc, ◌<◌, ◌≤◌, Bool, true, false, not, ◌==◌, Option, ◌>>=◌, none, some, [], ◌∷◌, Bytes,
  length, drop_while, ◌≡◌, refl, arith, Bool-cases, sym, ap, ◌∙◌, inl, inr, ◌⊎◌,
}
use occult.Lexer.Maps.{is_some}
use occult.Asm.Token.{AssemblerToken, end_of_assembly_tt}
use occult.Asm.Tokenizer.{is_whitespace, handle_whitespace, token_at, get_next_token, scan}
use occult.Asm.Known.{
  known, all_known, readable, drop_while-all_known, token_at-Read, token_at-goes, token_at-stuck,
}

drop_while-head :
    (p : ℕ → Bool) (xs : Bytes) (d : ℕ) (ds : Bytes) → drop_while p xs ≡ d ∷ ds → p d ≡ false
unfolding drop_while
drop_while-head p [] d ds h = ground arith
drop_while-head p (x ∷ xs) d ds h = ground (arith, drop_while-head p xs d ds)

abbrev stuck : Bytes → Bool
stuck [] = false
stuck (c ∷ cs) = not (known c)

whitespace-known : (c : ℕ) → is_whitespace c ≡ true → known c ≡ true
whitespace-known c h = ground arith

-- A token that is not the last leaves fewer bytes, or stands for a byte at which the tokenizer stays.
abbrev GoesOn : Bytes → AssemblerToken × Bytes → Type 0
GoesOn source next =
    ((next.0.tt == end_of_assembly_tt) ≡ false)
    × (all_known next.1 ≡ all_known source)
    × ((length next.1 < length source) ⊎ (stuck next.1 ≡ true))

behind_whitespace :
    (c : ℕ) (cs s : Bytes) → handle_whitespace (c ∷ cs) ≡ s → GoesOn (c ∷ cs) (token_at s)
unfolding handle_whitespace all_known token_at
behind_whitespace c cs [] h =
    let rest = drop_while-all_known is_whitespace (c ∷ cs) whitespace-known in
    (refl, sym (ap all_known h) ∙ rest.0, inl (omega arith))
behind_whitespace c cs (d ∷ ds) h =
    let rest = drop_while-all_known is_whitespace (c ∷ cs) whitespace-known in
    let len : length (d ∷ ds) ≤ length (c ∷ cs) = rw h at rest.1 in
    let same : all_known (d ∷ ds) ≡ all_known (c ∷ cs) = rw h at rest.0 in
    elim (Bool-cases (readable d)) [
      | inl e ↦
          let r = token_at-Read d ds e in
          (r.0, ground (arith, same, e, r.1), inl (omega (arith, r.2, len)))
      | inr e ↦
          let w = drop_while-head is_whitespace (c ∷ cs) d ds h in
          let stays = token_at-stuck d ds e in
          rw stays (token_at-goes d ds e, same, inr (ground (arith, w, e)))
    ]

scan-stuck : (fuel : ℕ) (s : Bytes) → stuck s ≡ true → scan fuel s ≡ none
unfolding scan get_next_token handle_whitespace drop_while token_at
scan-stuck zero s h = refl
scan-stuck (suc fuel) [] h = absurd (ground arith)
scan-stuck (suc fuel) (c ∷ cs) h = ground (arith, scan-stuck fuel (c ∷ cs) h)

bind-is_some :
    {A B : Type 0} (o : Option A) (f : A → B) → is_some (o >>= λ a. some (f a)) ≡ is_some o
bind-is_some none f = refl
bind-is_some (some a) f = refl

scan-step :
    (fuel : ℕ) (c : ℕ) (cs : Bytes)
    → ((get_next_token (c ∷ cs)).0.tt == end_of_assembly_tt) ≡ false
    → is_some (scan (suc fuel) (c ∷ cs)) ≡ is_some (scan fuel (get_next_token (c ∷ cs)).1)
unfolding scan
scan-step fuel c cs h = rw h (bind-is_some (scan fuel (get_next_token (c ∷ cs)).1) _)

stuck-all_known : (s : Bytes) → stuck s ≡ true → all_known s ≡ false
unfolding all_known
stuck-all_known [] h = absurd (ground arith)
stuck-all_known (c ∷ cs) h = ground arith

-- With more fuel than the source has bytes, the loop that reads the tokens of an assembly block
-- ends exactly if every byte of it is whitespace, an operator, a letter, a digit or an underscore.
pub scan-all_known :
    (fuel : ℕ) (source : Bytes)
    → length source < fuel
    → is_some (scan fuel source) ≡ all_known source
unfolding scan get_next_token all_known
scan-all_known zero source h = absurd (omega arith)
scan-all_known (suc fuel) [] h = refl
scan-all_known (suc fuel) (c ∷ cs) h =
    let next = behind_whitespace c cs _ refl in
    scan-step fuel c cs next.0 ∙ elim next.2 [
      | inl shorter ↦ scan-all_known fuel _ (omega (arith, shorter, h)) ∙ next.1
      | inr s ↦ rw (scan-stuck fuel _ s) (sym (stuck-all_known _ s) ∙ next.1)
    ]
