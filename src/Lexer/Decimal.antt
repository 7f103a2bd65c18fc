-- ===== src/Lexer/Decimal.antt =====
-- `std::to_string` and `std::from_chars` on integers, as lexer/number_parser.hpp uses them.
use native.Mathlib.Nat.{pow-suc}
use occult.Common.{
  ℕ, zero, suc, ◌+◌, ◌/◌, ◌%◌, ◌^◌, ◌<◌, ◌≡◌, ◌≢◌, refl, ◌∙◌, ap, true, none, some, [], ◌∷◌, ◌++◌,
  arith, Bytes, All, Stops, take_while-append, ltb, if◌then◌else◌, ltb→lt, Bool-cases, inl, inr,
  All-map,
}
use occult.Lexer.Number.{
  digit_value, digits_value, decimal, to_string, from_chars, uintptr_mod, non_empty,
}
use occult.Lexer.Maps.{numeric_set}

abbrev pub IsDigits : Bytes → Type 0
IsDigits = All (λ c. numeric_set c ≡ true)

digit_value_of_digit : (n : ℕ) → n < 10 → digit_value (b'0' + n) ≡ n
unfolding digit_value
digit_value_of_digit n h = ground arith

digit_of : (n : ℕ) → n < 10 → numeric_set (b'0' + n) ≡ true
unfolding numeric_set
digit_of n h = ground arith

div_ten : (n fuel : ℕ) → n < 10 ^ suc fuel → n / 10 < 10 ^ fuel
div_ten n fuel h = omega (arith, rw pow-suc at h)

pub decimal-value :
    (fuel n : ℕ) (out : Bytes)
    → n < 10 ^ fuel
    → digits_value 10 0 (decimal fuel n out) ≡ digits_value 10 n out
unfolding decimal digits_value
decimal-value zero n out h = ap (λ v. digits_value 10 v out) (omega arith)
decimal-value (suc fuel) n out h = elim (Bool-cases (ltb n 10)) [
  | inl small ↦
      rw small (
        ap (λ v. digits_value 10 v out) (omega (arith, digit_value_of_digit n (ltb→lt n 10 small))))
  | inr big ↦ rw big (
      decimal-value fuel (n / 10) ((b'0' + n % 10) ∷ out) (div_ten n fuel h)
      ∙ ap (λ v. digits_value 10 v out)
          (omega (arith, digit_value_of_digit (n % 10) (omega arith))))
]

pub decimal-IsDigits : (fuel n : ℕ) (out : Bytes) → IsDigits out → IsDigits (decimal fuel n out)
unfolding decimal
decimal-IsDigits zero n out h = h
decimal-IsDigits (suc fuel) n out h = elim (Bool-cases (ltb n 10)) [
  | inl small ↦ rw small (digit_of n (ltb→lt n 10 small), h)
  | inr big ↦
      rw big (
        decimal-IsDigits fuel (n / 10) ((b'0' + n % 10) ∷ out) (digit_of (n % 10) (omega arith), h))
]

decimal-non_empty : (fuel n : ℕ) (c : ℕ) (out : Bytes) → non_empty (decimal fuel n (c ∷ out)) ≡ true
unfolding decimal
decimal-non_empty zero n c out = refl
decimal-non_empty (suc fuel) n c out = elim (Bool-cases (ltb n 10)) [
  | inl small ↦ rw small
  | inr big ↦ rw big (decimal-non_empty fuel (n / 10) (b'0' + n % 10) (c ∷ out))
]

pub to_string-non_empty : (n : ℕ) → non_empty (to_string n) ≡ true
unfolding to_string decimal
to_string-non_empty n = elim (Bool-cases (ltb n 10)) [
  | inl small ↦ rw small
  | inr big ↦ rw big (decimal-non_empty 19 (n / 10) (b'0' + n % 10) [])
]

pub to_string-IsDigits : (n : ℕ) → IsDigits (to_string n)
unfolding to_string
to_string-IsDigits n = decimal-IsDigits 20 n [] tt

-- What `from_chars` makes of a run of decimal digits, whatever stands behind it: its value, or no
-- value where it does not fit in 64 bits.
pub from_chars-IsDigits :
    (digits tail : Bytes)
    → IsDigits digits
    → non_empty digits ≡ true
    → Stops (λ c. ltb (digit_value c) 10) tail
    → from_chars 10 (digits ++ tail) ≡ (
        if ltb (digits_value 10 0 digits) uintptr_mod
        then some (digits_value 10 0 digits)
        else none)
unfolding from_chars
from_chars-IsDigits digits tail h ne s =
    rw
      (
        take_while-append (λ c. ltb (digit_value c) 10) digits tail
            (All-map (λ c. numeric_set c ≡ true) (λ c. ltb (digit_value c) 10 ≡ true) digits
              (λ c k. unfold digit_value numeric_set in ground (arith, k)) h)
            s,
        ne,
      )
      refl

decimal-head :
    (fuel n : ℕ) (out : Bytes)
    → 0 < n
    → n < 10 ^ fuel
    → (c : ℕ) × (cs : Bytes) × (decimal fuel n out ≡ c ∷ cs) × (c ≢ b'0')
unfolding decimal
decimal-head zero n out p h = absurd (omega arith)
decimal-head (suc fuel) n out p h = elim (Bool-cases (ltb n 10)) [
  | inl small ↦ (b'0' + n, out, rw small, omega arith)
  | inr big ↦
      let (c, cs, e, z) =
        decimal-head fuel (n / 10) ((b'0' + n % 10) ∷ out) (ground (arith, big))
          (div_ten n fuel h) in
      (c, cs, rw big e, z)
]

-- The text of a positive number does not begin with 0.
pub to_string-head :
    (n : ℕ) → 0 < n → n < 2 ^ 64 → (c : ℕ) × (cs : Bytes) × (to_string n ≡ c ∷ cs) × (c ≢ b'0')
unfolding to_string
to_string-head n p h = decimal-head 20 n [] p (omega arith)

pub to_string-value : (n : ℕ) → n < 2 ^ 64 → digits_value 10 0 (to_string n) ≡ n
unfolding digits_value to_string
to_string-value n h = decimal-value 20 n [] (omega arith)
