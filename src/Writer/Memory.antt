-- ===== src/Writer/Memory.antt =====
-- src/backend/codegen/writer.cpp: the sizes of `setup_function`.
use native.Mathlib.Nat.{
  lt-div-mul-add, div-mul-le_self, div-lt_iff_lt-mul, mul-le-mul_right, add-mul,
}
use occult.Common.{ℕ, ◌+◌, ◌-◌, ◌*◌, ◌/◌, ◌<◌, ◌≤◌, Bool, length, Bytes, ◌≡◌, arith}
use occult.Writer.{Writer, setup_function, ready}

-- The size in pages, rounded up.
abbrev rounded : ℕ → ℕ → ℕ
rounded n p = (n + p - 1) / p * p

rounded-ge : (n p : ℕ) → 0 < p → n ≤ rounded n p
rounded-ge n p h = let above : n + p - 1 < (n + p - 1) / p * p + p = lt-div-mul-add h in omega arith

rounded-lt : (n p : ℕ) → 0 < p → rounded n p < n + p
rounded-lt n p h = omega (arith, div-mul-le_self (n + p - 1) p)

-- No number of pages that holds `n` bytes is less.
rounded-least : (n p k : ℕ) → 0 < p → n ≤ k * p → rounded n p ≤ k * p
rounded-least n p k h fits =
    let below : n + p - 1 < (k + 1) * p = rw add-mul (omega arith) in
    let pages : (n + p - 1) / p ≤ k = omega (arith, (div-lt_iff_lt-mul h).1 below) in
    mul-le-mul_right p pages

-- When `setup_function` gives executable memory, it holds the code, what is made executable covers
-- the code, has less than a page too much, and lies within what is allocated; if pages are not
-- empty and a whole number of them was allocated.
pub setup_function-bounds :
    (remaps protects : Bool) (w : Writer) (pages : ℕ) {w' : Writer} {memory : Bytes}
    {executable : ℕ}
    → 0 < w.page_size
    → w.allocated_size ≡ pages * w.page_size
    → setup_function remaps protects w ≡ ready w' memory executable
    → (memory ≡ w.code)
      × ((length memory ≤ executable)
          × ((executable < length memory + w.page_size) × (executable ≤ w'.allocated_size)))
unfolding setup_function
setup_function-bounds remaps protects w pages page allocated h =
    let n = length (w.code) in
    let p = w.page_size in
    let above : n < n / p * p + p = lt-div-mul-add page in
    let grown : n ≤ (n / p + 1) * p = rw add-mul (omega arith) in
    ground (
      arith,
      rounded-ge n p page,
      rounded-lt n p page,
      rounded-least n p (n / p + 1) page grown,
      rounded-least n p pages page,
    )
