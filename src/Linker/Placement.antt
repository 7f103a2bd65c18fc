-- ===== src/Linker/Placement.antt =====
-- src/backend/linker/linker.cpp: where the functions and the string literals are placed.
use occult.Common.{
  ℕ, ◌≡◌, refl, sym, ap, ◌∙◌, false, some, List, [], ◌∷◌, ◌++◌, Bytes, bytes_eq_iff, length, take,
  drop, arith, append-append, append-nil, drop-append, take-append,
}
use occult.Linker.Link.{place_functions, find_name, has_function}

place_functions-append :
    (xs ys : List (Bytes × Bytes)) (final_code : Bytes) (m : List (Bytes × ℕ))
    → place_functions (xs ++ ys) final_code m
      ≡ place_functions ys (place_functions xs final_code m).0 (place_functions xs final_code m).1
unfolding place_functions
place_functions-append [] ys final_code m = refl
place_functions-append ((x, c) ∷ xs) ys final_code m =
    place_functions-append xs ys (final_code ++ c) _

-- What is placed already stays in front.
placed_stays :
    (fs : List (Bytes × Bytes)) (final_code : Bytes) (m : List (Bytes × ℕ))
    → (rest : Bytes) × ((place_functions fs final_code m).0 ≡ final_code ++ rest)
unfolding place_functions
placed_stays [] final_code m = ([], sym (append-nil final_code))
placed_stays ((x, c) ∷ fs) final_code m =
    let (rest, e) = placed_stays fs (final_code ++ c) ((x, length final_code) ∷ m) in
    (c ++ rest, e ∙ append-append final_code c rest)

other_names :
    (name : Bytes) (fs : List (Bytes × Bytes)) (final_code : Bytes) (m : List (Bytes × ℕ))
    → has_function name fs ≡ false
    → find_name name (place_functions fs final_code m).1 ≡ find_name name m
unfolding place_functions has_function find_name
other_names name [] final_code m h = refl
other_names name ((x, c) ∷ fs) final_code m h =
    other_names name fs (final_code ++ c) ((x, length final_code) ∷ m) (ground arith)
    ∙ ground (arith)

-- The code of a function, where no function behind it has its name, lies in the code of the
-- program at the location noted under its name.
pub place_functions-find_name :
    (before after : List (Bytes × Bytes)) (name code final_code : Bytes) (m : List (Bytes × ℕ))
    → has_function name after ≡ false
    → let placed = place_functions (before ++ (name, code) ∷ after) final_code m in
      (at : ℕ) × (find_name name placed.1 ≡ some at)
      × (take (length code) (drop at placed.0) ≡ code)
unfolding place_functions find_name
place_functions-find_name before after name code final_code m h =
    let (front, locations) = place_functions before final_code m in
    let here = (name, length front) ∷ locations in
    let split = place_functions-append before ((name, code) ∷ after) final_code m in
    let (rest, e) = placed_stays after (front ++ code) here in
    (
      length front,
      ap (λ p. find_name name p.1) split
          ∙ other_names name after (front ++ code) here h
          ∙ rw ((bytes_eq_iff name name).1 refl),
      ap (λ p. take (length code) (drop (length front) p.0)) split
          ∙ ap (λ bs. take (length code) (drop (length front) bs))
              (e ∙ append-append front code rest)
          ∙ ap (take (length code)) (drop-append front (code ++ rest))
          ∙ take-append code rest,
    )
