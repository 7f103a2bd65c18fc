-- ===== src/Common/Lists.antt =====
-- Lists measured and indexed by native numbers, under the library's names; byte strings; predicates
-- on every element; and the chain of fallible steps that `do` blocks use.
use Prim.Native.Nat.{ℕ, zero, suc, ◌+◌, ◌-◌, ◌<◌, ◌≤◌, min}
use Prim.Native.Nat.add
use Prim.Native.Char.{code}
use Prim.Native.String.{String}
use mathlib.Core.Path.{◌≡◌, refl, ap}
use mathlib.Core.Logic.{◌↔◌}
use mathlib.Core.Bool.{Bool, true, false, ◌&&◌}
use mathlib.Core.List.{List, [], ◌∷◌, ◌++◌}
use mathlib.Core.Option.{Option, none, some}
use native.Mathlib.Omega.{arith}
use occult.Common.Tests.{◌==◌, if◌then◌else◌}

module _ {ℓ} {A : Type ℓ} where
  abbrev pub length : List A → ℕ
  length [] = 0
  length (x ∷ xs) = suc (length xs)

  abbrev pub get_elem? : List A → ℕ → Option A
  get_elem? [] i = none
  get_elem? (x ∷ xs) zero = some x
  get_elem? (x ∷ xs) (suc i) = get_elem? xs i

  abbrev pub get_or : List A → ℕ → A → A
  get_or [] i d = d
  get_or (x ∷ xs) zero d = x
  get_or (x ∷ xs) (suc i) d = get_or xs i d

  -- A write out of bounds changes nothing.
  abbrev pub set : List A → ℕ → A → List A
  set [] i v = []
  set (x ∷ xs) zero v = v ∷ xs
  set (x ∷ xs) (suc i) v = x ∷ set xs i v

  abbrev pub take : ℕ → List A → List A
  take zero xs = []
  take (suc n) [] = []
  take (suc n) (x ∷ xs) = x ∷ take n xs

  abbrev pub drop : ℕ → List A → List A
  drop zero xs = xs
  drop (suc n) [] = []
  drop (suc n) (x ∷ xs) = drop n xs

  abbrev pub replicate : ℕ → A → List A
  replicate zero a = []
  replicate (suc n) a = a ∷ replicate n a

  -- The longest prefix on which a test holds, and what is left behind it.
  unfoldable pub take_while : (A → Bool) → List A → List A
  take_while p [] = []
  take_while p (x ∷ xs) = if p x then x ∷ take_while p xs else []

  unfoldable pub drop_while : (A → Bool) → List A → List A
  drop_while p [] = []
  drop_while p (x ∷ xs) = let rest = drop_while p xs in if p x then rest else x ∷ xs

  abbrev pub All {κ} : (A → Type κ) → List A → Type κ
  All P [] = Unit
  All P (x ∷ xs) = P x × All P xs

module _ {ℓ} {A : Type ℓ} where
  pub length-append : (xs ys : List A) → length (xs ++ ys) ≡ length xs + length ys
  length-append [] ys = omega arith
  length-append (x ∷ xs) ys = omega (arith, length-append xs ys)

  pub length-set : (xs : List A) (i : ℕ) (v : A) → length (set xs i v) ≡ length xs
  length-set [] i v = refl
  length-set (x ∷ xs) zero v = refl
  length-set (x ∷ xs) (suc i) v = ap suc (length-set xs i v)

  pub length-drop : (n : ℕ) (xs : List A) → length (drop n xs) ≡ length xs - n
  length-drop zero xs = omega arith
  length-drop (suc n) [] = omega arith
  length-drop (suc n) (x ∷ xs) = omega (arith, length-drop n xs)

  pub length-take : (n : ℕ) (xs : List A) → length (take n xs) ≡ min n (length xs)
  length-take zero xs = omega arith
  length-take (suc n) [] = omega arith
  length-take (suc n) (x ∷ xs) = omega (arith, length-take n xs)

  pub length-replicate : (n : ℕ) (a : A) → length (replicate n a) ≡ n
  length-replicate zero a = refl
  length-replicate (suc n) a = ap suc (length-replicate n a)

  pub drop-get_or :
      (xs : List A) (i : ℕ) (d : A) → i < length xs → drop i xs ≡ get_or xs i d ∷ drop (suc i) xs
  drop-get_or [] i d h = elim h [ ]
  drop-get_or (x ∷ xs) zero d h = refl
  drop-get_or (x ∷ xs) (suc i) d h = drop-get_or xs i d (omega arith)

  drop-nil : (n : ℕ) → ◌≡◌ {A = List A} (drop n []) []
  drop-nil zero = refl
  drop-nil (suc n) = refl

  pub drop-drop : (m n : ℕ) (xs : List A) → drop n (drop m xs) ≡ drop (m + n) xs
  drop-drop zero n xs = rw add.zero
  drop-drop (suc m) n [] = rw (add.suc, drop-nil n)
  drop-drop (suc m) n (x ∷ xs) = rw add.suc (drop-drop m n xs)

  pub drop-append : (xs ys : List A) → drop (length xs) (xs ++ ys) ≡ ys
  drop-append [] ys = refl
  drop-append (x ∷ xs) ys = drop-append xs ys

  pub take-append : (xs ys : List A) → take (length xs) (xs ++ ys) ≡ xs
  take-append [] ys = refl
  take-append (x ∷ xs) ys = ap (◌∷◌ x) (take-append xs ys)

  pub get_or_of_append :
      (xs ys : List A) (i k : ℕ) (d : A) → i ≡ length xs + k → get_or (xs ++ ys) i d ≡ get_or ys k d
  get_or_of_append [] ys i k d h = ap (λ n. get_or ys n d) (omega arith)
  get_or_of_append (x ∷ xs) ys zero k d h = absurd (omega arith)
  get_or_of_append (x ∷ xs) ys (suc i) k d h = get_or_of_append xs ys i k d (omega arith)

  pub set_of_append :
      (xs ys : List A) (i k : ℕ) (v : A) → i ≡ length xs + k → set (xs ++ ys) i v ≡ xs ++ set ys k v
  set_of_append [] ys i k v h = ap (λ n. set ys n v) (omega arith)
  set_of_append (x ∷ xs) ys zero k v h = absurd (omega arith)
  set_of_append (x ∷ xs) ys (suc i) k v h = ap (◌∷◌ x) (set_of_append xs ys i k v (omega arith))

  pub append-append : (xs ys zs : List A) → (xs ++ ys) ++ zs ≡ xs ++ (ys ++ zs)
  append-append [] ys zs = refl
  append-append (x ∷ xs) ys zs = ap (◌∷◌ x) (append-append xs ys zs)

  pub append-nil : (xs : List A) → xs ++ [] ≡ xs
  append-nil [] = refl
  append-nil (x ∷ xs) = ap (◌∷◌ x) (append-nil xs)

  pub drop_of_append :
      (n : ℕ) (xs ys : List A) → n ≤ length xs → drop n (xs ++ ys) ≡ drop n xs ++ ys
  drop_of_append zero xs ys h = refl
  drop_of_append (suc n) [] ys h = elim h [ ]
  drop_of_append (suc n) (x ∷ xs) ys h = drop_of_append n xs ys (omega arith)

  pub take_of_append : (n : ℕ) (xs ys : List A) → n ≤ length xs → take n (xs ++ ys) ≡ take n xs
  take_of_append zero xs ys h = refl
  take_of_append (suc n) [] ys h = elim h [ ]
  take_of_append (suc n) (x ∷ xs) ys h = ap (◌∷◌ x) (take_of_append n xs ys (omega arith))

  pub All-append {κ} : (P : A → Type κ) (xs ys : List A) → All P xs → All P ys → All P (xs ++ ys)
  All-append P [] ys h k = k
  All-append P (x ∷ xs) ys h k = (h.0, All-append P xs ys h.1 k)

  pub All-drop {κ} : (P : A → Type κ) (n : ℕ) (xs : List A) → All P xs → All P (drop n xs)
  All-drop P zero xs h = h
  All-drop P (suc n) [] h = h
  All-drop P (suc n) (x ∷ xs) h = All-drop P n xs h.1

module _ {ℓ} {A : Type ℓ} where
  pub All-get_or {κ} :
      (P : A → Type κ) (xs : List A) (i : ℕ) (d : A) → All P xs → i < length xs → P (get_or xs i d)
  All-get_or P [] i d h k = elim k [ ]
  All-get_or P (x ∷ xs) zero d h k = h.0
  All-get_or P (x ∷ xs) (suc i) d h k = All-get_or P xs i d h.1 (omega arith)

-- `ys` does not begin with an element that passes the test.
abbrev pub Stops {ℓ} : {A : Type ℓ} → (A → Bool) → List A → Type 0
Stops p [] = Unit
Stops p (y ∷ ys) = p y ≡ false

module _ {ℓ} {A : Type ℓ} where
  pub take_while-append :
      (p : A → Bool) (xs ys : List A)
      → All (λ x. p x ≡ true) xs
      → Stops p ys
      → take_while p (xs ++ ys) ≡ xs
  unfolding take_while
  take_while-append p [] [] h s = refl
  take_while-append p [] (y ∷ ys) h s = rw s
  take_while-append p (x ∷ xs) ys h s = rw (h.0, take_while-append p xs ys h.1 s)

  pub All-map {κ μ} :
      (P : A → Type κ) (Q : A → Type μ) (xs : List A) → ((x : A) → P x → Q x) → All P xs → All Q xs
  All-map P Q [] f h = tt
  All-map P Q (x ∷ xs) f h = (f x h.0, All-map P Q xs f h.1)

  pub get_or_of_drop :
      (xs : List A) (i : ℕ) (d c : A) (cs : List A)
      → drop i xs ≡ c ∷ cs
      → (get_or xs i d ≡ c) × (drop (suc i) xs ≡ cs) × (i < length xs)
  get_or_of_drop [] zero d c cs h = cc
  get_or_of_drop [] (suc i) d c cs h = cc
  get_or_of_drop (x ∷ xs) zero d c cs h = (cc, cc, omega arith)
  get_or_of_drop (x ∷ xs) (suc i) d c cs h =
      let (a, b, k) = get_or_of_drop xs i d c cs h in (a, b, omega arith)

module _ {ℓ} {A : Type ℓ} where
  pub get_elem?_of_drop :
      (xs : List A) (i : ℕ) (c : A) (cs : List A) → drop i xs ≡ c ∷ cs → get_elem? xs i ≡ some c
  get_elem?_of_drop [] zero c cs h = cc
  get_elem?_of_drop [] (suc i) c cs h = cc
  get_elem?_of_drop (x ∷ xs) zero c cs h = cc
  get_elem?_of_drop (x ∷ xs) (suc i) c cs h = get_elem?_of_drop xs i c cs h

-- A byte string: the bytes of a `std::string`.
abbrev pub Bytes : Type 0
Bytes = List ℕ

-- The bytes of an ASCII text.
abbrev pub codes : String → Bytes
codes String.[] = []
codes (String.◌∷◌ c s) = code c ∷ codes s

-- `operator==` of two byte strings.
unfoldable pub bytes_eq : Bytes → Bytes → Bool
bytes_eq [] [] = true
bytes_eq (x ∷ xs) (y ∷ ys) = x == y && bytes_eq xs ys
bytes_eq _ _ = false

pub bytes_eq_iff : (a b : Bytes) → (bytes_eq a b ≡ true) ↔ (a ≡ b)
unfolding bytes_eq
bytes_eq_iff (x ∷ a) (y ∷ b) = ground (arith, bytes_eq_iff a b)
bytes_eq_iff _ _ = ground arith

-- Chains of steps that may give nothing.
infixl 5 ◌>>=◌
abbrev pub ◌>>=◌ {ℓ κ} : {A : Type ℓ} {B : Type κ} → Option A → (A → Option B) → Option B
none >>= f = none
some a >>= f = f a

abbrev pub is_some {ℓ} : {A : Type ℓ} → Option A → Bool
is_some none = false
is_some (some a) = true

-- The chain gives something, of which `P` holds.
pub data Yields {ℓ} {A : Type ℓ} (P : A → Type 0) : Option A → Type ℓ where
  yields : {a : A} → P a → Yields P (some a)

module _ {ℓ} {A : Type ℓ} where
  pub Yields-some : {P : A → Type 0} {o : Option A} → Yields P o → (a : A) × (o ≡ some a) × P a
  Yields-some (yields {a} h) = (a, refl, h)

  pub Yields-map :
      {P Q : A → Type 0} {o : Option A} → ((a : A) → P a → Q a) → Yields P o → Yields Q o
  Yields-map f (yields {a} h) = yields (f a h)

  pub Yields-bind {κ} :
      {B : Type κ} {P : A → Type 0} {Q : B → Type 0} {o : Option A} {f : A → Option B}
      → Yields P o
      → ((a : A) → P a → Yields Q (f a))
      → Yields Q (o >>= f)
  Yields-bind (yields {a} h) k = k a h
