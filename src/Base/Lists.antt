-- ===== src/Base/Lists.antt =====
-- Lists measured and indexed by native numbers, and C strings as lists of bytes.
use Prim.Native.Nat.{ℕ, zero, suc, ◌+◌, ◌-◌, ◌≤◌}
use Prim.Native.Char.{code}
use Prim.Native.String.{String}
use mathlib.Core.Path.{◌≡◌, refl, ap}
use mathlib.Core.Bool.{Bool, true, false, ◌&&◌}
use mathlib.Core.List.{List, [], ◌∷◌, ◌++◌}
use mathlib.Core.Option.{Option, none, some}
use native.Mathlib.Omega.{arith}
use s3ro.Base.Tests.{◌==◌}

-- The bytes of a C string, without the NUL that ends it.
abbrev pub Bytes : Type 0
Bytes = List ℕ

-- A text literal; every one of this library is ASCII.
abbrev pub codes : String → Bytes
codes String.[] = []
codes (String.◌∷◌ c s) = code c ∷ codes s

module _ {ℓ} {A : Type ℓ} where
  abbrev pub length : List A → ℕ
  length [] = 0
  length (_ ∷ xs) = suc (length xs)

  abbrev pub get_elem? : List A → ℕ → Option A
  get_elem? [] i = none
  get_elem? (x ∷ xs) zero = some x
  get_elem? (x ∷ xs) (suc i) = get_elem? xs i

  abbrev pub take : ℕ → List A → List A
  take zero xs = []
  take (suc n) [] = []
  take (suc n) (x ∷ xs) = x ∷ take n xs

  abbrev pub drop : ℕ → List A → List A
  drop zero xs = xs
  drop (suc n) [] = []
  drop (suc n) (x ∷ xs) = drop n xs

  pub length-append : (xs ys : List A) → length (xs ++ ys) ≡ length xs + length ys
  length-append [] ys = omega arith
  length-append (x ∷ xs) ys = omega (arith, length-append xs ys)

  pub length-take-le : (n : ℕ) (xs : List A) → length (take n xs) ≤ n
  length-take-le zero xs = omega arith
  length-take-le (suc n) [] = omega arith
  length-take-le (suc n) (x ∷ xs) = omega (arith, length-take-le n xs)

  -- A text that fits is not cut.
  pub take-of_le : (n : ℕ) (xs : List A) → length xs ≤ n → take n xs ≡ xs
  take-of_le zero [] h = refl
  take-of_le zero (x ∷ xs) h = absurd (omega arith)
  take-of_le (suc n) [] h = refl
  take-of_le (suc n) (x ∷ xs) h = ap (◌∷◌ x) (take-of_le n xs (omega arith))

  pub take-length-append : (xs ys : List A) → take (length xs) (xs ++ ys) ≡ xs
  take-length-append [] ys = refl
  take-length-append (x ∷ xs) ys = ap (◌∷◌ x) (take-length-append xs ys)

  pub drop-length-append : (xs ys : List A) → drop (length xs) (xs ++ ys) ≡ ys
  drop-length-append [] ys = refl
  drop-length-append (x ∷ xs) ys = drop-length-append xs ys

-- `strcmp(a, b) == 0`.
abbrev pub str_eq : Bytes → Bytes → Bool
str_eq [] [] = true
str_eq [] (_ ∷ _) = false
str_eq (_ ∷ _) [] = false
str_eq (x ∷ xs) (y ∷ ys) = x == y && str_eq xs ys

-- `strncmp(s, p, strlen(p)) == 0`.
abbrev pub starts_with : Bytes → Bytes → Bool
starts_with [] s = true
starts_with (_ ∷ _) [] = false
starts_with (x ∷ xs) (y ∷ ys) = x == y && starts_with xs ys

pub str_eq→eq : (a b : Bytes) → str_eq a b ≡ true → a ≡ b
str_eq→eq [] [] h = refl
str_eq→eq [] (_ ∷ _) h = cc
str_eq→eq (_ ∷ _) [] h = cc
str_eq→eq (x ∷ xs) (y ∷ ys) h = ground (arith, str_eq→eq xs ys)

pub str_eq_self : (a : Bytes) → str_eq a a ≡ true
str_eq_self [] = refl
str_eq_self (x ∷ xs) = ground (arith, str_eq_self xs)

pub starts_with-append : (p q : Bytes) → starts_with p (p ++ q) ≡ true
starts_with-append [] q = refl
starts_with-append (x ∷ p) q = ground (arith, starts_with-append p q)

pub starts_with→append : (p s : Bytes) → starts_with p s ≡ true → s ≡ p ++ drop (length p) s
starts_with→append [] s h = refl
starts_with→append (x ∷ p) [] h = cc
starts_with→append (x ∷ p) (y ∷ s) h = ground (arith, starts_with→append p s)

pub length-drop-le {ℓ} : {A : Type ℓ} (n : ℕ) (xs : List A) → length (drop n xs) ≤ length xs
length-drop-le zero xs = omega arith
length-drop-le (suc n) [] = omega arith
length-drop-le (suc n) (x ∷ xs) = omega (arith, length-drop-le n xs)

abbrev pub get_or {ℓ} : {A : Type ℓ} → List A → ℕ → A → A
get_or [] i d = d
get_or (x ∷ xs) zero d = x
get_or (x ∷ xs) (suc i) d = get_or xs i d

module _ {ℓ} {A : Type ℓ} where
  -- A write out of bounds changes nothing.
  abbrev pub set : List A → ℕ → A → List A
  set [] i v = []
  set (x ∷ xs) zero v = v ∷ xs
  set (x ∷ xs) (suc i) v = x ∷ set xs i v

  abbrev pub replicate : ℕ → A → List A
  replicate zero a = []
  replicate (suc n) a = a ∷ replicate n a

  pub length-set : (xs : List A) (i : ℕ) (v : A) → length (set xs i v) ≡ length xs
  length-set [] i v = refl
  length-set (x ∷ xs) zero v = refl
  length-set (x ∷ xs) (suc i) v = ap suc (length-set xs i v)

  pub length-replicate : (n : ℕ) (a : A) → length (replicate n a) ≡ n
  length-replicate zero a = refl
  length-replicate (suc n) a = ap suc (length-replicate n a)

pub take-append-drop {ℓ} : {A : Type ℓ} (n : ℕ) (xs : List A) → take n xs ++ drop n xs ≡ xs
take-append-drop zero xs = refl
take-append-drop (suc n) [] = refl
take-append-drop (suc n) (x ∷ xs) = ap (◌∷◌ x) (take-append-drop n xs)

pub length-drop {ℓ} : {A : Type ℓ} (n : ℕ) (xs : List A) → length (drop n xs) ≡ length xs - n
length-drop zero xs = omega arith
length-drop (suc n) [] = omega arith
length-drop (suc n) (x ∷ xs) = omega (arith, length-drop n xs)
