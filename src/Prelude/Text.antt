-- ===== src/Prelude/Text.antt =====
-- `std::string` as its bytes: literals, equality, C strings and searches.
use Prim.Native.Nat.{ℕ}
use Prim.Native.Char.{code}
use Prim.Native.String.{String}
use mathlib.Core.Path.{◌≡◌, refl}
use mathlib.Core.Logic.{◌↔◌}
use mathlib.Core.Bool.{Bool, true, false, ◌&&◌, ◌||◌}
use mathlib.Core.List.{List, [], ◌∷◌, ◌++◌}
use native.Mathlib.Omega.{arith}
use open_simp.Prelude.Tests.{◌==◌, if◌then◌else◌}

abbrev pub Bytes : Type 0
Bytes = List ℕ

-- The bytes of an ASCII literal.
abbrev pub codes : String → Bytes
codes String.[] = []
codes (String.◌∷◌ c s) = code c ∷ codes s

-- `operator==` of `std::string`.
abbrev pub str_eq : Bytes → Bytes → Bool
str_eq [] [] = true
str_eq [] (y ∷ ys) = false
str_eq (x ∷ xs) [] = false
str_eq (x ∷ xs) (y ∷ ys) = (x == y) && str_eq xs ys

pub str_eq→eq : (xs ys : Bytes) → str_eq xs ys ≡ true → xs ≡ ys
str_eq→eq [] [] h = refl
str_eq→eq [] (y ∷ ys) h = cc
str_eq→eq (x ∷ xs) [] h = cc
str_eq→eq (x ∷ xs) (y ∷ ys) h = ground (arith, str_eq→eq xs ys)

pub str_eq_refl : (xs : Bytes) → str_eq xs xs ≡ true
str_eq_refl [] = refl
str_eq_refl (x ∷ xs) = ground (arith, str_eq_refl xs)

pub str_eq_iff : (xs ys : Bytes) → (str_eq xs ys ≡ true) ↔ (xs ≡ ys)
str_eq_iff xs ys = (str_eq→eq xs ys, λ e. rw e (str_eq_refl ys))

-- What a C function sees of a string: the bytes before the first NUL.
abbrev pub c_str : Bytes → Bytes
c_str [] = []
c_str (x ∷ xs) = if x == 0 then [] else x ∷ c_str xs

module _ (b : ℕ) where
  abbrev pub has : Bytes → Bool
  has [] = false
  has (x ∷ xs) = (x == b) || has xs

  pub has-append : (xs ys : Bytes) → has (xs ++ ys) ≡ (has xs || has ys)
  has-append [] ys = refl
  has-append (x ∷ xs) ys = ground (arith, has-append xs ys)

pub c_str_of_clean : (xs : Bytes) → has 0 xs ≡ false → c_str xs ≡ xs
c_str_of_clean [] h = refl
c_str_of_clean (x ∷ xs) h = ground (arith, c_str_of_clean xs)

pub has-c_str : (xs : Bytes) → has 0 (c_str xs) ≡ false
has-c_str [] = refl
has-c_str (x ∷ xs) = ground (arith, has-c_str xs)

pub c_str-append_nul : (xs ys : Bytes) → has 0 xs ≡ true → c_str (xs ++ ys) ≡ c_str xs
c_str-append_nul [] ys h = cc
c_str-append_nul (x ∷ xs) ys h = ground (arith, c_str-append_nul xs ys)

-- Is the string one of a list?
abbrev pub contains : List Bytes → Bytes → Bool
contains [] s = false
contains (x ∷ xs) s = str_eq s x || contains xs s
