-- ===== src/Prelude/Zip.antt =====
-- Parallel vectors as one list, and what their operations are on it.
use Prim.Native.Nat.{ℕ, zero, suc}
use mathlib.Core.Path.{◌≡◌, refl, ap}
use mathlib.Core.List.{List, [], ◌∷◌, ◌++◌, map}
use mathlib.Core.Option.{some}
use native.Mathlib.Omega.{arith}
use open_simp.Prelude.Lists.{length, get_elem?, remove_at, modify}

-- Lists side by side, up to the end of the shorter one.
module _ {ℓ κ} {A : Type ℓ} {B : Type κ} where
  abbrev pub zip : List A → List B → List (A × B)
  zip [] ys = []
  zip (x ∷ xs) [] = []
  zip (x ∷ xs) (y ∷ ys) = (x, y) ∷ zip xs ys

  pub zip-remove_at :
      (xs : List A) (ys : List B) (i : ℕ)
      → zip (remove_at xs i) (remove_at ys i) ≡ remove_at (zip xs ys) i
  zip-remove_at [] ys i = refl
  zip-remove_at (x ∷ xs) [] zero = zip-nil xs
    where
      zip-nil : (l : List A) → zip l [] ≡ []
      zip-nil [] = refl
      zip-nil (z ∷ l) = refl
  zip-remove_at (x ∷ xs) [] (suc i) = refl
  zip-remove_at (x ∷ xs) (y ∷ ys) zero = refl
  zip-remove_at (x ∷ xs) (y ∷ ys) (suc i) = ap (◌∷◌ (x, y)) (zip-remove_at xs ys i)

  pub zip-modify_left :
      (xs : List A) (ys : List B) (i : ℕ) (f : A → A)
      → zip (modify i f xs) ys ≡ modify i (λ t. (f t.0, t.1)) (zip xs ys)
  zip-modify_left [] ys i f = refl
  zip-modify_left (x ∷ xs) [] zero f = refl
  zip-modify_left (x ∷ xs) [] (suc i) f = refl
  zip-modify_left (x ∷ xs) (y ∷ ys) zero f = refl
  zip-modify_left (x ∷ xs) (y ∷ ys) (suc i) f = ap (◌∷◌ (x, y)) (zip-modify_left xs ys i f)

  pub zip-modify_right :
      (xs : List A) (ys : List B) (i : ℕ) (f : B → B)
      → zip xs (modify i f ys) ≡ modify i (λ t. (t.0, f t.1)) (zip xs ys)
  zip-modify_right [] ys i f = refl
  zip-modify_right (x ∷ xs) [] i f = refl
  zip-modify_right (x ∷ xs) (y ∷ ys) zero f = refl
  zip-modify_right (x ∷ xs) (y ∷ ys) (suc i) f = ap (◌∷◌ (x, y)) (zip-modify_right xs ys i f)

  pub zip-append :
      (xs : List A) (ys : List B) (x : A) (y : B)
      → length xs ≡ length ys
      → zip (xs ++ x ∷ []) (ys ++ y ∷ []) ≡ zip xs ys ++ (x, y) ∷ []
  zip-append [] [] x y h = refl
  zip-append [] (b ∷ ys) x y h = absurd (omega arith)
  zip-append (a ∷ xs) [] x y h = absurd (omega arith)
  zip-append (a ∷ xs) (b ∷ ys) x y h = ap (◌∷◌ (a, b)) (zip-append xs ys x y (omega arith))

  pub length-zip :
      (xs : List A) (ys : List B) → length xs ≡ length ys → length (zip xs ys) ≡ length xs
  length-zip [] ys h = refl
  length-zip (x ∷ xs) [] h = absurd (omega arith)
  length-zip (x ∷ xs) (y ∷ ys) h = omega (arith, length-zip xs ys)

  pub get_elem?-zip :
      (xs : List A) (ys : List B) (i : ℕ) {x : A} {y : B}
      → get_elem? xs i ≡ some x
      → get_elem? ys i ≡ some y
      → get_elem? (zip xs ys) i ≡ some (x, y)
  get_elem?-zip [] ys i h k = cc
  get_elem?-zip (a ∷ xs) [] i h k = cc
  get_elem?-zip (a ∷ xs) (b ∷ ys) zero h k = cc
  get_elem?-zip (a ∷ xs) (b ∷ ys) (suc i) h k = get_elem?-zip xs ys i h k

module _ {ℓ κ} {A : Type ℓ} {B : Type κ} where
  pub map-remove_at :
      (f : A → B) (xs : List A) (i : ℕ) → map f (remove_at xs i) ≡ remove_at (map f xs) i
  map-remove_at f [] i = refl
  map-remove_at f (x ∷ xs) zero = refl
  map-remove_at f (x ∷ xs) (suc i) = ap (◌∷◌ (f x)) (map-remove_at f xs i)

  pub map-modify :
      (f : A → B) (g : A → A) (h : B → B) (xs : List A) (i : ℕ)
      → ((x : A) → f (g x) ≡ h (f x))
      → map f (modify i g xs) ≡ modify i h (map f xs)
  map-modify f g h [] i e = refl
  map-modify f g h (x ∷ xs) zero e = ap (λ y. y ∷ map f xs) (e x)
  map-modify f g h (x ∷ xs) (suc i) e = ap (◌∷◌ (f x)) (map-modify f g h xs i e)

  pub get_elem?-map :
      (f : A → B) (xs : List A) (i : ℕ) {a : A}
      → get_elem? xs i ≡ some a
      → get_elem? (map f xs) i ≡ some (f a)
  get_elem?-map f [] i h = cc
  get_elem?-map f (x ∷ xs) zero h = cc
  get_elem?-map f (x ∷ xs) (suc i) h = get_elem?-map f xs i h

  pub map-append_last :
      (f : A → B) (xs : List A) (a : A) → map f (xs ++ a ∷ []) ≡ map f xs ++ f a ∷ []
  map-append_last f [] a = refl
  map-append_last f (x ∷ xs) a = ap (◌∷◌ (f x)) (map-append_last f xs a)

  pub length-map : (f : A → B) (xs : List A) → length (map f xs) ≡ length xs
  length-map f [] = refl
  length-map f (x ∷ xs) = ap suc (length-map f xs)

  -- The first parts of lists side by side.
  pub map-zip_left :
      (xs : List A) (ys : List B) → length xs ≡ length ys → map (λ t. t.0) (zip xs ys) ≡ xs
  map-zip_left [] ys h = refl
  map-zip_left (x ∷ xs) [] h = absurd (omega arith)
  map-zip_left (x ∷ xs) (y ∷ ys) h = ap (◌∷◌ x) (map-zip_left xs ys (omega arith))
