-- ===== src/Prelude/Lists.antt =====
-- `std::vector` over native numbers: length, indexed reads, writes and removals.
use Prim.Native.Nat.{ℕ, zero, suc, ◌+◌, ◌≤◌, ◌<◌}
use mathlib.Core.Path.{◌≡◌, refl, ap, sym, ◌∙◌}
use mathlib.Core.Logic.{◌≢◌, ◌⊎◌, inl, inr}
use mathlib.Core.Bool.{Bool, true, ◌&&◌}
use mathlib.Core.List.{List, [], ◌∷◌, ◌++◌}
use mathlib.Core.Option.{Option, none, some}
use native.Mathlib.Omega.{arith}
use native.Mathlib.Decide.{ℕ_discrete}
use open_simp.Prelude.Tests.{ltb, ◌==◌, if◌then◌else◌}

module _ {ℓ} {A : Type ℓ} where
  abbrev pub length : List A → ℕ
  length [] = 0
  length (x ∷ xs) = suc (length xs)

  abbrev pub get_elem? : List A → ℕ → Option A
  get_elem? [] i = none
  get_elem? (x ∷ xs) zero = some x
  get_elem? (x ∷ xs) (suc i) = get_elem? xs i

  abbrev pub set : List A → ℕ → A → List A
  set [] i v = []
  set (x ∷ xs) zero v = v ∷ xs
  set (x ∷ xs) (suc i) v = x ∷ set xs i v

  abbrev pub remove_at : List A → ℕ → List A
  remove_at [] i = []
  remove_at (x ∷ xs) zero = xs
  remove_at (x ∷ xs) (suc i) = x ∷ remove_at xs i

  -- `v[i] = f(v[i])`
  abbrev pub modify : ℕ → (A → A) → List A → List A
  modify i f [] = []
  modify zero f (x ∷ xs) = f x ∷ xs
  modify (suc i) f (x ∷ xs) = x ∷ modify i f xs

  abbrev pub take : ℕ → List A → List A
  take zero xs = []
  take (suc n) [] = []
  take (suc n) (x ∷ xs) = x ∷ take n xs

  abbrev pub drop : ℕ → List A → List A
  drop zero xs = xs
  drop (suc n) [] = []
  drop (suc n) (x ∷ xs) = drop n xs

  abbrev pub replicate : ℕ → A → List A
  replicate zero a = []
  replicate (suc n) a = a ∷ replicate n a

  abbrev pub all : (A → Bool) → List A → Bool
  all p [] = true
  all p (x ∷ xs) = p x && all p xs

-- Where the element at `i` of a list without its element at `p` stood before.
abbrev pub skip : ℕ → ℕ → ℕ
skip p i = if ltb i p then i else suc i

pub skip_injective : (p i j : ℕ) → skip p i ≡ skip p j → i ≡ j
skip_injective p i j e = ground arith

pub skip-ne : (p i : ℕ) → skip p i ≢ p
skip-ne p i = ground arith

module _ {ℓ} {A : Type ℓ} where
  pub length-append : (xs ys : List A) → length (xs ++ ys) ≡ length xs + length ys
  length-append [] ys = omega arith
  length-append (x ∷ xs) ys = omega (arith, length-append xs ys)

  pub length-set : (xs : List A) (i : ℕ) (v : A) → length (set xs i v) ≡ length xs
  length-set [] i v = refl
  length-set (x ∷ xs) zero v = refl
  length-set (x ∷ xs) (suc i) v = ap suc (length-set xs i v)

  pub length-remove_at :
      (xs : List A) (i : ℕ) → i < length xs → length (remove_at xs i) + 1 ≡ length xs
  length-remove_at [] i h = elim h [ ]
  length-remove_at (x ∷ xs) zero h = omega arith
  length-remove_at (x ∷ xs) (suc i) h = omega (arith, length-remove_at xs i)

  pub length-replicate : (n : ℕ) (a : A) → length (replicate n a) ≡ n
  length-replicate zero a = refl
  length-replicate (suc n) a = ap suc (length-replicate n a)

  pub take-append : (xs ys : List A) → take (length xs) (xs ++ ys) ≡ xs
  take-append [] ys = refl
  take-append (x ∷ xs) ys = ap (◌∷◌ x) (take-append xs ys)

  pub drop-append : (xs ys : List A) → drop (length xs) (xs ++ ys) ≡ ys
  drop-append [] ys = refl
  drop-append (x ∷ xs) ys = drop-append xs ys

  pub get_elem?-lt : (xs : List A) (i : ℕ) (a : A) → get_elem? xs i ≡ some a → i < length xs
  get_elem?-lt [] i a e = cc
  get_elem?-lt (x ∷ xs) zero a e = omega arith
  get_elem?-lt (x ∷ xs) (suc i) a e = omega (arith, get_elem?-lt xs i a e)

  pub get_elem?_total : (xs : List A) (i : ℕ) → i < length xs → (a : A) × (get_elem? xs i ≡ some a)
  get_elem?_total [] i h = elim h [ ]
  get_elem?_total (x ∷ xs) zero h = (x, refl)
  get_elem?_total (x ∷ xs) (suc i) h = get_elem?_total xs i (omega arith)

  pub get_elem?-remove_at :
      (xs : List A) (p i : ℕ) → get_elem? (remove_at xs p) i ≡ get_elem? xs (skip p i)
  get_elem?-remove_at [] p i = refl
  get_elem?-remove_at (x ∷ xs) zero zero = refl
  get_elem?-remove_at (x ∷ xs) zero (suc i) = ground arith
  get_elem?-remove_at (x ∷ xs) (suc p) zero = ground arith
  get_elem?-remove_at (x ∷ xs) (suc p) (suc i) = ground (arith, get_elem?-remove_at xs p i)

  pub get_elem?-set :
      (xs : List A) (p i : ℕ) (v : A)
      → p < length xs
      → get_elem? (set xs p v) i ≡ (if i == p then some v else get_elem? xs i)
  get_elem?-set [] p i v h = elim h [ ]
  get_elem?-set (x ∷ xs) zero zero v h = refl
  get_elem?-set (x ∷ xs) zero (suc i) v h = ground arith
  get_elem?-set (x ∷ xs) (suc p) zero v h = ground arith
  get_elem?-set (x ∷ xs) (suc p) (suc i) v h = ground (arith, get_elem?-set xs p i v)

  pub get_elem?-append_last :
      (xs : List A) (i : ℕ) (v : A)
      → get_elem? (xs ++ v ∷ []) i ≡ (if i == length xs then some v else get_elem? xs i)
  get_elem?-append_last [] zero v = refl
  get_elem?-append_last [] (suc i) v = ground arith
  get_elem?-append_last (x ∷ xs) zero v = ground arith
  get_elem?-append_last (x ∷ xs) (suc i) v = ground (arith, get_elem?-append_last xs i v)

  pub get_elem?_of_remove_at :
      (xs : List A) (p i : ℕ) {a : A}
      → get_elem? (remove_at xs p) i ≡ some a
      → get_elem? xs (skip p i) ≡ some a
  get_elem?_of_remove_at xs p i h = sym (get_elem?-remove_at xs p i) ∙ h

  pub get_elem?_of_set :
      (xs : List A) (p i : ℕ) (v : A) {a : A}
      → p < length xs
      → get_elem? (set xs p v) i ≡ some a
      → ((i ≡ p) × (v ≡ a)) ⊎ ((i ≢ p) × (get_elem? xs i ≡ some a))
  get_elem?_of_set xs p i v h e = elim (ℕ_discrete i p) [
    | yes here ↦ inl (here, ground (arith, get_elem?-set xs p i v h))
    | no other ↦ inr (other, ground (arith, get_elem?-set xs p i v h))
  ]

  -- One position holds one element.
  pub get_elem?_functional :
      (xs : List A) (i j : ℕ) {a b : A}
      → get_elem? xs i ≡ some a
      → j ≡ i
      → get_elem? xs j ≡ some b
      → a ≡ b
  get_elem?_functional xs i j h e k = cc

-- An entry that is changed and then changed again, or removed.
module _ {ℓ} {A : Type ℓ} where
  pub modify-modify :
      (i : ℕ) (f g : A → A) (xs : List A) → modify i g (modify i f xs) ≡ modify i (λ x. g (f x)) xs
  modify-modify i f g [] = refl
  modify-modify zero f g (x ∷ xs) = refl
  modify-modify (suc i) f g (x ∷ xs) = ap (◌∷◌ x) (modify-modify i f g xs)

  pub remove_at-modify :
      (i : ℕ) (f : A → A) (xs : List A) → remove_at (modify i f xs) i ≡ remove_at xs i
  remove_at-modify i f [] = refl
  remove_at-modify zero f (x ∷ xs) = refl
  remove_at-modify (suc i) f (x ∷ xs) = ap (◌∷◌ x) (remove_at-modify i f xs)

  pub set-modify : (i : ℕ) (v : A) (xs : List A) → set xs i v ≡ modify i (λ _. v) xs
  set-modify i v [] = refl
  set-modify zero v (x ∷ xs) = refl
  set-modify (suc i) v (x ∷ xs) = ap (◌∷◌ x) (set-modify i v xs)

  pub length-modify : (i : ℕ) (f : A → A) (xs : List A) → length (modify i f xs) ≡ length xs
  length-modify i f [] = refl
  length-modify zero f (x ∷ xs) = refl
  length-modify (suc i) f (x ∷ xs) = ap suc (length-modify i f xs)

  pub length-remove_at-le : (xs : List A) (i : ℕ) → length (remove_at xs i) ≤ length xs
  length-remove_at-le [] i = omega arith
  length-remove_at-le (x ∷ xs) zero = omega arith
  length-remove_at-le (x ∷ xs) (suc i) = omega (arith, length-remove_at-le xs i)

-- Every element satisfies `P`.
abbrev pub All {ℓ κ} : {A : Type ℓ} → (A → Type κ) → List A → Type κ
All P [] = Unit
All P (x ∷ xs) = P x × All P xs

pub All-append {ℓ κ} :
    {A : Type ℓ} (P : A → Type κ) (xs ys : List A) → All P xs → All P ys → All P (xs ++ ys)
All-append P [] ys h k = k
All-append P (x ∷ xs) ys (here, rest) k = (here, All-append P xs ys rest k)
