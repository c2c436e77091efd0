-- ===== src/Server/Commands/Lookup.antt =====
-- `getIndex` of servernetwork.cpp, on names that are in the vector.
use open_simp.Prelude.{
  ℕ, suc, ◌≡◌, ap, true, List, [], ◌∷◌, some, Bytes, str_eq, str_eq_iff, str_eq_refl, contains,
  get_elem?, arith, Bool-cases, inl, inr,
}
use open_simp.Server.Commands.{get_index}

pub get_index_total :
    (v : List Bytes) (k : Bytes)
    → contains v k ≡ true
    → (i : ℕ) × (get_index v k ≡ some i) × (get_elem? v i ≡ some k)
unfolding get_index
get_index_total [] k h = cc
get_index_total (x ∷ v) k h = elim (Bool-cases (str_eq x k)) [
  | inl hit ↦ (0, rw hit, ap some ((str_eq_iff x k).0 hit))
  | inr miss ↦
      let (i, e, at_i) = get_index_total v k (ground (arith, str_eq_iff x k, str_eq_iff k x)) in
      (suc i, rw (miss, e), at_i)
]

abbrev pub AllIn : List Bytes → List Bytes → Type 0
AllIn [] v = Unit
AllIn (x ∷ xs) v = (contains v x ≡ true) × AllIn xs v

AllIn-cons : (xs v : List Bytes) (y : Bytes) → AllIn xs v → AllIn xs (y ∷ v)
AllIn-cons [] v y h = tt
AllIn-cons (x ∷ xs) v y (here, rest) = (ground arith, AllIn-cons xs v y rest)

pub AllIn-self : (xs : List Bytes) → AllIn xs xs
AllIn-self [] = tt
AllIn-self (x ∷ xs) = (ground (arith, str_eq_refl x), AllIn-cons xs xs x (AllIn-self xs))
