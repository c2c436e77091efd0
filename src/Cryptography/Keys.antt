-- ===== src/Cryptography/Keys.antt =====
-- The map of the clients' keys: `keys` of cryptography.h.
use open_simp.Prelude.{ℕ, ◌≡◌, ◌==◌, List, [], ◌∷◌, none, some, arith, Bool-cases, inl, inr}
use open_simp.Cryptography.{lookup, insert_new}

pub lookup-insert_new_self :
    (k v : ℕ) (m : List (ℕ × ℕ)) → (x : ℕ) × (lookup k (insert_new k v m) ≡ some x)
lookup-insert_new_self k v [] = (v, ground arith)
lookup-insert_new_self k v ((j, u) ∷ m) =
    let (x, e) = lookup-insert_new_self k v m in
    elim (Bool-cases (j == k)) [ inl here ↦ (u, ground arith) | inr there ↦ (x, ground arith) ]

-- An entry that is there stays what it is: `insert` overwrites nothing.
pub lookup-insert_new_old :
    (k j v x : ℕ) (m : List (ℕ × ℕ)) → lookup k m ≡ some x → lookup k (insert_new j v m) ≡ some x
lookup-insert_new_old k j v x [] h = cc
lookup-insert_new_old k j v x ((i, u) ∷ m) h = ground (arith, lookup-insert_new_old k j v x m)

-- A socket without a key gets the new one.
pub lookup-insert_new_fresh :
    (k v : ℕ) (m : List (ℕ × ℕ)) → lookup k m ≡ none → lookup k (insert_new k v m) ≡ some v
lookup-insert_new_fresh k v [] h = ground arith
lookup-insert_new_fresh k v ((i, u) ∷ m) h = ground (arith, lookup-insert_new_fresh k v m)
