-- ===== src/Server/Userdata/Users.antt =====
-- The users behind `userdata.yml`, as `registerUser` of servernetwork.cpp writes them.
use open_simp.Prelude.{
  ℕ, Bool, true, leb, ◌&&◌, all, ◌≡◌, refl, sym, c_str, ◌∙◌, ◌++◌, ◌==◌, if◌then◌else◌, Bool-cases,
  ==_iff, inl, inr, false, List, [], ◌∷◌, Bytes, str_eq, has, c_str_of_clean, append_assoc,
}
use open_simp.Server.{UserEntry, unknown, password, Platform}
use open_simp.Server.Invariant.{IsAlias}
use open_simp.Server.Userdata.{lines_from, reread, prev_file}

-- Names with their passwords, the newest user first.
abbrev pub entry : List (Bytes × Bytes) → Bytes → UserEntry
entry [] name = unknown
entry (u ∷ users) name = if str_eq u.0 name then password u.1 else entry users name

-- Printable ASCII.
abbrev pub is_plain : ℕ → Bool
is_plain c = leb 0x20 c && leb c 0x7e

-- Legal names, each only once, with printable passwords.
abbrev pub IsUsers : List (Bytes × Bytes) → Type 0
IsUsers [] = Unit
IsUsers (u ∷ users) =
    IsAlias u.0 × (all is_plain u.1 ≡ true) × (entry users u.0 ≡ unknown) × IsUsers users

module _ (p : Platform) where
  -- What `registerUser` has written: the emitted maps, oldest first, with a line break between two.
  abbrev pub users_file : List (Bytes × Bytes) → Bytes
  users_file [] = []
  users_file (u ∷ []) = p.emit_user u.0 u.1
  users_file (u ∷ v ∷ users) = users_file (v ∷ users) ++ 10 ∷ p.emit_user u.0 u.1

  -- What the server relies on: yaml-cpp writes no NUL, ends no map with a line break, and maps
  -- with different keys on lines behind one another are one map, which loads as what was emitted.
  pub record IsUserStore : Type 0 where
    pub no_nul :
        (name word : Bytes)
        → IsAlias name
        → all is_plain word ≡ true
        → has 0 (p.emit_user name word) ≡ false
    pub ending :
        (name word : Bytes)
        → IsAlias name
        → all is_plain word ≡ true
        → (s : Bytes) × (x : ℕ) × (p.emit_user name word ≡ s ++ x ∷ []) × ((x == 10) ≡ false)
    pub loads :
        (users : List (Bytes × Bytes)) (name : Bytes)
        → IsUsers users
        → p.load_user (users_file users) name ≡ entry users name

last_line : (cur : Bytes) (x : ℕ) → lines_from (cur ++ x ∷ []) [] ≡ (cur ++ x ∷ []) ∷ []
unfolding lines_from
last_line [] x = refl
last_line (y ∷ cur) x = refl

reread_open :
    (s cur : Bytes) (x : ℕ)
    → (x == 10) ≡ false
    → reread (lines_from cur (s ++ x ∷ [])) ≡ cur ++ (s ++ x ∷ 10 ∷ [])
unfolding reread lines_from
reread_open [] cur x h = rw (h, last_line cur x) (append_assoc cur (x ∷ []) (10 ∷ []))
reread_open (y ∷ s) cur x h = elim (Bool-cases (y == 10)) [
  | inl cut ↦ rw (cut, reread_open s [] x h, (==_iff y 10).0 cut)
  | inr more ↦
      rw (more, reread_open s (cur ++ y ∷ []) x h) (append_assoc cur (y ∷ []) (s ++ x ∷ 10 ∷ []))
]

-- A file whose last line is not ended is read with a line break behind it.
prev_file_open :
    (s : Bytes) (x : ℕ) → (x == 10) ≡ false → prev_file (s ++ x ∷ []) ≡ (s ++ x ∷ []) ++ 10 ∷ []
unfolding prev_file
prev_file_open s x h = reread_open s [] x h ∙ sym (append_assoc s (x ∷ []) (10 ∷ []))

module _ (p : Platform) (store : IsUserStore p) where
  prev_file_users :
      (u : Bytes × Bytes) (users : List (Bytes × Bytes))
      → IsAlias u.0
      → all is_plain u.1 ≡ true
      → prev_file (users_file p (u ∷ users)) ≡ users_file p (u ∷ users) ++ 10 ∷ []
  prev_file_users u [] a k =
      let (s, x, e, h) = store.ending u.0 u.1 a k in rw e (prev_file_open s x h)
  prev_file_users u (v ∷ users) a k =
      let (s, x, e, h) = store.ending u.0 u.1 a k in
      let front = users_file p (v ∷ users) in
      rw (e, sym (append_assoc front (10 ∷ s) (x ∷ []))) (prev_file_open (front ++ 10 ∷ s) x h)

  -- `registerUser` adds one user to those in the file.
  pub register_user-users_file :
      (users : List (Bytes × Bytes)) (username word : Bytes)
      → IsUsers users
      → IsAlias username
      → all is_plain word ≡ true
      → prev_file (users_file p users) ++ c_str (p.emit_user username word)
        ≡ users_file p ((username, word) ∷ users)
  unfolding prev_file reread lines_from
  register_user-users_file [] username word h a k =
      c_str_of_clean (p.emit_user username word) (store.no_nul username word a k)
  register_user-users_file (u ∷ users) username word h a k =
      rw
        (
          prev_file_users u users h.0 h.1,
          c_str_of_clean (p.emit_user username word) (store.no_nul username word a k),
        )
        (append_assoc (users_file p (u ∷ users)) (10 ∷ []) (p.emit_user username word))
