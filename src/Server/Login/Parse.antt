-- ===== src/Server/Login/Parse.antt =====
-- The reading of the credentials in `receive` of servernetwork.cpp.
use open_simp.Prelude.{
  ℕ, ◌≡◌, refl, ap, ◌∙◌, ◌++◌, ◌==◌, if◌then◌else◌, false, [], ◌∷◌, Option, none, some, Bytes, has,
  get_elem?, Bool-cases, inl, inr,
}
use open_simp.Lexer.Split.{parts_from, parts, parts-append_sep, parts_of_clean}
use open_simp.Server.{soh}
use open_simp.Server.Login.{
  UserStatus, got_username, got_username_and_password, got_neither, Credentials, read_char,
  read_chars, parse_credentials,
}

abbrev pub or_empty : Option Bytes → Bytes
or_empty none = []
or_empty (some s) = s

read_chars_cons :
    (x : ℕ) (s : Bytes) (t : UserStatus × Credentials)
    → read_chars (x ∷ s) t ≡ read_chars s (read_char x t)
unfolding read_chars
read_chars_cons x s t = refl

read_chars_end :
    (s : Bytes) (c : Credentials)
    → read_chars s (got_username_and_password, c) ≡ (got_username_and_password, c)
unfolding read_chars read_char
read_chars_end [] c = refl
read_chars_end (x ∷ s) c = read_chars_end s c

-- One step of the loop, at a separator and at a letter.
step_passwd :
    (x : ℕ) (u q : Bytes)
    → read_char x (got_username, record { uname = u; passwd = q }) ≡ (
        if x == soh
        then (got_username_and_password, record { uname = u; passwd = q })
        else (got_username, record { uname = u; passwd = q ++ x ∷ [] }))
unfolding read_char
step_passwd x u q = refl

step_uname :
    (x : ℕ) (u : Bytes)
    → read_char x (got_neither, record { uname = u; passwd = [] }) ≡ (
        if x == soh
        then (got_username, record { uname = u; passwd = [] })
        else (got_neither, record { uname = u ++ x ∷ []; passwd = [] }))
unfolding read_char
step_uname x u = refl

read_passwd :
    (s u q : Bytes)
    → (read_chars s (got_username, record { uname = u; passwd = q })).1
      ≡ record { uname = u; passwd = or_empty (get_elem? (parts_from soh q s) 0) }
read_passwd [] u q = unfold read_chars in refl
read_passwd (x ∷ s) u q =
    ap (λ t. t.1) (read_chars_cons x s (got_username, record { uname = u; passwd = q }))
    ∙ rw (step_passwd x u q) (elim (Bool-cases (x == soh)) [
      | inl cut ↦ rw (cut, read_chars_end s (record { uname = u; passwd = q }))
      | inr letter ↦ rw letter (read_passwd s u (q ++ x ∷ []))
    ])

read_uname :
    (s u : Bytes)
    → (read_chars s (got_neither, record { uname = u; passwd = [] })).1 ≡ record {
      uname = or_empty (get_elem? (parts_from soh u s) 0);
      passwd = or_empty (get_elem? (parts_from soh u s) 1);
    }
read_uname [] u = unfold read_chars in refl
read_uname (x ∷ s) u =
    ap (λ t. t.1) (read_chars_cons x s (got_neither, record { uname = u; passwd = [] }))
    ∙ rw (step_uname x u) (elim (Bool-cases (x == soh)) [
      | inl cut ↦ rw cut (read_passwd s u [])
      | inr letter ↦ rw letter (read_uname s (u ++ x ∷ []))
    ])

-- The user name is the first part of the decrypted text between separators "\x01" and the password
-- is the second, empty where there is none; further parts are ignored.
pub parse_credentials-parts :
    (decstr : Bytes)
    → parse_credentials decstr ≡ record {
      uname = or_empty (get_elem? (parts soh decstr) 0);
      passwd = or_empty (get_elem? (parts soh decstr) 1);
    }
unfolding parse_credentials
parse_credentials-parts decstr = read_uname decstr []

-- A name and a password that hold no separator are read back from the text that joins them.
pub parse_credentials_join :
    (u q : Bytes)
    → has soh u ≡ false
    → has soh q ≡ false
    → parse_credentials (u ++ soh ∷ q) ≡ record { uname = u; passwd = q }
parse_credentials_join u q hu hq =
    parse_credentials-parts (u ++ soh ∷ q)
    ∙ rw (parts-append_sep soh u q hu, parts_of_clean soh q hq)
