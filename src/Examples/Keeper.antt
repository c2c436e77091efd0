-- ===== src/Examples/Keeper.antt =====
-- A user file that can be run: a line per user, the password in ones.
use open_simp.Prelude.{
  ℕ, zero, suc, ◌+◌, ◌≡◌, refl, ap, sym, ◌∙◌, ◌++◌, ◌==◌, if◌then◌else◌, Bool-cases, inl, inr,
  false, List, [], ◌∷◌, Bytes, str_eq, replicate, has, has-append, append_assoc, arith,
}
use open_simp.Lexer.Split.{parts, parts_from, parts-append_sep, parts_of_clean}
use open_simp.Server.{UserEntry, unreadable, unknown, no_password, password, Platform}
use open_simp.Server.Invariant.{IsAlias}
use open_simp.Server.Names.Rules.{alias_lacks, nul_no_word}
use open_simp.Server.Names.{is_word}
use open_simp.Server.Userdata.Users.{entry, IsUsers, users_file, IsUserStore}
use open_simp.Examples.Toy.{toy}

abbrev in_ones : Bytes → Bytes
in_ones [] = []
in_ones (x ∷ s) = replicate x b'1' ++ b'+' ∷ in_ones s

abbrev from_ones : ℕ → Bytes → Bytes
from_ones n [] = []
from_ones n (x ∷ s) =
    let next = n ∷ from_ones 0 s in
    let more = from_ones (suc n) s in if x == b'+' then next else more

abbrev emit_user : Bytes → Bytes → Bytes
emit_user name word = name ++ b':' ∷ in_ones word

abbrev prefer : UserEntry → UserEntry → UserEntry
prefer unknown e = e
prefer unreadable e = unreadable
prefer no_password e = no_password
prefer (password w) e = password w

abbrev fields_entry : List Bytes → Bytes → UserEntry
fields_entry [] name = unknown
fields_entry (n ∷ []) name = unknown
fields_entry (n ∷ word ∷ rest) name = if str_eq n name then password (from_ones 0 word) else unknown

abbrev search : List Bytes → Bytes → UserEntry
search [] name = unknown
search (l ∷ ls) name = prefer (search ls name) (fields_entry (parts b':' l) name)

abbrev pub keeper : Platform
keeper = record toy { load_user = λ file name. search (parts 10 file) name; emit_user = emit_user }

ones_back :
    (n k : ℕ) (s : Bytes) → from_ones k (replicate n b'1' ++ b'+' ∷ s) ≡ (k + n) ∷ from_ones 0 s
ones_back zero k s = ap (λ t. t ∷ from_ones 0 s) (omega arith)
ones_back (suc n) k s = ones_back n (suc k) s ∙ ap (λ t. t ∷ from_ones 0 s) (omega arith)

in_ones_back : (s : Bytes) → from_ones 0 (in_ones s) ≡ s
in_ones_back [] = refl
in_ones_back (x ∷ s) =
    ones_back x 0 (in_ones s) ∙ rw (in_ones_back s) (ap (λ t. t ∷ s) (omega arith))

ones_lack : (b n : ℕ) → (b'1' == b) ≡ false → has b (replicate n b'1') ≡ false
ones_lack b zero h = refl
ones_lack b (suc n) h = ground (arith, ones_lack b n)

in_ones_lacks :
    (b : ℕ) (s : Bytes) → (b'1' == b) ≡ false → (b'+' == b) ≡ false → has b (in_ones s) ≡ false
in_ones_lacks b [] h k = refl
in_ones_lacks b (x ∷ s) h k = ground (
  arith,
  has-append b (replicate x b'1') (b'+' ∷ in_ones s),
  ones_lack b x h,
  in_ones_lacks b s h k,
)

colon_no_word : is_word b':' ≡ false
unfolding is_word
colon_no_word = refl

break_no_word : is_word 10 ≡ false
unfolding is_word
break_no_word = refl

line_lacks :
    (b : ℕ) (name word : Bytes)
    → has b name ≡ false
    → (b'1' == b) ≡ false
    → (b'+' == b) ≡ false
    → (b':' == b) ≡ false
    → has b (emit_user name word) ≡ false
line_lacks b name word clean h k l =
    ground (arith, has-append b name (b':' ∷ in_ones word), in_ones_lacks b word h k)

line_ends :
    (s : Bytes) (x : ℕ)
    → (x == 10) ≡ false
    → (t : Bytes) × (y : ℕ) × (x ∷ in_ones s ≡ t ++ y ∷ []) × ((y == 10) ≡ false)
line_ends [] x h = ([], x, refl, h)
line_ends (c ∷ s) x h =
    let (t, y, e, k) = line_ends s b'+' refl in
    (
      x ∷ (replicate c b'1' ++ t),
      y,
      rw (e) (ap (λ r. x ∷ r) (sym (append_assoc (replicate c b'1') t (y ∷ [])))),
      k,
    )

prefer_assoc : (a b c : UserEntry) → prefer (prefer a b) c ≡ prefer a (prefer b c)
prefer_assoc unknown b c = refl
prefer_assoc unreadable b c = refl
prefer_assoc no_password b c = refl
prefer_assoc (password w) b c = refl

prefer_unknown : (e : UserEntry) → e ≡ prefer e unknown
prefer_unknown unknown = refl
prefer_unknown unreadable = refl
prefer_unknown no_password = refl
prefer_unknown (password w) = refl

search-last :
    (ls : List Bytes) (l name : Bytes)
    → search (ls ++ l ∷ []) name ≡ prefer (fields_entry (parts b':' l) name) (search ls name)
search-last [] l name = prefer_unknown (fields_entry (parts b':' l) name)
search-last (k ∷ ls) l name = rw (search-last ls l name) (
    prefer_assoc (fields_entry (parts b':' l) name) (search ls name)
      (fields_entry (parts b':' k) name))

parts-last :
    (s cur l : Bytes)
    → has 10 l ≡ false
    → parts_from 10 cur (s ++ 10 ∷ l) ≡ parts_from 10 cur s ++ l ∷ []
parts-last [] cur l h = ap (λ t. cur ∷ t) (parts_of_clean 10 l h)
parts-last (x ∷ s) cur l h = elim (Bool-cases (x == 10)) [
  | inl cut ↦ rw (cut, parts-last s [] l h)
  | inr more ↦ rw (more, parts-last s (cur ++ x ∷ []) l h)
]

line_entry :
    (n word name : Bytes)
    → IsAlias n
    → fields_entry (parts b':' (emit_user n word)) name
      ≡ (if str_eq n name then password word else unknown)
line_entry n word name a = rw (
  parts-append_sep b':' n (in_ones word) (alias_lacks b':' n colon_no_word a),
  parts_of_clean b':' (in_ones word) (in_ones_lacks b':' word refl refl),
  in_ones_back word,
)

loads :
    (users : List (Bytes × Bytes)) (name : Bytes)
    → IsUsers users
    → search (parts 10 (users_file keeper users)) name ≡ entry users name
loads [] name good = refl
loads (u ∷ []) name good = rw (
  parts_of_clean 10 (emit_user u.0 u.1)
      (line_lacks 10 u.0 u.1 (alias_lacks 10 u.0 break_no_word good.0) refl refl refl),
  line_entry u.0 u.1 name good.0,
)
loads (u ∷ v ∷ users) name good =
    rw
      (
        parts-last (users_file keeper (v ∷ users)) [] (emit_user u.0 u.1)
            (line_lacks 10 u.0 u.1 (alias_lacks 10 u.0 break_no_word good.0) refl refl refl),
        search-last (parts 10 (users_file keeper (v ∷ users))) (emit_user u.0 u.1) name,
        line_entry u.0 u.1 name good.0,
        loads (v ∷ users) name good.3,
      )
      (elim (Bool-cases (str_eq u.0 name)) [ inl same ↦ rw same | inr other ↦ rw other ])

pub keeper-IsUserStore : IsUserStore keeper
keeper-IsUserStore = record {
  no_nul = λ n word a plain. line_lacks 0 n word (alias_lacks 0 n nul_no_word a) refl refl refl;
  ending = λ n word a plain.
      let (t, y, e, k) = line_ends word b':' refl in
      (n ++ t, y, rw e (sym (append_assoc n t (y ∷ []))), k);
  loads = loads;
}
