-- ===== src/Server/Names/Rules.antt =====
-- The rules for names that `nick` of servernetwork.cpp enforces.
use open_simp.Prelude.{
  ℕ, ◌≡◌, ◌≢◌, refl, ap, true, false, List, [], ◌∷◌, Bytes, some, length, all, contains, str_eq_iff,
  get_elem?, zero, suc, arith, has, ◌==◌, has,
}
use open_simp.Server.{unnamed, soh}
use open_simp.Server.Names.{is_word, is_space, is_blank, is_refused}
use open_simp.Server.Invariant.{IsAlias}

-- `nick` lets a name through exactly if it is legal and no client has it.
pub is_refused-IsAlias :
    (names : List Bytes) (name : Bytes)
    → is_refused names name ≡ false
    → IsAlias name × (contains names name ≡ false)
unfolding is_refused
is_refused-IsAlias names name h =
    (record { short = ground arith; long = ground arith; words = ground arith }, ground arith)

pub is_refused_of_IsAlias :
    (names : List Bytes) (name : Bytes)
    → IsAlias name
    → contains names name ≡ false
    → is_refused names name ≡ false
unfolding is_refused
is_refused_of_IsAlias names name a h = ground arith

-- A name that the list does not contain stands at no position of it.
pub ne_of_contains :
    (names : List Bytes) (name : Bytes) (i : ℕ) (n : Bytes)
    → contains names name ≡ false
    → get_elem? names i ≡ some n
    → n ≢ name
ne_of_contains [] name i n h e k = cc
ne_of_contains (x ∷ names) name zero n h e k = ground (arith, str_eq_iff name x)
ne_of_contains (x ∷ names) name (suc i) n h e k = ne_of_contains names name i n (ground arith) e k

word_not_space : (c : ℕ) → is_word c ≡ true → is_space c ≡ false
unfolding is_word is_space
word_not_space c h = ground arith

-- A legal name is never blank, so the last test of `nick` never fires.
pub alias_not_blank : (name : Bytes) → IsAlias name → is_blank name ≡ false
unfolding is_blank
alias_not_blank [] a = absurd (omega (arith, a.short))
alias_not_blank (c ∷ name) a = ground (arith, word_not_space c, a.words)

word_not : (b c : ℕ) → is_word b ≡ false → is_word c ≡ true → (c == b) ≡ false
word_not b c h k = ground arith

has_of_words : (b : ℕ) (s : Bytes) → is_word b ≡ false → all is_word s ≡ true → has b s ≡ false
has_of_words b [] h k = refl
has_of_words b (x ∷ s) h k = ground (arith, word_not b x h, has_of_words b s h)

-- A legal name holds no NUL and no separator.
pub alias_lacks : (b : ℕ) (name : Bytes) → is_word b ≡ false → IsAlias name → has b name ≡ false
alias_lacks b name h a = has_of_words b name h a.words

pub alias_ne_unnamed : (name : Bytes) → IsAlias name → name ≢ unnamed
alias_ne_unnamed name a e = absurd (omega (arith, a.short, ap length e))

pub nul_no_word : is_word 0 ≡ false
unfolding is_word
nul_no_word = refl

pub soh_no_word : is_word soh ≡ false
unfolding is_word
soh_no_word = refl
