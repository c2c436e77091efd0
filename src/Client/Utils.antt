-- ===== src/Client/Utils.antt =====
-- `Utils::lexer` of src/clients/cpp/src/Utils.hpp, beside the server's `Lexer::lex`.
use open_simp.Prelude.{
  ℕ, suc, ◌-◌, ◌+◌, ◌≤◌, ◌<◌, ◌≡◌, refl, ◌∙◌, ◌==◌, if◌then◌else◌, List, [], ◌∷◌, ◌++◌, replicate,
  Bytes, Result, ok, fault, out_of_range, ◌>>=◌, store,
}
use open_simp.Lexer
use open_simp.Lexer.{lex, string_array}
use open_simp.Lexer.Split.{count, parts, lex-parts, lex_overflows}

-- The body of the loop and the loop, over the array, the counter `i` and the word so far. A write
-- outside `arg` is a fault.
module _ (divider : ℕ) where
  unfoldable pub take_char : ℕ → List Bytes → ℕ → Bytes → Result (List Bytes × ℕ × Bytes)
  take_char x arg i word =
      if x == divider
      then (do
        saved ← store arg (i + 1) word
        reset ← store saved (i + 1) []
        ok (reset, i + 1, []))
      else (do saved ← store arg i (word ++ x ∷ []); ok (saved, i, word ++ x ∷ []))

  unfoldable pub take_chars : Bytes → List Bytes → ℕ → Bytes → Result (List Bytes)
  unfolding take_char
  take_chars [] arg i word = ok arg
  take_chars (x ∷ str) arg i word = do
    (arg', i', word') ← take_char x arg i word
    take_chars str arg' i' word'

unfoldable pub lexer : Bytes → List Bytes → ℕ → Result (List Bytes)
unfolding take_chars
lexer str arg divider = take_chars divider str arg 0 []

take_chars-loop :
    (divider : ℕ) (str : Bytes) (arg : List Bytes) (i : ℕ) (word : Bytes)
    → take_chars divider str arg i word ≡ Lexer.loop divider str arg i word
unfolding take_chars take_char Lexer.loop Lexer.step
take_chars-loop divider [] arg i word = refl
take_chars-loop divider (x ∷ str) arg i word = λ j.
    Lexer.step divider x arg i word >>= λ (arg', i', word').
    take_chars-loop divider str arg' i' word' j

-- On any text, array and separator, the client's splitter and the server's come to the same array
-- or the same fault.
pub lexer-lex :
    (str : Bytes) (arg : List Bytes) (divider : ℕ) → lexer str arg divider ≡ lex str arg divider
unfolding lexer lex
lexer-lex str arg divider = take_chars-loop divider str arg 0 []

pub lexer-parts :
    (s : Bytes) (sep n : ℕ)
    → count sep s ≤ n
    → lexer s (string_array (suc n)) sep ≡ ok (parts sep s ++ replicate (n - count sep s) [])
lexer-parts s sep n h = lexer-lex s (string_array (suc n)) sep ∙ lex-parts s sep n h

pub lexer_overflows :
    (s : Bytes) (sep n : ℕ)
    → n < count sep s
    → lexer s (string_array (suc n)) sep ≡ fault out_of_range
lexer_overflows s sep n h = lexer-lex s (string_array (suc n)) sep ∙ lex_overflows s sep n h
