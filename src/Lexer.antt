-- ===== src/Lexer.antt =====
-- The word splitter of the commands: src/server/src/commands/lexer.cpp, a loop over an array that the
-- caller owns.
pub mod Split
use open_simp.Prelude.{
  ℕ, suc, ◌+◌, ◌==◌, if◌then◌else◌, Bool, List, [], ◌∷◌, ◌++◌, Bytes, Result, ok, ◌>>=◌, store,
  replicate,
}

-- The loop, over the array, the counter `i` and the word so far. A write outside `arg` is a fault.
module _ (seprator : ℕ) where
  unfoldable pub step : ℕ → List Bytes → ℕ → Bytes → Result (List Bytes × ℕ × Bytes)
  step x arg i word =
      if x == seprator
      then (do cut ← store arg (i + 1) word; closed ← store cut (i + 1) []; ok (closed, i + 1, []))
      else (do grown ← store arg i (word ++ x ∷ []); ok (grown, i, word ++ x ∷ []))

  unfoldable pub loop : Bytes → List Bytes → ℕ → Bytes → Result (List Bytes)
  unfolding step
  loop [] arg i word = ok arg
  loop (x ∷ str) arg i word = do (arg', i', word') ← step x arg i word; loop str arg' i' word'

unfoldable pub lex : Bytes → List Bytes → ℕ → Result (List Bytes)
unfolding loop
lex str arg seprator = loop seprator str arg 0 []

unfoldable pub lex_space : Bytes → List Bytes → Result (List Bytes)
unfolding lex
lex_space str arg = lex str arg 0x20

-- `std::string arg[n]`: n empty strings.
abbrev pub string_array : ℕ → List Bytes
string_array n = replicate n []
