-- ===== src/Examples/Words.antt =====
-- The splitter, the executor and the credentials at concrete texts.
use open_simp.Prelude.{
  ℕ, ◌+◌, ◌-◌, ◌≡◌, refl, ◌++◌, true, false, List, [], ◌∷◌, map, ◌⊎◌, Bytes, codes, contains,
  Result, ok, fault, out_of_range, aborted, ◌>>=◌, replicate, arith,
}
use open_simp.Lexer.{lex, string_array}
use open_simp.Lexer.Split.{parts, count, lex-parts}
use open_simp.Command.{CmdStatus, Executor, get_command, set_executor, iterate, consider_all}
use open_simp.Command.Dispatch.{
  Distinct, find_command, perform, finish, set_executor-Distinct, iterate-perform,
  iterate_overflows,
}
use open_simp.Server.{soh}
use open_simp.Server.Login.{parse_credentials, read_char}
use open_simp.Server.Login.Parse.{parse_credentials-parts}

lex_test :
    lex (codes "msg bob  hi") (string_array 6) 0x20
    ≡ ok (codes "msg" ∷ codes "bob" ∷ [] ∷ codes "hi" ∷ [] ∷ [] ∷ [])
unfolding lex
lex_test = refl

lex-parts_example :
    lex (codes "msg bob  hi") (string_array 6) 0x20
    ≡ ok (parts 0x20 (codes "msg bob  hi") ++ replicate (5 - count 0x20 (codes "msg bob  hi")) [])
lex-parts_example = lex-parts (codes "msg bob  hi") 0x20 5 (omega arith)

-- Commands that count: a closure is a number, and running it adds it to the state.
abbrev run_number : ℕ → List Bytes → ℕ → Result (CmdStatus × ℕ)
run_number n args w = Result.ok (CmdStatus.ok, w + n)

abbrev reply_zero : Bytes → ℕ → Result ℕ
reply_zero text w = Result.ok 0

abbrev numbers : Executor ℕ
numbers = record { m_cmds = get_command (codes "one") 1 ∷ get_command (codes "two") 2 ∷ [] }

numbers-Distinct : Distinct numbers.m_cmds
numbers-Distinct = (refl, (refl, tt))

iterate_test : iterate run_number reply_zero numbers (codes "two x") 5 ≡ ok 7
unfolding iterate consider_all lex
iterate_test = refl

set_executor-Distinct_example :
    ((contains (map (λ c. c.cmd) numbers.m_cmds) (codes "two") ≡ true)
      × (set_executor (get_command (codes "two") 3) numbers ≡ fault aborted))
    ⊎ ((y : Executor ℕ) × (contains (map (λ c. c.cmd) numbers.m_cmds) (codes "two") ≡ false)
        × (set_executor (get_command (codes "two") 3) numbers ≡ Result.ok y)
        × (y.m_cmds ≡ numbers.m_cmds ++ get_command (codes "two") 3 ∷ [])
        × Distinct y.m_cmds)
set_executor-Distinct_example = set_executor-Distinct numbers (codes "two") 3 numbers-Distinct

iterate-perform_example : iterate run_number reply_zero numbers (codes "two x") 5 ≡ (
    perform run_number
      (find_command numbers.m_cmds (codes "two"))
      ((codes "two" ∷ codes "x" ∷ []) ++ replicate 510 [])
      5
    >>= finish run_number reply_zero (codes "two x"))
iterate-perform_example =
    iterate-perform run_number reply_zero numbers (codes "two x") 5 numbers-Distinct (omega arith)
      (codes "two") (codes "x" ∷ []) refl

iterate_overflows_example :
    iterate run_number reply_zero numbers (replicate 600 0x20) 5 ≡ fault out_of_range
iterate_overflows_example =
    iterate_overflows run_number reply_zero numbers (replicate 600 0x20) 5 (omega arith)

parse_credentials_test :
    parse_credentials (codes "bob" ++ soh ∷ (codes "pw" ++ soh ∷ codes "rest"))
    ≡ record { uname = codes "bob"; passwd = codes "pw" }
unfolding parse_credentials read_char
parse_credentials_test = refl

parse_credentials-parts_example :
    parse_credentials (codes "bob" ++ soh ∷ codes "pw")
    ≡ record { uname = codes "bob"; passwd = codes "pw" }
parse_credentials-parts_example = parse_credentials-parts (codes "bob" ++ soh ∷ codes "pw")
