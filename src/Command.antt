-- ===== src/Command.antt =====
-- Commands and the executor that holds them: src/server/src/commands/command.cpp, executor.cpp and
-- their headers. A closure is a value of `F`, which `run` carries out; `W` is the server's state.
pub mod Dispatch
use open_simp.Prelude.{
  ℕ, ◌++◌, if◌then◌else◌, Bool, true, false, List, [], ◌∷◌, map, Bytes, codes, str_eq, contains,
  Result, fault, aborted, ◌>>=◌, at,
}
use open_simp.Lexer.{lex, string_array}

pub data CmdStatus : Type 0 where
  ok failed error : CmdStatus

pub record ExecutableCommand (F : Type 0) : Type 0 where
  pub m_constructed : Bool
  pub fn : F
  pub cmd : Bytes

pub record Executor (F : Type 0) : Type 0 where
  pub m_cmds : List (ExecutableCommand F)

module _ {F : Type 0} where
  -- `getCommand`, by the constructor.
  abbrev pub get_command : Bytes → F → ExecutableCommand F
  get_command str f = record { m_constructed = true; fn = f; cmd = str }

  abbrev pub str : ExecutableCommand F → Bytes
  str e = e.cmd

  abbrev pub get_vector : Executor F → List (ExecutableCommand F)
  get_vector x = x.m_cmds

  -- The loop of `assert`s over the commands, then the push.
  unfoldable pub push_new_command : Executor F → ExecutableCommand F → Result (Executor F)
  push_new_command x e =
      if contains (map str x.m_cmds) (str e)
      then fault aborted
      else Result.ok (record { m_cmds = x.m_cmds ++ e ∷ [] })

  unfoldable pub set_executor : ExecutableCommand F → Executor F → Result (Executor F)
  unfolding push_new_command
  set_executor e x = if e.m_constructed then push_new_command x e else fault aborted

module _ {F W : Type 0} (run : F → List Bytes → W → Result (CmdStatus × W)) where
  abbrev pub execute : ExecutableCommand F → List Bytes → W → Result (CmdStatus × W)
  execute e args w = run e.fn args w

  -- One round of the loop of `iterate`; the status only chooses whether a warning is printed.
  unfoldable pub consider : ExecutableCommand F → Bytes → List Bytes → Bool → W → Result (Bool × W)
  consider x word args executed w =
      if str_eq word (str x)
      then (if executed
          then fault aborted
          else do (status, w') ← execute x args w; Result.ok (true, w'))
      else Result.ok (executed, w)

  unfoldable pub consider_all :
      List (ExecutableCommand F) → Bytes → List Bytes → Bool → W → Result (Bool × W)
  unfolding consider
  consider_all [] word args executed w = Result.ok (executed, w)
  consider_all (x ∷ xs) word args executed w = do
    (executed', w') ← consider x word args executed w
    consider_all xs word args executed' w'

  -- `reply` is `sendString` to the client that sent the command.
  module _ (reply : Bytes → W → Result W) where
    unfoldable pub iterate : Executor F → Bytes → W → Result W
    unfolding consider_all lex
    iterate x e w = do
      command ← lex e (string_array 512) 0x20
      word ← at command 0
      (executed, w') ← consider_all x.m_cmds word command false w
      if executed
          then Result.ok w'
          else reply (codes "Command " ++ e ++ codes " was not found. Type /help to get help.") w'
