-- ===== src/Server/Commands/Registry.antt =====
-- The commands of servernetwork.cpp: what `init` registers, and what each command may do.
use open_simp.Prelude.{
  ℕ, ◌≤◌, ◌≡◌, refl, [], ◌∷◌, map, some, Bytes, codes, Result, get_elem?, Returns, Returns-mono,
  drop,
}
use open_simp.Lexer.Split.{count}
use open_simp.Cryptography.Interface.{IsSound}
use open_simp.Command.{Executor, get_command}
use open_simp.Command.Dispatch.{Distinct}
use open_simp.Server.{Socket, CommandLambda, help, plugins, msg, Platform, ServerNetwork}
use open_simp.Server.Commands.{handle_command, register_commands}
use open_simp.Server.Commands.Obeys.{handle_command-SendsOnly}
use open_simp.Server.Invariant.{IsValid}
use open_simp.Server.Invariant.Sending.{OnlySends}

-- `init` registers help, plugins and msg, in this order, and no assertion fails.
pub register_commands_lem :
    (x : Executor CommandLambda) × (register_commands ≡ Result.ok x)
    × (map (λ c. c.cmd) x.m_cmds ≡ codes "help" ∷ codes "plugins" ∷ codes "msg" ∷ [])
    × Distinct x.m_cmds
unfolding register_commands
register_commands_lem = (
  record {
    m_cmds =
        get_command (codes "help") help
        ∷ get_command (codes "plugins") plugins
        ∷ get_command (codes "msg") msg
        ∷ [];
  },
  refl,
  refl,
  (refl, (refl, (refl, tt))),
)

module _ (p : Platform) (sound : IsSound p.botan) where
  -- A command of at most 511 spaces, known or not, returns, and all it does to the server is to send
  -- messages: no client, name, key or registered user changes.
  pub handle_command-OnlySends :
      (received : Bytes) (client : Socket) (iterator : ℕ) (w : ServerNetwork)
      → IsValid w
      → get_elem? w.client_array iterator ≡ some client
      → count 0x20 (drop 1 received) ≤ 511
      → Returns (OnlySends w) (handle_command p received client iterator w)
  handle_command-OnlySends received client iterator w v here h =
      Returns-mono _ _ (handle_command p received client iterator w) (λ w' o. o.0)
        (handle_command-SendsOnly p sound (λ e. Unit) received client iterator w v here h
          (λ ct made. tt) (λ n real j s at_n at_s ct made. tt))
