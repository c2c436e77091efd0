-- ===== src/Server/Commands/Obeys.antt =====
-- A command line of servernetwork.cpp: what `handleCommand` may send, and to whom.
use open_simp.Prelude.{
  ℕ, ◌≢◌, ◌-◌, ◌≤◌, ◌<◌, ◌≡◌, ap, ◌++◌, Bool, true, false, List, [], ◌∷◌, Option, none, some, Bytes,
  codes, at_ok, length, length-append, length-replicate, replicate, get_elem?, get_elem?-lt,
  get_elem?_total, arith, Returns, Returns-bind, Returns-mono, drop,
}
use open_simp.Lexer.Split.{count, length-parts, parts_cons}
use open_simp.Cryptography.Interface.{IsSound}
use open_simp.Command.{CmdStatus, ExecutableCommand}
use open_simp.Command.Dispatch.{find_command, perform, finish, iterate-perform}
use open_simp.Server.{Socket, Event, CommandLambda, Platform, ServerNetwork, unnamed}
use open_simp.Server.Wire.{send_string}
use open_simp.Server.Wire.Growth.{Hears}
use open_simp.Server.Commands.{run_lambda, handle_command}
use open_simp.Server.Invariant.{IsValid}
use open_simp.Server.Commands.Sends.{
  SendsOnly, Only-refl, Only-trans, send_string-SendsOnly, run_lambda-SendsOnly,
}

module _ (p : Platform) (sound : IsSound p.botan) (P : Event → Type 0) where
  abbrev Only : ServerNetwork → ServerNetwork → Type 0
  Only w w' = SendsOnly P w w'

  -- The clients under a name may be sent messages.
  abbrev NameHears : Bytes → ServerNetwork → Type 0
  NameHears target w =
      (j : ℕ) (s : Socket)
      → get_elem? w.clientid_array j ≡ some target
      → get_elem? w.client_array j ≡ some s
      → Hears p P s

  abbrev Sends : ServerNetwork → CmdStatus × ServerNetwork → Type 0
  Sends w r = Only w r.1

  module _ (sock : Socket) (iterator : ℕ) (w : ServerNetwork)
      (same : length w.clientid_array ≡ length w.client_array)
      (here : get_elem? w.client_array iterator ≡ some sock) (hears : Hears p P sock)
      (named_hears : (n : Bytes) → n ≢ unnamed → NameHears n w) where
    perform-SendsOnly :
        (found : Option (ExecutableCommand CommandLambda)) (args : List Bytes)
        → 1 < length args
        → Returns (λ r. Only w r.1) (perform (run_lambda p sock iterator) found args w)
    perform-SendsOnly none args h = Only-refl p sound P w
    perform-SendsOnly (some x) args h =
        Returns-bind (Sends w) (λ r. Only w r.1) (run_lambda p sock iterator x.fn args w) _
          (run_lambda-SendsOnly p sound P sock iterator w same here hears named_hears x.fn args h)
          (λ r e o. o)

  finish-SendsOnly :
      (e : Bytes) (sock : Socket) (w : ServerNetwork) (r : Bool × ServerNetwork)
      → Hears p P sock
      → Only w r.1
      → Returns (Only w) (finish (run_lambda p sock 0) (λ text. send_string p text sock) e r)
  finish-SendsOnly e sock w (true, w') hears o = o
  finish-SendsOnly e sock w (false, w') hears o =
      let text = codes "Command " ++ e ++ codes " was not found. Type /help to get help." in
      Returns-mono _ _ (send_string p text sock w') (λ u q. Only-trans p sound P w w' u o q)
        (send_string-SendsOnly p sound P text sock w' hears)

  -- A command of at most 511 spaces returns and only sends, to the client itself or to clients that
  -- have a name.
  pub handle_command-SendsOnly :
      (received : Bytes) (client : Socket) (iterator : ℕ) (w : ServerNetwork)
      → IsValid w
      → get_elem? w.client_array iterator ≡ some client
      → count 0x20 (drop 1 received) ≤ 511
      → Hears p P client
      → ((n : Bytes) → n ≢ unnamed → NameHears n w)
      → Returns (Only w) (handle_command p received client iterator w)
  unfolding handle_command
  handle_command-SendsOnly received client iterator w v here h hears named_hears =
      let e = drop 1 received in
      let inside : iterator < length w.clientid_array =
        omega (arith, v.ids, get_elem?-lt w.client_array iterator client here) in
      let (name, at_name) = get_elem?_total w.clientid_array iterator inside in
      let (word, rest, split) = parts_cons 0x20 e in
      let args = (word ∷ rest) ++ replicate (511 - count 0x20 e) [] in
      rw
        (
          at_ok w.clientid_array iterator name at_name,
          iterate-perform (run_lambda p client iterator) (λ text. send_string p text client)
              w.cmd_executor e w v.commands h word rest split,
        )
        (Returns-bind (λ r. Only w r.1) (Only w)
          (perform (run_lambda p client iterator) (find_command w.cmd_executor.m_cmds word) args w)
          _
          (perform-SendsOnly client iterator w v.ids here hears named_hears
            (find_command w.cmd_executor.m_cmds word) args
            (omega (
              arith,
              length-append (word ∷ rest) (replicate (511 - count 0x20 e) []),
              length-replicate (511 - count 0x20 e) (codes ""),
              ap length split,
              length-parts 0x20 e,
            )))
          (λ r e' o. finish-SendsOnly e client w r hears o))
