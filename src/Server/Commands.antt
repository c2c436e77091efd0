-- ===== src/Server/Commands.antt =====
-- The commands that `init` registers, and `handleCommand`, in
-- src/server/src/servernetwork/servernetwork.cpp.
pub mod Lookup
pub mod Sends
pub mod Obeys
pub mod Registry
pub mod Message
use open_simp.Prelude.{
  ℕ, zero, suc, ◌++◌, ◌==◌, if◌then◌else◌, Bool, true, false, List, [], ◌∷◌, Option, none, some,
  Bytes, codes, str_eq, drop, Result, fault, out_of_range, ◌>>=◌, at,
}
use open_simp.Command.{
  CmdStatus, ExecutableCommand, Executor, get_command, get_vector, str, set_executor, iterate,
}
use open_simp.Server.{Socket, CommandLambda, help, plugins, msg, Platform, ServerNetwork, unnamed}
use open_simp.Server.Wire.{send_string, send_string_at}

-- `'/' + x->str() + ' '` for each command.
unfoldable pub command_list : List (ExecutableCommand CommandLambda) → Bytes
command_list [] = []
command_list (x ∷ xs) = b'/' ∷ (str x ++ 0x20 ∷ command_list xs)

-- `toSend += args[i] + ' '` for each word that is left.
unfoldable pub spaced : List Bytes → Bytes
spaced [] = []
spaced (word ∷ words) = word ++ 0x20 ∷ spaced words

-- `getIndex`: the position of the first element that is equal to `k`.
unfoldable pub get_index : List Bytes → Bytes → Option ℕ
get_index [] k = none
get_index (x ∷ v) k =
    if str_eq x k then some 0 else elim (get_index v k) [ none ↦ none | some i ↦ some (suc i) ]

unfoldable pub direct_text : Bytes → Bytes → List Bytes → Bytes
unfolding spaced
direct_text recipient sender args =
    codes "[" ++ (recipient ++ (codes " -> " ++ (sender ++ (codes "]: " ++ spaced (drop 2 args)))))

module _ (p : Platform) where
  unfoldable pub help_lambda :
      Socket → List Bytes → ServerNetwork → Result (CmdStatus × ServerNetwork)
  unfolding command_list
  help_lambda sock args w = do
    arg ← at args 1
    if str_eq arg []
        then (do
          w' ←
              send_string p (codes "Avail commands: " ++ command_list (get_vector w.cmd_executor))
                sock w
          Result.ok (CmdStatus.ok, w'))
        else (do
          w' ← send_string p (codes "Multiple args is not supported by the command: help") sock w
          Result.ok (CmdStatus.error, w'))

  -- The loop of `msg` over the names.
  unfoldable pub deliver :
      List Bytes → Bytes → ℕ → List Bytes → ServerNetwork → Result ServerNetwork
  unfolding get_index direct_text
  deliver [] target iterator args w = Result.ok w
  deliver (x ∷ names) target iterator args w =
      let rest = deliver names target iterator args in
      if str_eq target x
      then (do
        sender ← at w.clientid_array iterator
        elim (get_index w.clientid_array x) [
          | none ↦ fault out_of_range
          | some index ↦ (do w' ← send_string_at p (direct_text x sender args) index w; rest w')
        ])
      else rest w

  unfoldable pub msg_lambda : ℕ → List Bytes → ServerNetwork → Result (CmdStatus × ServerNetwork)
  msg_lambda iterator args w = do
    target ← at args 1
    if str_eq target unnamed then Result.ok (CmdStatus.error, w) else do
      own ← at w.clientid_array iterator
      if str_eq target own
          then (do
            w' ← send_string_at p (codes "You cannot send message to yourself") iterator w
            Result.ok (CmdStatus.ok, w'))
          else (do
            w' ← deliver w.clientid_array target iterator args w
            Result.ok (CmdStatus.ok, w'))

  unfoldable pub run_lambda :
      Socket → ℕ → CommandLambda → List Bytes → ServerNetwork → Result (CmdStatus × ServerNetwork)
  run_lambda sock iterator help args w = help_lambda sock args w
  run_lambda sock iterator plugins args w = do
    w' ← send_string p (codes "Plugins (0): ") sock w
    Result.ok (CmdStatus.ok, w')
  run_lambda sock iterator msg args w = msg_lambda iterator args w

  -- The log line reads the client's name.
  unfoldable pub handle_command : Bytes → Socket → ℕ → ServerNetwork → Result ServerNetwork
  handle_command received client iterator w = do
    name ← at w.clientid_array iterator
    iterate (run_lambda client iterator) (λ text. send_string p text client) w.cmd_executor
        (drop 1 received) w

-- `init`: the three registrations.
unfoldable pub register_commands : Result (Executor CommandLambda)
unfolding set_executor
register_commands = do
  with_help ← set_executor (get_command (codes "help") help) (record { m_cmds = [] })
  with_plugins ← set_executor (get_command (codes "plugins") plugins) with_help
  set_executor (get_command (codes "msg") msg) with_plugins

-- The server as `init` leaves it: nobody connected, a fresh key pair, the commands registered.
unfoldable pub init : ℕ → Bytes → Result ServerNetwork
init kp userdata = do
  x ← register_commands
  Result.ok (record {
    client_array = [];
    clientid_array = [];
    client_op_array = [];
    client_message_interval = [];
    client_authenticated_array = [];
    chat_send_str = [];
    cmd_executor = x;
    crypt = record { kp = kp; draws = 0; keys = [] };
    userdata = userdata;
    wire = [];
  })
