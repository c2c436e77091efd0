-- ===== src/Examples/Runs.antt =====
-- A run of the whole server from `init`: bob connects and logs in as a new user.
use open_simp.Prelude.{
  ℕ, ◌≡◌, ◌≢◌, refl, sym, subst, ◌∙◌, ◌++◌, str_eq, false, [], ◌∷◌, some, Bytes, codes, Result, ok,
  throws, fault, get_elem?, arith,
}
use open_simp.Cryptography.{lookup, rsa_decrypt, encrypt}
use mathlib.Core.Option.{some-injective}
use open_simp.Command.{set_executor, get_command}
use open_simp.Server.{
  Socket, done, key_received, undone, ServerNetwork, unknown, unreadable, soh, name_list, help,
  plugins, msg,
}
use open_simp.Server.Wire.{send, send_unencrypted, broadcast, broadcast_loop, broadcast_string}
use open_simp.Server.Clients.{connect_client}
use open_simp.Server.Names.{nick, is_refused, is_word, accept_name, is_blank, is_space}
use open_simp.Server.Userdata.{register_user, prev_file}
use open_simp.Server.Login.{
  receive_credentials, parse_credentials, read_char, check_credentials, authenticate, sign_up,
  request_key,
}
use open_simp.Server.Commands.{init, register_commands}
use open_simp.Server.Receive.{got, receive_as, receive}
use open_simp.Server.Receive.Reachable.{
  Reach, Reach-identity, init_start-IsValid, here, next, accepts, receives,
}
use open_simp.Server.Invariant.{IsAlias, IsValid}
use open_simp.Server.Invariant.Logins.{IsDenied}
use open_simp.Server.Invariant.Handlers.{IsSafeFor}
use open_simp.Examples.Toy.{toy, toy-IsSound}
use open_simp.Examples.Room.{bob}

abbrev pub or_else : Result ServerNetwork → ServerNetwork → ServerNetwork
or_else (ok w) d = w
or_else throws d = d
or_else (fault e) d = d

-- Everything that the login runs through.
unfoldable pub running : Unit {0}
unfolding init register_commands set_executor connect_client send_unencrypted receive receive_as
    receive_credentials rsa_decrypt parse_credentials read_char check_credentials authenticate
    sign_up nick is_refused is_word accept_name is_blank is_space name_list broadcast broadcast_loop
    send encrypt register_user prev_file broadcast_string request_key
running = tt

abbrev pub start : ServerNetwork
start = record {
  client_array = [];
  clientid_array = [];
  client_op_array = [];
  client_message_interval = [];
  client_authenticated_array = [];
  chat_send_str = [];
  cmd_executor = record {
    m_cmds =
        get_command (codes "help") help
        ∷ get_command (codes "plugins") plugins
        ∷ get_command (codes "msg") msg
        ∷ [];
  };
  crypt = record { kp = 7; draws = 0; keys = [] };
  userdata = [];
  wire = [];
}

pub started : init 7 [] ≡ ok start
unfolding running
started = refl

pub start-IsValid : IsValid start
start-IsValid = (init_start-IsValid 7 [] start started).0

-- The encrypted text "bob", "\x01", "pw".
abbrev pub login_packet : Bytes
login_packet = 0xBB ∷ (codes "bob" ++ soh ∷ codes "pw")

abbrev pub connected : ServerNetwork
connected = connect_client toy bob 0 start

abbrev pub logged_in : ServerNetwork
logged_in = or_else (receive toy (got login_packet) bob 0 5 connected) start

bob_received : receive toy (got login_packet) bob 0 5 connected ≡ ok logged_in
unfolding running
bob_received = refl

bob_at : get_elem? connected.client_array 0 ≡ some bob
unfolding connect_client send_unencrypted
bob_at = refl

bob_undone : get_elem? connected.client_authenticated_array 0 ≡ some undone
unfolding connect_client send_unencrypted
bob_undone = refl

all_new : (name : Bytes) → str_eq name [] ≡ false → toy.load_user connected.userdata name ≡ unknown
unfolding connect_client send_unencrypted
all_new [] full = cc
all_new (x ∷ name) full = refl

login_packet-IsSafe : IsSafeFor toy undone connected 0 login_packet
login_packet-IsSafe text e full =
    let new = all_new (parse_credentials text).uname (ground (arith, full)) in
    (
      subst (λ t. t ≢ unreadable) (sym new) (λ broken. cc),
      subst (λ t. ¬ IsDenied toy (parse_credentials text) t) (sym new) (λ x. x),
    )

pub run : Reach toy start logged_in
run = next (next here (accepts bob 0 (λ i s h. absurd (cc)) refl)) (
    receives (got login_packet) bob 0 5 bob_at
      (λ status h.
        subst (λ t. IsSafeFor toy t connected 0 login_packet)
          (some-injective _ _ (sym bob_undone ∙ h)) login_packet-IsSafe)
      bob_received)

pub status_now : get_elem? logged_in.client_authenticated_array 0 ≡ some key_received
unfolding running
status_now = refl

pub name_now : get_elem? logged_in.clientid_array 0 ≡ some (codes "bob")
unfolding running
name_now = refl

Reach-identity_example :
    IsAlias (codes "bob")
    × ((j : ℕ) → get_elem? logged_in.clientid_array j ≡ some (codes "bob") → 0 ≡ j)
    × ((client : Socket)
        → key_received ≡ done
        → get_elem? logged_in.client_array 0 ≡ some client
        → (k : ℕ) × (lookup client.ptr logged_in.crypt.keys ≡ some k))
Reach-identity_example =
    Reach-identity toy toy-IsSound 7 [] start logged_in started run 0 key_received (codes "bob")
      status_now name_now (λ e. cc)
