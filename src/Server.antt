-- ===== src/Server.antt =====
-- The state of `ServerNetwork`, from src/server/include/server/servernetwork/servernetwork.h, and
-- what the server takes from its platform.
pub mod Wire
pub mod Clients
pub mod Names
pub mod Userdata
pub mod Login
pub mod Chat
pub mod Commands
pub mod Receive
pub mod Invariant
pub mod Room
pub mod Unused
pub mod Secrecy
use open_simp.Prelude.{
  ℕ, ◌++◌, if◌then◌else◌, Bool, false, List, [], ◌∷◌, Bytes, codes, Option, none, some, str_eq,
}
use open_simp.Command.{Executor}
use open_simp.Cryptography.{Cryptography}
use open_simp.Cryptography.Interface.{Botan}

-- A `sf::TcpSocket*`: its address in memory, and the remote end that it is connected to.
pub record Socket : Type 0 where
  pub ptr : ℕ
  pub address : ℕ
  pub port : ℕ

pub data DisconnectReason : Type 0 where
  disconnect_leave disconnect_kick disconnect_unnamed disconnect_spam : DisconnectReason

pub data AuthStatus : Type 0 where
  key_received done failed undone : AuthStatus

-- The lambdas that `init` registers.
pub data CommandLambda : Type 0 where
  help plugins msg : CommandLambda

-- What the network sees, oldest first: bytes handed to a socket, and a socket closed, with the
-- reason that the server's log gives.
pub data Event : Type 0 where
  transmitted : Socket → Bytes → Event
  closed : Socket → DisconnectReason → Event

-- The entry of a user in the loaded `userdata.yml`: the file or the value cannot be read and
-- yaml-cpp throws, no such key, a key with no password, or a password.
pub data UserEntry : Type 0 where
  unreadable unknown no_password : UserEntry
  password : Bytes → UserEntry

-- SFML and yaml-cpp. `transmit past to bytes` says whether `to->send` returns `Done`, after the
-- events `past`; `as_milliseconds` reads an elapsed time; `load_user` loads a file and finds a user,
-- and `emit_user` prints the map from a user to its password.
pub record Platform : Type 0 where
  pub botan : Botan
  pub transmit : List Event → Socket → Bytes → Bool
  pub as_milliseconds : ℕ → ℕ
  pub load_user : Bytes → Bytes → UserEntry
  pub emit_user : Bytes → Bytes → Bytes

-- The parallel vectors of the clients, the other fields that the handlers use, the contents of
-- `userdata.yml` and the events so far. A `sf::Clock` is the time at which it was started.
pub record ServerNetwork : Type 0 where
  pub client_array : List Socket
  pub clientid_array : List Bytes
  pub client_op_array : List Bool
  pub client_message_interval : List ℕ
  pub client_authenticated_array : List AuthStatus
  pub chat_send_str : Bytes
  pub cmd_executor : Executor CommandLambda
  pub crypt : Cryptography
  pub userdata : Bytes
  pub wire : List Event

-- "\x96", the name of a client that has none, and "\x01", which separates the fields of a packet.
abbrev pub unnamed : Bytes
unnamed = 0x96 ∷ []

abbrev pub soh : ℕ
soh = 1

abbrev pub server_key : Bytes
server_key = codes "2B7E151628AED2A6ABF7158809CF4F3C2B7E151628AED2A6ABF7158809CF4F3C"

-- `for (auto x : clientid_array) if (x != "\x96") str += "\x01" + x`
unfoldable pub name_list : List Bytes → Bytes
name_list [] = []
name_list (x ∷ xs) = if str_eq x unnamed then name_list xs else soh ∷ (x ++ name_list xs)

-- `Get()` makes the one instance at the first call and returns it ever after.
abbrev pub get : Option ServerNetwork → ServerNetwork → ServerNetwork
get none fresh = fresh
get (some m_instance) fresh = m_instance
