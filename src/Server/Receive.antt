-- ===== src/Server/Receive.antt =====
-- `receive` and the loop of `manage`, in src/server/src/servernetwork/servernetwork.cpp, and the
-- server as a step relation.
pub mod Reachable
pub mod Pass
pub mod Threads
use open_simp.Prelude.{
  take, ℕ, zero, suc, ◌+◌, ◌-◌, ◌≤◌, ◌≡◌, leb, ltb, if◌then◌else◌, Bool, true, false, List, [], ◌∷◌,
  Option, none, some, Bytes, length, Result, ok, fault, out_of_range, ◌>>=◌, at, store,
}
use open_simp.Server.{
  Socket, disconnect_leave, disconnect_spam, AuthStatus, key_received, done, failed, undone,
  Platform, ServerNetwork,
}
use open_simp.Server.Clients.{connect_client, disconnect_client}
use open_simp.Server.Login.{receive_credentials, receive_key}
use open_simp.Server.Chat.{receive_message}

-- What stands in a socket when it is read: `Disconnected`, or some bytes, which need not be what the
-- client handed over at once; no bytes stand for `NotReady` and for an error.
pub data Packet : Type 0 where
  disconnected : Packet
  got : Bytes → Packet

-- `sf::TcpSocket::receive` takes at most `MAX_RAW_DATA` bytes; what is behind them is the start of
-- the next packet.
abbrev pub read_raw : Bytes → Bytes
read_raw bytes = take 4096 bytes

module _ (p : Platform) where
  -- A client that is `Done` may not send twice within 20 milliseconds.
  unfoldable pub receive_done : Bytes → Socket → ℕ → ℕ → ServerNetwork → Result ServerNetwork
  receive_done received client iterator now w = do
    started ← at w.client_message_interval iterator
    clocks ← store w.client_message_interval iterator now
    let w' = record w { client_message_interval = clocks }
    if leb (p.as_milliseconds (now - started)) 20
        then disconnect_client p client iterator disconnect_spam w'
        else receive_message p received client iterator now w'

  -- The branches of `receive` on the client's status.
  unfoldable pub receive_as :
      AuthStatus → Bytes → Socket → ℕ → ℕ → ServerNetwork → Result ServerNetwork
  receive_as done received client iterator now w = receive_done received client iterator now w
  receive_as undone received client iterator now w =
      receive_credentials p received client iterator w
  receive_as key_received received client iterator now w = receive_key p received client iterator w
  receive_as failed received client iterator now w =
      receive_message p received client iterator now w

  unfoldable pub receive : Packet → Socket → ℕ → ℕ → ServerNetwork → Result ServerNetwork
  receive disconnected client iterator now w =
      disconnect_client p client iterator disconnect_leave w
  receive (got []) client iterator now w = ok w
  receive (got (x ∷ xs)) client iterator now w = do
    status ← at w.client_authenticated_array iterator
    receive_as status (read_raw (x ∷ xs)) client iterator now w

  -- One pass of `manage`, from position `iterator` on. The network answers a socket by `packets`;
  -- the fuel is what is left of the vector at most.
  unfoldable pub manage_pass : (Socket → Packet) → ℕ → ℕ → ℕ → ServerNetwork → Result ServerNetwork
  manage_pass packets now zero iterator w = ok w
  manage_pass packets now (suc fuel) iterator w =
      if ltb iterator (length w.client_array)
      then (do
        client ← at w.client_array iterator
        w' ← receive (packets client) client iterator now w
        manage_pass packets now fuel (iterator + 1) w')
      else ok w
