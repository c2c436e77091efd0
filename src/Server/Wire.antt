-- ===== src/Server/Wire.antt =====
-- Sending: `send`, `send_unencrypted`, `broadcast`, `sendString`, `broadcastString` and
-- `broadcastList` of src/server/src/servernetwork/servernetwork.cpp.
pub mod Delivery
pub mod Growth
use mathlib.Core.List.{head?, tail}
use open_simp.Prelude.{
  ℕ, ◌++◌, ◌==◌, if◌then◌else◌, Bool, true, false, not, ◌&&◌, ◌||◌, List, [], ◌∷◌, Bytes, codes,
  Option, none, some, str_eq, c_str, Result, ok, fault, out_of_range, ◌>>=◌, at,
}
use open_simp.Cryptography.{encrypt}
use open_simp.Server.{
  Socket, AuthStatus, done, key_received, failed, undone, Event, transmitted, Platform,
  ServerNetwork, unnamed, soh, server_key,
}

abbrev pub is_done : AuthStatus → Bool
is_done done = true
is_done _ = false

-- `getRemoteAddress() != address || getRemotePort() != port`
abbrev pub is_other : Socket → ℕ → ℕ → Bool
is_other client address port = not (client.address == address) || not (client.port == port)

module _ (p : Platform) where
  unfoldable pub send : Bytes → Socket → ServerNetwork → Result (Bool × ServerNetwork)
  send str to w = do
    (ct, crypt') ← encrypt p.botan w.crypt (c_str str) server_key
    ok (
      p.transmit w.wire to ct,
      record w { crypt = crypt'; wire = w.wire ++ transmitted to ct ∷ [] },
    )

  unfoldable pub send_unencrypted : Bytes → Socket → ServerNetwork → Bool × ServerNetwork
  send_unencrypted bytes to w =
      (p.transmit w.wire to bytes, record w { wire = w.wire ++ transmitted to bytes ∷ [] })

  -- One round of the loop of `broadcast`. The `else` belongs to the test of `send`, so a client that
  -- is not authenticated leaves `succeed` alone.
  unfoldable pub broadcast_to :
      Bytes
      → ℕ
      → ℕ
      → Socket
      → Option AuthStatus
      → Bool
      → ServerNetwork
      → Result (Bool × ServerNetwork)
  broadcast_to str address port client auth succeed w =
      if is_other client address port
      then elim auth [
        | none ↦ fault out_of_range
        | some a ↦ if is_done a then send str client w else ok (succeed, w)
      ]
      else ok (succeed, w)

  unfoldable pub broadcast_loop :
      Bytes
      → ℕ
      → ℕ
      → List Socket
      → List AuthStatus
      → Bool
      → ServerNetwork
      → Result (Bool × ServerNetwork)
  unfolding broadcast_to
  broadcast_loop str address port [] auths succeed w = ok (succeed, w)
  broadcast_loop str address port (client ∷ clients) auths succeed w = do
    (succeed', w') ← broadcast_to str address port client (head? auths) succeed w
    broadcast_loop str address port clients (tail auths) succeed' w'

  unfoldable pub broadcast : Bytes → ℕ → ℕ → ServerNetwork → Result (Bool × ServerNetwork)
  broadcast str address port w =
      broadcast_loop str address port w.client_array w.client_authenticated_array false w

  -- `sendString` to a socket, and to the socket at a position.
  unfoldable pub send_string : Bytes → Socket → ServerNetwork → Result ServerNetwork
  send_string str client w = do (sent, w') ← send (b'6' ∷ soh ∷ str) client w; ok w'

  unfoldable pub send_string_at : Bytes → ℕ → ServerNetwork → Result ServerNetwork
  send_string_at str iterator w = do client ← at w.client_array iterator; send_string str client w

  unfoldable pub broadcast_string : Bytes → ℕ → ℕ → ServerNetwork → Result ServerNetwork
  broadcast_string str address port w = do
    (succeed, w') ← broadcast (b'6' ∷ soh ∷ str) address port w
    ok w'

  unfoldable pub list_text : List Bytes → Bytes
  list_text [] = []
  list_text (x ∷ xs) = if str_eq x unnamed then list_text xs else x ++ 0x20 ∷ list_text xs

  -- `sf::IpAddress()` with port 0 is no client's address.
  unfoldable pub broadcast_list : ℕ → ServerNetwork → Result ServerNetwork
  unfolding list_text
  broadcast_list no_address w = do
    (succeed, w') ← broadcast (7 ∷ list_text w.clientid_array) no_address 0 w
    ok w'
