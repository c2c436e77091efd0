-- ===== src/TestClient.antt =====
-- The test client: util/encrypt-test-client/src/main.cpp. Its global variables are one record,
-- and its copy of cryptography.cpp is the module Crypt.
pub mod Crypt
pub mod Twin
pub mod Packets
pub mod Lines
use open_simp.Prelude.{
  ℕ, ◌++◌, ◌==◌, if◌then◌else◌, Bool, true, false, List, [], ◌∷◌, Bytes, codes, length, drop, has,
  c_str, Result, ok, fault, uninitialised, ◌>>=◌, or_throw,
}
use open_simp.TestClient.Crypt.{
  Cryptography, get_public_key, push_new_client_key, encrypt, decrypt, rsa_encrypt, rsa_decrypt,
}
use open_simp.Cryptography.Interface.{Botan}
use open_simp.Server.{soh}
use open_simp.Server.Receive.{read_raw}

pub data HandshakeStatus : Type 0 where
  hasnt_begun received_pub_key sent_credientials sent_pub_key received_aes_key : HandshakeStatus

-- `sent` is what was handed to the socket, oldest first.
pub record TestClient : Type 0 where
  pub server_pubkey : ℕ
  pub crypt : Cryptography
  pub aes_key : Bytes
  pub has_handshook : Bool
  pub status : HandshakeStatus
  pub sent : List Bytes

-- `main` up to the handshake.
unfoldable pub started : ℕ → TestClient
started kp = record {
  server_pubkey = 0;
  crypt = record { kp = kp; draws = 0; keys = [] };
  aes_key = [];
  has_handshook = false;
  status = hasnt_begun;
  sent = [];
}

-- `send(data, counter, to)`, of all bytes of a string.
unfoldable pub send : Bytes → TestClient → TestClient
send bytes t = record t { sent = t.sent ++ bytes ∷ [] }

-- The packet for a line from the keyboard. `memmove` shifts a command with its NUL by one place.
unfoldable pub encode_line : Bytes → Bytes
encode_line [] = codes "0"
encode_line (x ∷ rest) =
    if x == b'/'
    then b'5' ∷ (c_str rest ++ 0 ∷ drop (length (c_str rest)) rest)
    else b'0' ∷ x ∷ rest

module _ (b : Botan) where
  -- The text is cut at its first NUL: `std::string{data}`.
  unfoldable pub send_enc : Bytes → TestClient → Result TestClient
  unfolding send
  send_enc text t = do
    (var, crypt') ← encrypt b t.crypt (c_str text) (c_str t.aes_key)
    ok (send var (record t { crypt = crypt' }))

  -- One round of the last loop of `main`.
  unfoldable pub run_line : Bytes → TestClient → Result TestClient
  unfolding encode_line
  run_line user_input t = send_enc (encode_line user_input) t

  -- One round of `receive` that found a packet, of which it reads what fits into `data`: what it
  -- prints.
  unfoldable pub receive : Bytes → TestClient → Result Bytes
  receive received t = do
    g ← decrypt b (read_raw received) (c_str t.aes_key)
    ok (codes " --> " ++ (g.msg ++ codes "\n"))

  -- `BigInt(data)`, of a buffer that nobody has zeroed.
  unfoldable pub read_number : Bytes → Result ℕ
  read_number bytes =
      if has 0 bytes then or_throw (b.read_big_int (c_str bytes)) else fault uninitialised

  -- The branches of `handshake` by the status, once the socket has given a packet.
  unfoldable pub handshake_as :
      HandshakeStatus → Bytes → Bytes → Bytes → TestClient → Result TestClient
  unfolding send read_number
  handshake_as hasnt_begun uname passwd bytes t = do
    n ← read_number bytes
    pushed ← push_new_client_key b n t.crypt
    (a, crypt') ← rsa_encrypt b 0 (uname ++ soh ∷ passwd) pushed
    ok (record (send a (record t { server_pubkey = n; crypt = crypt' })) {
      status = sent_credientials;
    })
  handshake_as received_pub_key uname passwd bytes t = ok t
  handshake_as sent_credientials uname passwd bytes t =
      ok (record (send (b.print_big_int (get_public_key b t.crypt)) t) { status = sent_pub_key })
  handshake_as sent_pub_key uname passwd bytes t = do
    v ← rsa_decrypt b bytes t.crypt
    ok (record t { aes_key = v; has_handshook = true; status = received_aes_key })
  handshake_as received_aes_key uname passwd bytes t = ok t

  unfoldable pub handshake : Bytes → Bytes → Bytes → TestClient → Result TestClient
  unfolding handshake_as
  handshake uname passwd bytes t = handshake_as t.status uname passwd bytes t

  -- The loop of `main` round `handshake`, at the packets that the socket gives, one after another.
  unfoldable pub handshake_loop : Bytes → Bytes → List Bytes → TestClient → Result TestClient
  handshake_loop uname passwd [] t = ok t
  handshake_loop uname passwd (packet ∷ packets) t =
      if t.has_handshook
      then ok t
      else (do t' ← handshake uname passwd packet t; handshake_loop uname passwd packets t')

  -- The last loop of `main`, at the lines typed.
  unfoldable pub run_lines : List Bytes → TestClient → Result TestClient
  run_lines [] t = ok t
  run_lines (user_input ∷ lines) t = do t' ← run_line user_input t; run_lines lines t'

  -- `main` once it has connected, at the packets that arrive until the handshake is over and at the
  -- lines typed after it. Without enough packets it waits.
  unfoldable pub run : Bytes → Bytes → List Bytes → List Bytes → TestClient → Result TestClient
  run uname passwd packets lines t = do
    t' ← handshake_loop uname passwd packets t
    if t'.has_handshook then run_lines lines t' else ok t'
