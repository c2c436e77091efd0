-- ===== src/Client.antt =====
-- The C++ client: src/clients/cpp/src/ClientNetwork.cpp and its header. The socket's errors are only
-- printed, so a send is the bytes that it hands over.
pub mod Crypt
pub mod Utils
pub mod Screen
pub mod Input
pub mod Handshake
pub mod Members
pub mod Session
pub mod Conversation
use open_simp.Prelude.{
  ℕ, suc, ◌++◌, ◌==◌, if◌then◌else◌, Bool, true, false, List, [], ◌∷◌, Bytes, codes, Option, none,
  some, str_eq, length, drop, has, c_str, Result, ok, fault, uninitialised, ◌>>=◌, or_throw, at,
}
use open_simp.Lexer.{string_array}
use open_simp.Client.Utils.{lexer}
use open_simp.Client.Crypt.{
  Cryptography, get_public_key, push_new_client_key, encrypt, decrypt, rsa_encrypt, rsa_decrypt,
}
use open_simp.Cryptography.Interface.{Botan}
use open_simp.Server.{soh}
use open_simp.Server.Receive.{read_raw, Packet, disconnected, got}

pub data HandshakeStatus : Type 0 where
  hasnt_begun received_pub_key sent_credientials sent_pub_key received_aes_key : HandshakeStatus

-- `sent` is what went to the socket, oldest first.
pub record ClientNetwork : Type 0 where
  pub is_connected : Bool
  pub crypt : Cryptography
  pub aes_key : Bytes
  pub has_handshook : Bool
  pub server_pubkey : ℕ
  pub status : HandshakeStatus
  pub sent : List Bytes

-- The constructor, and the new key pair of `run`.
unfoldable pub started : ℕ → ClientNetwork
started kp = record {
  is_connected = false;
  crypt = record { kp = kp; draws = 0; keys = [] };
  aes_key = [];
  has_handshook = false;
  server_pubkey = 0;
  status = hasnt_begun;
  sent = [];
}

-- `connect`, once the socket has connected or not.
unfoldable pub connect : Bool → ClientNetwork → ClientNetwork
connect true c = record c { is_connected = true }
connect false c = c

-- `send_raw` sends no empty text.
unfoldable pub send_raw : Bytes → ClientNetwork → ClientNetwork
send_raw [] c = c
send_raw (x ∷ bytes) c = record c { sent = c.sent ++ (x ∷ bytes) ∷ [] }

-- A line "/…" of `run`: `memmove` shifts the line, up to its first NUL and with it, by one
-- place, and the string keeps its length.
unfoldable pub shift_line : Bytes → Bytes
shift_line rest = c_str rest ++ 0 ∷ drop (length (c_str rest)) rest

-- What `run` sends for a line that the user typed.
unfoldable pub encode_line : Bytes → Bytes
unfolding shift_line
encode_line [] = codes "0AA"
encode_line (x ∷ rest) = if x == b'/' then b'5' ∷ shift_line rest else b'0' ∷ x ∷ rest

-- `log(args[i] + " ")` over the cells of an array.
unfoldable pub spaced_cells : List Bytes → Bytes
spaced_cells [] = []
spaced_cells (x ∷ xs) = x ++ 0x20 ∷ spaced_cells xs

-- The tests on `args[0]` in `receive`, with what they print.
unfoldable pub shown : List Bytes → Result Bytes
unfolding spaced_cells
shown args = do
  kind ← at args 0
  first ← at args 1
  if str_eq kind (codes "0")
      then (do second ← at args 2; ok (codes "<" ++ second ++ codes "> " ++ first ++ codes "\n"))
      else if str_eq kind (codes "1")
      then ok (first ++ codes " joined\nList: " ++ spaced_cells (drop 2 args) ++ codes "\n")
      else if str_eq kind (codes "2")
      then ok (first ++ codes " left\nList: " ++ spaced_cells (drop 2 args) ++ codes "\n")
      else if str_eq kind (codes "5")
      then ok (codes "(Command) " ++ first ++ codes "\n")
      else if str_eq kind (codes "6")
      then ok (codes "[Direct] " ++ first ++ codes "\n")
      else ok []

-- `std::string args[100]`, filled by `Utils::lexer`.
unfoldable pub screen_text : Bytes → Result Bytes
unfolding lexer
screen_text pt = do args ← lexer pt (string_array 100) soh; shown args

module _ (b : Botan) where
  -- One round of `receive`, at the bytes that one read has found, whether these are one packet of the
  -- server or not: what it prints.
  unfoldable pub receive : Bytes → ClientNetwork → Result Bytes
  receive received c = do x ← decrypt b received (c_str c.aes_key); screen_text x.msg

  -- One round of `receive`, at what the socket gives: whether the client goes on, and what it prints.
  unfoldable pub receive_round : Packet → ClientNetwork → Result (Bool × Bytes)
  receive_round disconnected c = ok (false, codes "You were disconnected from the server.\n")
  receive_round (got []) c = ok (true, [])
  receive_round (got (x ∷ xs)) c = do text ← receive (read_raw (x ∷ xs)) c; ok (true, text)

  unfoldable pub send : Bytes → ClientNetwork → Result ClientNetwork
  send text c = do
    (ct, crypt') ← encrypt b c.crypt text (c_str c.aes_key)
    ok (record c { crypt = crypt'; sent = c.sent ++ ct ∷ [] })

  -- One round of the last loop of `run`, at a line from the keyboard.
  unfoldable pub run_line : Bytes → ClientNetwork → Result ClientNetwork
  run_line user_input c = send (encode_line user_input) c

  -- The last loop of `run`, at the lines that the user types. A client that is not connected reads
  -- none.
  unfoldable pub run_lines : List Bytes → ClientNetwork → Result ClientNetwork
  run_lines [] c = ok c
  run_lines (user_input ∷ lines) c =
      if c.is_connected then (do c' ← run_line user_input c; run_lines lines c') else ok c

  -- `BigInt(data)` reads the buffer, which nobody has zeroed, as a C string.
  unfoldable pub buffer_number : Bytes → Result ℕ
  buffer_number data' =
      if has 0 data' then or_throw (b.read_big_int (c_str data')) else fault uninitialised

  -- The three branches of `handshake`.
  unfoldable pub begin_handshake : Bytes → Bytes → Bytes → ClientNetwork → Result ClientNetwork
  begin_handshake uname passwd data' c = do
    n ← buffer_number data'
    pushed ← push_new_client_key b n c.crypt
    (a, crypt') ← rsa_encrypt b 0 (uname ++ soh ∷ passwd) pushed
    ok (record (send_raw a (record c { crypt = crypt'; server_pubkey = n })) {
      status = sent_credientials;
    })

  unfoldable pub send_key : ClientNetwork → ClientNetwork
  send_key c = record (send_raw (b.print_big_int (get_public_key b c.crypt)) c) {
    status = sent_pub_key;
  }

  unfoldable pub take_key : Bytes → ClientNetwork → Result ClientNetwork
  take_key data' c = do
    v ← rsa_decrypt b data' c.crypt
    ok (record c { aes_key = v; has_handshook = true; status = received_aes_key })

  -- `handshake`, once the socket has given a packet.
  unfoldable pub handshake_as :
      HandshakeStatus → Bytes → Bytes → Bytes → ClientNetwork → Result ClientNetwork
  handshake_as hasnt_begun uname passwd data' c = begin_handshake uname passwd data' c
  handshake_as received_pub_key uname passwd data' c = ok c
  handshake_as sent_credientials uname passwd data' c = ok (send_key c)
  handshake_as sent_pub_key uname passwd data' c = take_key data' c
  handshake_as received_aes_key uname passwd data' c = ok c

  unfoldable pub handshake : Bytes → Bytes → Bytes → ClientNetwork → Result ClientNetwork
  handshake uname passwd data' c = handshake_as c.status uname passwd data' c

  -- The loop of `run` round `handshake`, at the packets that the socket gives, one after another.
  unfoldable pub handshake_loop : Bytes → Bytes → List Bytes → ClientNetwork → Result ClientNetwork
  handshake_loop uname passwd [] c = ok c
  handshake_loop uname passwd (packet ∷ packets) c =
      if c.has_handshook
      then ok c
      else (do c' ← handshake uname passwd packet c; handshake_loop uname passwd packets c')

  -- `run`, at the packets that arrive until the handshake is over, and at the lines typed after it.
  -- Without enough packets it waits.
  unfoldable pub run :
      Bytes → Bytes → List Bytes → List Bytes → ClientNetwork → Result ClientNetwork
  run uname password packets lines c = do
    c' ← handshake_loop uname password packets c
    if c'.has_handshook then run_lines lines c' else ok c'
