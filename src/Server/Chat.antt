-- ===== src/Server/Chat.antt =====
-- Decrypted packets: `check`, `handleSend` and the last part of `receive`, in
-- src/server/src/servernetwork/servernetwork.cpp.
pub mod Relay
pub mod Cases
use open_simp.Prelude.{
  ℕ, ◌++◌, ◌==◌, leb, if◌then◌else◌, Bool, true, false, not, List, [], ◌∷◌, Option, none, some,
  Bytes, codes, str_eq, length, drop, has, c_str, Result, ok, throws, fault, ◌>>=◌, at, store,
  strcpy,
}
use open_simp.Cryptography.{Decrypted, decrypt}
use open_simp.Server.{
  Socket, disconnect_kick, disconnect_unnamed, Platform, ServerNetwork, unnamed, soh, server_key,
}
use open_simp.Server.Wire.{send, send_string, broadcast}
use open_simp.Server.Clients.{disconnect_client}
use open_simp.Server.Names.{is_blank, handle_nick}
use open_simp.Server.Commands.{handle_command}

-- `strchr` finds no "\x01".
unfoldable pub check : Bytes → Bool
check text = not (has soh (c_str text))

-- `strncmp(digit, text, 1) == 0`, the digit being no NUL.
unfoldable pub starts_with_digit : ℕ → Bytes → Bool
starts_with_digit digit [] = false
starts_with_digit digit (x ∷ text) = x == digit

unfoldable pub chat_packet : Bytes → Bytes → Bytes
chat_packet message name = b'0' ∷ soh ∷ (message ++ soh ∷ name)

module _ (p : Platform) where
  -- Returns the packet to send on, if the client may send it.
  unfoldable pub handle_send :
      Bytes → Socket → ℕ → ServerNetwork → Result (Option Bytes × ServerNetwork)
  unfolding chat_packet
  handle_send received client iterator w₀ = do
    let message = drop 1 received
    let w = record w₀ { chat_send_str = c_str message }
    if is_blank (c_str message)
        then (do
          (sent, w₁) ← send p (b'6' ∷ soh ∷ codes "Stop sending empty shit.") client w
          w₂ ← disconnect_client p client iterator disconnect_kick w₁
          ok (none, w₂))
        else (do
          name ← at w.clientid_array iterator
          if str_eq name unnamed
              then (do w₁ ← disconnect_client p client iterator disconnect_unnamed w; ok (none, w₁))
              else ok (some (chat_packet message name), w))

  -- The end of `receive`: the packet is copied to a buffer of 256 bytes and sent to the others.
  unfoldable pub relay : Bytes → Socket → ℕ → ℕ → ServerNetwork → Result ServerNetwork
  relay sending client iterator now w = do
    char_array ← strcpy 256 sending
    (told, w₁) ← broadcast p char_array client.address client.port w
    name ← at w₁.clientid_array iterator
    clocks ← store w₁.client_message_interval iterator now
    ok (record w₁ { chat_send_str = []; client_message_interval = clocks })

  unfoldable pub handle_chat : Bytes → Socket → ℕ → ℕ → ServerNetwork → Result ServerNetwork
  handle_chat text client iterator now w = do
    (sending, w') ← handle_send text client iterator w
    elim sending [ none ↦ ok w' | some packet ↦ relay packet client iterator now w' ]

  -- The tests of a decrypted packet, in the order of the source.
  unfoldable pub handle_text : Bytes → Socket → ℕ → ℕ → ServerNetwork → Result ServerNetwork
  unfolding starts_with_digit
  handle_text text client iterator now w =
      if not (check text)
      then disconnect_client p client iterator disconnect_kick w
      else if leb 4096 (length text)
      then disconnect_client p client iterator disconnect_kick w
      else if starts_with_digit b'0' text
      then handle_chat text client iterator now w
      else if starts_with_digit b'3' text
      then (do (named, w') ← handle_nick p text client iterator w; ok w')
      else if starts_with_digit b'4' text
      then relay [] client iterator now w
      else if starts_with_digit b'5' text
      then handle_command p text client iterator w
      else disconnect_client p client iterator disconnect_kick w

  -- The decryption stands in a `try`.
  unfoldable pub receive_message : Bytes → Socket → ℕ → ℕ → ServerNetwork → Result ServerNetwork
  receive_message received client iterator now w = elim (decrypt p.botan received server_key) [
    | ok x ↦ handle_text x.msg client iterator now w
    | throws ↦ send_string p (codes "Your previous message was not sent") client w
    | fault e ↦ fault e
  ]
