-- ===== src/Server/Room/Turns/Talk.antt =====
-- The decrypted packets of `receive` in servernetwork.cpp as turns of a member that may speak.
use open_simp.Prelude.{
  ℕ, Returns-mono, ◌>>=◌, [], ◌≡◌, List, none, some, Bytes, codes, drop, Result, ok, throws, fault,
  at_ok, store_ok, strcpy, Ensures, Ensures-bind, Ensures-mono, Ensures-of_Returns, get_elem?,
  get_elem?-lt, get_elem?_total, remove_at, modify, arith, inl, inr,
}
use open_simp.Cryptography.Interface.{IsSound}
use open_simp.Cryptography.{Decrypted, decrypt}
use open_simp.Server.{Socket, disconnect_kick, Platform, ServerNetwork, server_key}
use open_simp.Server.Wire.{send_string}
use open_simp.Server.Wire.Delivery.{broadcast_lem}
use open_simp.Server.Clients.{disconnect_client}
use open_simp.Server.Names.{nick, handle_nick}
use open_simp.Server.Commands.{handle_command}
use open_simp.Server.Commands.Registry.{handle_command-OnlySends}
use open_simp.Server.Commands.Sends.{send_string-OnlySends}
use open_simp.Server.Chat.Cases.{
  noted, noted-IsValid, handle_send_cases, handle_text_cases, handle_command-Ensures,
}
use open_simp.Server.Chat.{chat_packet, relay, handle_chat, handle_text, receive_message}
use open_simp.Server.Invariant.{IsValid}
use open_simp.Server.Room.{Member, heard, IsFree}
use open_simp.Server.Room.View.{room, room_of-set_clock, room_of-remove_at}
use open_simp.Server.Room.Turns.{room-OnlySends, disconnect_client-leaves, nick-NickTurn}

-- What a decrypted packet of the member at `i` does to the room.
pub data Saying (now i : ℕ) (r r' : List Member) : Type 0 where
  keeps : r' ≡ r → Saying now i r r'
  quits : r' ≡ remove_at r i → Saying now i r r'
  sounds : r' ≡ modify i (heard now) r → Saying now i r r'
  is_called :
      (name : Bytes)
      → IsFree name r
      → r' ≡ modify i (λ m. record m { name = name }) r
      → Saying now i r r'

module _ (p : Platform) (sound : IsSound p.botan) (client : Socket) (iterator now : ℕ) where
  abbrev Says : ServerNetwork → ServerNetwork → Type 0
  Says w w' = Saying now iterator (room w) (room w')

  module _ (w : ServerNetwork) (v : IsValid w)
      (here : get_elem? w.client_array iterator ≡ some client) where
    kicked : Ensures (Says w) (disconnect_client p client iterator disconnect_kick w)
    kicked =
        Ensures-mono _ (Says w) (disconnect_client p client iterator disconnect_kick w)
          (λ w' e. quits e)
          (disconnect_client-leaves p sound client iterator w v here disconnect_kick)

    relay-Says : (sending : Bytes) → Ensures (Says w) (relay p sending client iterator now w)
    unfolding relay
    relay-Says sending =
        let inside = get_elem?-lt w.client_array iterator client here in
        let (name, at_name) = get_elem?_total w.clientid_array iterator (omega (arith, v.ids)) in
        Ensures-bind (Says w) (strcpy 256 sending) _ (λ text _.
          rw
            (
              broadcast_lem p sound text client.address client.port w v.auths,
              at_ok w.clientid_array iterator name at_name,
              store_ok w.client_message_interval iterator now (omega (arith, v.clocks)),
            )
            (sounds (
              room_of-set_clock w.client_array w.clientid_array w.client_op_array
                w.client_message_interval w.client_authenticated_array iterator now)))

    -- A command with too many spaces does not return; any other only sends.
    handle_command-Says :
        (text : Bytes) → Ensures (Says w) (handle_command p text client iterator w)
    handle_command-Says text = handle_command-Ensures p (Says w) text client iterator w (λ few.
        Returns-mono _ _ (handle_command p text client iterator w)
          (λ w' o. keeps (room-OnlySends o))
          (handle_command-OnlySends p sound text client iterator w v here few))

    nick-Says : (name : Bytes) → Ensures (λ r. Says w r.1) (nick p name client iterator w)
    nick-Says name = elim (nick-NickTurn p sound client iterator w v here name) [
      | inl (w', e, gone) ↦ rw e (quits gone)
      | inr (e, free, valid, named) ↦ rw e (is_called name free named)
    ]

  handle_chat-Says :
      (w : ServerNetwork)
      → IsValid w
      → get_elem? w.client_array iterator ≡ some client
      → (text : Bytes) → Ensures (Says w) (handle_chat p text client iterator now w)
  unfolding handle_chat
  handle_chat-Says w v here text =
      let gone =
        room_of-remove_at w.client_array w.clientid_array w.client_op_array
          w.client_message_interval w.client_authenticated_array iterator in
      handle_send_cases p sound
        (λ r. Ensures (Says w) (
          r >>= λ (sending, w'). elim sending [
            | none ↦ ok w'
            | some packet ↦ relay p packet client iterator now w'
          ]))
        text client iterator w v here (λ blank n a. quits gone) (λ nobody n a. quits gone)
        (λ name full at_name real.
          relay-Says (noted text w) (noted-IsValid text w v) here (chat_packet (drop 1 text) name))

  handle_text-Says :
      (w : ServerNetwork)
      → IsValid w
      → get_elem? w.client_array iterator ≡ some client
      → (text : Bytes) → Ensures (Says w) (handle_text p text client iterator now w)
  unfolding handle_nick
  handle_text-Says w v here text =
      handle_text_cases p (Ensures (Says w)) text client iterator now w (kicked w v here)
        (λ chat. handle_chat-Says w v here text)
        (Ensures-bind (Says w) (nick p (drop 2 text) client iterator w) _
          (λ r e. rw e at (nick-Says w v here (drop 2 text))))
        (relay-Says w v here []) (λ command. handle_command-Says w v here text)

  pub receive_message-Says :
      (w : ServerNetwork)
      → IsValid w
      → get_elem? w.client_array iterator ≡ some client
      → (received : Bytes) → Ensures (Says w) (receive_message p received client iterator now w)
  unfolding receive_message
  receive_message-Says w v here received = by_result (decrypt p.botan received server_key)
    where
      by_result :
          (r : Result Decrypted)
          → Ensures (Says w) (elim r [
            | ok x ↦ handle_text p x.msg client iterator now w
            | throws ↦ send_string p (codes "Your previous message was not sent") client w
            | fault e ↦ fault e
          ])
      by_result (ok x) = handle_text-Says w v here x.msg
      by_result throws =
          Ensures-of_Returns _ (Says w)
            (send_string p (codes "Your previous message was not sent") client w)
            (λ w' o. keeps (room-OnlySends o))
            (send_string-OnlySends p sound (codes "Your previous message was not sent") client w)
      by_result (fault e) = tt
