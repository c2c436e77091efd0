-- ===== src/Server/Invariant/Messages.antt =====
-- Decrypted packets on a well-formed server: the last part of `receive` of servernetwork.cpp.
use open_simp.Prelude.{
  ℕ, ◌<◌, ◌≤◌, ◌≡◌, ◌≢◌, ◌⊎◌, inl, inr, refl, ap, ◌∙◌, lt→ltb, true, false, List, [], Option, none,
  some, Bytes, ok, at_ok, store_ok, c_str, length, length-set, get_elem?, set, get_elem?-lt,
  get_elem?_total, remove_at, drop, arith, Returns, Returns-mono, Returns-bind,
}
use open_simp.Lexer.Split.{count}
use open_simp.Cryptography.Interface.{IsSound}
use open_simp.Server.{
  Socket, DisconnectReason, disconnect_kick, disconnect_unnamed, Platform, ServerNetwork, unnamed,
}
use open_simp.Server.Wire.Delivery.{posted, recipients, broadcast_lem}
use open_simp.Server.Clients.{disconnect_client}
use open_simp.Server.Names.{is_blank, nick, handle_nick}
use open_simp.Server.Commands.{handle_command}
use open_simp.Server.Commands.Registry.{handle_command-OnlySends}
use open_simp.Server.Chat.Cases.{
  noted, noted-IsValid, scolded, scolded-IsValid, handle_send_cases, handle_text_cases,
}
use open_simp.Server.Chat.{
  starts_with_digit, chat_packet, handle_send, relay, handle_chat, handle_text,
}
use open_simp.Server.Invariant.{IsValid}
use open_simp.Server.Invariant.Sending.{OnlySends-IsValid, posted-OnlySends}
use open_simp.Server.Invariant.Leaving.{left-IsValid, disconnect_client_lem}
use open_simp.Server.Invariant.Naming.{NickOutcome, nick-NickOutcome}
use open_simp.Server.Invariant.Keys.{set_clocks-IsValid}

-- What keeps a packet clear of the fixed buffers: a chat line must fit into 256 bytes together with
-- the sender's name, and a command may hold 511 spaces.
pub record IsShort (names : List Bytes) (iterator : ℕ) (text : Bytes) : Type 0 where
  pub fits :
      starts_with_digit b'0' text ≡ true
      → (name : Bytes) → get_elem? names iterator ≡ some name
      → length (c_str (chat_packet (drop 1 text) name)) < 256
  pub words : starts_with_digit b'5' text ≡ true → count 0x20 (drop 1 text) ≤ 511

-- What `handleSend` comes to: nothing to send on, and the client is gone; or the packet that
-- names the sender, with only the last chat line of the server changed.
abbrev pub SendOutcome : Bytes → ℕ → ServerNetwork → Option Bytes × ServerNetwork → Type 0
SendOutcome text iterator w (none, w') =
    IsValid w'
    × (w'.client_array ≡ remove_at w.client_array iterator)
    × ((is_blank (c_str (drop 1 text)) ≡ true)
        ⊎ (get_elem? w.clientid_array iterator ≡ some unnamed))
SendOutcome text iterator w (some packet, w') =
    IsValid w'
    × (w' ≡ record w { chat_send_str = c_str (drop 1 text) })
    × (is_blank (c_str (drop 1 text)) ≡ false)
    × (name : Bytes) × (get_elem? w.clientid_array iterator ≡ some name)
    × (name ≢ unnamed)
    × (packet ≡ chat_packet (drop 1 text) name)

module _ (p : Platform) (sound : IsSound p.botan) where
  pub disconnects-IsValid :
      (client : Socket) (iterator : ℕ) (reason : DisconnectReason) (w : ServerNetwork)
      → IsValid w
      → get_elem? w.client_array iterator ≡ some client
      → Returns IsValid (disconnect_client p client iterator reason w)
  disconnects-IsValid client iterator reason w v here =
      let (old, auth, n, a, e) = disconnect_client_lem p sound client iterator reason w v here in
      rw e (left-IsValid p sound client iterator reason w old auth v here)

  pub relay-IsValid :
      (sending : Bytes) (client : Socket) (iterator now : ℕ) (w : ServerNetwork)
      → IsValid w
      → get_elem? w.client_array iterator ≡ some client
      → length (c_str sending) < 256
      → Returns IsValid (relay p sending client iterator now w)
  unfolding relay
  relay-IsValid sending client iterator now w v here h =
      let inside = get_elem?-lt w.client_array iterator client here in
      let (name, at_name) = get_elem?_total w.clientid_array iterator (omega (arith, v.ids)) in
      let rs = recipients client.address client.port w.client_array w.client_authenticated_array in
      rw
        (
          lt→ltb (length (c_str sending)) 256 h,
          broadcast_lem p sound (c_str sending) client.address client.port w v.auths,
          at_ok w.clientid_array iterator name at_name,
          store_ok w.client_message_interval iterator now (omega (arith, v.clocks)),
        )
        (set_clocks-IsValid (posted p (c_str sending) rs w)
          (set w.client_message_interval iterator now) []
          (length-set w.client_message_interval iterator now)
          (OnlySends-IsValid w _ (posted-OnlySends p (c_str sending) rs w) v))

  -- On a well-formed server `handleSend` returns. Either the client is disconnected and there is
  -- nothing to send on, and then the line is blank or the sender has no name; or there is the packet
  -- of the line and the sender's name, and then the line is not blank and the sender has a name.
  pub handle_send-SendOutcome :
      (text : Bytes) (client : Socket) (iterator : ℕ) (w : ServerNetwork)
      → IsValid w
      → get_elem? w.client_array iterator ≡ some client
      → Returns (SendOutcome text iterator w) (handle_send p text client iterator w)
  handle_send-SendOutcome text client iterator w v here =
      handle_send_cases p sound (Returns (SendOutcome text iterator w)) text client iterator w v
        here
        (λ blank n a. (
          left-IsValid p sound client iterator disconnect_kick (scolded p text client w) n a
              (scolded-IsValid p text client w v) here,
          refl,
          inl blank,
        ))
        (λ nobody n a. (
          left-IsValid p sound client iterator disconnect_unnamed (noted text w) n a
              (noted-IsValid text w v) here,
          refl,
          inr nobody,
        ))
        (λ name full at_name real. (noted-IsValid text w v, refl, full, name, at_name, real, refl))

  pub handle_chat-IsValid :
      (text : Bytes) (client : Socket) (iterator now : ℕ) (w : ServerNetwork)
      → IsValid w
      → get_elem? w.client_array iterator ≡ some client
      → ((name : Bytes)
          → get_elem? w.clientid_array iterator ≡ some name
          → length (c_str (chat_packet (drop 1 text) name)) < 256)
      → Returns IsValid (handle_chat p text client iterator now w)
  unfolding handle_chat
  handle_chat-IsValid text client iterator now w v here fits =
      Returns-bind (SendOutcome text iterator w) IsValid (handle_send p text client iterator w) _
        (handle_send-SendOutcome text client iterator w v here) (λ r e h. goes_on r.0 r.1 h)
    where
      goes_on :
          (o : Option Bytes) (w' : ServerNetwork)
          → SendOutcome text iterator w (o, w')
          → Returns IsValid
              (elim o [ none ↦ ok w' | some packet ↦ relay p packet client iterator now w' ])
      goes_on none w' h = h.0
      goes_on (some packet) w' (valid, same, full, name, at_name, real, is_packet) =
          relay-IsValid packet client iterator now w' valid
            (ap (λ u. get_elem? u.client_array iterator) same ∙ here)
            (rw is_packet (fits name at_name))

  -- A decrypted packet that is short is handled, whatever it holds, and the server stays well formed.
  pub handle_text-IsValid :
      (text : Bytes) (client : Socket) (iterator now : ℕ) (w : ServerNetwork)
      → IsValid w
      → get_elem? w.client_array iterator ≡ some client
      → IsShort w.clientid_array iterator text
      → Returns IsValid (handle_text p text client iterator now w)
  unfolding handle_nick
  handle_text-IsValid text client iterator now w v here short =
      handle_text_cases p (Returns IsValid) text client iterator now w
        (disconnects-IsValid client iterator disconnect_kick w v here)
        (λ chat. handle_chat-IsValid text client iterator now w v here (short.fits chat))
        (Returns-bind (NickOutcome p (drop 2 text) iterator w) IsValid
          (nick p (drop 2 text) client iterator w) _
          (nick-NickOutcome p sound (drop 2 text) client iterator w v here) (λ r e h. h.0))
        (relay-IsValid [] client iterator now w v here (omega arith))
        (λ command.
          Returns-mono _ _ (handle_command p text client iterator w)
            (λ w' o. OnlySends-IsValid w w' o v)
            (handle_command-OnlySends p sound text client iterator w v here (short.words command)))
