-- ===== src/Server/Chat/Relay.antt =====
-- What a chat line becomes on the network, and the lines that break `receive` of
-- servernetwork.cpp.
use open_simp.Prelude.{
  ℕ, suc, ◌+◌, ◌≤◌, ◌<◌, ◌≡◌, ◌≢◌, refl, ap, ◌∙◌, ◌++◌, leb, ltb, lt→ltb, false, List, [], ◌∷◌, map,
  some, Bytes, str_eq, str_eq_iff, ok, fault, overflow, at_ok, store_ok, c_str, c_str_of_clean, has,
  has-append, length, length-append, get_elem?, set, get_elem?-lt, drop, arith,
}
use open_simp.Cryptography.{Cryptography}
use open_simp.Cryptography.Interface.{IsSound}
use open_simp.Server.{Socket, Event, Platform, ServerNetwork, unnamed, soh}
use open_simp.Server.Wire.Delivery.{recipients, broadcast_delivers, read_event}
use open_simp.Server.Names.{is_blank}
use open_simp.Server.Chat.{
  check, starts_with_digit, chat_packet, handle_send, relay, handle_chat, handle_text,
}
use open_simp.Server.Invariant.{IsValid}

-- A test of order that fails.
ltb_of_le : (a b : ℕ) → b ≤ a → ltb a b ≡ false
ltb_of_le a b h = ground arith

chat_packet_clean :
    (message name : Bytes)
    → has 0 message ≡ false
    → has 0 name ≡ false
    → c_str (chat_packet message name) ≡ b'0' ∷ soh ∷ (message ++ soh ∷ name)
unfolding chat_packet
chat_packet_clean message name no_nul clean =
    c_str_of_clean (b'0' ∷ soh ∷ (message ++ soh ∷ name))
      (ground (arith, has-append 0 message (soh ∷ name)))

-- How much of the buffer a clean line takes.
pub length-chat_packet :
    (message name : Bytes)
    → has 0 message ≡ false
    → has 0 name ≡ false
    → length (c_str (chat_packet message name)) ≡ length message + length name + 3
length-chat_packet message name no_nul clean =
    ap length (chat_packet_clean message name no_nul clean)
    ∙ omega (arith, length-append message (soh ∷ name))

module _ (p : Platform) (text : Bytes) (name : Bytes) (client : Socket) (iterator now : ℕ)
    (w : ServerNetwork) (v : IsValid w) (here : get_elem? w.client_array iterator ≡ some client)
    (at_name : get_elem? w.clientid_array iterator ≡ some name) (real : name ≢ unnamed)
    (full : is_blank (c_str (drop 1 text)) ≡ false) where
  -- `handleSend` at a line that may be sent.
  handle_send_passes :
      handle_send p text client iterator w
      ≡ ok (some (chat_packet (drop 1 text) name), record w { chat_send_str = c_str (drop 1 text) })
  unfolding handle_send
  handle_send_passes =
      let other : str_eq name unnamed ≡ false = ground (arith, str_eq_iff name unnamed) in
      rw (full, at_ok w.clientid_array iterator name at_name, other)

  -- What a chat line does: it puts the packets on the network and restarts the sender's clock.
  pub handle_chat_lem :
      IsSound p.botan
      → has 0 (drop 1 text) ≡ false
      → has 0 name ≡ false
      → length (drop 1 text) + length name < 253
      → (es : List Event) × (c : Cryptography) × (handle_chat p text client iterator now w
          ≡ ok (record w {
            chat_send_str = [];
            client_message_interval = set w.client_message_interval iterator now;
            crypt = c;
            wire = w.wire ++ es;
          }))
        × (map (read_event p) es
            ≡ map
                (λ s. (s, some (b'0' ∷ soh ∷ (drop 1 text ++ soh ∷ name))))
                (recipients client.address client.port w.client_array w.client_authenticated_array))
  unfolding handle_chat relay
  handle_chat_lem sound line clean h =
      let packet = b'0' ∷ soh ∷ (drop 1 text ++ soh ∷ name) in
      let whole = chat_packet_clean (drop 1 text) name line clean in
      let w₀ = record w { chat_send_str = c_str (drop 1 text) } in
      let inside = get_elem?-lt w.client_array iterator client here in
      let size : length packet < 256 = omega (arith, length-append (drop 1 text) (soh ∷ name)) in
      let (es, c, sent, read, keys) =
        broadcast_delivers p sound packet client.address client.port w₀ v.auths in
      (
        es,
        c,
        rw (
          handle_send_passes,
          whole,
          lt→ltb (length packet) 256 size,
          sent,
          at_ok w.clientid_array iterator name at_name,
          store_ok w.client_message_interval iterator now (omega (arith, v.clocks)),
        ),
        read
            ∙ ap
                (λ t.
                  map (λ s. (s, some t))
                    (recipients client.address client.port w.client_array
                      w.client_authenticated_array))
                (c_str_of_clean packet (ground (arith, has-append 0 (drop 1 text) (soh ∷ name)))),
      )

  -- On a well-formed server, a chat line that is not blank, from a named client, with no NUL in
  -- the line or the name and of less than 253 bytes together, goes to each other authenticated
  -- client, in order and to nobody else, and opens there to the byte of a chat packet, the line
  -- and the sender's name; it restarts the sender's clock.
  pub handle_chat_delivers :
      IsSound p.botan
      → has 0 (drop 1 text) ≡ false
      → has 0 name ≡ false
      → length (drop 1 text) + length name < 253
      → let rs =
          recipients client.address client.port w.client_array w.client_authenticated_array in
        (w' : ServerNetwork) × (es : List Event) × (handle_chat p text client iterator now w
          ≡ ok w')
        × (w'.wire ≡ w.wire ++ es)
        × (map (read_event p) es
            ≡ map (λ s. (s, some (b'0' ∷ soh ∷ (drop 1 text ++ soh ∷ name)))) rs)
        × (w'.client_message_interval ≡ set w.client_message_interval iterator now)
        × (w'.client_array ≡ w.client_array)
        × (w'.clientid_array ≡ w.clientid_array)
  handle_chat_delivers sound line clean h =
      let (es, c, ran, read) = handle_chat_lem sound line clean h in
      (_, es, ran, refl, read, refl, refl, refl)

  handle_chat_overflows :
      256 ≤ length (c_str (chat_packet (drop 1 text) name))
      → handle_chat p text client iterator now w ≡ fault overflow
  unfolding handle_chat relay
  handle_chat_overflows h =
      rw (handle_send_passes, ltb_of_le (length (c_str (chat_packet (drop 1 text) name))) 256 h)

module _ (p : Platform) (message name : Bytes) (client : Socket) (iterator now : ℕ)
    (w : ServerNetwork) (v : IsValid w) where
  -- A line that passes every test of `receive`, with no NUL and no separator in it and shorter than
  -- 4095 bytes, overflows the buffer of 256 bytes as soon as it and the sender's name have 253 bytes
  -- together.
  pub long_chat_overflows :
      get_elem? w.client_array iterator ≡ some client
      → get_elem? w.clientid_array iterator ≡ some name
      → name ≢ unnamed
      → is_blank message ≡ false
      → has 0 message ≡ false
      → has soh message ≡ false
      → has 0 name ≡ false
      → length message < 4095
      → 253 ≤ length message + length name
      → handle_text p (b'0' ∷ message) client iterator now w ≡ fault overflow
  unfolding handle_text check starts_with_digit
  long_chat_overflows here at_name real full no_nul no_soh name_clean short long =
      let size : 256 ≤ length (c_str (chat_packet message name)) =
        omega (arith, length-chat_packet message name no_nul name_clean) in
      let fine : leb 4096 (suc (length message)) ≡ false = ground arith in
      rw (c_str_of_clean message no_nul, no_soh, fine)
        (handle_chat_overflows p (b'0' ∷ message) name client iterator now w v here at_name real
          (rw (c_str_of_clean message no_nul) full) size)
