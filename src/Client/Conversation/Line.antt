-- ===== src/Client/Conversation/Line.antt =====
-- One line of a conversation: `run` of ClientNetwork.cpp and `receive` of servernetwork.cpp.
use open_simp.Prelude.{
  ℕ, suc, ◌-◌, ◌<◌, ◌≡◌, ◌≢◌, refl, ap, sym, subst, ◌∙◌, ◌++◌, leb, false, List, [], ◌∷◌, map, some,
  Bytes, c_str, c_str_of_clean, has, length, get_elem?-lt, set, length-set, get_elem?-set, at_ok,
  store_ok, ok, Returns, arith,
}
use mathlib.Core.Option.{some-injective}
use open_simp.Cryptography.{Decrypted, copy_range, decrypt}
use open_simp.Cryptography.Interface.{IsSound}
use open_simp.Server.{Socket, Event, done, Platform, ServerNetwork, unnamed, soh, server_key}
use open_simp.Server.Wire.Delivery.{recipients, read_event}
use open_simp.Server.Names.{is_blank}
use open_simp.Server.Chat.{
  check, starts_with_digit, chat_packet, handle_chat, handle_text, receive_message,
}
use open_simp.Server.Chat.Relay.{handle_chat_lem, length-chat_packet}
use open_simp.Cryptography.Sizes.{opened_whole}
use open_simp.Server.Receive.{read_raw, got, receive_done, receive_as, receive}
use open_simp.Server.Invariant.{IsValid}
use open_simp.Server.Invariant.Keys.{set_clocks-IsValid}
use open_simp.Server.Invariant.Messages.{handle_chat-IsValid}
use open_simp.Client.{encode_line}
use open_simp.Client.Input.{receive_message_opened}
use open_simp.Client.Conversation.{IsChatLine, Talker}

-- A packet that opens is not empty.
opened_ne_nil : (p : Platform) (x : Decrypted) → decrypt p.botan [] server_key ≢ ok x
unfolding decrypt copy_range
opened_ne_nil p x e = cc

encode_plain :
    (line : Bytes)
    → is_blank line ≡ false
    → starts_with_digit b'/' line ≡ false
    → encode_line line ≡ b'0' ∷ line
unfolding encode_line is_blank starts_with_digit
encode_plain [] full plain = cc
encode_plain (x ∷ line) full plain = rw plain

-- A short chat line gets past the tests of a decrypted packet.
handle_text_chats :
    (p : Platform) (line : Bytes) (client : Socket) (iterator now : ℕ) (w : ServerNetwork)
    → has 0 line ≡ false
    → has soh line ≡ false
    → length line < 253
    → handle_text p (b'0' ∷ line) client iterator now w
      ≡ handle_chat p (b'0' ∷ line) client iterator now w
unfolding handle_text check starts_with_digit
handle_text_chats p line client iterator now w no_nul no_soh short =
    let whole : c_str (b'0' ∷ line) ≡ b'0' ∷ line = c_str_of_clean (b'0' ∷ line) no_nul in
    let small : leb 4096 (suc (length line)) ≡ false = ground arith in
    rw (c_str_of_clean line no_nul, no_soh, small)

module _ (p : Platform) (sound : IsSound p.botan) (client : Socket) (iterator : ℕ) (name : Bytes)
    (real : name ≢ unnamed) (clean : has 0 name ≡ false) (alone : has soh name ≡ false) where
  -- One line, received on time.
  pub line_received :
      (line ct iv : Bytes) (started now : ℕ) (w : ServerNetwork)
      → Talker client iterator name started w
      → IsChatLine name line
      → 20 < p.as_milliseconds (now - started)
      → decrypt p.botan ct server_key ≡ ok (record { iv = iv; msg = encode_line line })
      → let rs =
          recipients client.address client.port w.client_array w.client_authenticated_array in
        (es : List Event) × (w' : ServerNetwork) × (receive p (got ct) client iterator now w
          ≡ ok w')
        × (w'.wire ≡ w.wire ++ es)
        × (map (read_event p) es ≡ map (λ s. (s, some (b'0' ∷ soh ∷ (line ++ soh ∷ name)))) rs)
        × Talker client iterator name now w'
        × (w'.client_array ≡ w.client_array)
        × (w'.client_authenticated_array ≡ w.client_authenticated_array)
  unfolding receive receive_as receive_done
  line_received line [] iv started now w t l late opened = absurd (opened_ne_nil p _ opened)
  line_received line (x ∷ xs) iv started now w t l late opened =
      let v = t.valid in
      let inside = get_elem?-lt w.client_array iterator client t.here in
      let fits : iterator < length w.client_message_interval = omega (arith, v.clocks) in
      let clocks = set w.client_message_interval iterator now in
      let w₁ = record w { client_message_interval = clocks } in
      let v₁ : IsValid w₁ =
        set_clocks-IsValid w clocks w.chat_send_str
          (length-set w.client_message_interval iterator now) v in
      let again : iterator < length clocks =
        omega (arith, fits, length-set w.client_message_interval iterator now) in
      let text = b'0' ∷ line in
      let full : is_blank (c_str line) ≡ false = rw (c_str_of_clean line l.no_nul) l.full in
      let (es, c, ran, read) =
        handle_chat_lem p text name client iterator now w₁ v₁ t.here t.at_name real full sound
          l.no_nul clean l.short in
      let w₂ : ServerNetwork = record w₁ {
        chat_send_str = [];
        client_message_interval = set clocks iterator now;
        crypt = c;
        wire = w.wire ++ es;
      } in
      let calm : leb (p.as_milliseconds (now - started)) 20 ≡ false = ground arith in
      let small : length line < 253 = omega (arith, l.short) in
      let whole : read_raw (x ∷ xs) ≡ x ∷ xs =
        opened_whole p.botan sound (x ∷ xs) server_key _ opened
          (rw (encode_plain line l.full l.plain) (omega (arith, small))) in
      let arrived : receive_message p (read_raw (x ∷ xs)) client iterator now w₁ ≡ ok w₂ =
        ap (λ t. receive_message p t client iterator now w₁) whole
        ∙ receive_message_opened p (x ∷ xs) (encode_line line) iv client iterator now w₁ opened
        ∙ ap (λ t. handle_text p t client iterator now w₁) (encode_plain line l.full l.plain)
        ∙ handle_text_chats p line client iterator now w₁ l.no_nul l.no_soh small
        ∙ ran in
      let v₂ : IsValid w₂ = subst (Returns IsValid) ran (
        handle_chat-IsValid p sound text client iterator now w₁ v₁ t.here (λ n at_n.
          subst (λ n. length (c_str (chat_packet line n)) < 256)
            (some-injective _ _ (sym t.at_name ∙ at_n))
            (omega (arith, l.short, length-chat_packet line name l.no_nul clean)))) in
      (
        es,
        w₂,
        rw (
          at_ok w.client_authenticated_array iterator done t.is_done,
          at_ok w.client_message_interval iterator started t.at_clock,
          store_ok w.client_message_interval iterator now fits,
          calm,
          arrived,
        ),
        refl,
        read,
        record {
          valid = v₂;
          here = t.here;
          at_name = t.at_name;
          is_done = t.is_done;
          at_clock = ground (arith, get_elem?-set clocks iterator iterator now again);
        },
        refl,
        refl,
      )
