-- ===== src/Client/Screen.antt =====
-- What the client prints for the packets of the server: `receive` of ClientNetwork.cpp against the
-- packets that servernetwork.cpp makes.
use open_simp.Prelude.{
  ℕ, ◌+◌, ◌<◌, ◌≡◌, ◌≢◌, refl, ap, ◌∙◌, ◌++◌, ◌==◌, false, List, [], ◌∷◌, map, Option, none, some,
  Bytes, codes, has, c_str_of_clean, length, get_elem?, Result, ok, throws, fault, ◌>>=◌, arith,
}
use open_simp.Lexer.Split.{parts-append_sep, parts_of_clean, count_of_clean, count-append}
use open_simp.Client.Utils.{lexer-parts}
use open_simp.Client.Crypt.{Opened, decrypt}
use open_simp.Client.Crypt.Agreement.{as_decrypted, decrypt-agrees}
use open_simp.Cryptography.Interface.{IsSound}
use open_simp.Server.{
  Socket, Event, transmitted, closed, Platform, ServerNetwork, unnamed, soh, server_key,
}
use open_simp.Server.Wire.Delivery.{recipients, reading, read_event}
use open_simp.Server.Names.{is_blank}
use open_simp.Server.Chat.{handle_chat}
use open_simp.Server.Chat.Relay.{handle_chat_delivers}
use open_simp.Server.Invariant.{IsValid}
use open_simp.Client.{ClientNetwork, encode_line, shown, screen_text, receive}

-- A chat packet is printed as the name in angle brackets and the line.
chat_packet_shown :
    (message name : Bytes)
    → has soh message ≡ false
    → has soh name ≡ false
    → screen_text (b'0' ∷ soh ∷ (message ++ soh ∷ name))
      ≡ ok (codes "<" ++ name ++ codes "> " ++ message ++ codes "\n")
unfolding screen_text shown
chat_packet_shown message name hm hn = rw (
  lexer-parts (b'0' ∷ soh ∷ (message ++ soh ∷ name)) soh 99 (
      ground (
        arith,
        count-append soh message (soh ∷ name),
        count_of_clean soh message hm,
        count_of_clean soh name hn,
      )),
  parts-append_sep soh message name hm,
  parts_of_clean soh name hn,
)

-- A direct message with no separator in it is printed behind its tag.
direct_shown :
    (text : Bytes)
    → has soh text ≡ false
    → screen_text (b'6' ∷ soh ∷ text) ≡ ok (codes "[Direct] " ++ text ++ codes "\n")
unfolding screen_text shown
direct_shown text h = rw (
  lexer-parts (b'6' ∷ soh ∷ text) soh 99 (ground (arith, count_of_clean soh text h)),
  parts_of_clean soh text h,
)

abbrev printed : Result Bytes → Option Bytes
printed (ok t) = some t
printed throws = none
printed (fault e) = none

-- What the clients print of what goes over the network, each with the state `c`.
abbrev pub on_screen : Platform → ClientNetwork → Event → Socket × Option Bytes
on_screen p c (transmitted s ct) = (s, printed (receive p.botan ct c))
on_screen p c (closed s reason) = (s, none)

abbrev screen_of : Socket × Option Bytes → Socket × Option Bytes
screen_of (s, none) = (s, none)
screen_of (s, some m) = (s, printed (screen_text m))

printed-reading :
    (s : Socket) (r : Result Opened)
    → (s, printed (r >>= λ x. screen_text x.msg)) ≡ screen_of (s, reading (as_decrypted r))
printed-reading s (ok x) = refl
printed-reading s throws = refl
printed-reading s (fault e) = refl

on_screen-read :
    (p : Platform) (c : ClientNetwork) (e : Event)
    → c.aes_key ≡ server_key
    → on_screen p c e ≡ screen_of (read_event p e)
unfolding receive
on_screen-read p c (transmitted s ct) k = rw k (
    printed-reading s (decrypt p.botan ct server_key)
    ∙ ap (λ r. screen_of (s, reading r)) (decrypt-agrees p.botan ct server_key))
on_screen-read p c (closed s reason) k = refl

on_screen-all :
    (p : Platform) (c : ClientNetwork) (es : List Event)
    → c.aes_key ≡ server_key
    → map (on_screen p c) es ≡ map screen_of (map (read_event p) es)
on_screen-all p c [] k = refl
on_screen-all p c (e ∷ es) k = rw (on_screen-read p c e k, on_screen-all p c es k)

screens_of :
    (m t : Bytes) (rs : List Socket)
    → screen_text m ≡ ok t
    → map screen_of (map (λ s. (s, some m)) rs) ≡ map (λ s. (s, some t)) rs
screens_of m t [] h = refl
screens_of m t (s ∷ rs) h = rw (h, screens_of m t rs h)

-- What the clients print where the server sends a chat packet round.
pub chat_on_screens :
    (p : Platform) (c : ClientNetwork) (es : List Event) (line name : Bytes) (rs : List Socket)
    → c.aes_key ≡ server_key
    → has soh line ≡ false
    → has soh name ≡ false
    → map (read_event p) es ≡ map (λ s. (s, some (b'0' ∷ soh ∷ (line ++ soh ∷ name)))) rs
    → map (on_screen p c) es
      ≡ map (λ s. (s, some (codes "<" ++ name ++ codes "> " ++ line ++ codes "\n"))) rs
chat_on_screens p c es line name rs k no_soh alone read =
    on_screen-all p c es k
    ∙ ap (map screen_of) read
    ∙ screens_of _ _ rs (chat_packet_shown line name no_soh alone)

module _ (p : Platform) (line : Bytes) (first : ℕ) (name : Bytes) (client : Socket)
    (iterator now : ℕ) (w : ServerNetwork) where
  -- A line that a user types, not blank, with no slash in front and with no NUL or separator in
  -- it or in the user's name, and of less than 253 bytes together with that name, is printed by
  -- each other authenticated client that has the server's key, in order and by nobody else,
  -- behind the name in angle brackets, once a well-formed server handles its encoding.
  line_reaches_screens :
      IsSound p.botan
      → IsValid w
      → get_elem? w.client_array iterator ≡ some client
      → get_elem? w.clientid_array iterator ≡ some name
      → name ≢ unnamed
      → is_blank (first ∷ line) ≡ false
      → (first == b'/') ≡ false
      → has 0 (first ∷ line) ≡ false
      → has soh (first ∷ line) ≡ false
      → has 0 name ≡ false
      → has soh name ≡ false
      → length (first ∷ line) + length name < 253
      → (c : ClientNetwork) → c.aes_key ≡ server_key
      → let rs =
          recipients client.address client.port w.client_array w.client_authenticated_array in
        (w' : ServerNetwork) × (es : List Event) × (handle_chat p
            (encode_line (first ∷ line))
            client
            iterator
            now
            w
          ≡ ok w')
        × (w'.wire ≡ w.wire ++ es)
        × (map (on_screen p c) es
            ≡ map
                (λ s. (s, some (codes "<" ++ name ++ codes "> " ++ (first ∷ line) ++ codes "\n")))
                rs)
  unfolding encode_line
  line_reaches_screens sound v here at_name real full plain no_nul no_soh clean alone short c k =
      let rs = recipients client.address client.port w.client_array w.client_authenticated_array in
      let (w', es, ran, wire, read, _, _, _) =
        handle_chat_delivers p (b'0' ∷ first ∷ line) name client iterator now w v here at_name real
          (rw (c_str_of_clean (first ∷ line) no_nul) full) sound no_nul clean short in
      (
        w',
        es,
        rw (plain, ran),
        wire,
        chat_on_screens p c es (first ∷ line) name rs k no_soh alone read,
      )
