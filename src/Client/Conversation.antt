-- ===== src/Client/Conversation.antt =====
-- A conversation: the last loop of `run` of ClientNetwork.cpp, line after line, against `receive` of
-- servernetwork.cpp.
pub mod Line
pub mod Screens
use open_simp.Prelude.{
  ℕ, suc, Option, ◌+◌, ◌-◌, ◌<◌, ◌≡◌, ◌≢◌, refl, ap, sym, subst, ◌∙◌, ◌++◌, append_assoc,
  append-nil, leb, false, List, [], ◌∷◌, map, some, Bytes, codes, c_str, c_str_of_clean, has,
  length, get_elem?, get_elem?-lt, set, length-set, get_elem?-set, at_ok, store_ok, ok, Returns,
  arith, Returns-result,
}
use mathlib.Core.List.{map-append}
use mathlib.Core.Option.{some-injective}
use open_simp.Cryptography.{Decrypted, copy_range, decrypt}
use open_simp.Cryptography.Interface.{IsSound}
use open_simp.Server.{Socket, Event, done, Platform, ServerNetwork, unnamed, soh, server_key}
use open_simp.Server.Wire.Delivery.{recipients, read_event}
use open_simp.Server.Names.{is_blank}
use open_simp.Server.Chat.{
  check, starts_with_digit, chat_packet, handle_chat, handle_text, receive_message,
}
use open_simp.Server.Chat.Relay.{handle_chat_lem, length-chat_packet}
use open_simp.Server.Receive.{got, receive_done, receive_as, receive}
use open_simp.Server.Invariant.{IsValid}
use open_simp.Server.Invariant.Keys.{set_clocks-IsValid}
use open_simp.Server.Invariant.Messages.{handle_chat-IsValid}
use open_simp.Client.{ClientNetwork, encode_line, run_line}
use open_simp.Client.Input.{LineSent, run_line_opens, receive_message_opened}
use open_simp.Client.Screen.{on_screen, chat_on_screens}

-- A line that becomes one chat packet of the named user.
pub record IsChatLine (name line : Bytes) : Type 0 where
  pub full : is_blank line ≡ false
  pub plain : starts_with_digit b'/' line ≡ false
  pub no_nul : has 0 line ≡ false
  pub no_soh : has soh line ≡ false
  pub short : length line + length name < 253

-- The user types lines, the client sends each, and the server receives it at the time given.
pub data Conversation (p : Platform) (client : Socket) (iterator : ℕ)
    : ClientNetwork
      → ServerNetwork
      → List (Bytes × ℕ)
      → ClientNetwork
      → ServerNetwork
      → Type 0 where
  silence : {c : ClientNetwork} {w : ServerNetwork} → Conversation p client iterator c w [] c w
  says :
      {c c₁ c₂ : ClientNetwork} {w w₁ w₂ : ServerNetwork} {typed : List (Bytes × ℕ)}
      (line ct : Bytes) (now : ℕ)
      → run_line p.botan line c ≡ ok c₁
      → c₁.sent ≡ c.sent ++ ct ∷ []
      → receive p (got ct) client iterator now w ≡ ok w₁
      → Conversation p client iterator c₁ w₁ typed c₂ w₂
      → Conversation p client iterator c w ((line, now) ∷ typed) c₂ w₂

-- What the other clients see of one line, and of all lines.
abbrev pub line_on : Bytes → List Socket → Bytes → List (Socket × Option Bytes)
line_on name rs line =
    map (λ s. (s, some (codes "<" ++ name ++ codes "> " ++ line ++ codes "\n"))) rs

abbrev pub lines_on : Bytes → List Socket → List (Bytes × ℕ) → List (Socket × Option Bytes)
lines_on name rs [] = []
lines_on name rs ((line, now) ∷ typed) = line_on name rs line ++ lines_on name rs typed

-- Chat lines, each more than 20 milliseconds after the one before.
abbrev pub Spaced : Platform → Bytes → ℕ → List (Bytes × ℕ) → Type 0
Spaced p name started [] = Unit
Spaced p name started ((line, now) ∷ typed) =
    IsChatLine name line × (20 < p.as_milliseconds (now - started)) × Spaced p name now typed

-- The client at the position is logged in under the name, and its last packet came at `started`.
pub record Talker (client : Socket) (iterator : ℕ) (name : Bytes) (started : ℕ) (w : ServerNetwork)
    : Type 0 where
  pub valid : IsValid w
  pub here : get_elem? w.client_array iterator ≡ some client
  pub at_name : get_elem? w.clientid_array iterator ≡ some name
  pub is_done : get_elem? w.client_authenticated_array iterator ≡ some done
  pub at_clock : get_elem? w.client_message_interval iterator ≡ some started
