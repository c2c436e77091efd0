-- ===== src/Server/Chat/Cases.antt =====
-- The outcomes of `handleSend` and the branches of the last part of `receive`, in servernetwork.cpp,
-- for whatever is to be shown of a packet that was decrypted.
use open_simp.Prelude.{
  ℕ, ◌≡◌, ◌≢◌, refl, ap, ◌∙◌, str_eq→eq, leb, true, false, not, [], ◌∷◌, Option, none, some, Bytes,
  codes, str_eq, str_eq_iff, length, drop, c_str, Result, ok, ◌>>=◌, at, at_ok, get_elem?,
  get_elem?-lt, get_elem?_total, Ensures, Ensures-bind, Ensures-of_Returns, Returns, ◌≤◌, ◌<◌,
  arith, Bool-cases, inl, inr,
}
use open_simp.Lexer.Split.{count}
use open_simp.Command.Dispatch.{iterate_overflows}
use open_simp.Cryptography.Interface.{IsSound}
use open_simp.Server.{
  Socket, AuthStatus, disconnect_kick, disconnect_unnamed, Platform, ServerNetwork, unnamed, soh,
}
use open_simp.Server.Wire.{send_string}
use open_simp.Server.Wire.Delivery.{posted, send_lem}
use open_simp.Server.Clients.{disconnect_client}
use open_simp.Server.Names.{is_blank, handle_nick}
use open_simp.Server.Commands.{run_lambda, handle_command}
use open_simp.Server.Chat.{
  check, starts_with_digit, chat_packet, handle_send, relay, handle_chat, handle_text,
}
use open_simp.Server.Invariant.{IsValid}
use open_simp.Server.Invariant.Leaving.{left, disconnect_client_lem}
use open_simp.Server.Invariant.Sending.{OnlySends-IsValid, posted-OnlySends}
use open_simp.Server.Invariant.Keys.{set_clocks-IsValid}

abbrev pub scolding : Bytes
scolding = b'6' ∷ soh ∷ codes "Stop sending empty shit."

-- The server with the line kept as its last chat line.
abbrev pub noted : Bytes → ServerNetwork → ServerNetwork
noted text w = record w { chat_send_str = c_str (drop 1 text) }

pub noted-IsValid : (text : Bytes) (w : ServerNetwork) → IsValid w → IsValid (noted text w)
noted-IsValid text w v = set_clocks-IsValid w w.client_message_interval (c_str (drop 1 text)) refl v

module _ (p : Platform) where
  -- The server with the client told off for a blank line.
  abbrev pub scolded : Bytes → Socket → ServerNetwork → ServerNetwork
  scolded text client w = posted p scolding (client ∷ []) (noted text w)

  pub scolded-IsValid :
      (text : Bytes) (client : Socket) (w : ServerNetwork)
      → IsValid w
      → IsValid (scolded text client w)
  scolded-IsValid text client w v =
      OnlySends-IsValid (noted text w) (scolded text client w)
        (posted-OnlySends p scolding (client ∷ []) (noted text w)) (noted-IsValid text w v)

  module _ (sound : IsSound p.botan) (Q : Result (Option Bytes × ServerNetwork) → Type 0)
      (text : Bytes) (client : Socket) (iterator : ℕ) (w : ServerNetwork) where
    -- `handleSend` on a well-formed server.
    pub handle_send_cases :
        IsValid w
        → get_elem? w.client_array iterator ≡ some client
        → (is_blank (c_str (drop 1 text)) ≡ true
            → (name : Bytes) (auth : AuthStatus)
            → Q (
                ok
                  (none, left p client iterator disconnect_kick name auth (scolded text client w))))
        → (get_elem? w.clientid_array iterator ≡ some unnamed
            → (name : Bytes) (auth : AuthStatus)
            → Q (ok (none, left p client iterator disconnect_unnamed name auth (noted text w))))
        → ((name : Bytes)
            → is_blank (c_str (drop 1 text)) ≡ false
            → get_elem? w.clientid_array iterator ≡ some name
            → name ≢ unnamed
            → Q (ok (some (chat_packet (drop 1 text) name), noted text w)))
        → Q (handle_send p text client iterator w)
    unfolding handle_send
    handle_send_cases v here when_blank when_unnamed when_sent =
        let inside = get_elem?-lt w.client_array iterator client here in
        let (name, at_name) = get_elem?_total w.clientid_array iterator (omega (arith, v.ids)) in
        let (n₁, a₁, _, _, e₁) =
          disconnect_client_lem p sound client iterator disconnect_kick (scolded text client w)
            (scolded-IsValid text client w v) here in
        let (n₂, a₂, _, _, e₂) =
          disconnect_client_lem p sound client iterator disconnect_unnamed (noted text w)
            (noted-IsValid text w v) here in
        elim (Bool-cases (is_blank (c_str (drop 1 text)))) [
          | inl blank ↦
              rw (blank, send_lem p sound scolding client (noted text w), e₁)
                (when_blank blank n₁ a₁)
          | inr full ↦ elim (Bool-cases (str_eq name unnamed)) [
            | inl nobody ↦
                rw (full, at_ok w.clientid_array iterator name at_name, nobody, e₂)
                  (when_unnamed (at_name ∙ ap some (str_eq→eq name unnamed nobody)) n₂ a₂)
            | inr somebody ↦
                rw (full, at_ok w.clientid_array iterator name at_name, somebody)
                  (when_sent name full at_name (ground (arith, str_eq_iff name unnamed)))
          ]
        ]

  -- A decrypted packet is rejected, or it goes to the handler that its first byte stands for.
  pub handle_text_cases :
      (Q : Result ServerNetwork → Type 0) (text : Bytes) (client : Socket) (iterator now : ℕ)
      (w : ServerNetwork)
      → Q (disconnect_client p client iterator disconnect_kick w)
      → (starts_with_digit b'0' text ≡ true → Q (handle_chat p text client iterator now w))
      → Q (do (named, w') ← handle_nick p text client iterator w; ok w')
      → Q (relay p [] client iterator now w)
      → (starts_with_digit b'5' text ≡ true → Q (handle_command p text client iterator w))
      → Q (handle_text p text client iterator now w)
  unfolding handle_text
  handle_text_cases Q text client iterator now w rejected chats names asks commands =
      elim (Bool-cases (not (check text))) [
        | inl illegal ↦ rw illegal rejected
        | inr legal ↦ rw legal (elim (Bool-cases (leb 4096 (length text))) [
          | inl long ↦ rw long rejected
          | inr fine ↦ rw fine (elim (Bool-cases (starts_with_digit b'0' text)) [
            | inl chat ↦ rw chat (chats chat)
            | inr other ↦ rw other (elim (Bool-cases (starts_with_digit b'3' text)) [
              | inl name ↦ rw name names
              | inr another ↦ rw another (elim (Bool-cases (starts_with_digit b'4' text)) [
                | inl console ↦ rw console asks
                | inr rest ↦ rw rest (elim (Bool-cases (starts_with_digit b'5' text)) [
                  | inl command ↦ rw command (commands command)
                  | inr unknown ↦ rw unknown rejected
                ])
              ])
            ])
          ])
        ])
      ]

  -- A command with too many spaces does not return, so what any other ensures is ensured.
  pub handle_command-Ensures :
      (Q : ServerNetwork → Type 0) (text : Bytes) (client : Socket) (iterator : ℕ)
      (w : ServerNetwork)
      → (count 0x20 (drop 1 text) ≤ 511 → Returns Q (handle_command p text client iterator w))
      → Ensures Q (handle_command p text client iterator w)
  unfolding handle_command
  handle_command-Ensures Q text client iterator w h =
      elim (Bool-cases (leb (count 0x20 (drop 1 text)) 511)) [
        | inl few ↦
            Ensures-of_Returns Q Q (handle_command p text client iterator w) (λ w' q. q)
              (h (ground arith))
        | inr many ↦
            let beyond : 511 < count 0x20 (drop 1 text) = ground arith in
            Ensures-bind Q (at w.clientid_array iterator) _ (λ name _.
              rw
                (iterate_overflows (run_lambda p client iterator)
                  (λ text. send_string p text client) w.cmd_executor (drop 1 text) w beyond)
                tt)
      ]
