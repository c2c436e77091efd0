-- ===== src/Server/Secrecy/Talk.antt =====
-- The decrypted packets of `receive` in servernetwork.cpp: what they put on the network.
use open_simp.Prelude.{
  ℕ, Returns-mono, ◌>>=◌, [], ◌≡◌, ◌≢◌, ◌∷◌, none, some, Bytes, codes, drop, Result, ok, throws,
  fault, at_ok, store_ok, strcpy, Ensures, Ensures-bind, Ensures-of_Returns, get_elem?,
  get_elem?-lt, get_elem?_total, arith,
}
use open_simp.Cryptography.Interface.{IsSound}
use open_simp.Cryptography.{Decrypted, decrypt}
use open_simp.Server.{
  Socket, Event, disconnect_kick, disconnect_unnamed, Platform, ServerNetwork, unnamed, server_key,
}
use open_simp.Server.Wire.{send_string}
use open_simp.Server.Wire.Growth.{Grows, Grows-trans, Hears, posted-Grows}
use open_simp.Server.Wire.Delivery.{broadcast_lem}
use open_simp.Server.Clients.{disconnect_client}
use open_simp.Server.Names.{nick, handle_nick}
use open_simp.Server.Commands.{handle_command}
use open_simp.Server.Commands.Sends.{send_string-SendsOnly}
use open_simp.Server.Commands.Obeys.{handle_command-SendsOnly}
use open_simp.Server.Chat.Cases.{
  scolding, noted, noted-IsValid, scolded, scolded-IsValid, handle_send_cases, handle_text_cases,
  handle_command-Ensures,
}
use open_simp.Server.Chat.{chat_packet, relay, handle_chat, handle_text, receive_message}
use open_simp.Server.Invariant.{IsValid}
use open_simp.Server.Secrecy.{Permits, told, told-Hears, left-Grows, disconnect_client-Grows}
use open_simp.Server.Secrecy.Login.{nick-Grows}

-- What a talking client may make the server send.
pub record Talks (p : Platform) (P : Event → Type 0) (client : Socket) (iterator : ℕ)
    (w : ServerNetwork) : Type 0 where
  pub valid : IsValid w
  pub here : get_elem? w.client_array iterator ≡ some client
  pub may : Permits p P client w.client_array w.client_authenticated_array
  pub hears : Hears p P client
  pub named_hears :
      (n : Bytes)
      → n ≢ unnamed
      → (j : ℕ) (s : Socket) → get_elem? w.clientid_array j ≡ some n
      → get_elem? w.client_array j ≡ some s
      → Hears p P s

module _ (p : Platform) (sound : IsSound p.botan) (P : Event → Type 0) (client : Socket)
    (iterator now : ℕ) where
  abbrev Adds : ServerNetwork → ServerNetwork → Type 0
  Adds w w' = Grows P w.wire w'.wire

  module _ (w : ServerNetwork) (t : Talks p P client iterator w) where
    kicked : Ensures (Adds w) (disconnect_client p client iterator disconnect_kick w)
    kicked =
        disconnect_client-Grows p sound P client iterator w t.valid t.here t.may disconnect_kick

    relay-Adds : (sending : Bytes) → Ensures (Adds w) (relay p sending client iterator now w)
    unfolding relay
    relay-Adds sending =
        let v = t.valid in
        let inside = get_elem?-lt w.client_array iterator client t.here in
        let (name, at_name) = get_elem?_total w.clientid_array iterator (omega (arith, v.ids)) in
        Ensures-bind (Adds w) (strcpy 256 sending) _ (λ text _.
          rw
            (
              broadcast_lem p sound text client.address client.port w v.auths,
              at_ok w.clientid_array iterator name at_name,
              store_ok w.client_message_interval iterator now (omega (arith, v.clocks)),
            )
            (posted-Grows p sound P text (told p sound P client iterator w v t.here t.may) w
              (told-Hears p sound P client iterator w v t.here t.may)))

    handle_command-Adds :
        (text : Bytes) → Ensures (Adds w) (handle_command p text client iterator w)
    handle_command-Adds text = handle_command-Ensures p (Adds w) text client iterator w (λ few.
        Returns-mono _ _ (handle_command p text client iterator w) (λ w' r. r.1)
          (handle_command-SendsOnly p sound P text client iterator w t.valid t.here few t.hears
            t.named_hears))

  handle_chat-Adds :
      (w : ServerNetwork)
      → Talks p P client iterator w
      → (text : Bytes) → Ensures (Adds w) (handle_chat p text client iterator now w)
  unfolding handle_chat
  handle_chat-Adds w t text =
      let w₀ = noted text w in
      let v₀ = noted-IsValid text w t.valid in
      let w₁ = scolded p text client w in
      let v₁ = scolded-IsValid p text client w t.valid in
      let told_off : Adds w w₁ = posted-Grows p sound P scolding (client ∷ []) w₀ (t.hears, tt) in
      let t₀ : Talks p P client iterator w₀ = record {
        valid = v₀;
        here = t.here;
        may = t.may;
        hears = t.hears;
        named_hears = t.named_hears;
      } in
      handle_send_cases p sound
        (λ r. Ensures (Adds w) (
          r >>= λ (sending, w'). elim sending [
            | none ↦ ok w'
            | some packet ↦ relay p packet client iterator now w'
          ]))
        text client iterator w t.valid t.here
        (λ blank n a.
          Grows-trans P w.wire w₁.wire _ told_off
            (left-Grows p sound P client iterator w₁ v₁ t.here t.may disconnect_kick n a))
        (λ nobody n a.
          left-Grows p sound P client iterator w₀ v₀ t.here t.may disconnect_unnamed n a)
        (λ name full at_name real. relay-Adds w₀ t₀ (chat_packet (drop 1 text) name))

  handle_text-Adds :
      (w : ServerNetwork)
      → Talks p P client iterator w
      → (text : Bytes) → Ensures (Adds w) (handle_text p text client iterator now w)
  unfolding handle_nick
  handle_text-Adds w t text =
      handle_text_cases p (Ensures (Adds w)) text client iterator now w (kicked w t)
        (λ chat. handle_chat-Adds w t text)
        (Ensures-bind (Adds w) (nick p (drop 2 text) client iterator w) _ (λ r e.
          rw e at (nick-Grows p sound P client iterator w t.valid t.here t.may (drop 2 text))))
        (relay-Adds w t []) (λ command. handle_command-Adds w t text)

  pub receive_message-Adds :
      (w : ServerNetwork)
      → Talks p P client iterator w
      → (received : Bytes) → Ensures (Adds w) (receive_message p received client iterator now w)
  unfolding receive_message
  receive_message-Adds w t received = by_result (decrypt p.botan received server_key)
    where
      by_result :
          (r : Result Decrypted)
          → Ensures (Adds w) (elim r [
            | ok x ↦ handle_text p x.msg client iterator now w
            | throws ↦ send_string p (codes "Your previous message was not sent") client w
            | fault e ↦ fault e
          ])
      by_result (ok x) = handle_text-Adds w t x.msg
      by_result throws =
          Ensures-of_Returns _ (Adds w)
            (send_string p (codes "Your previous message was not sent") client w) (λ w' r. r.1)
            (send_string-SendsOnly p sound P (codes "Your previous message was not sent") client w
              t.hears)
      by_result (fault e) = tt
