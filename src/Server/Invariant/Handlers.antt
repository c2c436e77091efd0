-- ===== src/Server/Invariant/Handlers.antt =====
-- `receive` of servernetwork.cpp as a whole on a well-formed server.
use open_simp.Prelude.{
  str_eq, ◌||◌, false, ℕ, ◌-◌, ◌≡◌, ◌≢◌, refl, true, leb, List, [], ◌∷◌, Option, none, some, Bytes,
  codes, Result, ok, throws, fault, at_ok, store_ok, or_throw, length-set, get_elem?, get_elem?-lt,
  get_elem?_total, set, arith, Returns, Returns-mono, Bool-cases, inl, inr,
}
use open_simp.Cryptography.Interface.{IsSound}
use open_simp.Cryptography.{Decrypted, decrypt, rsa_decrypt}
use open_simp.Server.{
  Socket, AuthStatus, key_received, done, failed, undone, disconnect_leave, disconnect_spam,
  disconnect_kick, unreadable, Platform, ServerNetwork, server_key,
}
use open_simp.Server.Login.{
  Credentials, receive_credentials, check_credentials, parse_credentials, buffer_text,
}
use open_simp.Server.Chat.{handle_text, receive_message}
use open_simp.Server.Clients.{disconnect_client}
use open_simp.Server.Wire.{send_string}
use open_simp.Server.Commands.Sends.{send_string-OnlySends}
use open_simp.Server.Receive.{
  read_raw, Packet, disconnected, got, receive_done, receive_as, receive,
}
use open_simp.Server.Invariant.{IsValid}
use open_simp.Server.Invariant.Sending.{OnlySends-IsValid}
use open_simp.Server.Invariant.Logins.{IsDenied, check_credentials-LoginOutcome, LoginOutcome}
use open_simp.Server.Invariant.Keys.{receive_key-IsValid, set_clocks-IsValid}
use open_simp.Server.Invariant.Messages.{IsShort, disconnects-IsValid, handle_text-IsValid}

module _ (p : Platform) where
  -- Decryption does not read behind the packet, and what it gives is short.
  abbrev pub IsSafeMessage : List Bytes → ℕ → Result Decrypted → Type 0
  IsSafeMessage names iterator (ok x) = IsShort names iterator x.msg
  IsSafeMessage names iterator throws = Unit
  IsSafeMessage names iterator (fault e) = ⊥

  -- Credentials with no empty field need a user file that can be read, and a user that the file
  -- does not hold with another password or with none.
  abbrev pub CanLogIn : Credentials → ServerNetwork → Type 0
  CanLogIn c w =
      (str_eq c.uname [] || str_eq c.passwd []) ≡ false
      → (p.load_user w.userdata c.uname ≢ unreadable)
        × ¬ IsDenied p c (p.load_user w.userdata c.uname)

  -- The packets that each status can take: the credentials of a user that can log in, or none; a
  -- key packet that is a number which can be a modulus; a message that is safe.
  abbrev pub IsSafeFor : AuthStatus → ServerNetwork → ℕ → Bytes → Type 0
  IsSafeFor undone w iterator received =
      (text : Bytes)
      → p.botan.rsa_open w.crypt.kp received ≡ some text
      → CanLogIn (parse_credentials text) w
  IsSafeFor key_received w iterator received =
      (text : Bytes) × (n : ℕ) × (buffer_text received ≡ ok text)
      × (p.botan.read_big_int text ≡ some n)
      × (p.botan.takes_modulus n ≡ true)
  IsSafeFor done w iterator received =
      IsSafeMessage w.clientid_array iterator (decrypt p.botan received server_key)
  IsSafeFor failed w iterator received =
      IsSafeMessage w.clientid_array iterator (decrypt p.botan received server_key)

  abbrev pub IsSafe : Packet → ServerNetwork → ℕ → Type 0
  IsSafe disconnected w iterator = Unit
  IsSafe (got received) w iterator =
      (status : AuthStatus)
      → get_elem? w.client_authenticated_array iterator ≡ some status
      → IsSafeFor status w iterator (read_raw received)

  module _ (sound : IsSound p.botan) where
    receive_message-IsValid :
        (received : Bytes) (client : Socket) (iterator now : ℕ) (w : ServerNetwork)
        → IsValid w
        → get_elem? w.client_array iterator ≡ some client
        → IsSafeMessage w.clientid_array iterator (decrypt p.botan received server_key)
        → Returns IsValid (receive_message p received client iterator now w)
    unfolding receive_message
    receive_message-IsValid received client iterator now w v here =
        by_result (decrypt p.botan received server_key)
      where
        by_result :
            (r : Result Decrypted)
            → IsSafeMessage w.clientid_array iterator r
            → Returns IsValid (elim r [
              | ok x ↦ handle_text p x.msg client iterator now w
              | throws ↦ send_string p (codes "Your previous message was not sent") client w
              | fault e ↦ fault e
            ])
        by_result (ok x) h = handle_text-IsValid p sound x.msg client iterator now w v here h
        by_result throws h =
            Returns-mono _ _ (send_string p (codes "Your previous message was not sent") client w)
              (λ w' o. OnlySends-IsValid w w' o v)
              (send_string-OnlySends p sound (codes "Your previous message was not sent") client w)
        by_result (fault e) h = absurd h

    receive_credentials-IsValid :
        (received : Bytes) (client : Socket) (iterator : ℕ) (w : ServerNetwork)
        → IsValid w
        → get_elem? w.client_array iterator ≡ some client
        → IsSafeFor undone w iterator received
        → Returns IsValid (receive_credentials p received client iterator w)
    unfolding receive_credentials rsa_decrypt check_credentials
    receive_credentials-IsValid received client iterator w v here h =
        by_option (p.botan.rsa_open w.crypt.kp received) refl
      where
        by_option :
            (o : Option Bytes)
            → p.botan.rsa_open w.crypt.kp received ≡ o
            → Returns IsValid (elim (or_throw o) [
              | ok text ↦ check_credentials p (parse_credentials text) client iterator w
              | throws ↦ disconnect_client p client iterator disconnect_kick w
              | fault e ↦ fault e
            ])
        by_option none e = disconnects-IsValid p sound client iterator disconnect_kick w v here
        by_option (some text) e =
            let c = parse_credentials text in
            elim (Bool-cases (str_eq c.uname [] || str_eq c.passwd [])) [
              | inl empty ↦
                  rw empty (disconnects-IsValid p sound client iterator disconnect_kick w v here)
              | inr full ↦
                  let (readable, allowed) = h text e full in
                  elim (check_credentials-LoginOutcome p sound c client iterator w v here
                    readable) [
                      | inl outcome ↦
                          Returns-mono (LoginOutcome p c iterator w) IsValid
                            (check_credentials p c client iterator w) (λ w' o. o.0) outcome
                      | inr crashed ↦ absurd (allowed crashed.1)
                    ]
            ]

    receive_done-IsValid :
        (received : Bytes) (client : Socket) (iterator now : ℕ) (w : ServerNetwork)
        → IsValid w
        → get_elem? w.client_array iterator ≡ some client
        → IsSafeMessage w.clientid_array iterator (decrypt p.botan received server_key)
        → Returns IsValid (receive_done p received client iterator now w)
    unfolding receive_done
    receive_done-IsValid received client iterator now w v here h =
        let inside = get_elem?-lt w.client_array iterator client here in
        let (started, at_clock) =
          get_elem?_total w.client_message_interval iterator (omega (arith, v.clocks)) in
        let clocks = set w.client_message_interval iterator now in
        let w' = record w { client_message_interval = clocks } in
        let v' : IsValid w' =
          set_clocks-IsValid w clocks w.chat_send_str
            (length-set w.client_message_interval iterator now) v in
        rw
          (
            at_ok w.client_message_interval iterator started at_clock,
            store_ok w.client_message_interval iterator now (omega (arith, v.clocks)),
          )
          (elim (Bool-cases (leb (p.as_milliseconds (now - started)) 20)) [
            | inl spam ↦
                rw spam (disconnects-IsValid p sound client iterator disconnect_spam w' v' here)
            | inr calm ↦ rw calm (receive_message-IsValid received client iterator now w' v' here h)
          ])

    receive_as-IsValid :
        (status : AuthStatus) (received : Bytes) (client : Socket) (iterator now : ℕ)
        (w : ServerNetwork)
        → IsValid w
        → get_elem? w.client_array iterator ≡ some client
        → get_elem? w.client_authenticated_array iterator ≡ some status
        → IsSafeFor status w iterator received
        → Returns IsValid (receive_as p status received client iterator now w)
    unfolding receive_as
    receive_as-IsValid done received client iterator now w v here at_status h =
        receive_done-IsValid received client iterator now w v here h
    receive_as-IsValid undone received client iterator now w v here at_status h =
        receive_credentials-IsValid received client iterator w v here h
    receive_as-IsValid key_received received client iterator now w v here at_status
          (text, n, readable, number, taken) =
        receive_key-IsValid p sound received text n client iterator w readable number taken here
          at_status v
    receive_as-IsValid failed received client iterator now w v here at_status h =
        receive_message-IsValid received client iterator now w v here h

    -- `receive` on a well-formed server returns for every packet from any of its clients that is
    -- safe for the client's status, and leaves the server well formed. What is read of the packet
    -- is safe as credentials if the user file can be read and does not hold the user with another
    -- password or with none, or a field is empty, or they do not decrypt; as a key if it is the
    -- text of a number that can be a modulus; as a message if it decrypts or throws but is not
    -- read behind its end, and is a chat line of fewer than 256 bytes as a packet or has at most
    -- 511 spaces as a command.
    pub receive-IsValid :
        (packet : Packet) (client : Socket) (iterator now : ℕ) (w : ServerNetwork)
        → IsValid w
        → get_elem? w.client_array iterator ≡ some client
        → IsSafe packet w iterator
        → Returns IsValid (receive p packet client iterator now w)
    unfolding receive
    receive-IsValid disconnected client iterator now w v here safe =
        disconnects-IsValid p sound client iterator disconnect_leave w v here
    receive-IsValid (got []) client iterator now w v here safe = v
    receive-IsValid (got (x ∷ xs)) client iterator now w v here safe =
        let inside = get_elem?-lt w.client_array iterator client here in
        let (status, at_status) =
          get_elem?_total w.client_authenticated_array iterator (omega (arith, v.auths)) in
        rw (at_ok w.client_authenticated_array iterator status at_status) (
          receive_as-IsValid status (read_raw (x ∷ xs)) client iterator now w v here at_status
            (safe status at_status))
