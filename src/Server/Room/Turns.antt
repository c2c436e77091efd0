-- ===== src/Server/Room/Turns.antt =====
-- `disconnectClient`, `nick`, the login and the key exchange of servernetwork.cpp as turns of a member.
pub mod Key
pub mod Talk
use open_simp.Prelude.{
  ℕ, ◌≡◌, ◌≢◌, refl, ap, sym, ◌∙◌, ◌⊎◌, ◌||◌, ◌∷◌, Bool, true, false, List, [], some, Bytes, Result,
  ok, throws, fault, ◌>>=◌, Ensures, Ensures-bind, Ensures-mono, str_eq, codes, ◌++◌, ◌<◌, length,
  get_elem?, get_elem?-lt, remove_at, set, modify, modify-modify, store_ok, arith, Bool-cases, inl,
  inr, contains,
}
use open_simp.Cryptography.Interface.{IsSound}
use open_simp.Server.{
  Socket, DisconnectReason, disconnect_kick, AuthStatus, undone, key_received, done, UserEntry,
  unreadable, unknown, no_password, password, Platform, ServerNetwork,
}
use open_simp.Server.Wire.Delivery.{posted}
use open_simp.Server.Clients.{disconnect_client}
use open_simp.Cryptography.{rsa_decrypt}
use open_simp.Server.Wire.{send_unencrypted, broadcast_string}
use open_simp.Server.Userdata.{register_user}
use open_simp.Server.Login.{
  Credentials, request_key, log_in, reject, sign_up, authenticate, check_credentials,
  parse_credentials, receive_credentials,
}
use open_simp.Server.Invariant.Sending.{broadcast_string_lem}
use open_simp.Server.Invariant.Keys.{set_outside-IsValid}
use open_simp.Server.Names.{is_refused, nick}
use open_simp.Server.Names.Rules.{is_refused-IsAlias}
use open_simp.Server.Invariant.{IsValid}
use open_simp.Server.Invariant.Sending.{OnlySends}
use open_simp.Server.Invariant.Leaving.{left, disconnect_client_lem}
use open_simp.Server.Invariant.Naming.{renamed, nick_accepts}
use open_simp.Server.Room.{Member, IsFree, Turn, leaves, enters, joins}
use open_simp.Server.Room.View.{
  room_of, room, room_of-remove_at, room_of-set_name, room_of-set_status, names-room,
  get_elem?-room,
}

-- What only sends leaves the room alone.
pub room-OnlySends : {w w' : ServerNetwork} → OnlySends w w' → room w' ≡ room w
room-OnlySends o = rw (o.clients, o.names, o.ops, o.clocks, o.auths)

module _ (p : Platform) (sound : IsSound p.botan) (client : Socket) (iterator : ℕ)
    (w : ServerNetwork) (v : IsValid w)
    (here : get_elem? w.client_array iterator ≡ some client) where
  pub disconnect_client-leaves :
      (reason : DisconnectReason)
      → Ensures
          (λ w'. room w' ≡ remove_at (room w) iterator)
          (disconnect_client p client iterator reason w)
  disconnect_client-leaves reason =
      let (name, auth, n, a, e) = disconnect_client_lem p sound client iterator reason w v here in
      rw e (
        room_of-remove_at w.client_array w.clientid_array w.client_op_array
          w.client_message_interval w.client_authenticated_array iterator)

  -- `nick` removes the client, or gives it a name that is free in the room.
  abbrev pub NickTurn : Bytes → Type 0
  NickTurn name =
      ((w' : ServerNetwork) × (nick p name client iterator w ≡ ok (false, w'))
        × (room w' ≡ remove_at (room w) iterator))
      ⊎ ((nick p name client iterator w ≡ ok (true, renamed p name client iterator w))
          × IsFree name (room w)
          × IsValid (renamed p name client iterator w)
          × (room (renamed p name client iterator w)
              ≡ modify iterator (λ m. record m { name = name }) (room w)))

  pub nick-NickTurn : (name : Bytes) → NickTurn name
  unfolding nick
  nick-NickTurn name = elim (Bool-cases (is_refused w.clientid_array name)) [
    | inl refused ↦
        let (old, auth, n, a, e) =
          disconnect_client_lem p sound client iterator disconnect_kick w v here in
        inl (
          left p client iterator disconnect_kick old auth w,
          rw (refused, e),
          room_of-remove_at w.client_array w.clientid_array w.client_op_array
              w.client_message_interval w.client_authenticated_array iterator,
        )
    | inr accepted ↦
        let (e, valid) = nick_accepts p sound name client iterator w v here accepted in
        let (a, free) = is_refused-IsAlias w.clientid_array name accepted in
        inr (
          e,
          (a, rw (names-room w v) free),
          valid,
          room_of-set_name w.client_array w.clientid_array w.client_op_array
              w.client_message_interval w.client_authenticated_array iterator name,
        )
  ]

  -- The login of a member that has only come.
  module _ (now : ℕ) (fresh : get_elem? w.client_authenticated_array iterator ≡ some undone) where
    abbrev Turns : ServerNetwork → Type 0
    Turns w' = Turn now iterator (room w) (room w')

    kicked :
        (reason : DisconnectReason) → Ensures Turns (disconnect_client p client iterator reason w)
    kicked reason =
        Ensures-mono _ Turns (disconnect_client p client iterator reason w) (λ w' e. leaves e)
          (disconnect_client-leaves reason)

    -- Asking for the key, in a state whose vectors are those after `nick`.
    asks_key :
        (name : Bytes) (w₁ : ServerNetwork)
        → IsFree name (room w)
        → length w₁.client_authenticated_array ≡ length w₁.client_array
        → w₁.client_array ≡ w.client_array
        → room w₁ ≡ modify iterator (λ m. record m { name = name }) (room w)
        → Ensures Turns (request_key p client iterator w₁)
    unfolding request_key send_unencrypted
    asks_key name w₁ free size clients named =
        let inside = get_elem?-lt w.client_array iterator client here in
        let fits : iterator < length w₁.client_authenticated_array =
          omega (arith, ap length clients) in
        let (m, at_m, is_fresh) = get_elem?-room w v iterator undone fresh in
        rw (store_ok w₁.client_authenticated_array iterator key_received fits) (
          enters m name at_m is_fresh free (
            room_of-set_status w₁.client_array w₁.clientid_array w₁.client_op_array
              w₁.client_message_interval w₁.client_authenticated_array iterator key_received
            ∙ ap (modify iterator (λ m. record m { status = key_received })) named
            ∙ modify-modify iterator _ _ (room w)))

    log_in-Turn : (c : Credentials) → Ensures Turns (log_in p c client iterator w)
    unfolding log_in
    log_in-Turn c = elim (nick-NickTurn c.uname) [
      | inl (w', e, gone) ↦ rw e (leaves gone)
      | inr (e, free, valid, named) ↦
          rw e (asks_key c.uname (renamed p c.uname client iterator w) free valid.auths refl named)
    ]

    sign_up-Turn : (c : Credentials) → Ensures Turns (sign_up p c client iterator w)
    unfolding sign_up register_user
    sign_up-Turn c = elim (nick-NickTurn c.uname) [
      | inl (w', e, gone) ↦ rw e (leaves gone)
      | inr (e, free, valid, named) ↦
          let w₁ = register_user p c.uname c.passwd (renamed p c.uname client iterator w) in
          let text = codes "Everybody welcome the new user " ++ c.uname in
          rw
            (
              e,
              broadcast_string_lem p sound text client.address client.port w₁
                  (set_outside-IsValid _ w₁.wire w₁.userdata valid),
            )
            (asks_key c.uname _ free valid.auths refl named)
    ]

    rejected : Ensures Turns (reject p client iterator w)
    unfolding reject
    rejected =
        Ensures-bind Turns (disconnect_client p client iterator disconnect_kick w) _ (λ w' _. tt)

    authenticate-Turn :
        (entry : UserEntry) (c : Credentials)
        → Ensures Turns (authenticate p entry c client iterator w)
    unfolding authenticate
    authenticate-Turn unreadable c = tt
    authenticate-Turn unknown c = sign_up-Turn c
    authenticate-Turn no_password c = rejected
    authenticate-Turn (password stored) c = elim (Bool-cases (str_eq stored c.passwd)) [
      | inl right ↦ rw right (log_in-Turn c)
      | inr wrong ↦ rw wrong rejected
    ]

    check_credentials-Turn :
        (c : Credentials) → Ensures Turns (check_credentials p c client iterator w)
    unfolding check_credentials
    check_credentials-Turn c = elim (Bool-cases (str_eq c.uname [] || str_eq c.passwd [])) [
      | inl empty ↦ rw empty (kicked disconnect_kick)
      | inr full ↦ rw full (authenticate-Turn (p.load_user w.userdata c.uname) c)
    ]

    pub receive_credentials-Turn :
        (received : Bytes) → Ensures Turns (receive_credentials p received client iterator w)
    unfolding receive_credentials
    receive_credentials-Turn received = by_result (rsa_decrypt p.botan received w.crypt)
      where
        by_result :
            (r : Result Bytes)
            → Ensures Turns (elim r [
              | ok text ↦ check_credentials p (parse_credentials text) client iterator w
              | throws ↦ disconnect_client p client iterator disconnect_kick w
              | fault e ↦ fault e
            ])
        by_result (ok text) = check_credentials-Turn (parse_credentials text)
        by_result throws = kicked disconnect_kick
        by_result (fault e) = tt
