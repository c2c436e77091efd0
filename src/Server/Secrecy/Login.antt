-- ===== src/Server/Secrecy/Login.antt =====
-- The login and the key exchange of `receive` in servernetwork.cpp: what they put on the network.
use open_simp.Prelude.{
  sym, ℕ, ◌⊎◌, ◌≡◌, refl, subst, ◌<◌, ◌||◌, ◌++◌, ◌∷◌, false, true, [], some, Bytes, codes, length,
  Option, none, Result, ok, throws, fault, or_throw, Ensures, Ensures-bind, Option-cases, ap, ◌∙◌,
  suc, get_elem?, get_elem?-lt, store_ok, str_eq, Bool-cases, inl, inr, arith,
}
use open_simp.Cryptography.Interface.{IsSound}
use open_simp.Cryptography.Sizes.{or_throw-some}
use open_simp.Cryptography.{
  insert_new, Cryptography, lookup, push_new_client_key, rsa_decrypt, rsa_encrypt,
}
use open_simp.Cryptography.Keys.{lookup-insert_new_old, lookup-insert_new_fresh}
use open_simp.Server.{
  Socket, Event, transmitted, disconnect_kick, key_received, done, UserEntry, unreadable, unknown,
  no_password, password, Platform, ServerNetwork, server_key, soh,
}
use open_simp.Server.Wire.{send_unencrypted}
use open_simp.Server.Wire.Growth.{Grows, Grows-trans, Grows-one, posted-Grows}
use open_simp.Server.Wire.Delivery.{posted}
use open_simp.Server.Clients.{disconnect_client}
use open_simp.Server.Names.{is_refused, nick}
use open_simp.Server.Userdata.{register_user}
use open_simp.Server.Login.{
  Credentials, buffer_text, request_key, log_in, reject, sign_up, authenticate, check_credentials,
  parse_credentials, receive_credentials, answer_key, receive_key,
}
use open_simp.Server.Invariant.{IsValid}
use open_simp.Server.Invariant.Sending.{broadcast_string_lem}
use open_simp.Server.Invariant.Keys.{set_outside-IsValid, set_crypt-IsValid}
use open_simp.Server.Invariant.Leaving.{left, disconnect_client_lem}
use open_simp.Server.Invariant.Naming.{renamed, nick_accepts}
use open_simp.Server.Secrecy.{
  KeyOf, IsSealedKey, Permits, told, told-Hears, left-Grows, disconnect_client-Grows, renamed-Grows,
}

module _ (p : Platform) (sound : IsSound p.botan) (P : Event → Type 0) (client : Socket)
    (iterator : ℕ) (w : ServerNetwork) (v : IsValid w)
    (here : get_elem? w.client_array iterator ≡ some client)
    (may : Permits p P client w.client_array w.client_authenticated_array) where
  abbrev pub Adds : ServerNetwork → Type 0
  Adds w' = Grows P w.wire w'.wire

  -- `nick` removes the client, or gives it the name; either way only permitted events are added.
  nick_cases :
      (name : Bytes)
      → ((w' : ServerNetwork) × (nick p name client iterator w ≡ ok (false, w')) × Adds w')
        ⊎ ((nick p name client iterator w ≡ ok (true, renamed p name client iterator w))
            × IsValid (renamed p name client iterator w)
            × Adds (renamed p name client iterator w))
  unfolding nick
  nick_cases name = elim (Bool-cases (is_refused w.clientid_array name)) [
    | inl refused ↦
        let (old, auth, n, a, e) =
          disconnect_client_lem p sound client iterator disconnect_kick w v here in
        inl (
          left p client iterator disconnect_kick old auth w,
          rw (refused, e),
          left-Grows p sound P client iterator w v here may disconnect_kick old auth,
        )
    | inr accepted ↦
        let (e, valid) = nick_accepts p sound name client iterator w v here accepted in
        inr (e, valid, renamed-Grows p sound P client iterator w v here may name)
  ]

  pub nick-Grows : (name : Bytes) → Ensures (λ r. Adds r.1) (nick p name client iterator w)
  nick-Grows name = elim (nick_cases name) [ inl (w', e, g) ↦ rw e g | inr (e, valid, g) ↦ rw e g ]

  module _ (asks : P (transmitted client (codes "spb"))) where
    asks_key :
        (w₁ : ServerNetwork)
        → iterator < length w₁.client_authenticated_array
        → Adds w₁
        → Ensures Adds (request_key p client iterator w₁)
    unfolding request_key send_unencrypted
    asks_key w₁ inside g =
        rw (store_ok w₁.client_authenticated_array iterator key_received inside) (
          Grows-trans P w.wire w₁.wire _ g
            (Grows-one P w₁.wire (transmitted client (codes "spb")) asks))

    kicked : Ensures Adds (disconnect_client p client iterator disconnect_kick w)
    kicked = disconnect_client-Grows p sound P client iterator w v here may disconnect_kick

    inside : iterator < length w.client_authenticated_array
    inside = omega (arith, v.auths, get_elem?-lt w.client_array iterator client here)

    log_in-Grows : (c : Credentials) → Ensures Adds (log_in p c client iterator w)
    unfolding log_in
    log_in-Grows c = elim (nick_cases c.uname) [
      | inl (w', e, g) ↦ rw e g
      | inr (e, valid, g) ↦ rw e (asks_key (renamed p c.uname client iterator w) inside g)
    ]

    sign_up-Grows : (c : Credentials) → Ensures Adds (sign_up p c client iterator w)
    unfolding sign_up register_user
    sign_up-Grows c = elim (nick_cases c.uname) [
      | inl (w', e, g) ↦ rw e g
      | inr (e, valid, g) ↦
          let w₁ = register_user p c.uname c.passwd (renamed p c.uname client iterator w) in
          let text = codes "Everybody welcome the new user " ++ c.uname in
          let v₁ = set_outside-IsValid _ w₁.wire w₁.userdata valid in
          let rs = told p sound P client iterator w v here may in
          rw (e, broadcast_string_lem p sound text client.address client.port w₁ v₁)
            (asks_key (posted p (b'6' ∷ soh ∷ text) rs w₁) inside (
              Grows-trans P w.wire w₁.wire _ g (
                posted-Grows p sound P (b'6' ∷ soh ∷ text) rs w₁
                  (told-Hears p sound P client iterator w v here may))))
    ]

    rejected : Ensures Adds (reject p client iterator w)
    unfolding reject
    rejected =
        Ensures-bind Adds (disconnect_client p client iterator disconnect_kick w) _ (λ w' _. tt)

    authenticate-Grows :
        (entry : UserEntry) (c : Credentials)
        → Ensures Adds (authenticate p entry c client iterator w)
    unfolding authenticate
    authenticate-Grows unreadable c = tt
    authenticate-Grows unknown c = sign_up-Grows c
    authenticate-Grows no_password c = rejected
    authenticate-Grows (password stored) c = elim (Bool-cases (str_eq stored c.passwd)) [
      | inl right ↦ rw right (log_in-Grows c)
      | inr wrong ↦ rw wrong rejected
    ]

    check_credentials-Grows :
        (c : Credentials) → Ensures Adds (check_credentials p c client iterator w)
    unfolding check_credentials
    check_credentials-Grows c = elim (Bool-cases (str_eq c.uname [] || str_eq c.passwd [])) [
      | inl empty ↦ rw empty kicked
      | inr full ↦ rw full (authenticate-Grows (p.load_user w.userdata c.uname) c)
    ]

    pub receive_credentials-Grows :
        (received : Bytes) → Ensures Adds (receive_credentials p received client iterator w)
    unfolding receive_credentials
    receive_credentials-Grows received = by_result (rsa_decrypt p.botan received w.crypt)
      where
        by_result :
            (r : Result Bytes)
            → Ensures Adds (elim r [
              | ok text ↦ check_credentials p (parse_credentials text) client iterator w
              | throws ↦ disconnect_client p client iterator disconnect_kick w
              | fault e ↦ fault e
            ])
        by_result (ok text) = check_credentials-Grows (parse_credentials text)
        by_result throws = kicked
        by_result (fault e) = tt

  module _ (K : Bytes → Type 0)
      (hands_over : (bytes : Bytes) → K bytes → P (transmitted client bytes)) where
    -- `answer_key`, at a sealing of the server's key.
    answer_key-Grows :
        (r : Result (Bytes × Cryptography))
        → ((sealed : Bytes) (c : Cryptography) → r ≡ ok (sealed, c) → K sealed)
        → Ensures Adds (answer_key p r client iterator w)
    unfolding answer_key send_unencrypted
    answer_key-Grows (ok (sealed, c)) h =
        let fits : iterator < length w.client_authenticated_array =
          omega (arith, v.auths, get_elem?-lt w.client_array iterator client here) in
        rw (store_ok w.client_authenticated_array iterator done fits)
          (Grows-one P w.wire (transmitted client sealed) (hands_over sealed (h sealed c refl)))
    answer_key-Grows throws h =
        disconnect_client-Grows p sound P client iterator w v here may disconnect_kick
    answer_key-Grows (fault e) h = tt

abbrev sealed_part : Result (Bytes × Cryptography) → Option Bytes
sealed_part (ok r) = some r.0
sealed_part throws = none
sealed_part (fault e) = none

-- What RSA encryption to a socket gives is sealed to the key that the map has for it.
rsa_encrypt_sealed :
    (p : Platform) (sock : ℕ) (c c' : Cryptography) (sealed : Bytes)
    → rsa_encrypt p.botan sock server_key c ≡ ok (sealed, c')
    → (n : ℕ) × (lookup sock c.keys ≡ some n)
      × (p.botan.rsa_seal n c.draws server_key ≡ some sealed)
unfolding rsa_encrypt
rsa_encrypt_sealed p sock c c' sealed h = elim (Option-cases (lookup sock c.keys)) [
  | inl gone ↦ absurd (ground arith)
  | inr (n, found) ↦ elim (Option-cases (p.botan.rsa_seal n c.draws server_key)) [
    | inl refused ↦ absurd (ground arith)
    | inr (ct, made) ↦
        let done_so : rsa_encrypt p.botan sock server_key c
            ≡ ok (ct, record c { draws = suc c.draws }) =
          rw (found, made) in
        let same : some ct ≡ some sealed =
          ap sealed_part (subst (λ x. x ≡ ok (sealed, c')) done_so h) in
        (n, found, made ∙ same)
  ]
]

-- The key in the map once the client's number was inserted.
inserted-KeyOf :
    (p : Platform) (w : ServerNetwork) (client : Socket) (received text : Bytes) (n k : ℕ)
    → buffer_text received ≡ ok text
    → or_throw (p.botan.read_big_int text) ≡ ok n
    → lookup client.ptr (insert_new client.ptr n w.crypt.keys) ≡ some k
    → KeyOf p w client received k
inserted-KeyOf p w client received text n k readable number found =
    elim (Option-cases (lookup client.ptr w.crypt.keys)) [
      | inl none_yet ↦
          let same : some n ≡ some k =
            sym (lookup-insert_new_fresh client.ptr n w.crypt.keys none_yet) ∙ found in
          inr
            (none_yet, (text, readable, or_throw-some (p.botan.read_big_int text) n number ∙ same))
      | inr (old, had) ↦
          let same : some old ≡ some k =
            sym (lookup-insert_new_old client.ptr client.ptr n old w.crypt.keys had) ∙ found in
          inl (had ∙ same)
    ]

module _ (p : Platform) (sound : IsSound p.botan) (P : Event → Type 0) (client : Socket)
    (iterator : ℕ) (w : ServerNetwork) (v : IsValid w)
    (here : get_elem? w.client_array iterator ≡ some client)
    (may : Permits p P client w.client_array w.client_authenticated_array) where
  pub receive_key-Grows :
      (received : Bytes)
      → ((bytes : Bytes) → IsSealedKey p w client received bytes → P (transmitted client bytes))
      → Ensures (λ w'. Grows P w.wire w'.wire) (receive_key p received client iterator w)
  unfolding receive_key push_new_client_key
  receive_key-Grows received hands_over = Ensures-bind _ (buffer_text received) _ (λ text readable.
      Ensures-bind _ (or_throw (p.botan.read_big_int text)) _ (λ n number.
        let c = record w.crypt { keys = insert_new client.ptr n w.crypt.keys } in
        elim (Bool-cases (p.botan.takes_modulus n)) [
          | inr refused ↦ rw refused tt
          | inl taken ↦ rw taken (
              answer_key-Grows p sound P client iterator (record w { crypt = c })
                (set_crypt-IsValid w c
                  (λ j x h. lookup-insert_new_old j client.ptr n x w.crypt.keys h) v)
                here may (IsSealedKey p w client received) hands_over
                (rsa_encrypt p.botan client.ptr server_key c)
                (λ sealed c' e.
                  let (k, found, made) = rsa_encrypt_sealed p client.ptr c c' sealed e in
                  (
                    k,
                    c.draws,
                    inserted-KeyOf p w client received text n k readable number found,
                    made,
                  )))
        ]))
