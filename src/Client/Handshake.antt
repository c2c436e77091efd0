-- ===== src/Client/Handshake.antt =====
-- The handshake between the client and the server: `handshake` of ClientNetwork.cpp with
-- `connectClients` and `receive` of servernetwork.cpp.
use open_simp.Prelude.{
  ℕ, ◌+◌, ◌≤◌, ◌<◌, ◌≡◌, ◌≢◌, refl, ap, ◌++◌, false, true, [], ◌∷◌, Bytes, has, has-append, length,
  length-append, c_str, c_str_of_clean, Result, ok, throws, fault, ◌∙◌, none, some, arith, Returns,
  set, store_ok, lt→ltb,
}
use open_simp.Cryptography.Interface.{Botan, IsSound}
use open_simp.Cryptography.{get_public_key, lookup, push_new_client_key, rsa_encrypt, rsa_decrypt}
use open_simp.Server.Clients.{disconnect_client}
use open_simp.Server.{
  Socket, disconnect_kick, done, transmitted, Platform, ServerNetwork, soh, server_key,
}
use open_simp.Server.Wire.{send_unencrypted}
use open_simp.Server.Login.{
  Credentials, parse_credentials, buffer_text, check_credentials, receive_credentials, answer_key,
  receive_key,
}
use open_simp.Server.Login.Parse.{parse_credentials_join}
use open_simp.Cryptography.Keys.{lookup-insert_new_fresh}
use open_simp.Client.Crypt
use open_simp.Client.{
  hasnt_begun, sent_credientials, ClientNetwork, send_raw, buffer_number, begin_handshake, send_key,
  take_key, handshake_as, handshake,
}

-- Text ended by a NUL is a C string.
c_str_ended : (s : Bytes) → has 0 s ≡ false → c_str (s ++ 0 ∷ []) ≡ s
c_str_ended [] h = refl
c_str_ended (x ∷ s) h = ground (arith, c_str_ended s)

pub send_raw_full :
    (bytes : Bytes) (c : ClientNetwork)
    → bytes ≢ []
    → send_raw bytes c ≡ record c { sent = c.sent ++ bytes ∷ [] }
unfolding send_raw
send_raw_full [] c h = absurd (h refl)
send_raw_full (x ∷ bytes) c h = refl

module _ (b : Botan) (sound : IsSound b) where
  buffer_number_ended : (n : ℕ) → buffer_number b (b.print_big_int n ++ 0 ∷ []) ≡ ok n
  unfolding buffer_number
  buffer_number_ended n =
      let (clean, full) = sound.big_int_digits n in
      let ended : has 0 (b.print_big_int n ++ 0 ∷ []) ≡ true =
        ground (arith, has-append 0 (b.print_big_int n) (0 ∷ [])) in
      rw (ended, c_str_ended (b.print_big_int n) clean, sound.big_int_back n)

receive_credentials_opened :
    (p : Platform) (ct m : Bytes) (x : Credentials) (client : Socket) (iterator : ℕ)
    (w : ServerNetwork)
    → p.botan.rsa_open w.crypt.kp ct ≡ some m
    → parse_credentials m ≡ x
    → receive_credentials p ct client iterator w ≡ check_credentials p x client iterator w
unfolding receive_credentials rsa_decrypt
receive_credentials_opened p ct m x client iterator w opened parsed =
    let plain : rsa_decrypt p.botan ct w.crypt ≡ ok m = rw opened in
    ap
      (λ (r : Result Bytes). elim r [
        | ok text ↦ check_credentials p (parse_credentials text) client iterator w
        | throws ↦ disconnect_client p client iterator disconnect_kick w
        | fault e ↦ fault e
      ])
      plain
    ∙ ap (λ t. check_credentials p t client iterator w) parsed

module _ (p : Platform) (sound : IsSound p.botan) (uname passwd : Bytes) (client : Socket)
    (iterator : ℕ) (c : ClientNetwork) (w : ServerNetwork) where
  -- A client that has not begun answers the packet of `connectClients` with one packet, in which
  -- `receive` finds exactly the user name and the password that were typed, if neither holds a
  -- separator and both have at most 500 bytes together.
  pub credentials_arrive :
      c.status ≡ hasnt_begun
      → c.crypt.keys ≡ []
      → has soh uname ≡ false
      → has soh passwd ≡ false
      → length uname + length passwd ≤ 500
      → Returns
          (λ c'.
            (c'.status ≡ sent_credientials)
            × (c'.crypt.kp ≡ c.crypt.kp)
            × ((ct : Bytes) × (c'.sent ≡ c.sent ++ ct ∷ [])
                × (receive_credentials p ct client iterator w
                    ≡ check_credentials p
                        (record { uname = uname; passwd = passwd })
                        client
                        iterator
                        w)))
          (handshake p.botan uname passwd
            (p.botan.print_big_int (get_public_key p.botan w.crypt) ++ 0 ∷ [])
            c)
  unfolding handshake handshake_as begin_handshake Crypt.push_new_client_key Crypt.rsa_encrypt
      receive_credentials rsa_decrypt
  credentials_arrive fresh no_keys hu hp short =
      let n = p.botan.modulus w.crypt.kp in
      let m = uname ++ soh ∷ passwd in
      let (ct, sealed, full) =
        sound.rsa_total w.crypt.kp c.crypt.draws m
          (omega (arith, length-append uname (soh ∷ passwd))) in
      rw
        (
          fresh,
          buffer_number_ended p.botan sound n,
          sound.modulus_taken w.crypt.kp,
          no_keys,
          sealed,
          send_raw_full ct _ full,
        )
        (
          refl,
          refl,
          (
            ct,
            refl,
            receive_credentials_opened p ct m _ client iterator w
                (sound.rsa_back w.crypt.kp c.crypt.draws m ct sealed)
                (parse_credentials_join uname passwd hu hp),
          ),
        )

  handshake_second :
      (data' : Bytes)
      → c.status ≡ sent_credientials
      → handshake p.botan uname passwd data' c ≡ ok (send_key p.botan c)
  unfolding handshake handshake_as
  handshake_second data' begun = ap (λ t. handshake_as p.botan t uname passwd data' c) begun

  -- A client that has sent its credentials answers any packet with its public key, in fewer than
  -- 4096 digits; if the server has no key under that socket, it answers with one packet and counts
  -- the client as done, and with that packet the client has the server's key.
  pub key_arrives :
      (data' : Bytes)
      → c.status ≡ sent_credientials
      → length (p.botan.print_big_int (Crypt.get_public_key p.botan c.crypt)) < 4096
      → lookup client.ptr w.crypt.keys ≡ none
      → iterator < length w.client_authenticated_array
      → Returns
          (λ c₁.
            (text : Bytes) × (c₁.sent ≡ c.sent ++ text ∷ [])
            × Returns
                (λ w'.
                  (sealed : Bytes) × (w'.wire ≡ w.wire ++ transmitted client sealed ∷ [])
                  × (w'.client_authenticated_array ≡ set w.client_authenticated_array iterator done)
                  × Returns
                      (λ c₂. (c₂.aes_key ≡ server_key) × (c₂.has_handshook ≡ true))
                      (handshake p.botan uname passwd sealed c₁))
                (receive_key p text client iterator w))
          (handshake p.botan uname passwd data' c)
  unfolding handshake handshake_as send_key take_key receive_key buffer_text push_new_client_key
      rsa_encrypt answer_key send_unencrypted rsa_decrypt Crypt.rsa_decrypt
  key_arrives data' begun short fresh inside =
      let n = p.botan.modulus c.crypt.kp in
      let text = p.botan.print_big_int n in
      let (clean, full) = sound.big_int_digits n in
      let (sealed, made, _) = sound.rsa_total c.crypt.kp w.crypt.draws server_key (omega arith) in
      rw (handshake_second data' begun, send_raw_full text c full)
        (
          text,
          refl,
          rw
              (
                clean,
                lt→ltb (length text) 4096 short,
                c_str_of_clean text clean,
                sound.big_int_back n,
                sound.modulus_taken c.crypt.kp,
                lookup-insert_new_fresh client.ptr n w.crypt.keys fresh,
                made,
                store_ok w.client_authenticated_array iterator done inside,
              )
              (
                sealed,
                refl,
                refl,
                rw (sound.rsa_back c.crypt.kp w.crypt.draws server_key sealed made) (refl, refl),
              ),
        )
