-- ===== src/TestClient/Twin.antt =====
-- The test client's handshake against the C++ client's, in main.cpp and ClientNetwork.cpp.
use open_simp.Prelude.{
  sym, List, Bool, if◌then◌else◌, true, false, at_ok, subst, ℕ, suc, Option, none, ◌≡◌, ◌≢◌, refl,
  ap, ◌∙◌, ◌++◌, [], ◌∷◌, Bytes, Result, ok, throws, fault, ◌>>=◌, some, inl, inr, bind_agree,
  Bool-cases, Option-cases, get_elem?, arith,
}
use open_simp.Cryptography.Interface.{Botan, IsSound}
use open_simp.Client
use open_simp.Client.{ClientNetwork}
use open_simp.Client.Crypt
use open_simp.TestClient.Crypt.{
  Cryptography, push_new_client_key, rsa_encrypt, rsa_decrypt, get_public_key,
}
use open_simp.TestClient.Crypt.Twin as Copies
use open_simp.Client.Handshake.{send_raw_full}
use open_simp.Server.{soh}
use open_simp.TestClient
use open_simp.TestClient.{TestClient, HandshakeStatus}

-- The same stage.
abbrev pub stage : HandshakeStatus → Client.HandshakeStatus
stage HandshakeStatus.hasnt_begun = Client.hasnt_begun
stage HandshakeStatus.received_pub_key = Client.received_pub_key
stage HandshakeStatus.sent_credientials = Client.sent_credientials
stage HandshakeStatus.sent_pub_key = Client.sent_pub_key
stage HandshakeStatus.received_aes_key = Client.received_aes_key

-- The C++ client with the same variables.
abbrev pub twin : TestClient → ClientNetwork
twin t = record {
  is_connected = true;
  crypt = Copies.twin t.crypt;
  aes_key = t.aes_key;
  has_handshook = t.has_handshook;
  server_pubkey = t.server_pubkey;
  status = stage t.status;
  sent = t.sent;
}

abbrev pub twins : Result TestClient → Result ClientNetwork
twins r = r >>= λ t. ok (twin t)

twins_if :
    (over : Bool) (t : TestClient) (r : Result TestClient) (r' : Result ClientNetwork)
    → twins r ≡ r'
    → twins (if over then ok t else r) ≡ (if over then ok (twin t) else r')
twins_if true t r r' h = refl
twins_if false t r r' h = h

-- RSA makes no empty ciphertext: it has the length of the modulus.
abbrev pub SealsFull : Botan → Type 0
SealsFull b = (n draw : ℕ) (m c : Bytes) → b.rsa_seal n draw m ≡ some c → c ≢ []

abbrev sealed_part : Result (Bytes × Cryptography) → Option Bytes
sealed_part (ok r) = some r.0
sealed_part throws = none
sealed_part (fault e) = none

module _ (b : Botan) (sound : IsSound b) (full : SealsFull b) where
  rsa_encrypt-full :
      (i : ℕ) (m : Bytes) (c : Cryptography) (r : Bytes × Cryptography)
      → rsa_encrypt b i m c ≡ ok r
      → r.0 ≢ []
  unfolding rsa_encrypt
  rsa_encrypt-full i m c r h = elim (Option-cases (get_elem? c.keys i)) [
    | inl gone ↦ absurd (ground arith)
    | inr (n, here) ↦ elim (Option-cases (b.rsa_seal n c.draws m)) [
      | inl refused ↦ absurd (ground arith)
      | inr (ct, sealed) ↦
          let made : rsa_encrypt b i m c ≡ ok (ct, record c { draws = suc c.draws }) =
            rw (at_ok c.keys i n here, sealed) in
          let same : some ct ≡ some r.0 = ap sealed_part (subst (λ x. x ≡ ok r) made h) in
          full n c.draws m r.0 (sealed ∙ same)
    ]
  ]

  handshake_as-twins :
      (s : HandshakeStatus) (uname passwd bytes : Bytes) (t : TestClient)
      → twins (TestClient.handshake_as b s uname passwd bytes t)
        ≡ Client.handshake_as b (stage s) uname passwd bytes (twin t)
  unfolding TestClient.handshake_as Client.handshake_as Client.begin_handshake Client.send_key
      Client.take_key Client.buffer_number Crypt.push_new_client_key push_new_client_key
      Crypt.rsa_decrypt rsa_decrypt
  handshake_as-twins HandshakeStatus.hasnt_begun uname passwd bytes t =
      let plain = uname ++ soh ∷ passwd in
      bind_agree (Client.buffer_number b bytes) _ _ _ (λ n _.
        let pushed = record t.crypt { keys = t.crypt.keys ++ n ∷ [] } in
        let m = rsa_encrypt b 0 plain pushed in
        let after : Bytes × Crypt.Cryptography → Result ClientNetwork = (λ r.
          ok (record (Client.send_raw r.0 (record (twin t) { crypt = r.1; server_pubkey = n })) {
            status = Client.sent_credientials;
          })) in
        elim (Bool-cases (b.takes_modulus n)) [
          | inl taken ↦ rw taken (
              bind_agree m _ _ (λ r. after (Copies.twin_result r))
                (λ r e. rw (send_raw_full r.0 _ (rsa_encrypt-full _ _ _ r e)))
              ∙ sym (
                  bind_agree m (λ r. ok (Copies.twin_result r)) after
                    (λ r. after (Copies.twin_result r)) (λ r e. refl))
              ∙ ap (λ r. r >>= after) (Copies.rsa_encrypt-twin b 0 plain pushed))
          | inr refused ↦ rw refused refl
        ])
  handshake_as-twins HandshakeStatus.received_pub_key uname passwd bytes t = refl
  handshake_as-twins HandshakeStatus.sent_credientials uname passwd bytes t = rw (
      send_raw_full (b.print_big_int (get_public_key b t.crypt)) (twin t)
        (sound.big_int_digits (get_public_key b t.crypt)).1)
  handshake_as-twins HandshakeStatus.sent_pub_key uname passwd bytes t =
      bind_agree (rsa_decrypt b bytes t.crypt) _ _ _ (λ v _. refl)
  handshake_as-twins HandshakeStatus.received_aes_key uname passwd bytes t = refl

  handshake-twins :
      (uname passwd bytes : Bytes) (t : TestClient)
      → twins (TestClient.handshake b uname passwd bytes t)
        ≡ Client.handshake b uname passwd bytes (twin t)
  unfolding TestClient.handshake Client.handshake
  handshake-twins uname passwd bytes t = handshake_as-twins t.status uname passwd bytes t

  -- Where RSA makes no empty ciphertext, the test client logs in as the C++ client does: on any
  -- packets from the server, from any state, the loops of both round `handshake` end in the same
  -- way, and in states that agree.
  pub handshake_loop-twins :
      (uname passwd : Bytes) (packets : List Bytes) (t : TestClient)
      → twins (TestClient.handshake_loop b uname passwd packets t)
        ≡ Client.handshake_loop b uname passwd packets (twin t)
  unfolding TestClient.handshake_loop Client.handshake_loop
  handshake_loop-twins uname passwd [] t = refl
  handshake_loop-twins uname passwd (packet ∷ packets) t =
      let m = TestClient.handshake b uname passwd packet t in
      let rest = Client.handshake_loop b uname passwd packets in
      twins_if t.has_handshook t _ _ (
        bind_agree m (TestClient.handshake_loop b uname passwd packets) (λ x. ok (twin x))
          (λ x. rest (twin x)) (λ x e. handshake_loop-twins uname passwd packets x)
        ∙ sym (bind_agree m (λ x. ok (twin x)) rest (λ x. rest (twin x)) (λ x e. refl))
        ∙ ap (λ r. r >>= rest) (handshake-twins uname passwd packet t))
