-- ===== src/Client/Session/Login.antt =====
-- The login of ClientNetwork.cpp at the server, packet for packet, and the state that it ends in.
use open_simp.Prelude.{
  ℕ, ◌≤◌, ◌<◌, ◌≡◌, ◌≢◌, refl, ap, sym, ◌∙◌, subst, ◌++◌, true, false, [], ◌∷◌, none, some, Bytes,
  codes, has, length, get_elem?, get_elem?-lt, set, length-set, ok, Returns, Returns-result,
  Ensures, Ensures-bind, arith,
}
use open_simp.Cryptography.Interface.{Botan, IsSound}
use open_simp.Cryptography.{get_public_key, lookup}
use open_simp.Server.{
  Socket, undone, key_received, done, password, transmitted, Platform, ServerNetwork, soh,
  server_key,
}
use open_simp.Server.Names.{is_refused}
use open_simp.Server.Names.Rules.{alias_lacks, soh_no_word, is_refused-IsAlias}
use open_simp.Server.Login.{Credentials, check_credentials, receive_credentials, receive_key}
use open_simp.Server.Invariant.{IsValid}
use open_simp.Server.Invariant.Logins.{Admitted}
use open_simp.Server.Invariant.Admission.{check_credentials_admits}
use open_simp.Client.Crypt
use open_simp.Client.{
  hasnt_begun, received_pub_key, sent_credientials, sent_pub_key, received_aes_key, HandshakeStatus,
  ClientNetwork, send_raw, buffer_number, begin_handshake, send_key, take_key, handshake_as,
  handshake,
}
use open_simp.Client.Handshake.{credentials_arrive, key_arrives}
use open_simp.Client.Conversation.{Talker}
use open_simp.Client.Session.{full_credentials}
use open_simp.Client.Session.Entry.{Admitted-Talker}

send_raw_connected :
    (bytes : Bytes) (c : ClientNetwork) → (send_raw bytes c).is_connected ≡ c.is_connected
unfolding send_raw
send_raw_connected [] c = refl
send_raw_connected (x ∷ bytes) c = refl

module _ (b : Botan) (uname passwd bytes : Bytes) (c : ClientNetwork) where
  abbrev Stays : ClientNetwork → Type 0
  Stays c' = c'.is_connected ≡ c.is_connected

  handshake_as-Stays : (s : HandshakeStatus) → Ensures Stays (handshake_as b s uname passwd bytes c)
  unfolding handshake_as begin_handshake send_key take_key
  handshake_as-Stays hasnt_begun = Ensures-bind Stays (buffer_number b bytes) _ (λ n _.
      Ensures-bind Stays (Crypt.push_new_client_key b n c.crypt) _ (λ pushed _.
        Ensures-bind Stays (Crypt.rsa_encrypt b 0 (uname ++ soh ∷ passwd) pushed) _
          (λ r _. send_raw_connected r.0 (record c { crypt = r.1; server_pubkey = n }))))
  handshake_as-Stays received_pub_key = refl
  handshake_as-Stays sent_credientials = send_raw_connected _ c
  handshake_as-Stays sent_pub_key =
      Ensures-bind Stays (Crypt.rsa_decrypt b bytes c.crypt) _ (λ v _. refl)
  handshake_as-Stays received_aes_key = refl

  handshake-Stays : Ensures Stays (handshake b uname passwd bytes c)
  unfolding handshake
  handshake-Stays = handshake_as-Stays c.status

  -- A round of the handshake leaves the connection as it is.
  stays :
      (c' : ClientNetwork)
      → handshake b uname passwd bytes c ≡ ok c'
      → c'.is_connected ≡ c.is_connected
  stays c' e = subst (Ensures Stays) e handshake-Stays

-- The client and the server go through the login, each answering the other's packet.
pub record LogsIn (p : Platform) (uname passwd : Bytes) (client : Socket) (i : ℕ)
    (c : ClientNetwork) (w : ServerNetwork) (c₃ : ClientNetwork) (w₂ : ServerNetwork) : Type 0 where
  pub c₁ : ClientNetwork
  pub w₁ : ServerNetwork
  pub c₂ : ClientNetwork
  pub ct : Bytes
  pub text : Bytes
  pub sealed : Bytes
  pub greeted :
      handshake p.botan uname passwd
        (p.botan.print_big_int (get_public_key p.botan w.crypt) ++ 0 ∷ [])
        c
      ≡ ok c₁
  pub credentials_sent : c₁.sent ≡ c.sent ++ ct ∷ []
  pub admitted : receive_credentials p ct client i w ≡ ok w₁
  pub asked : handshake p.botan uname passwd (codes "spb") c₁ ≡ ok c₂
  pub key_sent : c₂.sent ≡ c₁.sent ++ text ∷ []
  pub key_taken : receive_key p text client i w₁ ≡ ok w₂
  pub answered : w₂.wire ≡ w₁.wire ++ transmitted client sealed ∷ []
  pub finished : handshake p.botan uname passwd sealed c₂ ≡ ok c₃

module _ (p : Platform) (sound : IsSound p.botan) (uname passwd : Bytes) (client : Socket)
    (i started : ℕ) (c : ClientNetwork) (w : ServerNetwork) where
  abbrev HasKey : ClientNetwork → Type 0
  HasKey c₃ = (c₃.aes_key ≡ server_key) × (c₃.has_handshook ≡ true)

  -- What the packets of the login come to, one by one.
  abbrev Begun : ClientNetwork → Type 0
  Begun c₁ =
      (c₁.status ≡ sent_credientials)
      × (c₁.crypt.kp ≡ c.crypt.kp)
      × ((ct : Bytes) × (c₁.sent ≡ c.sent ++ ct ∷ [])
          × (receive_credentials p ct client i w
              ≡ check_credentials p (record { uname = uname; passwd = passwd }) client i w))

  abbrev LetIn : ServerNetwork → Type 0
  LetIn w₁ =
      IsValid w₁
      × Admitted p (record { uname = uname; passwd = passwd }) i w w₁
      × (w₁.userdata ≡ w.userdata)
      × (w₁.crypt.keys ≡ w.crypt.keys)

  abbrev Answered : ServerNetwork → ClientNetwork → ServerNetwork → Type 0
  Answered w₁ c₂ w₂ =
      (sealed : Bytes) × (w₂.wire ≡ w₁.wire ++ transmitted client sealed ∷ [])
      × (w₂.client_authenticated_array ≡ set w₁.client_authenticated_array i done)
      × Returns HasKey (handshake p.botan uname passwd sealed c₂)

  abbrev Keyed : ServerNetwork → ClientNetwork → ClientNetwork → Type 0
  Keyed w₁ c₁ c₂ =
      (text : Bytes) × (c₂.sent ≡ c₁.sent ++ text ∷ [])
      × Returns (Answered w₁ c₂) (receive_key p text client i w₁)

  pub logs_in :
      (v : IsValid w)
      → get_elem? w.client_array i ≡ some client
      → get_elem? w.client_authenticated_array i ≡ some undone
      → get_elem? w.client_message_interval i ≡ some started
      → lookup client.ptr w.crypt.keys ≡ none
      → is_refused w.clientid_array uname ≡ false
      → has soh passwd ≡ false
      → passwd ≢ []
      → length passwd ≤ 484
      → p.load_user w.userdata uname ≡ password passwd
      → c.status ≡ hasnt_begun
      → c.crypt.keys ≡ []
      → length (p.botan.print_big_int (Crypt.get_public_key p.botan c.crypt)) < 4096
      → (c₃ : ClientNetwork) × (w₂ : ServerNetwork) × LogsIn p uname passwd client i c w c₃ w₂
        × HasKey c₃
        × (c₃.is_connected ≡ c.is_connected)
        × Talker client i uname started w₂
  logs_in v here is_undone at_clock no_key free clean full short known fresh no_keys digits =
      let a = (is_refused-IsAlias w.clientid_array uname free).0 in
      let greeting = p.botan.print_big_int (get_public_key p.botan w.crypt) ++ 0 ∷ [] in
      let credentials : Credentials = record { uname = uname; passwd = passwd } in
      let (c₁, e₁, (begun, same, (ct, sent, arrives))) =
        Returns-result Begun (handshake p.botan uname passwd greeting c) (
          credentials_arrive p sound uname passwd client i c w fresh no_keys
            (alias_lacks soh uname soh_no_word a) clean (omega (arith, a.long))) in
      let (w₁, e₂, (v₁, admitted, file, keys)) =
        Returns-result LetIn (check_credentials p credentials client i w) (
          check_credentials_admits p sound credentials client i w v here
            (full_credentials uname passwd a full) known free) in
      let inside : i < length w₁.client_authenticated_array = omega (
        arith,
        v.auths,
        get_elem?-lt w.client_array i client here,
        ap length admitted.2,
        length-set w.client_authenticated_array i key_received,
      ) in
      let (c₂, e₃, (text, sent₂, taken)) =
        Returns-result (Keyed w₁ c₁) (handshake p.botan uname passwd (codes "spb") c₁) (
          key_arrives p sound uname passwd client i c₁ w₁ (codes "spb") begun
            (subst (λ k. length (p.botan.print_big_int (p.botan.modulus k)) < 4096) (sym same)
              digits)
            (rw keys no_key) inside) in
      let (w₂, e₄, (sealed, wire, finished, opened)) =
        Returns-result (Answered w₁ c₂) (receive_key p text client i w₁) taken in
      let (c₃, e₅, has_key) =
        Returns-result HasKey (handshake p.botan uname passwd sealed c₂) opened in
      (
        c₃,
        w₂,
        record {
          c₁ = c₁;
          w₁ = w₁;
          c₂ = c₂;
          ct = ct;
          text = text;
          sealed = sealed;
          greeted = e₁;
          credentials_sent = sent;
          admitted = arrives ∙ e₂;
          asked = e₃;
          key_sent = sent₂;
          key_taken = e₄;
          answered = wire;
          finished = e₅;
        },
        has_key,
        stays p.botan uname passwd sealed c₂ c₃ e₅
            ∙ stays p.botan uname passwd (codes "spb") c₁ c₂ e₃
            ∙ stays p.botan uname passwd greeting c c₁ e₁,
        Admitted-Talker p sound client i credentials ct text started w w₁ w₂ v v₁ here is_undone
            at_clock (arrives ∙ e₂) admitted e₄ finished,
      )
