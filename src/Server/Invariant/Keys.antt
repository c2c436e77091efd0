-- ===== src/Server/Invariant/Keys.antt =====
-- The two steps of the handshake of servernetwork.cpp that move a client's status.
use open_simp.Prelude.{
  true, ℕ, ◌<◌, ◌≡◌, ◌≢◌, refl, subst, ◌∙◌, ◌⊎◌, ◌++◌, List, [], ◌∷◌, some, Bytes, codes, Result,
  ok, throws, fault, store_ok, length, length-set, get_elem?, set, get_elem?-lt, get_elem?_of_set,
  get_elem?_functional, get_elem?_total, arith, Returns, inl, inr, Option-cases,
}
use open_simp.Cryptography.Interface.{IsSound}
use open_simp.Cryptography.{Cryptography, insert_new, lookup, push_new_client_key, rsa_encrypt}
use open_simp.Cryptography.Keys.{lookup-insert_new_self, lookup-insert_new_old}
use open_simp.Server.{
  Socket, Event, transmitted, disconnect_kick, AuthStatus, key_received, done, Platform,
  ServerNetwork, unnamed, server_key,
}
use open_simp.Server.Wire.{send_unencrypted}
use open_simp.Server.Login.{request_key, answer_key, receive_key, buffer_text}
use open_simp.Server.Invariant.{IsValid}
use open_simp.Server.Invariant.Leaving.{left-IsValid, disconnect_client_lem}

-- Moving a named client to another status; if that is `done`, its key must be there.
pub set_status-IsValid :
    (w : ServerNetwork) (client : Socket) (iterator : ℕ) (status : AuthStatus) (name : Bytes)
    → get_elem? w.client_array iterator ≡ some client
    → get_elem? w.clientid_array iterator ≡ some name
    → name ≢ unnamed
    → (status ≡ done → (k : ℕ) × (lookup client.ptr w.crypt.keys ≡ some k))
    → IsValid w
    → IsValid
        (record w { client_authenticated_array = set w.client_authenticated_array iterator status })
set_status-IsValid w client iterator status name here at_name real key v =
    let inside = get_elem?-lt w.client_array iterator client here in
    let fits : iterator < length w.client_authenticated_array = omega (arith, v.auths) in
    record {
      ids = v.ids;
      ops = v.ops;
      auths = omega (arith, v.auths, length-set w.client_authenticated_array iterator status);
      clocks = v.clocks;
      sockets = v.sockets;
      unique = v.unique;
      legal = v.legal;
      named = λ i a n ha h hn.
          elim (get_elem?_of_set w.client_authenticated_array iterator i status fits ha) [
            | inl (ei, ea) ↦
                (λ e. real (get_elem?_functional w.clientid_array iterator i at_name ei hn ∙ e))
            | inr (other, old) ↦ v.named i a n old h hn
          ];
      keyed = λ i s ha hs.
          elim (get_elem?_of_set w.client_authenticated_array iterator i status fits ha) [
            | inl (ei, ea) ↦
                let (k, found) = key ea in
                let same : client ≡ s = get_elem?_functional w.client_array iterator i here ei hs in
                (k, subst (λ t. lookup t.ptr w.crypt.keys ≡ some k) same found)
            | inr (other, old) ↦ v.keyed i s old hs
          ];
      commands = v.commands;
    }

-- Keys may only be added.
pub set_crypt-IsValid :
    (w : ServerNetwork) (c : Cryptography)
    → ((k x : ℕ) → lookup k w.crypt.keys ≡ some x → lookup k c.keys ≡ some x)
    → IsValid w
    → IsValid (record w { crypt = c })
set_crypt-IsValid w c grows v = record {
  ids = v.ids;
  ops = v.ops;
  auths = v.auths;
  clocks = v.clocks;
  sockets = v.sockets;
  unique = v.unique;
  legal = v.legal;
  named = v.named;
  keyed = λ i s ha hs. let (k, found) = v.keyed i s ha hs in (k, grows s.ptr k found);
  commands = v.commands;
}

-- The vector of clocks may change, if its length does not.
pub set_clocks-IsValid :
    (w : ServerNetwork) (clocks : List ℕ) (line : Bytes)
    → length clocks ≡ length w.client_message_interval
    → IsValid w
    → IsValid (record w { chat_send_str = line; client_message_interval = clocks })
set_clocks-IsValid w clocks line h v = record {
  ids = v.ids;
  ops = v.ops;
  auths = v.auths;
  clocks = h ∙ v.clocks;
  sockets = v.sockets;
  unique = v.unique;
  legal = v.legal;
  named = v.named;
  keyed = v.keyed;
  commands = v.commands;
}

-- Neither the network's record nor the user file is part of the invariant.
pub set_outside-IsValid :
    (w : ServerNetwork) (wire : List Event) (userdata : Bytes)
    → IsValid w
    → IsValid (record w { wire = wire; userdata = userdata })
set_outside-IsValid w wire userdata v = record {
  ids = v.ids;
  ops = v.ops;
  auths = v.auths;
  clocks = v.clocks;
  sockets = v.sockets;
  unique = v.unique;
  legal = v.legal;
  named = v.named;
  keyed = v.keyed;
  commands = v.commands;
}

module _ (p : Platform) (sound : IsSound p.botan) where
  -- `request_key`, after a name was given.
  pub request_key-IsValid :
      (w : ServerNetwork) (client : Socket) (iterator : ℕ) (name : Bytes)
      → get_elem? w.client_array iterator ≡ some client
      → get_elem? w.clientid_array iterator ≡ some name
      → name ≢ unnamed
      → IsValid w
      → Returns
          (λ w'.
            IsValid w'
            × (w'.client_authenticated_array
                ≡ set w.client_authenticated_array iterator key_received)
            × (w'.client_array ≡ w.client_array)
            × (w'.clientid_array ≡ w.clientid_array)
            × (w'.userdata ≡ w.userdata)
            × (w'.crypt ≡ w.crypt))
          (request_key p client iterator w)
  unfolding request_key send_unencrypted
  request_key-IsValid w client iterator name here at_name real v =
      let inside = get_elem?-lt w.client_array iterator client here in
      let fits : iterator < length w.client_authenticated_array = omega (arith, v.auths) in
      rw (store_ok w.client_authenticated_array iterator key_received fits) (
        set_outside-IsValid _ (w.wire ++ transmitted client (codes "spb") ∷ []) w.userdata
            (set_status-IsValid w client iterator key_received name here at_name real (λ e. cc) v),
        refl,
        refl,
        refl,
        refl,
        refl,
      )

  answer_key-IsValid :
      (r : Result (Bytes × Cryptography)) (w : ServerNetwork) (client : Socket) (iterator n : ℕ)
      (name : Bytes)
      → get_elem? w.client_array iterator ≡ some client
      → get_elem? w.clientid_array iterator ≡ some name
      → name ≢ unnamed
      → lookup client.ptr w.crypt.keys ≡ some n
      → Returns (λ x. x.1.keys ≡ w.crypt.keys) r ⊎ (r ≡ throws)
      → IsValid w
      → Returns IsValid (answer_key p r client iterator w)
  unfolding answer_key send_unencrypted
  answer_key-IsValid (ok (sealed, c)) w client iterator n name here at_name real found (inl keys)
        v =
      let inside = get_elem?-lt w.client_array iterator client here in
      let fits : iterator < length w.client_authenticated_array = omega (arith, v.auths) in
      rw (store_ok w.client_authenticated_array iterator done fits) (
        set_outside-IsValid _ (w.wire ++ transmitted client sealed ∷ []) w.userdata (
          set_status-IsValid (record w { crypt = c }) client iterator done name here at_name real
            (λ e. (n, rw keys found)) (set_crypt-IsValid w c (λ k x h. rw keys h) v)))
  answer_key-IsValid (ok (sealed, c)) w client iterator n name here at_name real found (inr e) v =
      cc
  answer_key-IsValid throws w client iterator n name here at_name real found h v =
      let (old, auth, m, a, e) =
        disconnect_client_lem p sound client iterator disconnect_kick w v here in
      rw e (left-IsValid p sound client iterator disconnect_kick w old auth v here)
  answer_key-IsValid (fault e) w client iterator n name here at_name real found (inl h) v = absurd h
  answer_key-IsValid (fault e) w client iterator n name here at_name real found (inr h) v = cc

  rsa_encrypt_outcome :
      (sock : ℕ) (m : Bytes) (c : Cryptography) (n : ℕ)
      → lookup sock c.keys ≡ some n
      → Returns (λ x. x.1.keys ≡ c.keys) (rsa_encrypt p.botan sock m c)
        ⊎ (rsa_encrypt p.botan sock m c ≡ throws)
  unfolding rsa_encrypt
  rsa_encrypt_outcome sock m c n h = elim (Option-cases (p.botan.rsa_seal n c.draws m)) [
    | inl e ↦ inr (rw (h, e))
    | inr (ct, e) ↦ inl (rw (h, e) refl)
  ]

  -- A packet that reads as a number that makes a key moves the client on to `Done` with a key,
  -- or, where the RSA encryption throws, disconnects it; the server stays well formed.
  pub receive_key-IsValid :
      (received text : Bytes) (n : ℕ) (client : Socket) (iterator : ℕ) (w : ServerNetwork)
      → buffer_text received ≡ ok text
      → p.botan.read_big_int text ≡ some n
      → p.botan.takes_modulus n ≡ true
      → get_elem? w.client_array iterator ≡ some client
      → get_elem? w.client_authenticated_array iterator ≡ some key_received
      → IsValid w
      → Returns IsValid (receive_key p received client iterator w)
  unfolding receive_key push_new_client_key
  receive_key-IsValid received text n client iterator w readable number taken here at_status v =
      let inside = get_elem?-lt w.client_array iterator client here in
      let (name, at_name) = get_elem?_total w.clientid_array iterator (omega (arith, v.ids)) in
      let c = record w.crypt { keys = insert_new client.ptr n w.crypt.keys } in
      let (k, found) = lookup-insert_new_self client.ptr n w.crypt.keys in
      rw (readable, number, taken)
        (answer_key-IsValid (rsa_encrypt p.botan client.ptr server_key c) (record w { crypt = c })
          client iterator k name here at_name
          (v.named iterator key_received name at_status (λ e. cc) at_name) found
          (rsa_encrypt_outcome client.ptr server_key c k found)
          (set_crypt-IsValid w c (λ j x h. lookup-insert_new_old j client.ptr n x w.crypt.keys h)
            v))
