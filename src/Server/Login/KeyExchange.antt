-- ===== src/Server/Login/KeyExchange.antt =====
-- The key packet of the handshake in `receive` of servernetwork.cpp, for a client on a socket whose
-- address still has a key.
use open_simp.Prelude.{
  ℕ, true, suc, ◌<◌, ◌≡◌, refl, [], ◌∷◌, ◌++◌, length, set, store_ok, some, Bytes, ok,
}
use open_simp.Cryptography.{insert_new, lookup, push_new_client_key, rsa_encrypt}
use open_simp.Server.Wire.{send_unencrypted}
use open_simp.Server.{Socket, transmitted, done, Platform, ServerNetwork, server_key}
use open_simp.Server.Login.{buffer_text, answer_key, receive_key}
use open_simp.Cryptography.Keys.{lookup-insert_new_old}

module _ (p : Platform) (client : Socket) (iterator : ℕ) (w : ServerNetwork) where
  -- Under a socket whose address has a stale key in the map, and where the modulus that the
  -- client sends can be one and the key can be sealed to the stale one, the client's own key is
  -- not taken: the server seals its key to the stale one, sends that, and counts the client as
  -- done.
  pub stale_key_answers :
      (received text sealed : Bytes) (n old : ℕ)
      → iterator < length w.client_authenticated_array
      → lookup client.ptr w.crypt.keys ≡ some old
      → buffer_text received ≡ ok text
      → p.botan.read_big_int text ≡ some n
      → p.botan.takes_modulus n ≡ true
      → p.botan.rsa_seal old w.crypt.draws server_key ≡ some sealed
      → (w' : ServerNetwork) × (receive_key p received client iterator w ≡ ok w')
        × (w'.wire ≡ w.wire ++ transmitted client sealed ∷ [])
        × (w'.client_authenticated_array ≡ set w.client_authenticated_array iterator done)
        × (lookup client.ptr w'.crypt.keys ≡ some old)
  unfolding receive_key push_new_client_key rsa_encrypt answer_key send_unencrypted
  stale_key_answers received text sealed n old inside stale readable number taken made =
      let c = record w.crypt { keys = insert_new client.ptr n w.crypt.keys } in
      let kept = lookup-insert_new_old client.ptr client.ptr n old w.crypt.keys stale in
      (
        record w {
          crypt = record c { draws = suc c.draws };
          wire = w.wire ++ transmitted client sealed ∷ [];
          client_authenticated_array = set w.client_authenticated_array iterator done;
        },
        rw (
          readable,
          number,
          taken,
          kept,
          made,
          store_ok w.client_authenticated_array iterator done inside,
        ),
        refl,
        refl,
        kept,
      )
