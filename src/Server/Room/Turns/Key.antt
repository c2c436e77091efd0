-- ===== src/Server/Room/Turns/Key.antt =====
-- The key packet of `receive` in servernetwork.cpp as a turn of a member that was asked for its key.
use open_simp.Prelude.{
  Bool-cases, inl, inr, ℕ, ◌≡◌, some, Bytes, Result, ok, throws, fault, Ensures, Ensures-bind,
  Ensures-mono, get_elem?, get_elem?-lt, length, ◌<◌, store_ok, or_throw,
}
use open_simp.Cryptography.Interface.{IsSound}
use open_simp.Cryptography.{insert_new, Cryptography, push_new_client_key, rsa_encrypt}
use open_simp.Server.{
  Socket, disconnect_kick, key_received, done, Platform, ServerNetwork, server_key,
}
use open_simp.Server.Wire.{send_unencrypted}
use open_simp.Server.Clients.{disconnect_client}
use open_simp.Server.Login.{buffer_text, answer_key, receive_key}
use open_simp.Server.Invariant.{IsValid}
use open_simp.Server.Invariant.Keys.{set_crypt-IsValid}
use open_simp.Cryptography.Keys.{lookup-insert_new_old}
use open_simp.Server.Room.{Turn, leaves, joins}
use open_simp.Server.Room.View.{room, room_of-set_status, get_elem?-room}
use open_simp.Server.Room.Turns.{disconnect_client-leaves}

module _ (p : Platform) (sound : IsSound p.botan) (client : Socket) (iterator now : ℕ)
    (w : ServerNetwork) (here : get_elem? w.client_array iterator ≡ some client)
    (asked : get_elem? w.client_authenticated_array iterator ≡ some key_received) where
  abbrev Turns : ServerNetwork → Type 0
  Turns w' = Turn now iterator (room w) (room w')

  answer_key-Turn :
      (v : IsValid w) (r : Result (Bytes × Cryptography))
      → Ensures Turns (answer_key p r client iterator w)
  unfolding answer_key send_unencrypted
  answer_key-Turn v (ok (sealed, crypt')) =
      let fits : iterator < length w.client_authenticated_array =
        get_elem?-lt w.client_authenticated_array iterator key_received asked in
      let (m, at_m, is_asked) = get_elem?-room w v iterator key_received asked in
      rw (store_ok w.client_authenticated_array iterator done fits) (
        joins m at_m is_asked (
          room_of-set_status w.client_array w.clientid_array w.client_op_array
            w.client_message_interval w.client_authenticated_array iterator done))
  answer_key-Turn v throws =
      Ensures-mono _ Turns (disconnect_client p client iterator disconnect_kick w)
        (λ w' e. leaves e)
        (disconnect_client-leaves p sound client iterator w v here disconnect_kick)
  answer_key-Turn v (fault e) = tt

module _ (p : Platform) (sound : IsSound p.botan) (client : Socket) (iterator now : ℕ)
    (w : ServerNetwork) (v : IsValid w) (here : get_elem? w.client_array iterator ≡ some client)
    (asked : get_elem? w.client_authenticated_array iterator ≡ some key_received) where
  pub receive_key-Turn :
      (received : Bytes)
      → Ensures
          (λ w'. Turn now iterator (room w) (room w'))
          (receive_key p received client iterator w)
  unfolding receive_key push_new_client_key
  receive_key-Turn received = Ensures-bind _ (buffer_text received) _ (λ text _.
      Ensures-bind _ (or_throw (p.botan.read_big_int text)) _ (λ n _.
        let c = record w.crypt { keys = insert_new client.ptr n w.crypt.keys } in
        elim (Bool-cases (p.botan.takes_modulus n)) [
          | inr refused ↦ rw refused tt
          | inl taken ↦ rw taken (
              answer_key-Turn p sound client iterator now (record w { crypt = c }) here asked
                (set_crypt-IsValid w c
                  (λ j x h. lookup-insert_new_old j client.ptr n x w.crypt.keys h) v)
                (rsa_encrypt p.botan client.ptr server_key c))
        ]))
