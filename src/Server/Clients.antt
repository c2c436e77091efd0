-- ===== src/Server/Clients.antt =====
-- Clients that come and go: `connectClients` and `disconnectClient` of
-- src/server/src/servernetwork/servernetwork.cpp.
pub mod Departure
use open_simp.Prelude.{
  ℕ, ◌++◌, ◌==◌, if◌then◌else◌, Bool, true, false, List, [], ◌∷◌, Bytes, codes, Result, ok, fault,
  out_of_range, ◌>>=◌, at, erase,
}
use open_simp.Cryptography.{Cryptography, remove_client_key, get_public_key}
use open_simp.Server.{
  Socket, DisconnectReason, undone, closed, Platform, ServerNetwork, unnamed, soh, name_list,
}
use open_simp.Server.Wire.{is_done, broadcast, send_unencrypted}

unfoldable pub leave_packet : Bytes → List Bytes → Bytes
leave_packet name others = b'2' ∷ soh ∷ (name ++ name_list others)

module _ (p : Platform) where
  -- One round of `connectClients`: a socket that `accept` has filled, at the time `now`. The public
  -- key goes out in decimal with its NUL.
  unfoldable pub connect_client : Socket → ℕ → ServerNetwork → ServerNetwork
  connect_client new_client now w =
      (send_unencrypted p (p.botan.print_big_int (get_public_key p.botan w.crypt) ++ 0 ∷ [])
        new_client
        (record w {
          client_array = w.client_array ++ new_client ∷ [];
          clientid_array = w.clientid_array ++ unnamed ∷ [];
          client_op_array = w.client_op_array ++ false ∷ [];
          client_authenticated_array = w.client_authenticated_array ++ undone ∷ [];
          client_message_interval = w.client_message_interval ++ now ∷ [];
        })).1

  -- The key of a client that finished the handshake is forgotten.
  unfoldable pub forget_key : Bool → Socket → Cryptography → Cryptography
  forget_key is_known client crypt =
      if is_known then remove_client_key p.botan client.ptr crypt else crypt

  unfoldable pub disconnect_client :
      Socket → ℕ → DisconnectReason → ServerNetwork → Result ServerNetwork
  disconnect_client client position reason w = do
    name ← at w.clientid_array position
    others ← erase w.clientid_array position
    (told, w₁) ←
        broadcast p (leave_packet name others) client.address client.port
          (record w { clientid_array = others })
    auth ← at w₁.client_authenticated_array position
    let w₂ = record w₁ { crypt = forget_key (is_done auth) client w₁.crypt }
    clients ← erase w₂.client_array position
    ops ← erase w₂.client_op_array position
    auths ← erase w₂.client_authenticated_array position
    clocks ← erase w₂.client_message_interval position
    ok (record w₂ {
      client_array = clients;
      client_op_array = ops;
      client_authenticated_array = auths;
      client_message_interval = clocks;
      wire = w₂.wire ++ closed client reason ∷ [];
    })
