-- ===== src/Server/Clients/Departure.antt =====
-- What is left of a client after `disconnectClient` of servernetwork.cpp.
use open_simp.Prelude.{
  ℕ, ◌≡◌, refl, ◌++◌, List, [], ◌∷◌, map, some, Bytes, c_str, get_elem?, remove_at, Returns,
}
use open_simp.Cryptography.Interface.{IsSound}
use open_simp.Server.{Socket, DisconnectReason, Event, closed, Platform, ServerNetwork}
use open_simp.Server.Wire.Delivery.{recipients, read_event, packets, read-packets}
use open_simp.Server.Clients.{leave_packet, disconnect_client}
use open_simp.Server.Invariant.{IsValid}
use open_simp.Server.Invariant.Leaving.{left-IsValid, disconnect_client_lem}

module _ (p : Platform) where
  -- The client's entry is gone from each vector, the others are told, and its socket is closed.
  abbrev pub IsGone : Socket → ℕ → DisconnectReason → Bytes → ServerNetwork → ServerNetwork → Type 0
  IsGone client position reason name w w' =
      IsValid w'
      × (w'.client_array ≡ remove_at w.client_array position)
      × (w'.clientid_array ≡ remove_at w.clientid_array position)
      × (w'.client_op_array ≡ remove_at w.client_op_array position)
      × (w'.client_authenticated_array ≡ remove_at w.client_authenticated_array position)
      × (w'.client_message_interval ≡ remove_at w.client_message_interval position)
      × (w'.userdata ≡ w.userdata)
      × (es : List Event) × (w'.wire ≡ (w.wire ++ es) ++ closed client reason ∷ [])
      × (map (read_event p) es
          ≡ map (λ s. (s, some (c_str (leave_packet name (remove_at w.clientid_array position)))))
              (recipients client.address client.port w.client_array w.client_authenticated_array))

  module _ (sound : IsSound p.botan) where
    -- On a well-formed server, disconnecting one of its clients returns: the client's entry leaves
    -- every vector and no other does, the other authenticated clients are sent, in order, the leave
    -- packet with the names that remain, then the socket is closed; the server stays well formed.
    pub disconnect_client-IsGone :
        (client : Socket) (position : ℕ) (reason : DisconnectReason) (w : ServerNetwork)
        → IsValid w
        → get_elem? w.client_array position ≡ some client
        → (name : Bytes) × (get_elem? w.clientid_array position ≡ some name)
          × Returns
              (IsGone client position reason name w)
              (disconnect_client p client position reason w)
    disconnect_client-IsGone client position reason w v here =
        let (name, auth, n, a, e) = disconnect_client_lem p sound client position reason w v here in
        let rs =
          recipients client.address client.port w.client_array w.client_authenticated_array in
        let packet = leave_packet name (remove_at w.clientid_array position) in
        (
          name,
          n,
          rw e (
            left-IsValid p sound client position reason w name auth v here,
            refl,
            refl,
            refl,
            refl,
            refl,
            refl,
            packets p packet rs w.crypt,
            refl,
            read-packets p sound packet rs w.crypt,
          ),
        )
