-- ===== src/Server/Invariant/Leaving.antt =====
-- `disconnectClient` of servernetwork.cpp on a well-formed server.
use open_simp.Prelude.{
  ℕ, ◌≡◌, ◌≢◌, refl, sym, ◌∙◌, ◌++◌, ◌==◌, if◌then◌else◌, Bool, true, false, List, [], ◌∷◌, none,
  some, Bytes, ok, at_ok, erase_ok, get_elem?, remove_at, skip, skip_injective, skip-ne,
  get_elem?_of_remove_at, length-remove_at, get_elem?-lt, get_elem?_total, arith,
}
use open_simp.Cryptography.Interface.{IsSound}
use open_simp.Cryptography.{Cryptography, lookup, erase_key, remove_client_key}
use open_simp.Server.{Socket, DisconnectReason, AuthStatus, closed, Platform, ServerNetwork}
use open_simp.Server.Wire.{is_done}
use open_simp.Server.Wire.Delivery.{posted, recipients, broadcast_lem, keys-drawn_all, drawn_all}
use open_simp.Server.Clients.{leave_packet, forget_key, disconnect_client}
use open_simp.Server.Invariant.{IsValid}

pub lookup-erase_key :
    (k j : ℕ) (m : List (ℕ × ℕ)) → lookup k (erase_key j m) ≡ (if j == k then none else lookup k m)
lookup-erase_key k j [] = ground arith
lookup-erase_key k j ((i, v) ∷ m) = ground (arith, lookup-erase_key k j m)

module _ (p : Platform) where
  -- The server after `disconnectClient` of a client that had a name and a status.
  abbrev pub left :
      Socket → ℕ → DisconnectReason → Bytes → AuthStatus → ServerNetwork → ServerNetwork
  left client position reason name auth w =
      let others = remove_at w.clientid_array position in
      let rs = recipients client.address client.port w.client_array w.client_authenticated_array in
      let told = posted p (leave_packet name others) rs (record w { clientid_array = others }) in
      let w₂ = record told { crypt = forget_key p (is_done auth) client told.crypt } in
      record w₂ {
        client_array = remove_at w₂.client_array position;
        client_op_array = remove_at w₂.client_op_array position;
        client_authenticated_array = remove_at w₂.client_authenticated_array position;
        client_message_interval = remove_at w₂.client_message_interval position;
        wire = w₂.wire ++ closed client reason ∷ [];
      }

  module _ (sound : IsSound p.botan) where
    pub disconnect_client-left :
        (client : Socket) (position : ℕ) (reason : DisconnectReason) (w : ServerNetwork)
        (name : Bytes) (auth : AuthStatus)
        → IsValid w
        → get_elem? w.client_array position ≡ some client
        → get_elem? w.clientid_array position ≡ some name
        → get_elem? w.client_authenticated_array position ≡ some auth
        → disconnect_client p client position reason w
          ≡ ok (left client position reason name auth w)
    unfolding disconnect_client
    disconnect_client-left client position reason w name auth v here n a =
        let inside = get_elem?-lt w.client_array position client here in
        rw (
          at_ok w.clientid_array position name n,
          erase_ok w.clientid_array position (get_elem?-lt w.clientid_array position name n),
          broadcast_lem p sound (leave_packet name (remove_at w.clientid_array position))
              client.address client.port
              (record w { clientid_array = remove_at w.clientid_array position }) v.auths,
          at_ok w.client_authenticated_array position auth a,
          erase_ok w.client_array position inside,
          erase_ok w.client_op_array position (omega (arith, v.ops)),
          erase_ok w.client_authenticated_array position (omega (arith, v.auths)),
          erase_ok w.client_message_interval position (omega (arith, v.clocks)),
        )

    pub disconnect_client_lem :
        (client : Socket) (position : ℕ) (reason : DisconnectReason) (w : ServerNetwork)
        → IsValid w
        → get_elem? w.client_array position ≡ some client
        → (name : Bytes) × (auth : AuthStatus) × (get_elem? w.clientid_array position ≡ some name)
          × (get_elem? w.client_authenticated_array position ≡ some auth)
          × (disconnect_client p client position reason w
              ≡ ok (left client position reason name auth w))
    disconnect_client_lem client position reason w v here =
        let inside = get_elem?-lt w.client_array position client here in
        let (name, n) = get_elem?_total w.clientid_array position (omega (arith, v.ids)) in
        let (auth, a) =
          get_elem?_total w.client_authenticated_array position (omega (arith, v.auths)) in
        (name, auth, n, a, disconnect_client-left client position reason w name auth v here n a)

    lookup-forget_key :
        (is_known : Bool) (client : Socket) (crypt : Cryptography) (k : ℕ)
        → client.ptr ≢ k
        → lookup k (forget_key p is_known client crypt).keys ≡ lookup k crypt.keys
    unfolding forget_key remove_client_key
    lookup-forget_key true client crypt k h =
        ground (arith, lookup-erase_key k client.ptr crypt.keys)
    lookup-forget_key false client crypt k h = refl

    module _ (client : Socket) (position : ℕ) (reason : DisconnectReason) (w : ServerNetwork)
        (name : Bytes) (auth : AuthStatus) (v : IsValid w)
        (here : get_elem? w.client_array position ≡ some client) where
      left_keeps_keys :
          (i k : ℕ) (s : Socket)
          → get_elem? w.client_array (skip position i) ≡ some s
          → lookup s.ptr w.crypt.keys ≡ some k
          → lookup s.ptr (left client position reason name auth w).crypt.keys ≡ some k
      left_keeps_keys i k s at_i found =
          let rs =
            recipients client.address client.port w.client_array w.client_authenticated_array in
          lookup-forget_key (is_done auth) client (drawn_all rs w.crypt) s.ptr (λ same.
            skip-ne position i (sym (v.sockets position (skip position i) client s here at_i same)))
          ∙ rw (keys-drawn_all rs w.crypt) found

      pub left-IsValid : IsValid (left client position reason name auth w)
      left-IsValid =
          let inside = get_elem?-lt w.client_array position client here in
          let shorter = length-remove_at w.client_array position inside in
          record {
            ids = omega (arith, v.ids, shorter, length-remove_at w.clientid_array position);
            ops = omega (arith, v.ops, shorter, length-remove_at w.client_op_array position);
            auths =
                omega
                  (arith, v.auths, shorter, length-remove_at w.client_authenticated_array position);
            clocks =
                omega
                  (arith, v.clocks, shorter, length-remove_at w.client_message_interval position);
            sockets = λ i j s t hs ht same. skip_injective position i j (
                v.sockets (skip position i) (skip position j) s t
                  (get_elem?_of_remove_at w.client_array position i hs)
                  (get_elem?_of_remove_at w.client_array position j ht) same);
            unique = λ i j n hi hj h. skip_injective position i j (
                v.unique (skip position i) (skip position j) n
                  (get_elem?_of_remove_at w.clientid_array position i hi)
                  (get_elem?_of_remove_at w.clientid_array position j hj) h);
            legal = λ i n hi h.
                v.legal (skip position i) n (get_elem?_of_remove_at w.clientid_array position i hi)
                  h;
            named = λ i a n hi h hn.
                v.named (skip position i) a n
                  (get_elem?_of_remove_at w.client_authenticated_array position i hi) h
                  (get_elem?_of_remove_at w.clientid_array position i hn);
            keyed = λ i s hi hs.
                let at_i = get_elem?_of_remove_at w.client_array position i hs in
                let (k, found) =
                  v.keyed (skip position i) s
                    (get_elem?_of_remove_at w.client_authenticated_array position i hi) at_i in
                (k, left_keeps_keys i k s at_i found);
            commands = v.commands;
          }
