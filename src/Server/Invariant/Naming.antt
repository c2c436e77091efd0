-- ===== src/Server/Invariant/Naming.antt =====
-- `nick` of servernetwork.cpp on a well-formed server.
use open_simp.Prelude.{
  ℕ, ◌<◌, ◌≡◌, refl, subst, sym, ◌⊎◌, ◌∙◌, ◌++◌, Bool, true, false, List, ◌∷◌, some, Bytes, ok,
  store_ok, strcpy, c_str_of_clean, length, length-set, get_elem?, set, get_elem?-lt,
  get_elem?_of_set, remove_at, arith, Returns, Bool-cases, inl, inr, lt→ltb, contains,
}
use open_simp.Cryptography.Interface.{IsSound}
use open_simp.Server.{Socket, disconnect_kick, Platform, ServerNetwork, soh, name_list}
use open_simp.Server.Wire.Delivery.{posted, recipients, broadcast_lem, keys-drawn_all}
use open_simp.Server.Names.{is_refused, accept_name, nick}
use open_simp.Server.Names.Rules.{
  is_refused-IsAlias, ne_of_contains, alias_not_blank, alias_lacks, alias_ne_unnamed, nul_no_word,
}
use open_simp.Server.Invariant.{IsAlias, IsValid}
use open_simp.Server.Invariant.Sending.{OnlySends-IsValid, posted-OnlySends}
use open_simp.Server.Invariant.Leaving.{left-IsValid, disconnect_client_lem}

-- Giving a client a legal name that nobody has.
pub set_name-IsValid :
    (w : ServerNetwork) (iterator : ℕ) (name : Bytes)
    → iterator < length w.clientid_array
    → IsAlias name
    → contains w.clientid_array name ≡ false
    → IsValid w
    → IsValid
        (record w { chat_send_str = name; clientid_array = set w.clientid_array iterator name })
set_name-IsValid w iterator name inside legal_name free v = record {
  ids = omega (arith, v.ids, length-set w.clientid_array iterator name);
  ops = v.ops;
  auths = v.auths;
  clocks = v.clocks;
  sockets = v.sockets;
  unique = λ i j n hi hj h. elim (get_elem?_of_set w.clientid_array iterator i name inside hi) [
    | inl (ei, en) ↦ elim (get_elem?_of_set w.clientid_array iterator j name inside hj) [
      | inl (ej, em) ↦ ei ∙ sym ej
      | inr (other, old) ↦ absurd (ne_of_contains w.clientid_array name j n free old (sym en))
    ]
    | inr (other, old) ↦ elim (get_elem?_of_set w.clientid_array iterator j name inside hj) [
      | inl (ej, em) ↦ absurd (ne_of_contains w.clientid_array name i n free old (sym em))
      | inr (another, older) ↦ v.unique i j n old older h
    ]
  ];
  legal = λ i n hi h. elim (get_elem?_of_set w.clientid_array iterator i name inside hi) [
    | inl (ei, en) ↦ subst IsAlias en legal_name
    | inr (other, old) ↦ v.legal i n old h
  ];
  named = λ i a n ha h hn. elim (get_elem?_of_set w.clientid_array iterator i name inside hn) [
    | inl (ei, en) ↦ (λ e. alias_ne_unnamed name legal_name (en ∙ e))
    | inr (other, old) ↦ v.named i a n ha h old
  ];
  keyed = v.keyed;
  commands = v.commands;
}

-- "1", the new name and the names of all, to every authenticated client but this one.
abbrev pub join_packet : Bytes → List Bytes → Bytes
join_packet name ids = b'1' ∷ soh ∷ (name ++ name_list ids)

module _ (p : Platform) where
  abbrev pub renamed : Bytes → Socket → ℕ → ServerNetwork → ServerNetwork
  renamed name client iterator w =
      let ids = set w.clientid_array iterator name in
      posted p (join_packet name ids)
        (recipients client.address client.port w.client_array w.client_authenticated_array)
        (record w { chat_send_str = name; clientid_array = ids })

  -- What `nick` leads to: the client is gone, or it has the name.
  abbrev pub NickOutcome : Bytes → ℕ → ServerNetwork → Bool × ServerNetwork → Type 0
  NickOutcome name iterator w (named, w') =
      IsValid w'
      × ((named ≡ true)
            × (is_refused w.clientid_array name ≡ false)
            × IsAlias name
            × (w'.clientid_array ≡ set w.clientid_array iterator name)
            × (w'.client_array ≡ w.client_array)
            × (w'.client_authenticated_array ≡ w.client_authenticated_array)
            × (w'.userdata ≡ w.userdata)
            × (w'.crypt.keys ≡ w.crypt.keys)
          ⊎ (named ≡ false)
            × (is_refused w.clientid_array name ≡ true)
            × (w'.client_array ≡ remove_at w.client_array iterator)
            × (w'.clientid_array ≡ remove_at w.clientid_array iterator)
            × (w'.client_authenticated_array ≡ remove_at w.client_authenticated_array iterator)
            × (w'.userdata ≡ w.userdata))

  module _ (sound : IsSound p.botan) where
    strcpy_alias : (name : Bytes) → IsAlias name → strcpy 256 name ≡ ok name
    strcpy_alias name a = rw (
      c_str_of_clean name (alias_lacks 0 name nul_no_word a),
      lt→ltb (length name) 256 (omega (arith, a.long)),
    )

    pub accept_name_lem :
        (name : Bytes) (client : Socket) (iterator : ℕ) (w : ServerNetwork)
        → IsValid w
        → iterator < length w.clientid_array
        → IsAlias name
        → accept_name p name client iterator w ≡ ok (true, renamed name client iterator w)
    unfolding accept_name
    accept_name_lem name client iterator w v inside a = rw (
      strcpy_alias name a,
      alias_not_blank name a,
      store_ok w.clientid_array iterator name inside,
      broadcast_lem p sound (join_packet name (set w.clientid_array iterator name)) client.address
          client.port
          (record w { chat_send_str = name; clientid_array = set w.clientid_array iterator name })
          v.auths,
    )

    pub nick_accepts :
        (name : Bytes) (client : Socket) (iterator : ℕ) (w : ServerNetwork)
        → IsValid w
        → get_elem? w.client_array iterator ≡ some client
        → is_refused w.clientid_array name ≡ false
        → (nick p name client iterator w ≡ ok (true, renamed name client iterator w))
          × IsValid (renamed name client iterator w)
    unfolding nick
    nick_accepts name client iterator w v here h =
        let (a, free) = is_refused-IsAlias w.clientid_array name h in
        let inside = get_elem?-lt w.client_array iterator client here in
        let fits : iterator < length w.clientid_array = omega (arith, v.ids) in
        (
          rw (h, accept_name_lem name client iterator w v fits a),
          OnlySends-IsValid _ _
              (posted-OnlySends p (join_packet name (set w.clientid_array iterator name))
                (recipients client.address client.port w.client_array w.client_authenticated_array)
                (record w {
                  chat_send_str = name;
                  clientid_array = set w.clientid_array iterator name;
                }))
              (set_name-IsValid w iterator name fits a free v),
        )

    -- On a well-formed server `nick` returns. It either gives the client the name, which is then
    -- legal and was nobody's, and touches no other client's entry, or, exactly when a guard refuses
    -- the name, disconnects the client; the server stays well formed.
    pub nick-NickOutcome :
        (name : Bytes) (client : Socket) (iterator : ℕ) (w : ServerNetwork)
        → IsValid w
        → get_elem? w.client_array iterator ≡ some client
        → Returns (NickOutcome name iterator w) (nick p name client iterator w)
    unfolding nick
    nick-NickOutcome name client iterator w v here =
        elim (Bool-cases (is_refused w.clientid_array name)) [
          | inl refused ↦
              let (old, auth, n, a, e) =
                disconnect_client_lem p sound client iterator disconnect_kick w v here in
              rw (refused, e)
                (
                  left-IsValid p sound client iterator disconnect_kick w old auth v here,
                  inr (refl, refused, refl, refl, refl, refl),
                )
          | inr accepted ↦
              let (e, valid) = nick_accepts name client iterator w v here accepted in
              let rs =
                recipients client.address client.port w.client_array w.client_authenticated_array in
              rw e (
                valid,
                inl (
                  refl,
                  accepted,
                  (is_refused-IsAlias w.clientid_array name accepted).0,
                  refl,
                  refl,
                  refl,
                  refl,
                  keys-drawn_all rs w.crypt,
                ),
              )
        ]
