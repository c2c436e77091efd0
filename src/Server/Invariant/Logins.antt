-- ===== src/Server/Invariant/Logins.antt =====
-- The login in `receive` of servernetwork.cpp, for a client that is `Undone`.
use open_simp.Prelude.{
  Result, fault, use_after_free, str_eq_iff, Returns-result, ℕ, ◌<◌, ◌≡◌, ◌≢◌, refl, ap, sym, ◌∙◌,
  ◌⊎◌, ◌++◌, ◌||◌, true, false, [], ◌∷◌, some, Bytes, codes, str_eq, str_eq→eq, length, get_elem?,
  set, get_elem?-lt, get_elem?-set, ==_iff, remove_at, arith, Returns, Returns-mono, Returns-bind,
  subst, Bool-cases, inl, inr, c_str,
}
use open_simp.Cryptography.Interface.{IsSound}
use open_simp.Server.{
  Socket, disconnect_kick, key_received, UserEntry, unreadable, unknown, no_password, password,
  Platform, ServerNetwork, soh,
}
use open_simp.Server.Wire.Delivery.{recipients}
use open_simp.Server.Clients.{disconnect_client}
use open_simp.Server.Names.{nick}
use open_simp.Server.Names.Rules.{alias_ne_unnamed}
use open_simp.Server.Userdata.{prev_file, register_user}
use open_simp.Server.Login.{
  Credentials, request_key, reject, log_in, sign_up, authenticate, check_credentials,
}
use open_simp.Server.Invariant.{IsAlias, IsValid}
use open_simp.Server.Invariant.Sending.{broadcast_string_lem, OnlySends-IsValid, posted-OnlySends}
use open_simp.Server.Invariant.Leaving.{left-IsValid, disconnect_client_lem}
use open_simp.Server.Invariant.Naming.{NickOutcome, nick-NickOutcome}
use open_simp.Server.Invariant.Keys.{request_key-IsValid, set_outside-IsValid}

module _ (p : Platform) where
  -- The client is out, and the user file is as it was.
  abbrev pub Kicked : ℕ → ServerNetwork → ServerNetwork → Type 0
  Kicked iterator w w' =
      (w'.client_array ≡ remove_at w.client_array iterator) × (w'.userdata ≡ w.userdata)

  -- The client is in, under its user name, and is asked for its key.
  abbrev pub Admitted : Credentials → ℕ → ServerNetwork → ServerNetwork → Type 0
  Admitted c iterator w w' =
      (w'.client_array ≡ w.client_array)
      × (w'.clientid_array ≡ set w.clientid_array iterator c.uname)
      × (w'.client_authenticated_array ≡ set w.client_authenticated_array iterator key_received)
      × IsAlias c.uname

  -- The user file grows by the entry of a new user, behind what was read of it.
  abbrev pub registered : Credentials → ServerNetwork → Bytes
  registered c w = prev_file w.userdata ++ c_str (p.emit_user c.uname c.passwd)

  -- What the login comes to: a kick; or admission, with the stored password of a known user, or as
  -- a user that the file did not hold and now does.
  abbrev pub LoginOutcome : Credentials → ℕ → ServerNetwork → ServerNetwork → Type 0
  LoginOutcome c iterator w w' =
      IsValid w'
      × (Kicked iterator w w'
          ⊎ (Admitted c iterator w w'
              × ((p.load_user w.userdata c.uname ≡ password c.passwd) × (w'.userdata ≡ w.userdata)
                  ⊎ (p.load_user w.userdata c.uname ≡ unknown) × (w'.userdata ≡ registered c w))))

  -- The client is kicked, and then its freed socket is read.
  abbrev pub Crashes : Socket → ℕ → ServerNetwork → Result ServerNetwork → Type 0
  Crashes client iterator w r =
      (r ≡ fault use_after_free)
      × Returns (λ w'. IsValid w' × Kicked iterator w w')
          (disconnect_client p client iterator disconnect_kick w)

  -- The file has the user, but not with that password.
  abbrev pub IsDenied : Credentials → UserEntry → Type 0
  IsDenied c unreadable = ⊥
  IsDenied c unknown = ⊥
  IsDenied c no_password = Unit
  IsDenied c (password stored) = stored ≢ c.passwd

  -- The login returns, or it crashes over a denied user.
  abbrev pub LoginEnds : Credentials → Socket → ℕ → ServerNetwork → Result ServerNetwork → Type 0
  LoginEnds c client iterator w r =
      Returns (LoginOutcome c iterator w) r
      ⊎ Crashes client iterator w r × IsDenied c (p.load_user w.userdata c.uname)

  module _ (sound : IsSound p.botan) (c : Credentials) (client : Socket) (iterator : ℕ)
      (w : ServerNetwork) (v : IsValid w)
      (here : get_elem? w.client_array iterator ≡ some client) where
    pub kicks_out :
        Returns
          (λ w'. IsValid w' × Kicked iterator w w')
          (disconnect_client p client iterator disconnect_kick w)
    kicks_out =
        let (old, auth, n, a, e) =
          disconnect_client_lem p sound client iterator disconnect_kick w v here in
        rw e (left-IsValid p sound client iterator disconnect_kick w old auth v here, (refl, refl))

    kicks :
        Returns (LoginOutcome c iterator w) (disconnect_client p client iterator disconnect_kick w)
    kicks =
        Returns-mono _ _ (disconnect_client p client iterator disconnect_kick w)
          (λ w' h. (h.0, inl h.1)) kicks_out

    -- Asking for the key once the name is given, in any state that differs from that one only in
    -- what was sent and in the user file.
    pub asks_key :
        (w₁ : ServerNetwork)
        → IsValid w₁
        → w₁.clientid_array ≡ set w.clientid_array iterator c.uname
        → w₁.client_array ≡ w.client_array
        → w₁.client_authenticated_array ≡ w.client_authenticated_array
        → IsAlias c.uname
        → Returns
            (λ w'.
              IsValid w'
              × Admitted c iterator w w'
              × (w'.userdata ≡ w₁.userdata)
              × (w'.crypt ≡ w₁.crypt))
            (request_key p client iterator w₁)
    asks_key w₁ v₁ names clients auths a =
        let inside = get_elem?-lt w.client_array iterator client here in
        let fits : iterator < length w.clientid_array = omega (arith, v.ids) in
        let at_name : get_elem? w₁.clientid_array iterator ≡ some c.uname = rw names (
          get_elem?-set w.clientid_array iterator iterator c.uname fits
          ∙ rw ((==_iff iterator iterator).1 refl)) in
        Returns-mono _ _ (request_key p client iterator w₁)
          (λ w' h. (
            h.0,
            (h.2 ∙ clients, h.3 ∙ names, h.1 ∙ ap (λ t. set t iterator key_received) auths, a),
            h.4,
            h.5,
          ))
          (request_key-IsValid p sound w₁ client iterator c.uname (rw clients here) at_name
            (alias_ne_unnamed c.uname a) v₁)

    -- The same, for a user that is known or that the file now holds.
    enters :
        (w₁ : ServerNetwork) (file : Bytes)
        → IsValid w₁
        → w₁.clientid_array ≡ set w.clientid_array iterator c.uname
        → w₁.client_array ≡ w.client_array
        → w₁.client_authenticated_array ≡ w.client_authenticated_array
        → w₁.userdata ≡ file
        → IsAlias c.uname
        → ((p.load_user w.userdata c.uname ≡ password c.passwd) × (file ≡ w.userdata)
            ⊎ (p.load_user w.userdata c.uname ≡ unknown) × (file ≡ registered c w))
        → Returns (LoginOutcome c iterator w) (request_key p client iterator w₁)
    enters w₁ file v₁ names clients auths kept a why =
        Returns-mono _ _ (request_key p client iterator w₁)
          (λ w' h. (
            h.0,
            inr (
              h.1,
              subst
                  (λ t.
                    (p.load_user w.userdata c.uname ≡ password c.passwd) × (t ≡ w.userdata)
                    ⊎ (p.load_user w.userdata c.uname ≡ unknown) × (t ≡ registered c w))
                  (sym (h.2 ∙ kept)) why,
            ),
          ))
          (asks_key w₁ v₁ names clients auths a)

    log_in_outcome :
        p.load_user w.userdata c.uname ≡ password c.passwd
        → Returns (LoginOutcome c iterator w) (log_in p c client iterator w)
    unfolding log_in
    log_in_outcome known =
        Returns-bind (NickOutcome p c.uname iterator w) (LoginOutcome c iterator w)
          (nick p c.uname client iterator w) _
          (nick-NickOutcome p sound c.uname client iterator w v here)
          (λ r e h. elim h.1 [
            | inl (yes_named, free, a, names, clients, auths, file, keys) ↦
                rw yes_named
                  (enters r.1 w.userdata h.0 names clients auths file a (inl (known, refl)))
            | inr (not_named, taken, clients, names, auths, file) ↦
                rw not_named (h.0, inl (clients, file))
          ])

    sign_up_outcome :
        p.load_user w.userdata c.uname ≡ unknown
        → Returns (LoginOutcome c iterator w) (sign_up p c client iterator w)
    unfolding sign_up register_user
    sign_up_outcome new =
        Returns-bind (NickOutcome p c.uname iterator w) (LoginOutcome c iterator w)
          (nick p c.uname client iterator w) _
          (nick-NickOutcome p sound c.uname client iterator w v here)
          (λ r e h. elim h.1 [
            | inl (yes_named, free, a, names, clients, auths, file, keys) ↦
                let w₁ = register_user p c.uname c.passwd r.1 in
                let v₁ = set_outside-IsValid r.1 r.1.wire w₁.userdata h.0 in
                let text = codes "Everybody welcome the new user " ++ c.uname in
                rw (yes_named, broadcast_string_lem p sound text client.address client.port w₁ v₁)
                  (enters _ (registered c w)
                    (OnlySends-IsValid _ _
                      (posted-OnlySends p (b'6' ∷ soh ∷ text)
                        (recipients client.address client.port w₁.client_array
                          w₁.client_authenticated_array)
                        w₁)
                      v₁)
                    names clients auths
                    (ap (λ t. prev_file t ++ c_str (p.emit_user c.uname c.passwd)) file) a
                    (inr (new, refl)))
            | inr (not_named, taken, clients, names, auths, file) ↦
                rw not_named (h.0, inl (clients, file))
          ])

    crashes : Crashes client iterator w (reject p client iterator w)
    unfolding reject
    crashes =
        let (w', e, k) =
          Returns-result (λ w'. IsValid w' × Kicked iterator w w')
            (disconnect_client p client iterator disconnect_kick w) kicks_out in
        (rw e refl, kicks_out)

    differ : (a b : Bytes) → str_eq a b ≡ false → a ≢ b
    differ a b h e = ground (arith, str_eq_iff a b)

    authenticate_outcome :
        (entry : UserEntry)
        → p.load_user w.userdata c.uname ≡ entry
        → entry ≢ unreadable
        → LoginEnds c client iterator w (authenticate p entry c client iterator w)
    unfolding authenticate
    authenticate_outcome unreadable e h = absurd (h refl)
    authenticate_outcome unknown e h = inl (sign_up_outcome e)
    authenticate_outcome no_password e h = inr (crashes, subst (IsDenied c) (sym e) tt)
    authenticate_outcome (password stored) e h = elim (Bool-cases (str_eq stored c.passwd)) [
      | inl right ↦
          rw right (inl (log_in_outcome (e ∙ ap password (str_eq→eq stored c.passwd right))))
      | inr wrong ↦
          rw wrong (inr (crashes, subst (IsDenied c) (sym e) (differ stored c.passwd wrong)))
    ]

    -- If the user file can be read, the login returns or crashes. Where it returns, the client is
    -- either kicked, or admitted under its user name with the stored password of that user or as a
    -- new user that the file now holds, and the server stays well formed. It crashes only over a
    -- user whom the file holds with another password or with none, and then by reading the client's
    -- socket once it has kicked the client.
    pub check_credentials-LoginOutcome :
        p.load_user w.userdata c.uname ≢ unreadable
        → LoginEnds c client iterator w (check_credentials p c client iterator w)
    unfolding check_credentials
    check_credentials-LoginOutcome h = elim (Bool-cases (str_eq c.uname [] || str_eq c.passwd [])) [
      | inl empty ↦ rw empty (inl kicks)
      | inr full ↦ rw full (authenticate_outcome (p.load_user w.userdata c.uname) refl h)
    ]

    -- A password other than the stored one never logs in: it gets the client kicked, and, unless a
    -- field was empty, the server then reads the freed socket.
    pub check_credentials_rejects :
        (stored : Bytes)
        → p.load_user w.userdata c.uname ≡ password stored
        → stored ≢ c.passwd
        → (Returns
              (λ w'. IsValid w' × Kicked iterator w w')
              (check_credentials p c client iterator w)
            × ((str_eq c.uname [] || str_eq c.passwd []) ≡ true))
          ⊎ Crashes client iterator w (check_credentials p c client iterator w)
    unfolding check_credentials authenticate
    check_credentials_rejects stored known other =
        let wrong : str_eq stored c.passwd ≡ false = ground (arith, str_eq→eq stored c.passwd) in
        elim (Bool-cases (str_eq c.uname [] || str_eq c.passwd [])) [
          | inl empty ↦ rw empty (inl (kicks_out, refl))
          | inr full ↦ rw (full, known, wrong) (inr crashes)
        ]
