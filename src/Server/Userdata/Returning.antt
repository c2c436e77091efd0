-- ===== src/Server/Userdata/Returning.antt =====
-- A user that the login has registered comes back: the login of `receive` with `registerUser`, in
-- servernetwork.cpp.
use open_simp.Prelude.{
  ℕ, ◌≡◌, ◌≢◌, ◌⊎◌, str_eq→eq, all, true, sym, ap, ◌∙◌, ◌||◌, false, List, [], ◌∷◌, some, Bytes,
  str_eq, str_eq_refl, Bool-cases, inl, inr, ok, Returns, Returns-mono, subst, length, get_elem?,
  get_elem?-lt, remove_at, length-remove_at, arith,
}
use open_simp.Cryptography.Interface.{IsSound}
use open_simp.Server.{
  Socket, unknown, unreadable, password, disconnect_kick, Platform, ServerNetwork,
}
use open_simp.Server.Clients.{disconnect_client}
use open_simp.Server.Names.{is_refused}
use open_simp.Server.Login.{Credentials, check_credentials}
use open_simp.Server.Invariant.{IsAlias, IsValid}
use open_simp.Server.Invariant.Logins.{
  Kicked, Admitted, Crashes, IsDenied, LoginOutcome, registered, kicks_out,
  check_credentials-LoginOutcome, check_credentials_rejects,
}
use open_simp.Server.Invariant.Admission.{check_credentials_admits}
use open_simp.Server.Userdata.Users.{
  is_plain, entry, IsUsers, users_file, IsUserStore, register_user-users_file,
}

module _ (p : Platform) (sound : IsSound p.botan) (c : Credentials) (client : Socket) (iterator : ℕ)
    (w : ServerNetwork) (v : IsValid w)
    (here : get_elem? w.client_array iterator ≡ some client) where
  lost_a_client : (w' : ServerNetwork) → w'.client_array ≡ w.client_array → ¬ Kicked p iterator w w'
  lost_a_client w' same kicked =
      let inside = get_elem?-lt w.client_array iterator client here in
      let gone = length-remove_at w.client_array iterator inside in
      let still : length w.client_array ≡ length (remove_at w.client_array iterator) =
        ap length (sym same ∙ kicked.0) in
      omega arith

  -- A new user that the login has not kicked is in the file from then on.
  signs_up :
      (w' : ServerNetwork)
      → p.load_user w.userdata c.uname ≡ unknown
      → check_credentials p c client iterator w ≡ ok w'
      → w'.client_array ≡ w.client_array
      → ((str_eq c.uname [] || str_eq c.passwd []) ≡ false)
        × IsAlias c.uname
        × (w'.userdata ≡ registered p c w)
  unfolding check_credentials
  signs_up w' new e same = elim (Bool-cases (str_eq c.uname [] || str_eq c.passwd [])) [
    | inl empty ↦
        let out : check_credentials p c client iterator w
            ≡ disconnect_client p client iterator disconnect_kick w =
          rw empty in
        let outcome =
          subst (Returns (λ u. IsValid u × Kicked p iterator w u)) (sym out ∙ e)
            (kicks_out p sound c client iterator w v here) in
        absurd (lost_a_client w' same outcome.1)
    | inr full ↦
        let readable : p.load_user w.userdata c.uname ≢ unreadable = (λ broken. ground (arith)) in
        let outcome : LoginOutcome p c iterator w w' =
          elim (check_credentials-LoginOutcome p sound c client iterator w v here readable) [
            | inl returned ↦ subst (Returns (LoginOutcome p c iterator w)) e returned
            | inr crashed ↦ absurd (subst (IsDenied p c) new crashed.1)
          ] in
        elim outcome.1 [
          | inl kicked ↦ absurd (lost_a_client w' same kicked)
          | inr (admitted, inl (known, _)) ↦ absurd (cc)
          | inr (admitted, inr (_, grown)) ↦ (full, admitted.3, grown)
        ]
  ]

module _ (p : Platform) (sound : IsSound p.botan) (store : IsUserStore p)
    (users : List (Bytes × Bytes)) (c : Credentials) (w w' u : ServerNetwork)
    (first second : Socket) (i j : ℕ) where
  -- Over a file that the server has written, a new user with a password of printable ASCII that the
  -- login has not kicked is from then on in the file, in front of the others: on any well-formed
  -- server with that file, a client that sends the same credentials is admitted if the name is free,
  -- and the file stays as it is; one that sends the name with another password is not: it is kicked,
  -- and unless that password is empty the server then crashes on reading the freed socket.
  pub new_user_comes_back :
      (other : Bytes)
      → IsUsers users
      → w.userdata ≡ users_file p users
      → entry users c.uname ≡ unknown
      → all is_plain c.passwd ≡ true
      → IsValid w
      → get_elem? w.client_array i ≡ some first
      → check_credentials p c first i w ≡ ok w'
      → w'.client_array ≡ w.client_array
      → IsValid u
      → u.userdata ≡ w'.userdata
      → get_elem? u.client_array j ≡ some second
      → is_refused u.clientid_array c.uname ≡ false
      → other ≢ c.passwd
      → (u.userdata ≡ users_file p ((c.uname, c.passwd) ∷ users))
        × Returns
            (λ u'. IsValid u' × Admitted p c j u u' × (u'.userdata ≡ u.userdata))
            (check_credentials p c second j u)
        × ((Returns
                (λ u'. IsValid u' × Kicked p j u u')
                (check_credentials p (record c { passwd = other }) second j u)
              × (other ≡ []))
            ⊎ Crashes p second j u (check_credentials p (record c { passwd = other }) second j u))
  new_user_comes_back other good file new plain v here e stays v₂ kept there free wrong =
      let (full, a, grown) =
        signs_up p sound c first i w v here w' (rw file (store.loads users c.uname good ∙ new)) e
          stays in
      let written : u.userdata ≡ users_file p ((c.uname, c.passwd) ∷ users) =
        kept
        ∙ grown
        ∙ rw file (register_user-users_file p store users c.uname c.passwd good a plain) in
      let known : p.load_user u.userdata c.uname ≡ password c.passwd = rw (
        written,
        store.loads ((c.uname, c.passwd) ∷ users) c.uname (a, plain, new, good),
        str_eq_refl c.uname,
      ) in
      (
        written,
        Returns-mono _ _ (check_credentials p c second j u) (λ u' h. (h.0, h.1, h.2))
            (check_credentials_admits p sound c second j u v₂ there full known free),
        elim (check_credentials_rejects p sound (record c { passwd = other }) second j u v₂ there
            c.passwd known (λ q. wrong (sym q))) [
              | inl (out, empty) ↦ inl (out, str_eq→eq other [] (ground (arith, full, empty)))
              | inr crashed ↦ inr crashed
            ],
      )
