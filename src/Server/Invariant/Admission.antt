-- ===== src/Server/Invariant/Admission.antt =====
-- The login of a known user in `receive` of servernetwork.cpp, when it admits.
use open_simp.Prelude.{
  ℕ, ◌≡◌, ap, ◌∙◌, ◌||◌, false, [], some, str_eq, str_eq_refl, inl, inr, Returns, Returns-bind,
  Returns-mono, get_elem?,
}
use open_simp.Cryptography.Interface.{IsSound}
use open_simp.Server.{Socket, password, Platform, ServerNetwork}
use open_simp.Server.Names.{is_refused, nick}
use open_simp.Server.Login.{Credentials, request_key, log_in, authenticate, check_credentials}
use open_simp.Server.Invariant.{IsValid}
use open_simp.Server.Invariant.Naming.{NickOutcome, nick-NickOutcome}
use open_simp.Server.Invariant.Logins.{Admitted, asks_key}

module _ (p : Platform) (sound : IsSound p.botan) (c : Credentials) (client : Socket) (iterator : ℕ)
    (w : ServerNetwork) (v : IsValid w)
    (here : get_elem? w.client_array iterator ≡ some client) where
  -- A known user with the right password, under a name that is free, is admitted.
  log_in_admits :
      is_refused w.clientid_array c.uname ≡ false
      → Returns
          (λ w'.
            IsValid w'
            × Admitted p c iterator w w'
            × (w'.userdata ≡ w.userdata)
            × (w'.crypt.keys ≡ w.crypt.keys))
          (log_in p c client iterator w)
  unfolding log_in
  log_in_admits free =
      Returns-bind (NickOutcome p c.uname iterator w) _ (nick p c.uname client iterator w) _
        (nick-NickOutcome p sound c.uname client iterator w v here)
        (λ r e h. elim h.1 [
          | inl (yes_named, _, a, names, clients, auths, file, keys) ↦ rw yes_named (
              Returns-mono _ _ (request_key p client iterator r.1)
                (λ w' k. (k.0, k.1, k.2 ∙ file, ap (λ x. x.keys) k.3 ∙ keys))
                (asks_key p sound c client iterator w v here r.1 h.0 names clients auths a))
          | inr (not_named, taken, _, _, _, _) ↦ absurd (cc)
        ])

  pub check_credentials_admits :
      (str_eq c.uname [] || str_eq c.passwd []) ≡ false
      → p.load_user w.userdata c.uname ≡ password c.passwd
      → is_refused w.clientid_array c.uname ≡ false
      → Returns
          (λ w'.
            IsValid w'
            × Admitted p c iterator w w'
            × (w'.userdata ≡ w.userdata)
            × (w'.crypt.keys ≡ w.crypt.keys))
          (check_credentials p c client iterator w)
  unfolding check_credentials authenticate
  check_credentials_admits full known free =
      rw (full, known, str_eq_refl c.passwd) (log_in_admits free)
