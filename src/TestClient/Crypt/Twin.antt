-- ===== src/TestClient/Crypt/Twin.antt =====
-- The test client's copy of cryptography.cpp against the C++ client's.
use open_simp.Prelude.{
  arith, ◌∙◌, ℕ, zero, suc, ◌-◌, ◌≡◌, refl, sym, subst, Bytes, length, Result, ok, throws, fault,
  ◌>>=◌, at, or_throw, ◌++◌, Returns, Returns-mono, bind_agree,
}
use open_simp.Cryptography
use open_simp.Cryptography.Interface.{Botan, IsSound, IsKeyText}
use open_simp.Client.Crypt
use open_simp.Client.Crypt.Agreement.{server-opens, client-opens}
use open_simp.TestClient.Crypt.{IvAndMsg, locked_key, push_bytes}
use open_simp.TestClient.Crypt as Test

-- The C++ client's object with the same fields.
abbrev pub twin : Test.Cryptography → Crypt.Cryptography
twin c = record { kp = c.kp; draws = c.draws; keys = c.keys }

abbrev pub twin_result : Bytes × Test.Cryptography → Bytes × Crypt.Cryptography
twin_result (bytes, c) = (bytes, twin c)

push_bytes-twin : (n : ℕ) (ct : Bytes) (i : ℕ) → push_bytes ct i n ≡ Crypt.push_range ct i n
unfolding push_bytes Crypt.push_range
push_bytes-twin zero ct i = refl
push_bytes-twin (suc n) ct i = rw (push_bytes-twin n ct (suc i))

abbrev pub opened : IvAndMsg → Crypt.Opened
opened x = record { iv = x.iv; msg = x.msg }

-- What holds of each result after a last step holds of the result before it.
Returns-back {ℓ κ} :
    {A : Type ℓ} {B : Type κ} (P : B → Type 0) (f : A → B) (m : Result A)
    → Returns P (m >>= λ a. ok (f a))
    → Returns (λ a. P (f a)) m
Returns-back P f (ok a) h = h
Returns-back P f throws h = absurd h
Returns-back P f (fault e) h = absurd h

module _ (b : Botan) where
  pub encrypt-twin :
      (c : Test.Cryptography) (str keyhex : Bytes)
      → (Test.encrypt b c str keyhex >>= λ r. ok (twin_result r))
        ≡ Crypt.encrypt b (twin c) str keyhex
  unfolding Test.encrypt Crypt.encrypt
  encrypt-twin c str keyhex =
      let key = locked_key (b.hex_decode keyhex) in
      let iv = b.random_vec c.draws b.default_nonce_length in
      bind_agree (or_throw (b.gcm_seal key iv str)) _ _ _ (λ input _.
        bind_agree (or_throw (b.hex_decode (b.hex_encode iv ++ b.hex_encode input))) _ _ _
          (λ ct _. refl))

  pub decrypt-twin :
      (ct keyhex : Bytes)
      → (Test.decrypt b ct keyhex >>= λ x. ok (opened x)) ≡ Crypt.decrypt b ct keyhex
  unfolding Test.decrypt Crypt.decrypt
  decrypt-twin ct keyhex =
      rw (push_bytes-twin 12 ct 0, push_bytes-twin (length ct - 12) ct 12)
        (bind_agree (Crypt.push_range ct 0 12) _ _ _ (λ iv _.
          bind_agree (Crypt.push_range ct 12 (length ct - 12)) _ _ _ (λ output _.
            bind_agree (or_throw (b.gcm_open (locked_key (b.hex_decode keyhex)) iv output)) _ _ _
              (λ msg _. refl))))

  pub rsa_encrypt-twin :
      (iterator : ℕ) (plaintext : Bytes) (c : Test.Cryptography)
      → (Test.rsa_encrypt b iterator plaintext c >>= λ r. ok (twin_result r))
        ≡ Crypt.rsa_encrypt b iterator plaintext (twin c)
  unfolding Test.rsa_encrypt Crypt.rsa_encrypt
  rsa_encrypt-twin iterator plaintext c =
      bind_agree (at c.keys iterator) _ _ _
        (λ n _. bind_agree (or_throw (b.rsa_seal n c.draws plaintext)) _ _ _ (λ ct _. refl))

  -- What the test client encrypts, the server opens.
  pub test-opens :
      (sound : IsSound b) (keyhex m : Bytes)
      → IsKeyText keyhex
      → (c : Test.Cryptography)
      → Returns
          (λ r.
            Cryptography.decrypt b r.0 keyhex
            ≡ ok (record { iv = b.random_vec c.draws b.default_nonce_length; msg = m }))
          (Test.encrypt b c m keyhex)
  test-opens sound keyhex m k c = Returns-back _ twin_result (Test.encrypt b c m keyhex) (
      subst (Returns _) (sym (encrypt-twin c m keyhex)) (
        Returns-mono _ _ (Crypt.encrypt b (twin c) m keyhex) (λ r h. h.0)
          (server-opens b sound keyhex m k (twin c))))

  opened_back :
      (r : Result IvAndMsg) {iv m : Bytes}
      → (r >>= λ x. ok (opened x)) ≡ ok (record { iv = iv; msg = m })
      → r ≡ ok (record { iv = iv; msg = m })
  opened_back (ok x) h = ground arith
  opened_back throws h = cc
  opened_back (fault e) h = cc

  -- What the server encrypts, the test client opens.
  pub opens-server :
      (sound : IsSound b) (keyhex m : Bytes)
      → IsKeyText keyhex
      → (c : Cryptography.Cryptography)
      → Returns
          (λ r.
            Test.decrypt b r.0 keyhex
            ≡ ok (record { iv = b.random_vec c.draws b.default_nonce_length; msg = m }))
          (Cryptography.encrypt b c m keyhex)
  opens-server sound keyhex m k c =
      Returns-mono _ _ (Cryptography.encrypt b c m keyhex)
        (λ r h. opened_back (Test.decrypt b r.0 keyhex) (decrypt-twin r.0 keyhex ∙ h))
        (client-opens b sound keyhex m k c)
