-- ===== src/Client/Crypt/Agreement.antt =====
-- The server's and the clients' copies of cryptography.cpp agree.
use open_simp.Prelude.{
  ℕ, zero, suc, ◌-◌, ◌≡◌, refl, ◌∙◌, [], Bytes, length, Result, ok, throws, fault, ◌>>=◌, Returns,
  Returns-bind, Returns-mono, bind_agree, subst, or_throw, ◌++◌, arith,
}
use open_simp.Cryptography
use open_simp.Cryptography.{copy_range, Decrypted}
use open_simp.Cryptography.Interface.{Botan, IsSound, IsKeyText}
use open_simp.Cryptography.RoundTrip.{decrypt-encrypt}
use open_simp.Client.Crypt
use open_simp.Client.Crypt.{Opened, push_range}

push_range-agrees : (n : ℕ) (ct : Bytes) (from : ℕ) → push_range ct from n ≡ copy_range ct from n
unfolding push_range copy_range
push_range-agrees zero ct from = refl
push_range-agrees (suc n) ct from = rw (push_range-agrees n ct (suc from))

-- The server's view of what the client's `decrypt` returns.
abbrev pub as_decrypted : Result Opened → Result Decrypted
as_decrypted r = r >>= λ x. ok (record { iv = x.iv; msg = x.msg })

-- The client's keys as the server keeps them: none.
abbrev pub as_server : Crypt.Cryptography → Cryptography.Cryptography
as_server c = record { kp = c.kp; draws = c.draws; keys = [] }

opened_of :
    (r : Result Opened) {iv m : Bytes}
    → as_decrypted r ≡ ok (record { iv = iv; msg = m })
    → r ≡ ok (record { iv = iv; msg = m })
opened_of (ok x) h = ground arith
opened_of throws h = cc
opened_of (fault e) h = cc

module _ (b : Botan) where
  pub decrypt-agrees :
      (ct keyhex : Bytes)
      → as_decrypted (Crypt.decrypt b ct keyhex) ≡ Cryptography.decrypt b ct keyhex
  unfolding Crypt.decrypt Cryptography.decrypt
  decrypt-agrees ct keyhex =
      rw (push_range-agrees 12 ct 0, push_range-agrees (length ct - 12) ct 12)
        (bind_agree (copy_range ct 0 12) _ _ _ (λ iv _.
          bind_agree (copy_range ct 12 (length ct - 12)) _ _ _ (λ output _.
            bind_agree (or_throw (b.gcm_open (Crypt.key_or_empty (b.hex_decode keyhex)) iv output))
              _ _ _ (λ msg _. refl))))

  pub encrypt-agrees :
      (c : Crypt.Cryptography) (m keyhex : Bytes)
      → (Cryptography.encrypt b (as_server c) m keyhex >>= λ r.
          ok (r.0, record c { draws = suc c.draws }))
        ≡ Crypt.encrypt b c m keyhex
  unfolding Crypt.encrypt Cryptography.encrypt
  encrypt-agrees c m keyhex =
      bind_agree
        (or_throw (
          b.gcm_seal (Crypt.key_or_empty (b.hex_decode keyhex))
            (b.random_vec c.draws b.default_nonce_length) m))
        _ _ _
        (λ input _.
          bind_agree
            (or_throw (
              b.hex_decode
                (b.hex_encode (b.random_vec c.draws b.default_nonce_length) ++ b.hex_encode input)))
            _ _ _ (λ ct _. refl))

  module _ (sound : IsSound b) (keyhex m : Bytes) (k : IsKeyText keyhex) where
    -- What the client encrypts, the server opens.
    pub server-opens :
        (c : Crypt.Cryptography)
        → Returns
            (λ r.
              (Cryptography.decrypt b r.0 keyhex
                ≡ ok (record { iv = b.random_vec c.draws b.default_nonce_length; msg = m }))
              × (r.1 ≡ record c { draws = suc c.draws }))
            (Crypt.encrypt b c m keyhex)
    server-opens c = subst (Returns _) (encrypt-agrees c m keyhex) (
        Returns-bind _ _ (Cryptography.encrypt b (as_server c) m keyhex) _
          (decrypt-encrypt b sound (as_server c) m keyhex k) (λ r e h. (h.0, refl)))

    -- What the server encrypts, the client opens.
    pub client-opens :
        (c : Cryptography.Cryptography)
        → Returns
            (λ r.
              Crypt.decrypt b r.0 keyhex
              ≡ ok (record { iv = b.random_vec c.draws b.default_nonce_length; msg = m }))
            (Cryptography.encrypt b c m keyhex)
    client-opens c =
        Returns-mono _ _ (Cryptography.encrypt b c m keyhex)
          (λ r h. opened_of (Crypt.decrypt b r.0 keyhex) (decrypt-agrees r.0 keyhex ∙ h.0))
          (decrypt-encrypt b sound c m keyhex k)
