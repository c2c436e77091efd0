-- ===== src/Cryptography/RoundTrip.antt =====
-- What `encrypt` produces, `decrypt` gives back.
use open_simp.Prelude.{
  ℕ, zero, suc, ◌+◌, ◌-◌, ◌≤◌, ◌<◌, ◌≡◌, refl, subst, append_assoc, ◌∙◌, [], ◌∷◌, ◌++◌, Bytes,
  length, length-append, ok, fault, out_of_range, at, arith, Returns, append-nil,
}
use native.Mathlib.Decide.{dec_lt}
use open_simp.Cryptography.Interface.{Botan, IsSound, IsKeyText}
use open_simp.Cryptography.{Cryptography, copy_range, encrypt, decrypt}

at-append : (a : Bytes) (x : ℕ) (rest : Bytes) (i : ℕ) → i ≡ length a → at (a ++ x ∷ rest) i ≡ ok x
at-append [] x rest i e = rw e
at-append (y ∷ a) x rest zero e = absurd (omega arith)
at-append (y ∷ a) x rest (suc i) e = at-append a x rest i (omega arith)

-- Copying the stretch `m` of a text.
pub copy_range-append :
    (m a rest : Bytes) (from n : ℕ)
    → from ≡ length a
    → n ≡ length m
    → copy_range (a ++ (m ++ rest)) from n ≡ ok m
unfolding copy_range
copy_range-append [] a rest from zero e k = refl
copy_range-append [] a rest from (suc n) e k = absurd (omega arith)
copy_range-append (x ∷ m) a rest from zero e k = absurd (omega arith)
copy_range-append (x ∷ m) a rest from (suc n) e k =
    let further =
      subst (λ t. copy_range t (suc from) n ≡ ok m) (append_assoc a (x ∷ []) (m ++ rest))
        (copy_range-append m (a ++ x ∷ []) rest (suc from) n
          (omega (arith, length-append a (x ∷ []))) (omega arith)) in
    rw (at-append a x (m ++ rest) from e, further)

at_past : (ct : Bytes) (i : ℕ) → length ct ≤ i → at ct i ≡ fault out_of_range
at_past [] i h = refl
at_past (x ∷ ct) zero h = absurd (omega arith)
at_past (x ∷ ct) (suc i) h = at_past ct i (omega arith)

at_inside : (ct : Bytes) (i : ℕ) → i < length ct → (x : ℕ) × (at ct i ≡ ok x)
at_inside [] i h = absurd (omega arith)
at_inside (x ∷ ct) zero h = (x, refl)
at_inside (x ∷ ct) (suc i) h = at_inside ct i (omega arith)

-- The loop reads behind the end of a text that is too short.
copy_range_past :
    (n : ℕ) (ct : Bytes) (from : ℕ)
    → from ≤ length ct
    → length ct < from + n
    → copy_range ct from n ≡ fault out_of_range
unfolding copy_range
copy_range_past zero ct from l h = absurd (omega arith)
copy_range_past (suc n) ct from l h = elim (dec_lt from (length ct)) [
  | yes p ↦
      let (x, e) = at_inside ct from p in rw (e, copy_range_past n ct (suc from) p (omega arith))
  | no p ↦ rw (at_past ct from (omega arith))
]

-- Both loops of `decrypt` over a nonce of twelve bytes and a text.
copy_nonce : (iv ct : Bytes) → length iv ≡ 12 → copy_range (iv ++ ct) 0 12 ≡ ok iv
copy_nonce iv ct h = copy_range-append iv [] ct 0 12 refl (omega arith)

copy_text :
    (iv ct : Bytes) → length iv ≡ 12 → copy_range (iv ++ ct) 12 (length (iv ++ ct) - 12) ≡ ok ct
copy_text iv ct h =
    subst (λ t. copy_range (iv ++ t) 12 (length (iv ++ ct) - 12) ≡ ok ct) (append-nil ct)
      (copy_range-append ct iv [] 12 (length (iv ++ ct) - 12) (omega arith)
        (omega (arith, length-append iv ct)))

module _ (b : Botan) (sound : IsSound b) (c : Cryptography) (m keyhex : Bytes) where
  -- Under a key of 64 hexadecimal digits `encrypt` returns for every text, with the nonce drawn in
  -- front, and counts the draw; `decrypt` under that key then gives the nonce and the text back.
  pub decrypt-encrypt :
      IsKeyText keyhex
      → Returns
          (λ r.
            (decrypt b r.0 keyhex
              ≡ ok (record { iv = b.random_vec c.draws b.default_nonce_length; msg = m }))
            × (r.1 ≡ record c { draws = suc c.draws }))
          (encrypt b c m keyhex)
  unfolding encrypt decrypt
  decrypt-encrypt k =
      let (key, decoded, size) = sound.hex_digits keyhex 32 k.digits k.size in
      let iv = b.random_vec c.draws b.default_nonce_length in
      let drawn : length iv ≡ 12 =
        sound.random_length c.draws b.default_nonce_length ∙ sound.nonce in
      let (ct, sealed) = sound.gcm_total key iv m size drawn in
      rw (decoded, sealed, sound.hex_back iv ct)
        (
          rw (copy_nonce iv ct drawn, copy_text iv ct drawn, sound.gcm_back key iv m ct sealed)
              refl,
          refl,
        )

-- A message of fewer than twelve bytes makes `decrypt` read behind its end.
pub decrypt_short :
    (b : Botan) (ct keyhex : Bytes) → length ct < 12 → decrypt b ct keyhex ≡ fault out_of_range
unfolding decrypt
decrypt_short b ct keyhex h = rw (copy_range_past 12 ct 0 (omega arith) h)
