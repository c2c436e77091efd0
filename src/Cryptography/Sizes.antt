-- ===== src/Cryptography/Sizes.antt =====
-- How long what `decrypt` of cryptography.cpp opens is, and that a packet of `MAX_RAW_DATA` bytes at
-- most is read whole.
use open_simp.Prelude.{
  ℕ, zero, suc, ◌+◌, ◌-◌, ◌≤◌, ◌≡◌, refl, ap, subst, List, [], ◌∷◌, Option, none, some, Bytes, take,
  length, ok, at, or_throw, Ensures, Ensures-bind, arith,
}
use open_simp.Cryptography.Interface.{Botan, IsSound}
use open_simp.Cryptography.{Decrypted, decoded_key, copy_range, decrypt}

copy_range_size : (ct : Bytes) (from n : ℕ) → Ensures (λ out. length out ≡ n) (copy_range ct from n)
unfolding copy_range
copy_range_size ct from zero = refl
copy_range_size ct from (suc n) = Ensures-bind _ (at ct from) _ (λ x _.
    Ensures-bind _ (copy_range ct (suc from) n) _ (λ rest e.
      ap suc (subst (Ensures (λ out. length out ≡ n)) e (copy_range_size ct (suc from) n))))

pub or_throw-some {ℓ} : {A : Type ℓ} → (o : Option A) (a : A) → or_throw o ≡ ok a → o ≡ some a
or_throw-some none a h = absurd (cc)
or_throw-some (some b) a h = ap some (cc)

module _ (b : Botan) (sound : IsSound b) where
  -- The initialisation vector and the tag are 28 bytes.
  decrypt_size :
      (ct keyhex : Bytes) → Ensures (λ x. length ct ≡ length x.msg + 28) (decrypt b ct keyhex)
  unfolding decrypt
  decrypt_size ct keyhex = Ensures-bind _ (copy_range ct 0 12) _ (λ iv _.
      Ensures-bind _ (copy_range ct 12 (length ct - 12)) _ (λ output e.
        let tried = b.gcm_open (decoded_key (b.hex_decode keyhex)) iv output in
        Ensures-bind (λ x. length ct ≡ length x.msg + 28) (or_throw tried)
          (λ msg. ok (record { iv = iv; msg = msg }))
          (λ msg opened.
            let copied : length output ≡ length ct - 12 =
              subst (Ensures (λ out. length out ≡ length ct - 12)) e
                (copy_range_size ct 12 (length ct - 12)) in
            let grown : length output ≡ length msg + 16 =
              sound.gcm_size _ iv output msg (or_throw-some tried msg opened) in
            omega (arith, copied, grown))))

  take_whole : {A : Type 0} → (n : ℕ) (xs : List A) → length xs ≤ n → take n xs ≡ xs
  take_whole zero [] h = refl
  take_whole zero (x ∷ xs) h = absurd (omega (arith, h))
  take_whole (suc n) [] h = refl
  take_whole (suc n) (x ∷ xs) h = ap (◌∷◌ x) (take_whole n xs (omega (arith, h)))

  pub opened_whole :
      (ct keyhex : Bytes) (x : Decrypted)
      → decrypt b ct keyhex ≡ ok x
      → length x.msg ≤ 4068
      → take 4096 ct ≡ ct
  opened_whole ct keyhex x opened short =
      let size : length ct ≡ length x.msg + 28 =
        subst (Ensures (λ x. length ct ≡ length x.msg + 28)) opened (decrypt_size ct keyhex) in
      take_whole 4096 ct (omega (arith, size, short))
