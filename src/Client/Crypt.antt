-- ===== src/Client/Crypt.antt =====
-- The clients' wrapper round Botan: src/clients/cpp/src/cryptography.cpp and its header. The copy in
-- util/encrypt-test-client/src is the same text.
pub mod Agreement
use open_simp.Prelude.{
  ℕ, zero, suc, ◌-◌, List, [], ◌∷◌, ◌++◌, Option, none, some, Bytes, length, Result, ok, throws,
  if◌then◌else◌, ◌>>=◌, or_throw, at,
}
use open_simp.Cryptography.Interface.{Botan}

-- `keys` holds the moduli of the public keys in the order in which they were pushed.
pub record Cryptography : Type 0 where
  pub kp : ℕ
  pub draws : ℕ
  pub keys : List ℕ

-- The map that `decrypt` returns.
pub record Opened : Type 0 where
  pub iv : Bytes
  pub msg : Bytes

-- The `try` round `hex_decode_locked`.
abbrev pub key_or_empty : Option Bytes → Bytes
key_or_empty none = []
key_or_empty (some key) = key

-- The loops that push `ct[i]`.
unfoldable pub push_range : Bytes → ℕ → ℕ → Result Bytes
push_range ct from zero = ok []
push_range ct from (suc n) = do x ← at ct from; rest ← push_range ct (suc from) n; ok (x ∷ rest)

module _ (b : Botan) where
  unfoldable pub encrypt : Cryptography → Bytes → Bytes → Result (Bytes × Cryptography)
  encrypt c str keyhex = do
    let key = key_or_empty (b.hex_decode keyhex)
    let iv = b.random_vec c.draws b.default_nonce_length
    input ← or_throw (b.gcm_seal key iv str)
    ct ← or_throw (b.hex_decode (b.hex_encode iv ++ b.hex_encode input))
    ok (ct, record c { draws = suc c.draws })

  unfoldable pub decrypt : Bytes → Bytes → Result Opened
  unfolding push_range
  decrypt ct keyhex = do
    let key = key_or_empty (b.hex_decode keyhex)
    iv ← push_range ct 0 12
    output ← push_range ct 12 (length ct - 12)
    msg ← or_throw (b.gcm_open key iv output)
    ok (record { iv = iv; msg = msg })

  abbrev pub get_public_key : Cryptography → ℕ
  get_public_key c = b.modulus c.kp

  -- The overload that takes a `BigInt`, and the one that takes hexadecimal text. Making the key may
  -- throw.
  unfoldable pub push_new_client_key : ℕ → Cryptography → Result Cryptography
  push_new_client_key n c =
      if b.takes_modulus n then ok (record c { keys = c.keys ++ n ∷ [] }) else throws

  unfoldable pub push_new_client_key_hex : Bytes → Cryptography → Result Cryptography
  unfolding push_new_client_key
  push_new_client_key_hex key c = do
    bytes ← or_throw (b.hex_decode key)
    n ← or_throw (b.big_int_of_bytes bytes)
    push_new_client_key n c

  -- `keys[iterator]` is not checked.
  unfoldable pub rsa_encrypt : ℕ → Bytes → Cryptography → Result (Bytes × Cryptography)
  rsa_encrypt iterator plaintext c = do
    n ← at c.keys iterator
    ct ← or_throw (b.rsa_seal n c.draws plaintext)
    ok (ct, record c { draws = suc c.draws })

  unfoldable pub rsa_decrypt : Bytes → Cryptography → Result Bytes
  rsa_decrypt given c = or_throw (b.rsa_open c.kp given)
