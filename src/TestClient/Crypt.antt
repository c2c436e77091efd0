-- ===== src/TestClient/Crypt.antt =====
-- The test client's wrapper round Botan: util/encrypt-test-client/src/cryptography.cpp and its header.
pub mod Twin
use open_simp.Prelude.{
  ℕ, zero, suc, ◌-◌, List, [], ◌∷◌, ◌++◌, Option, none, some, Bytes, length, Result, ok, throws,
  if◌then◌else◌, ◌>>=◌, or_throw, at,
}
use open_simp.Cryptography.Interface.{Botan}

-- `keys` holds the moduli of the public keys in the order in which they were pushed.
pub record Cryptography : Type 0 where
  pub kp : ℕ
  pub draws : ℕ
  pub keys : List ℕ

-- The map that `decrypt` returns.
pub record IvAndMsg : Type 0 where
  pub iv : Bytes
  pub msg : Bytes

-- `hex_decode_locked` stands in a `try`; where it throws, the key stays empty.
abbrev pub locked_key : Option Bytes → Bytes
locked_key none = []
locked_key (some key) = key

-- `push_back(ct[i])`, so many times from a position on.
unfoldable pub push_bytes : Bytes → ℕ → ℕ → Result Bytes
push_bytes ct i zero = ok []
push_bytes ct i (suc n) = do byte ← at ct i; rest ← push_bytes ct (suc i) n; ok (byte ∷ rest)

module _ (b : Botan) where
  unfoldable pub encrypt : Cryptography → Bytes → Bytes → Result (Bytes × Cryptography)
  encrypt c str keyhex = do
    let key = locked_key (b.hex_decode keyhex)
    let iv = b.random_vec c.draws b.default_nonce_length
    input ← or_throw (b.gcm_seal key iv str)
    ct ← or_throw (b.hex_decode (b.hex_encode iv ++ b.hex_encode input))
    ok (ct, record c { draws = suc c.draws })

  unfoldable pub decrypt : Bytes → Bytes → Result IvAndMsg
  unfolding push_bytes
  decrypt ct keyhex = do
    let key = locked_key (b.hex_decode keyhex)
    iv ← push_bytes ct 0 12
    output ← push_bytes ct 12 (length ct - 12)
    msg ← or_throw (b.gcm_open key iv output)
    ok (record { iv = iv; msg = msg })

  abbrev pub get_public_key : Cryptography → ℕ
  get_public_key c = b.modulus c.kp

  -- The overload that takes a `BigInt`, and the one that takes hexadecimal text. Making the key may
  -- throw.
  unfoldable pub push_new_client_key : ℕ → Cryptography → Result Cryptography
  push_new_client_key bi c =
      if b.takes_modulus bi then ok (record c { keys = c.keys ++ bi ∷ [] }) else throws

  unfoldable pub push_new_client_key_hex : Bytes → Cryptography → Result Cryptography
  unfolding push_new_client_key
  push_new_client_key_hex key c = do
    bytes ← or_throw (b.hex_decode key)
    bi ← or_throw (b.big_int_of_bytes bytes)
    push_new_client_key bi c

  -- `keys[iterator]` is not checked.
  unfoldable pub rsa_encrypt : ℕ → Bytes → Cryptography → Result (Bytes × Cryptography)
  rsa_encrypt iterator plaintext c = do
    n ← at c.keys iterator
    ct ← or_throw (b.rsa_seal n c.draws plaintext)
    ok (ct, record c { draws = suc c.draws })

  unfoldable pub rsa_decrypt : Bytes → Cryptography → Result Bytes
  rsa_decrypt given c = or_throw (b.rsa_open c.kp given)
