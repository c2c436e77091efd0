-- ===== src/Cryptography.antt =====
-- The wrapper round Botan: src/server/src/cryptography/cryptography.cpp and its header.
-- The clients' copy is in Client/Crypt.
pub mod Interface
pub mod Sizes
pub mod RoundTrip
pub mod Keys
use open_simp.Prelude.{
  ℕ, zero, suc, ◌-◌, ◌==◌, if◌then◌else◌, List, [], ◌∷◌, ◌++◌, Option, none, some, Bytes, length,
  c_str, Result, ok, throws, ◌>>=◌, or_throw, at,
}
use Interface.{Botan}

-- `kp` names the private key, `draws` counts the draws from `rng`, and `keys` maps the address of a
-- client's socket to the modulus of its public key.
pub record Cryptography : Type 0 where
  pub kp : ℕ
  pub draws : ℕ
  pub keys : List (ℕ × ℕ)

-- What `decrypt` returns in a map under "iv" and "msg".
pub record Decrypted : Type 0 where
  pub iv : Bytes
  pub msg : Bytes

-- The `try` round `hex_decode_locked(keyhex)`: after an exception the key stays empty.
abbrev pub decoded_key : Option Bytes → Bytes
decoded_key none = []
decoded_key (some key) = key

-- `for (i = from; …) out.push_back(ct[i])`, for `n` rounds.
unfoldable pub copy_range : Bytes → ℕ → ℕ → Result Bytes
copy_range ct from zero = ok []
copy_range ct from (suc n) = do x ← at ct from; rest ← copy_range ct (suc from) n; ok (x ∷ rest)

-- `unordered_map`: `find`, `insert`, which keeps an entry that is there, and `erase`.
abbrev pub lookup : ℕ → List (ℕ × ℕ) → Option ℕ
lookup k [] = none
lookup k ((j, v) ∷ m) = if j == k then some v else lookup k m

abbrev pub insert_new : ℕ → ℕ → List (ℕ × ℕ) → List (ℕ × ℕ)
insert_new k v [] = (k, v) ∷ []
insert_new k v ((j, w) ∷ m) = if j == k then (j, w) ∷ m else (j, w) ∷ insert_new k v m

abbrev pub erase_key : ℕ → List (ℕ × ℕ) → List (ℕ × ℕ)
erase_key k [] = []
erase_key k ((j, v) ∷ m) = let rest = erase_key k m in if j == k then rest else (j, v) ∷ rest

module _ (b : Botan) where
  unfoldable pub encrypt : Cryptography → Bytes → Bytes → Result (Bytes × Cryptography)
  encrypt c str keyhex = do
    let key = decoded_key (b.hex_decode keyhex)
    let iv = b.random_vec c.draws b.default_nonce_length
    input ← or_throw (b.gcm_seal key iv str)
    ct ← or_throw (b.hex_decode (b.hex_encode iv ++ b.hex_encode input))
    ok (ct, record c { draws = suc c.draws })

  unfoldable pub decrypt : Bytes → Bytes → Result Decrypted
  unfolding copy_range
  decrypt ct keyhex = do
    let key = decoded_key (b.hex_decode keyhex)
    iv ← copy_range ct 0 12
    output ← copy_range ct 12 (length ct - 12)
    msg ← or_throw (b.gcm_open key iv output)
    ok (record { iv = iv; msg = msg })

  abbrev pub get_public_key : Cryptography → ℕ
  get_public_key c = b.modulus c.kp

  -- The overload that takes a `BigInt`, which the caller has read from text. The key is made before
  -- it is inserted, and making it may throw.
  unfoldable pub push_new_client_key : ℕ → ℕ → Cryptography → Result Cryptography
  push_new_client_key sock n c =
      if b.takes_modulus n then ok (record c { keys = insert_new sock n c.keys }) else throws

  -- The overload that takes hexadecimal text.
  unfoldable pub push_new_client_key_hex : ℕ → Bytes → Cryptography → Result Cryptography
  unfolding push_new_client_key
  push_new_client_key_hex sock key c = do
    bytes ← or_throw (b.hex_decode key)
    n ← or_throw (b.big_int_of_bytes bytes)
    push_new_client_key sock n c

  unfoldable pub remove_client_key : ℕ → Cryptography → Cryptography
  remove_client_key sock c = record c { keys = erase_key sock c.keys }

  -- `keys.at(sock)` throws for a socket that has no key.
  unfoldable pub rsa_encrypt : ℕ → Bytes → Cryptography → Result (Bytes × Cryptography)
  rsa_encrypt sock plaintext c = do
    n ← or_throw (lookup sock c.keys)
    ct ← or_throw (b.rsa_seal n c.draws plaintext)
    ok (ct, record c { draws = suc c.draws })

  unfoldable pub rsa_decrypt : Bytes → Cryptography → Result Bytes
  rsa_decrypt given c = or_throw (b.rsa_open c.kp given)
