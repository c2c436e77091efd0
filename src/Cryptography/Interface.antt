-- ===== src/Cryptography/Interface.antt =====
-- What the program takes from the Botan library, as operations and as the laws that its
-- documentation gives. A call that may throw returns an `Option`.
use open_simp.Prelude.{
  ℕ, ◌+◌, ◌≤◌, ◌≡◌, ◌&&◌, ◌||◌, Bool, true, false, Option, some, ◌++◌, ◌≢◌, [], Bytes, length, leb,
  all, has,
}

-- The `draw`-th result of the random generator is an argument; a public key is known by its modulus
-- `n`, and a key pair by a number. A `BigInt`, of either sign, is known by a number too, which the
-- program only hands back to Botan. `takes_modulus` tells whether the constructor of `RSA_PublicKey`
-- returns at a modulus and the exponent 65537, or throws.
pub record Botan : Type 0 where
  pub hex_encode : Bytes → Bytes
  pub hex_decode : Bytes → Option Bytes
  pub default_nonce_length : ℕ
  pub random_vec : ℕ → ℕ → Bytes
  pub gcm_seal : Bytes → Bytes → Bytes → Option Bytes
  pub gcm_open : Bytes → Bytes → Bytes → Option Bytes
  pub modulus : ℕ → ℕ
  pub takes_modulus : ℕ → Bool
  pub rsa_seal : ℕ → ℕ → Bytes → Option Bytes
  pub rsa_open : ℕ → Bytes → Option Bytes
  pub print_big_int : ℕ → Bytes
  pub read_big_int : Bytes → Option ℕ
  pub big_int_of_bytes : Bytes → Option ℕ

abbrev pub is_hex_digit : ℕ → Bool
is_hex_digit c = leb b'0' c && leb c b'9' || leb b'A' c && leb c b'F' || leb b'a' c && leb c b'f'

-- 32 bytes in hexadecimal: a key for AES-256.
pub record IsKeyText (keyhex : Bytes) : Type 0 where
  pub digits : all is_hex_digit keyhex ≡ true
  pub size : length keyhex ≡ 64

pub record IsSound (b : Botan) : Type 0 where
  -- Hexadecimal text of 2n digits is n bytes, and printed bytes are read back.
  pub hex_digits :
      (s : Bytes) (n : ℕ)
      → all is_hex_digit s ≡ true
      → length s ≡ n + n
      → (bs : Bytes) × (b.hex_decode s ≡ some bs) × (length bs ≡ n)
  pub hex_back : (x y : Bytes) → b.hex_decode (b.hex_encode x ++ b.hex_encode y) ≡ some (x ++ y)
  -- GCM takes nonces of twelve bytes, and accepts every text under a key of 32 bytes.
  pub nonce : b.default_nonce_length ≡ 12
  pub random_length : (draw n : ℕ) → length (b.random_vec draw n) ≡ n
  pub gcm_total :
      (key iv m : Bytes)
      → length key ≡ 32
      → length iv ≡ 12
      → (c : Bytes) × (b.gcm_seal key iv m ≡ some c)
  pub gcm_back : (key iv m c : Bytes) → b.gcm_seal key iv m ≡ some c → b.gcm_open key iv c ≡ some m
  -- What GCM opens is its text and a tag of sixteen bytes.
  pub gcm_size : (key iv c m : Bytes) → b.gcm_open key iv c ≡ some m → length c ≡ length m + 16
  -- The modulus of a generated key pair makes a public key.
  pub modulus_taken : (kp : ℕ) → b.takes_modulus (b.modulus kp) ≡ true
  -- PKCS #1 v1.5 under a key of 4096 bits takes up to 501 bytes.
  pub rsa_total :
      (kp draw : ℕ) (m : Bytes)
      → length m ≤ 501
      → (c : Bytes) × (b.rsa_seal (b.modulus kp) draw m ≡ some c) × (c ≢ [])
  pub rsa_back :
      (kp draw : ℕ) (m c : Bytes)
      → b.rsa_seal (b.modulus kp) draw m ≡ some c
      → b.rsa_open kp c ≡ some m
  -- A printed number is decimal digits, which are read back.
  pub big_int_back : (n : ℕ) → b.read_big_int (b.print_big_int n) ≡ some n
  pub big_int_digits : (n : ℕ) → (has 0 (b.print_big_int n) ≡ false) × (b.print_big_int n ≢ [])
