-- ===== src/Examples/Toy.antt =====
-- A platform that can be run: hexadecimal digits are read in pairs, encryption marks its text, and
-- the user file holds one line `name:password`.
use Prim.Native.Nat.{◌*◌, ◌/◌, ◌%◌}
use open_simp.Prelude.{
  ℕ, zero, suc, ◌+◌, ◌≡◌, refl, ap, ◌++◌, ◌==◌, if◌then◌else◌, true, false, [], ◌∷◌, Option, none,
  some, Bytes, str_eq, length, take, drop, replicate, length-replicate, has, not, str_eq→eq,
  Bool-cases, inl, inr, subst, arith,
}
use mathlib.Core.Option.{some-injective}
use open_simp.Cryptography.Interface.{Botan, IsSound}
use open_simp.Server.{UserEntry, unknown, password, Platform}

abbrev pub hex_encode : Bytes → Bytes
hex_encode [] = []
hex_encode (x ∷ xs) = x / 16 ∷ x % 16 ∷ hex_encode xs

abbrev push_byte : ℕ → Option Bytes → Option Bytes
push_byte x none = none
push_byte x (some xs) = some (x ∷ xs)

abbrev pub hex_decode : Bytes → Option Bytes
hex_decode [] = some []
hex_decode (x ∷ []) = none
hex_decode (x ∷ y ∷ xs) = push_byte (x * 16 + y) (hex_decode xs)

abbrev tag : Bytes
tag = replicate 16 0xAA

abbrev gcm_seal : Bytes → Bytes → Bytes → Option Bytes
gcm_seal key iv m = some (tag ++ m)

abbrev gcm_open : Bytes → Bytes → Bytes → Option Bytes
gcm_open key iv c = if str_eq (take 16 c) tag then some (drop 16 c) else none

abbrev rsa_seal : ℕ → ℕ → Bytes → Option Bytes
rsa_seal zero draw m = none
rsa_seal (suc n) draw m = some (0xBB ∷ m)

abbrev rsa_open : ℕ → Bytes → Option Bytes
rsa_open kp [] = none
rsa_open kp (x ∷ m) = if x == 0xBB then some m else none

-- Numbers are written in ones, behind a sign.
abbrev print_big_int : ℕ → Bytes
print_big_int n = b'+' ∷ replicate n b'1'

abbrev read_big_int : Bytes → Option ℕ
read_big_int [] = none
read_big_int (x ∷ s) = if x == b'+' then some (length s) else none

abbrev pub toy_botan : Botan
toy_botan = record {
  hex_encode = hex_encode;
  hex_decode = hex_decode;
  default_nonce_length = 12;
  random_vec = λ draw n. replicate n draw;
  gcm_seal = gcm_seal;
  gcm_open = gcm_open;
  modulus = suc;
  takes_modulus = λ n. not (n == 0);
  rsa_seal = rsa_seal;
  rsa_open = rsa_open;
  print_big_int = print_big_int;
  read_big_int = read_big_int;
  big_int_of_bytes = λ s. some (length s);
}

abbrev load_user : Bytes → Bytes → UserEntry
load_user file name =
    if str_eq (take (length name) file) name
    then password (drop (suc (length name)) file)
    else unknown

abbrev pub toy : Platform
toy = record {
  botan = toy_botan;
  transmit = λ past to bytes. true;
  as_milliseconds = λ t. t / 1000;
  load_user = load_user;
  emit_user = λ name word. name ++ b':' ∷ word;
}

hex_digits :
    (n : ℕ) (s : Bytes)
    → length s ≡ n + n
    → (bs : Bytes) × (hex_decode s ≡ some bs) × (length bs ≡ n)
hex_digits zero [] h = ([], refl, refl)
hex_digits zero (x ∷ s) h = absurd (omega arith)
hex_digits (suc n) [] h = absurd (omega arith)
hex_digits (suc n) (x ∷ []) h = absurd (omega arith)
hex_digits (suc n) (x ∷ y ∷ s) h =
    let (bs, e, k) = hex_digits n s (omega arith) in ((x * 16 + y) ∷ bs, rw e, omega arith)

hex_back : (x y : Bytes) → hex_decode (hex_encode x ++ hex_encode y) ≡ some (x ++ y)
hex_back [] [] = refl
hex_back [] (b ∷ y) = rw (hex_back [] y) (ap (λ t. some (t ∷ y)) (omega arith))
hex_back (a ∷ x) y = rw (hex_back x y) (ap (λ t. some (t ∷ (x ++ y))) (omega arith))

ones_lack_nul : (n : ℕ) → has 0 (replicate n b'1') ≡ false
ones_lack_nul zero = refl
ones_lack_nul (suc n) = ground (arith, ones_lack_nul n)

length-take-drop : (n : ℕ) (c : Bytes) → length c ≡ length (take n c) + length (drop n c)
length-take-drop zero c = omega arith
length-take-drop (suc n) [] = refl
length-take-drop (suc n) (x ∷ c) = omega (arith, length-take-drop n c)

opened_size : (c m : Bytes) → gcm_open [] [] c ≡ some m → length c ≡ length m + 16
opened_size c m h = elim (Bool-cases (str_eq (take 16 c) tag)) [
  | inl tagged ↦
      let rest : some (drop 16 c) ≡ some m =
        subst (λ b. (if b then some (drop 16 c) else none) ≡ some m) tagged h in
      let size : length (take 16 c) ≡ 16 = ap length (str_eq→eq (take 16 c) tag tagged) in
      omega (arith, length-take-drop 16 c, ap length (some-injective _ _ rest))
  | inr odd ↦ absurd (cc (subst (λ b. (if b then some (drop 16 c) else none) ≡ some m) odd h))
]

pub toy-IsSound : IsSound toy_botan
toy-IsSound = record {
  hex_digits = λ s n h k. hex_digits n s k;
  hex_back = hex_back;
  nonce = refl;
  random_length = λ draw n. length-replicate n draw;
  gcm_total = λ key iv m h k. (tag ++ m, refl);
  gcm_back = λ key iv m c h. subst (λ t. gcm_open key iv t ≡ some m) (some-injective _ _ h) refl;
  gcm_size = λ key iv c m h. opened_size c m h;
  modulus_taken = λ kp. ground arith;
  rsa_total = λ kp draw m h. (0xBB ∷ m, refl, λ e. cc);
  rsa_back = λ kp draw m c h. subst (λ t. rsa_open kp t ≡ some m) (some-injective _ _ h) refl;
  big_int_back = λ n. ap some (length-replicate n b'1');
  big_int_digits = λ n. (ones_lack_nul n, λ e. cc);
}
