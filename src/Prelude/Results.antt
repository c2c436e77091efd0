-- ===== src/Prelude/Results.antt =====
-- What a call ends in: a value, an exception that a `catch` may stop, or a fault that none can.
use Prim.Native.Nat.{ℕ, ◌<◌}
use mathlib.Core.Path.{◌≡◌, refl}
use mathlib.Core.List.{List}
use mathlib.Core.Option.{Option, none, some}
use open_simp.Prelude.Tests.{ltb, lt→ltb, if◌then◌else◌}
use open_simp.Prelude.Lists.{length, get_elem?, set, remove_at}
use open_simp.Prelude.Text.{Bytes, c_str}

-- `out_of_range` is an access outside an array, `overflow` a write past a fixed buffer,
-- `uninitialised` a read of memory never written, `use_after_free` one of memory given back, and
-- `aborted` a failed `assert`.
pub data Fault : Type 0 where
  out_of_range overflow uninitialised use_after_free aborted : Fault

pub data Result {ℓ} (A : Type ℓ) : Type ℓ where
  ok : A → Result A
  throws : Result A
  fault : Fault → Result A

infixl 5 ◌>>=◌
abbrev pub ◌>>=◌ {ℓ κ} : {A : Type ℓ} {B : Type κ} → Result A → (A → Result B) → Result B
ok a >>= f = f a
throws >>= f = throws
fault e >>= f = fault e

-- `try { m } catch (...) { handler }`
abbrev pub catching {ℓ} : {A : Type ℓ} → Result A → Result A → Result A
catching (ok a) handler = ok a
catching throws handler = handler
catching (fault e) handler = fault e

abbrev pub or_throw {ℓ} : {A : Type ℓ} → Option A → Result A
or_throw none = throws
or_throw (some a) = ok a

module _ {ℓ} {A : Type ℓ} where
  -- `v[i]`
  abbrev pub at : List A → ℕ → Result A
  at xs i = elim (get_elem? xs i) [ none ↦ fault out_of_range | some x ↦ ok x ]

  -- `v[i] = x`
  abbrev pub store : List A → ℕ → A → Result (List A)
  store xs i v = if ltb i (length xs) then ok (set xs i v) else fault out_of_range

  -- `v.erase(v.begin() + i)`
  abbrev pub erase : List A → ℕ → Result (List A)
  erase xs i = if ltb i (length xs) then ok (remove_at xs i) else fault out_of_range

  pub at_ok : (xs : List A) (i : ℕ) (x : A) → get_elem? xs i ≡ some x → at xs i ≡ ok x
  at_ok xs i x h = rw (h, at)

  pub erase_ok : (xs : List A) (i : ℕ) → i < length xs → erase xs i ≡ ok (remove_at xs i)
  erase_ok xs i h = rw (lt→ltb _ _ h)

  pub store_ok : (xs : List A) (i : ℕ) (v : A) → i < length xs → store xs i v ≡ ok (set xs i v)
  store_ok xs i v h = rw (lt→ltb _ _ h)

-- `strcpy` into a buffer of `n` bytes, which needs room for the NUL.
abbrev pub strcpy : ℕ → Bytes → Result Bytes
strcpy n s = if ltb (length (c_str s)) n then ok (c_str s) else fault overflow

-- The call returns, and what it returns satisfies `P`.
abbrev pub Returns {ℓ} : {A : Type ℓ} → (A → Type 0) → Result A → Type 0
Returns P (ok a) = P a
Returns P throws = ⊥
Returns P (fault e) = ⊥

pub Returns-bind {ℓ κ} :
    {A : Type ℓ} {B : Type κ} (P : A → Type 0) (Q : B → Type 0) (m : Result A) (f : A → Result B)
    → Returns P m
    → ((a : A) → m ≡ ok a → P a → Returns Q (f a))
    → Returns Q (m >>= f)
Returns-bind P Q (ok a) f h k = k a refl h
Returns-bind P Q throws f h k = absurd h
Returns-bind P Q (fault e) f h k = absurd h

pub Returns-result {ℓ} :
    {A : Type ℓ} (P : A → Type 0) (m : Result A) → Returns P m → (a : A) × (m ≡ ok a) × P a
Returns-result P (ok a) h = (a, refl, h)
Returns-result P throws h = absurd h
Returns-result P (fault e) h = absurd h

pub Returns-mono {ℓ} :
    {A : Type ℓ} (P Q : A → Type 0) (m : Result A)
    → ((a : A) → P a → Q a)
    → Returns P m
    → Returns Q m
Returns-mono P Q (ok a) k h = k a h
Returns-mono P Q throws k h = absurd h
Returns-mono P Q (fault e) k h = absurd h

-- What the call returns, if it returns, satisfies `P`.
abbrev pub Ensures {ℓ} : {A : Type ℓ} → (A → Type 0) → Result A → Type 0
Ensures P (ok a) = P a
Ensures P throws = Unit
Ensures P (fault e) = Unit

module _ {ℓ} {A : Type ℓ} where
  pub Ensures-bind {κ} :
      {B : Type κ} (Q : B → Type 0) (m : Result A) (f : A → Result B)
      → ((a : A) → m ≡ ok a → Ensures Q (f a))
      → Ensures Q (m >>= f)
  Ensures-bind Q (ok a) f k = k a refl
  Ensures-bind Q throws f k = tt
  Ensures-bind Q (fault e) f k = tt

  pub Ensures-of_Returns :
      (P Q : A → Type 0) (m : Result A) → ((a : A) → P a → Q a) → Returns P m → Ensures Q m
  Ensures-of_Returns P Q (ok a) k h = k a h
  Ensures-of_Returns P Q throws k h = tt
  Ensures-of_Returns P Q (fault e) k h = tt

  pub Ensures-mono :
      (P Q : A → Type 0) (m : Result A) → ((a : A) → P a → Q a) → Ensures P m → Ensures Q m
  Ensures-mono P Q (ok a) k h = k a h
  Ensures-mono P Q throws k h = tt
  Ensures-mono P Q (fault e) k h = tt

-- Two chains of calls agree if they agree behind the first.
pub bind_agree {ℓ κ ι} :
    {A : Type ℓ} {B : Type κ} {C : Type ι} (m : Result A) (f : A → Result B) (g : B → Result C)
    (h : A → Result C)
    → ((x : A) → m ≡ ok x → (f x >>= g) ≡ h x)
    → ((m >>= f) >>= g) ≡ (m >>= h)
bind_agree (ok x) f g h e = e x refl
bind_agree throws f g h e = refl
bind_agree (fault x) f g h e = refl
