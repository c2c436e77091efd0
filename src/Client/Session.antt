-- ===== src/Client/Session.antt =====
-- The whole login of the C++ client: `handshake` of ClientNetwork.cpp and `receive` of
-- servernetwork.cpp, each answering the other's packets.
pub mod Entry
pub mod Login
pub mod Talk
use open_simp.Prelude.{◌≡◌, ◌≢◌, refl, ap, ◌||◌, false, [], ◌∷◌, Bytes, str_eq, length, arith}
use open_simp.Server.Invariant.{IsAlias}
use open_simp.Client.Crypt

str_eq_nil : (s : Bytes) → s ≢ [] → str_eq s [] ≡ false
str_eq_nil [] h = absurd (h refl)
str_eq_nil (x ∷ s) h = refl

pub full_credentials :
    (uname passwd : Bytes)
    → IsAlias uname
    → passwd ≢ []
    → (str_eq uname [] || str_eq passwd []) ≡ false
full_credentials uname passwd a h =
    rw (str_eq_nil uname (λ e. omega (arith, a.short, ap length e)), str_eq_nil passwd h)
