-- ===== src/Server/Wire/Growth.antt =====
-- What a handler of servernetwork.cpp appends to the wire.
use open_simp.Prelude.{
  ◌≡◌, refl, ap, sym, ◌∙◌, ◌++◌, append-nil, append_assoc, List, [], ◌∷◌, Bytes, c_str, ok, All,
  All-append,
}
use open_simp.Cryptography.Interface.{IsSound}
use open_simp.Cryptography.{Cryptography, encrypt}
use open_simp.Server.{Socket, Event, transmitted, Platform, ServerNetwork, server_key}
use open_simp.Server.Wire.Delivery.{ciphertext, packets, posted, drawn, encrypt-ciphertext}

-- Between two moments only events that satisfy `P` were appended.
abbrev pub Grows : (Event → Type 0) → List Event → List Event → Type 0
Grows P past now = (es : List Event) × (now ≡ past ++ es) × All P es

module _ (P : Event → Type 0) where
  pub Grows-refl : (past : List Event) → Grows P past past
  Grows-refl past = ([], sym (append-nil past), tt)

  pub Grows-one : (past : List Event) (e : Event) → P e → Grows P past (past ++ e ∷ [])
  Grows-one past e h = (e ∷ [], refl, (h, tt))

  pub Grows-trans :
      (first second third : List Event)
      → Grows P first second
      → Grows P second third
      → Grows P first third
  Grows-trans first second third (es, e, h) (fs, f, k) =
      (es ++ fs, f ∙ ap (λ t. t ++ fs) e ∙ append_assoc first es fs, All-append P es fs h k)

module _ (p : Platform) where
  -- Made by `encrypt` under the server's key.
  abbrev pub IsSealed : Bytes → Type 0
  IsSealed ct =
      (text : Bytes) × (c c' : Cryptography) × (encrypt p.botan c text server_key ≡ ok (ct, c'))

  -- The socket may be sent what is sealed so.
  abbrev pub Hears : (Event → Type 0) → Socket → Type 0
  Hears P s = (ct : Bytes) → IsSealed ct → P (transmitted s ct)

  module _ (sound : IsSound p.botan) (P : Event → Type 0) where
    packets-All :
        (str : Bytes) (ss : List Socket) (c : Cryptography)
        → All (Hears P) ss
        → All P (packets p str ss c)
    packets-All str [] c h = tt
    packets-All str (s ∷ ss) c (hears, rest) = (
      hears (ciphertext p c (c_str str))
          (c_str str, c, drawn c, (encrypt-ciphertext p sound c (c_str str)).0),
      packets-All str ss (drawn c) rest,
    )

    pub posted-Grows :
        (str : Bytes) (ss : List Socket) (w : ServerNetwork)
        → All (Hears P) ss
        → Grows P w.wire (posted p str ss w).wire
    posted-Grows str ss w h = (packets p str ss w.crypt, refl, packets-All str ss w.crypt h)
