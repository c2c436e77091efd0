-- ===== src/Examples/Ciphers.antt =====
-- The encryption and the sending at concrete texts.
use open_simp.Prelude.{
  ◌≡◌, refl, ◌++◌, true, List, [], ◌∷◌, map, some, codes, ok, fault, out_of_range, Returns, arith,
}
use open_simp.Cryptography.{Cryptography, encrypt, decrypt}
use open_simp.Cryptography.RoundTrip.{decrypt-encrypt, decrypt_short}
use open_simp.Server.{done, Event, server_key}
use open_simp.Server.Wire.{broadcast}
use open_simp.Server.Wire.Delivery.{server_key-IsKeyText, read_event, broadcast_delivers}
use open_simp.Examples.Toy.{toy, toy_botan, toy-IsSound}
use open_simp.Examples.Room.{carol, room}

abbrev fresh : Cryptography
fresh = record { kp = 7; draws = 3; keys = [] }

decrypt-encrypt_example :
    Returns
      (λ r.
        (decrypt toy_botan r.0 server_key
          ≡ ok (record { iv = toy_botan.random_vec 3 12; msg = codes "hi" }))
        × (r.1 ≡ record fresh { draws = 4 }))
      (encrypt toy_botan fresh (codes "hi") server_key)
decrypt-encrypt_example =
    decrypt-encrypt toy_botan toy-IsSound fresh (codes "hi") server_key server_key-IsKeyText

decrypt_short_example : decrypt toy_botan (codes "short") server_key ≡ fault out_of_range
decrypt_short_example = decrypt_short toy_botan (codes "short") server_key (omega arith)

broadcast_delivers_example :
    (es : List Event) × (c : Cryptography) × (broadcast toy (codes "hello") 10 1000 (room done)
      ≡ ok (true, record (room done) { crypt = c; wire = [] ++ es }))
    × (map (read_event toy) es ≡ (carol, some (codes "hello")) ∷ [])
    × (c.keys ≡ (room done).crypt.keys)
broadcast_delivers_example =
    broadcast_delivers toy toy-IsSound (codes "hello") 10 1000 (room done) refl
