-- ===== src/Server/Wire/Delivery.antt =====
-- What the sending functions of servernetwork.cpp put on the network.
use open_simp.Prelude.{
  ℕ, suc, ◌≡◌, refl, ap, ◌∙◌, ◌++◌, append_assoc, append-nil, if◌then◌else◌, Bool, true, false,
  ◌&&◌, List, [], ◌∷◌, map, Bytes, Option, none, some, c_str, Result, ok, throws, fault, length,
  arith, Returns, Bool-cases, inl, inr,
}
use open_simp.Cryptography.Interface.{IsSound, IsKeyText}
use open_simp.Cryptography.{Cryptography, Decrypted, encrypt, decrypt}
use open_simp.Cryptography.RoundTrip.{decrypt-encrypt}
use open_simp.Server.{
  Socket, AuthStatus, Event, transmitted, closed, Platform, ServerNetwork, server_key,
}
use open_simp.Server.Wire.{is_done, is_other, send, broadcast_to, broadcast_loop, broadcast}

pub server_key-IsKeyText : IsKeyText server_key
server_key-IsKeyText = record { digits = refl; size = refl }

abbrev first_of_ok : Result (Bytes × Cryptography) → Bytes
first_of_ok (ok r) = r.0
first_of_ok _ = []

-- The state of the wrapper after one nonce, and after one for each socket.
abbrev pub drawn : Cryptography → Cryptography
drawn c = record c { draws = suc c.draws }

abbrev pub drawn_all : List Socket → Cryptography → Cryptography
drawn_all [] c = c
drawn_all (s ∷ ss) c = drawn_all ss (drawn c)

pub keys-drawn_all : (ss : List Socket) (c : Cryptography) → (drawn_all ss c).keys ≡ c.keys
keys-drawn_all [] c = refl
keys-drawn_all (s ∷ ss) c = keys-drawn_all ss (drawn c)

pub kp-drawn_all : (ss : List Socket) (c : Cryptography) → (drawn_all ss c).kp ≡ c.kp
kp-drawn_all [] c = refl
kp-drawn_all (s ∷ ss) c = kp-drawn_all ss (drawn c)

module _ (p : Platform) where
  -- The ciphertext that `send` makes of a text under the server's key.
  pub ciphertext : Cryptography → Bytes → Bytes
  unfolding encrypt
  ciphertext c m = first_of_ok (encrypt p.botan c m server_key)

  abbrev pub packets : Bytes → List Socket → Cryptography → List Event
  packets str [] c = []
  packets str (s ∷ ss) c = transmitted s (ciphertext c (c_str str)) ∷ packets str ss (drawn c)

  -- The server after sending `str` to each of some sockets.
  abbrev pub posted : Bytes → List Socket → ServerNetwork → ServerNetwork
  posted str ss w = record w {
    crypt = drawn_all ss w.crypt;
    wire = w.wire ++ packets str ss w.crypt;
  }

  -- The status of the last `send` of such a series, `succeed` if there is none.
  abbrev pub last_status : Bytes → List Socket → Bool → ServerNetwork → Bool
  last_status str [] succeed w = succeed
  last_status str (s ∷ ss) succeed w =
      last_status str ss (p.transmit w.wire s (ciphertext w.crypt (c_str str)))
        (posted str (s ∷ []) w)

-- The sockets that a broadcast reaches: authenticated, and not the excluded end.
abbrev pub recipients : ℕ → ℕ → List Socket → List AuthStatus → List Socket
recipients address port [] auths = []
recipients address port (s ∷ ss) [] = []
recipients address port (s ∷ ss) (a ∷ auths) =
    let rest = recipients address port ss auths in
    if is_other s address port && is_done a then s ∷ rest else rest

-- A client's reading of a packet under the server's key.
abbrev pub reading : Result Decrypted → Option Bytes
reading (ok d) = some d.msg
reading throws = none
reading (fault e) = none

abbrev pub read_event : Platform → Event → Socket × Option Bytes
read_event p (transmitted s ct) = (s, reading (decrypt p.botan ct server_key))
read_event p (closed s reason) = (s, none)

module _ (p : Platform) (sound : IsSound p.botan) where
  pub encrypt-ciphertext :
      (c : Cryptography) (m : Bytes)
      → (encrypt p.botan c m server_key ≡ ok (ciphertext p c m, drawn c))
        × (reading (decrypt p.botan (ciphertext p c m) server_key) ≡ some m)
  unfolding ciphertext
  encrypt-ciphertext c m =
      by_result (encrypt p.botan c m server_key)
        (decrypt-encrypt p.botan sound c m server_key server_key-IsKeyText)
    where
      by_result :
          (r : Result (Bytes × Cryptography))
          → Returns
              (λ r.
                (decrypt p.botan r.0 server_key
                  ≡ ok (record {
                    iv = p.botan.random_vec c.draws p.botan.default_nonce_length;
                    msg = m;
                  }))
                × (r.1 ≡ drawn c))
              r
          → (r ≡ ok (first_of_ok r, drawn c))
            × (reading (decrypt p.botan (first_of_ok r) server_key) ≡ some m)
      by_result (ok (ct, c')) (d, e) = (rw e, rw d)
      by_result throws h = absurd h
      by_result (fault e) h = absurd h

  pub send_lem :
      (str : Bytes) (s : Socket) (w : ServerNetwork)
      → send p str s w
        ≡ ok (p.transmit w.wire s (ciphertext p w.crypt (c_str str)), posted p str (s ∷ []) w)
  unfolding send
  send_lem str s w = rw ((encrypt-ciphertext w.crypt (c_str str)).0)

  broadcast_to_hit :
      (str : Bytes) (address port : ℕ) (s : Socket) (a : AuthStatus) (succeed : Bool)
      (w : ServerNetwork)
      → (is_other s address port && is_done a) ≡ true
      → broadcast_to p str address port s (some a) succeed w
        ≡ ok (p.transmit w.wire s (ciphertext p w.crypt (c_str str)), posted p str (s ∷ []) w)
  unfolding broadcast_to
  broadcast_to_hit str address port s a succeed w h = elim (Bool-cases (is_other s address port)) [
    | inl other ↦ rw (other, done_of other h) (send_lem str s w)
    | inr same ↦ absurd (other_of same h)
  ]
    where
      done_of :
          is_other s address port ≡ true
          → (is_other s address port && is_done a) ≡ true
          → is_done a ≡ true
      done_of o k = cc

      other_of : is_other s address port ≡ false → (is_other s address port && is_done a) ≡ true → ⊥
      other_of o k = cc

  broadcast_to_miss :
      (str : Bytes) (address port : ℕ) (s : Socket) (a : AuthStatus) (succeed : Bool)
      (w : ServerNetwork)
      → (is_other s address port && is_done a) ≡ false
      → broadcast_to p str address port s (some a) succeed w ≡ ok (succeed, w)
  unfolding broadcast_to
  broadcast_to_miss str address port s a succeed w h = ground arith

  posted_twice :
      (str : Bytes) (s : Socket) (ss : List Socket) (w : ServerNetwork)
      → posted p str ss (posted p str (s ∷ []) w) ≡ posted p str (s ∷ ss) w
  posted_twice str s ss w =
      ap (λ es. record w { crypt = drawn_all (s ∷ ss) w.crypt; wire = es })
        (append_assoc w.wire (packets p str (s ∷ []) w.crypt) (packets p str ss (drawn w.crypt)))

  broadcast_loop_lem :
      (str : Bytes) (address port : ℕ) (ss : List Socket) (auths : List AuthStatus) (succeed : Bool)
      (w : ServerNetwork)
      → length auths ≡ length ss
      → broadcast_loop p str address port ss auths succeed w
        ≡ ok (
          last_status p str (recipients address port ss auths) succeed w,
          posted p str (recipients address port ss auths) w,
        )
  unfolding broadcast_loop
  broadcast_loop_lem str address port [] auths succeed w h = rw append-nil
  broadcast_loop_lem str address port (s ∷ ss) [] succeed w h = absurd (omega arith)
  broadcast_loop_lem str address port (s ∷ ss) (a ∷ auths) succeed w h =
      elim (Bool-cases (is_other s address port && is_done a)) [
        | inl hit ↦
            rw (broadcast_to_hit str address port s a succeed w hit, hit)
              (broadcast_loop_lem str address port ss auths _ (posted p str (s ∷ []) w)
                  (omega arith)
                ∙ ap
                    (λ w'.
                      ok (last_status p str (s ∷ recipients address port ss auths) succeed w, w'))
                    (posted_twice str s (recipients address port ss auths) w))
        | inr miss ↦
            rw (broadcast_to_miss str address port s a succeed w miss, miss)
              (broadcast_loop_lem str address port ss auths succeed w (omega arith))
      ]

  pub broadcast_lem :
      (str : Bytes) (address port : ℕ) (w : ServerNetwork)
      → length w.client_authenticated_array ≡ length w.client_array
      → let rs = recipients address port w.client_array w.client_authenticated_array in
        broadcast p str address port w ≡ ok (last_status p str rs false w, posted p str rs w)
  unfolding broadcast
  broadcast_lem str address port w h =
      broadcast_loop_lem str address port w.client_array w.client_authenticated_array false w h

  pub read-packets :
      (str : Bytes) (ss : List Socket) (c : Cryptography)
      → map (read_event p) (packets p str ss c) ≡ map (λ s. (s, some (c_str str))) ss
  read-packets str [] c = refl
  read-packets str (s ∷ ss) c =
      rw ((encrypt-ciphertext c (c_str str)).1, read-packets str ss (drawn c))

  -- With a status for each client, `broadcast` returns whether the last of its sends was done,
  -- and hands to each authenticated client away from the excluded end, in the vector's order and
  -- to nobody else, a packet that decrypts to the text before its first NUL; the clients' vectors
  -- and keys stay as they are.
  pub broadcast_delivers :
      (str : Bytes) (address port : ℕ) (w : ServerNetwork)
      → length w.client_authenticated_array ≡ length w.client_array
      → let rs = recipients address port w.client_array w.client_authenticated_array in
        (es : List Event) × (c : Cryptography) × (broadcast p str address port w
          ≡ ok (last_status p str rs false w, record w { crypt = c; wire = w.wire ++ es }))
        × (map (read_event p) es ≡ map (λ s. (s, some (c_str str))) rs)
        × (c.keys ≡ w.crypt.keys)
  broadcast_delivers str address port w h =
      let rs = recipients address port w.client_array w.client_authenticated_array in
      (
        packets p str rs w.crypt,
        drawn_all rs w.crypt,
        broadcast_lem str address port w h,
        read-packets str rs w.crypt,
        keys-drawn_all rs w.crypt,
      )
