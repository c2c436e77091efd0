-- ===== src/Server/Receive/Pass.antt =====
-- The loop of `manage` in servernetwork.cpp: it ends, whoever leaves on the way.
use open_simp.Prelude.{
  ℕ, zero, suc, ◌+◌, ◌≤◌, ◌≡◌, ltb, List, some, ok, Returns, Returns-bind, Returns-mono, Ensures,
  subst, at_ok, length, get_elem?, get_elem?_total, length-modify, length-remove_at-le, arith,
  Bool-cases, inl, inr,
}
use open_simp.Cryptography.Interface.{IsSound}
use open_simp.Server.{Socket, Platform, ServerNetwork}
use open_simp.Server.Receive.{Packet, receive, manage_pass}
use open_simp.Server.Invariant.{IsValid}
use open_simp.Server.Invariant.Handlers.{IsSafe, receive-IsValid}
use open_simp.Server.Room.{Member, Turn, idles, leaves, enters, joins, speaks, renames}
use open_simp.Server.Room.View.{room, length-room}
use open_simp.Server.Room.Run.{receive-refines}

-- Nobody comes by a turn.
pub length-Turn : (now i : ℕ) (r r' : List Member) → Turn now i r r' → length r' ≤ length r
length-Turn now i r r' (idles e) = rw e (omega arith)
length-Turn now i r r' (leaves e) = rw e (length-remove_at-le r i)
length-Turn now i r r' (enters m name at_m s free e) = rw e (omega (arith, length-modify i _ r))
length-Turn now i r r' (joins m at_m s e) = rw e (omega (arith, length-modify i _ r))
length-Turn now i r r' (speaks m at_m s e) = rw e (omega (arith, length-modify i _ r))
length-Turn now i r r' (renames m name c at_m s k free e) =
    rw e (omega (arith, length-modify i _ r))

module _ (p : Platform) (packets : Socket → Packet) (now : ℕ) where
  -- The packets are safe where the pass handles them.
  abbrev pub IsSafePass : ℕ → ℕ → ServerNetwork → Type 0
  IsSafePass zero iterator w = Unit
  IsSafePass (suc fuel) iterator w =
      (client : Socket)
      → get_elem? w.client_array iterator ≡ some client
      → IsSafe p (packets client) w iterator
        × ((w' : ServerNetwork)
            → receive p (packets client) client iterator now w ≡ ok w'
            → IsSafePass fuel (iterator + 1) w')

  -- A whole pass, from a position to the end of the vector as it then is.
  pub data Passes : ℕ → ServerNetwork → ServerNetwork → Type 0 where
    ends :
        (iterator : ℕ) (w : ServerNetwork) → length w.client_array ≤ iterator → Passes iterator w w
    goes_on :
        (iterator : ℕ) (client : Socket) (w u w' : ServerNetwork)
        → get_elem? w.client_array iterator ≡ some client
        → receive p (packets client) client iterator now w ≡ ok u
        → Passes (iterator + 1) u w'
        → Passes iterator w w'

  module _ (sound : IsSound p.botan) where
    receive-shrinks :
        (client : Socket) (iterator : ℕ) (w u : ServerNetwork)
        → IsValid w
        → IsValid u
        → get_elem? w.client_array iterator ≡ some client
        → receive p (packets client) client iterator now w ≡ ok u
        → length u.client_array ≤ length w.client_array
    receive-shrinks client iterator w u v valid here e =
        let turn : Turn now iterator (room w) (room u) =
          subst (Ensures (λ x. Turn now iterator (room w) (room x))) e
            (receive-refines p sound client iterator now w v here (packets client)) in
        omega (
          arith,
          length-room w v,
          length-room u valid,
          length-Turn now iterator (room w) (room u) turn,
        )

    -- A pass over a well-formed server whose packets are safe where it handles them returns with as
    -- many rounds as there are clients left, whoever is disconnected on the way: it has come to the
    -- end of the vector by the test of the loop, and the server is well formed.
    pub manage_pass-Passes :
        (fuel iterator : ℕ) (w : ServerNetwork)
        → IsValid w
        → length w.client_array ≤ iterator + fuel
        → IsSafePass fuel iterator w
        → Returns
            (λ w'. IsValid w' × Passes iterator w w')
            (manage_pass p packets now fuel iterator w)
    unfolding manage_pass
    manage_pass-Passes zero iterator w v enough safe = (v, ends iterator w (omega arith))
    manage_pass-Passes (suc fuel) iterator w v enough safe =
        elim (Bool-cases (ltb iterator (length w.client_array))) [
          | inl more ↦
              let (client, here) = get_elem?_total w.client_array iterator (ground arith) in
              rw (more, at_ok w.client_array iterator client here)
                (Returns-bind IsValid _ (receive p (packets client) client iterator now w) _
                  (receive-IsValid p sound (packets client) client iterator now w v here
                    (safe client here).0)
                  (λ u e valid.
                    Returns-mono _ _ (manage_pass p packets now fuel (iterator + 1) u)
                      (λ w' h. (h.0, goes_on iterator client w u w' here e h.1))
                      (manage_pass-Passes fuel (iterator + 1) u valid
                        (omega (arith, receive-shrinks client iterator w u v valid here e))
                        ((safe client here).1 u e))))
          | inr over ↦ rw over (v, ends iterator w (ground arith))
        ]
