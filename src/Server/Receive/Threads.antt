-- ===== src/Server/Receive/Threads.antt =====
-- The two threads of servernetwork.cpp as loops, `connectClients` and `manage`, against the step
-- relation.
use open_simp.Prelude.{
  ℕ, zero, suc, ◌+◌, ◌≡◌, refl, ltb, List, [], ◌∷◌, Result, ok, ◌>>=◌, Ensures, Ensures-bind,
  Ensures-mono, Returns, Returns-bind, Returns-mono, subst, at_ok, length, get_elem?_total,
  Bool-cases, inl, inr, arith,
}
use open_simp.Server.{Socket, Platform, ServerNetwork}
use open_simp.Server.Clients.{connect_client}
use open_simp.Server.Receive.{Packet, receive, manage_pass}
use open_simp.Server.Receive.Pass.{IsSafePass, manage_pass-Passes}
use open_simp.Server.Receive.Reachable.{accepts, receives, Reach, here, next}
use open_simp.Cryptography.Interface.{IsSound}
use open_simp.Server.Invariant.{IsValid}
use open_simp.Server.Invariant.Joining.{IsFresh}

module _ (p : Platform) where
  -- `connectClients`: the sockets that `accept` fills, with the time, until it fails.
  unfoldable pub connect_clients : List (Socket × ℕ) → ServerNetwork → ServerNetwork
  connect_clients [] w = w
  connect_clients (new ∷ more) w = connect_clients more (connect_client p new.0 new.1 w)

  -- `manage`: for each pass, what the network has for each socket and the time.
  unfoldable pub manage : List ((Socket → Packet) × ℕ) → ServerNetwork → Result ServerNetwork
  manage [] w = ok w
  manage (pass ∷ passes) w = do
    w' ← manage_pass p pass.0 pass.1 (length w.client_array) 0 w
    manage passes w'

  -- Each accepted socket is at an address of its own.
  abbrev pub AreFresh : List (Socket × ℕ) → ServerNetwork → Type 0
  AreFresh [] w = Unit
  AreFresh (new ∷ more) w = IsFresh new.0 w × AreFresh more (connect_client p new.0 new.1 w)

  -- Each pass handles safe packets.
  abbrev pub AreSafe : List ((Socket → Packet) × ℕ) → ServerNetwork → Type 0
  AreSafe [] w = Unit
  AreSafe (pass ∷ passes) w =
      IsSafePass p pass.0 pass.1 (length w.client_array) 0 w
      × ((w' : ServerNetwork)
          → manage_pass p pass.0 pass.1 (length w.client_array) 0 w ≡ ok w'
          → AreSafe passes w')

  Reach-trans : {u v w : ServerNetwork} → Reach p u v → Reach p v w → Reach p u w
  Reach-trans r here = r
  Reach-trans r (next s t) = next (Reach-trans r s) t

  pub connect_clients-Reach :
      (sockets : List (Socket × ℕ)) (w : ServerNetwork)
      → AreFresh sockets w
      → Reach p w (connect_clients sockets w)
  unfolding connect_clients
  connect_clients-Reach [] w fresh = here
  connect_clients-Reach (new ∷ more) w fresh =
      Reach-trans (next here (accepts new.0 new.1 fresh.0 refl))
        (connect_clients-Reach more (connect_client p new.0 new.1 w) fresh.1)

  manage_pass-Reach :
      (packets : Socket → Packet) (now fuel iterator : ℕ) (w : ServerNetwork)
      → IsSafePass p packets now fuel iterator w
      → Ensures (Reach p w) (manage_pass p packets now fuel iterator w)
  unfolding manage_pass
  manage_pass-Reach packets now zero iterator w safe = here
  manage_pass-Reach packets now (suc fuel) iterator w safe =
      elim (Bool-cases (ltb iterator (length w.client_array))) [
        | inl more ↦
            let (client, at_i) = get_elem?_total w.client_array iterator (ground arith) in
            rw (more, at_ok w.client_array iterator client at_i)
              (Ensures-bind (Reach p w) (receive p (packets client) client iterator now w) _ (λ u e.
                Ensures-mono (Reach p u) (Reach p w)
                  (manage_pass p packets now fuel (iterator + 1) u)
                  (λ w' r.
                    Reach-trans
                      (next here
                        (receives (packets client) client iterator now at_i (safe client at_i).0 e))
                      r)
                  (manage_pass-Reach packets now fuel (iterator + 1) u ((safe client at_i).1 u e))))
        | inr over ↦ rw over here
      ]

  module _ (sound : IsSound p.botan) where
    -- Any number of passes over a well-formed server with safe packets returns, and the server that
    -- it leaves is well formed and reached by steps.
    pub manage-Reach :
        (passes : List ((Socket → Packet) × ℕ)) (w : ServerNetwork)
        → IsValid w
        → AreSafe passes w
        → Returns (λ w'. IsValid w' × Reach p w w') (manage passes w)
    unfolding manage
    manage-Reach [] w v safe = (v, here)
    manage-Reach (pass ∷ passes) w v safe =
        Returns-bind _ _ (manage_pass p pass.0 pass.1 (length w.client_array) 0 w) _
          (manage_pass-Passes p pass.0 pass.1 sound (length w.client_array) 0 w v (omega arith)
            safe.0)
          (λ u e (valid, _).
            Returns-mono _ _ (manage passes u)
              (λ w' (good, r). (
                good,
                Reach-trans
                    (subst (Ensures (Reach p w)) e
                      (manage_pass-Reach pass.0 pass.1 (length w.client_array) 0 w safe.0))
                    r,
              ))
              (manage-Reach passes u valid (safe.1 u e)))
