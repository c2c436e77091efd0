-- ===== src/Server/Receive/Reachable.antt =====
-- The two threads of servernetwork.cpp, `connectClients` and `manage`, as steps of one system.
use open_simp.Prelude.{ℕ, ◌≡◌, ◌≢◌, refl, subst, [], some, Bytes, ok, get_elem?, Returns}
use open_simp.Cryptography.Interface.{IsSound}
use open_simp.Cryptography.{lookup}
use open_simp.Server.{Socket, AuthStatus, undone, done, Platform, ServerNetwork}
use open_simp.Server.Clients.{connect_client}
use open_simp.Server.Commands.{init}
use open_simp.Server.Commands.Registry.{register_commands_lem}
use open_simp.Server.Receive.{Packet, receive}
use open_simp.Server.Invariant.{IsAlias, IsValid}
use open_simp.Server.Invariant.Joining.{IsFresh, connect_client-IsValid}
use open_simp.Server.Invariant.Handlers.{IsSafe, receive-IsValid}

module _ (p : Platform) where
  -- Either thread may make the next step: a client is accepted, or a safe packet of a connected
  -- client is received.
  pub data Step (w : ServerNetwork) (w' : ServerNetwork) : Type 0 where
    accepts : (new : Socket) (now : ℕ) → IsFresh new w → w' ≡ connect_client p new now w → Step w w'
    receives :
        (packet : Packet) (client : Socket) (iterator now : ℕ)
        → get_elem? w.client_array iterator ≡ some client
        → IsSafe p packet w iterator
        → receive p packet client iterator now w ≡ ok w'
        → Step w w'

  pub data Reach (w : ServerNetwork) : ServerNetwork → Type 0 where
    here : Reach w w
    next : {u v : ServerNetwork} → Reach w u → Step u v → Reach w v

  module _ (sound : IsSound p.botan) where
    pub Step-IsValid : (w w' : ServerNetwork) → Step w w' → IsValid w → IsValid w'
    Step-IsValid w w' (accepts new now fresh e) v =
        rw e (connect_client-IsValid p new now w fresh v)
    Step-IsValid w w' (receives packet client iterator now at_i safe e) v =
        subst (Returns IsValid) e (receive-IsValid p sound packet client iterator now w v at_i safe)

    pub Reach-IsValid : {w w' : ServerNetwork} → IsValid w → Reach w w' → IsValid w'
    Reach-IsValid v here = v
    Reach-IsValid v (next {u = u} {v = t} r s) = Step-IsValid u t s (Reach-IsValid v r)

-- `init` returns a well-formed server with no client.
pub init-IsValid :
    (kp : ℕ) (userdata : Bytes)
    → Returns (λ w. IsValid w × (w.client_array ≡ [])) (init kp userdata)
unfolding init
init-IsValid kp userdata =
    let (x, e, names, distinct) = register_commands_lem in
    rw e (
      record {
        ids = refl;
        ops = refl;
        auths = refl;
        clocks = refl;
        sockets = λ i j s t h k same. absurd (cc);
        unique = λ i j n h k real. absurd (cc);
        legal = λ i n h real. absurd (cc);
        named = λ i a n h real k. absurd (cc);
        keyed = λ i s h k. absurd (cc);
        commands = distinct;
      },
      refl,
    )

pub init_start-IsValid :
    (kp : ℕ) (userdata : Bytes) (start : ServerNetwork)
    → init kp userdata ≡ ok start
    → IsValid start × (start.client_array ≡ [])
init_start-IsValid kp userdata start e =
    subst (Returns (λ w. IsValid w × (w.client_array ≡ []))) e (init-IsValid kp userdata)

-- From `init`, whatever clients connect with fresh sockets and whatever safe packets they send,
-- in whatever order the two threads take their steps: a client past the login has a legal name
-- that no other client has, and one past the handshake has a key in the map.
pub Reach-identity :
    (p : Platform) (sound : IsSound p.botan) (kp : ℕ) (userdata : Bytes) (start w : ServerNetwork)
    → init kp userdata ≡ ok start
    → Reach p start w
    → (i : ℕ) (status : AuthStatus) (name : Bytes)
    → get_elem? w.client_authenticated_array i ≡ some status
    → get_elem? w.clientid_array i ≡ some name
    → status ≢ undone
    → IsAlias name
      × ((j : ℕ) → get_elem? w.clientid_array j ≡ some name → i ≡ j)
      × ((client : Socket)
          → status ≡ done
          → get_elem? w.client_array i ≡ some client
          → (k : ℕ) × (lookup client.ptr w.crypt.keys ≡ some k))
Reach-identity p sound kp userdata start w e r i status name at_status at_name later =
    let v = Reach-IsValid p sound (init_start-IsValid kp userdata start e).0 r in
    let real = v.named i status name at_status later at_name in
    (
      v.legal i name at_name real,
      λ j h. v.unique i j name at_name h real,
      λ client is_done at_client.
          v.keyed i client
            (subst (λ a. get_elem? w.client_authenticated_array i ≡ some a) is_done at_status)
            at_client,
    )
