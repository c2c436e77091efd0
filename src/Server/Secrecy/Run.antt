-- ===== src/Server/Secrecy/Run.antt =====
-- `receive` in servernetwork.cpp, in a run of the two threads: what it puts on the network.
use open_simp.Prelude.{
  ℕ, ◌≡◌, ◌≢◌, refl, ◌-◌, leb, [], ◌∷◌, some, Bytes, ok, at_ok, store_ok, Ensures, get_elem?,
  get_elem?-lt, get_elem?_total, length-set, set, arith, Bool-cases, inl, inr,
}
use open_simp.Cryptography.Interface.{IsSound}
use open_simp.Server.{
  Socket, Event, AuthStatus, undone, key_received, done, failed, disconnect_leave, disconnect_spam,
  Platform, ServerNetwork, unnamed,
}
use open_simp.Server.Clients.{disconnect_client}
use open_simp.Server.Commands.{init}
use open_simp.Server.Receive.{
  read_raw, Packet, disconnected, got, receive_done, receive_as, receive,
}
use open_simp.Server.Receive.Reachable.{Reach, Reach-IsValid, init_start-IsValid}
use open_simp.Server.Invariant.{IsValid}
use open_simp.Server.Invariant.Keys.{set_clocks-IsValid}
use open_simp.Server.Room.Honest.{Reach-names}
use open_simp.Server.Wire.Growth.{Grows, Grows-refl, Hears}
use open_simp.Server.Secrecy.{Insider, IsSettled, IsGuarded, Permits, disconnect_client-Grows}
use open_simp.Server.Secrecy.Login.{receive_credentials-Grows, receive_key-Grows}
use open_simp.Server.Secrecy.Talk.{Talks, receive_message-Adds}

module _ (p : Platform) (sound : IsSound p.botan) (client : Socket) (iterator now : ℕ)
    (w : ServerNetwork) (v : IsValid w) (settled : IsSettled w)
    (here : get_elem? w.client_array iterator ≡ some client) (received : Bytes) where
  abbrev Allowed : Event → Type 0
  Allowed = IsGuarded p w client received

  abbrev Adds : ServerNetwork → Type 0
  Adds w' = Grows Allowed w.wire w'.wire

  Insider-Hears : (s : Socket) → Insider w s → Hears p Allowed s
  Insider-Hears s i ct sealed = inl (sealed, i)

  may : Permits p Allowed client w.client_array w.client_authenticated_array
  may = record {
    bye = λ reason. refl;
    done_hears = λ j s at_s at_done. Insider-Hears s (j, done, at_s, at_done, λ q. cc);
  }

  named-Hears :
      (n : Bytes)
      → n ≢ unnamed
      → (j : ℕ) (s : Socket) → get_elem? w.clientid_array j ≡ some n
      → get_elem? w.client_array j ≡ some s
      → Hears p Allowed s
  named-Hears n real j s at_n at_s =
      let inside = get_elem?-lt w.client_array j s at_s in
      let (a, at_a) = get_elem?_total w.client_authenticated_array j (omega (arith, v.auths)) in
      Insider-Hears s (j, a, at_s, at_a, λ q. real ((settled j a n at_a at_n).1.0 q))

  talks :
      (a : AuthStatus)
      → get_elem? w.client_authenticated_array iterator ≡ some a
      → a ≢ undone
      → Talks p Allowed client iterator w
  talks a at_a later = record {
    valid = v;
    here = here;
    may = may;
    hears = Insider-Hears client (iterator, a, here, at_a, later);
    named_hears = named-Hears;
  }

  receive_done-Adds :
      get_elem? w.client_authenticated_array iterator ≡ some done
      → Ensures Adds (receive_done p received client iterator now w)
  unfolding receive_done
  receive_done-Adds is_done =
      let inside = get_elem?-lt w.client_array iterator client here in
      let (started, at_clock) =
        get_elem?_total w.client_message_interval iterator (omega (arith, v.clocks)) in
      let clocks = set w.client_message_interval iterator now in
      let w₁ = record w { client_message_interval = clocks } in
      let v₁ : IsValid w₁ =
        set_clocks-IsValid w clocks w.chat_send_str
          (length-set w.client_message_interval iterator now) v in
      let t = talks done is_done (λ q. cc) in
      let t₁ : Talks p Allowed client iterator w₁ = record {
        valid = v₁;
        here = t.here;
        may = t.may;
        hears = t.hears;
        named_hears = t.named_hears;
      } in
      rw
        (
          at_ok w.client_message_interval iterator started at_clock,
          store_ok w.client_message_interval iterator now (omega (arith, v.clocks)),
        )
        (elim (Bool-cases (leb (p.as_milliseconds (now - started)) 20)) [
          | inl spam ↦ rw spam (
              disconnect_client-Grows p sound Allowed client iterator w₁ v₁ here may
                disconnect_spam)
          | inr calm ↦
              rw calm (receive_message-Adds p sound Allowed client iterator now w₁ t₁ received)
        ])

  receive_as-Adds :
      (status : AuthStatus)
      → get_elem? w.client_authenticated_array iterator ≡ some status
      → Ensures Adds (receive_as p status received client iterator now w)
  unfolding receive_as
  receive_as-Adds done at_status = receive_done-Adds at_status
  receive_as-Adds undone at_status =
      receive_credentials-Grows p sound Allowed client iterator w v here may (inr (refl, inl refl))
        received
  receive_as-Adds key_received at_status =
      receive_key-Grows p sound Allowed client iterator w v here may received
        (λ bytes sealed. inr (refl, inr sealed))
  receive_as-Adds failed at_status =
      receive_message-Adds p sound Allowed client iterator now w (talks failed at_status (λ q. cc))
        received

  disconnected-Adds : Ensures Adds (disconnect_client p client iterator disconnect_leave w)
  disconnected-Adds =
      disconnect_client-Grows p sound Allowed client iterator w v here may disconnect_leave

-- What is read of the packet.
abbrev pub payload : Packet → Bytes
payload disconnected = []
payload (got bytes) = read_raw bytes

module _ (p : Platform) (sound : IsSound p.botan) (client : Socket) (iterator now : ℕ)
    (w : ServerNetwork) (v : IsValid w) (settled : IsSettled w)
    (here : get_elem? w.client_array iterator ≡ some client) where
  receive-Adds :
      (packet : Packet)
      → Ensures
          (λ w'. Grows (IsGuarded p w client (payload packet)) w.wire w'.wire)
          (receive p packet client iterator now w)
  unfolding receive
  receive-Adds disconnected = disconnected-Adds p sound client iterator now w v settled here []
  receive-Adds (got []) = Grows-refl (IsGuarded p w client []) w.wire
  receive-Adds (got (x ∷ xs)) =
      let inside = get_elem?-lt w.client_array iterator client here in
      let (a, at_a) =
        get_elem?_total w.client_authenticated_array iterator (omega (arith, v.auths)) in
      rw (at_ok w.client_authenticated_array iterator a at_a) (
        receive_as-Adds p sound client iterator now w v settled here (payload (got (x ∷ xs))) a
          at_a)

-- After a run of the two threads from `init` with safe packets, whatever a client sends next:
-- where `receive` returns, it has only closed that client's socket, sent that client the request
-- for its key or the server's key sealed to the key that the map has for its socket or, if it has
-- none, to the number in its packet, or sent texts sealed under the server's key to clients whose
-- login is over.
pub Reach-Guarded :
    (p : Platform) (sound : IsSound p.botan) (kp : ℕ) (userdata : Bytes) (start w : ServerNetwork)
    → init kp userdata ≡ ok start
    → Reach p start w
    → (packet : Packet) (client : Socket) (iterator now : ℕ)
    → get_elem? w.client_array iterator ≡ some client
    → Ensures
        (λ w'. Grows (IsGuarded p w client (payload packet)) w.wire w'.wire)
        (receive p packet client iterator now w)
Reach-Guarded p sound kp userdata start w e r packet client iterator now here =
    receive-Adds p sound client iterator now w
      (Reach-IsValid p sound (init_start-IsValid kp userdata start e).0 r)
      (Reach-names p sound kp userdata start w e r) here packet
