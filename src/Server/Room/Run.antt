-- ===== src/Server/Room/Run.antt =====
-- The accepting and the receiving thread of servernetwork.cpp keep to the room: every step of the
-- server is a step of the room that it holds.
use open_simp.Prelude.{
  ℕ, zero, suc, ◌≡◌, refl, ap, subst, sym, ◌∙◌, leb, ◌-◌, List, [], ◌∷◌, some, Bytes, at_ok,
  store_ok, Ensures, Ensures-mono, get_elem?, get_elem?-lt, get_elem?_total, remove_at, modify,
  modify-modify, remove_at-modify, length-set, set, arith, Bool-cases, inl, inr,
}
use mathlib.Core.Option.{some-injective}
use open_simp.Cryptography.Interface.{IsSound}
use open_simp.Server.{
  Socket, AuthStatus, undone, key_received, done, failed, disconnect_leave, disconnect_spam,
  Platform, ServerNetwork,
}
use open_simp.Server.Wire.{send_unencrypted}
use open_simp.Server.Clients.{connect_client, disconnect_client}
use open_simp.Server.Chat.{receive_message}
use open_simp.Server.Receive.{
  read_raw, Packet, disconnected, got, receive_done, receive_as, receive,
}
use open_simp.Server.Receive.Reachable.{Step, accepts, receives, Reach, Reach-IsValid}
use open_simp.Server.Receive.Reachable
use open_simp.Server.Invariant.{IsValid}
use open_simp.Server.Invariant.Keys.{set_clocks-IsValid}
use open_simp.Server.Room.{
  Member, names, heard, renamed, Turn, idles, leaves, speaks, renames, RoomStep, comes, takes_turn,
  RoomReach, here, next,
}
use open_simp.Server.Room.View.{room, room_of-set_clock, room-append, get_elem?-room}
use open_simp.Server.Room.Turns.{disconnect_client-leaves, receive_credentials-Turn}
use open_simp.Server.Room.Turns.Key.{receive_key-Turn}
use open_simp.Server.Room.Turns.Talk.{Saying, keeps, quits, sounds, is_called, receive_message-Says}

names-heard : (now i : ℕ) (r : List Member) → names (modify i (heard now) r) ≡ names r
names-heard now i [] = refl
names-heard now zero (m ∷ r) = refl
names-heard now (suc i) (m ∷ r) = ap (◌∷◌ m.name) (names-heard now i r)

-- Two changes that agree on the entry at hand.
modify_agree :
    (i : ℕ) (f g : Member → Member) (r : List Member) (m : Member)
    → get_elem? r i ≡ some m
    → f m ≡ g m
    → modify i f r ≡ modify i g r
modify_agree i f g [] m h e = cc
modify_agree zero f g (x ∷ r) m h e =
    let same : x ≡ m = some-injective _ _ h in ap (λ y. y ∷ r) (rw same e)
modify_agree (suc i) f g (x ∷ r) m h e = ap (◌∷◌ x) (modify_agree i f g r m h e)

module _ (now i : ℕ) (r : List Member) (m : Member) (at_m : get_elem? r i ≡ some m) where
  -- A saying after the member's clock was restarted.
  Turn-when_heard :
      (r' : List Member)
      → m.status ≡ done
      → Saying now i (modify i (heard now) r) r'
      → Turn now i r r'
  Turn-when_heard r' d (keeps e) = speaks m at_m (inl d) e
  Turn-when_heard r' d (quits e) = leaves (e ∙ remove_at-modify i (heard now) r)
  Turn-when_heard r' d (sounds e) =
      speaks m at_m (inl d) (e ∙ modify-modify i (heard now) (heard now) r)
  Turn-when_heard r' d (is_called name (legal, free) e) =
      renames m name now at_m (inl d) (λ _. refl) (legal, rw (sym (names-heard now i r)) free)
        (e ∙ modify-modify i (heard now) (λ x. record x { name = name }) r)

  Turn-when_failed : (r' : List Member) → m.status ≡ failed → Saying now i r r' → Turn now i r r'
  Turn-when_failed r' f (keeps e) = idles e
  Turn-when_failed r' f (quits e) = leaves e
  Turn-when_failed r' f (sounds e) = speaks m at_m (inr f) e
  Turn-when_failed r' f (is_called name free e) =
      renames m name m.clock at_m (inr f) (λ d. cc) free
        (e ∙ modify_agree i (λ x. record x { name = name }) (renamed name m.clock) r m at_m refl)

module _ (p : Platform) (sound : IsSound p.botan) (client : Socket) (iterator now : ℕ)
    (w : ServerNetwork) (v : IsValid w)
    (here : get_elem? w.client_array iterator ≡ some client) where
  abbrev Turns : ServerNetwork → Type 0
  Turns w' = Turn now iterator (room w) (room w')

  receive_done-Turn :
      get_elem? w.client_authenticated_array iterator ≡ some done
      → (received : Bytes) → Ensures Turns (receive_done p received client iterator now w)
  unfolding receive_done
  receive_done-Turn is_done received =
      let inside = get_elem?-lt w.client_array iterator client here in
      let (started, at_clock) =
        get_elem?_total w.client_message_interval iterator (omega (arith, v.clocks)) in
      let (m, at_m, d) = get_elem?-room w v iterator done is_done in
      let clocks = set w.client_message_interval iterator now in
      let w₁ = record w { client_message_interval = clocks } in
      let v₁ : IsValid w₁ =
        set_clocks-IsValid w clocks w.chat_send_str
          (length-set w.client_message_interval iterator now) v in
      let restarted : room w₁ ≡ modify iterator (heard now) (room w) =
        room_of-set_clock w.client_array w.clientid_array w.client_op_array
          w.client_message_interval w.client_authenticated_array iterator now in
      rw
        (
          at_ok w.client_message_interval iterator started at_clock,
          store_ok w.client_message_interval iterator now (omega (arith, v.clocks)),
        )
        (elim (Bool-cases (leb (p.as_milliseconds (now - started)) 20)) [
          | inl spam ↦ rw spam (
              Ensures-mono _ Turns (disconnect_client p client iterator disconnect_spam w₁)
                (λ w' e. leaves (
                  e
                  ∙ ap (λ r. remove_at r iterator) restarted
                  ∙ remove_at-modify iterator (heard now) (room w)))
                (disconnect_client-leaves p sound client iterator w₁ v₁ here disconnect_spam))
          | inr calm ↦ rw calm (
              Ensures-mono _ Turns (receive_message p received client iterator now w₁)
                (λ w' s.
                  Turn-when_heard now iterator (room w) m at_m (room w') d
                    (subst (λ r. Saying now iterator r (room w')) restarted s))
                (receive_message-Says p sound client iterator now w₁ v₁ here received))
        ])

  receive_as-Turn :
      (status : AuthStatus)
      → get_elem? w.client_authenticated_array iterator ≡ some status
      → (received : Bytes) → Ensures Turns (receive_as p status received client iterator now w)
  unfolding receive_as
  receive_as-Turn done at_status received = receive_done-Turn at_status received
  receive_as-Turn undone at_status received =
      receive_credentials-Turn p sound client iterator w v here now at_status received
  receive_as-Turn key_received at_status received =
      receive_key-Turn p sound client iterator now w v here at_status received
  receive_as-Turn failed at_status received =
      let (m, at_m, f) = get_elem?-room w v iterator failed at_status in
      Ensures-mono _ Turns (receive_message p received client iterator now w)
        (λ w' s. Turn-when_failed now iterator (room w) m at_m (room w') f s)
        (receive_message-Says p sound client iterator now w v here received)

  -- Whatever packet `receive` handles on a well-formed server, if it returns, the room that the server
  -- holds has moved by one turn of that client: it kept still, or the client left, entered under a
  -- free legal name, finished the handshake, spoke or took another free legal name, each as its
  -- status allows, and no other member changed.
  pub receive-refines :
      (packet : Packet)
      → Ensures
          (λ w'. Turn now iterator (room w) (room w'))
          (receive p packet client iterator now w)
  unfolding receive
  receive-refines disconnected =
      Ensures-mono _ Turns (disconnect_client p client iterator disconnect_leave w)
        (λ w' e. leaves e)
        (disconnect_client-leaves p sound client iterator w v here disconnect_leave)
  receive-refines (got []) = idles refl
  receive-refines (got (x ∷ xs)) =
      let inside = get_elem?-lt w.client_array iterator client here in
      let (status, at_status) =
        get_elem?_total w.client_authenticated_array iterator (omega (arith, v.auths)) in
      rw (at_ok w.client_authenticated_array iterator status at_status)
        (receive_as-Turn status at_status (read_raw (x ∷ xs)))

connect_client-comes :
    (p : Platform) (new : Socket) (now : ℕ) (w : ServerNetwork)
    → IsValid w
    → RoomStep (room w) (room (connect_client p new now w))
unfolding connect_client send_unencrypted
connect_client-comes p new now w v = comes new now (room-append w v new now)

module _ (p : Platform) (sound : IsSound p.botan) where
  Step-RoomStep : (w w' : ServerNetwork) → IsValid w → Step p w w' → RoomStep (room w) (room w')
  Step-RoomStep w w' v (accepts new now fresh e) = rw e (connect_client-comes p new now w v)
  Step-RoomStep w w' v (receives packet client iterator now at_i safe e) = takes_turn now iterator (
      subst (Ensures (λ u. Turn now iterator (room w) (room u))) e
        (receive-refines p sound client iterator now w v at_i packet))

  -- The server refines the room: every run of its two threads from a well-formed state is, seen
  -- through the members that the vectors hold, a run of the room, step by step.
  pub Reach-RoomReach :
      {w w' : ServerNetwork} → IsValid w → Reach p w w' → RoomReach (room w) (room w')
  Reach-RoomReach v Reachable.here = here
  Reach-RoomReach v (Reachable.next {u = u} {v = t} r s) =
      next (Reach-RoomReach v r) (Step-RoomStep u t (Reach-IsValid p sound v r) s)
