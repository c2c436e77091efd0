-- ===== src/Examples/Rooms.antt =====
-- The room behind the vectors, a pass of `manage`, the command `msg` and a stale key, at concrete
-- states over the toy platform.
use open_simp.Prelude.{
  ℕ, zero, suc, ◌+◌, length, ◌≡◌, ◌≢◌, refl, ◌++◌, List, [], ◌∷◌, map, some, codes, c_str, ok,
  Returns, Ensures, replicate, arith,
}
use open_simp.Cryptography.{lookup}
use open_simp.Server.{
  Event, done, key_received, transmitted, ServerNetwork, unnamed, soh, server_key,
}
use open_simp.Server.Wire.Delivery.{read_event}
use open_simp.Server.Login.{buffer_text, receive_key}
use open_simp.Server.Login.KeyExchange.{stale_key_answers}
use open_simp.Server.Commands.{handle_command, spaced}
use open_simp.Server.Commands.Message.{msg_delivers}
use open_simp.Server.Receive.{disconnected, receive, manage_pass}
use open_simp.Server.Receive.Pass.{IsSafePass, Passes, manage_pass-Passes}
use open_simp.Server.Invariant.{IsValid}
use open_simp.Cryptography.{encrypt, remove_client_key}
use open_simp.Server.{name_list}
use open_simp.Server.Wire.{broadcast, broadcast_loop, send}
use open_simp.Server.Clients.{disconnect_client, leave_packet, forget_key}
use open_simp.Server.Receive.Threads.{manage, manage-Reach}
use open_simp.Server.Receive.Reachable.{Reach}
use open_simp.Server.Room.{Turn, RoomReach}
use open_simp.Server.Room.View
use open_simp.Server.Room.Run.{receive-refines, Reach-RoomReach}
use open_simp.Examples.Toy.{toy, toy-IsSound}
use open_simp.Examples.Room.{alice, carol, room, room-IsValid}
use open_simp.Examples.Runs.{start, logged_in, run, start-IsValid}

receive-refines_example :
    Ensures
      (λ w'. Turn 500 0 (View.room (room done)) (View.room w'))
      (receive toy disconnected alice 0 500 (room done))
receive-refines_example =
    receive-refines toy toy-IsSound alice 0 500 (room done) (room-IsValid done) refl disconnected

Reach-RoomReach_example : RoomReach (View.room start) (View.room logged_in)
Reach-RoomReach_example = Reach-RoomReach toy toy-IsSound start-IsValid run

-- Everybody leaves.
manage_pass-Passes_example :
    Returns
      (λ w'. IsValid w' × Passes toy (λ s. disconnected) 500 0 (room done) w')
      (manage_pass toy (λ s. disconnected) 500 2 0 (room done))
manage_pass-Passes_example =
    manage_pass-Passes toy (λ s. disconnected) 500 toy-IsSound 2 0 (room done) (room-IsValid done)
      (omega arith) (λ s h. (tt, λ u e t k. (tt, λ u' e'. tt)))

alice_real : codes "alice" ≢ unnamed
alice_real e = ground arith

carol_real : codes "carol" ≢ unnamed
carol_real e = ground arith

alice-ne-carol : codes "carol" ≢ codes "alice"
alice-ne-carol e = ground arith

msg_delivers_example :
    (w' : ServerNetwork) × (es : List Event) × (handle_command toy
        (codes "5msg carol hi")
        alice
        0
        (room done)
      ≡ ok w')
    × (w'.wire ≡ [] ++ es)
    × (map (read_event toy) es
        ≡ (
          carol,
          some (
              c_str (
                b'6'
                ∷ soh
                ∷ (codes "["
                    ++ (codes "carol"
                        ++ (codes " -> "
                            ++ (codes "alice"
                                ++ (codes "]: " ++ spaced (codes "hi" ∷ replicate 509 [])))))))),
        )
          ∷ [])
msg_delivers_example =
    msg_delivers toy toy-IsSound (codes "5msg carol hi") alice 0 (room done) (room-IsValid done)
      (codes "alice") (codes "carol") (codes "hi" ∷ []) refl carol_real refl (omega arith) refl 1
      carol alice-ne-carol refl refl

number_readable : buffer_text (codes "+11") ≡ ok (codes "+11")
unfolding buffer_text
number_readable = refl

-- The map holds 6 under carol's socket, and her key is 2.
stale_key_answers_example :
    (w' : ServerNetwork) × (receive_key toy (codes "+11") carol 1 (room key_received) ≡ ok w')
    × (w'.wire ≡ [] ++ transmitted carol (0xBB ∷ server_key) ∷ [])
    × (w'.client_authenticated_array ≡ done ∷ done ∷ [])
    × (lookup 2 w'.crypt.keys ≡ some 6)
stale_key_answers_example =
    stale_key_answers toy carol 1 (room key_received) (codes "+11") (codes "+11")
      (0xBB ∷ server_key) 2 6 (omega arith) refl number_readable refl refl refl

all_may_leave :
    (now fuel iterator : ℕ) (w : ServerNetwork)
    → IsSafePass toy (λ s. disconnected) now fuel iterator w
all_may_leave now zero iterator w = tt
all_may_leave now (suc fuel) iterator w =
    λ client here. (tt, λ w' e. all_may_leave now fuel (iterator + 1) w')

-- Everybody leaves: the first pass skips the client behind each that left, and the second finds it.
manage-Reach_example :
    Returns
      (λ w'. IsValid w' × Reach toy (room done) w')
      (manage toy (((λ s. disconnected), 400) ∷ ((λ s. disconnected), 500) ∷ []) (room done))
manage-Reach_example =
    manage-Reach toy toy-IsSound (((λ s. disconnected), 400) ∷ ((λ s. disconnected), 500) ∷ [])
      (room done) (room-IsValid done)
      (
        all_may_leave 400 2 0 (room done),
        λ u e. (all_may_leave 500 (length u.client_array) 0 u, λ w' k. tt),
      )

-- What is left after one pass, and after two.
skipped_test :
    Returns
      (λ w'. w'.client_array ≡ carol ∷ [])
      (manage toy (((λ s. disconnected), 400) ∷ []) (room done))
unfolding manage manage_pass receive disconnect_client leave_packet name_list forget_key broadcast
    broadcast_loop send encrypt remove_client_key
skipped_test = refl
