-- ===== src/Examples/Servers.antt =====
-- The handlers of the server at concrete packets.
use open_simp.Prelude.{
  ◌≡◌, ◌≢◌, refl, ◌++◌, false, List, [], ◌∷◌, map, replicate, some, Bytes, codes, ok, fault,
  overflow, Returns, arith, subst, get_elem?,
}
use mathlib.Core.Option.{some-injective}
use open_simp.Server.{
  done, key_received, disconnect_kick, Event, ServerNetwork, password, unreadable, soh, unnamed,
}
use open_simp.Server.Wire.{send_unencrypted}
use open_simp.Server.Wire.Delivery.{read_event}
use open_simp.Server.Clients.{connect_client, disconnect_client}
use open_simp.Server.Clients.Departure.{IsGone, disconnect_client-IsGone}
use open_simp.Server.Names.{nick, is_blank}
use open_simp.Server.Login.{check_credentials, buffer_text, Credentials}
use open_simp.Server.Commands.{handle_command}
use open_simp.Server.Commands.Registry.{handle_command-OnlySends}
use open_simp.Server.Chat.{handle_send, handle_chat, handle_text}
use open_simp.Server.Chat.Relay.{handle_chat_delivers, long_chat_overflows}
use open_simp.Server.Receive.{got, receive}
use open_simp.Server.Invariant.{IsValid}
use open_simp.Server.Invariant.Sending.{OnlySends}
use open_simp.Server.Invariant.Naming.{NickOutcome, nick-NickOutcome}
use open_simp.Server.Invariant.Logins.{LoginEnds, check_credentials-LoginOutcome}
use open_simp.Server.Invariant.Messages.{SendOutcome, handle_send-SendOutcome}
use open_simp.Server.Invariant.Handlers.{IsSafe, IsSafeFor, receive-IsValid}
use open_simp.Examples.Toy.{toy, toy-IsSound}
use open_simp.Examples.Room.{alice, carol, bob, room, room-IsValid, lobby, lobby-IsValid}

bob_at : get_elem? lobby.client_array 2 ≡ some bob
unfolding connect_client send_unencrypted
bob_at = refl

nick-NickOutcome_example :
    Returns (NickOutcome toy (codes "robert") 2 lobby) (nick toy (codes "robert") bob 2 lobby)
nick-NickOutcome_example =
    nick-NickOutcome toy toy-IsSound (codes "robert") bob 2 lobby lobby-IsValid bob_at

abbrev newcomer : Credentials
newcomer = record { uname = codes "dave"; passwd = codes "secret" }

abbrev wrong : Credentials
wrong = record { uname = codes "carol"; passwd = codes "guess" }

lobby_readable : toy.load_user lobby.userdata (codes "dave") ≢ unreadable
unfolding connect_client send_unencrypted
lobby_readable e = cc

carol_stored : toy.load_user lobby.userdata (codes "carol") ≡ password (codes "secret")
unfolding connect_client send_unencrypted
carol_stored = refl

check_credentials-LoginOutcome_example :
    LoginEnds toy newcomer bob 2 lobby (check_credentials toy newcomer bob 2 lobby)
check_credentials-LoginOutcome_example =
    check_credentials-LoginOutcome toy toy-IsSound newcomer bob 2 lobby lobby-IsValid bob_at
      lobby_readable

handle_send-SendOutcome_example :
    Returns
      (SendOutcome (codes "0hello") 0 (room done))
      (handle_send toy (codes "0hello") alice 0 (room done))
handle_send-SendOutcome_example =
    handle_send-SendOutcome toy toy-IsSound (codes "0hello") alice 0 (room done) (room-IsValid done)
      refl

handle_command-OnlySends_example :
    Returns (OnlySends (room done)) (handle_command toy (codes "5msg carol hi") alice 0 (room done))
handle_command-OnlySends_example =
    handle_command-OnlySends toy toy-IsSound (codes "5msg carol hi") alice 0 (room done)
      (room-IsValid done) refl (omega arith)

alice_named : codes "alice" ≢ unnamed
alice_named e = ground arith

not_blank : is_blank (codes "hello") ≡ false
unfolding is_blank
not_blank = refl

handle_chat_delivers_example :
    (w' : ServerNetwork) × (es : List Event) × (handle_chat toy
        (codes "0hello")
        alice
        0
        500
        (room done)
      ≡ ok w')
    × (w'.wire ≡ [] ++ es)
    × (map (read_event toy) es
        ≡ (carol, some (b'0' ∷ soh ∷ (codes "hello" ++ soh ∷ codes "alice"))) ∷ [])
    × (w'.client_message_interval ≡ 500 ∷ 0 ∷ [])
    × (w'.client_array ≡ (room done).client_array)
    × (w'.clientid_array ≡ (room done).clientid_array)
handle_chat_delivers_example =
    handle_chat_delivers toy (codes "0hello") (codes "alice") alice 0 500 (room done)
      (room-IsValid done) refl refl alice_named not_blank toy-IsSound refl refl (omega arith)

long_blank : is_blank (replicate 300 b'a') ≡ false
unfolding is_blank
long_blank = refl

long_chat_overflows_example :
    handle_text toy (b'0' ∷ replicate 300 b'a') alice 0 500 (room done) ≡ fault overflow
long_chat_overflows_example =
    long_chat_overflows toy (replicate 300 b'a') (codes "alice") alice 0 500 (room done)
      (room-IsValid done) refl refl alice_named long_blank refl refl refl (omega arith)
      (omega arith)

disconnect_client-IsGone_example :
    (name : Bytes) × (get_elem? (room done).clientid_array 1 ≡ some name)
    × Returns
        (IsGone toy carol 1 disconnect_kick name (room done))
        (disconnect_client toy carol 1 disconnect_kick (room done))
disconnect_client-IsGone_example =
    disconnect_client-IsGone toy toy-IsSound carol 1 disconnect_kick (room done) (room-IsValid done)
      refl

key_text_readable : buffer_text (codes "+11") ≡ ok (codes "+11")
unfolding buffer_text
key_text_readable = refl

room-IsSafe : IsSafe toy (got (codes "+11")) (room key_received) 1
room-IsSafe status e =
    subst (λ t. IsSafeFor toy t (room key_received) 1 (codes "+11")) (some-injective _ _ e)
      (codes "+11", 2, key_text_readable, refl, refl)

receive-IsValid_example :
    Returns IsValid (receive toy (got (codes "+11")) carol 1 500 (room key_received))
receive-IsValid_example =
    receive-IsValid toy toy-IsSound (got (codes "+11")) carol 1 500 (room key_received)
      (room-IsValid key_received) refl room-IsSafe
