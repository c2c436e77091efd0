-- ===== src/Examples/Screens.antt =====
-- The client over the toy platform: a handshake, a line, a command and what is printed.
use open_simp.Prelude.{
  ◌≡◌, ◌≢◌, refl, ◌++◌, false, true, [], ◌∷◌, Bytes, codes, ok, Returns, replicate, fault,
  out_of_range, arith,
}
use open_simp.Server.{done, unnamed, soh, server_key}
use open_simp.Server.Wire.{send_string}
use open_simp.Server.Clients.{leave_packet}
use open_simp.Server.Commands.{handle_command}
use open_simp.Server.Chat.{handle_text, receive_message}
use open_simp.Client.{
  ClientNetwork, hasnt_begun, sent_credientials, received_aes_key, started, encode_line,
  screen_text, shown, run_line,
}
use open_simp.Client.Input.{bare_command_unknown, run_line_arrives}
use open_simp.Client.Members.{leave_overflows}
use open_simp.Server.Receive.{read_raw}
use open_simp.Examples.Toy.{toy, toy_botan, toy-IsSound}
use open_simp.Examples.Room.{alice, room, room-IsValid}

abbrev fresh : ClientNetwork
fresh = record {
  crypt = record { kp = 4; draws = 0; keys = [] };
  aes_key = [];
  has_handshook = false;
  is_connected = false;
  server_pubkey = 0;
  status = hasnt_begun;
  sent = [];
}

abbrev waiting : ClientNetwork
waiting = record fresh { status = sent_credientials }

abbrev pub ready : ClientNetwork
ready = record fresh {
  is_connected = true;
  aes_key = server_key;
  has_handshook = true;
  status = received_aes_key;
}

started_test : started 4 ≡ fresh
unfolding started
started_test = refl

slash_test : encode_line (codes "/msg bob hi") ≡ codes "5msg bob hi" ++ 0 ∷ []
unfolding encode_line
slash_test = refl

empty_test : encode_line [] ≡ codes "0AA"
unfolding encode_line
empty_test = refl

response_test : screen_text (b'5' ∷ soh ∷ codes "fine") ≡ ok (codes "(Command) fine\n")
unfolding screen_text shown
response_test = refl

run_line_arrives_example :
    Returns
      (λ c'.
        (ct : Bytes) × (c'.sent ≡ [] ++ ct ∷ [])
        × (receive_message toy (read_raw ct) alice 0 500 (room done)
            ≡ handle_text toy (encode_line (codes "hello")) alice 0 500 (room done)))
      (run_line toy_botan (codes "hello") ready)
unfolding encode_line
run_line_arrives_example =
    run_line_arrives toy toy-IsSound (codes "hello") alice 0 500 (room done) ready refl
      (omega arith)

bare_command_unknown_example :
    handle_command toy (encode_line (codes "/help")) alice 0 (room done)
    ≡ send_string toy
        (codes "Command "
          ++ (codes "help" ++ 0 ∷ [])
          ++ codes " was not found. Type /help to get help.")
        alice
        (room done)
bare_command_unknown_example =
    bare_command_unknown toy (codes "help") alice 0 (codes "alice") (room done)
      (room-IsValid done).commands refl refl refl refl

pub alice_is_named : codes "alice" ≢ unnamed
alice_is_named e = ground arith

leave_overflows_example :
    screen_text (leave_packet (codes "alice") (replicate 120 (codes "bob"))) ≡ fault out_of_range
leave_overflows_example =
    leave_overflows (codes "alice") (replicate 120 (codes "bob")) (omega arith)
