-- ===== src/Examples/Twins.antt =====
-- The test client over the toy platform: its handshake, a command and what it prints.
use open_simp.Prelude.{
  List, map, some, ok, ◌≡◌, refl, ◌++◌, true, false, [], ◌∷◌, Bytes, codes, c_str, Returns,
  replicate, arith, zero, suc,
}
use open_simp.Cryptography.{encrypt}
use open_simp.Server.{done, server_key}
use open_simp.Server.Chat.{handle_text, receive_message}
use open_simp.Client
use open_simp.TestClient.Crypt
use open_simp.TestClient
use open_simp.TestClient.{
  TestClient, hasnt_begun, received_aes_key, encode_line, run_line, run_lines, receive,
}
use open_simp.TestClient.Twin.{twin, twins, SealsFull, handshake_loop-twins}
use open_simp.TestClient.Lines.{opened, lines_arrive}
use open_simp.TestClient.Packets.{command_line_arrives, packet_printed}
use open_simp.Server.Receive.{read_raw}
use open_simp.Examples.Toy.{toy, toy_botan, toy-IsSound}
use open_simp.Examples.Room.{alice, room}

abbrev fresh : TestClient
fresh = record {
  crypt = record { kp = 4; draws = 0; keys = [] };
  aes_key = [];
  has_handshook = false;
  server_pubkey = 0;
  status = hasnt_begun;
  sent = [];
}

abbrev ready : TestClient
ready = record fresh { aes_key = server_key; has_handshook = true; status = received_aes_key }

started_test : TestClient.started 4 ≡ fresh
unfolding TestClient.started
started_test = refl

text_test : encode_line (codes "hello") ≡ codes "0hello"
unfolding encode_line
text_test = refl

empty_test : encode_line [] ≡ codes "0"
unfolding encode_line
empty_test = refl

toy-SealsFull : SealsFull toy_botan
toy-SealsFull zero draw m c h e = cc
toy-SealsFull (suc n) draw m c h e = ground arith

handshake_loop-twins_example :
    twins (
      TestClient.handshake_loop toy_botan
        (codes "dave")
        (codes "pw")
        ((b'+' ∷ (replicate 8 b'1' ++ 0 ∷ [])) ∷ codes "spb" ∷ (0xBB ∷ server_key) ∷ [])
        fresh)
    ≡ Client.handshake_loop toy_botan
        (codes "dave")
        (codes "pw")
        ((b'+' ∷ (replicate 8 b'1' ++ 0 ∷ [])) ∷ codes "spb" ∷ (0xBB ∷ server_key) ∷ [])
        (twin fresh)
handshake_loop-twins_example =
    handshake_loop-twins toy_botan toy-IsSound toy-SealsFull (codes "dave") (codes "pw")
      ((b'+' ∷ (replicate 8 b'1' ++ 0 ∷ [])) ∷ codes "spb" ∷ (0xBB ∷ server_key) ∷ []) fresh

-- Those three packets end the handshake.
loop_test :
    Returns
      (λ t. (t.has_handshook ≡ true) × (t.aes_key ≡ server_key))
      (TestClient.handshake_loop toy_botan
        (codes "dave")
        (codes "pw")
        ((b'+' ∷ (replicate 8 b'1' ++ 0 ∷ [])) ∷ codes "spb" ∷ (0xBB ∷ server_key) ∷ [])
        fresh)
unfolding TestClient.handshake_loop TestClient.handshake TestClient.handshake_as
    Crypt.push_new_client_key Crypt.rsa_encrypt Crypt.rsa_decrypt TestClient.read_number
    TestClient.send
loop_test = (refl, refl)

command_line_arrives_example :
    Returns
      (λ t'.
        (ct : Bytes) × (t'.sent ≡ [] ++ ct ∷ [])
        × (receive_message toy (read_raw ct) alice 0 500 (room done)
            ≡ handle_text toy (b'5' ∷ c_str (codes "help")) alice 0 500 (room done)))
      (run_line toy_botan (b'/' ∷ codes "help") ready)
command_line_arrives_example =
    command_line_arrives toy toy-IsSound (codes "help") alice 0 500 (room done) ready refl
      (omega arith)

packet_printed_example :
    Returns
      (λ r. receive toy_botan r.0 ready ≡ ok (codes " --> " ++ (codes "hi" ++ codes "\n")))
      (encrypt toy_botan (room done).crypt (codes "hi") server_key)
packet_printed_example =
    packet_printed toy toy-IsSound (codes "hi") (room done).crypt ready refl (omega arith)

lines_arrive_example :
    Returns
      (λ t'.
        (cts : List Bytes) × (t'.sent ≡ [] ++ cts)
        × (map (λ ct. opened toy (read_raw ct)) cts
            ≡ some (codes "0hi") ∷ some (codes "5help") ∷ []))
      (run_lines toy_botan (codes "hi" ∷ codes "/help" ∷ []) ready)
unfolding encode_line
lines_arrive_example =
    lines_arrive toy toy-IsSound (codes "hi" ∷ codes "/help" ∷ []) ready refl
      (omega arith, (omega arith, tt))
