-- ===== src/TestClient/Packets.antt =====
-- The packets of a test client that has the server's key: the last loop of main.cpp with
-- `send_enc`, and `receive`.
use open_simp.Prelude.{
  ◌≤◌, codes, Returns-result, subst, ok, ℕ, ◌≡◌, refl, ◌++◌, [], ◌∷◌, Bytes, length, drop, c_str,
  Returns, Returns-bind, arith,
}
use open_simp.Cryptography.RoundTrip.{decrypt-encrypt}
use open_simp.Cryptography.Sizes.{opened_whole}
use open_simp.Server.Receive.{read_raw}
use open_simp.Cryptography.Interface.{IsSound}
use open_simp.TestClient.Crypt.{encrypt, decrypt}
use open_simp.TestClient.Crypt.Twin.{test-opens, opens-server}
use open_simp.Cryptography
use open_simp.Client.Input.{receive_message_opened}
use open_simp.Server.{Socket, Platform, ServerNetwork, server_key}
use open_simp.Server.Wire.Delivery.{server_key-IsKeyText}
use open_simp.Server.Chat.{handle_text, receive_message}
use open_simp.TestClient.{TestClient, send, send_enc, encode_line, run_line, receive}

c_str_cut : (s z : Bytes) → c_str (c_str s ++ 0 ∷ z) ≡ c_str s
c_str_cut [] z = refl
c_str_cut (x ∷ s) z = ground (arith, c_str_cut s z)

-- The NUL that `memmove` moves along ends the text that is sent.
encode_command : (line : Bytes) → c_str (encode_line (b'/' ∷ line)) ≡ b'5' ∷ c_str line
unfolding encode_line
encode_command line = rw (c_str_cut line (drop (length (c_str line)) line)) refl

module _ (p : Platform) (sound : IsSound p.botan) (line : Bytes) (client : Socket)
    (iterator now : ℕ) (w : ServerNetwork) where
  -- Whatever command the user types behind a slash, if it has at most 4067 bytes up to its first
  -- NUL: a test client with the server's key sends one packet, which the server, where it reads
  -- it by itself, reads whole and handles as the command up to its first NUL, behind a 5.
  pub command_line_arrives :
      (t : TestClient)
      → t.aes_key ≡ server_key
      → length (c_str line) ≤ 4067
      → Returns
          (λ t'.
            (ct : Bytes) × (t'.sent ≡ t.sent ++ ct ∷ [])
            × (receive_message p (read_raw ct) client iterator now w
                ≡ handle_text p (b'5' ∷ c_str line) client iterator now w))
          (run_line p.botan (b'/' ∷ line) t)
  unfolding run_line send_enc send
  command_line_arrives t k short =
      rw (k, encode_command line)
        (Returns-bind _ _ (encrypt p.botan t.crypt (b'5' ∷ c_str line) server_key) _
          (test-opens p.botan sound server_key (b'5' ∷ c_str line) server_key-IsKeyText t.crypt)
          (λ (ct, crypt') e opened. (
            ct,
            refl,
            rw (opened_whole p.botan sound ct server_key _ opened (omega (arith, short)))
                (receive_message_opened p ct _ _ client iterator now w opened),
          )))

-- Whatever text of at most 4068 bytes the server encrypts with its key, the test client, which
-- has that key, reads in one packet and prints in full behind an arrow.
pub packet_printed :
    (p : Platform) (sound : IsSound p.botan) (text : Bytes) (c : Cryptography.Cryptography)
    (t : TestClient)
    → t.aes_key ≡ server_key
    → length text ≤ 4068
    → Returns
        (λ r. receive p.botan r.0 t ≡ ok (codes " --> " ++ (text ++ codes "\n")))
        (Cryptography.encrypt p.botan c text server_key)
unfolding receive
packet_printed p sound text c t k short =
    let (r, e, (sealed, _)) =
      Returns-result _ (Cryptography.encrypt p.botan c text server_key)
        (decrypt-encrypt p.botan sound c text server_key server_key-IsKeyText) in
    let opened =
      subst (Returns (λ r. decrypt p.botan r.0 server_key ≡ ok _)) e
        (opens-server p.botan sound server_key text server_key-IsKeyText c) in
    rw (k, e) (rw (opened_whole p.botan sound r.0 server_key _ sealed short, opened) refl)
