-- ===== src/TestClient/Lines.antt =====
-- The lines that a user of the test client types, as the server opens them: the last loop of main.cpp.
use open_simp.Prelude.{
  ◌≡◌, refl, sym, ap, ◌∙◌, ◌++◌, append_assoc, append-nil, List, [], ◌∷◌, map, Option, some, Bytes,
  c_str, All, length, ◌≤◌, Returns, Returns-bind, Returns-mono,
}
use open_simp.Cryptography.Sizes.{opened_whole}
use open_simp.Server.Receive.{read_raw}
use open_simp.Cryptography
use open_simp.Cryptography.Interface.{IsSound}
use open_simp.Server.{Platform, server_key}
use open_simp.Server.Wire.Delivery.{reading, server_key-IsKeyText}
use open_simp.TestClient.Crypt.{encrypt}
use open_simp.TestClient.Crypt.Twin.{test-opens}
use open_simp.TestClient.{TestClient, send, send_enc, encode_line, run_line, run_lines}

-- What the server reads in a packet.
abbrev pub opened : Platform → Bytes → Option Bytes
opened p ct = reading (Cryptography.decrypt p.botan ct server_key)

module _ (p : Platform) (sound : IsSound p.botan) where
  run_line_sends :
      (line : Bytes) (t : TestClient)
      → t.aes_key ≡ server_key
      → length (c_str (encode_line line)) ≤ 4068
      → Returns
          (λ t'.
            (ct : Bytes) × (t'.sent ≡ t.sent ++ ct ∷ [])
            × (t'.aes_key ≡ server_key)
            × (opened p (read_raw ct) ≡ some (c_str (encode_line line))))
          (run_line p.botan line t)
  unfolding run_line send_enc send
  run_line_sends line t k short = rw k (
      Returns-bind _ _ (encrypt p.botan t.crypt (c_str (encode_line line)) server_key) _
        (test-opens p.botan sound server_key (c_str (encode_line line)) server_key-IsKeyText
          t.crypt)
        (λ (ct, crypt') e is_open. (
          ct,
          refl,
          refl,
          rw (opened_whole p.botan sound ct server_key _ is_open short) (ap reading is_open),
        )))

  -- A test client with the server's key sends one packet for each line that is typed, in order, and
  -- the server, where it receives each packet by itself, reads in it the encoding of the line up to
  -- its first NUL, if that has at most 4068 bytes for each line.
  pub lines_arrive :
      (lines : List Bytes) (t : TestClient)
      → t.aes_key ≡ server_key
      → All (λ line. length (c_str (encode_line line)) ≤ 4068) lines
      → Returns
          (λ t'.
            (cts : List Bytes) × (t'.sent ≡ t.sent ++ cts)
            × (map (λ ct. opened p (read_raw ct)) cts
                ≡ map (λ line. some (c_str (encode_line line))) lines))
          (run_lines p.botan lines t)
  unfolding run_lines
  lines_arrive [] t k short = ([], sym (append-nil t.sent), refl)
  lines_arrive (line ∷ lines) t k (short, shorts) =
      Returns-bind _ _ (run_line p.botan line t) _ (run_line_sends line t k short)
        (λ t₁ e (ct, sent, k₁, is_open).
          Returns-mono _ _ (run_lines p.botan lines t₁)
            (λ t₂ (cts, sent₂, are_open). (
              ct ∷ cts,
              sent₂ ∙ ap (λ s. s ++ cts) sent ∙ append_assoc t.sent (ct ∷ []) cts,
              rw (is_open, are_open),
            ))
            (lines_arrive lines t₁ k₁ shorts))
