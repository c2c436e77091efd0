-- ===== src/Client/Input.antt =====
-- What the server makes of a command that a user of the C++ client types: `run` of
-- ClientNetwork.cpp and `iterate` of executor.cpp.
use open_simp.Prelude.{
  ◌≤◌, ℕ, ◌≡◌, refl, ap, ◌++◌, Bool, Bool-cases, inl, inr, not, all, false, true, List, [], ◌∷◌,
  Bytes, codes, has, has-append, length, drop, c_str_of_clean, none, some, arith, str_eq, str_eq→eq,
  get_elem?, at_ok, Result, ok, throws, fault, Returns, Returns-mono, Returns-bind,
}
use open_simp.Cryptography.Sizes.{opened_whole}
use open_simp.Server.Receive.{read_raw}
use open_simp.Cryptography.{Decrypted, decrypt}
use open_simp.Cryptography.Interface.{IsSound}
use open_simp.Client.Crypt
use open_simp.Client.Crypt.Agreement.{server-opens}
use open_simp.Server.Wire.Delivery.{server_key-IsKeyText}
use open_simp.Server.Chat.{handle_text, receive_message}
use open_simp.Lexer.Split.{count_of_clean, parts_of_clean}
use open_simp.Command.{ExecutableCommand, str}
use open_simp.Command.Dispatch.{Distinct, find_command, iterate-perform}
use open_simp.Server.{Socket, Platform, ServerNetwork, server_key}
use open_simp.Server.Wire.{send_string}
use open_simp.Server.Commands.{run_lambda, handle_command}
use open_simp.Client.{ClientNetwork, encode_line, shift_line, send, run_line}

drop-length : (xs : Bytes) → drop (length xs) xs ≡ []
drop-length [] = refl
drop-length (x ∷ xs) = drop-length xs

-- A command line is sent with a NUL behind it.
pub encode_command :
    (line : Bytes) → has 0 line ≡ false → encode_line (b'/' ∷ line) ≡ b'5' ∷ (line ++ 0 ∷ [])
unfolding encode_line shift_line
encode_command line h = rw (c_str_of_clean line h, drop-length line)

-- Names with no NUL in them do not match a word that has one.
abbrev pub clean_name : {F : Type 0} → ExecutableCommand F → Bool
clean_name x = not (has 0 (str x))

find_command_clean :
    {F : Type 0} (xs : List (ExecutableCommand F)) (word : Bytes)
    → has 0 word ≡ true
    → all clean_name xs ≡ true
    → find_command xs word ≡ none
find_command_clean [] word h k = refl
find_command_clean (x ∷ xs) word h k = elim (Bool-cases (str_eq word (str x))) [
  | inl hit ↦
      let same : has 0 word ≡ has 0 (str x) = ap (has 0) (str_eq→eq word (str x) hit) in
      absurd (ground arith)
  | inr miss ↦ rw (miss, find_command_clean xs word h (ground arith))
]

module _ (p : Platform) (line : Bytes) (client : Socket) (iterator : ℕ) (name : Bytes)
    (w : ServerNetwork) where
  -- A command that is typed as one word, with no NUL in it, never runs, whether it is registered
  -- or not, as long as no registered name holds a NUL: the server answers that there is no such
  -- command.
  pub bare_command_unknown :
      Distinct w.cmd_executor.m_cmds
      → all clean_name w.cmd_executor.m_cmds ≡ true
      → get_elem? w.clientid_array iterator ≡ some name
      → has 0 line ≡ false
      → has 0x20 line ≡ false
      → handle_command p (encode_line (b'/' ∷ line)) client iterator w
        ≡ send_string p
            (codes "Command "
              ++ (line ++ 0 ∷ [])
              ++ codes " was not found. Type /help to get help.")
            client
            w
  unfolding handle_command
  bare_command_unknown d names here no_nul no_space =
      let word = line ++ 0 ∷ [] in
      let one : has 0x20 word ≡ false = ground (arith, has-append 0x20 line (0 ∷ [])) in
      let nul : has 0 word ≡ true = ground (arith, has-append 0 line (0 ∷ [])) in
      rw (
        encode_command line no_nul,
        at_ok w.clientid_array iterator name here,
        iterate-perform (run_lambda p client iterator) (λ text. send_string p text client)
            w.cmd_executor word w d (omega (arith, count_of_clean 0x20 word one)) word []
            (parts_of_clean 0x20 word one),
        find_command_clean w.cmd_executor.m_cmds word nul names,
      )

pub receive_message_opened :
    (p : Platform) (ct text iv : Bytes) (client : Socket) (iterator now : ℕ) (w : ServerNetwork)
    → decrypt p.botan ct server_key ≡ ok (record { iv = iv; msg = text })
    → receive_message p ct client iterator now w ≡ handle_text p text client iterator now w
unfolding receive_message
receive_message_opened p ct text iv client iterator now w e =
    ap
      (λ (r : Result Decrypted). elim r [
        | ok x ↦ handle_text p x.msg client iterator now w
        | throws ↦ send_string p (codes "Your previous message was not sent") client w
        | fault e ↦ fault e
      ])
      e

-- The client has sent one packet, which opens on the server to the line's encoding.
abbrev pub LineSent : Platform → Bytes → ClientNetwork → ClientNetwork → Type 0
LineSent p user_input c c' =
    (ct iv : Bytes) × (c'.sent ≡ c.sent ++ ct ∷ [])
    × (c'.aes_key ≡ server_key)
    × (c'.is_connected ≡ c.is_connected)
    × (decrypt p.botan ct server_key ≡ ok (record { iv = iv; msg = encode_line user_input }))

pub run_line_opens :
    (p : Platform) (sound : IsSound p.botan) (user_input : Bytes) (c : ClientNetwork)
    → c.aes_key ≡ server_key
    → Returns (LineSent p user_input c) (run_line p.botan user_input c)
unfolding run_line send
run_line_opens p sound user_input c k = rw k (
    Returns-bind _ _ (Crypt.encrypt p.botan c.crypt (encode_line user_input) server_key) _
      (server-opens p.botan sound server_key (encode_line user_input) server_key-IsKeyText c.crypt)
      (λ (ct, crypt') e (opened, drawn). (ct, _, refl, refl, refl, opened)))

module _ (p : Platform) (sound : IsSound p.botan) (user_input : Bytes) (client : Socket)
    (iterator now : ℕ) (w : ServerNetwork) where
  -- Whatever line the user types, if its encoding has at most 4068 bytes: a client with the
  -- server's key sends one packet, which the server, where it reads it by itself, reads whole and
  -- handles as the line's encoding.
  pub run_line_arrives :
      (c : ClientNetwork)
      → c.aes_key ≡ server_key
      → length (encode_line user_input) ≤ 4068
      → Returns
          (λ c'.
            (ct : Bytes) × (c'.sent ≡ c.sent ++ ct ∷ [])
            × (receive_message p (read_raw ct) client iterator now w
                ≡ handle_text p (encode_line user_input) client iterator now w))
          (run_line p.botan user_input c)
  run_line_arrives c k short =
      Returns-mono _ _ (run_line p.botan user_input c)
        (λ c' (ct, iv, sent, kept, same, opened). (
          ct,
          sent,
          rw (opened_whole p.botan sound ct server_key _ opened short)
              (receive_message_opened p ct _ _ client iterator now w opened),
        ))
        (run_line_opens p sound user_input c k)
