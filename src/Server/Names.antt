-- ===== src/Server/Names.antt =====
-- Names: `nick` and `handleNick` of src/server/src/servernetwork/servernetwork.cpp.
pub mod Rules
use open_simp.Prelude.{
  ℕ, ◌++◌, ◌==◌, leb, ltb, if◌then◌else◌, Bool, true, false, ◌&&◌, ◌||◌, List, [], ◌∷◌, Bytes,
  codes, length, all, drop, contains, Result, ok, ◌>>=◌, store, strcpy,
}
use open_simp.Server.{Socket, disconnect_kick, Platform, ServerNetwork, soh, name_list}
use open_simp.Server.Wire.{broadcast, send}
use open_simp.Server.Clients.{disconnect_client}

-- The class `[a-zA-Z0-9_]`.
unfoldable pub is_word : ℕ → Bool
is_word c =
    leb b'a' c && leb c b'z' || leb b'A' c && leb c b'Z' || leb b'0' c && leb c b'9' || c == b'_'

-- `find_first_not_of(" \t\n\v\f\r") == npos`
unfoldable pub is_space : ℕ → Bool
is_space c = c == 0x20 || leb 9 c && leb c 13

unfoldable pub is_blank : Bytes → Bool
unfolding is_space
is_blank s = all is_space s

-- The guards of `nick`, in the order of their early returns.
unfoldable pub is_refused : List Bytes → Bytes → Bool
unfolding is_word
is_refused clientid_array name =
    contains clientid_array name
    || ltb (length name) 3
    || ltb 16 (length name)
    || (if all is_word name then false else true)

module _ (p : Platform) where
  unfoldable pub accept_name : Bytes → Socket → ℕ → ServerNetwork → Result (Bool × ServerNetwork)
  accept_name name client iterator w₀ = do
    char_array ← strcpy 256 name
    let w = record w₀ { chat_send_str = name }
    if is_blank name
        then (do
          (sent, w') ← send p (b'6' ∷ soh ∷ codes "Stop sending empty stuff.") client w
          ok (false, w'))
        else (do
          ids ← store w.clientid_array iterator name
          (told, w') ←
              broadcast p (b'1' ∷ soh ∷ (char_array ++ name_list ids)) client.address client.port
                (record w { clientid_array = ids })
          ok (true, w'))

  unfoldable pub nick : Bytes → Socket → ℕ → ServerNetwork → Result (Bool × ServerNetwork)
  nick name client iterator w =
      if is_refused w.clientid_array name
      then (do w' ← disconnect_client p client iterator disconnect_kick w; ok (false, w'))
      else accept_name name client iterator w

  -- The packet's first two characters are dropped.
  unfoldable pub handle_nick : Bytes → Socket → ℕ → ServerNetwork → Result (Bool × ServerNetwork)
  handle_nick received client iterator w = nick (drop 2 received) client iterator w
