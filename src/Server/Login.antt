-- ===== src/Server/Login.antt =====
-- The handshake on the server: the branches of `receive` for a client that is `Undone` or
-- `KeyReceived`, in src/server/src/servernetwork/servernetwork.cpp.
pub mod Parse
pub mod KeyExchange
use open_simp.Prelude.{
  ℕ, ◌++◌, ◌==◌, ltb, if◌then◌else◌, Bool, true, false, ◌||◌, List, [], ◌∷◌, Bytes, codes, str_eq,
  length, has, c_str, Result, ok, throws, fault, out_of_range, use_after_free, ◌>>=◌, or_throw,
  store,
}
use open_simp.Cryptography.{Cryptography, rsa_decrypt, rsa_encrypt, push_new_client_key}
use open_simp.Server.{
  Socket, disconnect_kick, key_received, done, UserEntry, unreadable, unknown, no_password,
  password, Platform, ServerNetwork, soh, server_key,
}
use open_simp.Server.Wire.{send_unencrypted, broadcast_string}
use open_simp.Server.Clients.{disconnect_client}
use open_simp.Server.Names.{nick}
use open_simp.Server.Userdata.{register_user}

-- `_AuthStatus`: the separators seen so far.
pub data UserStatus : Type 0 where
  got_username got_username_and_password got_neither : UserStatus

pub record Credentials : Type 0 where
  pub uname : Bytes
  pub passwd : Bytes

-- The loop over the decrypted text.
unfoldable pub read_char : ℕ → UserStatus × Credentials → UserStatus × Credentials
read_char x (got_neither, c) =
    if x == soh then (got_username, c) else (got_neither, record c { uname = c.uname ++ x ∷ [] })
read_char x (got_username, c) =
    if x == soh
    then (got_username_and_password, c)
    else (got_username, record c { passwd = c.passwd ++ x ∷ [] })
read_char x (got_username_and_password, c) = (got_username_and_password, c)

unfoldable pub read_chars : Bytes → UserStatus × Credentials → UserStatus × Credentials
read_chars [] s = s
read_chars (x ∷ decstr) s = read_chars decstr (read_char x s)

unfoldable pub parse_credentials : Bytes → Credentials
unfolding read_chars
parse_credentials decstr = (read_chars decstr (got_neither, record { uname = []; passwd = [] })).1

-- `std::string(received_data)`: the buffer has 4096 bytes, zeroed before the packet came in.
unfoldable pub buffer_text : Bytes → Result Bytes
buffer_text received =
    if has 0 received || ltb (length received) 4096 then ok (c_str received) else fault out_of_range

module _ (p : Platform) where
  unfoldable pub request_key : Socket → ℕ → ServerNetwork → Result ServerNetwork
  request_key client iterator w = do
    auths ← store w.client_authenticated_array iterator key_received
    ok (send_unencrypted p (codes "spb") client (record w { client_authenticated_array = auths })).1

  -- A known user with the right password.
  unfoldable pub log_in : Credentials → Socket → ℕ → ServerNetwork → Result ServerNetwork
  log_in c client iterator w = do
    (named, w') ← nick p c.uname client iterator w
    if named then request_key client iterator w' else ok w'

  -- A name that the file does not hold.
  unfoldable pub sign_up : Credentials → Socket → ℕ → ServerNetwork → Result ServerNetwork
  sign_up c client iterator w = do
    (named, w₁) ← nick p c.uname client iterator w
    if named
        then (do
          w₂ ←
              broadcast_string p (codes "Everybody welcome the new user " ++ c.uname) client.address
                client.port (register_user p c.uname c.passwd w₁)
          request_key client iterator w₂)
        else ok w₁

  -- A refused user is kicked, and then the log line asks the socket that was just freed for its
  -- address.
  unfoldable pub reject : Socket → ℕ → ServerNetwork → Result ServerNetwork
  reject client iterator w = do
    kicked ← disconnect_client p client iterator disconnect_kick w
    fault use_after_free

  -- An exception of yaml-cpp is caught nowhere.
  unfoldable pub authenticate :
      UserEntry → Credentials → Socket → ℕ → ServerNetwork → Result ServerNetwork
  authenticate unreadable c client iterator w = throws
  authenticate unknown c client iterator w = sign_up c client iterator w
  authenticate no_password c client iterator w = reject client iterator w
  authenticate (password stored) c client iterator w =
      if str_eq stored c.passwd then log_in c client iterator w else reject client iterator w

  unfoldable pub check_credentials : Credentials → Socket → ℕ → ServerNetwork → Result ServerNetwork
  check_credentials c client iterator w =
      if str_eq c.uname [] || str_eq c.passwd []
      then disconnect_client p client iterator disconnect_kick w
      else authenticate (p.load_user w.userdata c.uname) c client iterator w

  -- `Undone`: the packet is the RSA encryption of the credentials.
  unfoldable pub receive_credentials : Bytes → Socket → ℕ → ServerNetwork → Result ServerNetwork
  receive_credentials received client iterator w = elim (rsa_decrypt p.botan received w.crypt) [
    | ok decstr ↦ check_credentials (parse_credentials decstr) client iterator w
    | throws ↦ disconnect_client p client iterator disconnect_kick w
    | fault e ↦ fault e
  ]

  -- The `try` of `KeyReceived`, at what the encryption of the server's key gave: either the key goes
  -- out and the client is `Done`, or the client is kicked.
  unfoldable pub answer_key :
      Result (Bytes × Cryptography) → Socket → ℕ → ServerNetwork → Result ServerNetwork
  answer_key (ok (sealed, crypt')) client iterator w = do
    let w' = (send_unencrypted p sealed client (record w { crypt = crypt' })).1
    auths ← store w'.client_authenticated_array iterator done
    ok (record w' { client_authenticated_array = auths })
  answer_key throws client iterator w = disconnect_client p client iterator disconnect_kick w
  answer_key (fault e) client iterator w = fault e

  -- `KeyReceived`: the packet is the client's public key in decimal. Reading it and making the key
  -- stand outside the `try`.
  unfoldable pub receive_key : Bytes → Socket → ℕ → ServerNetwork → Result ServerNetwork
  receive_key received client iterator w = do
    text ← buffer_text received
    n ← or_throw (p.botan.read_big_int text)
    crypt' ← push_new_client_key p.botan client.ptr n w.crypt
    answer_key (rsa_encrypt p.botan client.ptr server_key crypt') client iterator
        (record w { crypt = crypt' })
