-- ===== src/Server/Invariant.antt =====
-- The well-formedness of the server's state (servernetwork.h): the parallel vectors agree, names are
-- legal and unique, and what the handshake has reached is backed by a name and a key.
pub mod Sending
pub mod Leaving
pub mod Joining
pub mod Naming
pub mod Keys
pub mod Logins
pub mod Admission
pub mod Messages
pub mod Handlers
use open_simp.Prelude.{
  ℕ, ◌≤◌, ◌≡◌, ◌≢◌, ◌⊎◌, Bool, true, List, Bytes, Option, some, all, length, get_elem?,
}
use open_simp.Command.Dispatch.{Distinct}
use open_simp.Cryptography.{lookup}
use open_simp.Server.{Socket, AuthStatus, done, undone, Platform, ServerNetwork, unnamed}
use open_simp.Server.Names.{is_word}

-- A name as `nick` accepts it.
pub record IsAlias (name : Bytes) : Type 0 where
  pub short : 3 ≤ length name
  pub long : length name ≤ 16
  pub words : all is_word name ≡ true

pub record IsValid (w : ServerNetwork) : Type 0 where
  pub ids : length w.clientid_array ≡ length w.client_array
  pub ops : length w.client_op_array ≡ length w.client_array
  pub auths : length w.client_authenticated_array ≡ length w.client_array
  pub clocks : length w.client_message_interval ≡ length w.client_array
  -- No two clients share a socket.
  pub sockets :
      (i j : ℕ) (s t : Socket)
      → get_elem? w.client_array i ≡ some s
      → get_elem? w.client_array j ≡ some t
      → s.ptr ≡ t.ptr
      → i ≡ j
  -- No two clients share a name.
  pub unique :
      (i j : ℕ) (n : Bytes)
      → get_elem? w.clientid_array i ≡ some n
      → get_elem? w.clientid_array j ≡ some n
      → n ≢ unnamed
      → i ≡ j
  pub legal : (i : ℕ) (n : Bytes) → get_elem? w.clientid_array i ≡ some n → n ≢ unnamed → IsAlias n
  -- A client past the login has a name, and one past the handshake has a key.
  pub named :
      (i : ℕ) (a : AuthStatus) (n : Bytes)
      → get_elem? w.client_authenticated_array i ≡ some a
      → a ≢ undone
      → get_elem? w.clientid_array i ≡ some n
      → n ≢ unnamed
  pub keyed :
      (i : ℕ) (s : Socket)
      → get_elem? w.client_authenticated_array i ≡ some done
      → get_elem? w.client_array i ≡ some s
      → (k : ℕ) × (lookup s.ptr w.crypt.keys ≡ some k)
  pub commands : Distinct w.cmd_executor.m_cmds
