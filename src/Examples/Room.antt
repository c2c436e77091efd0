-- ===== src/Examples/Room.antt =====
-- A small well-formed server: alice and carol have finished the handshake, and bob has connected.
use open_simp.Prelude.{
  ℕ, zero, suc, ◌≡◌, refl, false, [], ◌∷◌, some, Bytes, codes, get_elem?, subst, arith,
}
use mathlib.Core.Option.{some-injective}
use open_simp.Command.{get_command}
use open_simp.Cryptography.{lookup}
use open_simp.Server.{Socket, AuthStatus, done, help, plugins, msg, ServerNetwork}
use open_simp.Server.Clients.{connect_client}
use open_simp.Server.Names.{is_word}
use open_simp.Server.Names.Rules.{alias_ne_unnamed}
use open_simp.Server.Invariant.{IsAlias, IsValid}
use open_simp.Server.Invariant.Joining.{IsFresh, connect_client-IsValid}
use open_simp.Examples.Toy.{toy}

abbrev pub alice : Socket
alice = record { ptr = 1; address = 10; port = 1000 }

abbrev pub carol : Socket
carol = record { ptr = 2; address = 11; port = 1000 }

abbrev pub bob : Socket
bob = record { ptr = 3; address = 12; port = 1000 }

-- The server with alice and with carol, who has the given status.
abbrev pub room : AuthStatus → ServerNetwork
room status = record {
  client_array = alice ∷ carol ∷ [];
  clientid_array = codes "alice" ∷ codes "carol" ∷ [];
  client_op_array = false ∷ false ∷ [];
  client_message_interval = 0 ∷ 0 ∷ [];
  client_authenticated_array = done ∷ status ∷ [];
  chat_send_str = [];
  cmd_executor = record {
    m_cmds =
        get_command (codes "help") help
        ∷ get_command (codes "plugins") plugins
        ∷ get_command (codes "msg") msg
        ∷ [];
  };
  crypt = record { kp = 7; draws = 0; keys = (1, 5) ∷ (2, 6) ∷ [] };
  userdata = codes "carol:secret";
  wire = [];
}

sockets :
    (i j : ℕ) (s t : Socket)
    → get_elem? (alice ∷ carol ∷ []) i ≡ some s
    → get_elem? (alice ∷ carol ∷ []) j ≡ some t
    → s.ptr ≡ t.ptr
    → i ≡ j
sockets zero zero s t h k e = refl
sockets zero (suc zero) s t h k e = absurd (ground arith)
sockets (suc zero) zero s t h k e = absurd (ground arith)
sockets (suc zero) (suc zero) s t h k e = refl
sockets (suc (suc i)) j s t h k e = absurd (cc)
sockets zero (suc (suc j)) s t h k e = absurd (cc)
sockets (suc zero) (suc (suc j)) s t h k e = absurd (cc)

names :
    (i j : ℕ) (n : Bytes)
    → get_elem? (codes "alice" ∷ codes "carol" ∷ []) i ≡ some n
    → get_elem? (codes "alice" ∷ codes "carol" ∷ []) j ≡ some n
    → i ≡ j
names zero zero n h k = refl
names zero (suc zero) n h k = absurd (ground arith)
names (suc zero) zero n h k = absurd (ground arith)
names (suc zero) (suc zero) n h k = refl
names (suc (suc i)) j n h k = absurd (cc)
names zero (suc (suc j)) n h k = absurd (cc)
names (suc zero) (suc (suc j)) n h k = absurd (cc)

pub alice-IsAlias : IsAlias (codes "alice")
unfolding is_word
alice-IsAlias = record { short = omega arith; long = omega arith; words = refl }

pub carol-IsAlias : IsAlias (codes "carol")
unfolding is_word
carol-IsAlias = record { short = omega arith; long = omega arith; words = refl }

legal : (i : ℕ) (n : Bytes) → get_elem? (codes "alice" ∷ codes "carol" ∷ []) i ≡ some n → IsAlias n
legal zero n h = subst IsAlias (some-injective _ _ h) alice-IsAlias
legal (suc zero) n h = subst IsAlias (some-injective _ _ h) carol-IsAlias
legal (suc (suc i)) n h = absurd (cc)

keyed :
    (i : ℕ) (s : Socket)
    → get_elem? (alice ∷ carol ∷ []) i ≡ some s
    → (k : ℕ) × (lookup s.ptr ((1, 5) ∷ (2, 6) ∷ []) ≡ some k)
keyed zero s h = (5, ground arith)
keyed (suc zero) s h = (6, ground arith)
keyed (suc (suc i)) s h = absurd (cc)

pub room-IsValid : (status : AuthStatus) → IsValid (room status)
room-IsValid status = record {
  ids = refl;
  ops = refl;
  auths = refl;
  clocks = refl;
  sockets = sockets;
  unique = λ i j n h k real. names i j n h k;
  legal = λ i n h real. legal i n h;
  named = λ i a n h past k. alias_ne_unnamed n (legal i n k);
  keyed = λ i s h k. keyed i s k;
  commands = (refl, (refl, (refl, tt)));
}

-- The same with bob, who has no name yet.
abbrev pub lobby : ServerNetwork
lobby = connect_client toy bob 0 (room done)

bob-IsFresh : IsFresh bob (room done)
bob-IsFresh zero s h e = ground arith
bob-IsFresh (suc zero) s h e = ground arith
bob-IsFresh (suc (suc i)) s h e = cc

pub lobby-IsValid : IsValid lobby
lobby-IsValid = connect_client-IsValid toy bob 0 (room done) bob-IsFresh (room-IsValid done)
