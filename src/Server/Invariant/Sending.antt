-- ===== src/Server/Invariant/Sending.antt =====
-- Handlers that only send leave a well-formed server well formed.
use open_simp.Prelude.{◌≡◌, ℕ, ◌∷◌, ok, refl, ◌∙◌, List, Bytes}
use open_simp.Server.Wire.{broadcast_string}
use open_simp.Server.{soh}
use open_simp.Server.{Socket, Platform, ServerNetwork}
use open_simp.Server.Wire.Delivery.{posted, keys-drawn_all, kp-drawn_all}
use open_simp.Server.Invariant.{IsValid}
use open_simp.Cryptography.Interface.{IsSound}
use open_simp.Server.Wire.Delivery.{recipients, broadcast_lem}

-- From `w` to `w'` nothing changed but what was sent, the nonces drawn and the last chat line.
pub record OnlySends (w w' : ServerNetwork) : Type 0 where
  pub clients : w'.client_array ≡ w.client_array
  pub names : w'.clientid_array ≡ w.clientid_array
  pub ops : w'.client_op_array ≡ w.client_op_array
  pub clocks : w'.client_message_interval ≡ w.client_message_interval
  pub auths : w'.client_authenticated_array ≡ w.client_authenticated_array
  pub commands : w'.cmd_executor ≡ w.cmd_executor
  pub userdata : w'.userdata ≡ w.userdata
  pub keys : w'.crypt.keys ≡ w.crypt.keys
  pub kp : w'.crypt.kp ≡ w.crypt.kp

pub OnlySends-refl : (w : ServerNetwork) → OnlySends w w
OnlySends-refl w = record {
  clients = refl;
  names = refl;
  ops = refl;
  clocks = refl;
  auths = refl;
  commands = refl;
  userdata = refl;
  keys = refl;
  kp = refl;
}

pub OnlySends-trans : {u v w : ServerNetwork} → OnlySends u v → OnlySends v w → OnlySends u w
OnlySends-trans p q = record {
  clients = q.clients ∙ p.clients;
  names = q.names ∙ p.names;
  ops = q.ops ∙ p.ops;
  clocks = q.clocks ∙ p.clocks;
  auths = q.auths ∙ p.auths;
  commands = q.commands ∙ p.commands;
  userdata = q.userdata ∙ p.userdata;
  keys = q.keys ∙ p.keys;
  kp = q.kp ∙ p.kp;
}

pub OnlySends-IsValid : (w w' : ServerNetwork) → OnlySends w w' → IsValid w → IsValid w'
OnlySends-IsValid w w' o v = record {
  ids = rw (o.names, o.clients) v.ids;
  ops = rw (o.ops, o.clients) v.ops;
  auths = rw (o.auths, o.clients) v.auths;
  clocks = rw (o.clocks, o.clients) v.clocks;
  sockets = rw (o.clients) v.sockets;
  unique = rw (o.names) v.unique;
  legal = rw (o.names) v.legal;
  named = rw (o.auths, o.names) v.named;
  keyed = rw (o.auths, o.clients, o.keys) v.keyed;
  commands = rw (o.commands) v.commands;
}

pub posted-OnlySends :
    (p : Platform) (str : Bytes) (ss : List Socket) (w : ServerNetwork)
    → OnlySends w (posted p str ss w)
posted-OnlySends p str ss w = record {
  clients = refl;
  names = refl;
  ops = refl;
  clocks = refl;
  auths = refl;
  commands = refl;
  userdata = refl;
  keys = keys-drawn_all ss w.crypt;
  kp = kp-drawn_all ss w.crypt;
}

-- Broadcasting a server message only sends.
pub broadcast_string_lem :
    (p : Platform) (sound : IsSound p.botan) (str : Bytes) (address port : ℕ) (w : ServerNetwork)
    → IsValid w
    → broadcast_string p str address port w
      ≡ ok (
          posted p
            (b'6' ∷ soh ∷ str)
            (recipients address port w.client_array w.client_authenticated_array)
            w)
unfolding broadcast_string
broadcast_string_lem p sound str address port w v =
    rw (broadcast_lem p sound (b'6' ∷ soh ∷ str) address port w v.auths)
