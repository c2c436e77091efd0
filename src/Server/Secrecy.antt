-- ===== src/Server/Secrecy.antt =====
-- Who may be sent what, in servernetwork.cpp: the events that a handler of a packet is allowed to
-- put on the network.
pub mod Login
pub mod Talk
pub mod Run
use open_simp.Prelude.{
  ℕ, suc, zero, ◌≡◌, ◌≢◌, ◌↔◌, ◌⊎◌, ◌&&◌, refl, ◌++◌, List, [], ◌∷◌, none, some, Bytes, codes,
  Result, ok, Ensures, All, true, false, ap, Bool, set, remove_at, get_elem?, Bool-cases, inl, inr,
  arith,
}
use open_simp.Cryptography.Interface.{IsSound}
use open_simp.Server.{
  key_received, Socket, Event, transmitted, closed, DisconnectReason, AuthStatus, undone, done,
  failed, Platform, ServerNetwork, unnamed, server_key,
}
use open_simp.Server.Wire.{is_done, is_other}
use open_simp.Server.Wire.Delivery.{posted, recipients}
use open_simp.Server.Wire.Growth.{IsSealed, Hears, Grows, Grows-trans, Grows-one, posted-Grows}
use open_simp.Server.Clients.{leave_packet, disconnect_client}
use open_simp.Cryptography.{lookup}
use open_simp.Server.Login.{buffer_text}
use open_simp.Server.Names.{nick}
use open_simp.Server.Invariant.{IsValid}
use open_simp.Server.Invariant.Leaving.{left, disconnect_client_lem}
use open_simp.Server.Invariant.Naming.{renamed, nick_accepts, join_packet}

-- A client whose login is over.
abbrev pub Insider : ServerNetwork → Socket → Type 0
Insider w s =
    (j : ℕ) × (a : AuthStatus) × (get_elem? w.client_array j ≡ some s)
    × (get_elem? w.client_authenticated_array j ≡ some a)
    × (a ≢ undone)

-- A client has a name exactly if its login is over, and none has failed.
abbrev pub IsSettled : ServerNetwork → Type 0
IsSettled w =
    (i : ℕ) (status : AuthStatus) (name : Bytes)
    → get_elem? w.client_authenticated_array i ≡ some status
    → get_elem? w.clientid_array i ≡ some name
    → (status ≢ failed) × ((status ≡ undone) ↔ (name ≡ unnamed))

-- The key that the server has for the client's socket, or, where it has none, the number that the
-- client's packet holds.
abbrev pub KeyOf : Platform → ServerNetwork → Socket → Bytes → ℕ → Type 0
KeyOf p w client received n =
    (lookup client.ptr w.crypt.keys ≡ some n)
    ⊎ (lookup client.ptr w.crypt.keys ≡ none)
      × ((text : Bytes) × (buffer_text received ≡ ok text) × (p.botan.read_big_int text ≡ some n))

-- The server's key, sealed to the client's key.
abbrev pub IsSealedKey : Platform → ServerNetwork → Socket → Bytes → Bytes → Type 0
IsSealedKey p w client received bytes =
    (n draw : ℕ) × KeyOf p w client received n × (p.botan.rsa_seal n draw server_key ≡ some bytes)

-- What the server may do on the network while it handles the bytes `received` of `client`: close
-- that client's socket, send it the request for its key or the sealed key, or send a sealed text
-- to an insider.
abbrev pub IsGuarded : Platform → ServerNetwork → Socket → Bytes → Event → Type 0
IsGuarded p w client received (closed s reason) = s ≡ client
IsGuarded p w client received (transmitted s bytes) =
    (IsSealed p bytes × Insider w s)
    ⊎ (s ≡ client) × ((bytes ≡ codes "spb") ⊎ IsSealedKey p w client received bytes)

is_done-done : (a : AuthStatus) → is_done a ≡ true → a ≡ done
is_done-done done h = refl
is_done-done key_received h = cc
is_done-done failed h = cc
is_done-done undone h = cc

done_of : (b : Bool) (a : AuthStatus) → (b && is_done a) ≡ true → a ≡ done
done_of true a h = is_done-done a h
done_of false a h = cc

recipients-All :
    (Q : Socket → Type 0) (address port : ℕ) (ss : List Socket) (auths : List AuthStatus)
    → ((j : ℕ) (s : Socket) → get_elem? ss j ≡ some s → get_elem? auths j ≡ some done → Q s)
    → All Q (recipients address port ss auths)
recipients-All Q address port [] auths h = tt
recipients-All Q address port (s ∷ ss) [] h = tt
recipients-All Q address port (s ∷ ss) (a ∷ auths) h =
    let rest = recipients-All Q address port ss auths (λ j t. h (suc j) t) in
    elim (Bool-cases (is_other s address port && is_done a)) [
      | inl hit ↦ rw hit (h 0 s refl (ap some (done_of (is_other s address port) a hit)), rest)
      | inr miss ↦ rw miss rest
    ]

-- Closing the client's socket is allowed, and so is sending sealed texts to all that are done.
pub record Permits (p : Platform) (P : Event → Type 0) (client : Socket) (clients : List Socket)
    (auths : List AuthStatus) : Type 0 where
  pub bye : (reason : DisconnectReason) → P (closed client reason)
  pub done_hears :
      (j : ℕ) (s : Socket)
      → get_elem? clients j ≡ some s
      → get_elem? auths j ≡ some done
      → Hears p P s

module _ (p : Platform) (sound : IsSound p.botan) (P : Event → Type 0) (client : Socket)
    (iterator : ℕ) (w : ServerNetwork) (v : IsValid w)
    (here : get_elem? w.client_array iterator ≡ some client)
    (may : Permits p P client w.client_array w.client_authenticated_array) where
  abbrev pub told : List Socket
  told = recipients client.address client.port w.client_array w.client_authenticated_array

  pub told-Hears : All (Hears p P) told
  told-Hears =
      recipients-All (Hears p P) client.address client.port w.client_array
        w.client_authenticated_array may.done_hears

  pub left-Grows :
      (reason : DisconnectReason) (name : Bytes) (auth : AuthStatus)
      → Grows P w.wire (left p client iterator reason name auth w).wire
  left-Grows reason name auth =
      let others = remove_at w.clientid_array iterator in
      let w₁ = record w { clientid_array = others } in
      let text = leave_packet name others in
      Grows-trans P w.wire (posted p text told w₁).wire _
        (posted-Grows p sound P text told w₁ told-Hears)
        (Grows-one P (posted p text told w₁).wire (closed client reason) (may.bye reason))

  pub disconnect_client-Grows :
      (reason : DisconnectReason)
      → Ensures (λ w'. Grows P w.wire w'.wire) (disconnect_client p client iterator reason w)
  disconnect_client-Grows reason =
      let (name, auth, n, a, e) = disconnect_client_lem p sound client iterator reason w v here in
      rw e (left-Grows reason name auth)

  pub renamed-Grows : (name : Bytes) → Grows P w.wire (renamed p name client iterator w).wire
  renamed-Grows name =
      let ids = set w.clientid_array iterator name in
      posted-Grows p sound P (join_packet name ids) told
        (record w { chat_send_str = name; clientid_array = ids }) told-Hears
