-- ===== src/Server/Room.antt =====
-- What the server promises of its members, with no word of vectors, packets or keys: a room of
-- members, and the turns that a member may take in it. `View` reads a room off a `ServerNetwork`, and
-- `Turns` shows that servernetwork.cpp keeps to it.
pub mod View
pub mod Turns
pub mod Run
pub mod Honest
pub mod Entry
use open_simp.Prelude.{
  ℕ, ◌≡◌, ◌≢◌, ◌⊎◌, ◌++◌, Bool, false, List, [], ◌∷◌, map, some, Bytes, contains, get_elem?,
  remove_at, modify,
}
use open_simp.Server.{Socket, AuthStatus, undone, key_received, done, failed, unnamed}
use open_simp.Server.Invariant.{IsAlias}

pub record Member : Type 0 where
  pub socket : Socket
  pub name : Bytes
  pub op : Bool
  -- When the member was last heard.
  pub clock : ℕ
  pub status : AuthStatus

abbrev pub newcomer : Socket → ℕ → Member
newcomer socket now = record {
  socket = socket;
  name = unnamed;
  op = false;
  clock = now;
  status = undone;
}

abbrev pub names : List Member → List Bytes
names room = map (λ m. m.name) room

abbrev pub heard : ℕ → Member → Member
heard now m = record m { clock = now }

abbrev pub admitted : Bytes → Member → Member
admitted name m = record m { name = name; status = key_received }

abbrev pub joined : Member → Member
joined m = record m { status = done }

abbrev pub renamed : Bytes → ℕ → Member → Member
renamed name now m = record m { name = name; clock = now }

-- A member may speak once its login and its key exchange are over.
abbrev pub MaySpeak : AuthStatus → Type 0
MaySpeak status = (status ≡ done) ⊎ (status ≡ failed)

-- A legal name that nobody in the room has.
abbrev pub IsFree : Bytes → List Member → Type 0
IsFree name room = IsAlias name × (contains (names room) name ≡ false)

-- What one packet of the member at `i` may come to, at the time `now`.
pub data Turn (now i : ℕ) (room room' : List Member) : Type 0 where
  idles : room' ≡ room → Turn now i room room'
  leaves : room' ≡ remove_at room i → Turn now i room room'
  enters :
      (m : Member) (name : Bytes)
      → get_elem? room i ≡ some m
      → m.status ≡ undone
      → IsFree name room
      → room' ≡ modify i (admitted name) room
      → Turn now i room room'
  joins :
      (m : Member)
      → get_elem? room i ≡ some m
      → m.status ≡ key_received
      → room' ≡ modify i joined room
      → Turn now i room room'
  speaks :
      (m : Member)
      → get_elem? room i ≡ some m
      → MaySpeak m.status
      → room' ≡ modify i (heard now) room
      → Turn now i room room'
  renames :
      (m : Member) (name : Bytes) (clock : ℕ)
      → get_elem? room i ≡ some m
      → MaySpeak m.status
      → (m.status ≡ done → clock ≡ now)
      → IsFree name room
      → room' ≡ modify i (renamed name clock) room
      → Turn now i room room'

-- A step of the room: somebody comes, or a member takes a turn.
pub data RoomStep (room room' : List Member) : Type 0 where
  comes :
      (socket : Socket) (now : ℕ) → room' ≡ room ++ newcomer socket now ∷ [] → RoomStep room room'
  takes_turn : (now i : ℕ) → Turn now i room room' → RoomStep room room'

pub data RoomReach (room : List Member) : List Member → Type 0 where
  here : RoomReach room room
  next : {u v : List Member} → RoomReach room u → RoomStep u v → RoomReach room v
