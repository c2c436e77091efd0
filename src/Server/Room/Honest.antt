-- ===== src/Server/Room/Honest.antt =====
-- What names and statuses tell of one another, in the room and so in the vectors of servernetwork.h.
use open_simp.Prelude.{
  ℕ, zero, suc, ◌≡◌, ◌≢◌, refl, ap, sym, ◌∙◌, ◌↔◌, ok, List, [], ◌∷◌, some, Bytes, subst, get_elem?,
  length, get_elem?-map, remove_at, modify, inl, inr, All, All-append, arith,
}
use mathlib.Core.Option.{some-injective}
use open_simp.Cryptography.Interface.{IsSound}
use open_simp.Server.{AuthStatus, undone, failed, Platform, ServerNetwork, unnamed}
use open_simp.Server.Commands.{init}
use open_simp.Server.Names.Rules.{alias_ne_unnamed}
use open_simp.Server.Receive.Reachable.{Reach, init_start-IsValid, Reach-IsValid}
use open_simp.Server.Room.{
  Member, Turn, idles, leaves, enters, joins, speaks, renames, RoomStep, comes, takes_turn,
  RoomReach, here, next,
}
use open_simp.Server.Room.View.{room, names-room, length-room, get_elem?-room}
use open_simp.Server.Room.Run.{Reach-RoomReach}

-- A member has a name exactly if its login is over, and none has failed.
abbrev pub IsHonest : Member → Type 0
IsHonest m = (m.status ≢ failed) × ((m.status ≡ undone) ↔ (m.name ≡ unnamed))

All-remove_at {ℓ} :
    {A : Type ℓ} (P : A → Type 0) (xs : List A) (i : ℕ) → All P xs → All P (remove_at xs i)
All-remove_at P [] i h = tt
All-remove_at P (x ∷ xs) zero h = h.1
All-remove_at P (x ∷ xs) (suc i) h = (h.0, All-remove_at P xs i h.1)

All-modify {ℓ} :
    {A : Type ℓ} (P : A → Type 0) (f : A → A) (xs : List A) (i : ℕ) (x : A)
    → get_elem? xs i ≡ some x
    → (P x → P (f x))
    → All P xs
    → All P (modify i f xs)
All-modify P f [] i x at_i h a = tt
All-modify P f (y ∷ xs) zero x at_i h a =
    let same : x ≡ y = sym (some-injective _ _ at_i) in (subst (λ t. P t → P (f t)) same h a.0, a.1)
All-modify P f (y ∷ xs) (suc i) x at_i h a = (a.0, All-modify P f xs i x at_i h a.1)

Turn-IsHonest :
    (now i : ℕ) (r r' : List Member) → Turn now i r r' → All IsHonest r → All IsHonest r'
Turn-IsHonest now i r r' (idles e) a = rw e a
Turn-IsHonest now i r r' (leaves e) a = rw e (All-remove_at IsHonest r i a)
Turn-IsHonest now i r r' (enters m name at_m is_undone (legal, free) e) a = rw e (
    All-modify IsHonest _ r i m at_m
      (λ h. ((λ q. cc), ((λ q. cc), (λ q. absurd (alias_ne_unnamed name legal q))))) a)
Turn-IsHonest now i r r' (joins m at_m asked e) a =
    rw e (All-modify IsHonest _ r i m at_m (λ h. ((λ q. cc), ((λ q. cc), (λ q. cc (h.1.1 q))))) a)
Turn-IsHonest now i r r' (speaks m at_m may e) a =
    rw e (All-modify IsHonest _ r i m at_m (λ h. h) a)
Turn-IsHonest now i r r' (renames m name clock at_m may on_time (legal, free) e) a = rw e (
    All-modify IsHonest _ r i m at_m
      (λ h. (
        h.0,
        (
          (λ q. elim may [ inl d ↦ cc | inr f ↦ cc ]),
          (λ q. absurd (alias_ne_unnamed name legal q)),
        ),
      ))
      a)

RoomStep-IsHonest : (r r' : List Member) → RoomStep r r' → All IsHonest r → All IsHonest r'
RoomStep-IsHonest r r' (comes socket now e) a =
    rw e (All-append IsHonest r _ a (((λ q. cc), ((λ q. refl), (λ q. refl))), tt))
RoomStep-IsHonest r r' (takes_turn now i turn) a = Turn-IsHonest now i r r' turn a

RoomReach-IsHonest : {r r' : List Member} → RoomReach r r' → All IsHonest r → All IsHonest r'
RoomReach-IsHonest here a = a
RoomReach-IsHonest (next {u = u} {v = v} t s) a = RoomStep-IsHonest u v s (RoomReach-IsHonest t a)

All-empty {ℓ} : {A : Type ℓ} (P : A → Type 0) (xs : List A) → length xs ≡ 0 → All P xs
All-empty P [] h = tt
All-empty P (x ∷ xs) h = absurd (omega arith)

All-get {ℓ} :
    {A : Type ℓ} (P : A → Type 0) (xs : List A) (i : ℕ) (x : A)
    → get_elem? xs i ≡ some x
    → All P xs
    → P x
All-get P [] i x h a = cc
All-get P (y ∷ xs) zero x h a = subst P (some-injective _ _ h) a.0
All-get P (y ∷ xs) (suc i) x h a = All-get P xs i x h a.1

-- From `init`, whatever the two threads do with safe packets: a client has a name exactly if its
-- login is over, and no client is ever marked as failed.
pub Reach-names :
    (p : Platform) (sound : IsSound p.botan) (kp : ℕ) (userdata : Bytes) (start w : ServerNetwork)
    → init kp userdata ≡ ok start
    → Reach p start w
    → (i : ℕ) (status : AuthStatus) (name : Bytes)
    → get_elem? w.client_authenticated_array i ≡ some status
    → get_elem? w.clientid_array i ≡ some name
    → (status ≢ failed) × ((status ≡ undone) ↔ (name ≡ unnamed))
Reach-names p sound kp userdata start w e r i status name at_status at_name =
    let (v, none_yet) = init_start-IsValid kp userdata start e in
    let good : All IsHonest (room w) =
      RoomReach-IsHonest (Reach-RoomReach p sound v r)
        (All-empty IsHonest (room start) (length-room start v ∙ ap length none_yet)) in
    let u = Reach-IsValid p sound v r in
    let (m, at_m, is_status) = get_elem?-room w u i status at_status in
    let is_name : m.name ≡ name = some-injective _ _ (
      sym (get_elem?-map (λ m. m.name) (room w) i at_m)
      ∙ ap (λ ns. get_elem? ns i) (names-room w u)
      ∙ at_name) in
    let h = All-get IsHonest (room w) i m at_m good in
    subst (λ s. (s ≢ failed) × ((s ≡ undone) ↔ (name ≡ unnamed))) is_status
      (subst (λ n. (m.status ≢ failed) × ((m.status ≡ undone) ↔ (n ≡ unnamed))) is_name h)
