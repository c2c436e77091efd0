-- ===== src/Server/Room/Entry.antt =====
-- One member of the room against one position of the vectors of servernetwork.h, and what a turn
-- of a member that may not speak yet leaves of it.
use open_simp.Prelude.{
  ℕ, zero, suc, ◌≡◌, ◌≢◌, refl, ap, subst, List, [], ◌∷◌, some, length, get_elem?, get_elem?-lt,
  get_elem?_total, get_elem?_functional, get_elem?-zip, get_elem?-map, length-remove_at, modify,
  ◌<◌, ◌⊎◌, inl, inr, arith,
}
use open_simp.Server.{undone, key_received, ServerNetwork}
use open_simp.Server.Invariant.{IsValid}
use open_simp.Server.Room.{
  Member, admitted, joined, MaySpeak, Turn, idles, leaves, enters, joins, speaks, renames,
}
use open_simp.Server.Room.View.{member_of, room, room_of, length-room}

get_elem?-modify {ℓ} :
    {A : Type ℓ} (f : A → A) (xs : List A) (i : ℕ) (x : A)
    → get_elem? xs i ≡ some x
    → get_elem? (modify i f xs) i ≡ some (f x)
get_elem?-modify f [] i x h = cc
get_elem?-modify f (y ∷ xs) zero x h = ground (arith)
get_elem?-modify f (y ∷ xs) (suc i) x h = get_elem?-modify f xs i x h

-- The vectors hold the member at the position.
abbrev pub Holds : ServerNetwork → ℕ → Member → Type 0
Holds w i m =
    (get_elem? w.client_array i ≡ some m.socket)
    × (get_elem? w.clientid_array i ≡ some m.name)
    × (get_elem? w.client_message_interval i ≡ some m.clock)
    × (get_elem? w.client_authenticated_array i ≡ some m.status)

module _ (w : ServerNetwork) (v : IsValid w) (i : ℕ) where
  held : i < length w.client_array → (m : Member) × (get_elem? (room w) i ≡ some m) × Holds w i m
  unfolding room_of
  held inside =
      let (s, at_s) = get_elem?_total w.client_array i inside in
      let (n, at_n) = get_elem?_total w.clientid_array i (omega (arith, v.ids)) in
      let (o, at_o) = get_elem?_total w.client_op_array i (omega (arith, v.ops)) in
      let (t, at_t) = get_elem?_total w.client_message_interval i (omega (arith, v.clocks)) in
      let (a, at_a) = get_elem?_total w.client_authenticated_array i (omega (arith, v.auths)) in
      (
        member_of (s, (n, (o, (t, a)))),
        get_elem?-map member_of _ i (
            get_elem?-zip w.client_array _ i at_s (
              get_elem?-zip w.clientid_array _ i at_n (
                get_elem?-zip w.client_op_array _ i at_o
                  (get_elem?-zip w.client_message_interval _ i at_t at_a)))),
        (at_s, at_n, at_t, at_a),
      )

  pub room-Holds : (m : Member) → get_elem? (room w) i ≡ some m → Holds w i m
  room-Holds m at_m =
      let inside : i < length w.client_array =
        omega (arith, length-room w v, get_elem?-lt (room w) i m at_m) in
      let (m', at_m', h) = held inside in
      subst (Holds w i) (get_elem?_functional (room w) i i at_m' refl at_m) h

mute :
    {m₀ m : Member} → MaySpeak m₀.status → (m.status ≡ undone) ⊎ (m.status ≡ key_received) → m₀ ≢ m
mute {m₀} {m} speaking quiet same =
    let one : m₀.status ≡ m.status = ap (λ x. x.status) same in
    elim speaking [
      | inl d ↦ elim quiet [ inl u ↦ cc | inr k ↦ cc ]
      | inr f ↦ elim quiet [ inl u ↦ cc | inr k ↦ cc ]
    ]

-- Who may not speak yet and does not leave keeps socket and clock through its turn, and its name
-- once it has been asked for its key.
pub Turn-keeps :
    (now i : ℕ) (r r' : List Member) (m : Member)
    → Turn now i r r'
    → get_elem? r i ≡ some m
    → (m.status ≡ undone) ⊎ (m.status ≡ key_received)
    → length r' ≡ length r
    → (m' : Member) × (get_elem? r' i ≡ some m')
      × (m'.socket ≡ m.socket)
      × (m'.clock ≡ m.clock)
      × (m.status ≡ key_received → m'.name ≡ m.name)
Turn-keeps now i r r' m (idles e) at_m quiet same = (m, rw e at_m, refl, refl, λ k. refl)
Turn-keeps now i r r' m (leaves e) at_m quiet same =
    absurd (omega (arith, length-remove_at r i (get_elem?-lt r i m at_m), ap length e))
Turn-keeps now i r r' m (enters m₀ name at_m₀ is_undone free e) at_m quiet same = (
  admitted name m,
  rw e (get_elem?-modify (admitted name) r i m at_m),
  refl,
  refl,
  λ k. absurd (cc (get_elem?_functional r i i at_m₀ refl at_m)),
)
Turn-keeps now i r r' m (joins m₀ at_m₀ asked e) at_m quiet same =
    (joined m, rw e (get_elem?-modify joined r i m at_m), refl, refl, λ k. refl)
Turn-keeps now i r r' m (speaks m₀ at_m₀ speaking e) at_m quiet same =
    absurd (mute speaking quiet (get_elem?_functional r i i at_m₀ refl at_m))
Turn-keeps now i r r' m (renames m₀ name clock at_m₀ speaking on_time free e) at_m quiet same =
    absurd (mute speaking quiet (get_elem?_functional r i i at_m₀ refl at_m))
