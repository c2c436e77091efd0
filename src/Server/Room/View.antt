-- ===== src/Server/Room/View.antt =====
-- The room that a `ServerNetwork` holds in its parallel vectors, and what the operations on the
-- vectors are to it.
use open_simp.Prelude.{
  ℕ, ◌≡◌, refl, ap, sym, ◌∙◌, ◌++◌, Bool, List, [], ◌∷◌, map, some, Bytes, length, get_elem?,
  get_elem?-lt, get_elem?_total, remove_at, set, modify, set-modify, map-modify, map-remove_at, zip,
  zip-remove_at, zip-modify_left, zip-modify_right, zip-append, length-zip, get_elem?-zip,
  get_elem?-map, length-map, map-append_last, map-zip_left, false, arith,
}
use open_simp.Server.{Socket, AuthStatus, undone, unnamed, ServerNetwork}
use open_simp.Server.Invariant.{IsValid}
use open_simp.Server.Room.{Member, newcomer, names, heard}

abbrev pub Row : Type 0
Row = Socket × (Bytes × (Bool × (ℕ × AuthStatus)))

abbrev pub member_of : Row → Member
member_of r = record {
  socket = r.0;
  name = r.1.0;
  op = r.1.1.0;
  clock = r.1.1.1.0;
  status = r.1.1.1.1;
}

abbrev pub rows : List Socket → List Bytes → List Bool → List ℕ → List AuthStatus → List Row
rows clients ids ops clocks auths = zip clients (zip ids (zip ops (zip clocks auths)))

-- The members, of vectors of one length.
unfoldable pub room_of :
    List Socket → List Bytes → List Bool → List ℕ → List AuthStatus → List Member
room_of clients ids ops clocks auths = map member_of (rows clients ids ops clocks auths)

abbrev pub room : ServerNetwork → List Member
room w =
    room_of w.client_array w.clientid_array w.client_op_array w.client_message_interval
      w.client_authenticated_array

module _ (cs : List Socket) (ns : List Bytes) (os : List Bool) (ts : List ℕ)
    (as' : List AuthStatus) where
  pub room_of-remove_at :
      (i : ℕ)
      → room_of
          (remove_at cs i)
          (remove_at ns i)
          (remove_at os i)
          (remove_at ts i)
          (remove_at as' i)
        ≡ remove_at (room_of cs ns os ts as') i
  unfolding room_of
  room_of-remove_at i = rw (
    zip-remove_at ts as' i,
    zip-remove_at os (zip ts as') i,
    zip-remove_at ns (zip os (zip ts as')) i,
    zip-remove_at cs (zip ns (zip os (zip ts as'))) i,
    map-remove_at member_of (rows cs ns os ts as') i,
  )

  pub room_of-set_clock :
      (i now : ℕ)
      → room_of cs ns os (set ts i now) as' ≡ modify i (heard now) (room_of cs ns os ts as')
  unfolding room_of
  room_of-set_clock i now = rw (
    set-modify i now ts,
    zip-modify_left ts as' i (λ _. now),
    zip-modify_right os (zip ts as') i (λ t. (now, t.1)),
    zip-modify_right ns (zip os (zip ts as')) i (λ t. (t.0, (now, t.1.1))),
    zip-modify_right cs (zip ns (zip os (zip ts as'))) i (λ t. (t.0, (t.1.0, (now, t.1.1.1)))),
    map-modify member_of _ (heard now) (rows cs ns os ts as') i (λ r. refl),
  )

  pub room_of-set_name :
      (i : ℕ) (name : Bytes)
      → room_of cs (set ns i name) os ts as'
        ≡ modify i (λ m. record m { name = name }) (room_of cs ns os ts as')
  unfolding room_of
  room_of-set_name i name = rw (
    set-modify i name ns,
    zip-modify_left ns (zip os (zip ts as')) i (λ _. name),
    zip-modify_right cs (zip ns (zip os (zip ts as'))) i (λ t. (name, t.1)),
    map-modify member_of _ (λ m. record m { name = name }) (rows cs ns os ts as') i (λ r. refl),
  )

  pub room_of-set_status :
      (i : ℕ) (status : AuthStatus)
      → room_of cs ns os ts (set as' i status)
        ≡ modify i (λ m. record m { status = status }) (room_of cs ns os ts as')
  unfolding room_of
  room_of-set_status i status = rw (
    set-modify i status as',
    zip-modify_right ts as' i (λ _. status),
    zip-modify_right os (zip ts as') i (λ t. (t.0, status)),
    zip-modify_right ns (zip os (zip ts as')) i (λ t. (t.0, (t.1.0, status))),
    zip-modify_right cs (zip ns (zip os (zip ts as'))) i (λ t. (t.0, (t.1.0, (t.1.1.0, status)))),
    map-modify member_of _ (λ m. record m { status = status }) (rows cs ns os ts as') i (λ r. refl),
  )

names-rows :
    (cs : List Socket) (ys : List (Bytes × (Bool × (ℕ × AuthStatus))))
    → length cs ≡ length ys
    → names (map member_of (zip cs ys)) ≡ map (λ t. t.0) ys
names-rows [] [] h = refl
names-rows [] (y ∷ ys) h = absurd (omega arith)
names-rows (c ∷ cs) [] h = absurd (omega arith)
names-rows (c ∷ cs) (y ∷ ys) h = ap (◌∷◌ y.0) (names-rows cs ys (omega arith))

module _ (w : ServerNetwork) (v : IsValid w) where
  abbrev clocked : List (ℕ × AuthStatus)
  clocked = zip w.client_message_interval w.client_authenticated_array

  length-clocked : length clocked ≡ length w.client_array
  length-clocked =
      length-zip w.client_message_interval w.client_authenticated_array
        (omega (arith, v.clocks, v.auths))
      ∙ v.clocks

  length-ops : length (zip w.client_op_array clocked) ≡ length w.client_array
  length-ops = length-zip w.client_op_array clocked (omega (arith, v.ops, length-clocked)) ∙ v.ops

  length-ids : length (zip w.clientid_array (zip w.client_op_array clocked)) ≡ length w.client_array
  length-ids =
      length-zip w.clientid_array (zip w.client_op_array clocked) (omega (arith, v.ids, length-ops))
      ∙ v.ids

  pub length-room : length (room w) ≡ length w.client_array
  unfolding room_of
  length-room =
      length-map member_of _
      ∙ length-zip w.client_array (zip w.clientid_array (zip w.client_op_array clocked))
          (sym length-ids)

  -- Somebody new stands at the end.
  pub room-append :
      (new : Socket) (now : ℕ)
      → room_of
          (w.client_array ++ new ∷ [])
          (w.clientid_array ++ unnamed ∷ [])
          (w.client_op_array ++ false ∷ [])
          (w.client_message_interval ++ now ∷ [])
          (w.client_authenticated_array ++ undone ∷ [])
        ≡ room w ++ newcomer new now ∷ []
  unfolding room_of
  room-append new now = rw (
    zip-append w.client_message_interval w.client_authenticated_array now undone
        (omega (arith, v.clocks, v.auths)),
    zip-append w.client_op_array clocked false (now, undone) (omega (arith, v.ops, length-clocked)),
    zip-append w.clientid_array (zip w.client_op_array clocked) unnamed (false, (now, undone))
        (omega (arith, v.ids, length-ops)),
    zip-append w.client_array (zip w.clientid_array (zip w.client_op_array clocked)) new
        (unnamed, (false, (now, undone))) (omega (arith, length-ids)),
    map-append_last member_of
        (zip w.client_array (zip w.clientid_array (zip w.client_op_array clocked)))
        (new, (unnamed, (false, (now, undone)))),
  )

  -- The members' names are the entries of `clientid_array`.
  pub names-room : names (room w) ≡ w.clientid_array
  unfolding room_of
  names-room =
      names-rows w.client_array (zip w.clientid_array (zip w.client_op_array clocked))
        (sym length-ids)
      ∙ map-zip_left w.clientid_array (zip w.client_op_array clocked)
          (omega (arith, v.ids, length-ops))

  pub get_elem?-room :
      (i : ℕ) (status : AuthStatus)
      → get_elem? w.client_authenticated_array i ≡ some status
      → (m : Member) × (get_elem? (room w) i ≡ some m) × (m.status ≡ status)
  unfolding room_of
  get_elem?-room i status at_status =
      let inside = get_elem?-lt w.client_authenticated_array i status at_status in
      let (s, at_s) = get_elem?_total w.client_array i (omega (arith, v.auths)) in
      let (n, at_n) = get_elem?_total w.clientid_array i (omega (arith, v.ids, v.auths)) in
      let (o, at_o) = get_elem?_total w.client_op_array i (omega (arith, v.ops, v.auths)) in
      let (t, at_t) =
        get_elem?_total w.client_message_interval i (omega (arith, v.clocks, v.auths)) in
      (
        member_of (s, (n, (o, (t, status)))),
        get_elem?-map member_of _ i (
            get_elem?-zip w.client_array _ i at_s (
              get_elem?-zip w.clientid_array _ i at_n (
                get_elem?-zip w.client_op_array _ i at_o
                  (get_elem?-zip w.client_message_interval _ i at_t at_status)))),
        refl,
      )
