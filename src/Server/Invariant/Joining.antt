-- ===== src/Server/Invariant/Joining.antt =====
-- One round of `connectClients` of servernetwork.cpp on a well-formed server.
use open_simp.Prelude.{
  ℕ, ◌≡◌, ◌≢◌, ap, sym, ◌∙◌, ◌++◌, ◌==◌, false, List, [], ◌∷◌, some, length, get_elem?,
  get_elem?-append_last, length-append, arith, Bool-cases, inl, inr, get_elem?-lt, ◌⊎◌, ==_iff,
}
use open_simp.Server.{Socket, done, undone, Platform, ServerNetwork, unnamed}
use open_simp.Server.Wire.{send_unencrypted}
use open_simp.Server.Clients.{connect_client}
use open_simp.Server.Invariant.{IsValid}

-- An element of a list with one more at its end is that one or an old one.
pub get_elem?_of_append_last {ℓ} :
    {A : Type ℓ} (xs : List A) (v : A) (i : ℕ) {a : A}
    → get_elem? (xs ++ v ∷ []) i ≡ some a
    → ((i ≡ length xs) × (v ≡ a)) ⊎ (get_elem? xs i ≡ some a)
get_elem?_of_append_last xs v i h = elim (Bool-cases (i == length xs)) [
  | inl end ↦ inl ((==_iff i (length xs)).0 end, ground (arith, get_elem?-append_last xs i v))
  | inr old ↦ inr (ground (arith, get_elem?-append_last xs i v))
]

-- The memory of a new socket is not that of a connected one.
abbrev pub IsFresh : Socket → ServerNetwork → Type 0
IsFresh new w = (i : ℕ) (s : Socket) → get_elem? w.client_array i ≡ some s → s.ptr ≢ new.ptr

module _ (p : Platform) (new : Socket) (now : ℕ) (w : ServerNetwork) where
  pub connect_client-IsValid : IsFresh new w → IsValid w → IsValid (connect_client p new now w)
  unfolding connect_client send_unencrypted
  connect_client-IsValid fresh v = record {
    ids = omega (
      arith,
      v.ids,
      length-append w.clientid_array (unnamed ∷ []),
      length-append w.client_array (new ∷ []),
    );
    ops = omega (
      arith,
      v.ops,
      length-append w.client_op_array (false ∷ []),
      length-append w.client_array (new ∷ []),
    );
    auths = omega (
      arith,
      v.auths,
      length-append w.client_authenticated_array (undone ∷ []),
      length-append w.client_array (new ∷ []),
    );
    clocks = omega (
      arith,
      v.clocks,
      length-append w.client_message_interval (now ∷ []),
      length-append w.client_array (new ∷ []),
    );
    sockets = λ i j s t hs ht same. elim (get_elem?_of_append_last w.client_array new i hs) [
      | inl (ei, es) ↦ elim (get_elem?_of_append_last w.client_array new j ht) [
        | inl (ej, et) ↦ ei ∙ sym ej
        | inr old ↦ absurd (fresh j t old (sym same ∙ ap (λ x. x.ptr) (sym es)))
      ]
      | inr old ↦ elim (get_elem?_of_append_last w.client_array new j ht) [
        | inl (ej, et) ↦ absurd (fresh i s old (same ∙ ap (λ x. x.ptr) (sym et)))
        | inr older ↦ v.sockets i j s t old older same
      ]
    ];
    unique = λ i j n hi hj h. elim (get_elem?_of_append_last w.clientid_array unnamed i hi) [
      | inl (ei, en) ↦ absurd (h (sym en))
      | inr old ↦ elim (get_elem?_of_append_last w.clientid_array unnamed j hj) [
        | inl (ej, en) ↦ absurd (h (sym en))
        | inr older ↦ v.unique i j n old older h
      ]
    ];
    legal = λ i n hi h. elim (get_elem?_of_append_last w.clientid_array unnamed i hi) [
      | inl (ei, en) ↦ absurd (h (sym en))
      | inr old ↦ v.legal i n old h
    ];
    named = λ i a n ha h hn.
        elim (get_elem?_of_append_last w.client_authenticated_array undone i ha) [
          | inl (ei, ea) ↦ absurd (h (sym ea))
          | inr old ↦ elim (get_elem?_of_append_last w.clientid_array unnamed i hn) [
            | inl (ej, en) ↦
                absurd
                  (omega (arith, get_elem?-lt w.client_authenticated_array i a old, v.ids, v.auths))
            | inr older ↦ v.named i a n old h older
          ]
        ];
    keyed = λ i s ha hs. elim (get_elem?_of_append_last w.client_authenticated_array undone i ha) [
      | inl (ei, ea) ↦ absurd (undone-ne-done ea)
      | inr old ↦ elim (get_elem?_of_append_last w.client_array new i hs) [
        | inl (ej, en) ↦
            absurd (omega (arith, get_elem?-lt w.client_authenticated_array i done old, v.auths))
        | inr older ↦ v.keyed i s old older
      ]
    ];
    commands = v.commands;
  }
    where
      undone-ne-done : undone ≢ done
      undone-ne-done e = cc
