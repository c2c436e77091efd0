-- ===== src/Client/Session/Entry.antt =====
-- What a login leaves of a client's position in the vectors of servernetwork.h.
use open_simp.Prelude.{
  ℕ, List, Option, none, Result, throws, fault, ◌≡◌, refl, sym, subst, ap, ◌∙◌, ◌<◌, some, Bytes,
  Bool-cases, ok, length, length-set, get_elem?, get_elem?-lt, get_elem?-set, set, Ensures,
  Ensures-of_Returns, ==_iff, inl, inr, arith,
}
use mathlib.Core.Option.{some-injective}
use open_simp.Cryptography.Interface.{IsSound}
use open_simp.Cryptography.{push_new_client_key}
use open_simp.Server.{Socket, undone, key_received, done, Platform, ServerNetwork}
use open_simp.Server.Login.{Credentials, buffer_text, receive_credentials, receive_key}
use open_simp.Server.Invariant.{IsValid}
use open_simp.Server.Invariant.Keys.{receive_key-IsValid}
use open_simp.Server.Invariant.Logins.{Admitted}
use open_simp.Server.Room.{Turn}
use open_simp.Server.Room.View.{room, length-room, get_elem?-room}
use open_simp.Server.Room.Entry.{room-Holds, Turn-keeps}
use open_simp.Server.Room.Turns.{receive_credentials-Turn}
use open_simp.Server.Room.Turns.Key.{receive_key-Turn}
use open_simp.Client.Conversation.{Talker}

module _ (p : Platform) (sound : IsSound p.botan) (client : Socket) (i : ℕ) where
  -- Whenever the key packet is handled to the end, the server stays well formed.
  handled_key-IsValid :
      (text : Bytes) (w : ServerNetwork)
      → IsValid w
      → get_elem? w.client_array i ≡ some client
      → get_elem? w.client_authenticated_array i ≡ some key_received
      → Ensures IsValid (receive_key p text client i w)
  unfolding receive_key push_new_client_key
  handled_key-IsValid text w v here asked = by_buffer (buffer_text text) refl
    where
      by_number :
          (t : Bytes) (o : Option ℕ)
          → buffer_text text ≡ ok t
          → p.botan.read_big_int t ≡ o
          → Ensures IsValid (receive_key p text client i w)
      by_number t none readable odd = rw (readable, odd) tt
      by_number t (some n) readable number = elim (Bool-cases (p.botan.takes_modulus n)) [
        | inl taken ↦
            Ensures-of_Returns IsValid IsValid (receive_key p text client i w) (λ w' q. q)
              (receive_key-IsValid p sound text t n client i w readable number taken here asked v)
        | inr refused ↦ rw (readable, number, refused) tt
      ]

      by_buffer :
          (r : Result Bytes)
          → buffer_text text ≡ r
          → Ensures IsValid (receive_key p text client i w)
      by_buffer (ok t) e = by_number t (p.botan.read_big_int t) e refl
      by_buffer throws e = rw e tt
      by_buffer (fault x) e = rw e tt

  at_set : {A : Type 0} (xs : List A) (x : A) → i < length xs → get_elem? (set xs i x) i ≡ some x
  at_set xs x inside = get_elem?-set xs i i x inside ∙ rw ((==_iff i i).1 refl)

  -- A client that was admitted under a name and then counted as done is logged in under that name,
  -- and its clock runs from when it connected.
  pub Admitted-Talker :
      (c : Credentials) (ct text : Bytes) (started : ℕ) (w w₁ w₂ : ServerNetwork)
      → IsValid w
      → IsValid w₁
      → get_elem? w.client_array i ≡ some client
      → get_elem? w.client_authenticated_array i ≡ some undone
      → get_elem? w.client_message_interval i ≡ some started
      → receive_credentials p ct client i w ≡ ok w₁
      → Admitted p c i w w₁
      → receive_key p text client i w₁ ≡ ok w₂
      → w₂.client_authenticated_array ≡ set w₁.client_authenticated_array i done
      → Talker client i c.uname started w₂
  Admitted-Talker c ct text started w w₁ w₂ v v₁ here is_undone at_clock e₁
        (clients, names, asked, a) e₂ finished =
      let inside = get_elem?-lt w.client_array i client here in
      let here₁ : get_elem? w₁.client_array i ≡ some client = rw clients here in
      let asked₁ : get_elem? w₁.client_authenticated_array i ≡ some key_received =
        rw asked (at_set w.client_authenticated_array key_received (omega (arith, v.auths))) in
      let named₁ : get_elem? w₁.clientid_array i ≡ some c.uname =
        rw names (at_set w.clientid_array c.uname (omega (arith, v.ids))) in
      let v₂ : IsValid w₂ =
        subst (Ensures IsValid) e₂ (handled_key-IsValid text w₁ v₁ here₁ asked₁) in
      let (m, at_m, was_undone) = get_elem?-room w v i undone is_undone in
      let t₁ : Turn 0 i (room w) (room w₁) =
        subst (Ensures (λ u. Turn 0 i (room w) (room u))) e₁
          (receive_credentials-Turn p sound client i w v here 0 is_undone ct) in
      let (m₁, at_m₁, socket₁, clock₁, _) =
        Turn-keeps 0 i (room w) (room w₁) m t₁ at_m (inl was_undone)
          (length-room w₁ v₁ ∙ ap length clients ∙ sym (length-room w v)) in
      let t₂ : Turn 0 i (room w₁) (room w₂) =
        subst (Ensures (λ u. Turn 0 i (room w₁) (room u))) e₂
          (receive_key-Turn p sound client i 0 w₁ v₁ here₁ asked₁ text) in
      let h₁ = room-Holds w₁ v₁ i m₁ at_m₁ in
      let was_asked : m₁.status ≡ key_received = some-injective _ _ (sym h₁.3 ∙ asked₁) in
      let (m₂, at_m₂, socket₂, clock₂, name₂) =
        Turn-keeps 0 i (room w₁) (room w₂) m₁ t₂ at_m₁ (inr was_asked) (
          omega (
            arith,
            length-room w₁ v₁,
            length-room w₂ v₂,
            v₁.auths,
            v₂.auths,
            ap length finished,
            length-set w₁.client_authenticated_array i done,
          )) in
      let h = room-Holds w v i m at_m in
      let h₂ = room-Holds w₂ v₂ i m₂ at_m₂ in
      record {
        valid = v₂;
        here = h₂.0 ∙ ap some (socket₂ ∙ socket₁) ∙ sym h.0 ∙ here;
        at_name = h₂.1 ∙ ap some (name₂ was_asked) ∙ sym h₁.1 ∙ named₁;
        is_done = rw finished (
            at_set w₁.client_authenticated_array done
              (get_elem?-lt w₁.client_authenticated_array i key_received asked₁));
        at_clock = h₂.2 ∙ ap some (clock₂ ∙ clock₁) ∙ sym h.2 ∙ at_clock;
      }
