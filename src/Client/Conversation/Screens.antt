-- ===== src/Client/Conversation/Screens.antt =====
-- All lines of a conversation: `run` of ClientNetwork.cpp and what the other clients print.
use open_simp.Prelude.{
  ok, ℕ, true, ◌≡◌, ◌≢◌, refl, ap, sym, ◌∙◌, ◌++◌, append_assoc, append-nil, false, List, [], ◌∷◌,
  map, Bytes, has, Returns-result,
}
use mathlib.Core.List.{map-append}
use open_simp.Cryptography.Interface.{IsSound}
use open_simp.Server.{Socket, Event, Platform, ServerNetwork, unnamed, soh, server_key}
use open_simp.Server.Wire.Delivery.{recipients}
use open_simp.Client.{ClientNetwork, run_line, run_lines}
use open_simp.Client.Input.{LineSent, run_line_opens}
use open_simp.Client.Screen.{on_screen, chat_on_screens}
use open_simp.Client.Conversation.{Conversation, silence, says, line_on, lines_on, Spaced, Talker}
use open_simp.Client.Conversation.Line.{line_received}

run_lines-nil : (p : Platform) (c : ClientNetwork) → run_lines p.botan [] c ≡ ok c
unfolding run_lines
run_lines-nil p c = refl

run_lines-one :
    (p : Platform) (line : Bytes) (lines : List Bytes) (c c₁ c₂ : ClientNetwork)
    → c.is_connected ≡ true
    → run_line p.botan line c ≡ ok c₁
    → run_lines p.botan lines c₁ ≡ ok c₂
    → run_lines p.botan (line ∷ lines) c ≡ ok c₂
unfolding run_lines
run_lines-one p line lines c c₁ c₂ on typed rest = rw (typed, rest, on)

module _ (p : Platform) (sound : IsSound p.botan) (client : Socket) (iterator : ℕ) (name : Bytes)
    (real : name ≢ unnamed) (clean : has 0 name ≡ false) (alone : has soh name ≡ false) where
  -- A logged-in user, on a connected client with the server's key, types lines that are not blank,
  -- begin with no slash, hold no NUL and no separator, as the user's name does not either, and have
  -- fewer than 253 bytes together with that name. If the server reads the packet of each line by
  -- itself and more than 20 milliseconds after the one before, it handles each, and the packets that
  -- it hands to the sockets go, line by line in the order in which they were typed, to exactly the
  -- other authenticated clients. A client with the server's key that reads such a packet by itself
  -- prints the name and the line.
  pub lines_reach_screens :
      (typed : List (Bytes × ℕ)) (started : ℕ) (c r : ClientNetwork) (w : ServerNetwork)
      → c.is_connected ≡ true
      → c.aes_key ≡ server_key
      → r.aes_key ≡ server_key
      → Talker client iterator name started w
      → Spaced p name started typed
      → let rs =
          recipients client.address client.port w.client_array w.client_authenticated_array in
        (c' : ClientNetwork) × (w' : ServerNetwork) × (es : List Event) × Conversation p client
          iterator c w typed c' w'
        × (run_lines p.botan (map (λ t. t.0) typed) c ≡ ok c')
        × (w'.wire ≡ w.wire ++ es)
        × (map (on_screen p r) es ≡ lines_on name rs typed)
  lines_reach_screens [] started c r w on k kr t h =
      (c, w, [], silence, run_lines-nil p c, sym (append-nil w.wire), refl)
  lines_reach_screens ((line, now) ∷ typed) started c r w on k kr t (l, late, more) =
      let rs = recipients client.address client.port w.client_array w.client_authenticated_array in
      let (c₁, typed_so, (ct, iv, sent, k₁, still, opened)) =
        Returns-result (LineSent p line c) (run_line p.botan line c)
          (run_line_opens p sound line c k) in
      let (es, w₁, received, wire, read, t₁, same, so) =
        line_received p sound client iterator name real clean alone line ct iv started now w t l
          late opened in
      let (c₂, w₂, fs, going_on, rest_typed, wire₂, seen) =
        lines_reach_screens typed now c₁ r w₁ (still ∙ on) k₁ kr t₁ more in
      (
        c₂,
        w₂,
        es ++ fs,
        says line ct now typed_so sent received going_on,
        run_lines-one p line (map (λ t. t.0) typed) c c₁ c₂ on typed_so rest_typed,
        wire₂ ∙ ap (λ t. t ++ fs) wire ∙ append_assoc w.wire es fs,
        map-append (on_screen p r) es fs
            ∙ ap (λ t. t ++ map (on_screen p r) fs)
                (chat_on_screens p r es line name rs kr l.no_soh alone read)
            ∙ ap (λ t. line_on name rs line ++ t) (rw (same, so) at seen),
      )
