-- ===== src/Server/Commands/Sends.antt =====
-- What the commands of servernetwork.cpp may send, and to whom.
use open_simp.Prelude.{
  ℕ, str_eq_iff, sym, subst, ◌∙◌, ◌≢◌, ◌<◌, ◌≡◌, ap, ◌++◌, List, [], ◌∷◌, some, Bytes, codes,
  str_eq, Result, at_ok, length, get_elem?, get_elem?-lt, get_elem?_total, arith, Returns,
  Returns-bind, Returns-mono, Bool-cases, inl, inr,
}
use mathlib.Core.Option.{some-injective}
use open_simp.Cryptography.Interface.{IsSound}
use open_simp.Command.{CmdStatus, get_vector}
use open_simp.Server.{
  Socket, Event, CommandLambda, help, plugins, msg, Platform, ServerNetwork, unnamed, soh,
}
use open_simp.Server.Wire.{send_string, send_string_at}
use open_simp.Server.Wire.Growth.{Grows, Grows-refl, Grows-trans, Hears, posted-Grows}
use open_simp.Server.Wire.Delivery.{posted, send_lem}
use open_simp.Server.Commands.{
  command_list, direct_text, help_lambda, deliver, msg_lambda, run_lambda,
}
use open_simp.Server.Commands.Lookup.{get_index_total, AllIn, AllIn-self}
use open_simp.Server.Invariant.Sending.{
  OnlySends, OnlySends-refl, OnlySends-trans, posted-OnlySends,
}

-- From `w` to `w'` messages were sent, by events that satisfy `P`, and nothing else happened.
abbrev pub SendsOnly : (Event → Type 0) → ServerNetwork → ServerNetwork → Type 0
SendsOnly P w w' = OnlySends w w' × Grows P w.wire w'.wire

module _ (p : Platform) (sound : IsSound p.botan) where
  pub send_string_lem :
      (text : Bytes) (client : Socket) (w : ServerNetwork)
      → send_string p text client w ≡ Result.ok (posted p (b'6' ∷ soh ∷ text) (client ∷ []) w)
  unfolding send_string
  send_string_lem text client w = rw (send_lem p sound (b'6' ∷ soh ∷ text) client w)

  pub send_string-OnlySends :
      (text : Bytes) (client : Socket) (w : ServerNetwork)
      → Returns (OnlySends w) (send_string p text client w)
  send_string-OnlySends text client w =
      rw (send_string_lem text client w) (posted-OnlySends p (b'6' ∷ soh ∷ text) (client ∷ []) w)

module _ (p : Platform) (sound : IsSound p.botan) (P : Event → Type 0) where
  abbrev Only : ServerNetwork → ServerNetwork → Type 0
  Only w w' = SendsOnly P w w'

  pub Only-refl : (w : ServerNetwork) → Only w w
  Only-refl w = (OnlySends-refl w, Grows-refl P w.wire)

  pub Only-trans : (u v w : ServerNetwork) → Only u v → Only v w → Only u w
  Only-trans u v w (a, b) (c, d) = (OnlySends-trans a c, Grows-trans P u.wire v.wire w.wire b d)

  pub send_string-SendsOnly :
      (text : Bytes) (client : Socket) (w : ServerNetwork)
      → Hears p P client
      → Returns (Only w) (send_string p text client w)
  send_string-SendsOnly text client w hears = rw (send_string_lem p sound text client w) (
    posted-OnlySends p (b'6' ∷ soh ∷ text) (client ∷ []) w,
    posted-Grows p sound P (b'6' ∷ soh ∷ text) (client ∷ []) w (hears, tt),
  )

  -- A message to the client at a position.
  send_string_at-SendsOnly :
      (text : Bytes) (index : ℕ) (w : ServerNetwork)
      → index < length w.client_array
      → ((s : Socket) → get_elem? w.client_array index ≡ some s → Hears p P s)
      → Returns (Only w) (send_string_at p text index w)
  unfolding send_string_at
  send_string_at-SendsOnly text index w h hears =
      let (client, e) = get_elem?_total w.client_array index h in
      rw (at_ok w.client_array index client e)
        (send_string-SendsOnly text client w (hears client e))

  -- The clients under a name may be sent messages.
  abbrev NameHears : Bytes → ServerNetwork → Type 0
  NameHears target w =
      (j : ℕ) (s : Socket)
      → get_elem? w.clientid_array j ≡ some target
      → get_elem? w.client_array j ≡ some s
      → Hears p P s

  deliver-SendsOnly :
      (names : List Bytes) (target : Bytes) (iterator : ℕ) (args : List Bytes) (w : ServerNetwork)
      → AllIn names w.clientid_array
      → length w.clientid_array ≡ length w.client_array
      → iterator < length w.clientid_array
      → NameHears target w
      → Returns (Only w) (deliver p names target iterator args w)
  unfolding deliver
  deliver-SendsOnly [] target iterator args w a h inside hears = Only-refl w
  deliver-SendsOnly (x ∷ names) target iterator args w (here, a) h inside hears =
      elim (Bool-cases (str_eq target x)) [
        | inr miss ↦ rw miss (deliver-SendsOnly names target iterator args w a h inside hears)
        | inl hit ↦
            let (sender, es) = get_elem?_total w.clientid_array iterator inside in
            let (index, ei, at_index) = get_index_total w.clientid_array x here in
            let within = get_elem?-lt w.clientid_array index x at_index in
            let at_target : get_elem? w.clientid_array index ≡ some target =
              at_index ∙ ap some (sym ((str_eq_iff target x).0 hit)) in
            rw (hit, at_ok w.clientid_array iterator sender es, ei)
              (Returns-bind (Only w) (Only w) (send_string_at p (direct_text x sender args) index w)
                _
                (send_string_at-SendsOnly (direct_text x sender args) index w (omega arith)
                  (λ s at_s. hears index s at_target at_s))
                (λ w' e (o, g).
                  Returns-mono _ _ (deliver p names target iterator args w')
                    (λ u q. Only-trans w w' u (o, g) q)
                    (deliver-SendsOnly names target iterator args w' (rw o.names a)
                      (rw (o.names, o.clients) h) (rw o.names inside)
                      (rw (o.names, o.clients) hears))))
      ]

  abbrev Sends : ServerNetwork → CmdStatus × ServerNetwork → Type 0
  Sends w r = Only w r.1

  help-SendsOnly :
      (sock : Socket) (args : List Bytes) (w : ServerNetwork)
      → 1 < length args
      → Hears p P sock
      → Returns (Sends w) (help_lambda p sock args w)
  unfolding help_lambda
  help-SendsOnly sock args w h hears =
      let all_text = codes "Avail commands: " ++ command_list (get_vector w.cmd_executor) in
      let refusal = codes "Multiple args is not supported by the command: help" in
      let (arg, e) = get_elem?_total args 1 h in
      rw (at_ok args 1 arg e) (elim (Bool-cases (str_eq arg [])) [
        | inl all_commands ↦ rw all_commands (
            Returns-bind (Only w) (Sends w) (send_string p all_text sock w) _
              (send_string-SendsOnly all_text sock w hears) (λ w' e o. o))
        | inr one_command ↦ rw one_command (
            Returns-bind (Only w) (Sends w) (send_string p refusal sock w) _
              (send_string-SendsOnly refusal sock w hears) (λ w' e o. o))
      ])

  module _ (sock : Socket) (iterator : ℕ) (w : ServerNetwork)
      (same : length w.clientid_array ≡ length w.client_array)
      (here : get_elem? w.client_array iterator ≡ some sock) (hears : Hears p P sock)
      (named_hears : (n : Bytes) → n ≢ unnamed → NameHears n w) where
    msg-SendsOnly :
        (args : List Bytes) → 1 < length args → Returns (Sends w) (msg_lambda p iterator args w)
    unfolding msg_lambda
    msg-SendsOnly args h =
        let within = get_elem?-lt w.client_array iterator sock here in
        let (target, e) = get_elem?_total args 1 h in
        let (own, eo) = get_elem?_total w.clientid_array iterator (omega arith) in
        rw (at_ok args 1 target e) (elim (Bool-cases (str_eq target unnamed)) [
          | inl nobody ↦ rw nobody (Only-refl w)
          | inr somebody ↦
              let real : target ≢ unnamed = λ q. ground (arith, str_eq_iff target unnamed) in
              rw (somebody, at_ok w.clientid_array iterator own eo)
                (elim (Bool-cases (str_eq target own)) [
                  | inl self ↦ rw self (
                      Returns-bind (Only w) (Sends w)
                        (send_string_at p (codes "You cannot send message to yourself") iterator w)
                        _
                        (send_string_at-SendsOnly (codes "You cannot send message to yourself")
                          iterator w within
                          (λ s at_s.
                            subst (Hears p P) (some-injective _ _ (sym here ∙ at_s)) hears))
                        (λ w' e o. o))
                  | inr other ↦ rw other (
                      Returns-bind (Only w) (Sends w)
                        (deliver p w.clientid_array target iterator args w) _
                        (deliver-SendsOnly w.clientid_array target iterator args w
                          (AllIn-self w.clientid_array) same (omega arith)
                          (named_hears target real))
                        (λ w' e o. o))
                ])
        ])

    pub run_lambda-SendsOnly :
        (f : CommandLambda) (args : List Bytes)
        → 1 < length args
        → Returns (Sends w) (run_lambda p sock iterator f args w)
    unfolding run_lambda
    run_lambda-SendsOnly help args h = help-SendsOnly sock args w h hears
    run_lambda-SendsOnly plugins args h =
        Returns-bind (Only w) (Sends w) (send_string p (codes "Plugins (0): ") sock w) _
          (send_string-SendsOnly (codes "Plugins (0): ") sock w hears) (λ w' e o. o)
    run_lambda-SendsOnly msg args h = msg-SendsOnly args h
