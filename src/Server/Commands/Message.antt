-- ===== src/Server/Commands/Message.antt =====
-- The command `msg` of servernetwork.cpp: to whom it sends, and what.
use open_simp.Prelude.{
  ℕ, zero, suc, ◌-◌, ◌≤◌, ◌≡◌, ◌≢◌, refl, ap, sym, ◌∙◌, ◌++◌, true, false, List, [], ◌∷◌, map, some,
  Bytes, codes, str_eq, str_eq_iff, str_eq_refl, contains, c_str, ok, at_ok, replicate, get_elem?,
  drop, arith, Bool-cases, inl, inr,
}
use mathlib.Core.Option.{some-injective}
use open_simp.Lexer.Split.{count, parts}
use open_simp.Cryptography.Interface.{IsSound}
use open_simp.Command.{CmdStatus, get_command}
use open_simp.Command.Dispatch.{find_command, iterate-perform}
use open_simp.Server.{Socket, Event, msg, Platform, ServerNetwork, unnamed, soh}
use open_simp.Server.Wire.{send_string, send_string_at}
use open_simp.Server.Wire.Delivery.{posted, packets, send_lem, read_event, read-packets}
use open_simp.Server.Commands.{
  get_index, direct_text, deliver, msg_lambda, run_lambda, handle_command, spaced,
}
use open_simp.Server.Commands.Lookup.{get_index_total}
use open_simp.Server.Invariant.{IsValid}

contains_of_get_elem? :
    (xs : List Bytes) (i : ℕ) (x : Bytes) → get_elem? xs i ≡ some x → contains xs x ≡ true
contains_of_get_elem? [] i x h = cc
contains_of_get_elem? (y ∷ xs) zero x h =
    let same : y ≡ x = some-injective _ _ h in rw (same, str_eq_refl x)
contains_of_get_elem? (y ∷ xs) (suc i) x h = ground (arith, contains_of_get_elem? xs i x h)

contains_of_none :
    (xs : List Bytes) (x : Bytes) → ((i : ℕ) → get_elem? xs i ≢ some x) → contains xs x ≡ false
contains_of_none xs x none_is = elim (Bool-cases (contains xs x)) [
  | inl hit ↦ let (i, e, at_i) = get_index_total xs x hit in absurd (none_is i at_i)
  | inr miss ↦ miss
]

module _ (p : Platform) (sound : IsSound p.botan) (target : Bytes) (iterator : ℕ)
    (args : List Bytes) where
  deliver_absent :
      (names : List Bytes) (w : ServerNetwork)
      → contains names target ≡ false
      → deliver p names target iterator args w ≡ ok w
  unfolding deliver
  deliver_absent [] w h = refl
  deliver_absent (x ∷ names) w h =
      let miss : str_eq target x ≡ false = ground arith in
      rw (miss, deliver_absent names w (ground arith))

  module _ (w : ServerNetwork) (v : IsValid w) (sender : Bytes) (recipient : Socket) (j : ℕ)
      (is_sender : get_elem? w.clientid_array iterator ≡ some sender)
      (is_target : get_elem? w.clientid_array j ≡ some target)
      (is_recipient : get_elem? w.client_array j ≡ some recipient) (real : target ≢ unnamed) where
    abbrev pub told : ServerNetwork
    told = posted p (b'6' ∷ soh ∷ direct_text target sender args) (recipient ∷ []) w

    get_index-target : get_index w.clientid_array target ≡ some j
    get_index-target =
        let (i, e, at_i) =
          get_index_total w.clientid_array target
            (contains_of_get_elem? w.clientid_array j target is_target) in
        e ∙ ap some (v.unique i j target at_i is_target real)

    send_string_at-told : send_string_at p (direct_text target sender args) j w ≡ ok told
    unfolding send_string_at send_string
    send_string_at-told = rw (
      at_ok w.client_array j recipient is_recipient,
      send_lem p sound (b'6' ∷ soh ∷ direct_text target sender args) recipient w,
    )

    -- Among names of which one, at `k`, is the target.
    deliver_once :
        (names : List Bytes) (k : ℕ)
        → get_elem? names k ≡ some target
        → ((i : ℕ) → get_elem? names i ≡ some target → i ≡ k)
        → deliver p names target iterator args w ≡ ok told
    unfolding deliver
    deliver_once [] k h once = cc
    deliver_once (x ∷ names) zero h once =
        let same : x ≡ target = some-injective _ _ h in
        let alone : contains names target ≡ false =
          contains_of_none names target (λ i e. absurd (omega (arith, once (suc i) e))) in
        rw (
          same,
          str_eq_refl target,
          at_ok w.clientid_array iterator sender is_sender,
          get_index-target,
          same,
          send_string_at-told,
          deliver_absent names told alone,
        )
    deliver_once (x ∷ names) (suc k) h once =
        let other : str_eq target x ≡ false = elim (Bool-cases (str_eq target x)) [
          | inl hit ↦ absurd (omega (arith, once 0 (ap some (sym ((str_eq_iff target x).0 hit)))))
          | inr miss ↦ miss
        ] in
        rw (other, deliver_once names k h (λ i e. omega (arith, once (suc i) e)))

    -- The sender is somebody else.
    msg_lambda-told :
        target ≢ sender
        → get_elem? args 1 ≡ some target
        → msg_lambda p iterator args w ≡ ok (CmdStatus.ok, told)
    unfolding msg_lambda
    msg_lambda-told other at_arg =
        let named : str_eq target unnamed ≡ false = ground (arith, str_eq_iff target unnamed) in
        let another : str_eq target sender ≡ false = ground (arith, str_eq_iff target sender) in
        rw (
          at_ok args 1 target at_arg,
          named,
          at_ok w.clientid_array iterator sender is_sender,
          another,
          deliver_once w.clientid_array j is_target (λ i e. v.unique i j target e is_target real),
        )

  -- Nobody of that name is there.
  msg_lambda-lost :
      (w : ServerNetwork) (sender : Bytes)
      → get_elem? w.clientid_array iterator ≡ some sender
      → get_elem? args 1 ≡ some target
      → target ≢ unnamed
      → contains w.clientid_array target ≡ false
      → msg_lambda p iterator args w ≡ ok (CmdStatus.ok, w)
  unfolding msg_lambda
  msg_lambda-lost w sender is_sender at_arg real absent =
      let named : str_eq target unnamed ≡ false = ground (arith, str_eq_iff target unnamed) in
      let another : str_eq target sender ≡ false = elim (Bool-cases (str_eq target sender)) [
        | inl hit ↦
            let there : contains w.clientid_array sender ≡ true =
              contains_of_get_elem? w.clientid_array iterator sender is_sender in
            let same : target ≡ sender = (str_eq_iff target sender).0 hit in absurd (cc)
        | inr miss ↦ miss
      ] in
      rw (
        at_ok args 1 target at_arg,
        named,
        at_ok w.clientid_array iterator sender is_sender,
        another,
        deliver_absent w.clientid_array w absent,
      )

-- The words of a command, padded to 512.
abbrev pub words : Bytes → List Bytes
words e = parts 0x20 e ++ replicate (511 - count 0x20 e) []

module _ (p : Platform) (sound : IsSound p.botan) (received : Bytes) (client : Socket)
    (iterator : ℕ) (w : ServerNetwork) (v : IsValid w) (sender target : Bytes) (rest : List Bytes)
    (is_sender : get_elem? w.clientid_array iterator ≡ some sender) (real : target ≢ unnamed)
    (registered : find_command w.cmd_executor.m_cmds (codes "msg")
      ≡ some (get_command (codes "msg") msg))
    (few : count 0x20 (drop 1 received) ≤ 511)
    (split : parts 0x20 (drop 1 received) ≡ codes "msg" ∷ target ∷ rest) where
  -- The command "msg", with the name of another client, sends that client one packet and nobody else
  -- any: in brackets the recipient's name, an arrow and the sender's, and then the other words, each
  -- with a blank behind it, up to the 512th.
  pub msg_delivers :
      (j : ℕ) (recipient : Socket)
      → target ≢ sender
      → get_elem? w.clientid_array j ≡ some target
      → get_elem? w.client_array j ≡ some recipient
      → let padding : List Bytes = replicate (511 - count 0x20 (drop 1 received)) [] in
        let text =
          codes "["
          ++ (target ++ (codes " -> " ++ (sender ++ (codes "]: " ++ spaced (rest ++ padding))))) in
        (w' : ServerNetwork) × (es : List Event) × (handle_command p received client iterator w
          ≡ ok w')
        × (w'.wire ≡ w.wire ++ es)
        × (map (read_event p) es ≡ (recipient, some (c_str (b'6' ∷ soh ∷ text))) ∷ [])
  unfolding handle_command run_lambda direct_text
  msg_delivers j recipient other is_target is_recipient =
      let args =
        codes "msg" ∷ target ∷ (rest ++ replicate (511 - count 0x20 (drop 1 received)) []) in
      let text = b'6' ∷ soh ∷ direct_text target sender args in
      (
        told p sound target iterator args w v sender recipient j is_sender is_target is_recipient
            real,
        packets p text (recipient ∷ []) w.crypt,
        rw (
          at_ok w.clientid_array iterator sender is_sender,
          iterate-perform (run_lambda p client iterator) (λ text. send_string p text client)
              w.cmd_executor (drop 1 received) w v.commands few (codes "msg") (target ∷ rest) split,
          registered,
          msg_lambda-told p sound target iterator args w v sender recipient j is_sender is_target
              is_recipient real other refl,
        ),
        refl,
        read-packets p sound text (recipient ∷ []) w.crypt,
      )

  -- With the name of nobody it does nothing, and tells the sender nothing.
  msg_lost :
      contains w.clientid_array target ≡ false → handle_command p received client iterator w ≡ ok w
  unfolding handle_command run_lambda
  msg_lost absent =
      let args =
        codes "msg" ∷ target ∷ (rest ++ replicate (511 - count 0x20 (drop 1 received)) []) in
      rw (
        at_ok w.clientid_array iterator sender is_sender,
        iterate-perform (run_lambda p client iterator) (λ text. send_string p text client)
            w.cmd_executor (drop 1 received) w v.commands few (codes "msg") (target ∷ rest) split,
        registered,
        msg_lambda-lost p sound target iterator args w sender is_sender refl real absent,
      )
