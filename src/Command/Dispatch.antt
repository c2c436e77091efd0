-- ===== src/Command/Dispatch.antt =====
-- Registration keeps the names distinct, so the executor runs the one command that is named.
use open_simp.Prelude.{
  ◌≤◌, ◌<◌, ◌≡◌, refl, ap, ◌++◌, if◌then◌else◌, Bool, true, false, List, [], ◌∷◌, map, Option, none,
  some, Bytes, codes, str_eq, str_eq_iff, contains, Result, fault, aborted, ◌>>=◌, arith, ◌⊎◌,
  Bool-cases, inl, inr, replicate, ◌-◌, out_of_range,
}
use open_simp.Lexer.Split.{parts, count, lex-parts, lex_overflows}
use open_simp.Command.{
  CmdStatus, ExecutableCommand, Executor, get_command, str, set_executor, consider_all, iterate,
  execute,
}

module _ {F : Type 0} where
  -- No two commands have one name.
  abbrev pub Distinct : List (ExecutableCommand F) → Type 0
  Distinct [] = Unit
  Distinct (x ∷ xs) = (contains (map str xs) (str x) ≡ false) × Distinct xs

  contains-append :
      (xs : List (ExecutableCommand F)) (e : ExecutableCommand F) (s : Bytes)
      → contains (map str xs) s ≡ false
      → str_eq s (str e) ≡ false
      → contains (map str (xs ++ e ∷ [])) s ≡ false
  contains-append [] e s h k = ground arith
  contains-append (x ∷ xs) e s h k = ground (arith, contains-append xs e s)

  Distinct-append :
      (xs : List (ExecutableCommand F)) (e : ExecutableCommand F)
      → Distinct xs
      → contains (map str xs) (str e) ≡ false
      → Distinct (xs ++ e ∷ [])
  Distinct-append [] e d h = (refl, tt)
  Distinct-append (x ∷ xs) e (here, rest) h = (
    contains-append xs e (str x) here
        (ground (arith, str_eq_iff (str x) (str e), str_eq_iff (str e) (str x))),
    Distinct-append xs e rest (ground arith),
  )

  -- The first command of that name.
  abbrev pub find_command : List (ExecutableCommand F) → Bytes → Option (ExecutableCommand F)
  find_command [] s = none
  find_command (x ∷ xs) s = if str_eq s (str x) then some x else find_command xs s

  -- Registering a command made by `getCommand` either aborts, exactly when the name is taken, or
  -- adds the command behind the others and keeps the names distinct.
  pub set_executor-Distinct :
      (x : Executor F) (name : Bytes) (f : F)
      → Distinct x.m_cmds
      → ((contains (map str x.m_cmds) name ≡ true)
          × (set_executor (get_command name f) x ≡ fault aborted))
        ⊎ ((y : Executor F) × (contains (map str x.m_cmds) name ≡ false)
            × (set_executor (get_command name f) x ≡ Result.ok y)
            × (y.m_cmds ≡ x.m_cmds ++ get_command name f ∷ [])
            × Distinct y.m_cmds)
  unfolding set_executor
  set_executor-Distinct x name f d = elim (Bool-cases (contains (map str x.m_cmds) name)) [
    | inl taken ↦ inl (taken, rw taken)
    | inr free ↦ inr (
      record { m_cmds = x.m_cmds ++ get_command name f ∷ [] },
      free,
      rw free,
      refl,
      Distinct-append x.m_cmds (get_command name f) d free,
    )
  ]

module _ {F W : Type 0} (run : F → List Bytes → W → Result (CmdStatus × W)) where
  -- What one found command does to the state.
  abbrev pub perform : Option (ExecutableCommand F) → List Bytes → W → Result (Bool × W)
  perform none args w = Result.ok (false, w)
  perform (some x) args w = do (status, w') ← execute run x args w; Result.ok (true, w')

  consider_all_absent :
      (xs : List (ExecutableCommand F)) (word : Bytes) (args : List Bytes) (done : Bool) (w : W)
      → contains (map str xs) word ≡ false
      → consider_all run xs word args done w ≡ Result.ok (done, w)
  unfolding consider_all
  consider_all_absent [] word args done w h = refl
  consider_all_absent (x ∷ xs) word args done w h = elim (Bool-cases (str_eq word (str x))) [
    | inl hit ↦ absurd (ground arith)
    | inr miss ↦ rw miss (consider_all_absent xs word args done w (ground arith))
  ]

  abbrev ran : CmdStatus × W → Result (Bool × W)
  ran a = Result.ok (true, a.1)

  consider_all_done :
      (xs : List (ExecutableCommand F)) (word : Bytes) (args : List Bytes)
      (r : Result (CmdStatus × W))
      → contains (map str xs) word ≡ false
      → (r >>= ran >>= λ b. consider_all run xs word args b.0 b.1) ≡ (r >>= ran)
  consider_all_done xs word args (Result.ok a) h = consider_all_absent xs word args true a.1 h
  consider_all_done xs word args Result.throws h = refl
  consider_all_done xs word args (fault e) h = refl

  consider_all-perform :
      (xs : List (ExecutableCommand F)) (word : Bytes) (args : List Bytes) (w : W)
      → Distinct xs
      → consider_all run xs word args false w ≡ perform (find_command xs word) args w
  unfolding consider_all
  consider_all-perform [] word args w d = refl
  consider_all-perform (x ∷ xs) word args w (fresh, d) = elim (Bool-cases (str_eq word (str x))) [
    | inl hit ↦ rw hit (
        consider_all_done xs word args (execute run x args w)
          (rw ((str_eq_iff word (str x)).0 hit) fresh))
    | inr miss ↦ rw miss (consider_all-perform xs word args w d)
  ]

  module _ (reply : Bytes → W → Result W) where
    abbrev pub finish : Bytes → Bool × W → Result W
    finish e (executed, w') =
        if executed
        then Result.ok w'
        else reply (codes "Command " ++ e ++ codes " was not found. Type /help to get help.") w'

    -- With distinct commands and at most 511 spaces, `iterate` runs the one command that the first
    -- word names, with the words padded to 512 as arguments, and else replies that there is none;
    -- the assertion against a second match never fires.
    pub iterate-perform :
        (x : Executor F) (e : Bytes) (w : W)
        → Distinct x.m_cmds
        → count 0x20 e ≤ 511
        → (word : Bytes) (rest : List Bytes) → parts 0x20 e ≡ word ∷ rest
        → iterate run reply x e w ≡ (
            perform
              (find_command x.m_cmds word)
              ((word ∷ rest) ++ replicate (511 - count 0x20 e) [])
              w
            >>= finish e)
    unfolding iterate
    iterate-perform x e w d h word rest p =
        rw (lex-parts e 0x20 511 h, p)
          (ap (λ r. r >>= finish e) (consider_all-perform x.m_cmds word _ w d))

    -- A line with more than 511 spaces makes `iterate` write behind its array of 512 words.
    pub iterate_overflows :
        (x : Executor F) (e : Bytes) (w : W)
        → 511 < count 0x20 e
        → iterate run reply x e w ≡ fault out_of_range
    unfolding iterate
    iterate_overflows x e w h = rw (lex_overflows e 0x20 511 h)
