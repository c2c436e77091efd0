-- ===== src/Lexer/Split.antt =====
-- The splitter of lexer.cpp against the parts of a text.
use open_simp.Prelude.{
  ℕ, zero, suc, ◌+◌, ◌-◌, ◌≤◌, ◌<◌, ◌≡◌, refl, ap, ◌∙◌, ◌==◌, if◌then◌else◌, true, false, List, [],
  ◌∷◌, ◌++◌, append_assoc, Bytes, ok, fault, out_of_range, store, replicate, length, arith,
  length-append, has, ==_iff, Bool-cases, inl, inr, append-nil,
}
use open_simp.Lexer.{step, loop, lex, string_array}

module _ (sep : ℕ) where
  -- The parts of a text between separators, `cur` being the part that is open.
  abbrev pub parts_from : Bytes → Bytes → List Bytes
  parts_from cur [] = cur ∷ []
  parts_from cur (x ∷ s) =
      let here = parts_from (cur ++ x ∷ []) s in
      let next = cur ∷ parts_from [] s in if x == sep then next else here

-- The words of `s`: it split at every separator.
abbrev pub parts : ℕ → Bytes → List Bytes
parts sep s = parts_from sep [] s

-- Separators in a text.
abbrev pub count : ℕ → Bytes → ℕ
count sep [] = 0
count sep (x ∷ s) = let rest = count sep s in if x == sep then suc rest else rest

-- An array whose first cells are `done`, with `word` in the open one and `k` empty cells behind.
abbrev cells : List Bytes → Bytes → ℕ → List Bytes
cells done word k = done ++ word ∷ replicate k []

store_here :
    (done : List Bytes) (w v : Bytes) (rest : List Bytes) (i : ℕ)
    → i ≡ length done
    → store (done ++ w ∷ rest) i v ≡ ok (done ++ v ∷ rest)
store_here [] w v rest i e = ground arith
store_here (d ∷ done) w v rest zero e = absurd (omega arith)
store_here (d ∷ done) w v rest (suc i) e = ground (arith, store_here done w v rest i)

store_next :
    (done : List Bytes) (w x v : Bytes) (rest : List Bytes) (i : ℕ)
    → i ≡ length done + 1
    → store (done ++ w ∷ x ∷ rest) i v ≡ ok (done ++ w ∷ v ∷ rest)
store_next [] w x v rest i e = rw (e) (ground arith)
store_next (d ∷ done) w x v rest zero e = absurd (omega arith)
store_next (d ∷ done) w x v rest (suc i) e = ground (arith, store_next done w x v rest i)

store_past :
    (done : List Bytes) (w v : Bytes) (i : ℕ)
    → i ≡ length done + 1
    → store (done ++ w ∷ []) i v ≡ fault out_of_range
store_past [] w v i e = ground arith
store_past (d ∷ done) w v zero e = absurd (omega arith)
store_past (d ∷ done) w v (suc i) e = ground (arith, store_past done w v i)

module _ (sep : ℕ) where
  step_letter :
      (x : ℕ) (done : List Bytes) (word : Bytes) (k i : ℕ)
      → (x == sep) ≡ false
      → i ≡ length done
      → step sep x (cells done word k) i word
        ≡ ok (cells done (word ++ x ∷ []) k, i, word ++ x ∷ [])
  unfolding step
  step_letter x done word k i h e =
      rw (h, store_here done word (word ++ x ∷ []) (replicate k []) i e)

  step_cut :
      (x : ℕ) (done : List Bytes) (word : Bytes) (k i : ℕ)
      → (x == sep) ≡ true
      → i ≡ length done
      → step sep x (cells done word (suc k)) i word ≡ ok (cells (done ++ word ∷ []) [] k, i + 1, [])
  unfolding step
  step_cut x done word k i h e = rw (
    h,
    store_next done word [] word (replicate k []) (i + 1) (omega arith),
    store_next done word word [] (replicate k []) (i + 1) (omega arith),
    append_assoc done (word ∷ []) ([] ∷ replicate k []),
  )

  step_past :
      (x : ℕ) (done : List Bytes) (word : Bytes) (i : ℕ)
      → (x == sep) ≡ true
      → i ≡ length done
      → step sep x (cells done word 0) i word ≡ fault out_of_range
  unfolding step
  step_past x done word i h e = rw (h, store_past done word word (i + 1) (omega arith))

  loop_fits :
      (s : Bytes) (done : List Bytes) (word : Bytes) (k i : ℕ)
      → i ≡ length done
      → count sep s ≤ k
      → loop sep s (cells done word k) i word
        ≡ ok (done ++ (parts_from sep word s ++ replicate (k - count sep s) []))
  unfolding loop
  loop_fits [] done word k i e h = ap (λ n. ok (done ++ word ∷ replicate n [])) (omega arith)
  loop_fits (x ∷ s) done word zero i e h = elim (Bool-cases (x == sep)) [
    | inl cut ↦ absurd (ground arith)
    | inr letter ↦
        rw (step_letter x done word 0 i letter e, letter)
          (loop_fits s done (word ++ x ∷ []) 0 i e (ground arith))
  ]
  loop_fits (x ∷ s) done word (suc k) i e h = elim (Bool-cases (x == sep)) [
    | inl cut ↦
        rw (step_cut x done word k i cut e, cut)
          (loop_fits s (done ++ word ∷ []) [] k (i + 1)
              (omega (arith, length-append done (word ∷ []))) (ground arith)
            ∙ rw (append_assoc done (word ∷ [])) (
                ap (λ m. ok (done ++ word ∷ (parts_from sep [] s ++ replicate m [])))
                  (omega arith)))
    | inr letter ↦
        rw (step_letter x done word (suc k) i letter e, letter)
          (loop_fits s done (word ++ x ∷ []) (suc k) i e (ground arith))
  ]

  loop_overflows :
      (s : Bytes) (done : List Bytes) (word : Bytes) (k i : ℕ)
      → i ≡ length done
      → k < count sep s
      → loop sep s (cells done word k) i word ≡ fault out_of_range
  unfolding loop
  loop_overflows [] done word k i e h = absurd (omega arith)
  loop_overflows (x ∷ s) done word zero i e h = elim (Bool-cases (x == sep)) [
    | inl cut ↦ rw (step_past x done word i cut e)
    | inr letter ↦
        rw (step_letter x done word 0 i letter e)
          (loop_overflows s done (word ++ x ∷ []) 0 i e (ground arith))
  ]
  loop_overflows (x ∷ s) done word (suc k) i e h = elim (Bool-cases (x == sep)) [
    | inl cut ↦ rw (step_cut x done word k i cut e) (
        loop_overflows s (done ++ word ∷ []) [] k (i + 1)
          (omega (arith, length-append done (word ∷ []))) (ground arith))
    | inr letter ↦
        rw (step_letter x done word (suc k) i letter e)
          (loop_overflows s done (word ++ x ∷ []) (suc k) i e (ground arith))
  ]

-- Into an array of `n + 1` empty strings, `lex` writes the parts of the text one to a cell and
-- leaves the cells behind them empty, if the text has at most `n` separators.
pub lex-parts :
    (s : Bytes) (sep n : ℕ)
    → count sep s ≤ n
    → lex s (string_array (suc n)) sep ≡ ok (parts sep s ++ replicate (n - count sep s) [])
unfolding lex
lex-parts s sep n h = loop_fits sep s [] [] n 0 refl h

-- Into an array of `n + 1` empty strings, a text with more than `n` separators makes `lex` write
-- outside the array.
pub lex_overflows :
    (s : Bytes) (sep n : ℕ)
    → n < count sep s
    → lex s (string_array (suc n)) sep ≡ fault out_of_range
unfolding lex
lex_overflows s sep n h = loop_overflows sep s [] [] n 0 refl h

module _ (sep : ℕ) where
  parts_from-append_sep :
      (a rest cur : Bytes)
      → has sep a ≡ false
      → parts_from sep cur (a ++ sep ∷ rest) ≡ (cur ++ a) ∷ parts sep rest
  parts_from-append_sep [] rest cur h = rw ((==_iff sep sep).1 refl, append-nil)
  parts_from-append_sep (x ∷ a) rest cur h = elim (Bool-cases (x == sep)) [
    | inl cut ↦ absurd (ground arith)
    | inr letter ↦
        rw (letter, parts_from-append_sep a rest (cur ++ x ∷ []) (ground arith), append_assoc)
  ]

  parts_from_clean : (a cur : Bytes) → has sep a ≡ false → parts_from sep cur a ≡ (cur ++ a) ∷ []
  parts_from_clean [] cur h = rw append-nil
  parts_from_clean (x ∷ a) cur h = elim (Bool-cases (x == sep)) [
    | inl cut ↦ absurd (ground arith)
    | inr letter ↦ rw (letter, parts_from_clean a (cur ++ x ∷ []) (ground arith), append_assoc)
  ]

  -- A first word that lacks the separator is the first part.
  pub parts-append_sep :
      (a rest : Bytes) → has sep a ≡ false → parts sep (a ++ sep ∷ rest) ≡ a ∷ parts sep rest
  parts-append_sep a rest h = parts_from-append_sep a rest [] h

  pub parts_of_clean : (a : Bytes) → has sep a ≡ false → parts sep a ≡ a ∷ []
  parts_of_clean a h = parts_from_clean a [] h

  pub count_of_clean : (a : Bytes) → has sep a ≡ false → count sep a ≡ 0
  count_of_clean [] h = refl
  count_of_clean (x ∷ a) h = ground (arith, count_of_clean a)

  pub count-append : (a b : Bytes) → count sep (a ++ b) ≡ count sep a + count sep b
  count-append [] b = omega arith
  count-append (x ∷ a) b = ground (arith, count-append a b)

module _ (sep : ℕ) where
  length-parts_from : (s cur : Bytes) → length (parts_from sep cur s) ≡ count sep s + 1
  length-parts_from [] cur = omega arith
  length-parts_from (x ∷ s) cur =
      ground (arith, length-parts_from s [], length-parts_from s (cur ++ x ∷ []))

  -- A text has one part more than separators.
  pub length-parts : (s : Bytes) → length (parts sep s) ≡ count sep s + 1
  length-parts s = length-parts_from s []

  pub parts_cons : (s : Bytes) → (word : Bytes) × (rest : List Bytes) × (parts sep s ≡ word ∷ rest)
  parts_cons s = some_head (parts sep s) (length-parts s)
    where
      some_head :
          (ps : List Bytes)
          → length ps ≡ count sep s + 1
          → (word : Bytes) × (rest : List Bytes) × (ps ≡ word ∷ rest)
      some_head [] h = absurd (omega arith)
      some_head (p ∷ ps) h = (p, ps, refl)
