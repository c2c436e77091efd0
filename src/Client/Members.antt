-- ===== src/Client/Members.antt =====
-- The list of members that the client prints when somebody leaves: `disconnectClient` of
-- servernetwork.cpp and `receive` of ClientNetwork.cpp, with its array of 100 words.
use open_simp.Prelude.{
  suc, ◌-◌, ◌≤◌, ◌≡◌, ap, ◌++◌, Bool, Bool-cases, inl, inr, not, all, if◌then◌else◌, false, true,
  List, [], ◌∷◌, Bytes, codes, str_eq, has, length, replicate, ok, fault, out_of_range, append-nil,
  arith,
}
use open_simp.Client.Utils.{lexer-parts, lexer_overflows}
use open_simp.Lexer.Split.{
  parts, count, parts-append_sep, parts_of_clean, count-append, length-parts,
}
use open_simp.Server.{unnamed, soh, name_list}
use open_simp.Server.Clients.{leave_packet}
use open_simp.Client.{spaced_cells, shown, screen_text}

-- The clients that have a name.
abbrev pub named : List Bytes → List Bytes
named [] = []
named (x ∷ xs) = if str_eq x unnamed then named xs else x ∷ named xs

abbrev lacks_separator : Bytes → Bool
lacks_separator x = not (has soh x)

count-name_list : (ids : List Bytes) → length (named ids) ≤ count soh (name_list ids)
unfolding name_list
count-name_list [] = omega arith
count-name_list (x ∷ xs) = elim (Bool-cases (str_eq x unnamed)) [
  | inl skipped ↦ rw skipped (count-name_list xs)
  | inr here ↦ rw here (ground (arith, count-name_list xs, count-append soh x (name_list xs)))
]

-- Names with no separator are the parts of the list.
parts-name_list :
    (name : Bytes) (ids : List Bytes)
    → has soh name ≡ false
    → all lacks_separator ids ≡ true
    → parts soh (name ++ name_list ids) ≡ name ∷ named ids
unfolding name_list
parts-name_list name [] h k = rw (append-nil name) (parts_of_clean soh name h)
parts-name_list name (x ∷ xs) h k = elim (Bool-cases (str_eq x unnamed)) [
  | inl skipped ↦ rw skipped (parts-name_list name xs h (ground arith))
  | inr here ↦ rw (
    here,
    parts-append_sep soh name (x ++ name_list xs) h,
    parts-name_list x xs (ground arith) (ground arith),
  )
]

count_of_clean_list :
    (name : Bytes) (ids : List Bytes)
    → has soh name ≡ false
    → all lacks_separator ids ≡ true
    → count soh (name ++ name_list ids) ≡ length (named ids)
count_of_clean_list name ids h k =
    let size : length (parts soh (name ++ name_list ids)) ≡ suc (length (named ids)) =
      ap length (parts-name_list name ids h k) in
    omega (arith, length-parts soh (name ++ name_list ids))

-- When somebody leaves, the client prints the name and then the names of the others that have one,
-- if they are at most 98 and hold no separator; a blank stands for each cell that is left.
leave_shown :
    (name : Bytes) (others : List Bytes)
    → has soh name ≡ false
    → all lacks_separator others ≡ true
    → length (named others) ≤ 98
    → screen_text (leave_packet name others)
      ≡ ok (
          name
          ++ codes " left\nList: "
          ++ spaced_cells (named others ++ replicate (98 - length (named others)) [])
          ++ codes "\n")
unfolding screen_text shown leave_packet
leave_shown name others h k few =
    let size = count_of_clean_list name others h k in
    let rest : 99 - suc (length (named others)) ≡ 98 - length (named others) = omega arith in
    rw (
      lexer-parts (b'2' ∷ soh ∷ (name ++ name_list others)) soh 99 (ground arith),
      parts-name_list name others h k,
      size,
      rest,
    )

-- A leave packet with at least 99 others that have a name makes the client write behind its
-- array.
pub leave_overflows :
    (name : Bytes) (others : List Bytes)
    → 99 ≤ length (named others)
    → screen_text (leave_packet name others) ≡ fault out_of_range
unfolding screen_text leave_packet
leave_overflows name others many = rw (
    lexer_overflows (b'2' ∷ soh ∷ (name ++ name_list others)) soh 99
      (ground (arith, count-append soh name (name_list others), count-name_list others)))
