-- ===== src/Examples/Talks.antt =====
-- Alice types two lines, and carol's screen shows them.
use open_simp.Prelude.{ok, ℕ, ◌≡◌, refl, ◌++◌, List, [], ◌∷◌, map, some, Bytes, codes, arith}
use open_simp.Server.{Event, done, ServerNetwork}
use open_simp.Server.Names.{is_blank, is_space}
use open_simp.Server.Chat.{starts_with_digit}
use open_simp.Client.{ClientNetwork, run_lines}
use open_simp.Client.Screen.{on_screen}
use open_simp.Client.Conversation.{IsChatLine, Conversation, Talker}
use open_simp.Client.Conversation.Screens.{lines_reach_screens}
use open_simp.Examples.Toy.{toy_botan, toy, toy-IsSound}
use open_simp.Examples.Room.{alice, carol, room, room-IsValid}
use open_simp.Examples.Screens.{ready, alice_is_named}

hi-IsChatLine : IsChatLine (codes "alice") (codes "hi")
unfolding is_blank is_space starts_with_digit
hi-IsChatLine = record {
  full = refl;
  plain = refl;
  no_nul = refl;
  no_soh = refl;
  short = omega arith;
}

bye-IsChatLine : IsChatLine (codes "alice") (codes "bye")
unfolding is_blank is_space starts_with_digit
bye-IsChatLine = record {
  full = refl;
  plain = refl;
  no_nul = refl;
  no_soh = refl;
  short = omega arith;
}

alice-Talker : Talker alice 0 (codes "alice") 0 (room done)
alice-Talker = record {
  valid = room-IsValid done;
  here = refl;
  at_name = refl;
  is_done = refl;
  at_clock = refl;
}

abbrev typed : List (Bytes × ℕ)
typed = (codes "hi", 500000) ∷ (codes "bye", 530000) ∷ []

lines_reach_screens_example :
    (c' : ClientNetwork) × (w' : ServerNetwork) × (es : List Event) × Conversation toy alice 0 ready
      (room done)
      typed
      c'
      w'
    × (run_lines toy_botan (codes "hi" ∷ codes "bye" ∷ []) ready ≡ ok c')
    × (w'.wire ≡ [] ++ es)
    × (map (on_screen toy ready) es
        ≡ (carol, some (codes "<alice> hi\n")) ∷ (carol, some (codes "<alice> bye\n")) ∷ [])
lines_reach_screens_example =
    lines_reach_screens toy toy-IsSound alice 0 (codes "alice") alice_is_named refl refl typed 0
      ready ready (room done) refl refl refl alice-Talker
      (hi-IsChatLine, omega arith, (bye-IsChatLine, omega arith, tt))
