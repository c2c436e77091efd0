-- ===== src/Examples/Meetings.antt =====
-- Dave logs in at the server where alice and carol are, and types a line.
use open_simp.Prelude.{ℕ, List, [], ◌∷◌, Bytes, codes}
use open_simp.Server.{ServerNetwork}
use open_simp.Client.Conversation.{Conversation}
use open_simp.Examples.Room.{lobby}

abbrev hall : ServerNetwork
hall = record lobby { userdata = codes "dave:secret" }

abbrev typed : List (Bytes × ℕ)
typed = (codes "good morning", 500000) ∷ []
