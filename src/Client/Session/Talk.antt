-- ===== src/Client/Session/Talk.antt =====
-- A whole session: `run` of ClientNetwork.cpp logs in at the server and then sends what is typed.
use open_simp.Client.Crypt
use open_simp.Client.Conversation.{Conversation}
