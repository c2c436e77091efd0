-- ===== src/Examples/Sessions.antt =====
-- A login from the first packet to the key, over the toy platform.
use open_simp.Prelude.{false, true, [], codes}
use open_simp.Server.{ServerNetwork}
use open_simp.Server.Clients.{connect_client}
use open_simp.Client.{ClientNetwork, hasnt_begun}
use open_simp.Examples.Toy.{toy}
use open_simp.Examples.Room.{bob}
use open_simp.Examples.Runs.{start}

abbrev waiting : ServerNetwork
waiting = record (connect_client toy bob 0 start) { userdata = codes "carol:secret" }

abbrev pub fresh : ClientNetwork
fresh = record {
  crypt = record { kp = 4; draws = 0; keys = [] };
  aes_key = [];
  has_handshook = false;
  is_connected = true;
  server_pubkey = 0;
  status = hasnt_begun;
  sent = [];
}
