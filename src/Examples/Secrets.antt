-- ===== src/Examples/Secrets.antt =====
-- Bob's run of the server, at what is known of names and of what is sent.
use open_simp.Prelude.{[], ◌≡◌, ◌≢◌, ◌↔◌, refl, codes, some, Ensures, get_elem?}
use open_simp.Server.{undone, key_received, failed, unnamed}
use open_simp.Server.Receive.{got, receive}
use open_simp.Server.Room.Honest.{Reach-names}
use open_simp.Server.Secrecy.{IsGuarded}
use open_simp.Server.Secrecy.Run.{Reach-Guarded}
use open_simp.Server.Wire.Growth.{Grows}
use open_simp.Examples.Toy.{toy, toy-IsSound}
use open_simp.Examples.Room.{bob}
use open_simp.Examples.Runs.{running, start, started, logged_in, run, status_now, name_now}

bob_now : get_elem? logged_in.client_array 0 ≡ some bob
unfolding running
bob_now = refl

Reach-names_example : (key_received ≢ failed) × ((key_received ≡ undone) ↔ (codes "bob" ≡ unnamed))
Reach-names_example =
    Reach-names toy toy-IsSound 7 [] start logged_in started run 0 key_received (codes "bob")
      status_now name_now

-- Bob's key arrives.
Reach-Guarded_example :
    Ensures
      (λ w'. Grows (IsGuarded toy logged_in bob (codes "+1111")) logged_in.wire w'.wire)
      (receive toy (got (codes "+1111")) bob 0 30 logged_in)
Reach-Guarded_example =
    Reach-Guarded toy toy-IsSound 7 [] start logged_in started run (got (codes "+1111")) bob 0 30
      bob_now
