-- ===== src/Examples/Users.antt =====
-- A new user of the login comes back, over a user file that can be run.
use open_simp.Prelude.{
  ◌≡◌, ◌⊎◌, refl, false, List, [], ◌∷◌, some, Bytes, codes, ok, Returns, get_elem?, arith,
}
use open_simp.Server.{ServerNetwork}
use open_simp.Server.Clients.{connect_client}
use open_simp.Server.Login.{Credentials, check_credentials}
use open_simp.Server.Names.{is_refused}
use open_simp.Server.Userdata.Users.{IsUsers, users_file}
use open_simp.Server.Userdata.Returning.{new_user_comes_back}
use open_simp.Server.Invariant.{IsValid}
use open_simp.Server.Invariant.Joining.{connect_client-IsValid}
use open_simp.Server.Invariant.Keys.{set_outside-IsValid}
use open_simp.Server.Invariant.Logins.{Kicked, Crashes, Admitted}
use open_simp.Examples.Toy.{toy, toy-IsSound}
use open_simp.Examples.Room.{bob, carol, carol-IsAlias}
use open_simp.Examples.Runs.{start, start-IsValid, running, or_else}
use open_simp.Examples.Keeper.{keeper, keeper-IsUserStore}

abbrev users : List (Bytes × Bytes)
users = (codes "carol", codes "secret") ∷ []

users-IsUsers : IsUsers users
users-IsUsers = (carol-IsAlias, refl, refl, tt)

abbrev dave : Credentials
dave = record { uname = codes "dave"; passwd = codes "pw" }

-- Bob's connection, over the file of the users.
abbrev before : ServerNetwork
before = record (connect_client toy bob 0 start) { userdata = users_file keeper users }

abbrev after : ServerNetwork
after = or_else (check_credentials keeper dave bob 0 before) start

-- The server after a restart, with another connection.
abbrev restarted : ServerNetwork
restarted = record (connect_client toy carol 0 start) { userdata = after.userdata }

before-IsValid : IsValid before
before-IsValid =
    set_outside-IsValid (connect_client toy bob 0 start) before.wire (users_file keeper users)
      (connect_client-IsValid toy bob 0 start (λ i s h. absurd (cc)) start-IsValid)

restarted-IsValid : IsValid restarted
restarted-IsValid =
    set_outside-IsValid (connect_client toy carol 0 start) restarted.wire after.userdata
      (connect_client-IsValid toy carol 0 start (λ i s h. absurd (cc)) start-IsValid)

bob_here : get_elem? before.client_array 0 ≡ some bob
unfolding running
bob_here = refl

carol_here : get_elem? restarted.client_array 0 ≡ some carol
unfolding running
carol_here = refl

signed_up : check_credentials keeper dave bob 0 before ≡ ok after
unfolding running
signed_up = refl

still_there : after.client_array ≡ before.client_array
unfolding running
still_there = refl

name_free : is_refused restarted.clientid_array (codes "dave") ≡ false
unfolding running
name_free = refl

new_user_comes_back_example :
    (restarted.userdata ≡ users_file keeper ((codes "dave", codes "pw") ∷ users))
    × Returns
        (λ u'.
          IsValid u' × Admitted keeper dave 0 restarted u' × (u'.userdata ≡ restarted.userdata))
        (check_credentials keeper dave carol 0 restarted)
    × ((Returns
            (λ u'. IsValid u' × Kicked keeper 0 restarted u')
            (check_credentials keeper (record dave { passwd = codes "no" }) carol 0 restarted)
          × (codes "no" ≡ []))
        ⊎ Crashes keeper carol 0 restarted
            (check_credentials keeper (record dave { passwd = codes "no" }) carol 0 restarted))
new_user_comes_back_example =
    new_user_comes_back keeper toy-IsSound keeper-IsUserStore users dave before after restarted bob
      carol 0 0 (codes "no") users-IsUsers refl refl refl before-IsValid bob_here signed_up
      still_there restarted-IsValid refl carol_here name_free (λ e. ground arith)
