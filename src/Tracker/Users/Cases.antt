-- ===== src/Tracker/Users/Cases.antt =====
-- Each method on users returns an error with the state as it was, or passes its tests and writes: a
-- rule for each method, over any predicate of outcomes.
use peer_to_peer_distributed.Base.{
  ℕ, ◌≡◌, ◌≢◌, inl, inr, true, false, some, [], Option-cases, if_cases, arith,
}
use peer_to_peer_distributed.Text.{Str, str_ord, is_empty, str_ne, str_ne-eq}
use peer_to_peer_distributed.OrderedMap.{find, put, has, map_values}
use peer_to_peer_distributed.Protocol.{Status}
use peer_to_peer_distributed.Tracker.{User, TrackerState, Outcome}
use peer_to_peer_distributed.Tracker.Users.{create_user, login, logout, drop_seeder, hash_password}

module _ {ℓ} (P : Outcome → Type ℓ) (s : TrackerState)
    (fails : (e : Status) → e ≢ Status.ok → P (e, s)) where
  pub create_user_cases :
      (uid pwd : Str)
      → (is_empty uid ≡ false
          → has uid s.users ≡ false
          → P (
            Status.ok,
            record s {
              users =
                  put uid
                    (record {
                      id = uid;
                      password = hash_password pwd;
                      online = false;
                      ip = [];
                      port = 0;
                    })
                    s.users;
            },
          ))
      → P (create_user uid pwd s)
  unfolding create_user
  create_user_cases uid pwd done =
      ground (arith, fails Status.malformed, fails Status.already_exists, done)

  pub login_cases :
      (uid pwd ip : Str) (port : ℕ)
      → ((u : User)
          → find uid s.users ≡ some u
          → u.password ≡ hash_password pwd
          → P (
            Status.ok,
            record s { users = put uid (record u { online = true; ip = ip; port = port }) s.users },
          ))
      → P (login uid pwd ip port s)
  unfolding login
  login_cases uid pwd ip port done = elim (Option-cases (find uid s.users)) [
    | inl e ↦ ground (arith, fails Status.not_found)
    | inr (u, e) ↦
        rw (e, login)
          (if_cases P (str_ne u.password (hash_password pwd)) _ _
            (λ _. fails Status.bad_credentials (λ h. cc))
            (λ b. done u e (str_ne-eq u.password (hash_password pwd) b)))
  ]

  pub logout_cases :
      (uid : Str)
      → ((u : User)
          → find uid s.users ≡ some u
          → P (
            Status.ok,
            record {
              users = put uid (record u { online = false }) s.users;
              groups = map_values (drop_seeder uid) s.groups;
            },
          ))
      → P (logout uid s)
  unfolding logout
  logout_cases uid done = elim (Option-cases (find uid s.users)) [
    | inl e ↦ ground (arith, fails Status.not_found)
    | inr (u, e) ↦ ground (arith, done u)
  ]
