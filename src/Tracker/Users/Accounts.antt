-- ===== src/Tracker/Users/Accounts.antt =====
-- What the calls on users do to accounts and to the users' files.
use peer_to_peer_distributed.Base.{ℕ, ◌≡◌, refl, ◌∙◌, true, false, none, some, [], ◌∷◌}
use peer_to_peer_distributed.Text.{Str, str_ord, str_ne, compare_str_self}
use peer_to_peer_distributed.OrderedMap.{Map, find, put, erase, has}
use peer_to_peer_distributed.OrderedMap.Lookup.{
  find-put, find-erase, same_key_self, AllEntries, map_values-AllEntries,
}
use peer_to_peer_distributed.Protocol.{Status}
use peer_to_peer_distributed.Tracker.{Group, User, TrackerState, Outcome}
use peer_to_peer_distributed.Tracker.Users.{
  create_user, login, logout, drop_seeder, hash_password, is_online,
}
use peer_to_peer_distributed.Tracker.Users.Cases.{create_user_cases, logout_cases}

-- No file of the group has the user as a seeder.
abbrev pub SeedsNothing : Str → Group → Type 0
SeedsNothing uid g = AllEntries (λ _ f. has uid f.seeders ≡ false) g.files

any_entries {ℓ} : {V : Type 0} (m : Map Str V) → AllEntries (λ _ v. Unit {ℓ}) m
any_entries [] = tt
any_entries ((k, v) ∷ m) = (tt, any_entries m)

drop_seeder-SeedsNothing : (uid : Str) (g : Group) → SeedsNothing uid (drop_seeder uid g)
unfolding drop_seeder
drop_seeder-SeedsNothing uid g =
    map_values-AllEntries (λ _ f. Unit {0}) (λ _ f. has uid f.seeders ≡ false)
      (λ f. record f { seeders = erase uid f.seeders }) g.files
      (λ _ f _. rw (find-erase uid uid f.seeders, same_key_self uid none (find uid f.seeders)) refl)
      (any_entries g.files)

module _ (uid : Str) (s : TrackerState) where
  -- A user who logged out with ST_OK is offline, and seeds no file of any group.
  pub logout_ends :
      (logout uid s).0 ≡ Status.ok
      → (is_online uid (logout uid s).1 ≡ false)
        × AllEntries (λ _ g. SeedsNothing uid g) (logout uid s).1.groups
  unfolding is_online
  logout_ends =
      logout_cases Ended s (λ e h k. absurd (h k)) uid
        (λ u e k. (
          rw
              (
                find-put uid uid (record u { online = false }) s.users,
                same_key_self uid (some (record u { online = false })) (find uid s.users),
                is_online,
              )
              refl,
          map_values-AllEntries (λ _ g. Unit {0}) (λ _ g. SeedsNothing uid g) (drop_seeder uid)
              s.groups (λ _ g _. drop_seeder-SeedsNothing uid g) (any_entries s.groups),
        ))
    where
      Ended : Outcome → Type 0
      Ended out =
          out.0 ≡ Status.ok
          → (is_online uid out.1 ≡ false) × AllEntries (λ _ g. SeedsNothing uid g) out.1.groups

  found_after : (u : User) → find uid (put uid u s.users) ≡ some u
  found_after u = find-put uid uid u s.users ∙ same_key_self uid (some u) (find uid s.users)

  login_admits :
      (pwd ip : Str) (port : ℕ) (u : User)
      → find uid s.users ≡ some u
      → u.password ≡ hash_password pwd
      → login uid pwd ip port s ≡ (
        Status.ok,
        record s { users = put uid (record u { online = true; ip = ip; port = port }) s.users },
      )
  unfolding login
  login_admits pwd ip port u e h =
      rw (e, login) (rw (h, str_ne, compare_str_self (hash_password pwd)) refl)

  login_online :
      (pwd ip : Str) (port : ℕ) (u : User)
      → find uid s.users ≡ some u
      → u.password ≡ hash_password pwd
      → ((login uid pwd ip port s).0 ≡ Status.ok)
        × (is_online uid (login uid pwd ip port s).1 ≡ true)
  unfolding is_online
  login_online pwd ip port u e h =
      rw (login_admits pwd ip port u e h)
        (refl, rw (found_after (record u { online = true; ip = ip; port = port }), is_online) refl)

module _ (uid : Str) (s : TrackerState) where
  -- An account that was created with ST_OK admits a login with its password, from any address, and
  -- the user is then online.
  pub create_user_admits :
      (pwd ip : Str) (port : ℕ)
      → (create_user uid pwd s).0 ≡ Status.ok
      → let out = login uid pwd ip port (create_user uid pwd s).1 in
        (out.0 ≡ Status.ok) × (is_online uid out.1 ≡ true)
  create_user_admits pwd ip port =
      create_user_cases Admits s (λ e h k. absurd (h k)) uid pwd
        (λ _ _ k.
          let u : User = record {
            id = uid;
            password = hash_password pwd;
            online = false;
            ip = [];
            port = 0;
          } in
          login_online uid (record s { users = put uid u s.users }) pwd ip port u
            (found_after uid s u) refl)
    where
      Admits : Outcome → Type 0
      Admits out =
          out.0 ≡ Status.ok
          → ((login uid pwd ip port out.1).0 ≡ Status.ok)
            × (is_online uid (login uid pwd ip port out.1).1 ≡ true)
