-- ===== src/Tracker/Files/Cases.antt =====
-- Each method on files returns an error with the state as it was, or passes its tests and writes.
use peer_to_peer_distributed.Base.{
  ℕ, ◌≡◌, ◌≢◌, inl, inr, true, false, none, some, [], Option-cases, arith,
}
use peer_to_peer_distributed.Text.{Str, str_ord, str_ne}
use peer_to_peer_distributed.OrderedMap.{find, put, erase, has}
use peer_to_peer_distributed.Protocol.{Status}
use peer_to_peer_distributed.Tracker.{Group, FileMeta, TrackerState, Outcome}
use peer_to_peer_distributed.Tracker.Files.{
  add_file, stop_share, update_bitfield, set_file, uploader,
}

module _ {ℓ} (P : Outcome → Type ℓ) (s : TrackerState)
    (fails : (e : Status) → e ≢ Status.ok → P (e, s)) where
  pub add_file_cases :
      (gid uid ip : Str) (port : ℕ) (meta : FileMeta)
      → ((g : Group) (f : FileMeta)
          → find gid s.groups ≡ some g
          → has uid g.members ≡ true
          → find meta.name g.files ≡ some f
          → str_ne f.file_hash meta.file_hash ≡ false
          → P (
            Status.ok,
            set_file gid g meta.name
                (record f { seeders = put uid (uploader uid ip port meta) f.seeders })
                s,
          ))
      → ((g : Group)
          → find gid s.groups ≡ some g
          → has uid g.members ≡ true
          → find meta.name g.files ≡ none
          → P (
            Status.ok,
            set_file gid g meta.name
                (record meta { seeders = put uid (uploader uid ip port meta) [] })
                s,
          ))
      → P (add_file gid uid ip port meta s)
  unfolding add_file
  add_file_cases gid uid ip port meta again new = elim (Option-cases (find gid s.groups)) [
    | inl e ↦ ground (arith, fails Status.malformed, fails Status.not_found)
    | inr (g, e) ↦ elim (Option-cases (find meta.name g.files)) [
      | inl k ↦ ground (arith, fails Status.malformed, fails Status.not_member, new g)
      | inr (f, k) ↦ ground (
        arith,
        fails Status.malformed,
        fails Status.not_member,
        fails Status.already_exists,
        again g f,
      )
    ]
  ]

  pub stop_share_cases :
      (gid uid fname : Str)
      → ((g : Group) (f : FileMeta)
          → find gid s.groups ≡ some g
          → find fname g.files ≡ some f
          → has uid f.seeders ≡ true
          → P (Status.ok, set_file gid g fname (record f { seeders = erase uid f.seeders }) s))
      → P (stop_share gid uid fname s)
  unfolding stop_share
  stop_share_cases gid uid fname done = elim (Option-cases (find gid s.groups)) [
    | inl e ↦ ground (arith, fails Status.malformed, fails Status.not_found)
    | inr (g, e) ↦ elim (Option-cases (find fname g.files)) [
      | inl k ↦ ground (arith, fails Status.malformed, fails Status.not_found)
      | inr (f, k) ↦ ground (arith, fails Status.malformed, fails Status.not_found, done g f)
    ]
  ]

  pub update_bitfield_cases :
      (gid uid ip : Str) (port : ℕ) (fname bits : Str)
      → ((g : Group) (f : FileMeta)
          → find gid s.groups ≡ some g
          → has uid g.members ≡ true
          → find fname g.files ≡ some f
          → P (
            Status.ok,
            set_file gid g fname
                (record f {
                  seeders =
                      put uid
                        (record { user_id = uid; ip = ip; port = port; bitfield = bits })
                        f.seeders;
                })
                s,
          ))
      → P (update_bitfield gid uid ip port fname bits s)
  unfolding update_bitfield
  update_bitfield_cases gid uid ip port fname bits done = elim (Option-cases (find gid s.groups)) [
    | inl e ↦ ground (arith, fails Status.malformed, fails Status.not_found)
    | inr (g, e) ↦ elim (Option-cases (find fname g.files)) [
      | inl k ↦
          ground (arith, fails Status.malformed, fails Status.not_member, fails Status.not_found)
      | inr (f, k) ↦ ground (arith, fails Status.malformed, fails Status.not_member, done g f)
    ]
  ]
