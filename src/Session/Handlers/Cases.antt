-- ===== src/Session/Handlers/Cases.antt =====
-- The cases of dispatch that are not about the session itself: each ends in a call of the tracker, or
-- leaves the tracker's state as it was.
use peer_to_peer_distributed.Base.{
  ◌≡◌, refl, inl, inr, false, none, some, Option, List, Option-cases, Bool-cases,
}
use peer_to_peer_distributed.Text.{Str, is_empty}
use peer_to_peer_distributed.Protocol.{Status, MsgType}
use peer_to_peer_distributed.Messages.{get_two, get_upload, get_have}
use peer_to_peer_distributed.Buffer.{get_str}
use peer_to_peer_distributed.Tracker.{FileMeta, TrackerState}
use peer_to_peer_distributed.Tracker.Calls
use peer_to_peer_distributed.Tracker.Calls.{perform}
use peer_to_peer_distributed.Session.{Session, Served, conclude, logged_in}
use peer_to_peer_distributed.Session.Handlers.{
  handle, listing, describe, on_create_user, on_create_group, on_join_group, on_leave_group,
  on_accept_request, on_upload_file, on_stop_share, on_have_pieces, on_list_groups,
  on_list_requests, on_list_files, on_get_file_meta,
}

-- Requests that are not about the session itself.
abbrev pub IsShared : MsgType → Type 0
IsShared MsgType.login = ⊥
IsShared MsgType.logout = ⊥
IsShared _ = Unit {0}

-- A call that the session's user makes: the user is logged in, and the call is in the user's name.
abbrev pub IsBy : Session → Calls.Call → Type 0
IsBy ses (Calls.create_group gid uid) = (uid ≡ ses.user) × (is_empty ses.user ≡ false)
IsBy ses (Calls.join_group gid uid) = (uid ≡ ses.user) × (is_empty ses.user ≡ false)
IsBy ses (Calls.leave_group gid uid) = (uid ≡ ses.user) × (is_empty ses.user ≡ false)
IsBy ses (Calls.accept_request gid owner uid) = (owner ≡ ses.user) × (is_empty ses.user ≡ false)
IsBy ses (Calls.add_file gid uid ip port meta) = (uid ≡ ses.user) × (is_empty ses.user ≡ false)
IsBy ses (Calls.stop_share gid uid fname) = (uid ≡ ses.user) × (is_empty ses.user ≡ false)
IsBy ses (Calls.update_bitfield gid uid ip port fname bits) =
    (uid ≡ ses.user) × (is_empty ses.user ≡ false)
IsBy ses (Calls.logout uid) = (uid ≡ ses.user) × (is_empty ses.user ≡ false)
IsBy ses (Calls.create_user uid pwd) = Unit {0}
IsBy ses (Calls.login uid pwd ip port) = Unit {0}

module _ (payload : Str) (ses : Session) (s : TrackerState) (P : Served → Type 0)
    (concludes : (c : Calls.Call)
      → IsBy ses c
      → (t : MsgType) (p : Str) → P (conclude ses (perform c s) t p))
    (quiet : (served : Served) → (served.state ≡ s) × (served.session ≡ ses) → P served) where
  logged_in_case :
      (served : Served) → (is_empty ses.user ≡ false → P served) → P (logged_in ses s served)
  logged_in_case served h = elim (Bool-cases (is_empty ses.user)) [
    | inl e ↦ rw e (quiet _ (refl, refl))
    | inr e ↦ rw e (h e)
  ]

  on_create_user_case : P (on_create_user payload ses s)
  unfolding on_create_user perform
  on_create_user_case = elim (Option-cases (get_two payload)) [
    | inl e ↦ rw (e, on_create_user) (quiet _ (refl, refl))
    | inr (((uid, pwd), rest), e) ↦
        rw (e, on_create_user)
          (concludes (Calls.create_user uid pwd) tt MsgType.create_user payload)
  ]

  on_create_group_case : P (on_create_group payload ses s)
  unfolding on_create_group perform
  on_create_group_case = elim (Option-cases (get_str payload)) [
    | inl e ↦ rw (e, on_create_group) (logged_in_case _ (λ _. quiet _ (refl, refl)))
    | inr ((gid, rest), e) ↦
        rw (e, on_create_group)
          (logged_in_case _
            (λ h. concludes (Calls.create_group gid ses.user) (refl, h) MsgType.create_group _))
  ]

  on_join_group_case : P (on_join_group payload ses s)
  unfolding on_join_group perform
  on_join_group_case = elim (Option-cases (get_str payload)) [
    | inl e ↦ rw (e, on_join_group) (logged_in_case _ (λ _. quiet _ (refl, refl)))
    | inr ((gid, rest), e) ↦
        rw (e, on_join_group)
          (logged_in_case _
            (λ h. concludes (Calls.join_group gid ses.user) (refl, h) MsgType.join_group _))
  ]

  on_leave_group_case : P (on_leave_group payload ses s)
  unfolding on_leave_group perform
  on_leave_group_case = elim (Option-cases (get_str payload)) [
    | inl e ↦ rw (e, on_leave_group) (logged_in_case _ (λ _. quiet _ (refl, refl)))
    | inr ((gid, rest), e) ↦
        rw (e, on_leave_group)
          (logged_in_case _
            (λ h. concludes (Calls.leave_group gid ses.user) (refl, h) MsgType.leave_group _))
  ]

  on_accept_request_case : P (on_accept_request payload ses s)
  unfolding on_accept_request perform
  on_accept_request_case = elim (Option-cases (get_two payload)) [
    | inl e ↦ rw (e, on_accept_request) (logged_in_case _ (λ _. quiet _ (refl, refl)))
    | inr (((gid, x), rest), e) ↦
        rw (e, on_accept_request)
          (logged_in_case _ (λ h.
            concludes (Calls.accept_request gid ses.user x) (refl, h) MsgType.accept_request _))
  ]

  on_upload_file_case : P (on_upload_file payload ses s)
  unfolding on_upload_file perform
  on_upload_file_case = elim (Option-cases (get_upload payload)) [
    | inl e ↦ rw (e, on_upload_file) (logged_in_case _ (λ _. quiet _ (refl, refl)))
    | inr (((gid, meta), rest), e) ↦
        rw (e, on_upload_file)
          (logged_in_case _ (λ h.
            concludes (Calls.add_file gid ses.user ses.peer_ip ses.seed_port meta) (refl, h)
              MsgType.upload_file _))
  ]

  on_stop_share_case : P (on_stop_share payload ses s)
  unfolding on_stop_share perform
  on_stop_share_case = elim (Option-cases (get_two payload)) [
    | inl e ↦ rw (e, on_stop_share) (logged_in_case _ (λ _. quiet _ (refl, refl)))
    | inr (((gid, x), rest), e) ↦
        rw (e, on_stop_share)
          (logged_in_case _
            (λ h. concludes (Calls.stop_share gid ses.user x) (refl, h) MsgType.stop_share _))
  ]

  on_have_pieces_case : P (on_have_pieces payload ses s)
  unfolding on_have_pieces perform
  on_have_pieces_case = elim (Option-cases (get_have payload)) [
    | inl e ↦ rw (e, on_have_pieces) (logged_in_case _ (λ _. quiet _ (refl, refl)))
    | inr (((gid, fname, bits), rest), e) ↦
        rw (e, on_have_pieces)
          (logged_in_case _ (λ h.
            concludes (Calls.update_bitfield gid ses.user ses.peer_ip ses.seed_port fname bits)
              (refl, h) MsgType.have_pieces _))
  ]

  abbrev Kept : Served → Type 0
  Kept served = (served.state ≡ s) × (served.session ≡ ses)

  listing-Kept : (out : Status × List Str) → Kept (listing payload ses s out)
  unfolding listing
  listing-Kept (Status.ok, names) = (refl, refl)
  listing-Kept (_, names) = (refl, refl)

  describe-Kept : (out : Status × Option FileMeta) → Kept (describe payload ses s out)
  unfolding describe
  describe-Kept (Status.ok, some m) = (refl, refl)
  describe-Kept (Status.ok, none) = (refl, refl)
  describe-Kept (_, m) = (refl, refl)

  on_list_requests_case : P (on_list_requests payload ses s)
  unfolding on_list_requests
  on_list_requests_case = elim (Option-cases (get_str payload)) [
    | inl e ↦ rw (e, on_list_requests) (logged_in_case _ (λ _. quiet _ (refl, refl)))
    | inr ((gid, rest), e) ↦
        rw (e, on_list_requests) (logged_in_case _ (λ _. quiet _ (listing-Kept _)))
  ]

  on_list_files_case : P (on_list_files payload ses s)
  unfolding on_list_files
  on_list_files_case = elim (Option-cases (get_str payload)) [
    | inl e ↦ rw (e, on_list_files) (logged_in_case _ (λ _. quiet _ (refl, refl)))
    | inr ((gid, rest), e) ↦
        rw (e, on_list_files) (logged_in_case _ (λ _. quiet _ (listing-Kept _)))
  ]

  on_get_file_meta_case : P (on_get_file_meta payload ses s)
  unfolding on_get_file_meta
  on_get_file_meta_case = elim (Option-cases (get_two payload)) [
    | inl e ↦ rw (e, on_get_file_meta) (logged_in_case _ (λ _. quiet _ (refl, refl)))
    | inr (((gid, fname), rest), e) ↦
        rw (e, on_get_file_meta) (logged_in_case _ (λ _. quiet _ (describe-Kept _)))
  ]

  on_list_groups_case : P (on_list_groups payload ses s)
  unfolding on_list_groups
  on_list_groups_case = logged_in_case _ (λ _. quiet _ (refl, refl))

  pub shared_case : (t : MsgType) → IsShared t → P (handle payload ses s t)
  unfolding handle
  shared_case MsgType.create_user x = on_create_user_case
  shared_case MsgType.create_group x = on_create_group_case
  shared_case MsgType.join_group x = on_join_group_case
  shared_case MsgType.leave_group x = on_leave_group_case
  shared_case MsgType.list_groups x = on_list_groups_case
  shared_case MsgType.list_requests x = on_list_requests_case
  shared_case MsgType.accept_request x = on_accept_request_case
  shared_case MsgType.upload_file x = on_upload_file_case
  shared_case MsgType.list_files x = on_list_files_case
  shared_case MsgType.get_file_meta x = on_get_file_meta_case
  shared_case MsgType.stop_share x = on_stop_share_case
  shared_case MsgType.have_pieces x = on_have_pieces_case
  shared_case MsgType.login x = elim x [ ]
  shared_case MsgType.logout x = elim x [ ]
  shared_case _ x = quiet _ (refl, refl)
