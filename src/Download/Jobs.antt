-- ===== src/Download/Jobs.antt =====
-- DownloadManager's table of jobs: start, and the lines of show_downloads.
use peer_to_peer_distributed.Base.{
  ℕ, ◌≡◌, refl, ◌∙◌, ap, Bool, true, false, not, ◌&&◌, Option, none, some, List, ◌∷◌, ◌++◌, map,
  if_cases, if◌then◌else◌,
}
use peer_to_peer_distributed.Text.{Str, str_ord}
use peer_to_peer_distributed.OrderedMap.{Map, find, put, values}
use peer_to_peer_distributed.OrderedMap.Lookup.{find-put, same_key_self}
use peer_to_peer_distributed.Download.Job.{DownloadJob}

-- A job with its flags.
pub record Entry : Type 0 where
  pub job : DownloadJob
  pub is_done : Bool
  pub has_failed : Bool

abbrev pub Jobs : Type 0
Jobs = Map Str Entry

-- `job->group + "/" + job->file`
abbrev pub job_key : DownloadJob → Str
job_key job = job.group ++ 47 ∷ job.file

abbrev pub is_running : Option Entry → Bool
is_running none = false
is_running (some e) = not e.is_done && not e.has_failed

-- start: the answer, and the table after it.
unfoldable pub start : DownloadJob → Jobs → Bool × Jobs
start job jobs =
    if is_running (find (job_key job) jobs)
    then (false, jobs)
    else (true, put (job_key job) (record { job = job; is_done = false; has_failed = false }) jobs)

-- "[C] [", "[F] [" or "[D] [", the group, "] " and the file
abbrev status_letter : Entry → ℕ
status_letter e = if e.is_done then 67 else if e.has_failed then 70 else 68

abbrev pub status_line : Entry → Str
status_line e = 91 ∷ status_letter e ∷ 93 ∷ 32 ∷ 91 ∷ (e.job.group ++ (93 ∷ 32 ∷ e.job.file))

abbrev pub status_lines : Jobs → List Str
status_lines jobs = map status_line (values jobs)

started_runs :
    (job : DownloadJob) (jobs : Jobs) → is_running (find (job_key job) (start job jobs).1) ≡ true
unfolding start
started_runs job jobs =
    if_cases {A = Bool × Jobs} (λ r. is_running (find (job_key job) r.1) ≡ true)
      (is_running (find (job_key job) jobs)) _ _ (λ e. e)
      (λ _.
        let e : Entry = record { job = job; is_done = false; has_failed = false } in
        ap is_running (
          find-put (job_key job) (job_key job) e jobs
          ∙ same_key_self (job_key job) (some e) (find (job_key job) jobs)))

running_refused :
    (job : DownloadJob) (jobs : Jobs)
    → is_running (find (job_key job) jobs) ≡ true
    → start job jobs ≡ (false, jobs)
unfolding start
running_refused job jobs e = rw e refl

-- After a call of start a job runs under the key: another one with the same key is refused, and the
-- refusal leaves the table as it was.
pub start_refused :
    (job again : DownloadJob) (jobs : Jobs)
    → job_key again ≡ job_key job
    → start again (start job jobs).1 ≡ (false, (start job jobs).1)
start_refused job again jobs k =
    running_refused again (start job jobs).1
      (ap (λ x. is_running (find x (start job jobs).1)) k ∙ started_runs job jobs)
