-- ===== src/Application/Submit.antt =====
-- application/submit.py. The canonical URL, its fingerprint (a SHA-256 digest) and the new job's random
-- id are given, and `now - reuse_window_seconds <= updated_at` is written without a subtraction.
use evoblue_video_mcp.Prelude.{
  ℕ, ◌+◌, Bool, true, false, ◌&&◌, not, Option, none, some, List, [], ◌∷◌, String, str_eq, leb,
  select,
}
use evoblue_video_mcp.Outcome.{Outcome, ok, err}
use evoblue_video_mcp.Sql.{Sql}
use evoblue_video_mcp.Jobs.States.{queued, completed, same, is_terminal}
use evoblue_video_mcp.Storage.Models.{Job}
use evoblue_video_mcp.Storage.Claims.{new_job, enqueue_job}

-- the first query of `_find_reusable`: an unfinished job with the fingerprint
unfoldable pub is_unfinished : String → Job → Bool
is_unfinished fingerprint j = str_eq j.request_fingerprint fingerprint && not (is_terminal j.status)

-- the second query: a job with the fingerprint that was completed within the window
unfoldable pub is_recent : String → ℕ → ℕ → Job → Bool
is_recent fingerprint now window j =
    str_eq j.request_fingerprint fingerprint
    && (same j.status completed && leb now (j.updated_at + window))

unfoldable pub created_later : Job → Job → Bool
created_later a b = leb b.created_at a.created_at

unfoldable pub updated_later : Job → Job → Bool
updated_later a b = leb b.updated_at a.updated_at

-- `.limit(1)` and `.first()`
abbrev pub head : List Job → Option Job
head [] = none
head (j ∷ js) = some j

-- the job that `submit_video` adds
unfoldable pub submitted :
    ℕ → String → String → String → String → String → String → Option String → ℕ → Job
unfolding new_job
submitted id job_id fingerprint url config_fingerprint mode asr language now =
    new_job id job_id url fingerprint config_fingerprint now queued mode asr language 3 0 none

module _ (S : Sql) where
  -- `_find_reusable`
  unfoldable pub find_reusable : String → ℕ → ℕ → S.Table Job → Option Job
  unfolding is_unfinished is_recent created_later updated_later
  find_reusable fingerprint now window t =
      elim (head (S.order_by created_later (select (is_unfinished fingerprint) (S.rows t)))) [
        | some active ↦ some active
        | none ↦
            head (S.order_by updated_later (select (is_recent fingerprint now window) (S.rows t)))
      ]

  -- the reply to a submission, with its flag `reused`
  unfoldable pub reply_new : Outcome Job × S.Table Job → Outcome (Job × Bool) × S.Table Job
  reply_new (ok created, t) = (ok (created, false), t)
  reply_new (err e, t) = (err e, t)

  -- `submit_video`, after the URL has been resolved
  unfoldable pub submit_video : Job → ℕ → ℕ → S.Table Job → Outcome (Job × Bool) × S.Table Job
  unfolding find_reusable reply_new enqueue_job
  submit_video job now window t = elim (find_reusable job.request_fingerprint now window t) [
    | some existing ↦ (ok (existing, true), t)
    | none ↦ reply_new (enqueue_job S job t)
  ]
