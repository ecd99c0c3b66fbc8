-- ===== src/Storage/Sweeps.antt =====
-- storage/repository.py: the bulk updates of start-up and of the model installer, and the user's
-- request to cancel.
use evoblue_video_mcp.Prelude.{
  ℕ, ◌==◌, Bool, false, ◌&&◌, ◌||◌, not, Option, none, some, List, map, String, any, select, leb,
  is_none, is_some, if◌then◌else◌,
}
use evoblue_video_mcp.Outcome.{Outcome, ok, err}
use evoblue_video_mcp.Sql.{Sql}
use evoblue_video_mcp.Jobs.States.{
  JobStatus, queued, transcribing, waiting_for_model, retry_wait, failed, cancelled, same,
  is_terminal,
}
use evoblue_video_mcp.Jobs.Transitions.{is_running}
use evoblue_video_mcp.Storage.Models.{Job}
use evoblue_video_mcp.Storage.Session.{
  at_most, equals, get, get_required, with_job, compare_and_swap,
}
use evoblue_video_mcp.Storage.Leases.{cancelled_by_user}

abbrev pub max_attempts_exceeded : String
max_attempts_exceeded = "MAX_ATTEMPTS_EXCEEDED"

-- the WHERE and the values of `recover_stale_jobs`
unfoldable pub is_stale : ℕ → Job → Bool
is_stale now row =
    is_some row.lease_expires_at
    && (at_most row.lease_expires_at now && not (is_terminal row.status))

unfoldable pub released : ℕ → Job → Job
released now row = record row { lease_owner = none; lease_expires_at = none; updated_at = now }

-- the WHERE and the values of `fail_exhausted_retries`
unfoldable pub is_exhausted : Job → Bool
is_exhausted row =
    (same row.status retry_wait || is_running row.status) && leb row.max_attempts row.attempt

unfoldable pub exhausted : ℕ → Job → Job
exhausted now row = record row {
  status = failed;
  error_code = some max_attempts_exceeded;
  retryable = false;
  lease_owner = none;
  lease_expires_at = none;
  next_retry_at = none;
  updated_at = now;
}

-- the WHERE and the values of `land_dangling_cancellations`
unfoldable pub is_dangling : Job → Bool
is_dangling row = same row.status waiting_for_model && is_some row.cancel_requested_at

unfoldable pub landed : ℕ → Job → Job
landed now row = record row {
  status = cancelled;
  error_code = some cancelled_by_user;
  retryable = false;
  lease_owner = none;
  lease_expires_at = none;
  updated_at = now;
}

-- the WHERE and the values of `resume_waiting_jobs`
unfoldable pub waits_for : String → Job → Bool
waits_for model_id row =
    same row.status waiting_for_model
    && (equals row.asr_recommendation_model_id model_id && is_none row.cancel_requested_at)

unfoldable pub resumed : ℕ → Job → Job
resumed now row = record row {
  status = transcribing;
  stage = some transcribing;
  asr_recommendation_model_id = none;
  error_code = none;
  error_detail = none;
  retryable = false;
  lease_owner = none;
  lease_expires_at = none;
  updated_at = now;
}

-- `status in {QUEUED, RETRY_WAIT, WAITING_FOR_MODEL}`
unfoldable pub is_idle : JobStatus → Bool
is_idle s = same s queued || (same s retry_wait || same s waiting_for_model)

-- the values of `request_cancellation`, chosen by the status that was read
unfoldable pub flagged : ℕ → Job → Job
flagged now row = record row { cancel_requested_at = some now; updated_at = now }

unfoldable pub withdrawn : ℕ → Job → Job
withdrawn now row = record row {
  cancel_requested_at = some now;
  updated_at = now;
  status = cancelled;
  error_code = some cancelled_by_user;
  retryable = false;
  next_retry_at = none;
  lease_owner = none;
  lease_expires_at = none;
}

-- `Job.id == job.id, Job.status == job.status`
unfoldable pub same_status : Job → Job → Bool
same_status job row = row.id == job.id && same row.status job.status

-- a required job, returned where None is possible
abbrev pub present : Outcome Job → Outcome (Option Job)
present (ok row) = ok (some row)
present (err e) = err e

module _ (S : Sql) where
  -- `select(Job).where(Job.id.in_(ids))`, for the ids that an update returned
  unfoldable pub refetch : List Job → S.Table Job → List Job
  refetch updated t = select (λ row. any (λ r. r.id == row.id) updated) (S.rows t)

  -- a bulk update and the rows that it hit
  unfoldable pub sweep : (Job → Bool) → (Job → Job) → S.Table Job → List Job × S.Table Job
  unfolding refetch
  sweep p f t = let (t', updated) = S.update p f t in (refetch updated t', t')

  -- `recover_stale_jobs`
  unfoldable pub recover_stale_jobs : ℕ → S.Table Job → List Job × S.Table Job
  recover_stale_jobs now t = sweep (is_stale now) (released now) t

  -- `fail_exhausted_retries`
  unfoldable pub fail_exhausted_retries : ℕ → S.Table Job → List Job × S.Table Job
  fail_exhausted_retries now t = sweep is_exhausted (exhausted now) t

  -- `land_dangling_cancellations`
  unfoldable pub land_dangling_cancellations : ℕ → S.Table Job → List Job × S.Table Job
  land_dangling_cancellations now t = sweep is_dangling (landed now) t

  -- `resume_waiting_jobs`: the ids of the resumed jobs
  unfoldable pub resume_waiting_jobs : String → ℕ → S.Table Job → List String × S.Table Job
  resume_waiting_jobs model_id now t =
      let (t', updated) = S.update (waits_for model_id) (resumed now) t in
      (map (λ row. row.job_id) updated, t')

  -- the body of `request_cancellation` after `_get`
  unfoldable pub cancel_row : Job → ℕ → S.Table Job → Outcome (Option Job) × S.Table Job
  cancel_row job now t =
      if is_terminal job.status
      then (ok (some job), t)
      else compare_and_swap S (same_status job)
          (if is_idle job.status then withdrawn now else flagged now) (ok (get S job.job_id t))
          (λ t'. present (get_required S job.job_id t')) t

  -- `request_cancellation`
  unfoldable pub request_cancellation :
      String → ℕ → S.Table Job → Outcome (Option Job) × S.Table Job
  request_cancellation job_id now t = with_job S job_id (ok none) (λ job. cancel_row job now t) t
