-- ===== src/Storage/Leases.antt =====
-- storage/repository.py: the writes of the worker that holds a job's lease.
use evoblue_video_mcp.Prelude.{
  ℕ, ◌+◌, ◌==◌, Bool, true, false, ◌&&◌, ◌||◌, Option, none, some, String, str_eq, first, is_some,
  get_or, if◌then◌else◌,
}
use evoblue_video_mcp.Outcome.{Outcome, ok, err, key_error, lease_lost}
use evoblue_video_mcp.Sql.{Sql}
use evoblue_video_mcp.Jobs.States.{
  JobStatus, transcribing, waiting_for_model, retry_wait, failed, cancelled, same, is_terminal,
}
use evoblue_video_mcp.Jobs.Transitions.{is_running, validate_transition}
use evoblue_video_mcp.Storage.Models.{Job}
use evoblue_video_mcp.Storage.Session.{holds_lease, get, get_required, with_job, compare_and_swap}

abbrev pub cancelled_by_user : String
cancelled_by_user = "CANCELLED_BY_USER"

-- `Job.id == job.id, Job.status == job.status` and the live lease of `owner`
unfoldable pub owned_row : Job → String → ℕ → Job → Bool
unfolding holds_lease
owned_row job owner now row =
    row.id == job.id && (same row.status job.status && holds_lease owner now row)

-- `cancel_landed`: parking a job whose cancellation is pending
unfoldable pub cancel_landed : JobStatus → Option ℕ → Bool
cancel_landed to_status pending_cancel = same to_status waiting_for_model && is_some pending_cancel

-- the status that `advance_job` writes
unfoldable pub final_status : JobStatus → Option ℕ → JobStatus
unfolding cancel_landed
final_status to_status pending_cancel =
    if cancel_landed to_status pending_cancel then cancelled else to_status

-- `new_stage`
unfoldable pub new_stage : Job → JobStatus → Option JobStatus → Option JobStatus
new_stage job to_status (some stage) = some stage
new_stage job to_status none = if is_running to_status then some to_status else job.stage

-- `advance_values`
unfoldable pub advanced :
    Job → JobStatus → Option ℕ → ℕ → ℕ → Option JobStatus → Option ℕ → Job → Job
unfolding cancel_landed final_status new_stage
advanced job to_status pending_cancel now lease_seconds stage progress row =
    let target = final_status to_status pending_cancel in
    let released = is_terminal target || same target waiting_for_model in
    record row {
      status = target;
      stage = new_stage job target stage;
      progress = get_or progress job.progress;
      error_code = if cancel_landed to_status pending_cancel then some cancelled_by_user else none;
      error_detail = none;
      retryable = false;
      updated_at = now;
      lease_owner = if released then none else row.lease_owner;
      lease_expires_at = if released then none else some (now + lease_seconds);
    }

-- the values of `mark_failure`
unfoldable pub failure : ℕ → String → Bool → Option ℕ → Option String → Job → Job
failure now error_code retryable next_retry_at error_detail row = record row {
  status = if retryable then retry_wait else failed;
  error_code = some error_code;
  error_detail = error_detail;
  retryable = retryable;
  next_retry_at = if retryable then next_retry_at else none;
  lease_owner = none;
  lease_expires_at = none;
  updated_at = now;
}

-- the values of `mark_cancelled`
unfoldable pub stopped : ℕ → Job → Job
stopped now row = record row {
  status = cancelled;
  error_code = some cancelled_by_user;
  lease_owner = none;
  lease_expires_at = none;
  updated_at = now;
}

-- the values of `pin_job_asr_route`
unfoldable pub pinned : ℕ → String → String → String → Option String → Job → Job
pinned now provider_id model_id model_version recommendation_model_id row = record row {
  asr_provider_id = some provider_id;
  asr_model_id = some model_id;
  asr_model_version = some model_version;
  asr_recommendation_model_id = recommendation_model_id;
  updated_at = now;
}

-- the row of `pin_job_asr_route`
unfoldable pub transcribing_row : Job → String → ℕ → Job → Bool
unfolding holds_lease
transcribing_row job owner now row =
    row.id == job.id && (same row.status transcribing && holds_lease owner now row)

-- the row of `renew_lease`, and its values
unfoldable pub leased_row : String → String → ℕ → Job → Bool
unfolding holds_lease
leased_row job_id owner now row = str_eq row.job_id job_id && holds_lease owner now row

unfoldable pub renewed : ℕ → ℕ → Job → Job
renewed now lease_seconds row = record row {
  lease_expires_at = some (now + lease_seconds);
  updated_at = now;
}

-- the flag that a scalar query reads, NULL when it finds no row
abbrev pub flag_of : Option Job → Option ℕ
flag_of none = none
flag_of (some row) = row.cancel_requested_at

module _ (S : Sql) where
  -- `select(Job.cancel_requested_at).where(Job.id == job.id)`
  unfoldable pub pending_cancel : Job → S.Table Job → Option ℕ
  pending_cancel job t = flag_of (first (λ row. row.id == job.id) (S.rows t))

  -- the body of `advance_job` after `_get`
  unfoldable pub advance_row :
      Job
      → String
      → JobStatus
      → ℕ
      → ℕ
      → Option JobStatus
      → Option ℕ
      → S.Table Job
      → Outcome Job × S.Table Job
  advance_row job owner to_status now lease_seconds stage progress t =
      elim (validate_transition job.status to_status) [
        | err e ↦ (err e, t)
        | ok _ ↦
            compare_and_swap S (owned_row job owner now)
              (advanced job to_status (pending_cancel job t) now lease_seconds stage progress)
              (err lease_lost) (get_required S job.job_id) t
      ]

  -- `advance_job`
  unfoldable pub advance_job :
      String
      → String
      → JobStatus
      → ℕ
      → ℕ
      → Option JobStatus
      → Option ℕ
      → S.Table Job
      → Outcome Job × S.Table Job
  advance_job job_id owner to_status now lease_seconds stage progress t =
      with_job S job_id (err key_error)
        (λ job. advance_row job owner to_status now lease_seconds stage progress t) t

  -- the body of `mark_failure` after `_get`
  unfoldable pub fail_row :
      Job
      → String
      → ℕ
      → String
      → Bool
      → Option ℕ
      → Option String
      → S.Table Job
      → Outcome Job × S.Table Job
  fail_row job owner now error_code retryable next_retry_at error_detail t =
      elim (validate_transition job.status (if retryable then retry_wait else failed)) [
        | err e ↦ (err e, t)
        | ok _ ↦
            compare_and_swap S (owned_row job owner now)
              (failure now error_code retryable next_retry_at error_detail) (err lease_lost)
              (get_required S job.job_id) t
      ]

  -- `mark_failure`
  unfoldable pub mark_failure :
      String
      → String
      → ℕ
      → String
      → Bool
      → Option ℕ
      → Option String
      → S.Table Job
      → Outcome Job × S.Table Job
  mark_failure job_id owner now error_code retryable next_retry_at error_detail t =
      with_job S job_id (err key_error)
        (λ job. fail_row job owner now error_code retryable next_retry_at error_detail t) t

  -- the body of `mark_cancelled` after `_get`
  unfoldable pub stop_row : Job → String → ℕ → S.Table Job → Outcome Job × S.Table Job
  stop_row job owner now t =
      compare_and_swap S (owned_row job owner now) (stopped now) (err lease_lost)
        (get_required S job.job_id) t

  -- `mark_cancelled`
  unfoldable pub mark_cancelled : String → String → ℕ → S.Table Job → Outcome Job × S.Table Job
  mark_cancelled job_id owner now t =
      with_job S job_id (err key_error) (λ job. stop_row job owner now t) t

  -- the body of `pin_job_asr_route` after `_get`
  unfoldable pub pin_row :
      Job
      → String
      → ℕ
      → String
      → String
      → String
      → Option String
      → S.Table Job
      → Outcome Job × S.Table Job
  pin_row job owner now provider_id model_id model_version recommendation_model_id t =
      compare_and_swap S (transcribing_row job owner now)
        (pinned now provider_id model_id model_version recommendation_model_id) (err lease_lost)
        (get_required S job.job_id) t

  -- `pin_job_asr_route`
  unfoldable pub pin_job_asr_route :
      String
      → String
      → ℕ
      → String
      → String
      → String
      → Option String
      → S.Table Job
      → Outcome Job × S.Table Job
  pin_job_asr_route job_id owner now provider_id model_id model_version recommendation_model_id t =
      with_job S job_id (err key_error)
        (λ job. pin_row job owner now provider_id model_id model_version recommendation_model_id t)
        t

  -- `renew_lease`
  unfoldable pub renew_lease : String → String → ℕ → ℕ → S.Table Job → Outcome Bool × S.Table Job
  renew_lease job_id owner now lease_seconds t =
      compare_and_swap S (leased_row job_id owner now) (renewed now lease_seconds) (ok false)
        (λ t'. ok true) t

  -- `is_cancel_requested`
  unfoldable pub is_cancel_requested : String → S.Table Job → Bool
  is_cancel_requested job_id t = elim (get S job_id t) [
    | none ↦ false
    | some job ↦ is_some job.cancel_requested_at
  ]
