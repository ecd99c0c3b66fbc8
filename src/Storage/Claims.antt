-- ===== src/Storage/Claims.antt =====
-- storage/repository.py: enqueuing and claiming.
use evoblue_video_mcp.Prelude.{
  ℕ, ◌+◌, ◌==◌, Bool, true, false, ◌&&◌, ◌||◌, Option, none, some, List, [], ◌∷◌, String, str_eq,
  any, select, take, ltb, leb, is_none, is_some, get_or, option_eq, if◌then◌else◌,
}
use evoblue_video_mcp.Outcome.{Outcome, ok, err, integrity_error}
use evoblue_video_mcp.Sql.{Sql}
use evoblue_video_mcp.Jobs.States.{
  JobStatus, queued, retry_wait, fetching_metadata, same, is_terminal,
}
use evoblue_video_mcp.Jobs.Transitions.{is_running}
use evoblue_video_mcp.Storage.Models.{Job}
use evoblue_video_mcp.Storage.Session.{at_most, get, get_required, with_job, compare_and_swap}

-- `_is_claimable`
unfoldable pub is_claimable : ℕ → Job → Bool
is_claimable now job =
    if leb job.max_attempts job.attempt
    then false
    else if is_terminal job.status
    then false
    else if same job.status queued
    then true
    else if same job.status retry_wait
    then is_some job.next_retry_at && at_most job.next_retry_at now
    else is_none job.lease_expires_at || at_most job.lease_expires_at now

-- `_claimable_where`
unfoldable pub claimable_where : ℕ → Job → Bool
claimable_where now job =
    ltb job.attempt job.max_attempts
    && (same job.status queued
        || ((same job.status retry_wait
              && is_some job.next_retry_at
              && at_most job.next_retry_at now)
            || (is_running job.status
                && (is_none job.lease_expires_at || at_most job.lease_expires_at now))))

-- `_claim_status`
unfoldable pub claim_status : Job → JobStatus × Option JobStatus
claim_status job =
    if same job.status queued
    then (fetching_metadata, some fetching_metadata)
    else if same job.status retry_wait
    then (get_or job.stage fetching_metadata, some (get_or job.stage fetching_metadata))
    else (job.status, some job.status)

-- `Job.id == job.id, Job.status == job.status, Job.lease_expires_at == job.lease_expires_at`
unfoldable pub same_lease : Job → Job → Bool
same_lease job row =
    row.id == job.id
    && (same row.status job.status && option_eq row.lease_expires_at job.lease_expires_at)

-- the values of the claim, for a row
unfoldable pub claimed : Job → String → ℕ → ℕ → Job → Job
claimed job owner lease_seconds now row = record row {
  status = (claim_status job).0;
  stage = (claim_status job).1;
  lease_owner = some owner;
  lease_expires_at = some (now + lease_seconds);
  attempt = row.attempt + 1;
  updated_at = now;
}

-- the row that `enqueue_job` adds; `id` is the primary key that the database gives it
unfoldable pub new_job :
    ℕ
    → String
    → String
    → String
    → String
    → ℕ
    → JobStatus
    → String
    → String
    → Option String
    → ℕ
    → ℕ
    → Option ℕ
    → Job
new_job id job_id url request_fingerprint config_fingerprint now status mode asr language
      max_attempts attempt next_retry_at =
    record {
      id = id;
      job_id = job_id;
      request_fingerprint = request_fingerprint;
      url = url;
      mode = mode;
      asr = asr;
      language = language;
      asr_provider_id = none;
      asr_model_id = none;
      asr_model_version = none;
      asr_recommendation_model_id = none;
      config_fingerprint = config_fingerprint;
      title = none;
      platform = none;
      subtitle_probe = none;
      status = status;
      stage = if is_running status then some status else none;
      progress = 0;
      attempt = attempt;
      max_attempts = max_attempts;
      lease_owner = none;
      lease_expires_at = none;
      cancel_requested_at = none;
      next_retry_at = next_retry_at;
      error_code = none;
      error_detail = none;
      retryable = false;
      created_at = now;
      updated_at = now;
    }

-- `ORDER BY created_at, id`
unfoldable pub older : Job → Job → Bool
older a b = ltb a.created_at b.created_at || (a.created_at == b.created_at && leb a.id b.id)

module _ (S : Sql) where
  -- `enqueue_job`: `session.add(job)`, where the columns `id` and `job_id` are unique
  unfoldable pub enqueue_job : Job → S.Table Job → Outcome Job × S.Table Job
  enqueue_job job t =
      if any (λ row. row.id == job.id || str_eq row.job_id job.job_id) (S.rows t)
      then (err integrity_error, t)
      else let t' = S.insert job t in (get_required S job.job_id t', t')

  -- the body of `claim_job` after `_get`
  unfoldable pub claim_row : Job → String → ℕ → ℕ → S.Table Job → Outcome (Option Job) × S.Table Job
  claim_row job owner lease_seconds now t =
      if is_claimable now job
      then compare_and_swap S (same_lease job) (claimed job owner lease_seconds now) (ok none)
          (λ t'. ok (get S job.job_id t')) t
      else (ok none, t)

  -- `claim_job`
  unfoldable pub claim_job :
      String → String → ℕ → ℕ → S.Table Job → Outcome (Option Job) × S.Table Job
  claim_job job_id owner lease_seconds now t =
      with_job S job_id (ok none) (λ job. claim_row job owner lease_seconds now t) t

  -- the loop of `claim_next_job` over its candidates
  unfoldable pub claim_first :
      List Job → String → ℕ → ℕ → S.Table Job → Outcome (Option Job) × S.Table Job
  claim_first [] owner lease_seconds now t = (ok none, t)
  claim_first (candidate ∷ rest) owner lease_seconds now t =
      let (claim, t') = claim_job candidate.job_id owner lease_seconds now t in
      elim claim [
        | err e ↦ (err e, t')
        | ok (some job) ↦ (ok (some job), t')
        | ok none ↦ claim_first rest owner lease_seconds now t'
      ]

  -- `SELECT ... WHERE ... ORDER BY created_at, id LIMIT 16`
  unfoldable pub candidates : ℕ → S.Table Job → List Job
  candidates now t = take 16 (S.order_by older (select (claimable_where now) (S.rows t)))

  -- `claim_next_job`
  unfoldable pub claim_next_job : String → ℕ → ℕ → S.Table Job → Outcome (Option Job) × S.Table Job
  claim_next_job owner lease_seconds now t =
      claim_first (candidates now t) owner lease_seconds now t
