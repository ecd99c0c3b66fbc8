-- ===== src/Storage/Artifacts.antt =====
-- storage/repository.py: the stage artifacts, registered together with the job's state.
use evoblue_video_mcp.Prelude.{
  ℕ, ◌+◌, ◌==◌, Bool, false, ◌&&◌, Option, none, some, String, str_eq, first, get_or, if◌then◌else◌,
}
use evoblue_video_mcp.Outcome.{Outcome, ok, err, key_error, lease_lost}
use evoblue_video_mcp.Sql.{Sql}
use evoblue_video_mcp.Jobs.States.{JobStatus, is_terminal}
use evoblue_video_mcp.Jobs.Transitions.{is_running, validate_transition}
use evoblue_video_mcp.Storage.Models.{Job, JobArtifact}
use evoblue_video_mcp.Storage.Session.{get, get_required, compare_and_swap}
use evoblue_video_mcp.Storage.Leases.{owned_row, leased_row}

-- the two tables of the job queue
pub record Queue (S : Sql) : Type 0 where
  pub jobs : S.Table Job
  pub artifacts : S.Table JobArtifact

-- `(job_id, artifact_type, input_fingerprint)`, the unique key of an artifact
unfoldable pub has_key : String → String → String → JobArtifact → Bool
has_key job_id artifact_type input_fingerprint a =
    str_eq a.job_id job_id
    && (str_eq a.artifact_type artifact_type && str_eq a.input_fingerprint input_fingerprint)

-- `advance_values` of `commit_artifact_and_advance`
unfoldable pub committed : Job → JobStatus → ℕ → ℕ → Option ℕ → Job → Job
committed job to_status now lease_seconds progress row = record row {
  status = to_status;
  stage = if is_running to_status then some to_status else job.stage;
  progress = get_or progress job.progress;
  error_code = none;
  error_detail = none;
  retryable = false;
  updated_at = now;
  lease_owner = if is_terminal to_status then none else row.lease_owner;
  lease_expires_at = if is_terminal to_status then none else some (now + lease_seconds);
}

-- the checkpoint row of `save_artifact_inline`; `id` is the primary key that the database gives it
unfoldable pub checkpoint : ℕ → String → String → String → String → ℕ → String → ℕ → JobArtifact
checkpoint id job_id stage artifact_type input_fingerprint schema_version payload_json now =
    record {
      id = id;
      job_id = job_id;
      stage = stage;
      artifact_type = artifact_type;
      input_fingerprint = input_fingerprint;
      schema_version = schema_version;
      storage_kind = "inline_json";
      payload_json = some payload_json;
      relative_path = none;
      content_hash = none;
      byte_size = none;
      created_at = now;
      updated_at = now;
    }

module _ (S : Sql) where
  -- `get_artifact`
  unfoldable pub get_artifact : String → String → String → S.Table JobArtifact → Option JobArtifact
  unfolding has_key
  get_artifact job_id artifact_type input_fingerprint t =
      first (has_key job_id artifact_type input_fingerprint) (S.rows t)

  -- `existing is None`: `session.add(JobArtifact(...))`
  unfoldable pub register : JobArtifact → S.Table JobArtifact → S.Table JobArtifact
  unfolding get_artifact
  register a t = elim (get_artifact a.job_id a.artifact_type a.input_fingerprint t) [
    | none ↦ S.insert a t
    | some _ ↦ t
  ]

  -- an outcome on the jobs, committed with the artifacts or rolled back with them
  unfoldable pub together :
      Queue S → S.Table JobArtifact → Outcome Job × S.Table Job → Outcome Job × Queue S
  together q artifacts (ok job, jobs) = (ok job, record { jobs = jobs; artifacts = artifacts })
  together q artifacts (err e, jobs) = (err e, q)

  -- the body of `commit_artifact_and_advance` after `_get`
  unfoldable pub commit_row :
      Job → String → JobStatus → ℕ → ℕ → JobArtifact → Option ℕ → Queue S → Outcome Job × Queue S
  commit_row job owner to_status now lease_seconds artifact progress q =
      elim (validate_transition job.status to_status) [
        | err e ↦ (err e, q)
        | ok _ ↦ together q (register artifact q.artifacts) (
            compare_and_swap S (owned_row job owner now)
              (committed job to_status now lease_seconds progress) (err lease_lost)
              (get_required S job.job_id) q.jobs)
      ]

  -- `commit_artifact_and_advance`, where `artifact` carries its key, its `job_id` and the time
  unfoldable pub commit_artifact_and_advance :
      String → String → JobStatus → ℕ → ℕ → JobArtifact → Option ℕ → Queue S → Outcome Job × Queue S
  commit_artifact_and_advance job_id owner to_status now lease_seconds artifact progress q =
      elim (get S job_id q.jobs) [
        | none ↦ (err key_error, q)
        | some job ↦ commit_row job owner to_status now lease_seconds artifact progress q
      ]

  -- the insert or the refresh of `save_artifact_inline`, under its lease guard
  unfoldable pub store_checkpoint : JobArtifact → S.Table JobArtifact → S.Table JobArtifact
  unfolding get_artifact
  store_checkpoint a t = elim (get_artifact a.job_id a.artifact_type a.input_fingerprint t) [
    | none ↦ S.insert a t
    | some existing ↦
        (S.update (λ row. row.id == existing.id)
          (λ row. record row { payload_json = a.payload_json; updated_at = a.updated_at }) t).0
  ]

  -- the checkpoint is stored if the lease guard hit the job
  unfoldable pub after_guard :
      Queue S → JobArtifact → Outcome (Unit {0}) × S.Table Job → Outcome (Unit {0}) × Queue S
  unfolding store_checkpoint
  after_guard q a (err e, jobs) = (err e, q)
  after_guard q a (ok _, jobs) =
      (ok tt, record { jobs = jobs; artifacts = store_checkpoint a q.artifacts })

  -- `save_artifact_inline`: the guard's `.values(updated_at=Job.updated_at)` changes no column
  unfoldable pub save_artifact_inline :
      ℕ
      → String
      → String
      → ℕ
      → String
      → String
      → String
      → ℕ
      → String
      → Queue S
      → Outcome (Unit {0}) × Queue S
  unfolding checkpoint after_guard
  save_artifact_inline id job_id owner now stage artifact_type input_fingerprint schema_version
        payload_json q =
      let a =
        checkpoint id job_id stage artifact_type input_fingerprint schema_version payload_json
          now in
      after_guard q
        (checkpoint id job_id stage artifact_type input_fingerprint schema_version payload_json now)
        (compare_and_swap {0} S (leased_row job_id owner now) (λ row. row) (err lease_lost)
          (λ t'. ok tt) q.jobs)
