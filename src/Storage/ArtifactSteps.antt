-- ===== src/Storage/ArtifactSteps.antt =====
-- `commit_artifact_and_advance` and `save_artifact_inline` of storage/repository.py on the job table.
use evoblue_video_mcp.Prelude.{
  ℕ, false, inl, inr, Option, some, String, Bool-cases, Option-cases, ◌≡◌,
}
use evoblue_video_mcp.Outcome.{Outcome, ok, err, lease_lost}
use evoblue_video_mcp.Sql.{Sql, IsLawful}
use evoblue_video_mcp.Jobs.States.{JobStatus, waiting_for_model, same}
use evoblue_video_mcp.Jobs.Transitions.{is_valid_transition, validate_transition}
use evoblue_video_mcp.Storage.Models.{Job, JobArtifact}
use evoblue_video_mcp.Storage.Session.{get, get_required, compare_and_swap}
use evoblue_video_mcp.Storage.Leases.{owned_row, leased_row}
use evoblue_video_mcp.Storage.Artifacts.{
  Queue, committed, register, together, commit_row, commit_artifact_and_advance, checkpoint,
  after_guard, save_artifact_inline,
}
use evoblue_video_mcp.Storage.Invariant.{Moves-refl}
use evoblue_video_mcp.Storage.Rules.{
  Respects, Respects-refl, Respects-swap, at_read, at_every, read-IsValid,
}
use evoblue_video_mcp.Storage.AdvanceSteps.{committed-RowStep}
use evoblue_video_mcp.Storage.Operations.{id_of_owned}

module _ (S : Sql) (L : IsLawful S) where
  -- committed or rolled back as a whole, the queue's jobs are those of the compare-and-swap or the old
  together_jobs :
      (q : Queue S) (artifacts : S.Table JobArtifact) (u : Outcome Job × S.Table Job)
      → Respects S q.jobs u.1
      → Respects S q.jobs (together S q artifacts u).1.jobs
  unfolding together
  together_jobs q artifacts (ok job, jobs) h = h
  together_jobs q artifacts (err e, jobs) h = Respects-refl S q.jobs

  guard_jobs :
      (q : Queue S) (a : JobArtifact) (u : Outcome (Unit {0}) × S.Table Job)
      → Respects S q.jobs u.1
      → Respects S q.jobs (after_guard S q a u).1.jobs
  unfolding after_guard
  guard_jobs q a (ok _, jobs) h = h
  guard_jobs q a (err e, jobs) h = Respects-refl S q.jobs

  pub commit_artifact-Respects :
      (job_id owner : String) (to_status : JobStatus) (now lease_seconds : ℕ)
      (artifact : JobArtifact) (progress : Option ℕ) (q : Queue S)
      → same to_status waiting_for_model ≡ false
      → Respects S q.jobs
          (commit_artifact_and_advance S job_id owner to_status now lease_seconds artifact progress
            q).1.jobs
  unfolding commit_artifact_and_advance commit_row validate_transition
  commit_artifact-Respects job_id owner to_status now lease_seconds artifact progress q parks =
      elim (Option-cases (get S job_id q.jobs)) [
        | inl absent ↦ rw (absent, commit_artifact_and_advance) (Respects-refl S q.jobs)
        | inr (job, found) ↦ rw (found, commit_artifact_and_advance) (of_job job found)
      ]
    where
      of_job :
          (job : Job)
          → get S job_id q.jobs ≡ some job
          → Respects S q.jobs
              (commit_row S job owner to_status now lease_seconds artifact progress q).1.jobs
      of_job job found = elim (Bool-cases (is_valid_transition job.status to_status)) [
        | inr no_edge ↦ rw (no_edge, commit_row) (Respects-refl S q.jobs)
        | inl allowed ↦
            rw (allowed, commit_row)
              (together_jobs q (register S artifact q.artifacts)
                (compare_and_swap S (owned_row job owner now)
                  (committed job to_status now lease_seconds progress) (err lease_lost)
                  (get_required S job.job_id) q.jobs)
                (Respects-swap S L (owned_row job owner now)
                  (committed job to_status now lease_seconds progress) _ _ q.jobs
                  (λ c.
                    at_read S L (owned_row job owner now)
                      (committed job to_status now lease_seconds progress) job_id job q.jobs found
                      (id_of_owned S L job owner now)
                      (committed-RowStep job owner to_status now lease_seconds progress job
                        (read-IsValid S L job_id job q.jobs found c) parks allowed)
                      c)))
      ]

  pub save_artifact-Respects :
      (id : ℕ) (job_id owner : String) (now : ℕ) (stage artifact_type input_fingerprint : String)
      (schema_version : ℕ) (payload_json : String) (q : Queue S)
      → Respects S q.jobs
          (save_artifact_inline S id job_id owner now stage artifact_type input_fingerprint
            schema_version payload_json q).1.jobs
  unfolding save_artifact_inline
  save_artifact-Respects id job_id owner now stage artifact_type input_fingerprint schema_version
        payload_json q =
      guard_jobs q
        (checkpoint id job_id stage artifact_type input_fingerprint schema_version payload_json now)
        _
        (Respects-swap S L (leased_row job_id owner now) (λ row. row) _ _ q.jobs
          (λ c.
            at_every (leased_row job_id owner now) (λ row. row) (S.rows q.jobs)
              (λ r h v. (v, Moves-refl r))))
