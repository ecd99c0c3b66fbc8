-- ===== src/Storage/Committing.antt =====
-- What `commit_artifact_and_advance` and `save_artifact_inline` of storage/repository.py give and write.
use evoblue_video_mcp.Prelude.{
  ℕ, true, inl, inr, Option, some, String, str_eq, is_some, eq_iff, Bool-cases, Option-cases,
  if◌then◌else◌, ◌≡◌, refl, ◌∙◌, ap,
}
use evoblue_video_mcp.Outcome.{Outcome, Error, ok, err, transition_error, lease_lost}
use evoblue_video_mcp.Sql.{Sql, IsLawful}
use evoblue_video_mcp.Sql.Keys.{first-insert}
use evoblue_video_mcp.Jobs.States.{JobStatus}
use evoblue_video_mcp.Jobs.Transitions.{is_valid_transition, validate_transition}
use evoblue_video_mcp.Storage.Models.{Job, JobArtifact}
use evoblue_video_mcp.Storage.Session.{get, get_required, holds_lease, compare_and_swap}
use evoblue_video_mcp.Storage.Leases.{owned_row}
use evoblue_video_mcp.Storage.Artifacts.{
  Queue, has_key, committed, get_artifact, register, together, commit_row,
  commit_artifact_and_advance,
}
use evoblue_video_mcp.Storage.Invariant.{IsConsistent}
use evoblue_video_mcp.Storage.Exact.{swap_result}
use evoblue_video_mcp.Storage.Results.{owned_self, owned_key}

module _ (S : Sql) (L : IsLawful S) where
  -- a registered artifact is there
  pub registered :
      (a : JobArtifact) (t : S.Table JobArtifact)
      → is_some (get_artifact S a.job_id a.artifact_type a.input_fingerprint (register S a t))
        ≡ true
  unfolding register get_artifact has_key
  registered a t =
      elim (Option-cases (get_artifact S a.job_id a.artifact_type a.input_fingerprint t)) [
        | inr (x, found) ↦ rw (found, register) (ap is_some found)
        | inl absent ↦
            rw (absent, register)
              (rw (L.rows-insert a t) (
                ap is_some (
                  first-insert (has_key a.job_id a.artifact_type a.input_fingerprint) (S.rows t) a
                    absent
                    (rw
                      (
                        (eq_iff a.job_id a.job_id).1 refl,
                        (eq_iff a.artifact_type a.artifact_type).1 refl,
                        (eq_iff a.input_fingerprint a.input_fingerprint).1 refl,
                      )
                      refl))))
      ]

  together_ok :
      (q : Queue S) (artifacts : S.Table JobArtifact) (u : Outcome Job × S.Table Job) (job : Job)
      → u.0 ≡ ok job
      → together S q artifacts u ≡ (ok job, record { jobs = u.1; artifacts = artifacts })
  unfolding together
  together_ok q artifacts (ok j, t) job e = cc
  together_ok q artifacts (err x, t) job e = cc

  together_err :
      (q : Queue S) (artifacts : S.Table JobArtifact) (u : Outcome Job × S.Table Job) (x : Error)
      → u.0 ≡ err x
      → together S q artifacts u ≡ (err x, q)
  unfolding together
  together_err q artifacts (ok j, t) x e = cc
  together_err q artifacts (err y, t) x e = cc

  -- the queue after the commit: the job is advanced and the artifact registered
  unfoldable pub after_commit :
      Job → String → JobStatus → ℕ → ℕ → JobArtifact → Option ℕ → Queue S → Queue S
  after_commit job owner to_status now lease_seconds artifact progress q = record {
    jobs =
        (compare_and_swap S (owned_row job owner now)
          (committed job to_status now lease_seconds progress) (err lease_lost)
          (get_required S job.job_id) q.jobs).1;
    artifacts = register S artifact q.artifacts;
  }

  -- For a job that is there in a consistent table, the commit gives the advanced row with the artifact
  -- registered, or the exception with the queue as it was.
  pub commit_eq :
      (job_id owner : String) (to_status : JobStatus) (now lease_seconds : ℕ)
      (artifact : JobArtifact) (progress : Option ℕ) (q : Queue S) (job : Job)
      → IsConsistent (S.rows q.jobs)
      → get S job_id q.jobs ≡ some job
      → commit_artifact_and_advance S job_id owner to_status now lease_seconds artifact progress q
        ≡ (if is_valid_transition job.status to_status
            then (if holds_lease owner now job
                then (
                  ok (committed job to_status now lease_seconds progress job),
                  after_commit job owner to_status now lease_seconds artifact progress q,
                )
                else (err lease_lost, q))
            else (err transition_error, q))
  unfolding commit_artifact_and_advance commit_row validate_transition after_commit
  commit_eq job_id owner to_status now lease_seconds artifact progress q job c found =
      rw (found, commit_artifact_and_advance)
        (elim (Bool-cases (is_valid_transition job.status to_status)) [
          | inr no_edge ↦ rw (no_edge, commit_row) refl
          | inl allowed ↦
              let swap =
                swap_result S L (owned_row job owner now)
                  (committed job to_status now lease_seconds progress) lease_lost job_id job q.jobs
                  c found (owned_key job owner now) (λ r. unfold committed in refl) in
              let guard = owned_self job owner now in
              rw (allowed, commit_row)
                (elim (Bool-cases (holds_lease owner now job)) [
                  | inl held ↦ rw held (
                      together_ok q (register S artifact q.artifacts) _ _
                        (swap.0 ∙ rw (guard ∙ held) refl))
                  | inr lost ↦ rw lost (
                      together_err q (register S artifact q.artifacts) _ _
                        (swap.0 ∙ rw (guard ∙ lost) refl))
                ])
        ])

  pub reads_commit :
      (job_id owner : String) (to_status : JobStatus) (now lease_seconds : ℕ)
      (artifact : JobArtifact) (progress : Option ℕ) (q : Queue S) (job : Job) (k : String)
      → IsConsistent (S.rows q.jobs)
      → get S job_id q.jobs ≡ some job
      → holds_lease owner now job ≡ true
      → get S k (after_commit job owner to_status now lease_seconds artifact progress q).jobs ≡ (
          if str_eq k job_id
          then some (committed job to_status now lease_seconds progress job)
          else get S k q.jobs)
  unfolding after_commit
  reads_commit job_id owner to_status now lease_seconds artifact progress q job k c found held =
      (swap_result S L (owned_row job owner now)
          (committed job to_status now lease_seconds progress) lease_lost job_id job q.jobs c found
          (owned_key job owner now) (λ r. unfold committed in refl)).1
        k
      ∙ rw (owned_self job owner now ∙ held) refl
