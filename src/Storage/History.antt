-- ===== src/Storage/History.antt =====
-- Runs of the job queue: any sequence of the operations of storage/repository.py, by any workers, in
-- any order, each in its own transaction.
use mathlib.Core.Path.{subst}
use evoblue_video_mcp.Prelude.{
  ℕ, ◌≤◌, Bool, true, false, inl, inr, Option, some, List, [], ◌∷◌, String, str_eq, first, some_eq,
  Bool-cases, ◌≡◌, refl, sym, ◌∙◌, ap,
}
use evoblue_video_mcp.Sql.{Sql, IsLawful}
use evoblue_video_mcp.Jobs.States.{JobStatus, waiting_for_model, same, is_terminal}
use evoblue_video_mcp.Storage.Models.{Job, JobArtifact}
use evoblue_video_mcp.Storage.Session.{get}
use evoblue_video_mcp.Storage.Claims.{new_job, enqueue_job, claim_job, claim_next_job}
use evoblue_video_mcp.Storage.Leases.{
  advance_job, mark_failure, mark_cancelled, pin_job_asr_route, renew_lease,
}
use evoblue_video_mcp.Storage.Sweeps.{
  recover_stale_jobs, fail_exhausted_retries, land_dangling_cancellations, resume_waiting_jobs,
  request_cancellation,
}
use evoblue_video_mcp.Storage.Artifacts.{Queue, commit_artifact_and_advance, save_artifact_inline}
use evoblue_video_mcp.Storage.Invariant.{
  IsKept, IsKept-refl, Evolves, Evolves-refl, Evolves-trans, Evolves-Moves, IsConsistent,
  runs_stage,
}
use evoblue_video_mcp.Storage.Rules.{Respects}
use evoblue_video_mcp.Storage.Operations.{
  recover-Respects, fail_exhausted-Respects, land-Respects, resume-Respects, renew-Respects,
  mark_cancelled-Respects, pin-Respects, mark_failure-Respects, advance-Respects,
  request_cancellation-Respects,
}
use evoblue_video_mcp.Storage.Rules.{read-IsValid}
use evoblue_video_mcp.Storage.ArtifactSteps.{commit_artifact-Respects, save_artifact-Respects}
use evoblue_video_mcp.Storage.Claiming.{is_parked, claim_job-Respects, claim_next_job-Respects}
use evoblue_video_mcp.Storage.Enqueue.{new_job-IsValid, enqueue-Respects}

module _ (S : Sql) where
  abbrev on_jobs : Queue S → S.Table Job → Queue S
  on_jobs q t = record q { jobs = t }

  -- One operation, as the worker and the application call it: a new job has no more attempts than its
  -- limit, `claim_job` names a job that is not parked (`claim_next_job` never finds one that is),
  -- `advance_job` names a stage that runs, if any, and a stage that parks a job registers no artifact.
  pub data Operation (q : Queue S) : Queue S → Type 0 where
    enqueue :
        (id : ℕ) (job_id url request_fingerprint config_fingerprint : String) (now : ℕ)
        (status : JobStatus) (mode asr : String) (language : Option String)
        (max_attempts attempt : ℕ) (next_retry_at : Option ℕ)
        → attempt ≤ max_attempts
        → Operation q (
            on_jobs q
              (enqueue_job S
                (new_job id job_id url request_fingerprint config_fingerprint now status mode asr
                  language max_attempts attempt next_retry_at)
                q.jobs).1)
    claim_next :
        (owner : String) (lease_seconds now : ℕ)
        → Operation q (on_jobs q (claim_next_job S owner lease_seconds now q.jobs).1)
    claim :
        (job_id owner : String) (lease_seconds now : ℕ)
        → is_parked (get S job_id q.jobs) ≡ false
        → Operation q (on_jobs q (claim_job S job_id owner lease_seconds now q.jobs).1)
    advance :
        (job_id owner : String) (to_status : JobStatus) (now lease_seconds : ℕ)
        (stage : Option JobStatus) (progress : Option ℕ)
        → runs_stage stage ≡ true
        → Operation q (
            on_jobs q
              (advance_job S job_id owner to_status now lease_seconds stage progress q.jobs).1)
    fail :
        (job_id owner : String) (now : ℕ) (error_code : String) (retryable : Bool)
        (next_retry_at : Option ℕ) (error_detail : Option String)
        → Operation q (
            on_jobs q
              (mark_failure S job_id owner now error_code retryable next_retry_at error_detail
                q.jobs).1)
    stop :
        (job_id owner : String) (now : ℕ)
        → Operation q (on_jobs q (mark_cancelled S job_id owner now q.jobs).1)
    pin :
        (job_id owner : String) (now : ℕ) (provider_id model_id model_version : String)
        (recommendation_model_id : Option String)
        → Operation q (
            on_jobs q
              (pin_job_asr_route S job_id owner now provider_id model_id model_version
                recommendation_model_id q.jobs).1)
    renew :
        (job_id owner : String) (now lease_seconds : ℕ)
        → Operation q (on_jobs q (renew_lease S job_id owner now lease_seconds q.jobs).1)
    recover : (now : ℕ) → Operation q (on_jobs q (recover_stale_jobs S now q.jobs).1)
    fail_exhausted : (now : ℕ) → Operation q (on_jobs q (fail_exhausted_retries S now q.jobs).1)
    land : (now : ℕ) → Operation q (on_jobs q (land_dangling_cancellations S now q.jobs).1)
    resume :
        (model_id : String) (now : ℕ)
        → Operation q (on_jobs q (resume_waiting_jobs S model_id now q.jobs).1)
    request_cancel :
        (job_id : String) (now : ℕ)
        → Operation q (on_jobs q (request_cancellation S job_id now q.jobs).1)
    commit_artifact :
        (job_id owner : String) (to_status : JobStatus) (now lease_seconds : ℕ)
        (artifact : JobArtifact) (progress : Option ℕ)
        → same to_status waiting_for_model ≡ false
        → Operation q
            (commit_artifact_and_advance S job_id owner to_status now lease_seconds artifact
              progress q).1
    save_artifact :
        (id : ℕ) (job_id owner : String) (now : ℕ) (stage artifact_type input_fingerprint : String)
        (schema_version : ℕ) (payload_json : String)
        → Operation q
            (save_artifact_inline S id job_id owner now stage artifact_type input_fingerprint
              schema_version payload_json q).1

  pub data Reaches (q : Queue S) : Queue S → Type 0 where
    here : Reaches q q
    next : {r s : Queue S} → Reaches q r → Operation r s → Reaches q s

module _ (S : Sql) (L : IsLawful S) where
  Operation-Respects : {q r : Queue S} → Operation S q r → Respects S q.jobs r.jobs
  Operation-Respects {q}
        (enqueue id job_id url rf cf now status mode asr language max attempt retry_at fits) =
      enqueue-Respects S L _ q.jobs
        (new_job-IsValid id job_id url rf cf now status mode asr language max attempt retry_at fits)
  Operation-Respects {q} (claim_next owner lease_seconds now) =
      claim_next_job-Respects S L owner lease_seconds now q.jobs
  Operation-Respects {q} (claim job_id owner lease_seconds now free) =
      claim_job-Respects S L owner lease_seconds now q.jobs job_id free
  Operation-Respects {q} (advance job_id owner to_status now lease_seconds stage progress runs) =
      advance-Respects S L job_id owner to_status now lease_seconds stage progress q.jobs runs
  Operation-Respects {q} (fail job_id owner now code retryable retry_at detail) =
      mark_failure-Respects S L job_id owner now code retryable retry_at detail q.jobs
  Operation-Respects {q} (stop job_id owner now) =
      mark_cancelled-Respects S L job_id owner now q.jobs
  Operation-Respects {q} (pin job_id owner now provider model version recommended) =
      pin-Respects S L job_id owner now provider model version recommended q.jobs
  Operation-Respects {q} (renew job_id owner now lease_seconds) =
      renew-Respects S L job_id owner now lease_seconds q.jobs
  Operation-Respects {q} (recover now) = recover-Respects S L now q.jobs
  Operation-Respects {q} (fail_exhausted now) = fail_exhausted-Respects S L now q.jobs
  Operation-Respects {q} (land now) = land-Respects S L now q.jobs
  Operation-Respects {q} (resume model_id now) = resume-Respects S L model_id now q.jobs
  Operation-Respects {q} (request_cancel job_id now) =
      request_cancellation-Respects S L job_id now q.jobs
  Operation-Respects {q}
        (commit_artifact job_id owner to_status now lease_seconds artifact progress parks) =
      commit_artifact-Respects S L job_id owner to_status now lease_seconds artifact progress q
        parks
  Operation-Respects {q} (save_artifact id job_id owner now stage kind fp version payload) =
      save_artifact-Respects S L id job_id owner now stage kind fp version payload q

  -- Whatever the workers and the user do, in whatever order: a consistent table stays consistent, and
  -- each row only changes as an operation may change it.
  pub Reaches-Respects :
      {q r : Queue S}
      → Reaches S q r
      → IsConsistent (S.rows q.jobs)
      → IsConsistent (S.rows r.jobs) × Evolves IsKept (S.rows q.jobs) (S.rows r.jobs)
  Reaches-Respects {q} here h = (h, Evolves-refl IsKept IsKept-refl (S.rows q.jobs))
  Reaches-Respects {q} (next {r = r} {s = s} path op) h =
      let (consistent, before) = Reaches-Respects path h in
      let (now_consistent, step) = Operation-Respects op consistent in
      (
        now_consistent,
        Evolves-trans (S.rows q.jobs) (S.rows r.jobs) (S.rows s.jobs) before
            (Evolves-Moves (S.rows r.jobs) (S.rows s.jobs) step),
      )

  -- Every table that a sequence of the operations of Operation reaches from an empty one is
  -- consistent: attempts are within the limit, owner and expiry of a lease are set together,
  -- queued, parked and finished jobs are not leased, the stage to resume is a running one, a
  -- parked job has no pending cancellation, and the keys are unique. The operations are those of
  -- the repository, where a new job has no more attempts than its limit, claim_job is called on a
  -- job that is not parked in WAITING_FOR_MODEL, advance_job is given no stage or one that a
  -- worker runs, and commit_artifact_and_advance does not move a job to WAITING_FOR_MODEL.
  pub reached-IsConsistent :
      (q r : Queue S) → S.rows q.jobs ≡ [] → Reaches S q r → IsConsistent (S.rows r.jobs)
  reached-IsConsistent q r empty path =
      (Reaches-Respects path (subst IsConsistent (sym empty) (tt, tt))).0

  pub row-IsKept :
      (k : String) (x : Job) (xs ys : List Job)
      → Evolves IsKept xs ys
      → first (λ j. str_eq j.job_id k) xs ≡ some x
      → (y : Job) × (first (λ j. str_eq j.job_id k) ys ≡ some y) × IsKept x y
  row-IsKept k x [] ys h e = cc
  row-IsKept k x (a ∷ xs) [] h e = elim h [ ]
  row-IsKept k x (a ∷ xs) (b ∷ ys) h e = elim (Bool-cases (str_eq a.job_id k)) [
    | inl t ↦
        let found : some a ≡ some x = rw t at e in
        (b, (rw (h.0.same_job_id, t) refl), subst (λ j. IsKept j b) (some_eq a x found) h.0)
    | inr t ↦
        let (y, found, kept) = row-IsKept k x xs ys h.1 (rw t at e) in
        (y, (rw (h.0.same_job_id, t) found), kept)
  ]

  IsKept-row :
      (q r : Queue S) (k : String) (x : Job)
      → IsConsistent (S.rows q.jobs)
      → get S k q.jobs ≡ some x
      → Reaches S q r
      → (y : Job) × (get S k r.jobs ≡ some y) × IsKept x y
  unfolding get
  IsKept-row q r k x h e path =
      row-IsKept k x (S.rows q.jobs) (S.rows r.jobs) (Reaches-Respects path h).1 e

  -- A job of a consistent table is still read under its id after any sequence of operations, with
  -- the same attempt limit, no fewer attempts, and attempts within the limit.
  pub job_history :
      (q r : Queue S) (k : String) (x : Job)
      → IsConsistent (S.rows q.jobs)
      → get S k q.jobs ≡ some x
      → Reaches S q r
      → (y : Job) × (get S k r.jobs ≡ some y)
        × (y.max_attempts ≡ x.max_attempts)
        × (x.attempt ≤ y.attempt)
        × (y.attempt ≤ y.max_attempts)
  job_history q r k x h e path =
      let (y, found, kept) = IsKept-row q r k x h e path in
      (
        y,
        found,
        kept.same_limit,
        kept.attempts_grow,
        (read-IsValid S L k y r.jobs found (Reaches-Respects path h).0).attempts,
      )

  -- A job that is completed, failed or cancelled in a consistent table reads the same after any
  -- sequence of the modelled operations of the repository, by any workers.
  pub finished_is_final :
      (q r : Queue S) (k : String) (x : Job)
      → IsConsistent (S.rows q.jobs)
      → get S k q.jobs ≡ some x
      → is_terminal x.status ≡ true
      → Reaches S q r
      → get S k r.jobs ≡ some x
  finished_is_final q r k x h e over path =
      let (y, found, kept) = IsKept-row q r k x h e path in found ∙ ap some (kept.frozen over)
