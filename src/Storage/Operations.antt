-- ===== src/Storage/Operations.antt =====
-- Every operation of storage/repository.py on the job table respects the table's invariant.
use mathlib.Core.Path.{subst}
use evoblue_video_mcp.Prelude.{
  ℕ, ◌==◌, Bool, true, inl, inr, Option, none, some, List, [], ◌∷◌, String, str_eq, first, All,
  some_eq, ==_self, Bool-cases, &&-eq_true, if◌then◌else◌, ◌≡◌,
}
use evoblue_video_mcp.Sql.{Sql, IsLawful}
use evoblue_video_mcp.Jobs.States.{JobStatus, retry_wait, failed, same→eq, is_terminal}
use evoblue_video_mcp.Jobs.Transitions.{is_valid_transition, validate_transition}
use evoblue_video_mcp.Storage.Models.{Job}
use evoblue_video_mcp.Storage.Session.{get}
use evoblue_video_mcp.Storage.Leases.{
  owned_row, transcribing_row, leased_row, flag_of, pending_cancel, advance_row, advance_job,
  fail_row, mark_failure, stop_row, mark_cancelled, pin_row, pin_job_asr_route, renew_lease,
  advanced, failure, stopped, pinned, renewed,
}
use evoblue_video_mcp.Storage.Sweeps.{
  is_stale, released, is_exhausted, exhausted, is_dangling, landed, waits_for, resumed, same_status,
  is_idle, flagged, withdrawn, sweep, recover_stale_jobs, fail_exhausted_retries,
  land_dangling_cancellations, resume_waiting_jobs, cancel_row, request_cancellation,
}
use evoblue_video_mcp.Storage.Invariant.{IsConsistent, runs_stage}
use evoblue_video_mcp.Storage.Rules.{
  RowStep, Respects, Respects-refl, Respects-update, Respects-swap, Respects-with_job, at_read,
  at_every, read-IsValid, get_only,
}
use evoblue_video_mcp.Storage.RowSteps.{
  released-RowStep, exhausted-RowStep, landed-RowStep, resumed-RowStep, withdrawn-RowStep,
  flagged-RowStep,
}
use evoblue_video_mcp.Storage.HolderSteps.{
  stopped-RowStep, failure-RowStep, renewed-RowStep, pinned-RowStep,
}
use evoblue_video_mcp.Storage.AdvanceSteps.{advanced-RowStep}

read_flag :
    (job_id : String) (job : Job) (rows : List Job)
    → All (λ r. (r.id == job.id) ≡ true → r ≡ job) rows
    → first (λ j. str_eq j.job_id job_id) rows ≡ some job
    → flag_of (first (λ row. row.id == job.id) rows) ≡ none
    → job.cancel_requested_at ≡ none
read_flag job_id job [] only e h = cc
read_flag job_id job (r ∷ rows) only e h = elim (Bool-cases (r.id == job.id)) [
  | inl k ↦
      let flag : r.cancel_requested_at ≡ none = rw k at h in
      subst (λ (j : Job). j.cancel_requested_at ≡ none) (only.0 k) flag
  | inr k ↦ elim (Bool-cases (str_eq r.job_id job_id)) [
    | inl t ↦
        let found : some r ≡ some job = rw t at e in
        let self : (r.id == job.id) ≡ true =
          subst (λ (j : Job). (r.id == j.id) ≡ true) (some_eq r job found) (==_self r.id) in
        cc (self, k)
    | inr t ↦ read_flag job_id job rows only.1 (rw t at e) (rw k at h)
  ]
]

module _ (S : Sql) (L : IsLawful S) where
  sweep-Respects :
      (p : Job → Bool) (f : Job → Job) (t : S.Table Job)
      → ((r : Job) → p r ≡ true → RowStep r (f r))
      → Respects S t (sweep S p f t).1
  unfolding sweep
  sweep-Respects p f t h = Respects-update S L p f t (λ c. at_every p f (S.rows t) h)

  -- `recover_stale_jobs`, `fail_exhausted_retries`, `land_dangling_cancellations` and
  -- `resume_waiting_jobs` keep the table consistent and move each row at most once.
  pub recover-Respects : (now : ℕ) (t : S.Table Job) → Respects S t (recover_stale_jobs S now t).1
  unfolding recover_stale_jobs
  recover-Respects now t = sweep-Respects (is_stale now) (released now) t (released-RowStep now)

  pub fail_exhausted-Respects :
      (now : ℕ) (t : S.Table Job) → Respects S t (fail_exhausted_retries S now t).1
  unfolding fail_exhausted_retries
  fail_exhausted-Respects now t =
      sweep-Respects is_exhausted (exhausted now) t (exhausted-RowStep now)

  pub land-Respects :
      (now : ℕ) (t : S.Table Job) → Respects S t (land_dangling_cancellations S now t).1
  unfolding land_dangling_cancellations
  land-Respects now t = sweep-Respects is_dangling (landed now) t (landed-RowStep now)

  pub resume-Respects :
      (model_id : String) (now : ℕ) (t : S.Table Job)
      → Respects S t (resume_waiting_jobs S model_id now t).1
  unfolding resume_waiting_jobs
  resume-Respects model_id now t =
      Respects-update S L (waits_for model_id) (resumed now) t
        (λ c. at_every (waits_for model_id) (resumed now) (S.rows t) (resumed-RowStep model_id now))

  pub renew-Respects :
      (job_id owner : String) (now lease_seconds : ℕ) (t : S.Table Job)
      → Respects S t (renew_lease S job_id owner now lease_seconds t).1
  unfolding renew_lease
  renew-Respects job_id owner now lease_seconds t =
      Respects-swap S L (leased_row job_id owner now) (renewed now lease_seconds) _ _ t (λ c.
        at_every (leased_row job_id owner now) (renewed now lease_seconds) (S.rows t)
          (renewed-RowStep job_id owner now lease_seconds))

  pub mark_cancelled-Respects :
      (job_id owner : String) (now : ℕ) (t : S.Table Job)
      → Respects S t (mark_cancelled S job_id owner now t).1
  unfolding mark_cancelled stop_row
  mark_cancelled-Respects job_id owner now t = Respects-with_job S L job_id _ _ t (λ job e.
      Respects-swap S L (owned_row job owner now) (stopped now) _ _ t (λ c.
        at_every (owned_row job owner now) (stopped now) (S.rows t)
          (stopped-RowStep job owner now)))

  pub pin-Respects :
      (job_id owner : String) (now : ℕ) (provider_id model_id model_version : String)
      (recommendation_model_id : Option String) (t : S.Table Job)
      → Respects S t
          (pin_job_asr_route S job_id owner now provider_id model_id model_version
            recommendation_model_id t).1
  unfolding pin_job_asr_route pin_row
  pin-Respects job_id owner now provider_id model_id model_version recommendation_model_id t =
      Respects-with_job S L job_id _ _ t (λ job e.
        Respects-swap S L (transcribing_row job owner now)
          (pinned now provider_id model_id model_version recommendation_model_id) _ _ t
          (λ c.
            at_every (transcribing_row job owner now)
              (pinned now provider_id model_id model_version recommendation_model_id) (S.rows t)
              (pinned-RowStep job owner now provider_id model_id model_version
                recommendation_model_id)))

  pub mark_failure-Respects :
      (job_id owner : String) (now : ℕ) (error_code : String) (retryable : Bool)
      (next_retry_at : Option ℕ) (error_detail : Option String) (t : S.Table Job)
      → Respects S t
          (mark_failure S job_id owner now error_code retryable next_retry_at error_detail t).1
  unfolding mark_failure fail_row validate_transition
  mark_failure-Respects job_id owner now error_code retryable next_retry_at error_detail t =
      Respects-with_job S L job_id _ _ t (λ job e.
        let target = if retryable then retry_wait else failed in
        elim (Bool-cases (is_valid_transition job.status target)) [
          | inr no_edge ↦ rw (no_edge, fail_row) (Respects-refl S t)
          | inl allowed ↦
              rw (allowed, fail_row)
                (Respects-swap S L (owned_row job owner now)
                  (failure now error_code retryable next_retry_at error_detail) _ _ t
                  (λ c.
                    at_every (owned_row job owner now)
                      (failure now error_code retryable next_retry_at error_detail) (S.rows t)
                      (λ r.
                        failure-RowStep job owner now error_code retryable next_retry_at
                          error_detail r allowed)))
        ])

  pub id_of_owned :
      (job : Job) (owner : String) (now : ℕ) (r : Job)
      → owned_row job owner now r ≡ true
      → (r.id == job.id) ≡ true
  unfolding owned_row
  id_of_owned job owner now r h = (&&-eq_true (r.id == job.id) _ h).0

  -- The authoritative read of the flag is that of the job itself.
  pending_uncancelled :
      (job_id : String) (job : Job) (t : S.Table Job)
      → get S job_id t ≡ some job
      → IsConsistent (S.rows t)
      → pending_cancel S job t ≡ none
      → job.cancel_requested_at ≡ none
  unfolding get pending_cancel
  pending_uncancelled job_id job t e c h =
      read_flag job_id job (S.rows t) (get_only job_id job (S.rows t) c.1 e) e h

  pub advance-Respects :
      (job_id owner : String) (to_status : JobStatus) (now lease_seconds : ℕ)
      (stage : Option JobStatus) (progress : Option ℕ) (t : S.Table Job)
      → runs_stage stage ≡ true
      → Respects S t (advance_job S job_id owner to_status now lease_seconds stage progress t).1
  unfolding advance_job advance_row validate_transition
  advance-Respects job_id owner to_status now lease_seconds stage progress t runs =
      Respects-with_job S L job_id _ _ t (λ job e.
        let values =
          advanced job to_status (pending_cancel S job t) now lease_seconds stage progress in
        elim (Bool-cases (is_valid_transition job.status to_status)) [
          | inr no_edge ↦ rw (no_edge, advance_row) (Respects-refl S t)
          | inl allowed ↦
              rw (allowed, advance_row)
                (Respects-swap S L (owned_row job owner now) values _ _ t (λ c.
                  at_read S L (owned_row job owner now) values job_id job t e
                    (id_of_owned job owner now)
                    (advanced-RowStep job owner to_status (pending_cancel S job t) now lease_seconds
                      stage progress job (read-IsValid S L job_id job t e c) runs allowed
                      (pending_uncancelled job_id job t e c))
                    c))
        ])

  id_of_same_status :
      (job r : Job) → same_status job r ≡ true → ((r.id == job.id) ≡ true) × (r.status ≡ job.status)
  unfolding same_status
  id_of_same_status job r h =
      let parts = &&-eq_true (r.id == job.id) _ h in (parts.0, same→eq r.status job.status parts.1)

  pub request_cancellation-Respects :
      (job_id : String) (now : ℕ) (t : S.Table Job)
      → Respects S t (request_cancellation S job_id now t).1
  unfolding request_cancellation cancel_row
  request_cancellation-Respects job_id now t =
      Respects-with_job S L job_id _ _ t (λ job e. cancel_row-Respects job)
    where
      cancel_row-Respects : (job : Job) → Respects S t (cancel_row S job now t).1
      cancel_row-Respects job = elim (Bool-cases (is_terminal job.status)) [
        | inl over ↦ rw (over, cancel_row) (Respects-refl S t)
        | inr live ↦ elim (Bool-cases (is_idle job.status)) [
          | inl idle ↦
              rw (live, idle, cancel_row)
                (Respects-swap S L (same_status job) (withdrawn now) _ _ t (λ c.
                  at_every (same_status job) (withdrawn now) (S.rows t)
                    (λ r h. withdrawn-RowStep now r (rw (id_of_same_status job r h).1 live))))
          | inr busy ↦
              rw (live, busy, cancel_row)
                (Respects-swap S L (same_status job) (flagged now) _ _ t (λ c.
                  at_every (same_status job) (flagged now) (S.rows t) (λ r h.
                    flagged-RowStep now r (rw (id_of_same_status job r h).1 live)
                      (rw (id_of_same_status job r h).1 busy))))
        ]
      ]
