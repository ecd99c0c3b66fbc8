-- ===== src/Storage/Results.antt =====
-- The outcome of each guarded write on every branch, and what every later read gives.
use evoblue_video_mcp.Prelude.{
  ℕ, ◌==◌, Bool, true, ◌&&◌, inl, inr, Option, none, some, String, str_eq, option_eq_self,
  Bool-cases, &&-eq_true, if◌then◌else◌, ◌≡◌, refl, ap, ==_self,
}
use evoblue_video_mcp.Outcome.{ok, err, lease_lost, transition_error}
use evoblue_video_mcp.Sql.{Sql, IsLawful}
use evoblue_video_mcp.Jobs.States.{JobStatus, retry_wait, failed, cancelled, same_self}
use evoblue_video_mcp.Jobs.Transitions.{is_valid_transition, validate_transition}
use evoblue_video_mcp.Storage.Models.{Job}
use evoblue_video_mcp.Storage.Session.{holds_lease, get, with_job}
use evoblue_video_mcp.Storage.Claims.{is_claimable, same_lease, claimed, claim_row, claim_job}
use evoblue_video_mcp.Storage.Leases.{
  owned_row, pending_cancel, advance_row, advance_job, fail_row, mark_failure, stop_row,
  mark_cancelled, advanced, failure, stopped,
}
use evoblue_video_mcp.Storage.Invariant.{IsConsistent}
use evoblue_video_mcp.Storage.Exact.{
  swap_result, swap-eq, get-swapped, reads-swapped, get_as, read_id,
}

pub owned_self :
    (job : Job) (owner : String) (now : ℕ) → owned_row job owner now job ≡ holds_lease owner now job
unfolding owned_row
owned_self job owner now = rw (==_self job.id, same_self job.status)

pub owned_key :
    (job : Job) (owner : String) (now : ℕ) (r : Job)
    → owned_row job owner now r ≡ true
    → (r.id == job.id) ≡ true
unfolding owned_row
owned_key job owner now r h = (&&-eq_true (r.id == job.id) _ h).0

module _ (S : Sql) (L : IsLawful S) (job_id : String) (job : Job) (t : S.Table Job)
    (c : IsConsistent (S.rows t)) (found : get S job_id t ≡ some job) where
  pub advance_job_result :
      (owner : String) (to_status : JobStatus) (now lease_seconds : ℕ) (stage : Option JobStatus)
      (progress : Option ℕ)
      → let r = advance_job S job_id owner to_status now lease_seconds stage progress t in
        let row =
          advanced job to_status (pending_cancel S job t) now lease_seconds stage progress job in
        (r.0 ≡ (
          if is_valid_transition job.status to_status
          then (if holds_lease owner now job then ok row else err lease_lost)
          else err transition_error))
        × ((k : String)
            → get S k r.1 ≡ (
                if is_valid_transition job.status to_status
                  && (holds_lease owner now job && str_eq k job_id)
                then some row
                else get S k t))
  unfolding advance_job with_job advance_row validate_transition
  advance_job_result owner to_status now lease_seconds stage progress =
      rw (found, with_job)
        (elim (Bool-cases (is_valid_transition job.status to_status)) [
          | inr no_edge ↦ rw (no_edge, advance_row) (refl, (λ k. refl))
          | inl allowed ↦
              rw (allowed, advance_row)
                (rw (← owned_self job owner now) (
                  swap_result S L (owned_row job owner now)
                    (advanced job to_status (pending_cancel S job t) now lease_seconds stage
                      progress)
                    lease_lost job_id job t c found (owned_key job owner now)
                    (λ r. unfold advanced in refl)))
        ])

  -- For a job that is there in a consistent table, mark_failure by the holder of a live lease
  -- returns it in RETRY_WAIT if the error is retryable and in FAILED if not, with the error, with
  -- the given retry time only if retryable, without a lease, with the new time of update and else
  -- as it was, and later reads give that; it raises TransitionError on an illegal move and
  -- LeaseLostError without a live lease, with every read as it was.
  pub mark_failure_result :
      (owner : String) (now : ℕ) (error_code : String) (retryable : Bool) (next_retry_at : Option ℕ)
      (error_detail : Option String)
      → let r = mark_failure S job_id owner now error_code retryable next_retry_at error_detail t in
        let row = record job {
          status = if retryable then retry_wait else failed;
          error_code = some error_code;
          error_detail = error_detail;
          retryable = retryable;
          next_retry_at = if retryable then next_retry_at else none;
          lease_owner = none;
          lease_expires_at = none;
          updated_at = now;
        } in
        let allowed = is_valid_transition job.status (if retryable then retry_wait else failed) in
        (r.0 ≡ (
          if allowed
          then (if holds_lease owner now job then ok row else err lease_lost)
          else err transition_error))
        × ((k : String)
            → get S k r.1 ≡ (
                if allowed && (holds_lease owner now job && str_eq k job_id)
                then some row
                else get S k t))
  unfolding mark_failure with_job fail_row validate_transition failure
  mark_failure_result owner now error_code retryable next_retry_at error_detail =
      rw (found, with_job)
        (elim (Bool-cases
          (is_valid_transition job.status (if retryable then retry_wait else failed))) [
            | inr no_edge ↦ rw (no_edge, fail_row) (refl, (λ k. refl))
            | inl allowed ↦
                rw (allowed, fail_row)
                  (rw (← owned_self job owner now) (
                    swap_result S L (owned_row job owner now)
                      (failure now error_code retryable next_retry_at error_detail) lease_lost
                      job_id job t c found (owned_key job owner now) (λ r. unfold failure in refl)))
          ])

  -- For a job that is there in a consistent table, mark_cancelled by the holder of a live lease
  -- returns it as CANCELLED with error code CANCELLED_BY_USER, without a lease, with the new time
  -- of update and else as it was, and later reads give that; anyone else gets LeaseLostError, with
  -- every read as it was.
  pub mark_cancelled_result :
      (owner : String) (now : ℕ)
      → let r = mark_cancelled S job_id owner now t in
        let row = record job {
          status = cancelled;
          error_code = some "CANCELLED_BY_USER";
          lease_owner = none;
          lease_expires_at = none;
          updated_at = now;
        } in
        (r.0 ≡ (if holds_lease owner now job then ok row else err lease_lost))
        × ((k : String)
            → get S k r.1
              ≡ (if holds_lease owner now job && str_eq k job_id then some row else get S k t))
  unfolding mark_cancelled with_job stop_row stopped
  mark_cancelled_result owner now =
      rw (found, with_job)
        (rw (← owned_self job owner now) (
          swap_result S L (owned_row job owner now) (stopped now) lease_lost job_id job t c found
            (owned_key job owner now) (λ r. unfold stopped in refl)))

lease_self : (job : Job) → same_lease job job ≡ true
unfolding same_lease
lease_self job = rw (==_self job.id, same_self job.status, option_eq_self job.lease_expires_at)

pub lease_key : (job r : Job) → same_lease job r ≡ true → (r.id == job.id) ≡ true
unfolding same_lease
lease_key job r h = (&&-eq_true (r.id == job.id) _ h).0

module _ (S : Sql) (L : IsLawful S) (job_id : String) (job : Job) (t : S.Table Job)
    (c : IsConsistent (S.rows t)) (found : get S job_id t ≡ some job) where
  pub claim_job_result :
      (owner : String) (lease_seconds now : ℕ)
      → let r = claim_job S job_id owner lease_seconds now t in
        let row = claimed job owner lease_seconds now job in
        (r.0 ≡ ok (if is_claimable now job then some row else none))
        × ((k : String)
            → get S k r.1
              ≡ (if is_claimable now job && str_eq k job_id then some row else get S k t))
        × (r.1 ≡ (
            if is_claimable now job
            then (S.update (same_lease job) (claimed job owner lease_seconds now) t).0
            else t))
  unfolding claim_job with_job claim_row
  claim_job_result owner lease_seconds now =
      rw (found, with_job)
        (elim (Bool-cases (is_claimable now job)) [
          | inr idle ↦ rw (idle, claim_row) (refl, (λ k. refl), refl)
          | inl ready ↦
              rw (ready, claim_row)
                (rw
                  (
                    swap-eq S L (same_lease job) (claimed job owner lease_seconds now) (ok none)
                        (λ t'. ok (get S job.job_id t')) job_id job t c.1 found (lease_key job),
                    lease_self job,
                  )
                  (
                    ap ok (
                        get_as S L job.job_id job_id _ (claimed job owner lease_seconds now job)
                          (read_id S L job_id job t found)
                          (get-swapped S L (same_lease job) (claimed job owner lease_seconds now)
                            job_id job t found (lease_self job) (λ r. unfold claimed in refl))),
                    (λ k.
                        reads-swapped S L (same_lease job) (claimed job owner lease_seconds now)
                          job_id k job t c found (lease_key job) (λ r. unfold claimed in refl)
                          (lease_self job)),
                    refl,
                  ))
        ])
