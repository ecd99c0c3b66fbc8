-- ===== src/Storage/HolderSteps.antt =====
-- The UPDATEs of storage/repository.py that a worker makes with its lease, at a row that their WHERE
-- admits: the row stays valid and makes one move.
use evoblue_video_mcp.Prelude.{
  ℕ, Bool, true, false, inl, inr, Option, String, is_some, if◌then◌else◌, ◌≡◌, refl, arith,
  &&-eq_true, str_eq, ◌==◌,
}
use evoblue_video_mcp.Jobs.States.{transcribing, retry_wait, failed, same, same→eq, is_terminal}
use evoblue_video_mcp.Jobs.Transitions.{is_valid_transition}
use evoblue_video_mcp.Storage.Models.{Job}
use evoblue_video_mcp.Storage.Session.{holds_lease}
use evoblue_video_mcp.Storage.Leases.{
  owned_row, failure, stopped, pinned, transcribing_row, leased_row, renewed,
}
use evoblue_video_mcp.Storage.Invariant.{IsValid, is_unowned}
use evoblue_video_mcp.Storage.Rules.{RowStep}
use evoblue_video_mcp.Storage.RowSteps.{Moves-live, live_not_terminal}

-- what an admitted guard says of the row
pub owned_status :
    (job : Job) (owner : String) (now : ℕ) (r : Job)
    → owned_row job owner now r ≡ true
    → (r.status ≡ job.status) × (holds_lease owner now r ≡ true)
unfolding owned_row
owned_status job owner now r h =
    let rest = (&&-eq_true _ _ h).1 in
    (same→eq r.status job.status (&&-eq_true _ _ rest).0, (&&-eq_true _ _ rest).1)

pub holder_is_live :
    (owner : String) (now : ℕ) (r : Job)
    → IsValid r
    → holds_lease owner now r ≡ true
    → (is_terminal r.status ≡ false) × (is_some r.lease_owner ≡ true)
unfolding is_unowned holds_lease
holder_is_live owner now r v h = ground (arith, live_not_terminal owner now r v h, v.lease_pair)

pub stopped-RowStep :
    (job : Job) (owner : String) (now : ℕ) (r : Job)
    → owned_row job owner now r ≡ true
    → RowStep r (stopped now r)
unfolding stopped
stopped-RowStep job owner now r h v =
    let live = (holder_is_live owner now r v (owned_status job owner now r h).1).0 in
    (
      record {
        attempts = v.attempts;
        lease_pair = refl;
        unowned = λ _. refl;
        stage_runs = v.stage_runs;
        parked_uncancelled = λ e. cc;
      },
      Moves-live r (stopped now r) refl refl refl (omega arith) live (inr (inr (live, refl))),
    )

pub failure-RowStep :
    (job : Job) (owner : String) (now : ℕ) (error_code : String) (retryable : Bool)
    (next_retry_at : Option ℕ) (error_detail : Option String) (r : Job)
    → is_valid_transition job.status (if retryable then retry_wait else failed) ≡ true
    → owned_row job owner now r ≡ true
    → RowStep r (failure now error_code retryable next_retry_at error_detail r)
unfolding failure
failure-RowStep job owner now error_code retryable next_retry_at error_detail r allowed h v =
    let same_as = (owned_status job owner now r h).0 in
    let live = (holder_is_live owner now r v (owned_status job owner now r h).1).0 in
    (
      record {
        attempts = v.attempts;
        lease_pair = refl;
        unowned = λ _. refl;
        stage_runs = v.stage_runs;
        parked_uncancelled = λ e. ground arith;
      },
      Moves-live r (failure now error_code retryable next_retry_at error_detail r) refl refl refl
          (omega arith) live (inr (inl (rw same_as allowed))),
    )

lease_of_row :
    (job_id owner : String) (now : ℕ) (r : Job)
    → leased_row job_id owner now r ≡ true
    → holds_lease owner now r ≡ true
unfolding leased_row
lease_of_row job_id owner now r h = (&&-eq_true (str_eq r.job_id job_id) _ h).1

lease_of_transcribing :
    (job : Job) (owner : String) (now : ℕ) (r : Job)
    → transcribing_row job owner now r ≡ true
    → holds_lease owner now r ≡ true
unfolding transcribing_row
lease_of_transcribing job owner now r h =
    (&&-eq_true (same r.status transcribing) _ (&&-eq_true (r.id == job.id) _ h).1).1

pub renewed-RowStep :
    (job_id owner : String) (now lease_seconds : ℕ) (r : Job)
    → leased_row job_id owner now r ≡ true
    → RowStep r (renewed now lease_seconds r)
unfolding renewed
renewed-RowStep job_id owner now lease_seconds r h v =
    let held = lease_of_row job_id owner now r h in
    (
      record {
        attempts = v.attempts;
        lease_pair = (holder_is_live owner now r v held).1;
        unowned = λ u. cc (live_not_terminal owner now r v held, u);
        stage_runs = v.stage_runs;
        parked_uncancelled = v.parked_uncancelled;
      },
      Moves-live r (renewed now lease_seconds r) refl refl refl (omega arith)
          (holder_is_live owner now r v held).0 (inl refl),
    )

pub pinned-RowStep :
    (job : Job) (owner : String) (now : ℕ) (provider_id model_id model_version : String)
    (recommendation_model_id : Option String) (r : Job)
    → transcribing_row job owner now r ≡ true
    → RowStep r (pinned now provider_id model_id model_version recommendation_model_id r)
unfolding pinned
pinned-RowStep job owner now provider_id model_id model_version recommendation_model_id r h v =
    let held = lease_of_transcribing job owner now r h in
    (
      record {
        attempts = v.attempts;
        lease_pair = v.lease_pair;
        unowned = v.unowned;
        stage_runs = v.stage_runs;
        parked_uncancelled = v.parked_uncancelled;
      },
      Moves-live r (pinned now provider_id model_id model_version recommendation_model_id r) refl
          refl refl (omega arith) (holder_is_live owner now r v held).0 (inl refl),
    )
