-- ===== src/Storage/AdvanceSteps.antt =====
-- The UPDATEs of `advance_job` and `commit_artifact_and_advance` at a row that their WHERE admits.
use evoblue_video_mcp.Prelude.{
  ℕ, ◌+◌, Bool, true, false, ◌||◌, ◌⊎◌, inl, inr, Option, none, some, String, is_some,
  if◌then◌else◌, ◌≡◌, refl, arith, Bool-cases,
}
use evoblue_video_mcp.Jobs.States.{
  JobStatus, queued, fetching_metadata, waiting_for_model, cancelled, same, same→eq, same_self,
  is_terminal,
}
use evoblue_video_mcp.Jobs.Transitions.{is_running, is_valid_transition}
use evoblue_video_mcp.Storage.Models.{Job}
use evoblue_video_mcp.Storage.Leases.{owned_row, advanced, cancel_landed, final_status, new_stage}
use evoblue_video_mcp.Storage.Artifacts.{committed}
use evoblue_video_mcp.Storage.Invariant.{IsValid, is_unowned, runs_stage}
use evoblue_video_mcp.Storage.Rules.{RowStep}
use evoblue_video_mcp.Storage.RowSteps.{Moves-live}
use evoblue_video_mcp.Storage.HolderSteps.{owned_status, holder_is_live}

-- the stage that `advance_job` writes
new_stage-runs :
    (job : Job) (target : JobStatus) (stage : Option JobStatus)
    → IsValid job
    → runs_stage stage ≡ true
    → runs_stage (new_stage job target stage) ≡ true
unfolding new_stage runs_stage
new_stage-runs job target (some s) v h = h
new_stage-runs job target none v h = elim (Bool-cases (is_running target)) [
  | inl e ↦ rw e e
  | inr e ↦ rw e v.stage_runs
]

final_status-move :
    (from to : JobStatus) (pending : Option ℕ)
    → is_terminal from ≡ false
    → is_valid_transition from to ≡ true
    → (final_status to pending ≡ from)
      ⊎ (is_valid_transition from (final_status to pending) ≡ true)
      ⊎ ((is_terminal from ≡ false) × (final_status to pending ≡ cancelled))
unfolding final_status
final_status-move from to pending live allowed = elim (Bool-cases (cancel_landed to pending)) [
  | inl e ↦ rw e (inr (inr (live, refl)))
  | inr e ↦ rw e (inr (inl allowed))
]

-- A state that is reached by a transition is not QUEUED.
pub never_queued : (from : JobStatus) → is_valid_transition from queued ≡ false
unfolding is_valid_transition
never_queued queued = refl
never_queued fetching_metadata = refl
never_queued _ = refl

not_queued : (from to : JobStatus) → is_valid_transition from to ≡ true → same to queued ≡ false
not_queued from to h = elim (Bool-cases (same to queued)) [
  | inl e ↦
      let t : is_valid_transition from queued ≡ true = rw (same→eq to queued e) at h in
      cc (t, never_queued from)
  | inr e ↦ e
]

final_status_not_queued :
    (from to : JobStatus) (pending : Option ℕ)
    → is_valid_transition from to ≡ true
    → same (final_status to pending) queued ≡ false
unfolding final_status
final_status_not_queued from to pending allowed = elim (Bool-cases (cancel_landed to pending)) [
  | inl e ↦ rw e (unfold same in refl)
  | inr e ↦ rw e (not_queued from to allowed)
]

-- Parking is consumed by a pending cancellation.
final_status_parked :
    (to : JobStatus) (pending : Option ℕ)
    → final_status to pending ≡ waiting_for_model
    → pending ≡ none
unfolding final_status cancel_landed
final_status_parked to none h = refl
final_status_parked to (some t) h = elim (Bool-cases (same to waiting_for_model)) [
  | inl e ↦ let k : cancelled ≡ waiting_for_model = rw e at h in cc k
  | inr e ↦ let k : to ≡ waiting_for_model = rw e at h in cc (e, k, same_self waiting_for_model)
]

lease_after :
    (released : Bool) (o : Option String) (t : ℕ)
    → is_some o ≡ true
    → is_some (if released then none else o) ≡ is_some (if released then none else some t)
lease_after true o t h = refl
lease_after false o t h = h

unowned_after :
    (target : JobStatus) (t : ℕ)
    → same target queued ≡ false
    → is_unowned target ≡ true
    → (if is_terminal target || same target waiting_for_model then none else some t) ≡ none
unfolding is_unowned
unowned_after target t q h = ground arith

unowned_ended :
    (target : JobStatus) (t : ℕ)
    → same target queued ≡ false
    → same target waiting_for_model ≡ false
    → is_unowned target ≡ true
    → (if is_terminal target then none else some t) ≡ none
unfolding is_unowned
unowned_ended target t q w h = ground arith

pub advanced-RowStep :
    (job : Job) (owner : String) (to_status : JobStatus) (pending : Option ℕ)
    (now lease_seconds : ℕ) (stage : Option JobStatus) (progress : Option ℕ) (r : Job)
    → IsValid job
    → runs_stage stage ≡ true
    → is_valid_transition job.status to_status ≡ true
    → (pending ≡ none → r.cancel_requested_at ≡ none)
    → owned_row job owner now r ≡ true
    → RowStep r (advanced job to_status pending now lease_seconds stage progress r)
unfolding advanced
advanced-RowStep job owner to_status pending now lease_seconds stage progress r vj runs allowed
      uncancelled h v =
    let target = final_status to_status pending in
    let same_as = (owned_status job owner now r h).0 in
    let held = holder_is_live owner now r v (owned_status job owner now r h).1 in
    let from : is_valid_transition r.status to_status ≡ true = rw same_as allowed in
    (
      record {
        attempts = v.attempts;
        lease_pair = lease_after _ r.lease_owner (now + lease_seconds) held.1;
        unowned =
            unowned_after target (now + lease_seconds)
              (final_status_not_queued job.status to_status pending allowed);
        stage_runs = new_stage-runs job target stage vj runs;
        parked_uncancelled = λ e. uncancelled (final_status_parked to_status pending e);
      },
      Moves-live r (advanced job to_status pending now lease_seconds stage progress r) refl refl
          refl (omega arith) held.0 (final_status-move r.status to_status pending held.0 from),
    )

-- Parking by `commit_artifact_and_advance` is left out: it would leave the lease and the pending
-- cancellation as they are.
pub committed-RowStep :
    (job : Job) (owner : String) (to_status : JobStatus) (now lease_seconds : ℕ)
    (progress : Option ℕ) (r : Job)
    → IsValid job
    → same to_status waiting_for_model ≡ false
    → is_valid_transition job.status to_status ≡ true
    → owned_row job owner now r ≡ true
    → RowStep r (committed job to_status now lease_seconds progress r)
unfolding committed new_stage
committed-RowStep job owner to_status now lease_seconds progress r vj parks allowed h v =
    let same_as = (owned_status job owner now r h).0 in
    let held = holder_is_live owner now r v (owned_status job owner now r h).1 in
    (
      record {
        attempts = v.attempts;
        lease_pair = lease_after _ r.lease_owner (now + lease_seconds) held.1;
        unowned =
            unowned_ended to_status (now + lease_seconds) (not_queued job.status to_status allowed)
              parks;
        stage_runs = new_stage-runs job to_status none vj (unfold runs_stage in refl);
        parked_uncancelled = λ e. cc (parks, e, same_self waiting_for_model);
      },
      Moves-live r (committed job to_status now lease_seconds progress r) refl refl refl
          (omega arith) held.0 (inr (inl (rw same_as allowed))),
    )
