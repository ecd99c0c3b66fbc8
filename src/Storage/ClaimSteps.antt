-- ===== src/Storage/ClaimSteps.antt =====
-- The UPDATE of `claim_job` at a row that its WHERE admits.
use evoblue_video_mcp.Prelude.{
  ℕ, ◌+◌, ◌≤◌, true, false, ◌⊎◌, inl, inr, Option, none, some, String, get_or, ◌≡◌, ◌≢◌, refl, ap,
  arith,
}
use evoblue_video_mcp.Jobs.States.{
  JobStatus, fetching_metadata, waiting_for_model, same, is_terminal,
}
use evoblue_video_mcp.Jobs.Transitions.{is_running, is_valid_transition}
use evoblue_video_mcp.Jobs.Facts.{running-Runs, state_kinds}
use evoblue_video_mcp.Storage.Models.{Job}
use evoblue_video_mcp.Storage.Claims.{is_claimable, claim_status, claimed}
use evoblue_video_mcp.Storage.Invariant.{IsValid, is_unowned, runs_stage}
use evoblue_video_mcp.Storage.Rules.{RowStep}
use evoblue_video_mcp.Storage.RowSteps.{Moves-live}

running_is_owned : (s : JobStatus) → is_running s ≡ true → is_unowned s ≡ false
unfolding is_unowned
running_is_owned s h = let f = running-Runs s h in rw (f.live, f.not_queued, f.not_waiting)

running_not_waiting : (s : JobStatus) → is_running s ≡ true → s ≢ waiting_for_model
unfolding is_running
running_not_waiting s h e = cc (h, ap is_running e)

claimable_is_live : (now : ℕ) (r : Job) → is_terminal r.status ≡ true → is_claimable now r ≡ false
unfolding is_claimable
claimable_is_live now r t = ground arith

-- the stage that a claim enters from a status
pub record Enters (from target : JobStatus) (stage : Option JobStatus) : Type 0 where
  pub runs : is_running target ≡ true
  pub named : stage ≡ some target
  pub allowed : (target ≡ from) ⊎ (is_valid_transition from target ≡ true)
  pub live : is_terminal from ≡ false

resumed_stage :
    (o : Option JobStatus) → runs_stage o ≡ true → is_running (get_or o fetching_metadata) ≡ true
unfolding runs_stage is_running
resumed_stage none h = refl
resumed_stage (some s) h = h

pub claim_status-Enters :
    (now : ℕ) (r : Job)
    → IsValid r
    → r.status ≢ waiting_for_model
    → is_claimable now r ≡ true
    → Enters r.status (claim_status r).0 (claim_status r).1
unfolding claim_status
claim_status-Enters now r v parked h = elim (state_kinds r.status) [
  | inl terminal ↦ absurd (finished terminal)
  | inr (inl running) ↦
      let f = running-Runs r.status running in
      rw (f.not_queued, f.not_retry)
        (record { runs = running; named = refl; allowed = inl refl; live = f.live })
  | inr (inr (inl e)) ↦ rw e (
      unfold is_running is_valid_transition is_terminal same in
      (record { runs = refl; named = refl; allowed = inr refl; live = refl }))
  | inr (inr (inr (inl e))) ↦
      let runs = resumed_stage r.stage v.stage_runs in
      let f = running-Runs (get_or r.stage fetching_metadata) runs in
      rw e (
        unfold is_terminal same in
        (record { runs = runs; named = refl; allowed = inr f.resumes; live = refl }))
  | inr (inr (inr (inr e))) ↦ absurd (parked e)
]
  where
    finished : is_terminal r.status ≡ true → ⊥
    finished t = cc (h, claimable_is_live now r t)

claim_has_attempts :
    (now : ℕ) (r : Job) → is_claimable now r ≡ true → r.attempt + 1 ≤ r.max_attempts
unfolding is_claimable
claim_has_attempts now r h = ground arith

pub claimed-RowStep :
    (owner : String) (lease_seconds now : ℕ) (r : Job)
    → r.status ≢ waiting_for_model
    → is_claimable now r ≡ true
    → RowStep r (claimed r owner lease_seconds now r)
unfolding claimed
claimed-RowStep owner lease_seconds now r parked h v =
    let enters = claim_status-Enters now r v parked h in
    let target = (claim_status r).0 in
    (
      record {
        attempts = claim_has_attempts now r h;
        lease_pair = refl;
        unowned = λ u. cc (running_is_owned target enters.runs, u);
        stage_runs = rw enters.named (unfold runs_stage in enters.runs);
        parked_uncancelled = λ e. absurd (running_not_waiting target enters.runs e);
      },
      Moves-live r (claimed r owner lease_seconds now r) refl refl refl (omega arith) enters.live
          (elim enters.allowed [ inl e ↦ inl e | inr e ↦ inr (inl e) ]),
    )
