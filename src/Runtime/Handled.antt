-- ===== src/Runtime/Handled.antt =====
-- What the rounds of the worker rely on in its stage handlers, and a round after a handler.
use evoblue_video_mcp.Prelude.{
  ℕ, ◌||◌, Bool, true, false, not, ◌⊎◌, inl, inr, Option, none, some, String, str_eq, is_none,
  Bool-cases, Option-cases, ◌≡◌, refl, ◌∙◌, arith,
}
use evoblue_video_mcp.Sql.{Sql, IsLawful}
use evoblue_video_mcp.Jobs.States.{JobStatus, waiting_for_model, same, same→eq}
use evoblue_video_mcp.Jobs.Transitions.{is_running}
use evoblue_video_mcp.Storage.Models.{Job}
use evoblue_video_mcp.Storage.Session.{get, holds_lease}
use evoblue_video_mcp.Storage.Artifacts.{Queue}
use evoblue_video_mcp.Storage.Invariant.{IsConsistent}
use evoblue_video_mcp.Runtime.Stage.{
  Display, StageOutcome, Executed, returned, raised, artifact_row, displayed,
}
use evoblue_video_mcp.Runtime.Worker.{Handlers, advancing, report_success}
use evoblue_video_mcp.Runtime.Follows.{Follows}
use evoblue_video_mcp.Runtime.Rounds.{IsRound, seen}
use evoblue_video_mcp.Runtime.Success.{parks_no_artifact, advance-IsRound, commit-IsRound}

-- a job that a stage with an artifact parks would keep a pending cancellation, see `committed`
unfoldable pub parks_bare : Executed → Bool
unfolding parks_no_artifact
parks_bare (returned o) = parks_no_artifact o
parks_bare (raised type_name) = true

seen_lease :
    (owner : String) (now : ℕ) (k : String) (o : Option Display) (j : Job)
    → holds_lease owner now (seen k o j) ≡ holds_lease owner now j
unfolding displayed holds_lease
seen_lease owner now k none j = refl
seen_lease owner now k (some d) j = elim (Bool-cases (str_eq j.job_id k)) [
  | inl e ↦ rw e refl
  | inr e ↦ rw e refl
]

module _ (S : Sql) (owner : String) where
  -- the job is in the state `s` still, or the worker's lease on it is gone
  unfoldable pub kept_or_lost : JobStatus → ℕ → Option Job → Bool
  kept_or_lost s now none = true
  kept_or_lost s now (some row) = same row.status s || not (holds_lease owner now row)

  -- What a handler and those who change the queue while it runs have to keep.
  pub record IsTame (execute : Job → Queue S → Executed × Queue S) : Type 0 where
    pub follows : (job : Job) (q : Queue S) → Follows S q.jobs (execute job q).1.jobs
    pub steady :
        (job : Job) (q : Queue S) (now : ℕ)
        → get S job.job_id q.jobs ≡ some job
        → kept_or_lost job.status now (get S job.job_id (execute job q).1.jobs) ≡ true
    pub parks : (job : Job) (q : Queue S) → parks_bare (execute job q).0 ≡ true

  abbrev pub HandlesStage : JobStatus → Option (Job → Queue S → Executed × Queue S) → Type 0
  HandlesStage s none = Unit {0}
  HandlesStage s (some execute) = (is_running s ≡ true) × IsTame execute

  -- each handler is for a state in which a job runs
  abbrev pub IsTable : Handlers S → Type 0
  IsTable handlers = (s : JobStatus) → HandlesStage s (handlers s)

module _ (S : Sql) (L : IsLawful S) (owner : String) (lease_seconds : ℕ)
    (clock next_id : ℕ → ℕ) where
  steady_seen :
      (s : JobStatus) (now : ℕ) (k : String) (d : Option Display) (row : Job)
      → kept_or_lost S owner s now (some row) ≡ true
      → (row.status ≡ s) ⊎ (holds_lease owner now (seen k d row) ≡ false)
  unfolding kept_or_lost
  steady_seen s now k d row h = elim (Bool-cases (same row.status s)) [
    | inl e ↦ inl (same→eq row.status s e)
    | inr e ↦ inr (seen_lease owner now k d row ∙ lacks (rw e at h))
  ]
    where
      lacks : (not (holds_lease owner now row)) ≡ true → holds_lease owner now row ≡ false
      lacks g = ground arith

  pub report_success-IsRound :
      (tick : ℕ) (k : String) (o : StageOutcome) (target : JobStatus) (q : Queue S) (job : Job)
      (s : JobStatus)
      → IsConsistent (S.rows q.jobs)
      → get S k q.jobs ≡ some job
      → is_running s ≡ true
      → ((now : ℕ) → kept_or_lost S owner s now (some job) ≡ true)
      → (is_none o.artifact || not (same target waiting_for_model)) ≡ true
      → IsRound S q.jobs k s
          (advancing S (report_success S owner lease_seconds clock next_id tick k o target q))
  unfolding report_success
  report_success-IsRound tick k o target q job s c found runs steady bare =
      let here = steady_seen s (clock tick) k o.display_update job (steady (clock tick)) in
      elim (Option-cases o.artifact) [
        | inl e ↦
            rw (e, report_success)
              (advance-IsRound S L owner lease_seconds (clock tick) k o.display_update target
                o.progress q job s c found runs here)
        | inr (a, e) ↦
            let b : not (same target waiting_for_model) ≡ true = rw e at bare in
            rw (e, report_success)
              (commit-IsRound S L owner lease_seconds (clock tick) k o.display_update target
                o.progress (artifact_row a (next_id tick) k (clock tick)) q job s c found runs here
                (not_parked b))
      ]
    where
      not_parked :
          (not (same target waiting_for_model)) ≡ true → same target waiting_for_model ≡ false
      not_parked g = ground arith
