-- ===== src/Runtime/Worker.antt =====
-- `run_worker_once` of runtime/worker.py. A handler is a function of the job and the queue, since
-- heartbeats, requests and other workers change the queue while it runs; `clock` gives the readings of
-- `now()` in their order, and the database gives each artifact its primary key.
use Prim.Native.String
use evoblue_video_mcp.Prelude.{
  ℕ, zero, suc, ◌+◌, Bool, false, ◌&&◌, Option, none, some, String, is_none, if◌then◌else◌,
}
use evoblue_video_mcp.Outcome.{Outcome, ok, err}
use evoblue_video_mcp.Sql.{Sql}
use evoblue_video_mcp.Jobs.States.{JobStatus, waiting_for_model, same, is_terminal, value}
use evoblue_video_mcp.Storage.Models.{Job}
use evoblue_video_mcp.Storage.Session.{get, equals}
use evoblue_video_mcp.Storage.Claims.{claim_next_job}
use evoblue_video_mcp.Storage.Leases.{advance_job, mark_failure, mark_cancelled}
use evoblue_video_mcp.Storage.Artifacts.{Queue, commit_artifact_and_advance}
use evoblue_video_mcp.Runtime.Stage.{
  Display, StageOutcome, Executed, returned, raised, artifact_row, apply_display_update,
}

-- one round of the loop breaks or raises, or goes on with the job that it advanced
pub data Round (S : Sql) : Type 0 where
  stop : Outcome (Unit {0}) → Queue S → Round S
  go_on : Job → Queue S → Round S

-- `handlers.get(status)`
abbrev pub Handlers : Sql → Type 0
Handlers S = JobStatus → Option (Job → Queue S → Executed × Queue S)

-- `next_retry_at`, with its default
unfoldable pub retry_time : StageOutcome → ℕ → Option ℕ
retry_time o now =
    if is_none o.next_retry_at && o.retryable then some (now + 60) else o.next_retry_at

module _ (S : Sql) where
  -- the block of `immediate_write_transaction`: committed if it returns, rolled back if it raises
  unfoldable pub transaction {ℓ} :
      {A : Type ℓ} → Queue S → Outcome A × S.Table Job → Outcome A × Queue S
  transaction q (ok a, t) = (ok a, record q { jobs = t })
  transaction q (err e, t) = (err e, q)

  unfoldable pub rolled_back : Queue S → Outcome Job × Queue S → Outcome Job × Queue S
  rolled_back q (ok job, r) = (ok job, r)
  rolled_back q (err e, r) = (err e, q)

  -- a write after which the loop breaks
  unfoldable pub ending : Outcome Job × Queue S → Round S
  ending (ok job, q) = stop (ok tt) q
  ending (err e, q) = stop (err e) q

  -- a write after which the loop goes on, unless the job is parked
  unfoldable pub advancing : Outcome Job × Queue S → Round S
  advancing (ok job, q) = if same job.status waiting_for_model then stop (ok tt) q else go_on job q
  advancing (err e, q) = stop (err e) q

module _ (S : Sql) (owner : String) (lease_seconds : ℕ) (clock next_id : ℕ → ℕ) where
  -- `mark_failure` after the display update, in one transaction
  unfoldable pub report_failure :
      ℕ
      → String
      → Option Display
      → String
      → Bool
      → Option ℕ
      → Option String
      → Queue S
      → Outcome Job × Queue S
  unfolding transaction apply_display_update mark_failure
  report_failure now job_id display error_code retryable next_retry_at error_detail q =
      transaction S q (
        mark_failure S job_id owner now error_code retryable next_retry_at error_detail
          (apply_display_update S job_id display q.jobs))

  -- the success of a stage, in one transaction
  unfoldable pub report_success :
      ℕ → String → StageOutcome → JobStatus → Queue S → Outcome Job × Queue S
  unfolding transaction rolled_back apply_display_update advance_job commit_artifact_and_advance
      artifact_row
  report_success tick job_id o target q =
      let t = apply_display_update S job_id o.display_update q.jobs in
      elim o.artifact [
        | none ↦
            transaction S q
              (advance_job S job_id owner target (clock tick) lease_seconds none o.progress t)
        | some a ↦ rolled_back S q (
            commit_artifact_and_advance S job_id owner target (clock tick) lease_seconds
              (artifact_row a (next_id tick) job_id (clock tick)) o.progress
              (record q { jobs = t }))
      ]

  -- what the loop does with the outcome of a handler; the reading of the clock for `retry_time` is passed
  -- over where the code takes none
  unfoldable pub after_stage : ℕ → String → StageOutcome → Queue S → Round S
  unfolding ending advancing transaction report_failure report_success mark_cancelled retry_time
  after_stage tick job_id o q =
      if equals o.error_code "CANCELLED_BY_USER"
      then ending S (transaction S q (mark_cancelled S job_id owner (clock tick) q.jobs))
      else elim o.error_code [
        | some code ↦ ending S (
            report_failure (clock (suc tick)) job_id o.display_update code o.retryable
              (retry_time o (clock tick)) o.error_detail q)
        | none ↦ elim o.target [
          | none ↦ ending S (
              report_failure (clock tick) job_id o.display_update "INTERNAL_ERROR" false none
                (some "handler returned no target") q)
          | some target ↦ advancing S (report_success tick job_id o target q)
        ]
      ]

  unfoldable pub after_handler : ℕ → String → Executed × Queue S → Round S
  unfolding after_stage ending report_failure
  after_handler tick job_id (returned o, q) = after_stage tick job_id o q
  after_handler tick job_id (raised type_name, q) =
      ending S
        (report_failure (clock tick) job_id none "INTERNAL_ERROR" false none (some type_name) q)

  -- one round of the loop
  unfoldable pub round : Handlers S → ℕ → Job → Queue S → Round S
  unfolding after_handler ending report_failure
  round handlers tick job q =
      if is_terminal job.status then stop (ok tt) q else elim (handlers job.status) [
        | none ↦ ending S (
            report_failure (clock tick) job.job_id none "INTERNAL_ERROR" false none
              (some (String.◌++◌ "no handler for stage " (value job.status))) q)
        | some execute ↦ after_handler tick job.job_id (execute job q)
      ]

  -- `while True`, on fuel: none if the rounds do not end
  unfoldable pub rounds : Handlers S → ℕ → ℕ → Job → Queue S → Option (Outcome (Unit {0}) × Queue S)
  unfolding round
  rounds handlers zero tick job q = none
  rounds handlers (suc fuel) tick job q = elim (round handlers tick job q) [
    | stop o r ↦ some (o, r)
    | go_on next r ↦ rounds handlers fuel (suc (suc tick)) next r
  ]

  -- `return await get_job(...)`
  unfoldable pub final_read :
      String → Option (Outcome (Unit {0}) × Queue S) → Option (Outcome (Option Job) × Queue S)
  unfolding get
  final_read job_id none = none
  final_read job_id (some (err e, q)) = some (err e, q)
  final_read job_id (some (ok _, q)) = some (ok (get S job_id q.jobs), q)

  unfoldable pub drive :
      Handlers S
      → ℕ
      → Queue S
      → Outcome (Option Job) × S.Table Job
      → Option (Outcome (Option Job) × Queue S)
  unfolding rounds final_read
  drive handlers fuel q (err e, t) = some (err e, q)
  drive handlers fuel q (ok none, t) = some (ok none, record q { jobs = t })
  drive handlers fuel q (ok (some job), t) =
      final_read job.job_id (rounds handlers fuel 1 job (record q { jobs = t }))

  -- `run_worker_once`
  unfoldable pub run_worker_once :
      Handlers S → ℕ → Queue S → Option (Outcome (Option Job) × Queue S)
  unfolding drive claim_next_job
  run_worker_once handlers fuel q =
      drive handlers fuel q (claim_next_job S owner lease_seconds (clock 0) q.jobs)
