-- ===== src/Checks/JobQueue.antt =====
-- The theorems of Storage on the sample queue.
use mathlib.Core.Bool.{false≢true}
use evoblue_video_mcp.Prelude.{
  ◌≤◌, true, false, none, some, String, [], All, ◌≡◌, ◌≢◌, refl, eq_iff,
}
use evoblue_video_mcp.Outcome.{ok}
use evoblue_video_mcp.Sql.Memory.{memory, memory-IsLawful}
use evoblue_video_mcp.Jobs.States.{cleaning_transcript, retry_wait, cancelled, same, is_terminal}
use evoblue_video_mcp.Jobs.Transitions.{is_running, is_valid_transition}
use evoblue_video_mcp.Storage.Models.{Job}
use evoblue_video_mcp.Storage.Session.{get, holds_lease}
use evoblue_video_mcp.Storage.Claims.{is_claimable, claimable_where, claim_job, claim_next_job}
use evoblue_video_mcp.Storage.Leases.{mark_failure, mark_cancelled, renew_lease}
use evoblue_video_mcp.Storage.Sweeps.{
  fail_exhausted_retries, recover_stale_jobs, request_cancellation,
}
use evoblue_video_mcp.Storage.Artifacts.{Queue}
use evoblue_video_mcp.Storage.Invariant.{IsConsistent}
use evoblue_video_mcp.Storage.Results.{mark_failure_result, mark_cancelled_result}
use evoblue_video_mcp.Storage.Claiming.{claimable_where-eq, Claims}
use evoblue_video_mcp.Storage.Fencing.{fenced}
use evoblue_video_mcp.Storage.Recovery.{
  lease_exclusive, none_stranded, recovered_leases_are-IsLive, request_cancellation_result,
  CanRestart, IsLive,
}
use evoblue_video_mcp.Storage.History.{
  Reaches, here, next, request_cancel, claim_next, recover, reached-IsConsistent, job_history,
  finished_is_final,
}
use evoblue_video_mcp.Checks.Samples.{
  waiting, transcribed, finished, table, queue, empty_queue, table-IsConsistent,
}

read_a : get memory "a" table ≡ some transcribed
unfolding get
read_a = refl

-- A transient error of the transcription waits for a retry at 110.
mark_failure_result_example :
    (mark_failure memory "a" "w1" 50 "NETWORK" true (some 110) none table).0
    ≡ ok (record transcribed {
      status = retry_wait;
      error_code = some "NETWORK";
      error_detail = none;
      retryable = true;
      next_retry_at = some 110;
      lease_owner = none;
      lease_expires_at = none;
      updated_at = 50;
    })
unfolding is_valid_transition holds_lease
mark_failure_result_example =
    (mark_failure_result memory memory-IsLawful "a" transcribed table table-IsConsistent read_a "w1"
      50 "NETWORK" true (some 110) none).0

-- The holder of the lease lands the cancellation.
mark_cancelled_result_example :
    (mark_cancelled memory "a" "w1" 50 table).0
    ≡ ok (record transcribed {
      status = cancelled;
      error_code = some "CANCELLED_BY_USER";
      lease_owner = none;
      lease_expires_at = none;
      updated_at = 50;
    })
unfolding holds_lease
mark_cancelled_result_example =
    (mark_cancelled_result memory memory-IsLawful "a" transcribed table table-IsConsistent read_a
      "w1" 50).0

claimable_where-eq_example : claimable_where 100 transcribed ≡ true
unfolding is_claimable same is_terminal
claimable_where-eq_example = claimable_where-eq 100 transcribed

fenced_example : (renew_lease memory "a" "w2" 50 30 table) ≡ (ok false, table)
unfolding holds_lease
fenced_example =
    (fenced memory memory-IsLawful "a" transcribed table table-IsConsistent read_a "w2" 50 refl
      cleaning_transcript 30 none none "E" false none none "p" "m" "v" none).4

other_name : ◌≢◌ {A = String} "w2" "w1"
other_name e = false≢true ((eq_iff "w2" "w1").1 e)

lease_exclusive_example :
    (claim_job memory "a" "w2" 30 50 table ≡ (ok none, table))
    × (holds_lease "w2" 50 transcribed ≡ false)
unfolding is_running holds_lease
lease_exclusive_example =
    lease_exclusive memory memory-IsLawful "a" "w1" "w2" transcribed 50 30 table table-IsConsistent
      read_a refl refl other_name

none_stranded_example : All (CanRestart 200) (fail_exhausted_retries memory 50 table).1
none_stranded_example = none_stranded memory memory-IsLawful 50 200 table

recovered_leases_are-IsLive_example : All (IsLive 120) (recover_stale_jobs memory 120 table).1
recovered_leases_are-IsLive_example = recovered_leases_are-IsLive memory memory-IsLawful 120 table

read_b : get memory "b" table ≡ some waiting
unfolding get
read_b = refl

-- A queued job is cancelled at once.
request_cancellation_result_example :
    (request_cancellation memory "b" 60 table).0
    ≡ ok (
        some (record waiting {
          status = cancelled;
          cancel_requested_at = some 60;
          error_code = some "CANCELLED_BY_USER";
          retryable = false;
          next_retry_at = none;
          lease_owner = none;
          lease_expires_at = none;
          updated_at = 60;
        }))
unfolding same
request_cancellation_result_example =
    (request_cancellation_result memory memory-IsLawful "b" waiting table table-IsConsistent read_b
      60).0

abbrev after_run : Queue memory
after_run = record queue {
  jobs =
      (recover_stale_jobs memory 120
        (claim_next_job memory "w2" 30 100 (request_cancellation memory "b" 60 table).1).1).1;
}

-- A run: the user cancels "b", a worker takes over "a", and the recovery runs.
run : Reaches memory queue after_run
run = next (next (next here (request_cancel "b" 60)) (claim_next "w2" 30 100)) (recover 120)

reached-IsConsistent_example :
    IsConsistent (request_cancellation memory "b" 60 (recover_stale_jobs memory 120 []).1).1
reached-IsConsistent_example =
    reached-IsConsistent memory memory-IsLawful empty_queue
      (record empty_queue {
        jobs = (request_cancellation memory "b" 60 (recover_stale_jobs memory 120 []).1).1;
      })
      refl (next (next here (recover 120)) (request_cancel "b" 60))

job_history_example :
    (y : Job) × (get memory "a" after_run.jobs ≡ some y)
    × (y.max_attempts ≡ 3)
    × (1 ≤ y.attempt)
    × (y.attempt ≤ y.max_attempts)
job_history_example =
    job_history memory memory-IsLawful queue after_run "a" transcribed table-IsConsistent read_a run

read_c : get memory "c" table ≡ some finished
unfolding get
read_c = refl

finished_is_final_example : get memory "c" after_run.jobs ≡ some finished
unfolding is_terminal
finished_is_final_example =
    finished_is_final memory memory-IsLawful queue after_run "c" finished table-IsConsistent read_c
      refl run
