-- ===== src/Checks/Working.antt =====
-- A worker with two stage handlers on the sample queue.
use mathlib.Core.Path.{subst}
use evoblue_video_mcp.Prelude.{ℕ, ◌+◌, true, ◌⊎◌, none, some, ◌≡◌, refl, sym, arith}
use evoblue_video_mcp.Sql.Memory.{memory, memory-IsLawful}
use evoblue_video_mcp.Jobs.States.{
  queued, fetching_metadata, fetching_subtitles, downloading_audio, transcribing, waiting_for_model,
  cleaning_transcript, chunking, summarizing_chunks, generating_report, indexing, retry_wait,
  completed, failed, cancelled, same_self,
}
use evoblue_video_mcp.Jobs.Transitions.{is_running}
use evoblue_video_mcp.Storage.Models.{Job}
use evoblue_video_mcp.Storage.Artifacts.{Queue}
use evoblue_video_mcp.Runtime.Stage.{Executed, returned, success, fatal}
use evoblue_video_mcp.Runtime.Worker.{Handlers}
use evoblue_video_mcp.Runtime.Follows.{Follows-refl}
use evoblue_video_mcp.Runtime.Success.{parks_no_artifact}
use evoblue_video_mcp.Runtime.Handled.{parks_bare, kept_or_lost, IsTame, IsTable}
use evoblue_video_mcp.Runtime.Runs.{Rests, Drives, run_worker_once_ends}
use evoblue_video_mcp.Checks.Samples.{queue, table-IsConsistent}

-- a handler that leaves the queue to others, who leave it alone
abbrev answer : Executed → Job → Queue memory → Executed × Queue memory
answer x job q = (x, q)

answer-IsTame : (x : Executed) → parks_bare x ≡ true → IsTame memory "w2" (answer x)
answer-IsTame x bare = record {
  follows = λ job q. Follows-refl memory q.jobs;
  steady = λ job q now found.
      subst (λ o. kept_or_lost memory "w2" job.status now o ≡ true) (sym found)
        (unfold kept_or_lost in rw (same_self job.status) refl);
  parks = λ job q. bare;
}

abbrev found : Executed
found = returned (success fetching_subtitles (some 10) none none)

abbrev gone : Executed
gone = returned (fatal "VIDEO_UNAVAILABLE" none none)

abbrev handlers : Handlers memory
handlers fetching_metadata = some (answer found)
handlers fetching_subtitles = some (answer gone)
handlers s = none

table : IsTable memory "w2" handlers
unfolding is_running parks_bare parks_no_artifact success fatal
table queued = tt
table fetching_metadata = (refl, answer-IsTame found refl)
table fetching_subtitles = (refl, answer-IsTame gone refl)
table downloading_audio = tt
table transcribing = tt
table waiting_for_model = tt
table cleaning_transcript = tt
table chunking = tt
table summarizing_chunks = tt
table generating_report = tt
table indexing = tt
table retry_wait = tt
table completed = tt
table failed = tt
table cancelled = tt

abbrev clock : ℕ → ℕ
clock n = 50 + n

-- Worker "w2" takes job "b" over two stages, the second of which fails.
run_worker_once_ends_example :
    Rests memory memory-IsLawful "w2" 30 clock clock handlers 15 queue
    ⊎ ((c : Job) × Drives memory memory-IsLawful "w2" 30 clock clock handlers 15 queue c)
run_worker_once_ends_example =
    run_worker_once_ends memory memory-IsLawful "w2" 30 clock clock handlers 15 queue table
      (omega arith) table-IsConsistent
