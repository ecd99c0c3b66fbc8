-- ===== src/Checks/Samples.antt =====
-- Sample rows and tables, over the tables in memory.
use evoblue_video_mcp.Prelude.{false, none, some, List, [], ◌∷◌, refl, arith}
use evoblue_video_mcp.Sql.Memory.{memory}
use evoblue_video_mcp.Jobs.States.{queued, transcribing, completed, same, is_terminal}
use evoblue_video_mcp.Jobs.Transitions.{is_running}
use evoblue_video_mcp.Storage.Models.{Job}
use evoblue_video_mcp.Storage.Artifacts.{Queue}
use evoblue_video_mcp.Storage.Invariant.{IsValid, IsConsistent, is_unowned, runs_stage}

-- a job that waits for a worker
abbrev pub waiting : Job
waiting = record {
  id = 2;
  job_id = "b";
  request_fingerprint = "r";
  url = "https://youtu.be/x";
  mode = "auto";
  asr = "auto";
  language = none;
  asr_provider_id = none;
  asr_model_id = none;
  asr_model_version = none;
  asr_recommendation_model_id = none;
  config_fingerprint = "c";
  title = none;
  platform = none;
  subtitle_probe = none;
  status = queued;
  stage = none;
  progress = 0;
  attempt = 0;
  max_attempts = 3;
  lease_owner = none;
  lease_expires_at = none;
  cancel_requested_at = none;
  next_retry_at = none;
  error_code = none;
  error_detail = none;
  retryable = false;
  created_at = 7;
  updated_at = 7;
}

-- a job that worker "w1" transcribes, under a lease until 100
abbrev pub transcribed : Job
transcribed = record waiting {
  id = 1;
  job_id = "a";
  status = transcribing;
  stage = some transcribing;
  attempt = 1;
  lease_owner = some "w1";
  lease_expires_at = some 100;
}

-- a job that is done
abbrev pub finished : Job
finished = record waiting { id = 3; job_id = "c"; status = completed; stage = none; attempt = 1 }

abbrev pub table : List Job
table = transcribed ∷ waiting ∷ finished ∷ []

abbrev pub queue : Queue memory
queue = record { jobs = table; artifacts = [] }

abbrev pub empty_queue : Queue memory
empty_queue = record { jobs = []; artifacts = [] }

transcribed-IsValid : IsValid transcribed
unfolding is_unowned runs_stage is_running is_terminal same
transcribed-IsValid = record {
  attempts = omega arith;
  lease_pair = refl;
  unowned = λ u. cc;
  stage_runs = refl;
  parked_uncancelled = λ e. refl;
}

waiting-IsValid : IsValid waiting
unfolding runs_stage
waiting-IsValid = record {
  attempts = omega arith;
  lease_pair = refl;
  unowned = λ u. refl;
  stage_runs = refl;
  parked_uncancelled = λ e. refl;
}

finished-IsValid : IsValid finished
unfolding runs_stage
finished-IsValid = record {
  attempts = omega arith;
  lease_pair = refl;
  unowned = λ u. refl;
  stage_runs = refl;
  parked_uncancelled = λ e. refl;
}

pub table-IsConsistent : IsConsistent table
table-IsConsistent = (
  (transcribed-IsValid, (waiting-IsValid, (finished-IsValid, tt))),
  ((refl, (refl, tt)), ((refl, tt), (tt, tt))),
)
