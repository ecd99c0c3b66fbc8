-- ===== src/Runtime/Stage.antt =====
-- What a stage handler of runtime/worker.py gives back, and the columns that it wants displayed.
use evoblue_video_mcp.Prelude.{ℕ, Bool, true, false, Option, none, some, String, str_eq, get_or}
use evoblue_video_mcp.Sql.{Sql}
use evoblue_video_mcp.Jobs.States.{JobStatus}
use evoblue_video_mcp.Storage.Models.{Job, JobArtifact}

pub record ArtifactRecord : Type 0 where
  pub stage : String
  pub artifact_type : String
  pub input_fingerprint : String
  pub schema_version : ℕ
  pub storage_kind : String
  pub payload_json : Option String
  pub relative_path : Option String
  pub content_hash : Option String
  pub byte_size : Option ℕ

-- `display_update`: for each column the value that the dictionary gives it, if it has the key
pub record Display : Type 0 where
  pub title : Option (Option String)
  pub platform : Option (Option String)
  pub subtitle_probe : Option (Option String)

pub record StageOutcome : Type 0 where
  pub target : Option JobStatus
  pub progress : Option ℕ
  pub artifact : Option ArtifactRecord
  pub error_code : Option String
  pub error_detail : Option String
  pub retryable : Bool
  pub next_retry_at : Option ℕ
  pub display_update : Option Display

-- `StageOutcome.success`, `transient` and `fatal`
unfoldable pub success :
    JobStatus → Option ℕ → Option ArtifactRecord → Option Display → StageOutcome
success target progress artifact display_update = record {
  target = some target;
  progress = progress;
  artifact = artifact;
  error_code = none;
  error_detail = none;
  retryable = false;
  next_retry_at = none;
  display_update = display_update;
}

unfoldable pub transient : String → Option ℕ → Option String → Option Display → StageOutcome
transient error_code next_retry_at error_detail display_update = record {
  target = none;
  progress = none;
  artifact = none;
  error_code = some error_code;
  error_detail = error_detail;
  retryable = true;
  next_retry_at = next_retry_at;
  display_update = display_update;
}

unfoldable pub fatal : String → Option String → Option Display → StageOutcome
fatal error_code error_detail display_update = record {
  target = none;
  progress = none;
  artifact = none;
  error_code = some error_code;
  error_detail = error_detail;
  retryable = false;
  next_retry_at = none;
  display_update = display_update;
}

-- `handler.execute` returns, or raises an exception of that type
pub data Executed : Type 0 where
  returned : StageOutcome → Executed
  raised : String → Executed

-- the row that `commit_artifact_and_advance` registers
unfoldable pub artifact_row : ArtifactRecord → ℕ → String → ℕ → JobArtifact
artifact_row a id job_id now = record {
  id = id;
  job_id = job_id;
  stage = a.stage;
  artifact_type = a.artifact_type;
  input_fingerprint = a.input_fingerprint;
  schema_version = a.schema_version;
  storage_kind = a.storage_kind;
  payload_json = a.payload_json;
  relative_path = a.relative_path;
  content_hash = a.content_hash;
  byte_size = a.byte_size;
  created_at = now;
  updated_at = now;
}

-- the values of `_apply_display_update`
unfoldable pub displayed : Display → Job → Job
displayed d row = record row {
  title = get_or d.title row.title;
  platform = get_or d.platform row.platform;
  subtitle_probe = get_or d.subtitle_probe row.subtitle_probe;
}

module _ (S : Sql) where
  -- `_apply_display_update`
  unfoldable pub apply_display_update : String → Option Display → S.Table Job → S.Table Job
  unfolding displayed
  apply_display_update job_id none t = t
  apply_display_update job_id (some d) t =
      (S.update (λ row. str_eq row.job_id job_id) (displayed d) t).0
