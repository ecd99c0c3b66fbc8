-- ===== src/Storage/Models.antt =====
-- The tables of storage/models.py that the job queue uses. A text column that holds the value of an
-- enumeration is that enumeration, and a point in time is a whole number of clock ticks.
use evoblue_video_mcp.Prelude.{ℕ, Bool, Option, String}
use evoblue_video_mcp.Jobs.States.{JobStatus}

pub record Job : Type 0 where
  pub id : ℕ
  pub job_id : String
  pub request_fingerprint : String
  pub url : String
  pub mode : String
  pub asr : String
  pub language : Option String
  pub asr_provider_id : Option String
  pub asr_model_id : Option String
  pub asr_model_version : Option String
  pub asr_recommendation_model_id : Option String
  pub config_fingerprint : String
  pub title : Option String
  pub platform : Option String
  pub subtitle_probe : Option String
  pub status : JobStatus
  pub stage : Option JobStatus
  pub progress : ℕ
  pub attempt : ℕ
  pub max_attempts : ℕ
  pub lease_owner : Option String
  pub lease_expires_at : Option ℕ
  pub cancel_requested_at : Option ℕ
  pub next_retry_at : Option ℕ
  pub error_code : Option String
  pub error_detail : Option String
  pub retryable : Bool
  pub created_at : ℕ
  pub updated_at : ℕ

pub record JobArtifact : Type 0 where
  pub id : ℕ
  pub job_id : String
  pub stage : String
  pub artifact_type : String
  pub input_fingerprint : String
  pub schema_version : ℕ
  pub storage_kind : String
  pub payload_json : Option String
  pub relative_path : Option String
  pub content_hash : Option String
  pub byte_size : Option ℕ
  pub created_at : ℕ
  pub updated_at : ℕ
