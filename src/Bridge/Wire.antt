-- ===== src/Bridge/Wire.antt =====
-- mcp/listing.py: the rows of the engine's list pages, and what the bridge makes of them. Pydantic's
-- validation of a row is an argument where it is used.
use evoblue_video_mcp.Prelude.{
  ℕ, Option, none, some, List, String, str_eq, first, leb, if◌then◌else◌,
}
use evoblue_video_mcp.Jobs.States.{JobStatus, completed, value}
use evoblue_video_mcp.Jobs.Transitions.{all_states}

-- `_WireJobRow`
pub record WireJobRow : Type 0 where
  pub job_id : String
  pub status : String
  pub progress : ℕ
  pub created_at : ℕ
  pub stage : Option String
  pub error_code : Option String
  pub title : Option String
  pub platform : Option String
  pub url : Option String

-- `_WireHistoryRow`
pub record WireHistoryRow : Type 0 where
  pub job_id : String
  pub analysis_id : String
  pub title : String
  pub platform : String
  pub author : String
  pub video_id : String
  pub source_url : String
  pub published_at : Option ℕ
  pub analyzed_at : ℕ
  pub language : String
  pub summary_mode : String
  pub asr_provider : String
  pub asr_model : String
  pub asr_model_version : String
  pub tags : List String
  pub summary_preview : String
  pub file_path : String
  pub content_hash : String
  pub doc_status : String
  pub indexed_at : ℕ

-- `_WireUnifiedRow`
pub record WireUnifiedRow : Type 0 where
  pub kind : String
  pub job_id : String
  pub status : String
  pub progress : ℕ
  pub stage : Option String
  pub error_code : Option String
  pub created_at : Option ℕ
  pub title : Option String
  pub platform : Option String
  pub url : Option String

-- `AnalysisJobListItem` of mcp/schemas.py
pub record AnalysisJobListItem : Type 0 where
  pub job_id : String
  pub title : Option String
  pub platform : Option String
  pub status : JobStatus
  pub progress : Option ℕ
  pub error_code : Option String
  pub url : Option String

-- `ListAnalysisJobsOutput` of mcp/schemas.py; the bridge's callers give limits from 1 to 100
pub record ListAnalysisJobsOutput : Type 0 where
  pub items : List AnalysisJobListItem
  pub limit : ℕ
  pub offset : ℕ
  pub total : ℕ

-- `JobStatus(text)`, none for a ValueError
unfoldable pub parse_status : String → Option JobStatus
unfolding value all_states
parse_status text = first (λ s. str_eq (value s) text) all_states

-- `AnalysisJobListItem(...)` with `Field(ge=0, le=100)` on the progress
unfoldable pub list_item :
    String
    → Option String
    → Option String
    → JobStatus
    → ℕ
    → Option String
    → Option String
    → Option AnalysisJobListItem
list_item job_id title platform status progress error_code url =
    if leb progress 100
    then some (record {
      job_id = job_id;
      title = title;
      platform = platform;
      status = status;
      progress = some progress;
      error_code = error_code;
      url = url;
    })
    else none

-- `_mcp_job`, for both kinds of rows
unfoldable pub mcp_job :
    String
    → String
    → ℕ
    → Option String
    → Option String
    → Option String
    → Option String
    → Option AnalysisJobListItem
unfolding parse_status list_item
mcp_job job_id status progress error_code title platform url = elim (parse_status status) [
  | none ↦ none
  | some s ↦ list_item job_id title platform s progress error_code url
]

-- `_mcp_history_item`
unfoldable pub mcp_history_item :
    String → Option String → Option String → Option String → Option AnalysisJobListItem
unfolding list_item
mcp_history_item job_id title platform url = list_item job_id title platform completed 100 none url
