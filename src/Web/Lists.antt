-- ===== src/Web/Lists.antt =====
-- web/app.py: the routes /api/jobs and /api/jobs/unified. Each route reads in one transaction, so it is
-- a function of the tables.
use evoblue_video_mcp.Prelude.{
  ℕ, ◌+◌, ◌-◌, min, Bool, true, Option, none, some, List, [], ◌++◌, map, String, length, ltb,
  if◌then◌else◌,
}
use evoblue_video_mcp.Sql.{Sql}
use evoblue_video_mcp.Jobs.States.{JobStatus, completed, value}
use evoblue_video_mcp.Storage.Models.{Job}
use evoblue_video_mcp.Storage.Listing.{list_jobs}
use evoblue_video_mcp.Web.Documents.{ReportDocumentRecord, list_report_documents}

-- the responses of web/schemas.py
pub record JobListItem : Type 0 where
  pub job_id : String
  pub status : String
  pub stage : Option String
  pub progress : ℕ
  pub error_code : Option String
  pub created_at : ℕ
  pub title : Option String
  pub platform : Option String
  pub url : Option String

pub record JobListResponse : Type 0 where
  pub items : List JobListItem
  pub total : ℕ
  pub limit : ℕ
  pub offset : ℕ

pub record UnifiedJobListItem : Type 0 where
  pub kind : String
  pub job_id : String
  pub status : String
  pub progress : ℕ
  pub stage : Option String
  pub error_code : Option String
  pub created_at : Option ℕ
  pub title : Option String
  pub platform : Option String
  pub url : Option String

pub record UnifiedJobListResponse : Type 0 where
  pub items : List UnifiedJobListItem
  pub total : ℕ
  pub jobs_total : ℕ
  pub history_total : ℕ
  pub limit : ℕ
  pub offset : ℕ

-- `job.stage`, a text column
unfoldable pub stage_text : Option JobStatus → Option String
unfolding value
stage_text none = none
stage_text (some s) = some (value s)

-- `_to_list_item`
unfoldable pub to_list_item : Job → JobListItem
unfolding value stage_text
to_list_item job = record {
  job_id = job.job_id;
  status = value job.status;
  stage = stage_text job.stage;
  progress = job.progress;
  error_code = job.error_code;
  created_at = job.created_at;
  title = job.title;
  platform = job.platform;
  url = some job.url;
}

unfoldable pub job_row : Job → UnifiedJobListItem
unfolding value stage_text
job_row job = record {
  kind = "job";
  job_id = job.job_id;
  status = value job.status;
  progress = job.progress;
  stage = stage_text job.stage;
  error_code = job.error_code;
  created_at = some job.created_at;
  title = job.title;
  platform = job.platform;
  url = some job.url;
}

unfoldable pub history_row : ReportDocumentRecord → UnifiedJobListItem
unfolding value
history_row d = record {
  kind = "history";
  job_id = d.job_id;
  status = value completed;
  progress = 100;
  stage = none;
  error_code = none;
  created_at = none;
  title = some d.title;
  platform = some d.platform;
  url = some d.source_url;
}

module _ (S : Sql) where
  -- `jobs_list`
  unfoldable pub jobs_list :
      ℕ
      → ℕ
      → Option JobStatus
      → Option String
      → Option (Job → Bool)
      → Option (Job → Bool)
      → S.Table Job
      → JobListResponse
  unfolding list_jobs to_list_item
  jobs_list limit offset status status_group platform query jobs =
      let (items, total) = list_jobs S limit offset status status_group platform query jobs in
      record { items = map to_list_item items; total = total; limit = limit; offset = offset }

  -- the filters of a request, for both tables
  module _ (job_platform job_query : Option (Job → Bool))
      (platform query : Option (ReportDocumentRecord → Bool)) (limit offset : ℕ)
      (jobs : S.Table Job) (documents : S.Table ReportDocumentRecord) where
    unfoldable pub jobs_total : ℕ
    unfolding list_jobs
    jobs_total = (list_jobs S 1 0 none (some "non_completed") job_platform job_query jobs).1

    unfoldable pub jobs_segment : List Job
    unfolding list_jobs jobs_total
    jobs_segment =
        if ltb offset jobs_total
        then (list_jobs S (min limit (jobs_total - offset)) offset none (some "non_completed")
            job_platform job_query jobs).0
        else []

    -- the rows of the history segment and its total, for the rows that remain and the total of jobs
    unfoldable pub history_after : ℕ → ℕ → List ReportDocumentRecord × ℕ
    unfolding list_report_documents
    history_after remaining jobs_total =
        if ltb 0 remaining
        then list_report_documents S platform none none query true remaining
            (if ltb offset jobs_total then 0 else offset - jobs_total) jobs documents
        else ([], (list_report_documents S platform none none query true 1 0 jobs documents).1)

    unfoldable pub history_segment : List ReportDocumentRecord × ℕ
    unfolding history_after jobs_total jobs_segment
    history_segment = history_after (limit - length jobs_segment) jobs_total

    -- `jobs_unified_list`
    unfoldable pub jobs_unified_list : UnifiedJobListResponse
    unfolding jobs_total jobs_segment history_segment job_row history_row
    jobs_unified_list = record {
      items = map job_row jobs_segment ++ map history_row history_segment.0;
      total = jobs_total + history_segment.1;
      jobs_total = jobs_total;
      history_total = history_segment.1;
      limit = limit;
      offset = offset;
    }
