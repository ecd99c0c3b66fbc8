-- ===== src/Checks/Pages.antt =====
-- The list pages of the engine and of the bridge on the sample queue and one report.
use evoblue_video_mcp.Prelude.{
  Option, none, some, List, [], ◌∷◌, ◌++◌, map, length, take, drop, String, str_eq, if◌then◌else◌,
  ◌≡◌, refl,
}
use evoblue_video_mcp.Sql.Memory.{memory, memory-IsLawful}
use evoblue_video_mcp.Web.Documents.{ReportDocumentRecord}
use evoblue_video_mcp.Web.Lists.{
  UnifiedJobListItem, UnifiedJobListResponse, jobs_unified_list, job_row, history_row,
}
use evoblue_video_mcp.Web.Slices.{unfinished_jobs, reports, jobs_unified_list_result}
use evoblue_video_mcp.Bridge.Wire.{WireUnifiedRow, ListAnalysisJobsOutput}
use evoblue_video_mcp.Bridge.Pages.{Value, array, whole, object, unified_page}
use evoblue_video_mcp.Bridge.Windows.{IsWindow, unified_page_result}
use evoblue_video_mcp.Bridge.Accepting.{wire_row, listed_job, listed_report, Carries}
use evoblue_video_mcp.Bridge.Served.{unified_page_serves}
use evoblue_video_mcp.Checks.Samples.{table}

abbrev report : ReportDocumentRecord
report = record {
  id = 1;
  job_id = "c";
  analysis_id = "c";
  title = "T";
  platform = "youtube";
  author = "A";
  video_id = "x";
  source_url = "https://youtu.be/x";
  published_at = none;
  analyzed_at = 9;
  language = "en";
  summary_mode = "auto";
  asr_provider = "";
  asr_model = "";
  asr_model_version = "";
  tags = [];
  summary_preview = "";
  relative_path = "c.md";
  content_hash = "h";
  byte_size = none;
  doc_source = "local";
  doc_status = "active";
  indexed_at = 9;
  updated_at = 9;
}

abbrev documents : List ReportDocumentRecord
documents = report ∷ []

-- the second and the third row of the view
abbrev page : UnifiedJobListResponse
page = jobs_unified_list memory none none none none 2 1 table documents

jobs_unified_list_result_example :
    page.items
    ≡ take 2 (
        drop 1 (
          map job_row
            (unfinished_jobs memory memory-IsLawful none none none none 2 1 table documents)
          ++ map history_row
              (reports memory memory-IsLawful none none none none 2 1 table documents)))
jobs_unified_list_result_example =
    (jobs_unified_list_result memory memory-IsLawful none none none none 2 1 table documents).0

-- the body as it is parsed
abbrev body : String → Option (Value UnifiedJobListItem)
body name =
    if str_eq name "items"
    then some (array (map (λ r. r) page.items))
    else if str_eq name "total"
    then some (whole page.total)
    else if str_eq name "jobs_total"
    then some (whole page.jobs_total)
    else if str_eq name "history_total"
    then some (whole page.history_total)
    else if str_eq name "limit"
    then some (whole page.limit)
    else if str_eq name "offset"
    then some (whole page.offset)
    else none

abbrev validate : UnifiedJobListItem → Option WireUnifiedRow
validate r = some (wire_row r)

abbrev accepted : ListAnalysisJobsOutput
accepted = record {
  items = take 2 (
      drop 1 (
        map listed_job
          (unfinished_jobs memory memory-IsLawful none none none none 2 1 table documents)
        ++ map listed_report
            (reports memory memory-IsLawful none none none none 2 1 table documents)));
  limit = 2;
  offset = 1;
  total = length (
      map listed_job
        (unfinished_jobs memory memory-IsLawful none none none none 2 1 table documents)
      ++ map listed_report
          (reports memory memory-IsLawful none none none none 2 1 table documents));
}

body-Carries : Carries (λ (r : UnifiedJobListItem). r) validate (λ r. refl) body page
body-Carries = record {
  items = refl;
  total = refl;
  jobs_total = refl;
  history_total = refl;
  limit = refl;
  offset = refl;
}

accepted_page : unified_page validate 2 1 (object body) ≡ some accepted
accepted_page =
    unified_page_serves memory memory-IsLawful none none none none 2 1 table documents (λ r. r)
      validate (λ r. refl) body body-Carries (refl, (refl, (refl, tt)))

unified_page_serves_example : unified_page validate 2 1 (object body) ≡ some accepted
unified_page_serves_example =
    unified_page_serves memory memory-IsLawful none none none none 2 1 table documents (λ r. r)
      validate (λ r. refl) body body-Carries (refl, (refl, (refl, tt)))

unified_page_result_example : IsWindow validate 2 1 (object body) accepted
unified_page_result_example = unified_page_result validate 2 1 (object body) accepted accepted_page
