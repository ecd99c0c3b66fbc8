-- ===== src/Bridge/Accepting.antt =====
-- Which rows and bodies unified_page accepts, and what it makes of them.
use mathlib.Core.Path.{subst}
use evoblue_video_mcp.Prelude.{
  ℕ, suc, ◌+◌, ◌-◌, ◌==◌, ◌≤◌, ◌&&◌, min, Bool, true, false, not, Option, none, some, List, [], ◌∷◌,
  ◌++◌, map, String, length, ltb, leb, All, &&-eq_true, ==_self, ◌≡◌, refl, ◌∙◌, arith,
}
use evoblue_video_mcp.Prelude.Windows.{length-map}
use evoblue_video_mcp.Jobs.States.{
  JobStatus, queued, fetching_metadata, fetching_subtitles, downloading_audio, transcribing,
  waiting_for_model, cleaning_transcript, chunking, summarizing_chunks, generating_report, indexing,
  retry_wait, completed, failed, cancelled, value, same,
}
use evoblue_video_mcp.Jobs.Transitions.{all_states}
use evoblue_video_mcp.Storage.Models.{Job}
use evoblue_video_mcp.Web.Documents.{ReportDocumentRecord}
use evoblue_video_mcp.Web.Lists.{UnifiedJobListItem, UnifiedJobListResponse, job_row, history_row}
use evoblue_video_mcp.Bridge.Wire.{
  WireUnifiedRow, AnalysisJobListItem, parse_status, list_item, mcp_job, mcp_history_item,
}
use evoblue_video_mcp.Bridge.Pages.{
  Value, array, whole, object, as_list, as_count, echoes, strict_window, segment_total, placed_item,
  unified_item, unified_items, unified_rows, unified_page,
}

-- the row that the bridge reads from a row that the engine writes
abbrev pub wire_row : UnifiedJobListItem → WireUnifiedRow
wire_row r = record {
  kind = r.kind;
  job_id = r.job_id;
  status = r.status;
  progress = r.progress;
  stage = r.stage;
  error_code = r.error_code;
  created_at = r.created_at;
  title = r.title;
  platform = r.platform;
  url = r.url;
}

-- a job as the user sees it
abbrev pub listed_job : Job → AnalysisJobListItem
listed_job job = record {
  job_id = job.job_id;
  title = job.title;
  platform = job.platform;
  status = job.status;
  progress = some job.progress;
  error_code = job.error_code;
  url = some job.url;
}

-- a report as the user sees it
abbrev pub listed_report : ReportDocumentRecord → AnalysisJobListItem
listed_report d = record {
  job_id = d.job_id;
  title = some d.title;
  platform = some d.platform;
  status = completed;
  progress = some 100;
  error_code = none;
  url = some d.source_url;
}

parse_status-value : (s : JobStatus) → parse_status (value s) ≡ some s
unfolding parse_status value all_states
parse_status-value queued = refl
parse_status-value fetching_metadata = refl
parse_status-value fetching_subtitles = refl
parse_status-value downloading_audio = refl
parse_status-value transcribing = refl
parse_status-value waiting_for_model = refl
parse_status-value cleaning_transcript = refl
parse_status-value chunking = refl
parse_status-value summarizing_chunks = refl
parse_status-value generating_report = refl
parse_status-value indexing = refl
parse_status-value retry_wait = refl
parse_status-value completed = refl
parse_status-value failed = refl
parse_status-value cancelled = refl

-- a job that the bridge shows as it is
abbrev pub is_shown : Job → Bool
is_shown j = not (same j.status completed) && leb j.progress 100

job_accepted :
    (jobs_total index : ℕ) (j : Job)
    → suc index ≤ jobs_total
    → is_shown j ≡ true
    → placed_item jobs_total index (wire_row (job_row j)) ≡ some (listed_job j)
unfolding placed_item job_row mcp_job list_item
job_accepted jobs_total index j early shown =
    let e : ltb index jobs_total ≡ true = ground arith in
    let p : leb j.progress 100 ≡ true = (&&-eq_true (not (same j.status completed)) _ shown).1 in
    let s : same j.status completed ≡ false = ground arith in
    rw (e, parse_status-value j.status, p, s, placed_item, mcp_job, list_item) refl

report_accepted :
    (jobs_total index : ℕ) (d : ReportDocumentRecord)
    → jobs_total ≤ index
    → placed_item jobs_total index (wire_row (history_row d)) ≡ some (listed_report d)
unfolding placed_item history_row mcp_history_item list_item value
report_accepted jobs_total index d late =
    let e : ltb index jobs_total ≡ false = ground arith in rw (e, placed_item) refl

module _ {R : Type 0} (encode : UnifiedJobListItem → R) (validate : R → Option WireUnifiedRow)
    (reads : (r : UnifiedJobListItem) → validate (encode r) ≡ some (wire_row r)) where
  pub jobs_accepted :
      (jobs_total index : ℕ) (js : List Job) (rest : List R) (ys : List AnalysisJobListItem)
      → length js ≤ jobs_total - index
      → All (λ j. is_shown j ≡ true) js
      → unified_items validate jobs_total (index + length js) rest ≡ some ys
      → unified_items validate jobs_total index (map encode (map job_row js) ++ rest)
        ≡ some (map listed_job js ++ ys)
  unfolding unified_items unified_item
  jobs_accepted jobs_total index [] rest ys fits shown h =
      let e : index + 0 ≡ index = omega arith in
      subst (λ k. unified_items validate jobs_total k rest ≡ some ys) e h
  jobs_accepted jobs_total index (j ∷ js) rest ys fits shown h =
      let e : index + suc (length js) ≡ suc index + length js = omega arith in
      let later =
        jobs_accepted jobs_total (suc index) js rest ys (omega arith) shown.1
          (subst (λ k. unified_items validate jobs_total k rest ≡ some ys) e h) in
      rw
        (
          reads (job_row j),
          job_accepted jobs_total index j (omega arith) shown.0,
          later,
          unified_items,
          unified_item,
        )
        refl

  pub reports_accepted :
      (jobs_total index : ℕ) (ds : List ReportDocumentRecord)
      → jobs_total ≤ index
      → unified_items validate jobs_total index (map encode (map history_row ds))
        ≡ some (map listed_report ds)
  unfolding unified_items unified_item
  reports_accepted jobs_total index [] late = refl
  reports_accepted jobs_total index (d ∷ ds) late =
      rw
        (
          reads (history_row d),
          report_accepted jobs_total index d late,
          reports_accepted jobs_total (suc index) ds (omega arith),
          unified_items,
          unified_item,
        )
        refl

  -- the fields of a body that carries the page
  pub record Carries (get : String → Option (Value R)) (page : UnifiedJobListResponse)
      : Type 0 where
    pub items : get "items" ≡ some (array (map encode page.items))
    pub total : get "total" ≡ some (whole page.total)
    pub jobs_total : get "jobs_total" ≡ some (whole page.jobs_total)
    pub history_total : get "history_total" ≡ some (whole page.history_total)
    pub limit : get "limit" ≡ some (whole page.limit)
    pub offset : get "offset" ≡ some (whole page.offset)

  -- a body with the right window and acceptable rows
  pub page_accepted :
      (get : String → Option (Value R)) (page : UnifiedJobListResponse)
      (items : List AnalysisJobListItem)
      → Carries get page
      → page.total ≡ page.jobs_total + page.history_total
      → length page.items ≡ min page.limit (page.total - page.offset)
      → unified_items validate page.jobs_total page.offset (map encode page.items) ≡ some items
      → unified_page validate page.limit page.offset (object get)
        ≡ some
            (record { items = items; limit = page.limit; offset = page.offset; total = page.total })
  unfolding unified_page unified_rows strict_window segment_total as_list as_count echoes
  page_accepted get page items c sums fits h =
      let long : length (map encode page.items) ≡ min page.limit (page.total - page.offset) =
        length-map encode page.items ∙ fits in
      let full : (length (map encode page.items) == min page.limit (page.total - page.offset))
          ≡ true =
        ground arith in
      let adds : (page.total == page.jobs_total + page.history_total) ≡ true = ground arith in
      rw
        (
          c.items,
          c.total,
          c.limit,
          c.offset,
          ==_self page.limit,
          ==_self page.offset,
          full,
          c.jobs_total,
          c.history_total,
          adds,
          h,
          unified_page,
          unified_rows,
          strict_window,
          segment_total,
          echoes,
        )
        refl
