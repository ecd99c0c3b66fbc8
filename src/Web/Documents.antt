-- ===== src/Web/Documents.antt =====
-- `list_report_documents` of storage/report_repository.py. The conditions on platform and query are
-- SQLite's LOWER and LIKE, so they are arguments: none if the parameter is missing or blank.
use evoblue_video_mcp.Prelude.{
  ℕ, ◌==◌, ◌&&◌, ◌||◌, Bool, true, not, Option, none, some, List, String, str_eq, select, any,
  length, take, drop, ltb, leb,
}
use evoblue_video_mcp.Sql.{Sql}
use evoblue_video_mcp.Jobs.States.{completed, same}
use evoblue_video_mcp.Storage.Models.{Job}

pub record ReportDocumentRecord : Type 0 where
  pub id : ℕ
  pub job_id : String
  pub analysis_id : String
  pub title : String
  pub platform : String
  pub author : String
  pub video_id : String
  pub source_url : String
  pub published_at : Option ℕ
  pub analyzed_at : ℕ
  pub language : String
  pub summary_mode : String
  pub asr_provider : String
  pub asr_model : String
  pub asr_model_version : String
  pub tags : List String
  pub summary_preview : String
  pub relative_path : String
  pub content_hash : String
  pub byte_size : Option ℕ
  pub doc_source : String
  pub doc_status : String
  pub indexed_at : ℕ
  pub updated_at : ℕ

-- a condition that the query leaves out, the platform's if it is None, the search's also if it is blank
abbrev pub holds_if : Option (ReportDocumentRecord → Bool) → ReportDocumentRecord → Bool
holds_if none d = true
holds_if (some p) d = p d

-- `analysis_id NOT IN (SELECT job_id FROM jobs WHERE status != 'completed')`
unfoldable pub no_unfinished_job : List Job → ReportDocumentRecord → Bool
no_unfinished_job jobs d =
    not (any (λ j. not (same j.status completed) && str_eq j.job_id d.analysis_id) jobs)

unfoldable pub is_document_listed :
    Option (ReportDocumentRecord → Bool)
    → Option (ReportDocumentRecord → Bool)
    → Bool
    → Option String
    → Option String
    → List Job
    → ReportDocumentRecord
    → Bool
unfolding no_unfinished_job
is_document_listed platform query exclude_unfinished_jobs language asr_provider jobs d =
    (str_eq d.doc_status "active" || str_eq d.doc_status "stale")
    && (holds_if platform d
        && (holds_if query d
            && ((not exclude_unfinished_jobs || no_unfinished_job jobs d)
                && (equals_if language d.language && equals_if asr_provider d.asr_provider))))
  where
    equals_if : Option String → String → Bool
    equals_if none s = true
    equals_if (some t) s = str_eq s t

-- `ORDER BY analyzed_at DESC, id DESC`
unfoldable pub analyzed_later : ReportDocumentRecord → ReportDocumentRecord → Bool
analyzed_later a b =
    ltb b.analyzed_at a.analyzed_at || (a.analyzed_at == b.analyzed_at && leb b.id a.id)

module _ (S : Sql) where
  unfoldable pub list_report_documents :
      Option (ReportDocumentRecord → Bool)
      → Option String
      → Option String
      → Option (ReportDocumentRecord → Bool)
      → Bool
      → ℕ
      → ℕ
      → S.Table Job
      → S.Table ReportDocumentRecord
      → List ReportDocumentRecord × ℕ
  unfolding is_document_listed analyzed_later
  list_report_documents platform language asr_provider query exclude_unfinished_jobs limit offset
        jobs t =
      let found =
        select
          (is_document_listed platform query exclude_unfinished_jobs language asr_provider
            (S.rows jobs))
          (S.rows t) in
      (take limit (drop offset (S.order_by analyzed_later found)), length found)
