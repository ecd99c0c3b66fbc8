-- ===== src/Bridge/Served.antt =====
-- The bridge and the engine agree: what /api/jobs/unified answers, unified_page accepts as it is.
use mathlib.Core.Path.{subst}
use evoblue_video_mcp.Prelude.{
  ℕ, ◌+◌, ◌-◌, ◌≤◌, min, Bool, true, false, inl, inr, Option, none, some, List, [], ◌++◌, map,
  String, select, length, take, drop, leb, All, All-both, All-select, select_passes, Bool-cases,
  ◌≡◌, refl, sym, ◌∙◌, ap, arith,
}
use evoblue_video_mcp.Prelude.Windows.{
  length-take, length-drop, length-append, length-map, All-take, All-drop, map-append,
}
use evoblue_video_mcp.Sql.{Sql, IsLawful}
use evoblue_video_mcp.Storage.Models.{Job}
use evoblue_video_mcp.Storage.Listing.{is_listed, in_group, listed_before}
use evoblue_video_mcp.Web.Documents.{ReportDocumentRecord}
use evoblue_video_mcp.Web.Lists.{
  UnifiedJobListItem, UnifiedJobListResponse, jobs_unified_list, jobs_segment, history_segment,
  job_row, history_row,
}
use evoblue_video_mcp.Web.Slices.{
  unfinished_jobs, reports, jobs_segment_lem, history_segment_lem, slice_of_segments,
  length-unfinished_jobs, jobs_unified_list_result,
}
use evoblue_video_mcp.Bridge.Wire.{WireUnifiedRow, AnalysisJobListItem}
use evoblue_video_mcp.Bridge.Pages.{Value, object, unified_items, unified_page}
use evoblue_video_mcp.Bridge.Accepting.{
  wire_row, listed_job, listed_report, is_shown, jobs_accepted, reports_accepted, Carries,
  page_accepted,
}

two_lengths :
    {C : Type 0} (f : Job → C) (g : ReportDocumentRecord → C) (us : List Job)
    (rs : List ReportDocumentRecord)
    → length (map f us ++ map g rs) ≡ length us + length rs
two_lengths f g us rs =
    length-append (map f us) (map g rs)
    ∙ (ap (λ k. k + length (map g rs)) (length-map f us)
        ∙ ap (λ k. length us + k) (length-map g rs))

-- the first segment ends before the window does only if it takes the whole window
no_room :
    (limit offset taken jobs_total n : ℕ)
    → taken ≡ min limit (n - offset)
    → jobs_total ≡ n
    → leb jobs_total (offset + taken) ≡ false
    → limit - taken ≡ 0
no_room limit offset taken jobs_total n e f h = ground arith

within :
    (limit offset taken jobs_total n : ℕ)
    → taken ≡ min limit (n - offset)
    → jobs_total ≡ n
    → taken ≤ jobs_total - offset
within limit offset taken jobs_total n e f = omega arith

module _ (S : Sql) (L : IsLawful S) (job_platform job_query : Option (Job → Bool))
    (platform query : Option (ReportDocumentRecord → Bool)) (limit offset : ℕ) (jobs : S.Table Job)
    (documents : S.Table ReportDocumentRecord) where
  abbrev answer : UnifiedJobListResponse
  answer = jobs_unified_list S job_platform job_query platform query limit offset jobs documents

  abbrev listed : List AnalysisJobListItem
  listed =
      map listed_job
        (unfinished_jobs S L job_platform job_query platform query limit offset jobs documents)
      ++ map listed_report
          (reports S L job_platform job_query platform query limit offset jobs documents)

  -- the jobs of the segment are shown as they are
  segment_shown :
      All (λ j. leb j.progress 100 ≡ true) (S.rows jobs)
      → All
          (λ j. is_shown j ≡ true)
          (jobs_segment S job_platform job_query platform query limit offset jobs documents)
  unfolding is_listed in_group
  segment_shown h =
      let p = is_listed none (some "non_completed") job_platform job_query in
      let found = select p (S.rows jobs) in
      let shown : All (λ j. is_shown j ≡ true) found =
        All-both (λ j. p j ≡ true) (λ j. leb j.progress 100 ≡ true) (λ j. is_shown j ≡ true) found
          (λ j e f. ground arith) (select_passes p (S.rows jobs))
          (All-select (λ j. leb j.progress 100 ≡ true) p (S.rows jobs) h) in
      let ordered = (L.order_by-keeps (λ j. is_shown j ≡ true) listed_before found).0 shown in
      subst (All (λ j. is_shown j ≡ true))
        (sym
          (jobs_segment_lem S L job_platform job_query platform query limit offset jobs documents))
        (All-take (λ j. is_shown j ≡ true) limit (drop offset (S.order_by listed_before found))
          (All-drop (λ j. is_shown j ≡ true) offset (S.order_by listed_before found) ordered))

  module _ {R : Type 0} (encode : UnifiedJobListItem → R) (validate : R → Option WireUnifiedRow)
      (reads : (r : UnifiedJobListItem) → validate (encode r) ≡ some (wire_row r)) where
    rows_accepted :
        All (λ j. leb j.progress 100 ≡ true) (S.rows jobs)
        → unified_items validate answer.jobs_total offset (map encode answer.items)
          ≡ some (take limit (drop offset listed))
    unfolding jobs_unified_list
    rows_accepted h =
        let js = jobs_segment S job_platform job_query platform query limit offset jobs documents in
        let ds =
          (history_segment S job_platform job_query platform query limit offset jobs documents).0 in
        let us =
          unfinished_jobs S L job_platform job_query platform query limit offset jobs documents in
        let rs = reports S L job_platform job_query platform query limit offset jobs documents in
        let count =
          length-unfinished_jobs S L job_platform job_query platform query limit offset jobs
            documents in
        let segment =
          jobs_segment_lem S L job_platform job_query platform query limit offset jobs documents in
        let history =
          history_segment_lem S L job_platform job_query platform query limit offset jobs
            documents in
        let taken : length js ≡ min limit (length us - offset) =
          ap length segment
          ∙ (length-take limit (drop offset us) ∙ ap (min limit) (length-drop offset us)) in
        let ends : unified_items validate answer.jobs_total (offset + length js)
              (map encode (map history_row ds))
            ≡ some (map listed_report ds) =
          elim (Bool-cases (leb answer.jobs_total (offset + length js))) [
            | inl late ↦
                reports_accepted encode validate reads answer.jobs_total (offset + length js) ds
                  (ground arith)
            | inr early ↦
                let full : limit - length js ≡ 0 =
                  no_room limit offset (length js) answer.jobs_total (length us) taken count
                    early in
                let empty : ds ≡ [] =
                  ap (λ (p : List ReportDocumentRecord × ℕ). p.0) history
                  ∙ ap (λ k. take k (drop (offset - answer.jobs_total) rs)) full in
                rw empty (unfold unified_items in refl)
          ] in
        let split : map encode answer.items
            ≡ map encode (map job_row js) ++ map encode (map history_row ds) =
          map-append encode (map job_row js) (map history_row ds) in
        ap (unified_items validate answer.jobs_total offset) split
        ∙ (jobs_accepted encode validate reads answer.jobs_total offset js
              (map encode (map history_row ds)) (map listed_report ds)
              (within limit offset (length js) answer.jobs_total (length us) taken count)
              (segment_shown h) ends
            ∙ ap some (
                slice_of_segments S L job_platform job_query platform query limit offset jobs
                  documents listed_job listed_report))

    -- The bridge accepts whatever page the engine answers on /api/jobs/unified and shows it as it
    -- is: if a row that the engine writes is read back field by field, the body carries the fields
    -- of the response and no job is beyond 100 percent, then unified_page raises nothing and gives
    -- the slice that was asked for of one list, first every job that is not completed, then every
    -- listed report, with the length of that list as the total.
    pub unified_page_serves :
        (get : String → Option (Value R))
        → Carries encode validate reads get answer
        → All (λ j. leb j.progress 100 ≡ true) (S.rows jobs)
        → unified_page validate limit offset (object get)
          ≡ some (record {
            items = take limit (drop offset listed);
            limit = limit;
            offset = offset;
            total = length listed;
          })
    unfolding jobs_unified_list
    unified_page_serves get c h =
        let us =
          unfinished_jobs S L job_platform job_query platform query limit offset jobs documents in
        let rs = reports S L job_platform job_query platform query limit offset jobs documents in
        let rows = map job_row us ++ map history_row rs in
        let (slice, first, second, sums) =
          jobs_unified_list_result S L job_platform job_query platform query limit offset jobs
            documents in
        let whole_list : answer.total ≡ length us + length rs =
          sums ∙ (ap (λ k. k + answer.history_total) first ∙ ap (λ k. length us + k) second) in
        let counts : answer.total ≡ length rows =
          whole_list ∙ sym (two_lengths job_row history_row us rs) in
        let fits : length answer.items ≡ min limit (answer.total - offset) =
          ap length slice
          ∙ (length-take limit (drop offset rows)
              ∙ (ap (min limit) (length-drop offset rows)
                  ∙ ap (λ k. min limit (k - offset)) (sym counts))) in
        page_accepted encode validate reads get answer (take limit (drop offset listed)) c sums
          (unfold jobs_unified_list in fits) (unfold jobs_unified_list in rows_accepted h)
        ∙ ap
            (λ k. some (record {
              items = take limit (drop offset listed);
              limit = limit;
              offset = offset;
              total = k;
            }))
            (whole_list ∙ sym (two_lengths listed_job listed_report us rs))
