-- ===== src/Web/Slices.antt =====
-- /api/jobs/unified answers a slice of one list: the jobs that are not completed, then the reports.
use evoblue_video_mcp.Prelude.{
  ℕ, zero, suc, ◌+◌, ◌-◌, ◌≤◌, min, Bool, true, inl, inr, Option, none, some, List, [], ◌++◌, map,
  select, length, take, drop, ltb, Bool-cases, ◌≡◌, refl, sym, ◌∙◌, ap, arith,
}
use evoblue_video_mcp.Prelude.Windows.{
  length-take, length-drop, length-map, take-append, drop-append, take_all, drop_all, map-take,
  map-drop,
}
use evoblue_video_mcp.Sql.{Sql, IsLawful}
use evoblue_video_mcp.Storage.Models.{Job}
use evoblue_video_mcp.Storage.Listing.{list_jobs, is_listed, listed_before}
use evoblue_video_mcp.Web.Documents.{
  ReportDocumentRecord, list_report_documents, is_document_listed, analyzed_later,
}
use evoblue_video_mcp.Web.Lists.{
  jobs_total, jobs_segment, history_after, history_segment, jobs_unified_list, job_row, history_row,
}

-- A window over two lists, one after the other.
slice_of_two {ℓ} :
    {A : Type ℓ} (limit offset : ℕ) (xs ys : List A)
    → take limit (drop offset (xs ++ ys))
      ≡ take limit (drop offset xs)
        ++ take (limit - length (take limit (drop offset xs))) (drop (offset - length xs) ys)
slice_of_two limit offset xs ys =
    let first = drop offset xs in
    let second = drop (offset - length xs) ys in
    let n = length-take limit first in
    let same_rest : limit - length first ≡ limit - length (take limit first) = omega arith in
    ap (take limit) (drop-append offset xs ys)
    ∙ (take-append limit first second ∙ ap (λ k. take limit first ++ take k second) same_rest)

module _ (S : Sql) (L : IsLawful S) (job_platform job_query : Option (Job → Bool))
    (platform query : Option (ReportDocumentRecord → Bool)) (limit offset : ℕ) (jobs : S.Table Job)
    (documents : S.Table ReportDocumentRecord) where
  -- every job of the first segment, in the order of the listing
  abbrev pub unfinished_jobs : List Job
  unfinished_jobs =
      S.order_by listed_before
        (select (is_listed none (some "non_completed") job_platform job_query) (S.rows jobs))

  -- every report of the second segment
  abbrev pub reports : List ReportDocumentRecord
  reports =
      S.order_by analyzed_later
        (select (is_document_listed platform query true none none (S.rows jobs)) (S.rows documents))

  abbrev total : ℕ
  total = jobs_total S job_platform job_query platform query limit offset jobs documents

  abbrev segment : List Job
  segment = jobs_segment S job_platform job_query platform query limit offset jobs documents

  abbrev history : List ReportDocumentRecord × ℕ
  history = history_segment S job_platform job_query platform query limit offset jobs documents

  pub length-unfinished_jobs : total ≡ length unfinished_jobs
  unfolding jobs_total list_jobs
  length-unfinished_jobs = sym (L.length-order_by listed_before _)

  pub jobs_segment_lem : segment ≡ take limit (drop offset unfinished_jobs)
  unfolding jobs_segment list_jobs
  jobs_segment_lem =
      let n = length-unfinished_jobs in
      let d = length-drop offset unfinished_jobs in
      elim (Bool-cases (ltb offset total)) [
        | inl early ↦
            let fits : min limit (total - offset)
                ≡ min limit (length (drop offset unfinished_jobs)) =
              omega arith in
            rw (early, jobs_segment)
              (ap (λ k. take k (drop offset unfinished_jobs)) fits
                ∙ take_all limit (drop offset unfinished_jobs))
        | inr late ↦
            let over : length unfinished_jobs ≤ offset = ground arith in
            rw (late, jobs_segment)
              (sym (ap (take limit) (drop_all offset unfinished_jobs over) ∙ nothing limit))
      ]
    where
      nothing : (k : ℕ) → take {A = Job} k [] ≡ []
      nothing zero = refl
      nothing (suc k) = refl

  history_after_lem :
      (remaining before : ℕ)
      → history_after S job_platform job_query platform query limit offset jobs documents remaining
          before
        ≡ (take remaining (drop (offset - before) reports), length reports)
  unfolding history_after list_report_documents
  history_after_lem remaining before =
      let found =
        select (is_document_listed platform query true none none (S.rows jobs))
          (S.rows documents) in
      let counted : length found ≡ length reports = sym (L.length-order_by analyzed_later found) in
      elim (Bool-cases (ltb 0 remaining)) [
        | inr full ↦
            let e : remaining ≡ 0 = ground arith in
            rw (full, history_after)
              (pair _ _ _ _ (ap (λ k. take k (drop (offset - before) reports)) (sym e)) counted)
        | inl open_ ↦ elim (Bool-cases (ltb offset before)) [
          | inl early ↦
              let e : offset - before ≡ 0 = ground arith in
              rw (open_, early, history_after)
                (pair _ _ _ _ (ap (λ k. take remaining (drop k reports)) (sym e)) counted)
          | inr late ↦ rw (open_, late, history_after) (pair _ _ _ _ refl counted)
        ]
      ]
    where
      pair :
          (a b : List ReportDocumentRecord) (m n : ℕ)
          → a ≡ b
          → m ≡ n
          → ◌≡◌ {A = List ReportDocumentRecord × ℕ} (a, m) (b, n)
      pair a b m n e f = rw (e, f) refl

  pub history_segment_lem :
      history ≡ (take (limit - length segment) (drop (offset - total) reports), length reports)
  unfolding history_segment
  history_segment_lem = history_after_lem (limit - length segment) total

  -- the two segments, row by row, are a slice of the two whole lists
  pub slice_of_segments :
      {C : Type 0} (f : Job → C) (g : ReportDocumentRecord → C)
      → map f segment ++ map g history.0
        ≡ take limit (drop offset (map f unfinished_jobs ++ map g reports))
  slice_of_segments f g =
      let us = map f unfinished_jobs in
      let rs = map g reports in
      let m = take limit (drop offset us) in
      let first : map f segment ≡ m =
        ap (map f) jobs_segment_lem
        ∙ (map-take f limit (drop offset unfinished_jobs)
            ∙ ap (take limit) (map-drop f offset unfinished_jobs)) in
      let here : length segment ≡ length m = sym (length-map f segment) ∙ ap length first in
      let before : total ≡ length us =
        length-unfinished_jobs ∙ sym (length-map f unfinished_jobs) in
      let second : map g history.0 ≡ take (limit - length m) (drop (offset - length us) rs) =
        ap (λ (h : List ReportDocumentRecord × ℕ). map g h.0) history_segment_lem
        ∙ (map-take g (limit - length segment) (drop (offset - total) reports)
            ∙ (ap (take (limit - length segment)) (map-drop g (offset - total) reports)
                ∙ (ap (λ k. take (limit - k) (drop (offset - total) rs)) here
                    ∙ ap (λ k. take (limit - length m) (drop (offset - k) rs)) before))) in
      let both : map f segment ++ map g history.0
          ≡ m ++ take (limit - length m) (drop (offset - length us) rs) =
        ap (λ xs. xs ++ map g history.0) first ∙ ap (λ ys. m ++ ys) second in
      both ∙ sym (slice_of_two limit offset us rs)

  -- The page of /api/jobs/unified, which is put together from up to three queries, is the slice
  -- that was asked for of one list: first every job that is not completed, in the order of the
  -- listing, then every listed report; the totals are the lengths of the two parts.
  pub jobs_unified_list_result :
      let page =
        jobs_unified_list S job_platform job_query platform query limit offset jobs documents in
      (page.items
        ≡ take limit (drop offset (map job_row unfinished_jobs ++ map history_row reports)))
      × (page.jobs_total ≡ length unfinished_jobs)
      × (page.history_total ≡ length reports)
      × (page.total ≡ page.jobs_total + page.history_total)
  unfolding jobs_unified_list
  jobs_unified_list_result = (
    slice_of_segments job_row history_row,
    length-unfinished_jobs,
    ap (λ (h : List ReportDocumentRecord × ℕ). h.1) history_segment_lem,
    refl,
  )
