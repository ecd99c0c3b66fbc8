-- ===== src/Bridge/Windows.antt =====
-- What a page that the bridge accepts is: exactly the window that was asked for, in its segments.
use mathlib.Core.Path.{subst}
use evoblue_video_mcp.Prelude.{
  ℕ, zero, suc, ◌+◌, ◌-◌, ◌==◌, ◌&&◌, min, Bool, true, false, inl, inr, Option, none, some, List,
  [], ◌∷◌, map, String, str_eq, eq_iff, length, ltb, leb, some_eq, Bool-cases, Option-cases,
  &&-eq_true, ==→eq, if◌then◌else◌, ◌≡◌, refl, sym, ◌∙◌, ap, arith,
}
use evoblue_video_mcp.Jobs.States.{completed, value, same, same_self}
use evoblue_video_mcp.Bridge.Wire.{
  WireUnifiedRow, AnalysisJobListItem, ListAnalysisJobsOutput, list_item, mcp_job, mcp_history_item,
}
use evoblue_video_mcp.Bridge.Pages.{
  Body, object, other_body, as_list, as_count, echoes, strict_window, segment_total, placed_item,
  unified_item, unified_items, unified_rows, unified_page,
}

-- `range(start, start + n)`
abbrev pub count_from : ℕ → ℕ → List ℕ
count_from start zero = []
count_from start (suc n) = start ∷ count_from (suc start) n

abbrev pub is_completed : AnalysisJobListItem → Bool
is_completed item = same item.status completed

history_is_completed :
    (job_id : String) (title platform url : Option String) (x : AnalysisJobListItem)
    → mcp_history_item job_id title platform url ≡ some x
    → is_completed x ≡ true
unfolding mcp_history_item list_item
history_is_completed job_id title platform url x h =
    subst (λ y. is_completed y ≡ true) (some_eq _ x h) (same_self completed)

-- a row that is accepted at a global index is of the segment that the index lies in
placed :
    (jobs_total index : ℕ) (w : WireUnifiedRow) (x : AnalysisJobListItem)
    → placed_item jobs_total index w ≡ some x
    → is_completed x ≡ leb jobs_total index
unfolding placed_item
placed jobs_total index w x h =
    elim (Bool-cases (str_eq w.kind (if ltb index jobs_total then "job" else "history"))) [
      | inr e ↦ let k : none ≡ some x = rw e at h in cc
      | inl e ↦ elim (Bool-cases (ltb index jobs_total)) [
        | inl early ↦
            let kind : w.kind ≡ "job" = (eq_iff w.kind "job").0 (rw early at e) in
            let late : leb jobs_total index ≡ false = ground arith in
            elim (Option-cases
              (mcp_job w.job_id w.status w.progress w.error_code w.title w.platform w.url)) [
                | inl f ↦ let k : none ≡ some x = rw (e, kind, f) at h in cc
                | inr (y, f) ↦ elim (Bool-cases (same y.status completed)) [
                  | inl g ↦ let k : none ≡ some x = rw (e, kind, f, g) at h in cc
                  | inr g ↦
                      let k : some y ≡ some x = rw (e, kind, f, g) at h in
                      subst (λ z. is_completed z ≡ leb jobs_total index) (some_eq y x k)
                        (g ∙ sym late)
                ]
              ]
        | inr late ↦
            let kind : w.kind ≡ "history" = (eq_iff w.kind "history").0 (rw late at e) in
            let here : leb jobs_total index ≡ true = ground arith in
            elim (Bool-cases (str_eq w.status (value completed))) [
              | inr g ↦ let k : none ≡ some x = rw (e, kind, g) at h in cc
              | inl g ↦
                  let k : mcp_history_item w.job_id w.title w.platform w.url ≡ some x =
                    rw (e, kind, g) at h in
                  history_is_completed w.job_id w.title w.platform w.url x k ∙ sym here
            ]
      ]
    ]

module _ {R : Type 0} where
  window_result :
      (limit offset : ℕ) (body : Body R) (items : List R) (total : ℕ)
      → strict_window limit offset body ≡ some (items, total)
      → length items ≡ min limit (total - offset)
  unfolding strict_window
  window_result limit offset other_body items total h = cc
  window_result limit offset (object get) items total h =
      elim (Option-cases (as_list (get "items"))) [
        | inl e ↦ let k : none ≡ some (items, total) = rw (e, strict_window) at h in cc
        | inr (rows, e) ↦ elim (Option-cases (as_count (get "total"))) [
          | inl f ↦ let k : none ≡ some (items, total) = rw (e, f, strict_window) at h in cc
          | inr (n, f) ↦
              let fits = length rows == min limit (n - offset) in
              let test = echoes limit (get "limit") && (echoes offset (get "offset") && fits) in
              elim (Bool-cases test) [
                | inr g ↦
                    let k : none ≡ some (items, total) = rw (e, f, g, strict_window) at h in cc
                | inl g ↦
                    let k : some (rows, n) ≡ some (items, total) =
                      rw (e, f, g, strict_window) at h in
                    let both = &&-eq_true (echoes limit (get "limit")) _ g in
                    let fit = (&&-eq_true (echoes offset (get "offset")) fits both.1).1 in
                    subst (λ (z : List R × ℕ). length z.0 ≡ min limit (z.1 - offset))
                      (some_eq (rows, n) (items, total) k)
                      (==→eq (length rows) (min limit (n - offset)) fit)
              ]
        ]
      ]

  module _ (validate : R → Option WireUnifiedRow) where
    items_placed :
        (jobs_total index : ℕ) (rows : List R) (items : List AnalysisJobListItem)
        → unified_items validate jobs_total index rows ≡ some items
        → (length items ≡ length rows)
          × (map is_completed items ≡ map (leb jobs_total) (count_from index (length items)))
    unfolding unified_items unified_item
    items_placed jobs_total index [] items h =
        subst
          (λ (z : List AnalysisJobListItem).
            (length z ≡ 0)
            × (map is_completed z ≡ map (leb jobs_total) (count_from index (length z))))
          (some_eq [] items h) (refl, refl)
    items_placed jobs_total index (raw ∷ rest) items h = elim (Option-cases (validate raw)) [
      | inl e ↦ let k : none ≡ some items = rw (e, unified_items) at h in cc
      | inr (w, e) ↦ elim (Option-cases (placed_item jobs_total index w)) [
        | inl f ↦ let k : none ≡ some items = rw (e, f, unified_items) at h in cc
        | inr (x, f) ↦ elim (Option-cases (unified_items validate jobs_total (suc index) rest)) [
          | inl g ↦ let k : none ≡ some items = rw (e, f, g, unified_items) at h in cc
          | inr (xs, g) ↦
              let k : some (x ∷ xs) ≡ some items = rw (e, f, g, unified_items) at h in
              let (long, flags) = items_placed jobs_total (suc index) rest xs g in
              subst
                (λ (z : List AnalysisJobListItem).
                  (length z ≡ suc (length rest))
                  × (map is_completed z ≡ map (leb jobs_total) (count_from index (length z))))
                (some_eq (x ∷ xs) items k)
                (ap suc long, rw (placed jobs_total index w x f, flags) refl)
        ]
      ]
    ]

    -- the totals of an accepted page and where its items stand
    pub record IsWindow (limit offset : ℕ) (body : Body R) (page : ListAnalysisJobsOutput)
        : Type 0 where
      pub jobs_total : ℕ
      pub history_total : ℕ
      pub reads_jobs : segment_total "jobs_total" body ≡ some jobs_total
      pub reads_history : segment_total "history_total" body ≡ some history_total
      pub sums : page.total ≡ jobs_total + history_total
      pub fills : length page.items ≡ min limit (page.total - offset)
      pub placed :
          map is_completed page.items ≡ map (leb jobs_total) (count_from offset (length page.items))

    -- A page that unified_page accepts has as many items as fit between the offset and the total,
    -- at most the limit; the total is the sum of the two segment totals of the body, and exactly
    -- the items at global indices from the total of jobs on are completed.
    pub unified_page_result :
        (limit offset : ℕ) (body : Body R) (page : ListAnalysisJobsOutput)
        → unified_page validate limit offset body ≡ some page
        → IsWindow limit offset body page
    unfolding unified_page unified_rows
    unified_page_result limit offset body page h =
        elim (Option-cases (strict_window limit offset body)) [
          | inl e ↦ let k : none ≡ some page = rw (e, unified_page) at h in cc
          | inr ((rows, total), e) ↦ elim (Option-cases (segment_total "jobs_total" body)) [
            | inl f ↦ let k : none ≡ some page = rw (e, f, unified_page) at h in cc
            | inr (jobs_total, f) ↦ elim (Option-cases (segment_total "history_total" body)) [
              | inl g ↦ let k : none ≡ some page = rw (e, f, g, unified_page) at h in cc
              | inr (history_total, g) ↦ elim (Bool-cases (total == jobs_total + history_total)) [
                | inr b ↦
                    let k : none ≡ some page = rw (e, f, g, b, unified_page, unified_rows) at h in
                    cc
                | inl b ↦ elim (Option-cases (unified_items validate jobs_total offset rows)) [
                  | inl i ↦
                      let k : none ≡ some page =
                        rw (e, f, g, b, i, unified_page, unified_rows) at h in
                      cc
                  | inr (items, i) ↦
                      let made : ListAnalysisJobsOutput = record {
                        items = items;
                        limit = limit;
                        offset = offset;
                        total = total;
                      } in
                      let k : some made ≡ some page =
                        rw (e, f, g, b, i, unified_page, unified_rows) at h in
                      let (long, flags) = items_placed jobs_total offset rows items i in
                      subst (IsWindow limit offset body) (some_eq made page k) (record {
                        jobs_total = jobs_total;
                        history_total = history_total;
                        reads_jobs = f;
                        reads_history = g;
                        sums = ==→eq total (jobs_total + history_total) b;
                        fills = long ∙ window_result limit offset body rows total e;
                        placed = flags;
                      })
                ]
              ]
            ]
          ]
        ]
