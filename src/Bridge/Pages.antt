-- ===== src/Bridge/Pages.antt =====
-- mcp/listing.py: the pages. Every exception is EngineListFormatError, so a page is none if it raises.
use evoblue_video_mcp.Prelude.{
  ℕ, suc, ◌+◌, ◌-◌, ◌==◌, ◌&&◌, min, Bool, false, Option, none, some, List, [], ◌∷◌, String, str_eq,
  length, ltb, if◌then◌else◌,
}
use evoblue_video_mcp.Jobs.States.{completed, value, same}
use evoblue_video_mcp.Bridge.Wire.{
  WireJobRow, WireHistoryRow, WireUnifiedRow, AnalysisJobListItem, ListAnalysisJobsOutput, mcp_job,
  mcp_history_item,
}

-- the values of the body's fields, as far as `isinstance` tells them apart; R is a row as parsed
pub data Value (R : Type 0) : Type 0 where
  array : List R → Value R
  whole : ℕ → Value R
  negative : ℕ → Value R
  boolean : Bool → Value R
  other_value : Value R

-- a parsed body: a dictionary, by its `get`, or something else
pub data Body (R : Type 0) : Type 0 where
  object : (String → Option (Value R)) → Body R
  other_body : Body R

module _ {R : Type 0} where
  unfoldable pub as_list : Option (Value R) → Option (List R)
  as_list (some (array rows)) = some rows
  as_list _ = none

  -- an int that is no bool and not below 0
  unfoldable pub as_count : Option (Value R) → Option ℕ
  as_count (some (whole n)) = some n
  as_count _ = none

  unfoldable pub echoes : ℕ → Option (Value R) → Bool
  echoes n (some (whole m)) = m == n
  echoes n _ = false

  -- `_strict_window`
  unfoldable pub strict_window : ℕ → ℕ → Body R → Option (List R × ℕ)
  unfolding as_list as_count echoes
  strict_window limit offset other_body = none
  strict_window limit offset (object get) = elim (as_list (get "items")) [
    | none ↦ none
    | some items ↦ elim (as_count (get "total")) [
      | none ↦ none
      | some total ↦
          if echoes limit (get "limit")
            && (echoes offset (get "offset") && length items == min limit (total - offset))
          then some (items, total)
          else none
    ]
  ]

  -- `body.get(name)` of a body that passed `_strict_window`, as a count
  unfoldable pub segment_total : String → Body R → Option ℕ
  unfolding as_count
  segment_total name other_body = none
  segment_total name (object get) = as_count (get name)

  -- one item after another, until one raises
  unfoldable pub collect :
      (R → Option AnalysisJobListItem) → List R → Option (List AnalysisJobListItem)
  collect item [] = some []
  collect item (raw ∷ rest) = elim (item raw) [
    | none ↦ none
    | some x ↦ elim (collect item rest) [ none ↦ none | some xs ↦ some (x ∷ xs) ]
  ]

  module _ (validate : R → Option WireJobRow) where
    -- the loop's body in `single_source_page`
    unfoldable pub single_item : String → R → Option AnalysisJobListItem
    unfolding mcp_job
    single_item status raw = elim (validate raw) [
      | none ↦ none
      | some w ↦ elim (mcp_job w.job_id w.status w.progress w.error_code w.title w.platform w.url) [
        | none ↦ none
        | some item ↦ if str_eq (value item.status) status then some item else none
      ]
    ]

    unfoldable pub single_source_page : String → ℕ → ℕ → Body R → Option ListAnalysisJobsOutput
    unfolding strict_window collect single_item
    single_source_page status limit offset body = elim (strict_window limit offset body) [
      | none ↦ none
      | some (raw_items, total) ↦ elim (collect (single_item status) raw_items) [
        | none ↦ none
        | some items ↦
            some (record { items = items; limit = limit; offset = offset; total = total })
      ]
    ]

  module _ (validate : R → Option WireHistoryRow) where
    unfoldable pub completed_item : R → Option AnalysisJobListItem
    unfolding mcp_history_item
    completed_item raw = elim (validate raw) [
      | none ↦ none
      | some w ↦ mcp_history_item w.job_id (some w.title) (some w.platform) (some w.source_url)
    ]

    unfoldable pub completed_page : ℕ → ℕ → Body R → Option ListAnalysisJobsOutput
    unfolding strict_window collect completed_item
    completed_page limit offset body = elim (strict_window limit offset body) [
      | none ↦ none
      | some (raw_items, total) ↦ elim (collect completed_item raw_items) [
        | none ↦ none
        | some items ↦
            some (record { items = items; limit = limit; offset = offset; total = total })
      ]
    ]

-- the row of `unified_page` at a global index
unfoldable pub placed_item : ℕ → ℕ → WireUnifiedRow → Option AnalysisJobListItem
unfolding mcp_job mcp_history_item
placed_item jobs_total index w =
    if str_eq w.kind (if ltb index jobs_total then "job" else "history")
    then if str_eq w.kind "history"
      then if str_eq w.status (value completed)
        then mcp_history_item w.job_id w.title w.platform w.url
        else none
      else elim (mcp_job w.job_id w.status w.progress w.error_code w.title w.platform w.url) [
        | none ↦ none
        | some item ↦ if same item.status completed then none else some item
      ]
    else none

module _ {R : Type 0} (validate : R → Option WireUnifiedRow) where
  unfoldable pub unified_item : ℕ → ℕ → R → Option AnalysisJobListItem
  unfolding placed_item
  unified_item jobs_total index raw = elim (validate raw) [
    | none ↦ none
    | some w ↦ placed_item jobs_total index w
  ]

  unfoldable pub unified_items : ℕ → ℕ → List R → Option (List AnalysisJobListItem)
  unfolding unified_item
  unified_items jobs_total index [] = some []
  unified_items jobs_total index (raw ∷ rest) = elim (unified_item jobs_total index raw) [
    | none ↦ none
    | some x ↦ elim (unified_items jobs_total (suc index) rest) [
      | none ↦ none
      | some xs ↦ some (x ∷ xs)
    ]
  ]

  -- `unified_page` after the window and the totals are read
  unfoldable pub unified_rows : ℕ → ℕ → List R → ℕ → ℕ → ℕ → Option ListAnalysisJobsOutput
  unfolding unified_items
  unified_rows limit offset raw_items total jobs_total history_total =
      if total == jobs_total + history_total
      then elim (unified_items jobs_total offset raw_items) [
        | none ↦ none
        | some items ↦
            some (record { items = items; limit = limit; offset = offset; total = total })
      ]
      else none

  unfoldable pub unified_page : ℕ → ℕ → Body R → Option ListAnalysisJobsOutput
  unfolding strict_window segment_total unified_rows
  unified_page limit offset body = elim (strict_window limit offset body) [
    | none ↦ none
    | some (raw_items, total) ↦ elim (segment_total "jobs_total" body) [
      | none ↦ none
      | some jobs_total ↦ elim (segment_total "history_total" body) [
        | none ↦ none
        | some history_total ↦ unified_rows limit offset raw_items total jobs_total history_total
      ]
    ]
  ]
