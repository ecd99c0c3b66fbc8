-- ===== src/Storage/Listing.antt =====
-- `list_jobs` of storage/repository.py. The conditions on the platform and the query are SQLite's
-- `lower` and `ILIKE`, so they are arguments: none if the parameter is missing or blank.
use evoblue_video_mcp.Prelude.{
  ℕ, ◌==◌, Bool, true, ◌&&◌, ◌||◌, not, Option, none, some, List, String, str_eq, select, length,
  take, drop, ltb, leb, if◌then◌else◌,
}
use evoblue_video_mcp.Sql.{Sql}
use evoblue_video_mcp.Jobs.States.{JobStatus, completed, same, is_terminal}
use evoblue_video_mcp.Storage.Models.{Job}

-- a filter that is left out if its parameter is None
abbrev pub optionally : Option (Job → Bool) → Job → Bool
optionally none j = true
optionally (some p) j = p j

unfoldable pub has_status : Option JobStatus → Job → Bool
has_status none j = true
has_status (some s) j = same j.status s

unfoldable pub in_group : Option String → Job → Bool
in_group none j = true
in_group (some group) j = not (str_eq group "non_completed") || not (same j.status completed)

-- `terminal_rank`
unfoldable pub terminal_rank : Job → ℕ
terminal_rank j = if is_terminal j.status then 1 else 0

-- `ORDER BY terminal_rank, created_at DESC, id DESC`
unfoldable pub listed_before : Job → Job → Bool
unfolding terminal_rank
listed_before a b =
    ltb (terminal_rank a) (terminal_rank b)
    || (terminal_rank a == terminal_rank b
        && (ltb b.created_at a.created_at || (a.created_at == b.created_at && leb b.id a.id)))

unfoldable pub is_listed :
    Option JobStatus → Option String → Option (Job → Bool) → Option (Job → Bool) → Job → Bool
unfolding has_status in_group
is_listed status status_group platform query j =
    has_status status j
    && (in_group status_group j && (optionally platform j && optionally query j))

module _ (S : Sql) where
  -- the page and the total
  unfoldable pub list_jobs :
      ℕ
      → ℕ
      → Option JobStatus
      → Option String
      → Option (Job → Bool)
      → Option (Job → Bool)
      → S.Table Job
      → List Job × ℕ
  unfolding is_listed listed_before
  list_jobs limit offset status status_group platform query t =
      let found = select (is_listed status status_group platform query) (S.rows t) in
      (take limit (drop offset (S.order_by listed_before found)), length found)

-- no unfinished job follows a finished one
abbrev pub is_ranked : Job → Job → Bool
is_ranked a b = not (is_terminal a.status) || is_terminal b.status
