-- ===== src/Downloads/Transfers.antt =====
-- The operations of storage/repository.py on downloads.
use evoblue_video_mcp.Prelude.{
  ℕ, ◌+◌, ◌==◌, Bool, not, ◌&&◌, ◌||◌, Option, none, some, String, str_eq, any, ltb, leb, get_or,
  if◌then◌else◌,
}
use evoblue_video_mcp.Outcome.{Outcome, ok, err, value_error, integrity_error}
use evoblue_video_mcp.Sql.{Sql}
use evoblue_video_mcp.Downloads.Status.{
  ModelDownloadStatus, pending, downloading, verifying, completed, is_same, validate_download,
}
use evoblue_video_mcp.Downloads.Registry.{
  ModelDownload, Registry, is_operation, is_in_flight, reread, write_revision, with_operation,
}
use evoblue_video_mcp.Downloads.Installs.{put_installation, put_active}

-- `if value is not None: values[column] = value`
abbrev pub overwrite : Option String → Option String → Option String
overwrite none old = old
overwrite (some v) old = some v

unfoldable pub new_download :
    String
    → String
    → String
    → String
    → String
    → String
    → ℕ
    → ℕ
    → Option String
    → Option String
    → ModelDownload
new_download operation_id model_id version url kind sha256 size now etag last_modified = record {
  operation_id = operation_id;
  model_id = model_id;
  version = version;
  source_url = url;
  source_kind = kind;
  expected_sha256 = sha256;
  expected_size_bytes = size;
  downloaded_bytes = 0;
  temp_path = none;
  etag = etag;
  last_modified = last_modified;
  status = pending;
  error_code = none;
  error_detail = none;
  revision = 0;
  created_at = now;
  updated_at = now;
}

-- the values of `restart_download`
unfoldable pub restarted : ℕ → ℕ → ModelDownload → ModelDownload
restarted revision now d = record d {
  downloaded_bytes = 0;
  etag = none;
  last_modified = none;
  revision = revision + 1;
  updated_at = now;
}

-- the values of `switch_download_source`
unfoldable pub switched : ℕ → String → String → ℕ → ModelDownload → ModelDownload
switched revision source_url source_kind now d = record d {
  source_url = source_url;
  source_kind = source_kind;
  downloaded_bytes = 0;
  etag = none;
  last_modified = none;
  revision = revision + 1;
  updated_at = now;
}

-- the values of `complete_installation`
unfoldable pub installed : ℕ → ℕ → ModelDownload → ModelDownload
installed revision now d = record d {
  status = completed;
  revision = revision + 1;
  error_code = none;
  error_detail = none;
  updated_at = now;
}

-- the columns that `advance_download_operation` and `update_download_progress` may set
pub record Changes : Type 0 where
  pub temp_path : Option String
  pub etag : Option String
  pub last_modified : Option String
  pub error_code : Option String
  pub error_detail : Option String

unfoldable pub moved : ModelDownloadStatus → ℕ → ℕ → Changes → ModelDownload → ModelDownload
moved to_status revision now c d = record d {
  status = to_status;
  revision = revision + 1;
  updated_at = now;
  temp_path = overwrite c.temp_path d.temp_path;
  etag = overwrite c.etag d.etag;
  last_modified = overwrite c.last_modified d.last_modified;
  error_code = overwrite c.error_code d.error_code;
  error_detail = overwrite c.error_detail d.error_detail;
}

unfoldable pub progressed :
    ℕ → ℕ → ℕ → Option String → Option String → Option String → ModelDownload → ModelDownload
progressed bytes revision now temp_path etag last_modified d = record d {
  downloaded_bytes = bytes;
  revision = revision + 1;
  updated_at = now;
  temp_path = overwrite temp_path d.temp_path;
  etag = overwrite etag d.etag;
  last_modified = overwrite last_modified d.last_modified;
}

-- `operation.status in {PENDING, DOWNLOADING}`
unfoldable pub may_restart : ModelDownload → Bool
unfolding is_same
may_restart d = is_same d.status pending || is_same d.status downloading

-- the guard of `advance_download_operation`
unfoldable pub is_early : ModelDownloadStatus → ModelDownload → Bool
unfolding is_same
is_early to_status d =
    is_same to_status verifying && not (d.downloaded_bytes == d.expected_size_bytes)

-- the guards of `update_download_progress`, which raise a ValueError
unfoldable pub is_refused : ℕ → ModelDownload → Bool
unfolding is_same
is_refused bytes d =
    not (is_same d.status downloading)
    || (ltb bytes d.downloaded_bytes || not (leb bytes d.expected_size_bytes))

-- the guards of `complete_installation`
unfoldable pub check_installation : String → String → ModelDownload → Outcome (Unit {0})
unfolding validate_download
check_installation model_id version d =
    if str_eq d.model_id model_id && str_eq d.version version
    then validate_download d.status completed
    else err value_error

module _ (S : Sql) where
  -- the primary key and the index `uq_model_download_active`, under which a new download falls because it
  -- is pending, refuse a second row
  unfoldable pub create_download_operation :
      ModelDownload → Registry S → Outcome ModelDownload × Registry S
  unfolding is_operation is_in_flight reread
  create_download_operation d r =
      if any (λ x. is_operation d.operation_id x || is_in_flight d.model_id x) (S.rows r.downloads)
      then (err integrity_error, r)
      else let r' = record r { downloads = S.insert d r.downloads } in
        (reread S d.operation_id r', r')

  unfoldable pub restart_download : String → ℕ → Registry S → Outcome ModelDownload × Registry S
  unfolding with_operation may_restart restarted write_revision
  restart_download operation_id now r = with_operation S operation_id r (λ d.
      if may_restart d
      then write_revision S operation_id d.revision (restarted d.revision now) r r
      else (err value_error, r))

  unfoldable pub switch_download_source :
      String → String → String → ℕ → Registry S → Outcome ModelDownload × Registry S
  unfolding with_operation may_restart switched write_revision
  switch_download_source operation_id source_url source_kind now r =
      with_operation S operation_id r (λ d.
        if may_restart d
        then write_revision S operation_id d.revision
            (switched d.revision source_url source_kind now) r r
        else (err value_error, r))

  unfoldable pub advance_download_operation :
      String
      → ModelDownloadStatus
      → ℕ
      → Changes
      → Option ℕ
      → Registry S
      → Outcome ModelDownload × Registry S
  unfolding with_operation validate_download is_early moved write_revision
  advance_download_operation operation_id to_status now c expected_revision r =
      with_operation S operation_id r (λ d. elim (validate_download d.status to_status) [
        | err e ↦ (err e, r)
        | ok _ ↦
            if is_early to_status d
            then (err value_error, r)
            else let revision = get_or expected_revision d.revision in
              write_revision S operation_id revision (moved to_status revision now c) r r
      ])

  unfoldable pub update_download_progress :
      String
      → ℕ
      → ℕ
      → Option String
      → Option String
      → Option String
      → Option ℕ
      → Registry S
      → Outcome ModelDownload × Registry S
  unfolding with_operation is_refused progressed write_revision
  update_download_progress operation_id bytes now temp_path etag last_modified expected_revision r =
      with_operation S operation_id r (λ d.
        if is_refused bytes d
        then (err value_error, r)
        else let revision = get_or expected_revision d.revision in
          write_revision S operation_id revision
            (progressed bytes revision now temp_path etag last_modified) r r)

  unfoldable pub complete_installation :
      String → String → String → String → ℕ → Registry S → Outcome ModelDownload × Registry S
  unfolding with_operation check_installation installed write_revision put_installation put_active
  complete_installation operation_id model_id version installed_path now r =
      with_operation S operation_id r (λ d. elim (check_installation model_id version d) [
        | err e ↦ (err e, r)
        | ok _ ↦ write_revision S operation_id d.revision (installed d.revision now) r (
            put_active S model_id version now
              (put_installation S model_id version installed_path now r))
      ])
