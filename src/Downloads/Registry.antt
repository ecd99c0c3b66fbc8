-- ===== src/Downloads/Registry.antt =====
-- The tables `model_install`, `active_model` and `model_download` of storage/models.py, and how
-- storage/repository.py reads them and writes a download with a check of its revision.
use evoblue_video_mcp.Prelude.{
  ℕ, ◌==◌, Bool, ◌&&◌, Option, none, some, [], ◌∷◌, String, str_eq, first, select, ltb, leb, ◌||◌,
}
use evoblue_video_mcp.Outcome.{Outcome, ok, err, key_error, vanished, stale_revision}
use evoblue_video_mcp.Sql.{Sql}
use evoblue_video_mcp.Storage.Session.{settle}
use evoblue_video_mcp.Downloads.Status.{ModelDownloadStatus, in_flight}

pub record ModelInstall : Type 0 where
  pub model_id : String
  pub version : String
  pub installed_path : String
  pub installed_at : ℕ

pub record ActiveModel : Type 0 where
  pub model_id : String
  pub active_version : String
  pub updated_at : ℕ

pub record ModelDownload : Type 0 where
  pub operation_id : String
  pub model_id : String
  pub version : String
  pub source_url : String
  pub source_kind : String
  pub expected_sha256 : String
  pub expected_size_bytes : ℕ
  pub downloaded_bytes : ℕ
  pub temp_path : Option String
  pub etag : Option String
  pub last_modified : Option String
  pub status : ModelDownloadStatus
  pub error_code : Option String
  pub error_detail : Option String
  pub revision : ℕ
  pub created_at : ℕ
  pub updated_at : ℕ

pub record Registry (S : Sql) : Type 0 where
  pub installs : S.Table ModelInstall
  pub actives : S.Table ActiveModel
  pub downloads : S.Table ModelDownload

-- the keys that the reads and the guards name
unfoldable pub is_install : String → String → ModelInstall → Bool
is_install model_id version i = str_eq i.model_id model_id && str_eq i.version version

unfoldable pub is_active_of : String → ActiveModel → Bool
is_active_of model_id a = str_eq a.model_id model_id

unfoldable pub is_operation : String → ModelDownload → Bool
is_operation operation_id d = str_eq d.operation_id operation_id

-- the rows of the partial unique index `uq_model_download_active`
unfoldable pub is_in_flight : String → ModelDownload → Bool
is_in_flight model_id d = str_eq d.model_id model_id && in_flight d.status

unfoldable pub at_revision : String → ℕ → ModelDownload → Bool
unfolding is_operation
at_revision operation_id revision d = is_operation operation_id d && (d.revision == revision)

-- `ORDER BY created_at DESC, revision DESC`
unfoldable pub later : ModelDownload → ModelDownload → Bool
later a b =
    ltb b.created_at a.created_at || (a.created_at == b.created_at && leb b.revision a.revision)

module _ (S : Sql) where
  unfoldable pub get_installation : String → String → Registry S → Option ModelInstall
  unfolding is_install
  get_installation model_id version r = first (is_install model_id version) (S.rows r.installs)

  unfoldable pub get_active_model : String → Registry S → Option ActiveModel
  unfolding is_active_of
  get_active_model model_id r = first (is_active_of model_id) (S.rows r.actives)

  unfoldable pub get_download_operation : String → Registry S → Option ModelDownload
  unfolding is_operation
  get_download_operation operation_id r = first (is_operation operation_id) (S.rows r.downloads)

  unfoldable pub find_active_download_operation : String → Registry S → Option ModelDownload
  unfolding is_in_flight
  find_active_download_operation model_id r = first (is_in_flight model_id) (S.rows r.downloads)

  -- `.limit(1)` and `.first()`
  unfoldable pub find_latest_download_operation :
      String → String → Registry S → Option ModelDownload
  unfolding later
  find_latest_download_operation model_id version r =
      elim (S.order_by later (
        select (λ d. str_eq d.model_id model_id && str_eq d.version version)
          (S.rows r.downloads))) [ [] ↦ none | d ∷ ds ↦ some d ]

  -- the read after a commit, and its `vanished after write`
  unfoldable pub reread : String → Registry S → Outcome ModelDownload
  unfolding get_download_operation
  reread operation_id r = elim (get_download_operation operation_id r) [
    | none ↦ err vanished
    | some d ↦ ok d
  ]

  -- The UPDATE with its check of the revision: what is pending is committed only if it hit a row.
  unfoldable pub write_revision :
      String
      → ℕ
      → (ModelDownload → ModelDownload)
      → Registry S
      → Registry S
      → Outcome ModelDownload × Registry S
  unfolding at_revision reread settle
  write_revision operation_id revision f before pending =
      let u = S.update (at_revision operation_id revision) f pending.downloads in
      settle (record pending { downloads = u.0 }, u.1) (err stale_revision) (reread operation_id)
        before

  -- `operation = await get_download_operation(...)`, with its KeyError
  unfoldable pub with_operation :
      String
      → Registry S
      → (ModelDownload → Outcome ModelDownload × Registry S)
      → Outcome ModelDownload × Registry S
  unfolding get_download_operation
  with_operation operation_id r body = elim (get_download_operation operation_id r) [
    | none ↦ (err key_error, r)
    | some operation ↦ body operation
  ]
