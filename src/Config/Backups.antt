-- ===== src/Config/Backups.antt =====
-- application/client_config/backup.py, for one target: its content and the backups beside it. The
-- writes of writes.py succeed; the time, the random tag, the length in bytes and SHA-256 are arguments.
use evoblue_video_mcp.Prelude.{
  ℕ, ◌==◌, Bool, ◌&&◌, ◌||◌, not, Option, none, some, List, ◌∷◌, map, String, str_eq, any, first,
  select, drop, ltb, leb, is_none, get_or, if◌then◌else◌,
}
use evoblue_video_mcp.Sql.Memory.{insertion_sort}

-- the part of a backup's name that varies: the UTC second and four hex digits
pub record BackupName : Type 0 where
  pub stamp : ℕ
  pub tag : ℕ

pub record BackupFile : Type 0 where
  pub name : BackupName
  pub content : String

-- the target, none if there is no such file, and the backups that match its name
pub record Shelf : Type 0 where
  pub target : Option String
  pub backups : List BackupFile

-- `BackupInfo` of models.py
pub record BackupInfo : Type 0 where
  pub name : BackupName
  pub created_at : ℕ
  pub size_bytes : ℕ
  pub sha256 : String
  pub was_absent : Bool
  pub matches_current : Option Bool

pub record RestoreResult : Type 0 where
  pub restored_from : BackupName
  pub safety_backup : BackupName
  pub removed_target : Bool

-- `_sentinel_payload`
abbrev pub sentinel_payload : String
sentinel_payload = "EVOBLUE_ABSENT_SENTINEL\n"

-- `_is_sentinel`
abbrev pub is_sentinel : String → Bool
is_sentinel content = str_eq content sentinel_payload

abbrev pub same_name : BackupName → BackupName → Bool
same_name a b = a.stamp == b.stamp && a.tag == b.tag

-- the order of the names: time stamps and hex digits have fixed widths
unfoldable pub newer_first : BackupFile → BackupFile → Bool
newer_first a b =
    ltb b.name.stamp a.name.stamp || (a.name.stamp == b.name.stamp && leb b.name.tag a.name.tag)

-- `_backup_paths`
unfoldable pub backup_paths : List BackupFile → List BackupFile
unfolding newer_first insertion_sort
backup_paths files = insertion_sort newer_first files

-- `_prune`, with `BACKUP_RETENTION`
unfoldable pub prune_backups : List BackupFile → List BackupFile
unfolding backup_paths
prune_backups files =
    let old = drop 5 (backup_paths files) in
    select (λ f. not (any (λ o. same_name o.name f.name) old)) files

-- `commit_atomic` of a backup
unfoldable pub commit_backup : BackupName → String → List BackupFile → List BackupFile
commit_backup name content files =
    record { name = name; content = content } ∷ select (λ f. not (same_name f.name name)) files

module _ (size : String → ℕ) (sha256_hex : String → String) where
  -- `create_backup`, at a moment that is given by its whole seconds: `created_at` leaves out the fraction
  -- of a second that `moment.timestamp()` has
  unfoldable pub create_backup : ℕ → ℕ → Shelf → BackupInfo × Shelf
  unfolding prune_backups commit_backup
  create_backup now tag shelf =
      let current = get_or shelf.target sentinel_payload in
      let name : BackupName = record { stamp = now; tag = tag } in
      (
        record {
          name = name;
          created_at = now;
          size_bytes = size current;
          sha256 = sha256_hex current;
          was_absent = is_none shelf.target;
          matches_current = none;
        },
        record shelf { backups = prune_backups (commit_backup name current shelf.backups) },
      )

  -- `list_backups`
  unfoldable pub list_backups : Shelf → List BackupInfo
  unfolding backup_paths
  list_backups shelf =
      map
        (λ f. record {
          name = f.name;
          created_at = f.name.stamp;
          size_bytes = size f.content;
          sha256 = sha256_hex f.content;
          was_absent = is_sentinel f.content;
          matches_current = elim shelf.target [
            | none ↦ none
            | some current ↦ some (str_eq (sha256_hex f.content) (sha256_hex current))
          ];
        })
        (backup_paths shelf.backups)

  -- `_resolve_backup` and the read, none for BackupNotFoundError
  unfoldable pub resolve_backup : BackupName → Shelf → Option BackupFile
  resolve_backup name shelf = first (λ f. same_name f.name name) shelf.backups

  -- `restore`
  unfoldable pub restore : BackupName → ℕ → ℕ → Shelf → Option (RestoreResult × Shelf)
  unfolding resolve_backup create_backup
  restore name now tag shelf = elim (resolve_backup name shelf) [
    | none ↦ none
    | some f ↦
        let (safety, after) = create_backup now tag shelf in
        some (
          record {
            restored_from = f.name;
            safety_backup = safety.name;
            removed_target = is_sentinel f.content;
          },
          record after { target = if is_sentinel f.content then none else some f.content },
        )
  ]
