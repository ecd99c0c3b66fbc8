-- ===== src/Config/Restoring.antt =====
-- A restore can be undone: its safety backup outlives the pruning.
use evoblue_video_mcp.Prelude.{
  ℕ, ◌==◌, Bool, true, false, ◌&&◌, ◌||◌, not, Option, none, some, List, [], ◌∷◌, String, any,
  first, select, drop, ltb, get_or, All, All-select, All-imp, ==_self, if◌then◌else◌, ◌≡◌, refl,
  ◌∙◌, ap, arith,
}
use evoblue_video_mcp.Prelude.Windows.{All-drop}
use evoblue_video_mcp.Sql.Memory.{insert_in_order, insertion_sort, sort_keeps}
use evoblue_video_mcp.Config.Backups.{
  BackupName, BackupFile, Shelf, sentinel_payload, is_sentinel, same_name, newer_first,
  backup_paths, prune_backups, commit_backup, create_backup, resolve_backup, restore,
}

-- the name is newer than the file's
abbrev pub is_newer : BackupName → BackupFile → Bool
is_newer name f =
    ltb f.name.stamp name.stamp || (name.stamp == f.name.stamp && ltb f.name.tag name.tag)

newer_differs :
    (name : BackupName) (f : BackupFile) → is_newer name f ≡ true → same_name f.name name ≡ false
newer_differs name f h = ground arith

module _ (new : BackupFile) (files : List BackupFile)
    (newest : All (λ f. is_newer new.name f ≡ true) files) where
  -- the newest backup comes first
  newest_first : backup_paths (new ∷ files) ≡ new ∷ backup_paths files
  unfolding backup_paths insertion_sort
  newest_first =
      front (insertion_sort newer_first files)
        ((sort_keeps newer_first (λ f. is_newer new.name f ≡ true) files).0 newest)
    where
      newer : (f : BackupFile) → is_newer new.name f ≡ true → newer_first new f ≡ true
      newer f h = unfold newer_first in ground arith

      front :
          (fs : List BackupFile)
          → All (λ f. is_newer new.name f ≡ true) fs
          → insert_in_order newer_first new fs ≡ new ∷ fs
      front [] h = unfold insert_in_order in refl
      front (f ∷ fs) h =
          let e : newer_first new f ≡ true = newer f h.0 in unfold insert_in_order in rw e refl

  -- and none of the old ones has its name
  none_old : any (λ o. same_name o.name new.name) (drop 5 (backup_paths (new ∷ files))) ≡ false
  unfolding backup_paths
  none_old =
      let differ = λ (f : BackupFile). same_name f.name new.name ≡ false in
      let apart =
        All-imp (λ f. is_newer new.name f ≡ true) differ files (newer_differs new.name) newest in
      ap (λ fs. any (λ (o : BackupFile). same_name o.name new.name) (drop 5 fs)) newest_first
      ∙ none_of (λ o. same_name o.name new.name) (drop 4 (insertion_sort newer_first files))
          (All-drop differ 4 (insertion_sort newer_first files)
            ((sort_keeps newer_first differ files).0 apart))
    where
      none_of :
          (p : BackupFile → Bool) (fs : List BackupFile)
          → All (λ f. p f ≡ false) fs
          → any p fs ≡ false
      none_of p [] h = refl
      none_of p (f ∷ fs) h = rw (h.0, none_of p fs h.1) refl

  -- so the pruning leaves it
  newest_stays : first (λ f. same_name f.name new.name) (prune_backups (new ∷ files)) ≡ some new
  unfolding prune_backups
  newest_stays = rw none_old (rw (==_self new.name.stamp, ==_self new.name.tag) refl)

module _ (size : String → ℕ) (sha256_hex : String → String) where
  -- the new backup is found after it is taken
  found_after :
      (now tag : ℕ) (shelf : Shelf)
      → All (λ f. is_newer (record { stamp = now; tag = tag }) f ≡ true) shelf.backups
      → resolve_backup size sha256_hex
          (record { stamp = now; tag = tag })
          (create_backup size sha256_hex now tag shelf).1
        ≡ some (record {
          name = record { stamp = now; tag = tag };
          content = get_or shelf.target sentinel_payload;
        })
  unfolding resolve_backup create_backup commit_backup
  found_after now tag shelf h =
      let name : BackupName = record { stamp = now; tag = tag } in
      let others = select (λ (f : BackupFile). not (same_name f.name name)) shelf.backups in
      newest_stays (record { name = name; content = get_or shelf.target sentinel_payload }) others
        (All-select (λ f. is_newer name f ≡ true) (λ f. not (same_name f.name name)) shelf.backups
          h)

  -- the shelf after a restore of that content
  abbrev pub after_restore : Option String → ℕ → ℕ → Shelf → Shelf
  after_restore target now tag shelf = record (create_backup size sha256_hex now tag shelf).1 {
    target = target;
  }

  abbrev pub restored_target : String → Option String
  restored_target content = if is_sentinel content then none else some content

  restore_found :
      (name : BackupName) (now tag : ℕ) (shelf : Shelf) (f : BackupFile)
      → resolve_backup size sha256_hex name shelf ≡ some f
      → restore size sha256_hex name now tag shelf
        ≡ some (
          record {
            restored_from = f.name;
            safety_backup = record { stamp = now; tag = tag };
            removed_target = is_sentinel f.content;
          },
          after_restore (restored_target f.content) now tag shelf,
        )
  unfolding restore create_backup
  restore_found name now tag shelf f found = rw (found, restore) refl

  -- A restore of a backup that is there, at a time after all backups of the target, writes the
  -- content of the backup or removes the target, and its safety backup is still there after the
  -- pruning: restoring that one, at any time, gives the target as it was before, unless the target
  -- was a file with the text of the sentinel.
  pub restore_then_back :
      (name : BackupName) (now tag now' tag' : ℕ) (shelf : Shelf) (f : BackupFile)
      → resolve_backup size sha256_hex name shelf ≡ some f
      → All (λ g. is_newer (record { stamp = now; tag = tag }) g ≡ true) shelf.backups
      → restored_target (get_or shelf.target sentinel_payload) ≡ shelf.target
      → let safety : BackupName = record { stamp = now; tag = tag } in
        let after = after_restore (restored_target f.content) now tag shelf in
        (restore size sha256_hex name now tag shelf
          ≡ some (
            record {
              restored_from = f.name;
              safety_backup = safety;
              removed_target = is_sentinel f.content;
            },
            after,
          ))
        × (restore size sha256_hex safety now' tag' after
            ≡ some (
              record {
                restored_from = safety;
                safety_backup = record { stamp = now'; tag = tag' };
                removed_target = is_sentinel (get_or shelf.target sentinel_payload);
              },
              after_restore shelf.target now' tag' after,
            ))
  restore_then_back name now tag now' tag' shelf f found newest plain =
      let safety : BackupName = record { stamp = now; tag = tag } in
      let after = after_restore (restored_target f.content) now tag shelf in
      let saved : BackupFile = record {
        name = safety;
        content = get_or shelf.target sentinel_payload;
      } in
      let there : resolve_backup size sha256_hex safety after ≡ some saved =
        unfold resolve_backup in found_after now tag shelf newest in
      (
        restore_found name now tag shelf f found,
        restore_found safety now' tag' after saved there
            ∙ ap
                (λ t. some (
                  record {
                    restored_from = safety;
                    safety_backup = record { stamp = now'; tag = tag' };
                    removed_target = is_sentinel (get_or shelf.target sentinel_payload);
                  },
                  after_restore t now' tag' after,
                ))
                plain,
      )
