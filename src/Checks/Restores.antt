-- ===== src/Checks/Restores.antt =====
-- A restore of a small shelf, and back.
use evoblue_video_mcp.Prelude.{ℕ, false, some, [], ◌∷◌, String, ◌≡◌, refl}
use evoblue_video_mcp.Config.Backups.{BackupFile, Shelf, resolve_backup, restore}
use evoblue_video_mcp.Config.Restoring.{after_restore, restore_then_back}

abbrev old : BackupFile
old = record { name = record { stamp = 1; tag = 2 }; content = "old" }

abbrev shelf : Shelf
shelf = record { target = some "new"; backups = old ∷ [] }

abbrev size : String → ℕ
size s = 3

abbrev digest : String → String
digest s = s

abbrev after : Shelf
after = after_restore size digest (some "old") 5 7 shelf

old_there : resolve_backup size digest old.name shelf ≡ some old
unfolding resolve_backup
old_there = refl

restore_then_back_example :
    restore size digest (record { stamp = 5; tag = 7 }) 6 8 after
    ≡ some (
      record {
        restored_from = record { stamp = 5; tag = 7 };
        safety_backup = record { stamp = 6; tag = 8 };
        removed_target = false;
      },
      after_restore size digest (some "new") 6 8 after,
    )
restore_then_back_example =
    (restore_then_back size digest old.name 5 7 6 8 shelf old old_there (refl, tt) refl).1
