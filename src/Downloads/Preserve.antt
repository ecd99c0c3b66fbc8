-- ===== src/Downloads/Preserve.antt =====
-- Every operation on models keeps the registry sound.
use evoblue_video_mcp.Prelude.{
  ℕ, ◌&&◌, inl, inr, Option, String, str_eq, is_some, All-select, Bool-cases, Option-cases, get_or,
  ap,
}
use evoblue_video_mcp.Sql.{Sql, IsLawful}
use evoblue_video_mcp.Sql.Keys.{AtMostOne-select}
use evoblue_video_mcp.Downloads.Status.{
  ModelDownloadStatus, completed, validate_download, is_allowed,
}
use evoblue_video_mcp.Downloads.Registry.{
  Registry, is_operation, is_in_flight, get_installation, get_download_operation,
}
use evoblue_video_mcp.Downloads.Installs.{
  put_installation, put_active, activate_installation, save_installation, uninstall_model,
}
use evoblue_video_mcp.Downloads.Transfers.{
  restarted, switched, installed, Changes, moved, progressed, may_restart, is_early, is_refused,
  check_installation, restart_download, switch_download_source, advance_download_operation,
  update_download_progress, complete_installation,
}
use evoblue_video_mcp.Downloads.Fit.{
  IsFit, restarted-Proceeds, switched-Proceeds, installed-Proceeds, moved-Proceeds,
  progressed-Proceeds,
}
use evoblue_video_mcp.Downloads.Backed.{model_deleted}
use evoblue_video_mcp.Downloads.Sound.{
  IsSound, written-IsSound, with_operation-IsSound, put_installation-IsSound, there_now,
  put_active-IsSound,
}

module _ (S : Sql) (L : IsLawful S) where
  pub save_installation-IsSound :
      (m v path : String) (now : ℕ) (r : Registry S)
      → IsSound S r
      → IsSound S (save_installation S m v path now r).1
  unfolding save_installation
  save_installation-IsSound m v path now r s = put_installation-IsSound S L m v path now r s

  pub activate-IsSound :
      (m v : String) (now : ℕ) (r : Registry S)
      → IsSound S r
      → IsSound S (activate_installation S m v now r).1
  unfolding activate_installation get_installation
  activate-IsSound m v now r s = elim (Option-cases (get_installation S m v r)) [
    | inl e ↦ rw (e, activate_installation) s
    | inr (i, e) ↦ rw (e, activate_installation) (put_active-IsSound S L m v now r (ap is_some e) s)
  ]

  pub uninstall-IsSound :
      (m : String) (r : Registry S) → IsSound S r → IsSound S (uninstall_model S m r).1
  unfolding uninstall_model
  uninstall-IsSound m r s = record {
    tracked = rw (L.rows-delete (λ d. str_eq d.model_id m) r.downloads) (record {
      operations =
          λ k. AtMostOne-select (is_operation k) _ (S.rows r.downloads) (s.tracked.operations k);
      flights = λ n. AtMostOne-select (is_in_flight n) _ (S.rows r.downloads) (s.tracked.flights n);
      fits = All-select IsFit _ (S.rows r.downloads) s.tracked.fits;
    });
    backed =
        rw
          (
            L.rows-delete (λ i. str_eq i.model_id m) r.installs,
            L.rows-delete (λ a. str_eq a.model_id m) r.actives,
          )
          (model_deleted m (S.rows r.installs) (S.rows r.actives) s.backed);
  }

  pub restart-IsSound :
      (k : String) (now : ℕ) (r : Registry S)
      → IsSound S r
      → IsSound S (restart_download S k now r).1
  unfolding restart_download
  restart-IsSound k now r s = with_operation-IsSound S L k r _ s (λ d e.
      elim (Bool-cases (may_restart d)) [
        | inr bad ↦ rw bad s
        | inl young ↦ rw young (
            written-IsSound S L k d.revision (λ n. restarted n now) r r d s s e
              (restarted-Proceeds now d young))
      ])

  pub switch-IsSound :
      (k url kind : String) (now : ℕ) (r : Registry S)
      → IsSound S r
      → IsSound S (switch_download_source S k url kind now r).1
  unfolding switch_download_source
  switch-IsSound k url kind now r s = with_operation-IsSound S L k r _ s (λ d e.
      elim (Bool-cases (may_restart d)) [
        | inr bad ↦ rw bad s
        | inl young ↦ rw young (
            written-IsSound S L k d.revision (λ n. switched n url kind now) r r d s s e
              (switched-Proceeds url kind now d young))
      ])

  pub advance-IsSound :
      (k : String) (to_status : ModelDownloadStatus) (now : ℕ) (c : Changes) (expected : Option ℕ)
      (r : Registry S)
      → IsSound S r
      → IsSound S (advance_download_operation S k to_status now c expected r).1
  unfolding advance_download_operation validate_download
  advance-IsSound k to_status now c expected r s = with_operation-IsSound S L k r _ s (λ d e.
      elim (Bool-cases (is_allowed d.status to_status)) [
        | inr bad ↦ rw bad s
        | inl legal ↦ rw legal (elim (Bool-cases (is_early to_status d)) [
          | inl early ↦ rw early s
          | inr ready ↦ rw ready (
              written-IsSound S L k (get_or expected d.revision) (λ n. moved to_status n now c) r r
                d s s e (moved-Proceeds to_status now c d legal ready))
        ])
      ])

  pub progress-IsSound :
      (k : String) (bytes now : ℕ) (temp_path etag last_modified : Option String)
      (expected : Option ℕ) (r : Registry S)
      → IsSound S r
      → IsSound S (update_download_progress S k bytes now temp_path etag last_modified expected r).1
  unfolding update_download_progress
  progress-IsSound k bytes now temp_path etag last_modified expected r s =
      with_operation-IsSound S L k r _ s (λ d e. elim (Bool-cases (is_refused bytes d)) [
        | inl bad ↦ rw bad s
        | inr fine ↦ rw fine (
            written-IsSound S L k (get_or expected d.revision)
              (λ n. progressed bytes n now temp_path etag last_modified) r r d s s e
              (progressed-Proceeds bytes now temp_path etag last_modified d fine))
      ])

  pub complete-IsSound :
      (k m v path : String) (now : ℕ) (r : Registry S)
      → IsSound S r
      → IsSound S (complete_installation S k m v path now r).1
  unfolding complete_installation check_installation validate_download put_installation put_active
      get_download_operation
  complete-IsSound k m v path now r s = with_operation-IsSound S L k r _ s (λ d e.
      elim (Bool-cases (str_eq d.model_id m && str_eq d.version v)) [
        | inr bad ↦ rw bad s
        | inl same ↦ rw same (elim (Bool-cases (is_allowed d.status completed)) [
          | inr bad ↦ rw bad s
          | inl legal ↦ rw legal (
              written-IsSound S L k d.revision (λ n. installed n now) r
                (put_active S m v now (put_installation S m v path now r)) d s
                (put_active-IsSound S L m v now (put_installation S m v path now r)
                  (there_now S L m v path now r) (put_installation-IsSound S L m v path now r s))
                e (installed-Proceeds now d legal))
        ])
      ])
