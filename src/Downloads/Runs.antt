-- ===== src/Downloads/Runs.antt =====
-- Runs of the operations of storage/repository.py on models, by any callers and in any order, each in
-- its own transaction.
use mathlib.Core.Path.{subst}
use evoblue_video_mcp.Prelude.{
  ℕ, Bool, true, false, ◌||◌, inl, inr, Option, List, [], ◌∷◌, String, str_eq, any, All, All-append,
  Bool-cases, eq_iff, &&-eq_true, ◌≡◌, arith,
}
use evoblue_video_mcp.Sql.{Sql, IsLawful}
use evoblue_video_mcp.Sql.Keys.{AtMostOne-insert, any-none}
use evoblue_video_mcp.Downloads.Status.{ModelDownloadStatus, in_flight}
use evoblue_video_mcp.Downloads.Registry.{ModelDownload, Registry, is_operation, is_in_flight}
use evoblue_video_mcp.Downloads.Installs.{activate_installation, save_installation, uninstall_model}
use evoblue_video_mcp.Downloads.Transfers.{
  new_download, Changes, create_download_operation, restart_download, switch_download_source,
  advance_download_operation, update_download_progress, complete_installation,
}
use evoblue_video_mcp.Downloads.Fit.{IsFit, is_counted}
use evoblue_video_mcp.Downloads.Sound.{IsSound}
use evoblue_video_mcp.Downloads.Preserve.{
  save_installation-IsSound, activate-IsSound, uninstall-IsSound, restart-IsSound, switch-IsSound,
  advance-IsSound, progress-IsSound, complete-IsSound,
}

either_false : (a b : Bool) → (a || b) ≡ false → (a ≡ false) × (b ≡ false)
either_false a b h = ground arith

module _ (k m : String) where
  no_operation :
      (ds : List ModelDownload)
      → All (λ x. (is_operation k x || is_in_flight m x) ≡ false) ds
      → All (λ x. is_operation k x ≡ false) ds × All (λ x. is_in_flight m x ≡ false) ds
  no_operation [] h = (tt, tt)
  no_operation (d ∷ ds) h =
      let (a, b) = either_false (is_operation k d) (is_in_flight m d) h.0 in
      let (rest, more) = no_operation ds h.1 in ((a, rest), (b, more))

module _ (S : Sql) (L : IsLawful S) where
  -- a new download is pending, has no bytes yet, and its keys are free
  pub create-IsSound :
      (k m v url kind sha256 : String) (size now : ℕ) (etag last_modified : Option String)
      (r : Registry S)
      → IsSound S r
      → IsSound S
          (create_download_operation S
            (new_download k m v url kind sha256 size now etag last_modified)
            r).1
  unfolding create_download_operation new_download is_operation is_in_flight in_flight
  create-IsSound k m v url kind sha256 size now etag last_modified r s =
      elim (Bool-cases (any (λ x. is_operation k x || is_in_flight m x) (S.rows r.downloads))) [
        | inl taken ↦ rw taken s
        | inr free ↦
            let (keys, flights) =
              no_operation k m (S.rows r.downloads)
                (any-none (λ x. is_operation k x || is_in_flight m x) (S.rows r.downloads) free) in
            rw free (record {
              tracked = rw (L.rows-insert d r.downloads) (record {
                operations = λ j.
                    AtMostOne-insert (is_operation j) (S.rows r.downloads) d
                      (λ e.
                        subst (λ w. All (λ y. is_operation w y ≡ false) (S.rows r.downloads))
                          ((eq_iff k j).0 e) keys)
                      (s.tracked.operations j);
                flights = λ n.
                    AtMostOne-insert (is_in_flight n) (S.rows r.downloads) d
                      (λ e.
                        subst (λ w. All (λ y. is_in_flight w y ≡ false) (S.rows r.downloads))
                          ((eq_iff m n).0 (&&-eq_true (str_eq m n) true e).0) flights)
                      (s.tracked.flights n);
                fits =
                    All-append IsFit (S.rows r.downloads) (d ∷ []) s.tracked.fits (
                      record { within = omega arith; complete = λ c. unfold is_counted in cc },
                      tt,
                    );
              });
              backed = s.backed;
            })
      ]
    where
      d : ModelDownload
      d = new_download k m v url kind sha256 size now etag last_modified

module _ (S : Sql) where
  -- one operation on models
  pub data ModelOperation (r : Registry S) : Registry S → Type 0 where
    create :
        (k m v url kind sha256 : String) (size now : ℕ) (etag last_modified : Option String)
        → ModelOperation r
            (create_download_operation S
              (new_download k m v url kind sha256 size now etag last_modified)
              r).1
    restart : (k : String) (now : ℕ) → ModelOperation r (restart_download S k now r).1
    switch :
        (k url kind : String) (now : ℕ)
        → ModelOperation r (switch_download_source S k url kind now r).1
    advance :
        (k : String) (to_status : ModelDownloadStatus) (now : ℕ) (c : Changes) (expected : Option ℕ)
        → ModelOperation r (advance_download_operation S k to_status now c expected r).1
    progress :
        (k : String) (bytes now : ℕ) (temp_path etag last_modified : Option String)
        (expected : Option ℕ)
        → ModelOperation r
            (update_download_progress S k bytes now temp_path etag last_modified expected r).1
    complete :
        (k m v path : String) (now : ℕ)
        → ModelOperation r (complete_installation S k m v path now r).1
    save : (m v path : String) (now : ℕ) → ModelOperation r (save_installation S m v path now r).1
    activate : (m v : String) (now : ℕ) → ModelOperation r (activate_installation S m v now r).1
    uninstall : (m : String) → ModelOperation r (uninstall_model S m r).1

  pub data ModelRun (r : Registry S) : Registry S → Type 0 where
    idle : ModelRun r r
    next : {s t : Registry S} → ModelRun r s → ModelOperation s t → ModelRun r t

module _ (S : Sql) (L : IsLawful S) where
  operation-IsSound : {r t : Registry S} → ModelOperation S r t → IsSound S r → IsSound S t
  operation-IsSound {r} (create k m v url kind sha256 size now etag last_modified) s =
      create-IsSound S L k m v url kind sha256 size now etag last_modified r s
  operation-IsSound {r} (restart k now) s = restart-IsSound S L k now r s
  operation-IsSound {r} (switch k url kind now) s = switch-IsSound S L k url kind now r s
  operation-IsSound {r} (advance k to_status now c expected) s =
      advance-IsSound S L k to_status now c expected r s
  operation-IsSound {r} (progress k bytes now temp_path etag last_modified expected) s =
      progress-IsSound S L k bytes now temp_path etag last_modified expected r s
  operation-IsSound {r} (complete k m v path now) s = complete-IsSound S L k m v path now r s
  operation-IsSound {r} (save m v path now) s = save_installation-IsSound S L m v path now r s
  operation-IsSound {r} (activate m v now) s = activate-IsSound S L m v now r s
  operation-IsSound {r} (uninstall m) s = uninstall-IsSound S L m r s

  empty-IsSound :
      (r : Registry S)
      → S.rows r.downloads ≡ []
      → S.rows r.installs ≡ []
      → S.rows r.actives ≡ []
      → IsSound S r
  empty-IsSound r d i a = record {
    tracked = rw d (record { operations = λ k. tt; flights = λ m. tt; fits = tt });
    backed = rw (i, a) (record { installs = λ m v. tt; actives = λ m. tt; backed = tt });
  }

  run-IsSound : {r t : Registry S} → ModelRun S r t → IsSound S r → IsSound S t
  run-IsSound idle s = s
  run-IsSound (next path op) s = operation-IsSound op (run-IsSound path s)

  -- Every registry that any sequence of operations on models reaches from empty tables is sound:
  -- the keys are unique, each model has at most one download in flight, no download has more bytes
  -- than expected, one that is being verified or installed or is completed has exactly the
  -- expected bytes, and every active version is installed.
  pub reached-IsSound :
      (r t : Registry S)
      → S.rows r.downloads ≡ []
      → S.rows r.installs ≡ []
      → S.rows r.actives ≡ []
      → ModelRun S r t
      → IsSound S t
  reached-IsSound r t d i a path = run-IsSound path (empty-IsSound r d i a)
