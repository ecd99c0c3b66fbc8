-- ===== src/Downloads/Completing.antt =====
-- The end of an installation: what `complete_installation`, `activate_installation` and
-- `uninstall_model` leave behind, and the downloads that are over.
use evoblue_video_mcp.Prelude.{
  ℕ, ◌+◌, ◌&&◌, Bool, true, false, inl, inr, Option, none, some, String, str_eq, All-every,
  Bool-cases, Option-cases, eq_iff, first-passes, ◌⊎◌, if◌then◌else◌, ◌≡◌, refl, ◌∙◌, ap,
}
use evoblue_video_mcp.Outcome.{ok, err, value_error, transition_error}
use evoblue_video_mcp.Sql.{Sql, IsLawful, apply_where}
use evoblue_video_mcp.Sql.Keys.{first-insert, first-keeps}
use evoblue_video_mcp.Downloads.Status.{completed, validate_download, is_allowed}
use evoblue_video_mcp.Downloads.Registry.{
  ModelInstall, ActiveModel, ModelDownload, Registry, is_install, is_active_of, get_installation,
  get_active_model, get_download_operation, with_operation,
}
use evoblue_video_mcp.Downloads.Installs.{put_installation, put_active}
use evoblue_video_mcp.Downloads.Transfers.{installed, check_installation, complete_installation}
use evoblue_video_mcp.Downloads.Fit.{installed-Proceeds}
use evoblue_video_mcp.Downloads.Writes.{written, write_revision-current, get-written, here_passes}
use evoblue_video_mcp.Downloads.Sound.{IsSound, new_path, new_version, same_install}

-- the path that is read of an installation, and the version that is read of an active model
abbrev pub path_of : Option ModelInstall → Option String
path_of none = none
path_of (some i) = some i.installed_path

abbrev pub version_of : Option ActiveModel → Option String
version_of none = none
version_of (some a) = some a.active_version

unfoldable pub may_complete : String → String → ModelDownload → Bool
may_complete m v d = str_eq d.model_id m && str_eq d.version v && is_allowed d.status completed

module _ (S : Sql) (k m v path : String) (now : ℕ) (r : Registry S) (d : ModelDownload) where
  -- the download is COMPLETED, its path is the installed one and its version the active one
  abbrev pub Completes : Type 0
  Completes =
      let out = complete_installation S k m v path now r in
      let done = record d {
        status = completed;
        revision = d.revision + 1;
        error_code = none;
        error_detail = none;
        updated_at = now;
      } in
      (may_complete m v d ≡ true)
      × (out.0 ≡ ok done)
      × (get_download_operation S k out.1 ≡ some done)
      × (path_of (get_installation S m v out.1) ≡ some path)
      × (version_of (get_active_model S m out.1) ≡ some v)

  -- the exception, and nothing is changed
  abbrev pub Declines : Type 0
  Declines =
      (may_complete m v d ≡ false)
      × (complete_installation S k m v path now r ≡ (
        if str_eq d.model_id m && str_eq d.version v then err transition_error else err value_error,
        r,
      ))

module _ (S : Sql) (L : IsLawful S) where
  put-path :
      (m v path : String) (now : ℕ) (r : Registry S)
      → path_of (get_installation S m v (put_installation S m v path now r)) ≡ some path
  unfolding put_installation get_installation is_install
  put-path m v path now r = elim (Option-cases (get_installation S m v r)) [
    | inl absent ↦
        rw (absent, put_installation)
          (rw (L.rows-insert _ r.installs) (
            ap path_of (
              first-insert (is_install m v) (S.rows r.installs) _ absent
                (rw ((eq_iff m m).1 refl, (eq_iff v v).1 refl) refl))))
    | inr (i, found) ↦
        rw (found, put_installation)
          (rw (L.rows-update (is_install m v) _ r.installs) (
            ap path_of (
              first-keeps (is_install m v) (apply_where (is_install m v) (new_path path now))
                (S.rows r.installs) i
                (All-every
                  (λ y.
                    is_install m v (apply_where (is_install m v) (new_path path now) y)
                    ≡ is_install m v y)
                  (S.rows r.installs) (same_install (is_install m v) path now m v))
                found)
            ∙ rw (first-passes (is_install m v) (S.rows r.installs) i found) refl))
  ]

  put-version :
      (m v : String) (now : ℕ) (r : Registry S)
      → version_of (get_active_model S m (put_active S m v now r)) ≡ some v
  unfolding put_active get_active_model is_active_of
  put-version m v now r = elim (Option-cases (get_active_model S m r)) [
    | inl absent ↦
        rw (absent, put_active)
          (rw (L.rows-insert _ r.actives) (
            ap version_of
              (first-insert (is_active_of m) (S.rows r.actives) _ absent ((eq_iff m m).1 refl))))
    | inr (a, found) ↦
        rw (found, put_active)
          (rw (L.rows-update (is_active_of m) _ r.actives) (
            ap version_of (
              first-keeps (is_active_of m) (apply_where (is_active_of m) (new_version v now))
                (S.rows r.actives) a
                (All-every
                  (λ y.
                    is_active_of m (apply_where (is_active_of m) (new_version v now) y)
                    ≡ is_active_of m y)
                  (S.rows r.actives) same_active)
                found)
            ∙ rw (first-passes (is_active_of m) (S.rows r.actives) a found) refl))
  ]
    where
      same_active :
          (y : ActiveModel)
          → is_active_of m (apply_where (is_active_of m) (new_version v now) y) ≡ is_active_of m y
      same_active y = elim (Bool-cases (is_active_of m y)) [ inl e ↦ rw e e | inr e ↦ rw e e ]

  -- For a download that is there in a sound registry, complete_installation of its own model and
  -- version, where the move to COMPLETED is allowed, returns it with status COMPLETED, the next
  -- revision, no error and the new time of update, all else as it was; later reads give that, its
  -- path then reads as installed and its version as active. Otherwise it raises ValueError
  -- (another model or version) or TransitionError and changes nothing at all.
  pub complete_installation_result :
      (k m v path : String) (now : ℕ) (r : Registry S) (d : ModelDownload)
      → IsSound S r
      → get_download_operation S k r ≡ some d
      → Completes S k m v path now r d ⊎ Declines S k m v path now r d
  unfolding complete_installation check_installation validate_download put_active put_installation
      get_download_operation written get_active_model get_installation may_complete installed
  complete_installation_result k m v path now r d s e =
      rw (e, with_operation)
        (elim (Bool-cases (str_eq d.model_id m && str_eq d.version v)) [
          | inr other ↦ rw other (inr (refl, refl))
          | inl own ↦ rw own (elim (Bool-cases (is_allowed d.status completed)) [
            | inr bad ↦ rw bad (inr (refl, refl))
            | inl legal ↦
                let after = put_active S m v now (put_installation S m v path now r) in
                let h = installed-Proceeds now d legal in
                rw legal (
                  rw
                    (write_revision-current S L k (installed d.revision now) r after d s.tracked e
                      h)
                    (inl (
                      refl,
                      refl,
                      get-written S L k k (installed d.revision now) after d d s.tracked e h e
                          ∙ (rw (here_passes S L k r d e) refl),
                      put-path m v path now r,
                      put-version m v now (put_installation S m v path now r),
                    )))
          ])
        ])
