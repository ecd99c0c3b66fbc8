-- ===== src/Downloads/Sound.antt =====
-- Runs of the operations on models: the registry stays sound, and what becomes of a download.
use mathlib.Core.Path.{subst}
use evoblue_video_mcp.Prelude.{
  ℕ, ◌==◌, Bool, true, ◌&&◌, inl, inr, some, String, first, is_some, Bool-cases, Option-cases,
  eq_iff, ==→eq, if◌then◌else◌, ◌≡◌, refl, ap,
}
use evoblue_video_mcp.Outcome.{Outcome, ok, err, stale_revision}
use evoblue_video_mcp.Sql.{Sql, IsLawful, apply_where}
use evoblue_video_mcp.Sql.Keys.{first-insert}
use evoblue_video_mcp.Downloads.Registry.{
  ModelInstall, ActiveModel, ModelDownload, Registry, is_install, is_active_of, get_installation,
  get_active_model, get_download_operation, write_revision, with_operation,
}
use evoblue_video_mcp.Downloads.Installs.{put_installation, put_active}
use evoblue_video_mcp.Downloads.Fit.{Proceeds}
use evoblue_video_mcp.Downloads.Writes.{
  IsTracked, written, written-IsTracked, write_revision-stale, write_revision-current,
}
use evoblue_video_mcp.Downloads.Backed.{
  IsBacked, install_inserted, installs_mapped, active_inserted, active_switched, some-map,
}

pub record IsSound (S : Sql) (r : Registry S) : Type 0 where
  pub tracked : IsTracked (S.rows r.downloads)
  pub backed : IsBacked (S.rows r.installs) (S.rows r.actives)

-- the rows that the operations write
abbrev new_row : String → String → String → ℕ → ModelInstall
new_row m v path now = record {
  model_id = m;
  version = v;
  installed_path = path;
  installed_at = now;
}

abbrev pub new_path : String → ℕ → ModelInstall → ModelInstall
new_path path now i = record i { installed_path = path; installed_at = now }

abbrev new_active : String → String → ℕ → ActiveModel
new_active m v now = record { model_id = m; active_version = v; updated_at = now }

abbrev pub new_version : String → ℕ → ActiveModel → ActiveModel
new_version v now a = record a { active_version = v; updated_at = now }

pub same_install :
    (p : ModelInstall → Bool) (path : String) (now : ℕ) (m v : String) (i : ModelInstall)
    → is_install m v (apply_where p (new_path path now) i) ≡ is_install m v i
unfolding is_install
same_install p path now m v i = elim (Bool-cases (p i)) [ inl e ↦ rw e refl | inr e ↦ rw e refl ]

both : {a b : Bool} → a ≡ true → b ≡ true → (a && b) ≡ true
both e f = rw (e, f) refl

module _ (S : Sql) (L : IsLawful S) where
  -- The outcome of the write on the row that was read, for any expected revision.
  pub write_revision-eq :
      (operation_id : String) (revision : ℕ) (f : ℕ → ModelDownload → ModelDownload)
      (before after : Registry S) (d : ModelDownload)
      → IsTracked (S.rows after.downloads)
      → get_download_operation S operation_id after ≡ some d
      → Proceeds d (f d.revision d)
      → write_revision S operation_id revision (f revision) before after ≡ (
          if d.revision == revision
          then (ok (f d.revision d), written S operation_id d.revision (f d.revision) after)
          else (err stale_revision, before))
  write_revision-eq operation_id revision f before after d t e h =
      elim (Bool-cases (d.revision == revision)) [
        | inr stale ↦
            rw stale
              (write_revision-stale S L operation_id revision (f revision) before after d t e stale)
        | inl current ↦ rw current (
            subst
              (λ n.
                write_revision S operation_id n (f n) before after
                ≡ (ok (f d.revision d), written S operation_id d.revision (f d.revision) after))
              (==→eq d.revision revision current)
              (write_revision-current S L operation_id (f d.revision) before after d t e h))
      ]

  pub written-IsSound :
      (operation_id : String) (revision : ℕ) (f : ℕ → ModelDownload → ModelDownload)
      (before after : Registry S) (d : ModelDownload)
      → IsSound S before
      → IsSound S after
      → get_download_operation S operation_id after ≡ some d
      → Proceeds d (f d.revision d)
      → IsSound S (write_revision S operation_id revision (f revision) before after).1
  unfolding written
  written-IsSound operation_id revision f before after d b a e h =
      rw (write_revision-eq operation_id revision f before after d a.tracked e h)
        (elim (Bool-cases (d.revision == revision)) [
          | inl current ↦ rw current (record {
            tracked = written-IsTracked S L operation_id (f d.revision) after d a.tracked e h;
            backed = a.backed;
          })
          | inr stale ↦ rw stale b
        ])

  pub with_operation-IsSound :
      (operation_id : String) (r : Registry S)
      (body : ModelDownload → Outcome ModelDownload × Registry S)
      → IsSound S r
      → ((d : ModelDownload)
          → get_download_operation S operation_id r ≡ some d
          → IsSound S (body d).1)
      → IsSound S (with_operation S operation_id r body).1
  unfolding with_operation
  with_operation-IsSound operation_id r body s h =
      elim (Option-cases (get_download_operation S operation_id r)) [
        | inl e ↦ rw (e, with_operation) s
        | inr (d, e) ↦ rw (e, with_operation) (h d e)
      ]

  pub put_installation-IsSound :
      (m v path : String) (now : ℕ) (r : Registry S)
      → IsSound S r
      → IsSound S (put_installation S m v path now r)
  unfolding put_installation get_installation is_install
  put_installation-IsSound m v path now r s = elim (Option-cases (get_installation S m v r)) [
    | inl absent ↦
        rw (absent, put_installation)
          (record {
            tracked = s.tracked;
            backed = rw (L.rows-insert (new_row m v path now) r.installs) (
                install_inserted (new_row m v path now) (S.rows r.installs) (S.rows r.actives)
                  absent s.backed);
          })
    | inr (i, found) ↦
        rw (found, put_installation)
          (record {
            tracked = s.tracked;
            backed = rw (L.rows-update (is_install m v) (new_path path now) r.installs) (
                installs_mapped (apply_where (is_install m v) (new_path path now))
                  (S.rows r.installs) (S.rows r.actives) (same_install (is_install m v) path now)
                  s.backed);
          })
  ]

  pub there_now :
      (m v path : String) (now : ℕ) (r : Registry S)
      → is_some (first (is_install m v) (S.rows (put_installation S m v path now r).installs))
        ≡ true
  unfolding put_installation get_installation is_install
  there_now m v path now r = elim (Option-cases (get_installation S m v r)) [
    | inl absent ↦
        rw (absent, put_installation)
          (rw (L.rows-insert (new_row m v path now) r.installs) (
            rw
              (first-insert (is_install m v) (S.rows r.installs) (new_row m v path now) absent
                (both ((eq_iff m m).1 refl) ((eq_iff v v).1 refl)))
              refl))
    | inr (i, found) ↦
        rw (found, put_installation)
          (rw (L.rows-update (is_install m v) (new_path path now) r.installs) (
            some-map (is_install m v) (apply_where (is_install m v) (new_path path now))
              (S.rows r.installs) (same_install (is_install m v) path now m v) (ap is_some found)))
  ]

  pub put_active-IsSound :
      (m v : String) (now : ℕ) (r : Registry S)
      → is_some (first (is_install m v) (S.rows r.installs)) ≡ true
      → IsSound S r
      → IsSound S (put_active S m v now r)
  unfolding put_active get_active_model is_active_of
  put_active-IsSound m v now r there s = elim (Option-cases (get_active_model S m r)) [
    | inl absent ↦
        rw (absent, put_active)
          (record {
            tracked = s.tracked;
            backed = rw (L.rows-insert (new_active m v now) r.actives) (
                active_inserted (new_active m v now) (S.rows r.installs) (S.rows r.actives) absent
                  there s.backed);
          })
    | inr (a, found) ↦
        rw (found, put_active)
          (record {
            tracked = s.tracked;
            backed =
                rw (L.rows-update (is_active_of m) (new_version v now) r.actives)
                  (active_switched m v now (S.rows r.installs) (S.rows r.actives) there s.backed);
          })
  ]
