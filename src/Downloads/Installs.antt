-- ===== src/Downloads/Installs.antt =====
-- The operations of storage/repository.py on installed and active models.
use evoblue_video_mcp.Prelude.{ℕ, Option, none, some, List, map, select, String, str_eq}
use evoblue_video_mcp.Outcome.{Outcome, ok, err, key_error, vanished}
use evoblue_video_mcp.Sql.{Sql}
use evoblue_video_mcp.Downloads.Registry.{
  ModelInstall, ActiveModel, Registry, is_install, is_active_of, get_installation, get_active_model,
}

module _ (S : Sql) where
  -- `if install is None: session.add(...)`, and then the assignments to the row
  unfoldable pub put_installation : String → String → String → ℕ → Registry S → Registry S
  unfolding get_installation is_install
  put_installation model_id version installed_path now r = record r {
    installs = elim (get_installation S model_id version r) [
      | none ↦
          S.insert
            (record {
              model_id = model_id;
              version = version;
              installed_path = installed_path;
              installed_at = now;
            })
            r.installs
      | some _ ↦
          (S.update (is_install model_id version)
            (λ i. record i { installed_path = installed_path; installed_at = now }) r.installs).0
    ];
  }

  unfoldable pub put_active : String → String → ℕ → Registry S → Registry S
  unfolding get_active_model is_active_of
  put_active model_id version now r = record r {
    actives = elim (get_active_model S model_id r) [
      | none ↦
          S.insert (record { model_id = model_id; active_version = version; updated_at = now })
            r.actives
      | some _ ↦
          (S.update (is_active_of model_id)
            (λ a. record a { active_version = version; updated_at = now }) r.actives).0
    ];
  }

  unfoldable pub activate_installation :
      String → String → ℕ → Registry S → Outcome ActiveModel × Registry S
  unfolding get_installation put_active get_active_model
  activate_installation model_id version now r = elim (get_installation S model_id version r) [
    | none ↦ (err key_error, r)
    | some _ ↦
        let r' = put_active model_id version now r in
        (elim (get_active_model S model_id r') [ none ↦ err vanished | some a ↦ ok a ], r')
  ]

  unfoldable pub save_installation :
      String → String → String → ℕ → Registry S → Outcome ModelInstall × Registry S
  unfolding put_installation get_installation
  save_installation model_id version installed_path now r =
      let r' = put_installation model_id version installed_path now r in
      (elim (get_installation S model_id version r') [ none ↦ err vanished | some i ↦ ok i ], r')

  -- `get_installations`, with and without a model
  unfoldable pub get_installations : Option String → Registry S → List ModelInstall
  get_installations none r = S.rows r.installs
  get_installations (some model_id) r = select (λ i. str_eq i.model_id model_id) (S.rows r.installs)

  unfoldable pub uninstall_model : String → Registry S → List String × Registry S
  uninstall_model model_id r = (
    map (λ i. i.installed_path) (select (λ i. str_eq i.model_id model_id) (S.rows r.installs)),
    record {
      installs = S.delete (λ i. str_eq i.model_id model_id) r.installs;
      actives = S.delete (λ a. str_eq a.model_id model_id) r.actives;
      downloads = S.delete (λ d. str_eq d.model_id model_id) r.downloads;
    },
  )
