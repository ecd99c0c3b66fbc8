-- ===== src/Storage/Settings.antt =====
-- storage/repository.py: the row of application settings, and the models that parked jobs wait for.
use evoblue_video_mcp.Prelude.{
  ℕ, ◌==◌, Bool, inl, inr, Option, none, some, List, [], ◌∷◌, String, str_eq, first, any, select,
  Bool-cases, Option-cases, ==_self, ==→eq, All-every, first-passes, if◌then◌else◌, ◌≡◌, refl, ◌∙◌,
  ap,
}
use evoblue_video_mcp.Outcome.{Outcome, ok, err, vanished}
use evoblue_video_mcp.Sql.{Sql, IsLawful, apply_where}
use evoblue_video_mcp.Sql.Keys.{first-keeps, first-insert}
use evoblue_video_mcp.Jobs.States.{waiting_for_model, same}
use evoblue_video_mcp.Storage.Models.{Job}

-- `AppSettings` of models.py
pub record AppSettings : Type 0 where
  pub id : ℕ
  pub setup_completed : Bool
  pub report_directory : Option String
  pub llm_provider : Option String
  pub llm_base_url : Option String
  pub llm_model : Option String
  pub llm_credential_ref : Option String
  pub llm_credential_origin : Option String
  pub asr_provider : Option String
  pub whisper_cpp_executable : Option String
  pub updated_at : ℕ

-- the values of a call, for a row
unfoldable pub saved : AppSettings → AppSettings → AppSettings
saved values row = record values { id = row.id }

-- `SELECT DISTINCT`, where each value stands at its last place
unfoldable pub distinct : List String → List String
distinct [] = []
distinct (s ∷ rest) =
    let later = distinct rest in if any (λ t. str_eq t s) rest then later else s ∷ later

-- the ids that are there
unfoldable pub named_models : List Job → List String
named_models [] = []
named_models (j ∷ rest) = elim j.asr_recommendation_model_id [
  | none ↦ named_models rest
  | some model_id ↦ model_id ∷ named_models rest
]

module _ (S : Sql) where
  unfoldable pub get_app_settings : S.Table AppSettings → Option AppSettings
  get_app_settings t = first (λ row. row.id == 1) (S.rows t)

  -- the re-read after the commit
  unfoldable pub settings_saved : S.Table AppSettings → Outcome AppSettings × S.Table AppSettings
  unfolding get_app_settings
  settings_saved t = elim (get_app_settings t) [ none ↦ (err vanished, t) | some row ↦ (ok row, t) ]

  -- `save_app_settings` with its commit
  unfoldable pub save_app_settings :
      AppSettings → S.Table AppSettings → Outcome AppSettings × S.Table AppSettings
  unfolding get_app_settings settings_saved saved
  save_app_settings values t = elim (get_app_settings t) [
    | none ↦ settings_saved (S.insert (record values { id = 1 }) t)
    | some row ↦ settings_saved (S.update (λ r. r.id == row.id) (saved values) t).0
  ]

  -- `list_waiting_model_ids`
  unfoldable pub list_waiting_model_ids : S.Table Job → List String
  unfolding distinct named_models
  list_waiting_model_ids t =
      distinct (named_models (select (λ j. same j.status waiting_for_model) (S.rows t)))

module _ (S : Sql) (L : IsLawful S) where
  reread :
      (t : S.Table AppSettings) (row : AppSettings)
      → get_app_settings S t ≡ some row
      → settings_saved S t ≡ (ok row, t)
  unfolding settings_saved
  reread t row h = rw (h, settings_saved) refl

  -- save_app_settings gives the row 1 with exactly the values of the call, on a first save and on
  -- a later one, and get_app_settings then reads that row.
  pub save_app_settings_result :
      (values : AppSettings) (t : S.Table AppSettings)
      → ((save_app_settings S values t).0 ≡ ok (record values { id = 1 }))
        × (get_app_settings S (save_app_settings S values t).1 ≡ some (record values { id = 1 }))
  unfolding save_app_settings
  save_app_settings_result values t = elim (Option-cases (get_app_settings S t)) [
    | inl e ↦
        let added : get_app_settings S (S.insert (record values { id = 1 }) t)
            ≡ some (record values { id = 1 }) =
          unfold get_app_settings in
          (rw (L.rows-insert (record values { id = 1 }) t) (
            first-insert (λ (r : AppSettings). r.id == 1) (S.rows t) (record values { id = 1 }) e
              refl)) in
        rw
          (
            e,
            reread (S.insert (record values { id = 1 }) t) (record values { id = 1 }) added,
            save_app_settings,
          )
          (refl, added)
    | inr (row, e) ↦
        let hit = λ (r : AppSettings). r.id == row.id in
        let u = (S.update hit (saved values) t).0 in
        let one : row.id ≡ 1 = ==→eq row.id 1 (
          first-passes (λ (r : AppSettings). r.id == 1) (S.rows t) row
            (unfold get_app_settings in e)) in
        let written : apply_where hit (saved values) row ≡ record values { id = 1 } =
          rw (==_self row.id) (unfold saved in ap (λ n. record values { id = n }) one) in
        let found : get_app_settings S u ≡ some (record values { id = 1 }) =
          unfold get_app_settings in
          (rw (L.rows-update hit (saved values) t) (
            first-keeps (λ (r : AppSettings). r.id == 1) (apply_where hit (saved values)) (S.rows t)
              row (All-every _ (S.rows t) (same_key hit)) (unfold get_app_settings in e)
            ∙ ap some written)) in
        rw (e, reread u (record values { id = 1 }) found, save_app_settings) (refl, found)
  ]
    where
      same_key :
          (hit : AppSettings → Bool) (r : AppSettings)
          → ((apply_where hit (saved values) r).id == 1) ≡ (r.id == 1)
      same_key hit r = elim (Bool-cases (hit r)) [
        | inl h ↦ rw h (unfold saved in refl)
        | inr h ↦ rw h refl
      ]
