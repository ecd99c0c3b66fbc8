-- ===== src/Downloads/Refusals.antt =====
-- The writes of storage/repository.py on downloads that change nothing, and the removal of a model.
use evoblue_video_mcp.Prelude.{
  ℕ, ◌==◌, ◌&&◌, Bool, true, false, not, inl, inr, Option, none, some, List, [], ◌∷◌, String,
  str_eq, first, select, Bool-cases, eq_iff, &&-eq_true, ◌≡◌, refl, ap, arith,
}
use evoblue_video_mcp.Sql.{Sql, IsLawful}
use evoblue_video_mcp.Downloads.Status.{
  ModelDownloadStatus, pending, downloading, verifying, installing, completed, failed, cancelled,
  validate_download, is_allowed, is_over, is_same,
}
use evoblue_video_mcp.Downloads.Registry.{
  ModelDownload, Registry, is_install, is_active_of, is_in_flight, get_installation,
  get_active_model, get_download_operation, find_active_download_operation, with_operation,
}
use evoblue_video_mcp.Downloads.Installs.{uninstall_model}
use evoblue_video_mcp.Downloads.Transfers.{
  Changes, moved, progressed, may_restart, is_early, is_refused, check_installation,
  restart_download, switch_download_source, advance_download_operation, update_download_progress,
  complete_installation,
}
use evoblue_video_mcp.Downloads.Writes.{write_revision-stale}
use evoblue_video_mcp.Downloads.Sound.{IsSound}

over_is_stuck : (a b : ModelDownloadStatus) → is_over a ≡ true → is_allowed a b ≡ false
unfolding is_over is_allowed
over_is_stuck pending b h = cc
over_is_stuck downloading b h = cc
over_is_stuck verifying b h = cc
over_is_stuck installing b h = cc
over_is_stuck completed b h = refl
over_is_stuck failed b h = refl
over_is_stuck cancelled b h = refl

over_is_late :
    (s : ModelDownloadStatus)
    → is_over s ≡ true
    → (is_same s pending ≡ false) × (is_same s downloading ≡ false)
unfolding is_over is_same
over_is_late pending h = cc
over_is_late downloading h = cc
over_is_late verifying h = cc
over_is_late installing h = cc
over_is_late completed h = (refl, refl)
over_is_late failed h = (refl, refl)
over_is_late cancelled h = (refl, refl)

module _ (S : Sql) where
  -- A download that is completed, failed or cancelled takes no write: advancing, progress,
  -- restart, switch of the source and completion leave the registry as it is.
  pub over_takes_no_write :
      (k m v path url kind : String) (to_status : ModelDownloadStatus) (bytes now : ℕ) (c : Changes)
      (temp_path etag last_modified : Option String) (expected : Option ℕ) (r : Registry S)
      (d : ModelDownload)
      → get_download_operation S k r ≡ some d
      → is_over d.status ≡ true
      → ((advance_download_operation S k to_status now c expected r).1 ≡ r)
        × ((update_download_progress S k bytes now temp_path etag last_modified expected r).1 ≡ r)
        × ((restart_download S k now r).1 ≡ r)
        × ((switch_download_source S k url kind now r).1 ≡ r)
        × ((complete_installation S k m v path now r).1 ≡ r)
  unfolding advance_download_operation update_download_progress restart_download
      switch_download_source complete_installation validate_download is_refused may_restart
      check_installation
  over_takes_no_write k m v path url kind to_status bytes now c temp_path etag last_modified
        expected r d e over =
      let (fresh, loading) = over_is_late d.status over in
      (
        rw (e, with_operation) (rw (over_is_stuck d.status to_status over) refl),
        rw (e, with_operation) (rw loading refl),
        rw (e, with_operation) (rw (fresh, loading) refl),
        rw (e, with_operation) (rw (fresh, loading) refl),
        rw (e, with_operation)
            (elim (Bool-cases (str_eq d.model_id m && str_eq d.version v)) [
              | inl own ↦ rw own (rw (over_is_stuck d.status completed over) refl)
              | inr other ↦ rw other refl
            ]),
      )

module _ (S : Sql) (L : IsLawful S) where
  -- In a sound registry, whoever expects another revision of a download than the one stored
  -- changes nothing by advancing it or by reporting progress.
  pub stale_writes_change_nothing :
      (k : String) (to_status : ModelDownloadStatus) (bytes now : ℕ) (c : Changes)
      (temp_path etag last_modified : Option String) (expected : ℕ) (r : Registry S)
      (d : ModelDownload)
      → IsSound S r
      → get_download_operation S k r ≡ some d
      → (d.revision == expected) ≡ false
      → ((advance_download_operation S k to_status now c (some expected) r).1 ≡ r)
        × ((update_download_progress S k bytes now temp_path etag last_modified (some expected) r).1
            ≡ r)
  unfolding advance_download_operation update_download_progress validate_download
  stale_writes_change_nothing k to_status bytes now c temp_path etag last_modified expected r d s e
        stale =
      (
        rw (e, with_operation)
            (elim (Bool-cases (is_allowed d.status to_status)) [
              | inr bad ↦ rw bad refl
              | inl legal ↦ rw legal (elim (Bool-cases (is_early to_status d)) [
                | inl early ↦ rw early refl
                | inr ready ↦ rw ready (
                    ap (λ o. o.1)
                      (write_revision-stale S L k expected (moved to_status expected now c) r r d
                        s.tracked e stale))
              ])
            ]),
        rw (e, with_operation)
            (elim (Bool-cases (is_refused bytes d)) [
              | inl refused ↦ rw refused refl
              | inr fine ↦ rw fine (
                  ap (λ o. o.1)
                    (write_revision-stale S L k expected
                      (progressed bytes expected now temp_path etag last_modified) r r d s.tracked e
                      stale))
            ]),
      )

-- no selected row passes a test that the filter excludes
excluded :
    {R : Type 0} (p q : R → Bool) (xs : List R)
    → ((x : R) → q x ≡ true → p x ≡ false)
    → first p (select q xs) ≡ none
excluded p q [] h = refl
excluded p q (x ∷ xs) h = elim (Bool-cases (q x)) [
  | inl e ↦ rw (e, h x e) (excluded p q xs h)
  | inr e ↦ rw e (excluded p q xs h)
]

kept_by :
    {R : Type 0} (p q : R → Bool) (xs : List R)
    → ((x : R) → p x ≡ true → q x ≡ true)
    → first p (select q xs) ≡ first p xs
kept_by p q [] h = refl
kept_by p q (x ∷ xs) h = elim (Bool-cases (p x)) [
  | inl e ↦ rw (h x e, e) refl
  | inr e ↦ elim (Bool-cases (q x)) [
    | inl t ↦ rw (t, e) (kept_by p q xs h)
    | inr t ↦ rw (t, e) (kept_by p q xs h)
  ]
]

gone : (x m : String) (b : Bool) → not (str_eq x m) ≡ true → (str_eq x m && b) ≡ false
gone x m b h = ground arith

other_model : (x n m : String) → str_eq n m ≡ false → str_eq x n ≡ true → not (str_eq x m) ≡ true
other_model x n m apart e = rw ((eq_iff x n).0 e, apart) refl

module _ (S : Sql) (L : IsLawful S) where
  -- After uninstall_model no version of the model is installed, none is active and none is in
  -- flight; a different model keeps its installations, its active version and its download in
  -- flight.
  pub uninstall_model_result :
      (m v n : String) (r : Registry S)
      → str_eq n m ≡ false
      → let r' = (uninstall_model S m r).1 in
        (get_installation S m v r' ≡ none)
        × (get_active_model S m r' ≡ none)
        × (find_active_download_operation S m r' ≡ none)
        × (get_installation S n v r' ≡ get_installation S n v r)
        × (get_active_model S n r' ≡ get_active_model S n r)
        × (find_active_download_operation S n r' ≡ find_active_download_operation S n r)
  unfolding uninstall_model get_installation get_active_model find_active_download_operation
      is_install is_active_of is_in_flight
  uninstall_model_result m v n r apart =
      rw
        (
          L.rows-delete (λ i. str_eq i.model_id m) r.installs,
          L.rows-delete (λ a. str_eq a.model_id m) r.actives,
          L.rows-delete (λ d. str_eq d.model_id m) r.downloads,
        )
        (
          excluded (is_install m v) _ (S.rows r.installs) (λ i h. gone i.model_id m _ h),
          excluded (is_active_of m) _ (S.rows r.actives) (λ a h. ground arith),
          excluded (is_in_flight m) _ (S.rows r.downloads) (λ d h. gone d.model_id m _ h),
          kept_by (is_install n v) _ (S.rows r.installs)
              (λ i h. other_model i.model_id n m apart (&&-eq_true _ _ h).0),
          kept_by (is_active_of n) _ (S.rows r.actives) (λ a h. other_model a.model_id n m apart h),
          kept_by (is_in_flight n) _ (S.rows r.downloads)
              (λ d h. other_model d.model_id n m apart (&&-eq_true _ _ h).0),
        )
