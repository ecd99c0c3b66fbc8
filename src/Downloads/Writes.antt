-- ===== src/Downloads/Writes.antt =====
-- What the write with the check of the revision does exactly, and what any admitted write keeps.
use mathlib.Core.Path.{subst}
use evoblue_video_mcp.Prelude.{
  ℕ, ◌==◌, Bool, true, false, ◌&&◌, ◌⊎◌, inl, inr, some, List, [], ◌∷◌, String, str_eq, map, All,
  first-passes, ==_self, &&-eq_true, Bool-cases, if◌then◌else◌, ◌≡◌, refl, sym, ◌∙◌, ap,
}
use evoblue_video_mcp.Outcome.{ok, err, stale_revision}
use evoblue_video_mcp.Sql.{Sql, IsLawful, apply_where}
use evoblue_video_mcp.Sql.Keys.{AtMostOne, AtMostOne-map, first-IsOnly, select-IsOnly, first-keeps}
use evoblue_video_mcp.Storage.Exact.{settle_lost, settle_won}
use evoblue_video_mcp.Downloads.Registry.{
  ModelDownload, Registry, is_operation, is_in_flight, at_revision, get_download_operation, reread,
  write_revision,
}
use evoblue_video_mcp.Downloads.Fit.{IsFit, Proceeds}

-- What holds of the table of downloads: unique keys, one download in flight for each model, and every
-- row fits.
pub record IsTracked (ds : List ModelDownload) : Type 0 where
  pub operations : (k : String) → AtMostOne (is_operation k) ds
  pub flights : (m : String) → AtMostOne (is_in_flight m) ds
  pub fits : All IsFit ds

abbrev pub Steps : ModelDownload → ModelDownload → Type 0
Steps x y = (y ≡ x) ⊎ Proceeds x y

same_key : (k : String) (x y : ModelDownload) → Steps x y → is_operation k y ≡ is_operation k x
unfolding is_operation
same_key k x y (inl e) = ap (λ (d : ModelDownload). str_eq d.operation_id k) e
same_key k x y (inr h) = rw (h.same_operation)

left_false : (b : Bool) → (b && true) ≡ false → b ≡ false
left_false true h = h
left_false false h = refl

lands :
    (m : String) (x y : ModelDownload)
    → Steps x y
    → is_in_flight m x ≡ false
    → is_in_flight m y ≡ false
unfolding is_in_flight
lands m x y (inl e) h = subst (λ d. is_in_flight m d ≡ false) (sym e) h
lands m x y (inr s) h =
    let flying : (str_eq x.model_id m && true) ≡ false = rw s.was_in_flight at h in
    let other = left_false (str_eq x.model_id m) flying in rw (s.same_model, other)

fits_on : (x y : ModelDownload) → Steps x y → IsFit x → IsFit y
fits_on x y (inl e) h = subst IsFit (sym e) h
fits_on x y (inr s) h = s.fits h

module _ (g : ModelDownload → ModelDownload) where
  pub keys_map :
      (k : String) (ds : List ModelDownload)
      → All (λ d. Steps d (g d)) ds
      → All (λ d. is_operation k (g d) ≡ is_operation k d) ds
  keys_map k [] h = tt
  keys_map k (d ∷ ds) h = (same_key k d (g d) h.0, keys_map k ds h.1)

  pub stay_out :
      (k : String) (ds : List ModelDownload)
      → All (λ d. Steps d (g d)) ds
      → All (λ d. is_operation k d ≡ false → is_operation k (g d) ≡ false) ds
  stay_out k [] h = tt
  stay_out k (d ∷ ds) h = ((λ e. same_key k d (g d) h.0 ∙ e), stay_out k ds h.1)

  stay_down :
      (m : String) (ds : List ModelDownload)
      → All (λ d. Steps d (g d)) ds
      → All (λ d. is_in_flight m d ≡ false → is_in_flight m (g d) ≡ false) ds
  stay_down m [] h = tt
  stay_down m (d ∷ ds) h = (lands m d (g d) h.0, stay_down m ds h.1)

  stay-IsFit :
      (ds : List ModelDownload) → All (λ d. Steps d (g d)) ds → All IsFit ds → All IsFit (map g ds)
  stay-IsFit [] h k = tt
  stay-IsFit (d ∷ ds) h k = (fits_on d (g d) h.0 k.0, stay-IsFit ds h.1 k.1)

  pub IsTracked-map :
      (ds : List ModelDownload) → All (λ d. Steps d (g d)) ds → IsTracked ds → IsTracked (map g ds)
  IsTracked-map ds h t = record {
    operations = λ k. AtMostOne-map (is_operation k) g ds (stay_out k ds h) (t.operations k);
    flights = λ m. AtMostOne-map (is_in_flight m) g ds (stay_down m ds h) (t.flights m);
    fits = stay-IsFit ds h t.fits;
  }

-- A write justified at the row that was read is justified at every row that its guard admits.
pub step_at :
    (operation_id : String) (f : ModelDownload → ModelDownload) (d : ModelDownload)
    (ds : List ModelDownload)
    → All (λ x. is_operation operation_id x ≡ true → x ≡ d) ds
    → Proceeds d (f d)
    → All (λ x. Steps x (apply_where (at_revision operation_id d.revision) f x)) ds
unfolding at_revision
step_at operation_id f d [] only h = tt
step_at operation_id f d (x ∷ ds) only h = (
  elim (Bool-cases (at_revision operation_id d.revision x)) [
    | inr e ↦ rw e (inl refl)
    | inl e ↦
        let named = (&&-eq_true (is_operation operation_id x) (x.revision == d.revision) e).0 in
        rw e (inr (subst (λ z. Proceeds z (f z)) (sym (only.0 named)) h))
  ],
  step_at operation_id f d ds only.1 h,
)

module _ (S : Sql) where
  unfoldable pub written : String → ℕ → (ModelDownload → ModelDownload) → Registry S → Registry S
  written operation_id revision f pending = record pending {
    downloads = (S.update (at_revision operation_id revision) f pending.downloads).0;
  }

module _ (S : Sql) (L : IsLawful S) where
  pub rows-written :
      (operation_id : String) (revision : ℕ) (f : ModelDownload → ModelDownload) (r : Registry S)
      → S.rows (written S operation_id revision f r).downloads
        ≡ map (apply_where (at_revision operation_id revision) f) (S.rows r.downloads)
  unfolding written
  rows-written operation_id revision f r =
      L.rows-update (at_revision operation_id revision) f r.downloads

  -- every row makes at most one step
  pub written-Steps :
      (operation_id : String) (f : ModelDownload → ModelDownload) (r : Registry S)
      (d : ModelDownload)
      → IsTracked (S.rows r.downloads)
      → get_download_operation S operation_id r ≡ some d
      → Proceeds d (f d)
      → All
          (λ x. Steps x (apply_where (at_revision operation_id d.revision) f x))
          (S.rows r.downloads)
  unfolding get_download_operation
  written-Steps operation_id f r d t e h =
      step_at operation_id f d (S.rows r.downloads)
        (first-IsOnly (is_operation operation_id) (S.rows r.downloads) d (t.operations operation_id)
          e)
        h

  pub written-IsTracked :
      (operation_id : String) (f : ModelDownload → ModelDownload) (r : Registry S)
      (d : ModelDownload)
      → IsTracked (S.rows r.downloads)
      → get_download_operation S operation_id r ≡ some d
      → Proceeds d (f d)
      → IsTracked (S.rows (written S operation_id d.revision f r).downloads)
  written-IsTracked operation_id f r d t e h = rw (rows-written operation_id d.revision f r) (
      IsTracked-map (apply_where (at_revision operation_id d.revision) f) (S.rows r.downloads)
        (written-Steps operation_id f r d t e h) t)

  -- what the reads of a download give after the write
  pub get-written :
      (operation_id k : String) (f : ModelDownload → ModelDownload) (r : Registry S)
      (d x : ModelDownload)
      → IsTracked (S.rows r.downloads)
      → get_download_operation S operation_id r ≡ some d
      → Proceeds d (f d)
      → get_download_operation S k r ≡ some x
      → get_download_operation S k (written S operation_id d.revision f r)
        ≡ some (apply_where (at_revision operation_id d.revision) f x)
  unfolding get_download_operation
  get-written operation_id k f r d x t e h found =
      let g = apply_where (at_revision operation_id d.revision) f in
      rw (rows-written operation_id d.revision f r) (
        first-keeps (is_operation k) g (S.rows r.downloads) x
          (keys_map g k (S.rows r.downloads) (written-Steps operation_id f r d t e h)) found)

  reread-some :
      (k : String) (r : Registry S) (d : ModelDownload)
      → get_download_operation S k r ≡ some d
      → reread S k r ≡ ok d
  unfolding reread
  reread-some k r d e = rw (e, reread)

  hits :
      (operation_id : String) (revision : ℕ) (f : ModelDownload → ModelDownload) (r : Registry S)
      (d : ModelDownload)
      → IsTracked (S.rows r.downloads)
      → get_download_operation S operation_id r ≡ some d
      → (S.update (at_revision operation_id revision) f r.downloads).1
        ≡ map f (if d.revision == revision then d ∷ [] else [])
  unfolding at_revision get_download_operation
  hits operation_id revision f r d t e =
      L.returning-update (at_revision operation_id revision) f r.downloads
      ∙ ap (map f) (
          select-IsOnly (is_operation operation_id) (λ x. x.revision == revision)
            (S.rows r.downloads) d (t.operations operation_id) e)

  pub here_passes :
      (k : String) (r : Registry S) (d : ModelDownload)
      → get_download_operation S k r ≡ some d
      → at_revision k d.revision d ≡ true
  unfolding at_revision get_download_operation
  here_passes k r d e =
      rw (first-passes (is_operation k) (S.rows r.downloads) d e) (==_self d.revision)

  -- The write hits the row that was read exactly if its revision is the expected one.
  pub write_revision-stale :
      (operation_id : String) (revision : ℕ) (f : ModelDownload → ModelDownload)
      (before pending : Registry S) (d : ModelDownload)
      → IsTracked (S.rows pending.downloads)
      → get_download_operation S operation_id pending ≡ some d
      → (d.revision == revision) ≡ false
      → write_revision S operation_id revision f before pending ≡ (err stale_revision, before)
  unfolding write_revision
  write_revision-stale operation_id revision f before pending d t e stale =
      settle_lost _ (err stale_revision) (reread S operation_id) before
        (hits operation_id revision f pending d t e ∙ rw stale)

  pub write_revision-current :
      (operation_id : String) (f : ModelDownload → ModelDownload) (before pending : Registry S)
      (d : ModelDownload)
      → IsTracked (S.rows pending.downloads)
      → get_download_operation S operation_id pending ≡ some d
      → Proceeds d (f d)
      → write_revision S operation_id d.revision f before pending
        ≡ (ok (f d), written S operation_id d.revision f pending)
  unfolding write_revision written
  write_revision-current operation_id f before pending d t e h =
      settle_won _ (err stale_revision) (reread S operation_id) before (f d)
        (hits operation_id d.revision f pending d t e ∙ rw (==_self d.revision))
      ∙ ap (λ o. (o, written S operation_id d.revision f pending))
          (reread-some operation_id (written S operation_id d.revision f pending) (f d) (
            get-written operation_id operation_id f pending d d t e h e
            ∙ rw (here_passes operation_id pending d e)))
