-- ===== src/Downloads/Results.antt =====
-- What the operations on downloads give, on every branch.
use mathlib.Core.Path.{subst}
use evoblue_video_mcp.Prelude.{
  arith, ℕ, ◌+◌, ◌==◌, true, false, ◌&&◌, ◌||◌, not, is_some, ltb, inl, inr, Option, none, some,
  String, str_eq, map, Bool-cases, Option-cases, eq_iff, &&-eq_true, get_or, first-passes,
  if◌then◌else◌, ◌≡◌, refl, sym, ◌∙◌, ap,
}
use evoblue_video_mcp.Outcome.{ok, err, value_error, transition_error, stale_revision}
use evoblue_video_mcp.Sql.{Sql, IsLawful, apply_where}
use evoblue_video_mcp.Sql.Keys.{first-absent, first-none, none-map}
use evoblue_video_mcp.Downloads.Status.{
  ModelDownloadStatus, downloading, verifying, is_same, validate_download, is_allowed,
}
use evoblue_video_mcp.Downloads.Registry.{
  ModelDownload, Registry, is_operation, at_revision, get_download_operation, with_operation,
  write_revision,
}
use evoblue_video_mcp.Downloads.Transfers.{
  Changes, overwrite, moved, progressed, is_early, is_refused, advance_download_operation,
  update_download_progress,
}
use evoblue_video_mcp.Downloads.Fit.{Proceeds, moved-Proceeds, progressed-Proceeds}
use evoblue_video_mcp.Downloads.Writes.{
  IsTracked, written, written-Steps, get-written, stay_out, rows-written, here_passes,
}
use evoblue_video_mcp.Downloads.Sound.{IsSound, write_revision-eq}

overwrite-eq : (new old : Option String) → overwrite new old ≡ (if is_some new then new else old)
overwrite-eq none old = refl
overwrite-eq (some v) old = refl

progressed-eq :
    (bytes now : ℕ) (temp_path etag last_modified : Option String) (d : ModelDownload)
    → progressed bytes d.revision now temp_path etag last_modified d ≡ record d {
      downloaded_bytes = bytes;
      revision = d.revision + 1;
      updated_at = now;
      temp_path = if is_some temp_path then temp_path else d.temp_path;
      etag = if is_some etag then etag else d.etag;
      last_modified = if is_some last_modified then last_modified else d.last_modified;
    }
unfolding progressed
progressed-eq bytes now temp_path etag last_modified d =
    rw
      (
        overwrite-eq temp_path d.temp_path,
        overwrite-eq etag d.etag,
        overwrite-eq last_modified d.last_modified,
      )
      refl

refused-eq :
    (bytes : ℕ) (d : ModelDownload)
    → is_refused bytes d ≡ (
        not (is_same d.status downloading)
        || (ltb bytes d.downloaded_bytes || ltb d.expected_size_bytes bytes))
unfolding is_refused
refused-eq bytes d = ground arith

moved-eq :
    (to_status : ModelDownloadStatus) (now : ℕ) (c : Changes) (d : ModelDownload)
    → moved to_status d.revision now c d ≡ record d {
      status = to_status;
      revision = d.revision + 1;
      updated_at = now;
      temp_path = if is_some c.temp_path then c.temp_path else d.temp_path;
      etag = if is_some c.etag then c.etag else d.etag;
      last_modified = if is_some c.last_modified then c.last_modified else d.last_modified;
      error_code = if is_some c.error_code then c.error_code else d.error_code;
      error_detail = if is_some c.error_detail then c.error_detail else d.error_detail;
    }
unfolding moved
moved-eq to_status now c d =
    rw
      (
        overwrite-eq c.temp_path d.temp_path,
        overwrite-eq c.etag d.etag,
        overwrite-eq c.last_modified d.last_modified,
        overwrite-eq c.error_code d.error_code,
        overwrite-eq c.error_detail d.error_detail,
      )
      refl

module _ (S : Sql) (L : IsLawful S) where
  read_key :
      (k : String) (r : Registry S) (d : ModelDownload)
      → get_download_operation S k r ≡ some d
      → d.operation_id ≡ k
  unfolding get_download_operation is_operation
  read_key k r d e =
      (eq_iff d.operation_id k).0 (first-passes (is_operation k) (S.rows r.downloads) d e)

  reads_elsewhere :
      (operation_id j : String) (f : ModelDownload → ModelDownload) (r : Registry S)
      (d : ModelDownload)
      → IsTracked (S.rows r.downloads)
      → get_download_operation S operation_id r ≡ some d
      → Proceeds d (f d)
      → str_eq j operation_id ≡ false
      → get_download_operation S j (written S operation_id d.revision f r)
        ≡ get_download_operation S j r
  unfolding get_download_operation at_revision
  reads_elsewhere operation_id j f r d t e h other =
      elim (Option-cases (get_download_operation S j r)) [
        | inl absent ↦
            let g = apply_where (at_revision operation_id d.revision) f in
            rw (rows-written S L operation_id d.revision f r) (
              first-none (is_operation j) (map g (S.rows r.downloads)) (
                none-map (is_operation j) g (S.rows r.downloads)
                  (stay_out g j (S.rows r.downloads) (written-Steps S L operation_id f r d t e h))
                  (first-absent (is_operation j) (S.rows r.downloads) absent))
              ∙ sym absent)
        | inr (x, found) ↦
            get-written S L operation_id j f r d x t e h found
            ∙ ap some (untouched x found)
            ∙ sym found
      ]
    where
      untouched :
          (x : ModelDownload)
          → get_download_operation S j r ≡ some x
          → apply_where (at_revision operation_id d.revision) f x ≡ x
      untouched x found = elim (Bool-cases (at_revision operation_id d.revision x)) [
        | inr e ↦ rw e refl
        | inl e ↦
            let named = (&&-eq_true (is_operation operation_id x) (x.revision == d.revision) e).0 in
            let same = sym (read_key j r x found) ∙ (eq_iff x.operation_id operation_id).0 named in
            cc ((eq_iff j operation_id).1 same, other)
      ]

  -- the outcome of the write on the row that was read, and what every later read of a download gives
  pub write_result :
      (operation_id : String) (revision : ℕ) (f : ℕ → ModelDownload → ModelDownload)
      (before after : Registry S) (d : ModelDownload)
      → IsTracked (S.rows after.downloads)
      → get_download_operation S operation_id after ≡ some d
      → Proceeds d (f d.revision d)
      → ((j : String) → get_download_operation S j after ≡ get_download_operation S j before)
      → let out = write_revision S operation_id revision (f revision) before after in
        (out.0 ≡ (if d.revision == revision then ok (f d.revision d) else err stale_revision))
        × ((j : String)
            → get_download_operation S j out.1 ≡ (
                if (d.revision == revision) && str_eq j operation_id
                then some (f d.revision d)
                else get_download_operation S j before))
  write_result operation_id revision f before after d t e h agree =
      rw (write_revision-eq S L operation_id revision f before after d t e h)
        (elim (Bool-cases (d.revision == revision)) [
          | inr stale ↦ rw stale (refl, (λ j. refl))
          | inl current ↦ rw current (
            refl,
            (λ j. elim (Bool-cases (str_eq j operation_id)) [
              | inr other ↦
                  rw other
                    (reads_elsewhere operation_id j (f d.revision) after d t e h other ∙ agree j)
              | inl here ↦ rw here (reads_here j here)
            ]),
          )
        ])
    where
      reads_here :
          (j : String)
          → str_eq j operation_id ≡ true
          → get_download_operation S j (written S operation_id d.revision (f d.revision) after)
            ≡ some (f d.revision d)
      reads_here j here =
          subst
            (λ k.
              get_download_operation S k (written S operation_id d.revision (f d.revision) after)
              ≡ some (f d.revision d))
            (sym ((eq_iff j operation_id).0 here))
            (get-written S L operation_id operation_id (f d.revision) after d d t e h e
              ∙ rw (here_passes S L operation_id after d e) refl)

  -- For a download that is there in a sound registry, update_download_progress raises ValueError
  -- if it is not DOWNLOADING or if the bytes are fewer than the stored ones or more than the
  -- expected size, else StaleRevisionError if the stored revision is not the expected one;
  -- otherwise it returns the download with the new bytes, the next revision, the new time of
  -- update, and path, etag and modification date where they are given, all else as it was, which
  -- later reads give, while every other download reads as before.
  pub update_download_progress_result :
      (k : String) (bytes now : ℕ) (temp_path etag last_modified : Option String)
      (expected : Option ℕ) (r : Registry S) (d : ModelDownload)
      → IsSound S r
      → get_download_operation S k r ≡ some d
      → let out = update_download_progress S k bytes now temp_path etag last_modified expected r in
        let new = record d {
          downloaded_bytes = bytes;
          revision = d.revision + 1;
          updated_at = now;
          temp_path = if is_some temp_path then temp_path else d.temp_path;
          etag = if is_some etag then etag else d.etag;
          last_modified = if is_some last_modified then last_modified else d.last_modified;
        } in
        let refused =
          not (is_same d.status downloading)
          || (ltb bytes d.downloaded_bytes || ltb d.expected_size_bytes bytes) in
        let current = d.revision == get_or expected d.revision in
        (out.0
          ≡ (if refused then err value_error else if current then ok new else err stale_revision))
        × ((j : String)
            → get_download_operation S j out.1 ≡ (
                if not refused && (current && str_eq j k)
                then some new
                else get_download_operation S j r))
  unfolding update_download_progress
  update_download_progress_result k bytes now temp_path etag last_modified expected r d s e =
      rw
        (
          ← refused-eq bytes d,
          ← progressed-eq bytes now temp_path etag last_modified d,
          e,
          with_operation,
        )
        (elim (Bool-cases (is_refused bytes d)) [
          | inl refused ↦ rw refused (refl, (λ j. refl))
          | inr fine ↦ rw fine (
              write_result k (get_or expected d.revision)
                (λ n. progressed bytes n now temp_path etag last_modified) r r d s.tracked e
                (progressed-Proceeds bytes now temp_path etag last_modified d fine) (λ j. refl))
        ])

  -- For a download that is there in a sound registry, advance_download_operation raises
  -- TransitionError on a move that is not allowed, else ValueError on a move to VERIFYING while
  -- the bytes are not the expected size, else StaleRevisionError if the stored revision is not the
  -- expected one; otherwise it returns the download with the new status, the next revision, the
  -- new time of update and the columns that are given, all else as it was, which later reads give,
  -- while every other download reads as before.
  pub advance_download_operation_result :
      (k : String) (to_status : ModelDownloadStatus) (now : ℕ) (c : Changes) (expected : Option ℕ)
      (r : Registry S) (d : ModelDownload)
      → IsSound S r
      → get_download_operation S k r ≡ some d
      → let out = advance_download_operation S k to_status now c expected r in
        let new = record d {
          status = to_status;
          revision = d.revision + 1;
          updated_at = now;
          temp_path = if is_some c.temp_path then c.temp_path else d.temp_path;
          etag = if is_some c.etag then c.etag else d.etag;
          last_modified = if is_some c.last_modified then c.last_modified else d.last_modified;
          error_code = if is_some c.error_code then c.error_code else d.error_code;
          error_detail = if is_some c.error_detail then c.error_detail else d.error_detail;
        } in
        let legal = is_allowed d.status to_status in
        let early =
          is_same to_status verifying && not (d.downloaded_bytes == d.expected_size_bytes) in
        let current = d.revision == get_or expected d.revision in
        (out.0 ≡ (
          if legal
          then (if early then err value_error else if current then ok new else err stale_revision)
          else err transition_error))
        × ((j : String)
            → get_download_operation S j out.1 ≡ (
                if legal && (not early && (current && str_eq j k))
                then some new
                else get_download_operation S j r))
  unfolding advance_download_operation validate_download is_early
  advance_download_operation_result k to_status now c expected r d s e =
      rw (← moved-eq to_status now c d, e, with_operation)
        (elim (Bool-cases (is_allowed d.status to_status)) [
          | inr bad ↦ rw bad (refl, (λ j. refl))
          | inl legal ↦ rw legal (elim (Bool-cases (is_early to_status d)) [
            | inl early ↦ rw early (refl, (λ j. refl))
            | inr ready ↦ rw ready (
                write_result k (get_or expected d.revision) (λ n. moved to_status n now c) r r d
                  s.tracked e (moved-Proceeds to_status now c d legal ready) (λ j. refl))
          ])
        ])
