-- ===== src/Storage/Fencing.antt =====
-- Single ownership: what a live lease keeps others from doing, and what a worker without one can do.
use mathlib.Core.Path.{subst}
use evoblue_video_mcp.Prelude.{
  ℕ, ◌==◌, Bool, true, false, inl, inr, Option, some, List, [], ◌∷◌, String, select, All, All-every,
  All-both, some_eq, eq_iff, str_eq, first, map, Bool-cases, &&-eq_true, if◌then◌else◌, ◌≡◌, refl,
  sym, ◌∙◌, ap, arith,
}
use evoblue_video_mcp.Outcome.{Outcome, ok, err, lease_lost}
use evoblue_video_mcp.Sql.{Sql, IsLawful}
use evoblue_video_mcp.Jobs.States.{JobStatus, transcribing, retry_wait, failed, same}
use evoblue_video_mcp.Jobs.Transitions.{is_running, is_valid_transition, validate_transition}
use evoblue_video_mcp.Jobs.Facts.{running-Runs}
use evoblue_video_mcp.Storage.Models.{Job}
use evoblue_video_mcp.Storage.Session.{holds_lease, get, with_job, compare_and_swap}
use evoblue_video_mcp.Storage.Claims.{is_claimable}
use evoblue_video_mcp.Storage.Leases.{
  owned_row, transcribing_row, leased_row, advance_row, advance_job, fail_row, mark_failure,
  stop_row, mark_cancelled, pin_row, pin_job_asr_route, renew_lease,
}
use evoblue_video_mcp.Storage.Invariant.{IsConsistent, IsValid}
use evoblue_video_mcp.Storage.Rules.{get_only}
use evoblue_video_mcp.Storage.Claiming.{rows_are_read}
use evoblue_video_mcp.Storage.Exact.{settle_lost}

-- no row of the table meets the guard
abbrev NoRow : (Job → Bool) → List Job → Type 0
NoRow p rows = All (λ r. p r ≡ false) rows

nothing_selected : (p : Job → Bool) (rows : List Job) → NoRow p rows → select p rows ≡ []
nothing_selected p [] h = refl
nothing_selected p (r ∷ rows) h = rw h.0 (nothing_selected p rows h.1)

module _ (S : Sql) (L : IsLawful S) where
  lost :
      {A : Type 0} (p : Job → Bool) (f : Job → Job) (gone : Outcome A)
      (won : S.Table Job → Outcome A) (t : S.Table Job)
      → NoRow p (S.rows t)
      → compare_and_swap S p f gone won t ≡ (gone, t)
  unfolding compare_and_swap
  lost p f gone won t h =
      settle_lost (S.update p f t) gone won t
        (L.returning-update p f t ∙ ap (map f) (nothing_selected p (S.rows t) h))

pub leased_not_claimable :
    (owner : String) (now : ℕ) (job : Job)
    → IsValid job
    → is_running job.status ≡ true
    → holds_lease owner now job ≡ true
    → is_claimable now job ≡ false
unfolding is_claimable holds_lease
leased_not_claimable owner now job v runs held =
    let f = running-Runs job.status runs in ground (arith, f.live, f.not_queued, f.not_retry)

module _ (S : Sql) (L : IsLawful S) (job_id : String) (job : Job) (t : S.Table Job)
    (c : IsConsistent (S.rows t)) (found : get S job_id t ≡ some job) (owner : String) (now : ℕ)
    (lacks : holds_lease owner now job ≡ false) where
  no_owned_row : NoRow (owned_row job owner now) (S.rows t)
  unfolding owned_row get
  no_owned_row =
      All-both (λ r. (r.id == job.id) ≡ true → r ≡ job) (λ r. Unit {0})
        (λ r. owned_row job owner now r ≡ false) (S.rows t)
        (λ r only _. elim (Bool-cases (owned_row job owner now r)) [
          | inr fail ↦ fail
          | inl pass ↦
              let (same_id, rest) = &&-eq_true (r.id == job.id) _ pass in
              let held = (&&-eq_true (same r.status job.status) _ rest).1 in
              cc (ap (holds_lease owner now) (only same_id), held, lacks)
        ])
        (get_only job_id job (S.rows t) c.1 found) (All-every (λ r. Unit {0}) (S.rows t) (λ r. tt))

  no_transcribing_row : NoRow (transcribing_row job owner now) (S.rows t)
  unfolding transcribing_row get
  no_transcribing_row =
      All-both (λ r. (r.id == job.id) ≡ true → r ≡ job) (λ r. Unit {0})
        (λ r. transcribing_row job owner now r ≡ false) (S.rows t)
        (λ r only _. elim (Bool-cases (transcribing_row job owner now r)) [
          | inr fail ↦ fail
          | inl pass ↦
              let (same_id, rest) = &&-eq_true (r.id == job.id) _ pass in
              let held = (&&-eq_true (same r.status transcribing) _ rest).1 in
              cc (ap (holds_lease owner now) (only same_id), held, lacks)
        ])
        (get_only job_id job (S.rows t) c.1 found) (All-every (λ r. Unit {0}) (S.rows t) (λ r. tt))

  no_leased_row : NoRow (leased_row job_id owner now) (S.rows t)
  unfolding leased_row get
  no_leased_row =
      All-both (λ r. first (λ j. str_eq j.job_id r.job_id) (S.rows t) ≡ some r) (λ r. Unit {0})
        (λ r. leased_row job_id owner now r ≡ false) (S.rows t)
        (λ r read _. elim (Bool-cases (leased_row job_id owner now r)) [
          | inr fail ↦ fail
          | inl pass ↦
              let (named, held) = &&-eq_true (str_eq r.job_id job_id) _ pass in
              let here : get S job_id t ≡ some r =
                subst (λ k. get S k t ≡ some r) ((eq_iff r.job_id job_id).0 named) read in
              let only : r ≡ job = some_eq r job (sym here ∙ found) in
              cc (ap (holds_lease owner now) only, held, lacks)
        ])
        (rows_are_read (S.rows t) c.1) (All-every (λ r. Unit {0}) (S.rows t) (λ r. tt))

  -- In a consistent table, a worker without a live lease on a job changes nothing by advance_job,
  -- mark_failure, mark_cancelled, pin_job_asr_route or renew_lease; the two that validate no
  -- transition and raise give LeaseLostError, and the renewal gives False.
  pub fenced :
      (to_status : JobStatus) (lease_seconds : ℕ) (stage : Option JobStatus) (progress : Option ℕ)
      (error_code : String) (retryable : Bool) (next_retry_at : Option ℕ)
      (error_detail : Option String) (provider_id model_id model_version : String)
      (recommended : Option String)
      → ((advance_job S job_id owner to_status now lease_seconds stage progress t).1 ≡ t)
        × ((mark_failure S job_id owner now error_code retryable next_retry_at error_detail t).1
            ≡ t)
        × (mark_cancelled S job_id owner now t ≡ (err lease_lost, t))
        × (pin_job_asr_route S job_id owner now provider_id model_id model_version recommended t
            ≡ (err lease_lost, t))
        × (renew_lease S job_id owner now lease_seconds t ≡ (ok false, t))
  unfolding advance_job advance_row mark_failure fail_row mark_cancelled stop_row pin_job_asr_route
      pin_row renew_lease with_job validate_transition
  fenced to_status lease_seconds stage progress error_code retryable next_retry_at error_detail
        provider_id model_id model_version recommended =
      (
        rw (found, with_job) advance_fenced,
        rw (found, with_job) fail_fenced,
        rw (found, with_job) (lost S L (owned_row job owner now) _ _ _ t no_owned_row),
        rw (found, with_job)
            (lost S L (transcribing_row job owner now) _ _ _ t no_transcribing_row),
        lost S L (leased_row job_id owner now) _ _ _ t no_leased_row,
      )
    where
      advance_fenced : (advance_row S job owner to_status now lease_seconds stage progress t).1 ≡ t
      advance_fenced = elim (Bool-cases (is_valid_transition job.status to_status)) [
        | inr no_edge ↦ rw (no_edge, advance_row)
        | inl allowed ↦
            rw (allowed, advance_row)
              (ap (λ u. u.1) (lost S L (owned_row job owner now) _ _ _ t no_owned_row))
      ]

      fail_fenced :
          (fail_row S job owner now error_code retryable next_retry_at error_detail t).1 ≡ t
      fail_fenced =
          elim (Bool-cases
            (is_valid_transition job.status (if retryable then retry_wait else failed))) [
              | inr no_edge ↦ rw (no_edge, fail_row)
              | inl allowed ↦
                  rw (allowed, fail_row)
                    (ap (λ u. u.1) (lost S L (owned_row job owner now) _ _ _ t no_owned_row))
            ]
