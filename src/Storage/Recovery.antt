-- ===== src/Storage/Recovery.antt =====
-- Ownership, recovery and cancellation: what the operations of storage/repository.py promise together.
use evoblue_video_mcp.Prelude.{
  ℕ, ◌==◌, Bool, true, false, ◌||◌, inl, inr, Option, none, some, List, [], ◌∷◌, map, String,
  str_eq, is_none, All, Bool-cases, &&-eq_true, if◌then◌else◌, ◌≡◌, ◌≢◌, refl, sym, ◌∙◌, ap, arith,
  eq_iff, ==_self, not, ◌&&◌,
}
use evoblue_video_mcp.Outcome.{ok}
use evoblue_video_mcp.Sql.{Sql, IsLawful, apply_where}
use evoblue_video_mcp.Jobs.States.{
  JobStatus, queued, waiting_for_model, completed, failed, cancelled, retry_wait, same, same_self,
  same→eq, is_terminal,
}
use evoblue_video_mcp.Jobs.Transitions.{is_running}
use evoblue_video_mcp.Jobs.Facts.{running-Runs}
use evoblue_video_mcp.Storage.Models.{Job}
use evoblue_video_mcp.Storage.Session.{
  at_most, after, equals, holds_lease, get, get_required, with_job, compare_and_swap,
}
use evoblue_video_mcp.Storage.Claims.{is_claimable, claim_job}
use evoblue_video_mcp.Storage.Sweeps.{
  is_stale, released, is_exhausted, exhausted, sweep, recover_stale_jobs, fail_exhausted_retries,
  is_idle, flagged, withdrawn, same_status, present, cancel_row, request_cancellation,
}
use evoblue_video_mcp.Storage.Invariant.{IsConsistent}
use evoblue_video_mcp.Storage.Rules.{read-IsValid}
use evoblue_video_mcp.Storage.Exact.{swap-eq, get-swapped, reads-swapped, get_as, required, read_id}
use evoblue_video_mcp.Storage.Results.{claim_job_result}
use evoblue_video_mcp.Storage.Fencing.{leased_not_claimable}

other_lacks :
    (owner other : String) (now : ℕ) (job : Job)
    → other ≢ owner
    → holds_lease owner now job ≡ true
    → holds_lease other now job ≡ false
unfolding holds_lease
other_lacks owner other now job differs held =
    ground (arith, elim_owner job.lease_owner (&&-eq_true _ _ held).0)
  where
    elim_owner : (o : Option String) → equals o owner ≡ true → equals o other ≡ false
    elim_owner none h = refl
    elim_owner (some x) h = elim (Bool-cases (str_eq x other)) [
      | inl e ↦ absurd (differs (sym ((eq_iff x other).0 e) ∙ (eq_iff x owner).0 h))
      | inr e ↦ e
    ]

-- a running job whose lease is over at that time, or a job whose retry time has come
unfoldable pub is_due : ℕ → Job → Bool
is_due later r =
    is_running r.status && (is_none r.lease_expires_at || at_most r.lease_expires_at later)
    || same r.status retry_wait && at_most r.next_retry_at later

-- if the job is due it can be claimed
abbrev pub CanRestart : ℕ → Job → Type 0
CanRestart later r = (not (is_due later r) || is_claimable later r) ≡ true

implied :
    (a b c d x : Bool)
    → (a ≡ true → b ≡ true → x ≡ true)
    → (c ≡ true → d ≡ true → x ≡ true)
    → (not (a && b || c && d) || x) ≡ true
implied true true c d x run wait = run refl refl
implied true false true true x run wait = wait refl refl
implied true false true false x run wait = refl
implied true false false d x run wait = refl
implied false b true true x run wait = wait refl refl
implied false b true false x run wait = refl
implied false b false d x run wait = refl

exhausted-CanRestart : (now later : ℕ) (r : Job) → CanRestart later (exhausted now r)
unfolding exhausted is_due is_running same is_terminal
exhausted-CanRestart now later r = refl

running_restarts :
    (later : ℕ) (r : Job)
    → is_exhausted r ≡ false
    → is_running r.status ≡ true
    → (is_none r.lease_expires_at || at_most r.lease_expires_at later) ≡ true
    → is_claimable later r ≡ true
unfolding is_exhausted is_claimable
running_restarts later r e h over =
    let f = running-Runs r.status h in ground (arith, f.live, f.not_queued, f.not_retry)

waiting_restarts :
    (later : ℕ) (r : Job)
    → is_exhausted r ≡ false
    → same r.status retry_wait ≡ true
    → at_most r.next_retry_at later ≡ true
    → is_claimable later r ≡ true
unfolding is_exhausted is_claimable
waiting_restarts later r e h due =
    let s : r.status ≡ retry_wait = same→eq r.status retry_wait h in
    let live : is_terminal r.status ≡ false = rw s (unfold is_terminal in refl) in
    ground (arith, live)

kept-CanRestart : (later : ℕ) (r : Job) → is_exhausted r ≡ false → CanRestart later r
unfolding is_due
kept-CanRestart later r e =
    implied (is_running r.status) (is_none r.lease_expires_at || at_most r.lease_expires_at later)
      (same r.status retry_wait) (at_most r.next_retry_at later) (is_claimable later r)
      (running_restarts later r e) (waiting_restarts later r e)

-- the lease of an unfinished job is a live one
abbrev pub IsLive : ℕ → Job → Type 0
IsLive now r =
    (is_terminal r.status || (is_none r.lease_expires_at || after r.lease_expires_at now)) ≡ true

kept-IsLive : (now : ℕ) (r : Job) → is_stale now r ≡ false → IsLive now r
unfolding is_stale
kept-IsLive now r e = ground arith

released-IsLive : (now : ℕ) (r : Job) → IsLive now (released now r)
unfolding released
released-IsLive now r = elim (Bool-cases (is_terminal r.status)) [
  | inl e ↦ rw e refl
  | inr e ↦ rw e refl
]

module _ (S : Sql) (L : IsLawful S) where
  -- While a worker holds the live lease of a running job of a consistent table, claim_job by
  -- another worker gives None and changes nothing, and the other worker holds no lease on the job.
  pub lease_exclusive :
      (job_id owner other : String) (job : Job) (now lease_seconds : ℕ) (t : S.Table Job)
      → IsConsistent (S.rows t)
      → get S job_id t ≡ some job
      → is_running job.status ≡ true
      → holds_lease owner now job ≡ true
      → other ≢ owner
      → (claim_job S job_id other lease_seconds now t ≡ (ok none, t))
        × (holds_lease other now job ≡ false)
  lease_exclusive job_id owner other job now lease_seconds t c found runs held differs =
      let busy =
        leased_not_claimable owner now job (read-IsValid S L job_id job t found c) runs held in
      let claim = claim_job_result S L job_id job t c found other lease_seconds now in
      let refused : (claim_job S job_id other lease_seconds now t).0 ≡ ok none =
        claim.0 ∙ (rw busy refl) in
      let left : (claim_job S job_id other lease_seconds now t).1 ≡ t = claim.2 ∙ (rw busy refl) in
      ((λ i. (refused i, left i)), other_lacks owner other now job differs held)

  All-updated :
      (P : Job → Type 0) (p : Job → Bool) (f : Job → Job) (t : S.Table Job)
      → ((r : Job) → P (apply_where p f r))
      → All P (S.rows (S.update p f t).0)
  All-updated P p f t h = rw (L.rows-update p f t) (go (S.rows t))
    where
      go : (rows : List Job) → All P (map (apply_where p f) rows)
      go [] = tt
      go (r ∷ rows) = (h r, go rows)

  -- After fail_exhausted_retries every running job can be claimed as soon as its lease is over,
  -- and every job in RETRY_WAIT as soon as its retry time has come.
  pub none_stranded :
      (now later : ℕ) (t : S.Table Job)
      → All (CanRestart later) (S.rows (fail_exhausted_retries S now t).1)
  unfolding fail_exhausted_retries sweep
  none_stranded now later t = All-updated (CanRestart later) is_exhausted (exhausted now) t (λ r.
      elim (Bool-cases (is_exhausted r)) [
        | inl e ↦ rw e (exhausted-CanRestart now later r)
        | inr e ↦ rw e (kept-CanRestart later r e)
      ])

  -- After recover_stale_jobs every lease on an unfinished job expires after the time of the
  -- recovery.
  pub recovered_leases_are-IsLive :
      (now : ℕ) (t : S.Table Job) → All (IsLive now) (S.rows (recover_stale_jobs S now t).1)
  unfolding recover_stale_jobs sweep
  recovered_leases_are-IsLive now t = All-updated (IsLive now) (is_stale now) (released now) t (λ r.
      elim (Bool-cases (is_stale now r)) [
        | inl e ↦ rw e (released-IsLive now r)
        | inr e ↦ rw e (kept-IsLive now r e)
      ])

-- the job is completed, failed or cancelled
abbrev pub is_finished : Job → Bool
is_finished r = same r.status completed || (same r.status failed || same r.status cancelled)

-- the job is queued, waits for a retry, or is parked
abbrev pub is_untaken : Job → Bool
is_untaken r = same r.status queued || (same r.status retry_wait || same r.status waiting_for_model)

finished-eq :
    (s : JobStatus) → (same s completed || (same s failed || same s cancelled)) ≡ is_terminal s
unfolding same is_terminal
finished-eq completed = refl
finished-eq failed = refl
finished-eq cancelled = refl
finished-eq _ = refl

same_status_self : (job : Job) → same_status job job ≡ true
unfolding same_status
same_status_self job = rw (==_self job.id, same_self job.status)

same_status_key : (job r : Job) → same_status job r ≡ true → (r.id == job.id) ≡ true
unfolding same_status
same_status_key job r h = (&&-eq_true (r.id == job.id) _ h).0

module _ (S : Sql) (L : IsLawful S) (job_id : String) (job : Job) (t : S.Table Job)
    (c : IsConsistent (S.rows t)) (found : get S job_id t ≡ some job) where
  granted :
      (f : Job → Job) (now : ℕ)
      → ((r : Job) → (f r).job_id ≡ r.job_id)
      → let r =
          compare_and_swap S
            (same_status job)
            f
            (ok (get S job.job_id t))
            (λ t'. present (get_required S job.job_id t'))
            t in
        (r.0 ≡ ok (some (f job)))
        × ((k : String) → get S k r.1 ≡ (if str_eq k job_id then some (f job) else get S k t))
  granted f now keeps =
      rw
        (
          swap-eq S L (same_status job) f (ok (get S job.job_id t))
              (λ t'. present (get_required S job.job_id t')) job_id job t c.1 found
              (same_status_key job),
          same_status_self job,
        )
        (
          ap present (
              required S L job.job_id job_id (S.update (same_status job) f t).0 (f job)
                (read_id S L job_id job t found)
                (get-swapped S L (same_status job) f job_id job t found (same_status_self job)
                  keeps)),
          (λ k.
              reads-swapped S L (same_status job) f job_id k job t c found (same_status_key job)
                keeps (same_status_self job)),
        )

  -- For a job that is there in a consistent table request_cancellation returns it, and later reads
  -- give it: unchanged if it is completed, failed or cancelled; if it is queued, retrying or
  -- parked, CANCELLED at once with error code CANCELLED_BY_USER, not retryable, its retry time and
  -- lease cleared and the times of the request and of the update set; otherwise with these two
  -- times only. Other jobs read as before.
  pub request_cancellation_result :
      (now : ℕ)
      → let r = request_cancellation S job_id now t in
        let row =
          if is_finished job
          then job
          else if is_untaken job
          then record job {
            cancel_requested_at = some now;
            updated_at = now;
            status = cancelled;
            error_code = some "CANCELLED_BY_USER";
            retryable = false;
            next_retry_at = none;
            lease_owner = none;
            lease_expires_at = none;
          }
          else record job { cancel_requested_at = some now; updated_at = now } in
        (r.0 ≡ ok (some row))
        × ((k : String) → get S k r.1 ≡ (if str_eq k job_id then some row else get S k t))
  unfolding request_cancellation with_job cancel_row is_idle withdrawn flagged
  request_cancellation_result now =
      rw (found, finished-eq job.status, with_job)
        (elim (Bool-cases (is_terminal job.status)) [
          | inl over ↦ rw (over, cancel_row) (refl, reads_self)
          | inr live ↦ elim (Bool-cases (is_untaken job)) [
            | inl idle ↦ rw (live, idle, cancel_row) (granted (withdrawn now) now (λ r. refl))
            | inr busy ↦ rw (live, busy, cancel_row) (granted (flagged now) now (λ r. refl))
          ]
        ])
    where
      reads_self : (k : String) → get S k t ≡ (if str_eq k job_id then some job else get S k t)
      reads_self k = elim (Bool-cases (str_eq k job_id)) [
        | inl here ↦ rw here (get_as S L k job_id t job ((eq_iff k job_id).0 here) found)
        | inr other ↦ rw other refl
      ]
