-- ===== src/Runtime/Rounds.antt =====
-- One round of the worker's loop: it ends with a job that does not run, or moves the job on.
use mathlib.Core.Path.{subst}
use mathlib.Core.Bool.{false≢true}
use evoblue_video_mcp.Prelude.{
  ℕ, ◌<◌, Bool, true, false, not, inl, inr, Option, none, some, String, str_eq, eq_iff, Bool-cases,
  if◌then◌else◌, ◌≡◌, refl, sym, ◌∙◌, ap,
}
use evoblue_video_mcp.Outcome.{Outcome, ok, err, Error, transition_error, lease_lost}
use evoblue_video_mcp.Sql.{Sql, IsLawful}
use evoblue_video_mcp.Jobs.States.{JobStatus, position, retry_wait, failed, is_terminal}
use evoblue_video_mcp.Jobs.Transitions.{is_running, is_valid_transition}
use evoblue_video_mcp.Jobs.Graph.{terminal_no_edge}
use evoblue_video_mcp.Storage.Models.{Job}
use evoblue_video_mcp.Storage.Session.{get, holds_lease}
use evoblue_video_mcp.Storage.Leases.{failure, stopped, mark_failure, mark_cancelled}
use evoblue_video_mcp.Storage.Artifacts.{Queue}
use evoblue_video_mcp.Storage.Invariant.{IsConsistent}
use evoblue_video_mcp.Storage.Operations.{mark_failure-Respects, mark_cancelled-Respects}
use evoblue_video_mcp.Storage.Results.{mark_failure_result, mark_cancelled_result}
use evoblue_video_mcp.Storage.Exact.{map_option}
use evoblue_video_mcp.Runtime.Stage.{Display, displayed, apply_display_update}
use evoblue_video_mcp.Runtime.Worker.{Round, stop, go_on, transaction, ending, report_failure}
use evoblue_video_mcp.Runtime.Follows.{
  Follows, Follows-refl, Follows-Respects, Follows-display, IsConsistent-display, get-display,
  shown,
}

-- the job rests: no stage of it runs
unfoldable pub resting : Option Job → Bool
resting none = true
resting (some job) = not (is_running job.status)

module _ (S : Sql) where
  -- what is true of the job when a round stops without an exception
  unfoldable pub settled_at : String → Outcome (Unit {0}) → Queue S → Bool
  unfolding resting
  settled_at k (err e) q = true
  settled_at k (ok _) q = resting (get S k q.jobs)

  -- A round of job `k` in state `s` on the table `t`.
  abbrev pub IsRound : S.Table Job → String → JobStatus → Round S → Type 0
  IsRound t k s (stop o q) = Follows S t q.jobs × (settled_at k o q ≡ true)
  IsRound t k s (go_on job q) =
      Follows S t q.jobs × (get S k q.jobs ≡ some job) × (position s < position job.status)

  pub transaction_ok {ℓ} :
      {A : Type ℓ} (q : Queue S) (u : Outcome A × S.Table Job) (a : A)
      → u.0 ≡ ok a
      → transaction S q u ≡ (ok a, record q { jobs = u.1 })
  unfolding transaction
  transaction_ok q (ok b, t) a e = ap (λ o. (o, record q { jobs = t })) e
  transaction_ok q (err x, t) a e = cc

  pub transaction_err {ℓ} :
      {A : Type ℓ} (q : Queue S) (u : Outcome A × S.Table Job) (x : Error)
      → u.0 ≡ err x
      → transaction S q u ≡ (err x, q)
  unfolding transaction
  transaction_err q (ok b, t) x e = cc
  transaction_err q (err y, t) x e = cc

-- the job as it reads after the display
abbrev pub seen : String → Option Display → Job → Job
seen k o j = elim o [ none ↦ j | some d ↦ shown (λ row. str_eq row.job_id k) d j ]

pub seen_status : (k : String) (o : Option Display) (j : Job) → (seen k o j).status ≡ j.status
unfolding displayed
seen_status k none j = refl
seen_status k (some d) j = elim (Bool-cases (str_eq j.job_id k)) [
  | inl e ↦ rw e refl
  | inr e ↦ rw e refl
]

module _ (S : Sql) (q : Queue S) (k : String) (s : JobStatus) (u : Outcome Job × S.Table Job) where
  ends_raised : (x : Error) → u.0 ≡ err x → IsRound S q.jobs k s (ending S (transaction S q u))
  unfolding ending
  ends_raised x e =
      subst (λ r. IsRound S q.jobs k s (ending S r)) (sym (transaction_err S q u x e))
        (Follows-refl S q.jobs, (unfold settled_at in refl))

  ends_written :
      (row : Job)
      → u.0 ≡ ok row
      → get S k u.1 ≡ some row
      → is_running row.status ≡ false
      → Follows S q.jobs u.1
      → IsRound S q.jobs k s (ending S (transaction S q u))
  unfolding ending settled_at resting
  ends_written row e read rests f =
      subst (λ r. IsRound S q.jobs k s (ending S r)) (sym (transaction_ok S q u row e))
        (f, rw (read, rests, settled_at) refl)

pub unfinished : (s t : JobStatus) → is_valid_transition s t ≡ true → is_terminal s ≡ false
unfinished s t h = elim (Bool-cases (is_terminal s)) [
  | inr e ↦ e
  | inl e ↦ absurd (false≢true (sym (terminal_no_edge s t e) ∙ h))
]

waits : (b : Bool) → is_running (if b then retry_wait else failed) ≡ false
unfolding is_running
waits true = refl
waits false = refl

module _ (S : Sql) (L : IsLawful S) (owner : String) (lease_seconds : ℕ)
    (clock next_id : ℕ → ℕ) where
  -- a failure that is reported ends the round
  pub report_failure-IsRound :
      (now : ℕ) (k : String) (o : Option Display) (code : String) (retryable : Bool)
      (next_retry_at : Option ℕ) (detail : Option String) (q : Queue S) (job : Job) (s : JobStatus)
      → IsConsistent (S.rows q.jobs)
      → get S k q.jobs ≡ some job
      → IsRound S q.jobs k s (
          ending S (
            report_failure S owner lease_seconds clock next_id now k o code retryable next_retry_at
              detail q))
  unfolding report_failure failure
  report_failure-IsRound now k o code retryable next_retry_at detail q job s c found =
      let t = apply_display_update S k o q.jobs in
      let here = seen k o job in
      let read : get S k t ≡ some here =
        get-display S L k o q.jobs ∙ ap (map_option (seen k o)) found in
      let result =
        mark_failure_result S L k here t (IsConsistent-display S L k o q.jobs c) read owner now code
          retryable next_retry_at detail in
      let to = if retryable then retry_wait else failed in
      let u = mark_failure S k owner now code retryable next_retry_at detail t in
      elim (Bool-cases (is_valid_transition here.status to)) [
        | inr bad ↦ ends_raised S q k s u transition_error (result.0 ∙ rw bad refl)
        | inl legal ↦ elim (Bool-cases (holds_lease owner now here)) [
          | inr lost ↦ ends_raised S q k s u lease_lost (result.0 ∙ rw (legal, lost) refl)
          | inl held ↦
              ends_written S q k s u (failure now code retryable next_retry_at detail here)
                (result.0 ∙ rw (legal, held) refl)
                (result.1 k ∙ rw (legal, held, (eq_iff k k).1 refl) refl) (waits retryable)
                (Follows-display S L k o job q.jobs u.1 found
                  (subst (λ x. is_terminal x ≡ false) (seen_status k o job)
                    (unfinished here.status to legal))
                  (Follows-Respects S t u.1
                    (mark_failure-Respects S L k owner now code retryable next_retry_at detail t)))
        ]
      ]

  -- a cancellation by the user ends the round
  pub mark_cancelled-IsRound :
      (now : ℕ) (k : String) (q : Queue S) (job : Job) (s : JobStatus)
      → IsConsistent (S.rows q.jobs)
      → get S k q.jobs ≡ some job
      → IsRound S q.jobs k s (ending S (transaction S q (mark_cancelled S k owner now q.jobs)))
  unfolding stopped
  mark_cancelled-IsRound now k q job s c found =
      let u = mark_cancelled S k owner now q.jobs in
      let result = mark_cancelled_result S L k job q.jobs c found owner now in
      elim (Bool-cases (holds_lease owner now job)) [
        | inr lost ↦ ends_raised S q k s u lease_lost (result.0 ∙ rw lost refl)
        | inl held ↦
            ends_written S q k s u (stopped now job) (result.0 ∙ rw held refl)
              (result.1 k ∙ rw (held, (eq_iff k k).1 refl) refl) (unfold is_running in refl)
              (Follows-Respects S q.jobs u.1 (mark_cancelled-Respects S L k owner now q.jobs))
      ]
