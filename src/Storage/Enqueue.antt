-- ===== src/Storage/Enqueue.antt =====
-- `enqueue_job` of storage/repository.py: the new row is valid and its keys are unique.
use evoblue_video_mcp.Prelude.{
  ℕ, ◌==◌, ◌≤◌, true, false, ◌||◌, inl, inr, Option, none, some, List, [], ◌∷◌, ◌++◌, String,
  str_eq, any, All-append, Bool-cases, if◌then◌else◌, ◌≡◌, refl, arith,
}
use evoblue_video_mcp.Sql.{Sql, IsLawful}
use evoblue_video_mcp.Jobs.States.{JobStatus}
use evoblue_video_mcp.Jobs.Transitions.{is_running}
use evoblue_video_mcp.Storage.Models.{Job}
use evoblue_video_mcp.Storage.Claims.{new_job, enqueue_job}
use evoblue_video_mcp.Storage.Invariant.{
  IsValid, runs_stage, clash, Distinct, Moves, Moves-refl, Evolves-grow,
}
use evoblue_video_mcp.Storage.Rules.{Respects, Respects-refl}

pub new_job-IsValid :
    (id : ℕ) (job_id url request_fingerprint config_fingerprint : String) (now : ℕ)
    (status : JobStatus) (mode asr : String) (language : Option String) (max_attempts attempt : ℕ)
    (next_retry_at : Option ℕ)
    → attempt ≤ max_attempts
    → IsValid (
        new_job id job_id url request_fingerprint config_fingerprint now status mode asr language
          max_attempts attempt next_retry_at)
unfolding new_job
new_job-IsValid id job_id url request_fingerprint config_fingerprint now status mode asr language
      max_attempts attempt next_retry_at fits =
    record {
      attempts = fits;
      lease_pair = refl;
      unowned = λ _. refl;
      stage_runs = initial_stage status;
      parked_uncancelled = λ _. refl;
    }
  where
    initial_stage : (s : JobStatus) → runs_stage (if is_running s then some s else none) ≡ true
    initial_stage s = elim (Bool-cases (is_running s)) [
      | inl e ↦ rw e (unfold runs_stage in e)
      | inr e ↦ rw e (unfold runs_stage in refl)
    ]

no_clash :
    (job : Job) (rows : List Job)
    → any (λ row. row.id == job.id || str_eq row.job_id job.job_id) rows ≡ false
    → Distinct rows
    → Distinct (rows ++ job ∷ [])
no_clash job [] h d = (tt, tt)
no_clash job (r ∷ rows) h d = (
  All-append (λ y. clash r y ≡ false) rows (job ∷ []) d.0 ((ground arith), tt),
  no_clash job rows (ground arith) d.1,
)

module _ (S : Sql) (L : IsLawful S) where
  pub enqueue-Respects :
      (job : Job) (t : S.Table Job) → IsValid job → Respects S t (enqueue_job S job t).1
  unfolding enqueue_job
  enqueue-Respects job t valid h =
      elim (Bool-cases (any (λ row. row.id == job.id || str_eq row.job_id job.job_id) (S.rows t))) [
        | inl taken ↦ rw taken (Respects-refl S t h)
        | inr free ↦
            rw (free, L.rows-insert job t)
              (
                (
                  All-append IsValid (S.rows t) (job ∷ []) h.0 (valid, tt),
                  no_clash job (S.rows t) free h.1,
                ),
                Evolves-grow Moves Moves-refl (S.rows t) (job ∷ []),
              )
      ]
