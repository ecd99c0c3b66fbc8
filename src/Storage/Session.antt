-- ===== src/Storage/Session.antt =====
-- The reads and the guarded write that every operation of storage/repository.py is made of. Each
-- operation runs in one IMMEDIATE transaction, so it is one function of the table; what it has not
-- committed when it raises is rolled back.
use evoblue_video_mcp.Prelude.{
  ℕ, Bool, false, ◌&&◌, Option, none, some, List, [], ◌∷◌, String, str_eq, first, ltb, leb,
}
use evoblue_video_mcp.Outcome.{Outcome, ok, err, vanished, multiple_rows}
use evoblue_video_mcp.Sql.{Sql}
use evoblue_video_mcp.Storage.Models.{Job}

-- `column <= now`, `column > now` and `column == value`, which are not true of NULL
abbrev pub at_most : Option ℕ → ℕ → Bool
at_most none now = false
at_most (some t) now = leb t now

abbrev pub after : Option ℕ → ℕ → Bool
after none now = false
after (some t) now = ltb now t

abbrev pub equals : Option String → String → Bool
equals none s = false
equals (some x) s = str_eq x s

-- `Job.lease_owner == owner`, `lease_expires_at IS NOT NULL`, `lease_expires_at > now`
unfoldable pub holds_lease : String → ℕ → Job → Bool
holds_lease owner now j = equals j.lease_owner owner && after j.lease_expires_at now

module _ {ℓ} {T : Type 0} {R : Type 0} {A : Type ℓ} where
  -- `if result.scalar_one_or_none() is None: rollback ...`, and else `commit`
  unfoldable pub settle : T × List R → Outcome A → (T → Outcome A) → T → Outcome A × T
  settle (t', []) lost won t = (lost, t)
  settle (t', r ∷ []) lost won t = (won t', t')
  settle (t', r ∷ s ∷ more) lost won t = (err multiple_rows, t)

module _ (S : Sql) where
  -- `_get`
  unfoldable pub get : String → S.Table Job → Option Job
  get job_id t = first (λ j. str_eq j.job_id job_id) (S.rows t)

  -- `_get_required`
  unfoldable pub get_required : String → S.Table Job → Outcome Job
  unfolding get
  get_required job_id t = elim (get job_id t) [ none ↦ err vanished | some job ↦ ok job ]

  -- `job = await _get(session, job_id)`, with what is done when there is none
  unfoldable pub with_job {ℓ} :
      {A : Type ℓ}
      → String
      → Outcome A
      → (Job → Outcome A × S.Table Job)
      → S.Table Job
      → Outcome A × S.Table Job
  unfolding get
  with_job job_id missing body t = elim (get job_id t) [ none ↦ (missing, t) | some job ↦ body job ]

  -- a compare-and-swap: the UPDATE with its RETURNING, committed only if it hit a row
  unfoldable pub compare_and_swap {ℓ} :
      {A : Type ℓ}
      → (Job → Bool)
      → (Job → Job)
      → Outcome A
      → (S.Table Job → Outcome A)
      → S.Table Job
      → Outcome A × S.Table Job
  unfolding settle
  compare_and_swap p f lost won t = settle (S.update p f t) lost won t
