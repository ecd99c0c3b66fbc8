-- ===== src/Storage/RowSteps.antt =====
-- The UPDATEs of storage/repository.py that sweeps and users make, at a row that their WHERE admits:
-- the row stays valid and makes one move.
use evoblue_video_mcp.Prelude.{
  ℕ, ◌≤◌, true, false, ◌⊎◌, inl, inr, String, ◌≡◌, refl, arith, Bool-cases, &&-eq_true,
}
use evoblue_video_mcp.Jobs.States.{
  JobStatus, transcribing, waiting_for_model, retry_wait, failed, cancelled, same, same→eq,
  is_terminal,
}
use evoblue_video_mcp.Jobs.Transitions.{is_running, is_valid_transition}
use evoblue_video_mcp.Jobs.Facts.{running-Runs}
use evoblue_video_mcp.Storage.Models.{Job}
use evoblue_video_mcp.Storage.Session.{holds_lease}
use evoblue_video_mcp.Storage.Sweeps.{
  is_stale, released, is_exhausted, exhausted, is_dangling, landed, waits_for, resumed, is_idle,
  flagged, withdrawn,
}
use evoblue_video_mcp.Storage.Invariant.{IsValid, Moves, is_unowned, runs_stage}
use evoblue_video_mcp.Storage.Rules.{RowStep}

-- a live lease is held by a job that a worker owns
pub live_not_terminal :
    (owner : String) (now : ℕ) (r : Job)
    → IsValid r
    → holds_lease owner now r ≡ true
    → is_unowned r.status ≡ false
unfolding holds_lease is_unowned
live_not_terminal owner now r v h = ground (arith, v.unowned)

-- A move of a live row: the columns that no operation changes are at hand by computation.
pub Moves-live :
    (x y : Job)
    → y.id ≡ x.id
    → y.job_id ≡ x.job_id
    → y.max_attempts ≡ x.max_attempts
    → x.attempt ≤ y.attempt
    → is_terminal x.status ≡ false
    → (y.status ≡ x.status)
      ⊎ (is_valid_transition x.status y.status ≡ true)
      ⊎ ((is_terminal x.status ≡ false) × (y.status ≡ cancelled))
    → Moves x y
Moves-live x y i j m a live status = record {
  kept = record {
    same_id = i;
    same_job_id = j;
    same_limit = m;
    attempts_grow = a;
    frozen = λ t. cc (live, t);
  };
  status = status;
}

pub released-RowStep : (now : ℕ) (r : Job) → is_stale now r ≡ true → RowStep r (released now r)
unfolding is_stale released
released-RowStep now r h v = (
  record {
    attempts = v.attempts;
    lease_pair = refl;
    unowned = λ _. refl;
    stage_runs = v.stage_runs;
    parked_uncancelled = v.parked_uncancelled;
  },
  Moves-live r (released now r) refl refl refl (omega arith) (ground arith) (inl refl),
)

exhausted_fails :
    (r : Job)
    → is_exhausted r ≡ true
    → (is_terminal r.status ≡ false) × (is_valid_transition r.status failed ≡ true)
unfolding is_exhausted
exhausted_fails r h = elim (Bool-cases (same r.status retry_wait)) [
  | inl e ↦
      let s : r.status ≡ retry_wait = same→eq r.status retry_wait e in
      rw s (unfold is_terminal is_valid_transition in (refl, refl))
  | inr e ↦ let f = running-Runs r.status (ground arith) in (f.live, f.fails)
]

pub exhausted-RowStep : (now : ℕ) (r : Job) → is_exhausted r ≡ true → RowStep r (exhausted now r)
unfolding exhausted
exhausted-RowStep now r h v = (
  record {
    attempts = v.attempts;
    lease_pair = refl;
    unowned = λ _. refl;
    stage_runs = v.stage_runs;
    parked_uncancelled = λ e. cc;
  },
  Moves-live r (exhausted now r) refl refl refl (omega arith) (exhausted_fails r h).0
      (inr (inl (exhausted_fails r h).1)),
)

waiting_leaves :
    (s : JobStatus)
    → same s waiting_for_model ≡ true
    → (is_terminal s ≡ false)
      × (is_valid_transition s cancelled ≡ true)
      × (is_valid_transition s transcribing ≡ true)
waiting_leaves s h =
    rw (same→eq s waiting_for_model h)
      (unfold is_terminal is_valid_transition in (refl, refl, refl))

pub landed-RowStep : (now : ℕ) (r : Job) → is_dangling r ≡ true → RowStep r (landed now r)
unfolding is_dangling landed
landed-RowStep now r h v =
    let facts = waiting_leaves r.status (&&-eq_true _ _ h).0 in
    (
      record {
        attempts = v.attempts;
        lease_pair = refl;
        unowned = λ _. refl;
        stage_runs = v.stage_runs;
        parked_uncancelled = λ e. cc;
      },
      Moves-live r (landed now r) refl refl refl (omega arith) facts.0 (inr (inl facts.1)),
    )

pub resumed-RowStep :
    (model_id : String) (now : ℕ) (r : Job)
    → waits_for model_id r ≡ true
    → RowStep r (resumed now r)
unfolding waits_for resumed
resumed-RowStep model_id now r h v =
    let facts = waiting_leaves r.status (&&-eq_true _ _ h).0 in
    (
      record {
        attempts = v.attempts;
        lease_pair = refl;
        unowned = λ _. refl;
        stage_runs = unfold runs_stage is_running in refl;
        parked_uncancelled = λ e. cc;
      },
      Moves-live r (resumed now r) refl refl refl (omega arith) facts.0 (inr (inl facts.2)),
    )

pub withdrawn-RowStep :
    (now : ℕ) (r : Job) → is_terminal r.status ≡ false → RowStep r (withdrawn now r)
unfolding withdrawn
withdrawn-RowStep now r live v = (
  record {
    attempts = v.attempts;
    lease_pair = refl;
    unowned = λ _. refl;
    stage_runs = v.stage_runs;
    parked_uncancelled = λ e. cc;
  },
  Moves-live r (withdrawn now r) refl refl refl (omega arith) live (inr (inr (live, refl))),
)

pub flagged-RowStep :
    (now : ℕ) (r : Job)
    → is_terminal r.status ≡ false
    → is_idle r.status ≡ false
    → RowStep r (flagged now r)
unfolding flagged is_idle same
flagged-RowStep now r live busy v = (
  record {
    attempts = v.attempts;
    lease_pair = v.lease_pair;
    unowned = v.unowned;
    stage_runs = v.stage_runs;
    parked_uncancelled = λ e. ground arith;
  },
  Moves-live r (flagged now r) refl refl refl (omega arith) live (inl refl),
)
