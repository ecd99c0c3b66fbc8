-- ===== src/Runtime/Runs.antt =====
-- What a call of `run_worker_once` of runtime/worker.py does.
use mathlib.Core.Path.{subst}
use evoblue_video_mcp.Prelude.{
  ℕ, ◌≤◌, ◌||◌, ◌&&◌, Bool, true, false, not, ◌⊎◌, inl, inr, Option, none, some, All, String,
  str_eq, eq_iff, ◌≡◌, refl, ◌∙◌, ap, arith,
}
use evoblue_video_mcp.Outcome.{Outcome, ok, err}
use evoblue_video_mcp.Sql.{Sql, IsLawful}
use evoblue_video_mcp.Jobs.Transitions.{is_running}
use evoblue_video_mcp.Storage.Models.{Job}
use evoblue_video_mcp.Storage.Session.{get}
use evoblue_video_mcp.Storage.Claims.{claimable_where, claimed, claim_next_job, older}
use evoblue_video_mcp.Storage.Artifacts.{Queue}
use evoblue_video_mcp.Storage.Invariant.{IsKept, Evolves, IsConsistent}
use evoblue_video_mcp.Storage.Claiming.{Claims, claim_next_job_result, claim_next_job-Respects}
use evoblue_video_mcp.Storage.Exact.{read_id}
use evoblue_video_mcp.Storage.History.{row-IsKept}
use evoblue_video_mcp.Runtime.Worker.{Handlers, rounds, drive, final_read, run_worker_once}
use evoblue_video_mcp.Runtime.Follows.{Follows, Follows-trans, Follows-Respects}
use evoblue_video_mcp.Runtime.Rounds.{resting, settled_at}
use evoblue_video_mcp.Runtime.Handled.{IsTable}
use evoblue_video_mcp.Runtime.Ends.{rounds_end}

-- the call raises, or gives the job of that id, no stage of which runs
unfoldable pub is_result : String → Outcome (Option Job) → Bool
is_result k (err e) = true
is_result k (ok none) = false
is_result k (ok (some job)) = str_eq job.job_id k && not (is_running job.status)

module _ (S : Sql) (L : IsLawful S) (owner : String) (lease_seconds : ℕ) (clock next_id : ℕ → ℕ)
    (handlers : Handlers S) (fuel : ℕ) (q : Queue S) where
  -- a job is claimed, the oldest that is ready, and driven until it rests
  pub record Drives (c : Job) : Type 0 where
    pub ready : claimable_where (clock 0) c ≡ true
    pub oldest : All (λ j. (not (claimable_where (clock 0) j) || older c j) ≡ true) (S.rows q.jobs)
    pub outcome : Outcome (Option Job)
    pub after : Queue S
    pub ends :
        run_worker_once S owner lease_seconds clock next_id handlers fuel q ≡ some (outcome, after)
    pub consistent : IsConsistent (S.rows after.jobs)
    pub evolves : Evolves IsKept (S.rows q.jobs) (S.rows after.jobs)
    pub result : is_result c.job_id outcome ≡ true

  -- no job is ready, and nothing is done
  pub record Rests : Type 0 where
    pub none_ready : All (λ j. claimable_where (clock 0) j ≡ false) (S.rows q.jobs)
    pub ends :
        run_worker_once S owner lease_seconds clock next_id handlers fuel q ≡ some (ok none, q)

  drive_claimed :
      (u : Outcome (Option Job) × S.Table Job) (job : Job)
      → u.0 ≡ ok (some job)
      → drive S owner lease_seconds clock next_id handlers fuel q u
        ≡ final_read S owner lease_seconds clock next_id job.job_id (
            rounds S owner lease_seconds clock next_id handlers fuel 1 job
              (record q { jobs = u.1 }))
  unfolding drive
  drive_claimed (err e, t) job h = cc
  drive_claimed (ok none, t) job h = cc
  drive_claimed (ok (some j), t) job h =
      ap
        (λ (x : Job).
          final_read S owner lease_seconds clock next_id x.job_id
            (rounds S owner lease_seconds clock next_id handlers fuel 1 x (record q { jobs = t })))
        (ok_some j job h)
    where
      ok_some : (a b : Job) → ok (some a) ≡ ok (some b) → a ≡ b
      ok_some a b e = cc

  -- what is read in the end, when the loop has ended
  reads_end :
      (k : String) (x : Job) (t : S.Table Job) (o : Outcome (Unit {0})) (r : Queue S)
      → IsConsistent (S.rows t)
      → get S k t ≡ some x
      → Follows S t r.jobs
      → settled_at S k o r ≡ true
      → (outcome : Outcome (Option Job)) × (final_read S owner lease_seconds clock next_id k
            (some (o, r))
          ≡ some (outcome, r))
        × (is_result k outcome ≡ true)
  unfolding final_read is_result
  reads_end k x t (err e) r c found f settled = (err e, refl, refl)
  reads_end k x t (ok _) r c found f settled =
      let (y, there, kept) =
        row-IsKept S L k x (S.rows t) (S.rows r.jobs) (f c).1 (unfold get in found) in
      let read : get S k r.jobs ≡ some y = unfold get in there in
      let rests : resting (some y) ≡ true =
        subst (λ o. resting o ≡ true) read (unfold settled_at in settled) in
      (
        ok (some y),
        ap (λ o. some (ok o, r)) read,
        rw ((eq_iff y.job_id k).1 (read_id S L k y r.jobs read)) (unfold resting in rests),
      )

  -- run_worker_once returns or raises within 15 rounds, on a consistent queue and with handlers
  -- that each keep the queue consistent, lose no row, leave the state of the leased job alone and
  -- do not park a job with an artifact. It does nothing if no job is ready. Otherwise it claims
  -- the oldest job that is ready, and either raises or gives that job, no stage of which runs any
  -- more; no row is lost and finished rows stay as they are.
  pub run_worker_once_ends :
      IsTable S owner handlers
      → 15 ≤ fuel
      → IsConsistent (S.rows q.jobs)
      → Rests ⊎ ((c : Job) × Drives c)
  unfolding run_worker_once
  run_worker_once_ends table enough h =
      elim (claim_next_job_result S L owner lease_seconds (clock 0) q.jobs h) [
        | inr idle ↦ inl (record {
          none_ready = idle.none_ready;
          ends = rw (idle.unchanged, run_worker_once) (unfold drive in refl);
        })
        | inl (c, claims) ↦ inr (c, driven c claims)
      ]
    where
      driven : (c : Job) → Claims S L owner lease_seconds (clock 0) q.jobs c → Drives c
      driven c claims =
          let cl = claimed c owner lease_seconds (clock 0) c in
          let t = (claim_next_job S owner lease_seconds (clock 0) q.jobs).1 in
          let start : Follows S q.jobs t =
            Follows-Respects S q.jobs t
              (claim_next_job-Respects S L owner lease_seconds (clock 0) q.jobs) in
          let same_id : cl.job_id ≡ c.job_id = unfold claimed in refl in
          let there : get S cl.job_id t ≡ some cl =
            claims.others cl.job_id ∙ rw ((eq_iff cl.job_id c.job_id).1 same_id) refl in
          let loop =
            rounds_end S L owner lease_seconds clock next_id handlers table fuel 1 cl
              (record q { jobs = t }) (start h).0 there (omega arith) in
          let (o, read, rests) =
            reads_end cl.job_id cl t loop.outcome loop.after (start h).0 there loop.follows
              loop.settled in
          let whole = Follows-trans S q.jobs t loop.after.jobs start loop.follows in
          record {
            ready = claims.ready.1;
            oldest = claims.oldest;
            outcome = o;
            after = loop.after;
            ends =
                drive_claimed (claim_next_job S owner lease_seconds (clock 0) q.jobs) cl
                  claims.outcome
                ∙ (ap (final_read S owner lease_seconds clock next_id cl.job_id) loop.ends ∙ read);
            consistent = (whole h).0;
            evolves = (whole h).1;
            result = subst (λ k. is_result k o ≡ true) same_id rests;
          }
