-- ===== src/Runtime/Ends.antt =====
-- The rounds of the worker's loop, and their end.
use mathlib.Core.Path.{subst}
use evoblue_video_mcp.Prelude.{
  ℕ, zero, suc, ◌+◌, ◌≤◌, ◌||◌, true, false, not, inl, inr, none, some, String, is_none, Bool-cases,
  Option-cases, ◌≡◌, refl, arith,
}
use evoblue_video_mcp.Outcome.{Outcome, ok}
use evoblue_video_mcp.Sql.{Sql, IsLawful}
use evoblue_video_mcp.Jobs.States.{JobStatus, position, waiting_for_model, same, is_terminal}
use evoblue_video_mcp.Jobs.Transitions.{is_running}
use evoblue_video_mcp.Jobs.Facts.{terminal-Ends}
use evoblue_video_mcp.Storage.Models.{Job}
use evoblue_video_mcp.Storage.Session.{get, equals}
use evoblue_video_mcp.Storage.Artifacts.{Queue}
use evoblue_video_mcp.Storage.Invariant.{IsConsistent}
use evoblue_video_mcp.Storage.Exact.{get_as, read_id}
use evoblue_video_mcp.Storage.History.{row-IsKept}
use evoblue_video_mcp.Runtime.Stage.{StageOutcome, Executed, returned, raised}
use evoblue_video_mcp.Runtime.Worker.{
  Round, stop, go_on, Handlers, retry_time, after_stage, after_handler, round, rounds,
}
use evoblue_video_mcp.Runtime.Follows.{Follows, Follows-refl, Follows-trans}
use evoblue_video_mcp.Runtime.Rounds.{
  resting, settled_at, IsRound, report_failure-IsRound, mark_cancelled-IsRound,
}
use evoblue_video_mcp.Runtime.Moves.{position_bound}
use evoblue_video_mcp.Runtime.Success.{parks_no_artifact}
use evoblue_video_mcp.Runtime.Handled.{
  parks_bare, kept_or_lost, IsTame, HandlesStage, IsTable, report_success-IsRound,
}

module _ (S : Sql) where
  IsRound-trans :
      (t u : S.Table Job) (k : String) (s : JobStatus) (r : Round S)
      → Follows S t u
      → IsRound S u k s r
      → IsRound S t k s r
  IsRound-trans t u k s (stop o q) f h = (Follows-trans S t u q.jobs f h.0, h.1)
  IsRound-trans t u k s (go_on job q) f (g, found, moved) =
      (Follows-trans S t u q.jobs f g, found, moved)

  over-IsRound :
      (q : Queue S) (job : Job) (k : String) (s : JobStatus)
      → get S k q.jobs ≡ some job
      → is_terminal job.status ≡ true
      → IsRound S q.jobs k s (stop (ok tt) q)
  over-IsRound q job k s found over =
      let f = terminal-Ends job.status over in
      (
        Follows-refl S q.jobs,
        unfold settled_at in rw (found, settled_at) (unfold resting in rw f.not_running refl),
      )

module _ (S : Sql) (L : IsLawful S) (owner : String) (lease_seconds : ℕ)
    (clock next_id : ℕ → ℕ) where
  after_stage-IsRound :
      (tick : ℕ) (k : String) (o : StageOutcome) (q : Queue S) (job : Job) (s : JobStatus)
      → IsConsistent (S.rows q.jobs)
      → get S k q.jobs ≡ some job
      → is_running s ≡ true
      → ((now : ℕ) → kept_or_lost S owner s now (some job) ≡ true)
      → parks_bare (returned o) ≡ true
      → IsRound S q.jobs k s (after_stage S owner lease_seconds clock next_id tick k o q)
  unfolding after_stage
  after_stage-IsRound tick k o q job s c found runs steady parks =
      elim (Bool-cases (equals o.error_code "CANCELLED_BY_USER")) [
        | inl stopped ↦
            rw (stopped, after_stage)
              (mark_cancelled-IsRound S L owner lease_seconds clock next_id (clock tick) k q job s c
                found)
        | inr going ↦ elim (Option-cases o.error_code) [
          | inr (code, e) ↦
              rw (going, e, after_stage)
                (report_failure-IsRound S L owner lease_seconds clock next_id (clock (suc tick)) k
                  o.display_update code o.retryable (retry_time o (clock tick)) o.error_detail q job
                  s c found)
          | inl e ↦ elim (Option-cases o.target) [
            | inl without ↦
                rw (going, e, without, after_stage)
                  (report_failure-IsRound S L owner lease_seconds clock next_id (clock tick) k
                    o.display_update "INTERNAL_ERROR" false none (some "handler returned no target")
                    q job s c found)
            | inr (target, to) ↦
                let bare : (is_none o.artifact || not (same target waiting_for_model)) ≡ true =
                  unfold parks_bare in unfold parks_no_artifact in rw to at parks in
                rw (going, e, to, after_stage)
                  (report_success-IsRound S L owner lease_seconds clock next_id tick k o target q
                    job s c found runs steady bare)
          ]
        ]
      ]

  after_handler-IsRound :
      (tick : ℕ) (k : String) (x : Executed) (q : Queue S) (job : Job) (s : JobStatus)
      → IsConsistent (S.rows q.jobs)
      → get S k q.jobs ≡ some job
      → is_running s ≡ true
      → ((now : ℕ) → kept_or_lost S owner s now (some job) ≡ true)
      → parks_bare x ≡ true
      → IsRound S q.jobs k s (after_handler S owner lease_seconds clock next_id tick k (x, q))
  unfolding after_handler
  after_handler-IsRound tick k (returned o) q job s c found runs steady parks =
      after_stage-IsRound tick k o q job s c found runs steady parks
  after_handler-IsRound tick k (raised type_name) q job s c found runs steady parks =
      report_failure-IsRound S L owner lease_seconds clock next_id (clock tick) k none
        "INTERNAL_ERROR" false none (some type_name) q job s c found

  module _ (handlers : Handlers S) (table : IsTable S owner handlers) where
    handler-IsRound :
        (tick : ℕ) (execute : Job → Queue S → Executed × Queue S) (job : Job) (q : Queue S)
        → is_running job.status ≡ true
        → IsTame S owner execute
        → IsConsistent (S.rows q.jobs)
        → get S job.job_id q.jobs ≡ some job
        → IsRound S q.jobs job.job_id job.status
            (after_handler S owner lease_seconds clock next_id tick job.job_id (execute job q))
    unfolding get
    handler-IsRound tick execute job q runs tame c found =
        let k = job.job_id in
        let x = (execute job q).0 in
        let r = (execute job q).1 in
        let f = tame.follows job q in
        let (c', evolves) = f c in
        let (y, there, kept) = row-IsKept S L k job (S.rows q.jobs) (S.rows r.jobs) evolves found in
        let steady : (now : ℕ) → kept_or_lost S owner job.status now (some y) ≡ true = λ now.
          subst (λ o. kept_or_lost S owner job.status now o ≡ true) there
            (tame.steady job q now found) in
        IsRound-trans S q.jobs r.jobs k job.status _ f
          (after_handler-IsRound tick k x r y job.status c' there runs steady (tame.parks job q))

    round-IsRound :
        (tick : ℕ) (job : Job) (q : Queue S)
        → IsConsistent (S.rows q.jobs)
        → get S job.job_id q.jobs ≡ some job
        → IsRound S q.jobs job.job_id job.status
            (round S owner lease_seconds clock next_id handlers tick job q)
    unfolding round
    round-IsRound tick job q c found = elim (Bool-cases (is_terminal job.status)) [
      | inl over ↦ rw (over, round) (over-IsRound S q job job.job_id job.status found over)
      | inr live ↦ elim (Option-cases (handlers job.status)) [
        | inl without ↦
            rw (live, without, round)
              (report_failure-IsRound S L owner lease_seconds clock next_id (clock tick) job.job_id
                none "INTERNAL_ERROR" false none _ q job job.status c found)
        | inr (execute, e) ↦
            let (runs, tame) = subst (HandlesStage S owner job.status) e (table job.status) in
            rw (live, e, round) (handler-IsRound tick execute job q runs tame c found)
      ]
    ]

    -- the loop ends, and what it leaves
    pub record LoopEnds (fuel tick : ℕ) (job : Job) (q : Queue S) : Type 0 where
      pub outcome : Outcome (Unit {0})
      pub after : Queue S
      pub ends :
          rounds S owner lease_seconds clock next_id handlers fuel tick job q
          ≡ some (outcome, after)
      pub follows : Follows S q.jobs after.jobs
      pub settled : settled_at S job.job_id outcome after ≡ true

    pub rounds_end :
        (fuel tick : ℕ) (job : Job) (q : Queue S)
        → IsConsistent (S.rows q.jobs)
        → get S job.job_id q.jobs ≡ some job
        → 15 ≤ fuel + position job.status
        → LoopEnds fuel tick job q
    unfolding rounds
    rounds_end zero tick job q c found enough =
        let bound = position_bound job.status in absurd (omega arith)
    rounds_end (suc fuel) tick job q c found enough =
        next (round S owner lease_seconds clock next_id handlers tick job q) refl
          (round-IsRound tick job q c found) (λ j r. rounds_end fuel (suc (suc tick)) j r)
      where
        next :
            (r : Round S)
            → round S owner lease_seconds clock next_id handlers tick job q ≡ r
            → IsRound S q.jobs job.job_id job.status r
            → ((j : Job) (p : Queue S)
                → IsConsistent (S.rows p.jobs)
                → get S j.job_id p.jobs ≡ some j
                → 15 ≤ fuel + position j.status
                → LoopEnds fuel (suc (suc tick)) j p)
            → LoopEnds (suc fuel) tick job q
        next (stop o r) e h again = record {
          outcome = o;
          after = r;
          ends = rw (e, rounds) refl;
          follows = h.0;
          settled = h.1;
        }
        next (go_on j r) e (f, there, moved) again =
            let same_job = read_id S L job.job_id j r.jobs there in
            let rest =
              again j r (f c).0 (get_as S L j.job_id job.job_id r.jobs j same_job there)
                (omega arith) in
            record {
              outcome = rest.outcome;
              after = rest.after;
              ends = rw (e, rounds) rest.ends;
              follows = Follows-trans S q.jobs r.jobs rest.after.jobs f rest.follows;
              settled =
                  subst (λ k. settled_at S k rest.outcome rest.after ≡ true) same_job rest.settled;
            }
