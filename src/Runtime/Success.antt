-- ===== src/Runtime/Success.antt =====
-- The round of a stage that succeeds, with and without an artifact.
use mathlib.Core.Path.{subst}
use evoblue_video_mcp.Prelude.{
  ℕ, ◌||◌, Bool, true, false, not, ◌⊎◌, inl, inr, Option, none, some, String, eq_iff, is_none,
  Bool-cases, ◌≡◌, refl, sym, ◌∙◌, ap,
}
use evoblue_video_mcp.Outcome.{Outcome, ok, err, Error, transition_error, lease_lost}
use evoblue_video_mcp.Sql.{Sql, IsLawful}
use evoblue_video_mcp.Jobs.States.{JobStatus, waiting_for_model, same, is_terminal}
use evoblue_video_mcp.Jobs.Transitions.{is_running, is_valid_transition}
use evoblue_video_mcp.Storage.Models.{Job, JobArtifact}
use evoblue_video_mcp.Storage.Session.{get, holds_lease}
use evoblue_video_mcp.Storage.Leases.{advanced, advance_job, pending_cancel}
use evoblue_video_mcp.Storage.Artifacts.{Queue, committed, commit_artifact_and_advance}
use evoblue_video_mcp.Storage.Rules.{Respects}
use evoblue_video_mcp.Storage.Invariant.{IsConsistent, runs_stage}
use evoblue_video_mcp.Storage.Operations.{advance-Respects}
use evoblue_video_mcp.Storage.ArtifactSteps.{commit_artifact-Respects}
use evoblue_video_mcp.Storage.Results.{advance_job_result}
use evoblue_video_mcp.Storage.Committing.{commit_eq, reads_commit, after_commit}
use evoblue_video_mcp.Storage.Exact.{map_option}
use evoblue_video_mcp.Runtime.Stage.{Display, StageOutcome, apply_display_update}
use evoblue_video_mcp.Runtime.Worker.{transaction, rolled_back, advancing}
use evoblue_video_mcp.Runtime.Follows.{
  Follows-Respects, Follows-display, IsConsistent-display, get-display,
}
use evoblue_video_mcp.Runtime.Rounds.{
  IsRound, transaction_ok, transaction_err, seen, seen_status, unfinished,
}
use evoblue_video_mcp.Jobs.Graph.{is_valid_transition_iff}
use evoblue_video_mcp.Runtime.Moves.{later, later_final, advancing_raised, advancing_written}

-- a job without a target of parking is not parked by the stage that registers an artifact
unfoldable pub parks_no_artifact : StageOutcome → Bool
parks_no_artifact o = elim o.target [
  | none ↦ true
  | some target ↦ is_none o.artifact || not (same target waiting_for_model)
]

module _ (S : Sql) (L : IsLawful S) (owner : String) (lease_seconds : ℕ) where
  pub advance-IsRound :
      (now : ℕ) (k : String) (d : Option Display) (target : JobStatus) (progress : Option ℕ)
      (q : Queue S) (job : Job) (s : JobStatus)
      → IsConsistent (S.rows q.jobs)
      → get S k q.jobs ≡ some job
      → is_running s ≡ true
      → (job.status ≡ s) ⊎ (holds_lease owner now (seen k d job) ≡ false)
      → IsRound S q.jobs k s (
          advancing S (
            transaction S q (
              advance_job S k owner target now lease_seconds none progress
                (apply_display_update S k d q.jobs))))
  advance-IsRound now k d target progress q job s c found runs steady =
      let t = apply_display_update S k d q.jobs in
      let here = seen k d job in
      let read : get S k t ≡ some here =
        get-display S L k d q.jobs ∙ ap (map_option (seen k d)) found in
      let result =
        advance_job_result S L k here t (IsConsistent-display S L k d q.jobs c) read owner target
          now lease_seconds none progress in
      let u = advance_job S k owner target now lease_seconds none progress t in
      let row =
        advanced here target (pending_cancel S here t) now lease_seconds none progress here in
      elim (Bool-cases (is_valid_transition here.status target)) [
        | inr bad ↦ raised u transition_error (result.0 ∙ rw bad refl)
        | inl legal ↦ elim (Bool-cases (holds_lease owner now here)) [
          | inr lost ↦ raised u lease_lost (result.0 ∙ rw (legal, lost) refl)
          | inl held ↦ elim steady [
            | inr lacks ↦ cc (held, lacks)
            | inl same_state ↦
                let e : here.status ≡ s = seen_status k d job ∙ same_state in
                subst (λ r. IsRound S q.jobs k s (advancing S r))
                  (sym (transaction_ok S q u row (result.0 ∙ rw (legal, held) refl)))
                  (advancing_written S q k s (record q { jobs = u.1 }) row
                    (result.1 k ∙ rw (legal, held, (eq_iff k k).1 refl) refl)
                    (unfold advanced in
                      later_final s target (pending_cancel S here t) runs
                        (subst (λ x. is_valid_transition x target ≡ true) e legal))
                    (Follows-display S L k d job q.jobs u.1 found
                      (subst (λ x. is_terminal x ≡ false) (seen_status k d job)
                        (unfinished here.status target legal))
                      (Follows-Respects S t u.1 (
                        advance-Respects S L k owner target now lease_seconds none progress t
                          (unfold runs_stage in refl)))))
          ]
        ]
      ]
    where
      raised :
          (u : Outcome Job × S.Table Job) (x : Error)
          → u.0 ≡ err x
          → IsRound S q.jobs k s (advancing S (transaction S q u))
      raised u x e =
          subst (λ r. IsRound S q.jobs k s (advancing S r)) (sym (transaction_err S q u x e))
            (advancing_raised S q k s x)

  pub commit-IsRound :
      (now : ℕ) (k : String) (d : Option Display) (target : JobStatus) (progress : Option ℕ)
      (a : JobArtifact) (q : Queue S) (job : Job) (s : JobStatus)
      → IsConsistent (S.rows q.jobs)
      → get S k q.jobs ≡ some job
      → is_running s ≡ true
      → (job.status ≡ s) ⊎ (holds_lease owner now (seen k d job) ≡ false)
      → same target waiting_for_model ≡ false
      → IsRound S q.jobs k s (
          advancing S (
            rolled_back S q (
              commit_artifact_and_advance S k owner target now lease_seconds a progress
                (record q { jobs = apply_display_update S k d q.jobs }))))
  unfolding rolled_back
  commit-IsRound now k d target progress a q job s c found runs steady parks =
      let t = apply_display_update S k d q.jobs in
      let p = record q { jobs = t } in
      let here = seen k d job in
      let c' = IsConsistent-display S L k d q.jobs c in
      let read : get S k t ≡ some here =
        get-display S L k d q.jobs ∙ ap (map_option (seen k d)) found in
      let whole = commit_eq S L k owner target now lease_seconds a progress p here c' read in
      let respects =
        commit_artifact-Respects S L k owner target now lease_seconds a progress p parks in
      let after = after_commit S L here owner target now lease_seconds a progress p in
      let row = committed here target now lease_seconds progress here in
      elim (Bool-cases (is_valid_transition here.status target)) [
        | inr bad ↦
            let refused : commit_artifact_and_advance S k owner target now lease_seconds a progress
                  p
                ≡ (err transition_error, p) =
              whole ∙ rw bad refl in
            rw refused (advancing_raised S q k s transition_error)
        | inl legal ↦ elim (Bool-cases (holds_lease owner now here)) [
          | inr lost ↦
              let refused : commit_artifact_and_advance S k owner target now lease_seconds a
                    progress p
                  ≡ (err lease_lost, p) =
                whole ∙ rw (legal, lost) refl in
              rw refused (advancing_raised S q k s lease_lost)
          | inl held ↦ elim steady [
            | inr lacks ↦ cc (held, lacks)
            | inl same_state ↦
                let e : here.status ≡ s = seen_status k d job ∙ same_state in
                let done : commit_artifact_and_advance S k owner target now lease_seconds a progress
                      p
                    ≡ (ok row, after) =
                  whole ∙ rw (legal, held) refl in
                let at_k : get S k after.jobs ≡ some row =
                  reads_commit S L k owner target now lease_seconds a progress p here k c' read held
                  ∙ rw ((eq_iff k k).1 refl) refl in
                let edge = subst (λ x. is_valid_transition x target ≡ true) e legal in
                let kept =
                  subst (λ (z : Outcome Job × Queue S). Respects S t z.1.jobs) done respects in
                rw done (
                  advancing_written S q k s after row at_k
                    (unfold committed in later ((is_valid_transition_iff s target).0 edge) runs)
                    (Follows-display S L k d job q.jobs after.jobs found
                      (subst (λ x. is_terminal x ≡ false) (seen_status k d job)
                        (unfinished here.status target legal))
                      (Follows-Respects S t after.jobs kept)))
          ]
        ]
      ]
