-- ===== src/Runtime/Moves.antt =====
-- A stage that succeeds moves its job on: to a later state, or to rest in WAITING_FOR_MODEL.
use evoblue_video_mcp.Prelude.{
  ℕ, ◌<◌, ◌≤◌, ◌&&◌, true, not, inl, inr, Option, some, String, is_some, Bool-cases, ◌≡◌, refl,
  arith,
}
use evoblue_video_mcp.Outcome.{ok, err, Error}
use evoblue_video_mcp.Sql.{Sql}
use evoblue_video_mcp.Jobs.States.{
  JobStatus, position, queued, fetching_metadata, fetching_subtitles, downloading_audio,
  transcribing, waiting_for_model, cleaning_transcript, chunking, summarizing_chunks,
  generating_report, indexing, retry_wait, completed, failed, cancelled, same, same→eq,
}
use evoblue_video_mcp.Jobs.Transitions.{is_running, is_valid_transition}
use evoblue_video_mcp.Jobs.Facts.{running-Runs}
use evoblue_video_mcp.Jobs.Graph.{
  Stage, metadata, subtitles, audio, asr, cleaning, chunks, summaries, report, index, ◌⟶◌, start,
  find_subtitles, need_audio, have_subtitles, transcribe, park, unpark, transcribed, cleaned,
  chunked, summarized, reported, done, pause, break_off, resume, reject, withdraw, unparked_failed,
  unparked_cancelled, give_up, abandon, is_valid_transition_iff,
}
use evoblue_video_mcp.Storage.Models.{Job}
use evoblue_video_mcp.Storage.Session.{get}
use evoblue_video_mcp.Storage.Leases.{final_status}
use evoblue_video_mcp.Storage.Artifacts.{Queue}
use evoblue_video_mcp.Runtime.Worker.{advancing}
use evoblue_video_mcp.Runtime.Follows.{Follows, Follows-refl}
use evoblue_video_mcp.Runtime.Rounds.{resting, settled_at, IsRound}

before_rest : {s : JobStatus} → Stage s → position s < 11
unfolding position
before_rest metadata = omega arith
before_rest subtitles = omega arith
before_rest audio = omega arith
before_rest asr = omega arith
before_rest cleaning = omega arith
before_rest chunks = omega arith
before_rest summaries = omega arith
before_rest report = omega arith
before_rest index = omega arith

-- an edge out of a running state leads to a later state
pub later : {s t : JobStatus} → s ⟶ t → is_running s ≡ true → (position s < position t)
unfolding position is_running
later (pause w) h = let p = before_rest w in omega arith
later (break_off w) h = let p = before_rest w in omega arith
later (resume w) h = cc
later unpark h = cc
later start h = omega arith
later find_subtitles h = omega arith
later need_audio h = omega arith
later have_subtitles h = omega arith
later transcribe h = omega arith
later park h = omega arith
later transcribed h = omega arith
later cleaned h = omega arith
later chunked h = omega arith
later summarized h = omega arith
later reported h = omega arith
later done h = omega arith
later reject h = omega arith
later withdraw h = omega arith
later unparked_failed h = omega arith
later unparked_cancelled h = omega arith
later give_up h = omega arith
later abandon h = omega arith

pub position_bound : (s : JobStatus) → position s ≤ 14
unfolding position
position_bound queued = omega arith
position_bound fetching_metadata = omega arith
position_bound fetching_subtitles = omega arith
position_bound downloading_audio = omega arith
position_bound transcribing = omega arith
position_bound waiting_for_model = omega arith
position_bound cleaning_transcript = omega arith
position_bound chunking = omega arith
position_bound summarizing_chunks = omega arith
position_bound generating_report = omega arith
position_bound indexing = omega arith
position_bound retry_wait = omega arith
position_bound completed = omega arith
position_bound failed = omega arith
position_bound cancelled = omega arith

pub later_final :
    (s t : JobStatus) (pending : Option ℕ)
    → is_running s ≡ true
    → is_valid_transition s t ≡ true
    → position s < position (final_status t pending)
unfolding final_status
later_final s t pending h e = elim (Bool-cases (same t waiting_for_model && is_some pending)) [
  | inr other ↦ rw other (later ((is_valid_transition_iff s t).0 e) h)
  | inl lands ↦
      let early = later ((is_valid_transition_iff s failed).0 (running-Runs s h).fails) h in
      rw lands (unfold position in omega arith)
]

-- the job is parked, or goes on in a later state
module _ (S : Sql) (q : Queue S) (k : String) (s : JobStatus) where
  pub advancing_raised : (x : Error) → IsRound S q.jobs k s (advancing S (err x, q))
  unfolding advancing
  advancing_raised x = (Follows-refl S q.jobs, (unfold settled_at in refl))

  pub advancing_written :
      (r : Queue S) (row : Job)
      → get S k r.jobs ≡ some row
      → position s < position row.status
      → Follows S q.jobs r.jobs
      → IsRound S q.jobs k s (advancing S (ok row, r))
  unfolding advancing
  advancing_written r row read moved f = elim (Bool-cases (same row.status waiting_for_model)) [
    | inr other ↦ rw other (f, read, moved)
    | inl parked ↦ rw parked (
      f,
      unfold settled_at in
          rw (read, settled_at)
            (unfold resting in rests row.status (same→eq row.status waiting_for_model parked)),
    )
  ]
    where
      rests : (t : JobStatus) → t ≡ waiting_for_model → not (is_running t) ≡ true
      rests t e = rw e (unfold is_running in refl)
