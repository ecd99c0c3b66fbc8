-- ===== src/Jobs/Facts.antt =====
-- What the repository's proofs use of the states: facts about one state at a time.
use evoblue_video_mcp.Prelude.{true, false, ◌⊎◌, inl, inr, ◌≡◌, refl}
use evoblue_video_mcp.Jobs.States.{
  JobStatus, queued, fetching_metadata, fetching_subtitles, downloading_audio, transcribing,
  waiting_for_model, cleaning_transcript, chunking, summarizing_chunks, generating_report, indexing,
  retry_wait, completed, failed, cancelled, same, is_terminal,
}
use evoblue_video_mcp.Jobs.Transitions.{is_running, is_valid_transition}

pub record Runs (s : JobStatus) : Type 0 where
  pub live : is_terminal s ≡ false
  pub fails : is_valid_transition s failed ≡ true
  pub pauses : is_valid_transition s retry_wait ≡ true
  pub resumes : is_valid_transition retry_wait s ≡ true
  pub not_queued : same s queued ≡ false
  pub not_waiting : same s waiting_for_model ≡ false
  pub not_retry : same s retry_wait ≡ false

pub running-Runs : (s : JobStatus) → is_running s ≡ true → Runs s
unfolding is_running is_terminal same is_valid_transition
running-Runs fetching_metadata h = record {
  live = refl;
  fails = refl;
  pauses = refl;
  resumes = refl;
  not_queued = refl;
  not_waiting = refl;
  not_retry = refl;
}
running-Runs fetching_subtitles h = record {
  live = refl;
  fails = refl;
  pauses = refl;
  resumes = refl;
  not_queued = refl;
  not_waiting = refl;
  not_retry = refl;
}
running-Runs downloading_audio h = record {
  live = refl;
  fails = refl;
  pauses = refl;
  resumes = refl;
  not_queued = refl;
  not_waiting = refl;
  not_retry = refl;
}
running-Runs transcribing h = record {
  live = refl;
  fails = refl;
  pauses = refl;
  resumes = refl;
  not_queued = refl;
  not_waiting = refl;
  not_retry = refl;
}
running-Runs cleaning_transcript h = record {
  live = refl;
  fails = refl;
  pauses = refl;
  resumes = refl;
  not_queued = refl;
  not_waiting = refl;
  not_retry = refl;
}
running-Runs chunking h = record {
  live = refl;
  fails = refl;
  pauses = refl;
  resumes = refl;
  not_queued = refl;
  not_waiting = refl;
  not_retry = refl;
}
running-Runs summarizing_chunks h = record {
  live = refl;
  fails = refl;
  pauses = refl;
  resumes = refl;
  not_queued = refl;
  not_waiting = refl;
  not_retry = refl;
}
running-Runs generating_report h = record {
  live = refl;
  fails = refl;
  pauses = refl;
  resumes = refl;
  not_queued = refl;
  not_waiting = refl;
  not_retry = refl;
}
running-Runs indexing h = record {
  live = refl;
  fails = refl;
  pauses = refl;
  resumes = refl;
  not_queued = refl;
  not_waiting = refl;
  not_retry = refl;
}
running-Runs s h = cc

-- A state is terminal, runs a stage, or is one of the three in which a job waits.
pub state_kinds :
    (s : JobStatus)
    → (is_terminal s ≡ true)
      ⊎ (is_running s ≡ true)
      ⊎ (s ≡ queued)
      ⊎ (s ≡ retry_wait)
      ⊎ (s ≡ waiting_for_model)
unfolding is_running is_terminal same
state_kinds queued = inr (inr (inl refl))
state_kinds retry_wait = inr (inr (inr (inl refl)))
state_kinds waiting_for_model = inr (inr (inr (inr refl)))
state_kinds completed = inl refl
state_kinds failed = inl refl
state_kinds cancelled = inl refl
state_kinds s = inr (inl refl)

pub record Ends (s : JobStatus) : Type 0 where
  pub not_running : is_running s ≡ false
  pub not_queued : same s queued ≡ false
  pub not_waiting : same s waiting_for_model ≡ false
  pub not_retry : same s retry_wait ≡ false

pub terminal-Ends : (s : JobStatus) → is_terminal s ≡ true → Ends s
unfolding is_running is_terminal same
terminal-Ends completed h = record {
  not_running = refl;
  not_queued = refl;
  not_waiting = refl;
  not_retry = refl;
}
terminal-Ends failed h = record {
  not_running = refl;
  not_queued = refl;
  not_waiting = refl;
  not_retry = refl;
}
terminal-Ends cancelled h = record {
  not_running = refl;
  not_queued = refl;
  not_waiting = refl;
  not_retry = refl;
}
terminal-Ends s h = cc
