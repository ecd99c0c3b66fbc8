-- ===== src/Jobs/Transitions.antt =====
-- jobs/transitions.py
use evoblue_video_mcp.Prelude.{
  Bool, true, false, ◌&&◌, ◌||◌, not, List, [], ◌∷◌, ◌++◌, any, select, if◌then◌else◌, ◌≡◌, refl,
}
use evoblue_video_mcp.Outcome.{Outcome, ok, err, transition_error}
use evoblue_video_mcp.Jobs.States.{
  JobStatus, queued, fetching_metadata, fetching_subtitles, downloading_audio, transcribing,
  waiting_for_model, cleaning_transcript, chunking, summarizing_chunks, generating_report, indexing,
  retry_wait, completed, failed, cancelled, same, is_terminal,
}

-- `status in RUNNING_STATES`
unfoldable pub is_running : JobStatus → Bool
unfolding is_terminal same
is_running s =
    not (is_terminal s) && not (same s queued || same s retry_wait || same s waiting_for_model)

-- every member of `JobStatus`
unfoldable pub all_states : List JobStatus
all_states =
    queued ∷ fetching_metadata ∷ fetching_subtitles ∷ downloading_audio ∷ transcribing
    ∷ waiting_for_model ∷ cleaning_transcript ∷ chunking ∷ summarizing_chunks ∷ generating_report
    ∷ indexing ∷ retry_wait ∷ completed ∷ failed ∷ cancelled ∷ []

abbrev pub Edge : Type 0
Edge = JobStatus × JobStatus

-- `_LINEAR_CHAIN`
unfoldable pub linear_chain : List Edge
linear_chain =
    (queued, fetching_metadata)
    ∷ (fetching_metadata, fetching_subtitles)
    ∷ (fetching_subtitles, downloading_audio)
    ∷ (fetching_subtitles, cleaning_transcript)
    ∷ (downloading_audio, transcribing)
    ∷ (transcribing, waiting_for_model)
    ∷ (waiting_for_model, transcribing)
    ∷ (transcribing, cleaning_transcript)
    ∷ (cleaning_transcript, chunking)
    ∷ (chunking, summarizing_chunks)
    ∷ (summarizing_chunks, generating_report)
    ∷ (generating_report, indexing)
    ∷ (indexing, completed)
    ∷ []

-- the targets of `src` in a list of edges
targets : JobStatus → List Edge → List JobStatus
targets src [] = []
targets src ((a, b) ∷ edges) = let rest = targets src edges in if same a src then b ∷ rest else rest

-- `_build_allowed()[src]`: the last assignment, for RETRY_WAIT, replaces what was added before.
unfoldable pub build_allowed : JobStatus → List JobStatus
unfolding targets linear_chain all_states is_running same
build_allowed src =
    if same src retry_wait
    then select is_running all_states ++ (failed ∷ cancelled ∷ [])
    else targets src linear_chain
      ++ ((if is_running src then retry_wait ∷ failed ∷ [] else [])
          ++ ((if same src queued then failed ∷ cancelled ∷ [] else [])
              ++ (if same src waiting_for_model
                  then transcribing ∷ failed ∷ cancelled ∷ []
                  else [])))

-- `dst in ALLOWED_TRANSITIONS[src]`
unfoldable pub is_valid_transition : JobStatus → JobStatus → Bool
unfolding build_allowed same
is_valid_transition src dst = any (λ s. same s dst) (build_allowed src)

transition_tests :
    (is_valid_transition queued fetching_metadata ≡ true)
    × (is_valid_transition retry_wait indexing ≡ true)
    × (is_valid_transition retry_wait queued ≡ false)
unfolding is_valid_transition
transition_tests = (refl, refl, refl)

-- `validate_transition`
unfoldable pub validate_transition : JobStatus → JobStatus → Outcome (Unit {0})
unfolding is_valid_transition
validate_transition src dst = if is_valid_transition src dst then ok tt else err transition_error
