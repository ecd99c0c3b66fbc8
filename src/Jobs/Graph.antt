-- ===== src/Jobs/Graph.antt =====
-- The transition diagram of jobs/transitions.py as a relation, against which the table is proved.
use evoblue_video_mcp.Prelude.{true, false, ◌≡◌, ◌≢◌, ◌↔◌, refl, arith}
use evoblue_video_mcp.Jobs.States.{
  JobStatus, queued, fetching_metadata, fetching_subtitles, downloading_audio, transcribing,
  waiting_for_model, cleaning_transcript, chunking, summarizing_chunks, generating_report, indexing,
  retry_wait, completed, failed, cancelled, is_terminal,
}
use evoblue_video_mcp.Jobs.Transitions.{is_valid_transition}

-- A stage that a worker executes.
pub data Stage : JobStatus → Type 0 where
  metadata : Stage fetching_metadata
  subtitles : Stage fetching_subtitles
  audio : Stage downloading_audio
  asr : Stage transcribing
  cleaning : Stage cleaning_transcript
  chunks : Stage chunking
  summaries : Stage summarizing_chunks
  report : Stage generating_report
  index : Stage indexing

infix 40 ◌⟶◌
pub data ◌⟶◌ : JobStatus → JobStatus → Type 0 where
  start : queued ⟶ fetching_metadata
  find_subtitles : fetching_metadata ⟶ fetching_subtitles
  need_audio : fetching_subtitles ⟶ downloading_audio
  have_subtitles : fetching_subtitles ⟶ cleaning_transcript
  transcribe : downloading_audio ⟶ transcribing
  park : transcribing ⟶ waiting_for_model
  unpark : waiting_for_model ⟶ transcribing
  transcribed : transcribing ⟶ cleaning_transcript
  cleaned : cleaning_transcript ⟶ chunking
  chunked : chunking ⟶ summarizing_chunks
  summarized : summarizing_chunks ⟶ generating_report
  reported : generating_report ⟶ indexing
  done : indexing ⟶ completed
  pause : {s : JobStatus} → Stage s → s ⟶ retry_wait
  break_off : {s : JobStatus} → Stage s → s ⟶ failed
  resume : {s : JobStatus} → Stage s → retry_wait ⟶ s
  reject : queued ⟶ failed
  withdraw : queued ⟶ cancelled
  unparked_failed : waiting_for_model ⟶ failed
  unparked_cancelled : waiting_for_model ⟶ cancelled
  give_up : retry_wait ⟶ failed
  abandon : retry_wait ⟶ cancelled

table_of_edge : {a b : JobStatus} → a ⟶ b → is_valid_transition a b ≡ true
unfolding is_valid_transition
table_of_edge (pause metadata) = refl
table_of_edge (pause subtitles) = refl
table_of_edge (pause audio) = refl
table_of_edge (pause asr) = refl
table_of_edge (pause cleaning) = refl
table_of_edge (pause chunks) = refl
table_of_edge (pause summaries) = refl
table_of_edge (pause report) = refl
table_of_edge (pause index) = refl
table_of_edge (break_off metadata) = refl
table_of_edge (break_off subtitles) = refl
table_of_edge (break_off audio) = refl
table_of_edge (break_off asr) = refl
table_of_edge (break_off cleaning) = refl
table_of_edge (break_off chunks) = refl
table_of_edge (break_off summaries) = refl
table_of_edge (break_off report) = refl
table_of_edge (break_off index) = refl
table_of_edge (resume metadata) = refl
table_of_edge (resume subtitles) = refl
table_of_edge (resume audio) = refl
table_of_edge (resume asr) = refl
table_of_edge (resume cleaning) = refl
table_of_edge (resume chunks) = refl
table_of_edge (resume summaries) = refl
table_of_edge (resume report) = refl
table_of_edge (resume index) = refl
table_of_edge start = refl
table_of_edge _ = refl

edge_of_table : (a b : JobStatus) → is_valid_transition a b ≡ true → a ⟶ b
unfolding is_valid_transition
edge_of_table queued fetching_metadata h = start
edge_of_table fetching_metadata fetching_subtitles h = find_subtitles
edge_of_table fetching_subtitles downloading_audio h = need_audio
edge_of_table fetching_subtitles cleaning_transcript h = have_subtitles
edge_of_table downloading_audio transcribing h = transcribe
edge_of_table transcribing waiting_for_model h = park
edge_of_table waiting_for_model transcribing h = unpark
edge_of_table transcribing cleaning_transcript h = transcribed
edge_of_table cleaning_transcript chunking h = cleaned
edge_of_table chunking summarizing_chunks h = chunked
edge_of_table summarizing_chunks generating_report h = summarized
edge_of_table generating_report indexing h = reported
edge_of_table indexing completed h = done
edge_of_table queued failed h = reject
edge_of_table queued cancelled h = withdraw
edge_of_table waiting_for_model failed h = unparked_failed
edge_of_table waiting_for_model cancelled h = unparked_cancelled
edge_of_table retry_wait failed h = give_up
edge_of_table retry_wait cancelled h = abandon
edge_of_table fetching_metadata retry_wait h = pause metadata
edge_of_table fetching_metadata failed h = break_off metadata
edge_of_table retry_wait fetching_metadata h = resume metadata
edge_of_table fetching_subtitles retry_wait h = pause subtitles
edge_of_table fetching_subtitles failed h = break_off subtitles
edge_of_table retry_wait fetching_subtitles h = resume subtitles
edge_of_table downloading_audio retry_wait h = pause audio
edge_of_table downloading_audio failed h = break_off audio
edge_of_table retry_wait downloading_audio h = resume audio
edge_of_table transcribing retry_wait h = pause asr
edge_of_table transcribing failed h = break_off asr
edge_of_table retry_wait transcribing h = resume asr
edge_of_table cleaning_transcript retry_wait h = pause cleaning
edge_of_table cleaning_transcript failed h = break_off cleaning
edge_of_table retry_wait cleaning_transcript h = resume cleaning
edge_of_table chunking retry_wait h = pause chunks
edge_of_table chunking failed h = break_off chunks
edge_of_table retry_wait chunking h = resume chunks
edge_of_table summarizing_chunks retry_wait h = pause summaries
edge_of_table summarizing_chunks failed h = break_off summaries
edge_of_table retry_wait summarizing_chunks h = resume summaries
edge_of_table generating_report retry_wait h = pause report
edge_of_table generating_report failed h = break_off report
edge_of_table retry_wait generating_report h = resume report
edge_of_table indexing retry_wait h = pause index
edge_of_table indexing failed h = break_off index
edge_of_table retry_wait indexing h = resume index
edge_of_table a b h = cc

-- The table that _build_allowed computes allows exactly the edges of the transition diagram.
pub is_valid_transition_iff : (a b : JobStatus) → (is_valid_transition a b ≡ true) ↔ (a ⟶ b)
is_valid_transition_iff a b = (edge_of_table a b, table_of_edge)

-- any number of moves that the table allows
infix 40 ◌⟶*◌
pub data ◌⟶*◌ : JobStatus → JobStatus → Type 0 where
  here : {s : JobStatus} → s ⟶* s
  then : {s t u : JobStatus} → is_valid_transition s t ≡ true → t ⟶* u → s ⟶* u

along : {s t u : JobStatus} → s ⟶ t → t ⟶* u → s ⟶* u
along e path = then (table_of_edge e) path

chunking_completes : chunking ⟶* completed
chunking_completes = along chunked (along summarized (along reported (along done here)))

metadata_completes : fetching_metadata ⟶* completed
metadata_completes = along find_subtitles (along have_subtitles (along cleaned chunking_completes))

transcribing_completes : transcribing ⟶* completed
transcribing_completes = along transcribed (along cleaned chunking_completes)

-- From every state but FAILED and CANCELLED there is a path to COMPLETED of moves that the table
-- of _build_allowed allows.
pub ⟶*-completed : (s : JobStatus) → s ≢ failed → s ≢ cancelled → s ⟶* completed
⟶*-completed queued _ _ = along start metadata_completes
⟶*-completed fetching_metadata _ _ = metadata_completes
⟶*-completed fetching_subtitles _ _ = along have_subtitles (along cleaned chunking_completes)
⟶*-completed downloading_audio _ _ = along transcribe transcribing_completes
⟶*-completed transcribing _ _ = transcribing_completes
⟶*-completed waiting_for_model _ _ = along unpark transcribing_completes
⟶*-completed cleaning_transcript _ _ = along cleaned chunking_completes
⟶*-completed chunking _ _ = chunking_completes
⟶*-completed summarizing_chunks _ _ = along summarized (along reported (along done here))
⟶*-completed generating_report _ _ = along reported (along done here)
⟶*-completed indexing _ _ = along done here
⟶*-completed retry_wait _ _ = along (resume metadata) metadata_completes
⟶*-completed completed _ _ = here
⟶*-completed failed h _ = absurd (h refl)
⟶*-completed cancelled _ h = absurd (h refl)

-- The facts about the table that the repository's proofs use.
pub terminal_no_edge : (a b : JobStatus) → is_terminal a ≡ true → is_valid_transition a b ≡ false
unfolding is_valid_transition is_terminal
terminal_no_edge completed b h = ground arith
terminal_no_edge failed b h = ground arith
terminal_no_edge cancelled b h = ground arith
terminal_no_edge _ b h = cc
