-- ===== src/Jobs/States.antt =====
-- jobs/states.py
use evoblue_video_mcp.Prelude.{ℕ, String, Bool, true, false, not, ◌==◌, ◌≡◌, arith}

pub data JobStatus : Type 0 where
  queued fetching_metadata fetching_subtitles downloading_audio transcribing : JobStatus
  waiting_for_model cleaning_transcript chunking summarizing_chunks : JobStatus
  generating_report indexing retry_wait completed failed cancelled : JobStatus

-- The place of a member in the enumeration, by which members are compared.
unfoldable pub position : JobStatus → ℕ
position queued = 0
position fetching_metadata = 1
position fetching_subtitles = 2
position downloading_audio = 3
position transcribing = 4
position waiting_for_model = 5
position cleaning_transcript = 6
position chunking = 7
position summarizing_chunks = 8
position generating_report = 9
position indexing = 10
position retry_wait = 11
position completed = 12
position failed = 13
position cancelled = 14

-- `is` and `==` on members
unfoldable pub same : JobStatus → JobStatus → Bool
unfolding position
same a b = position a == position b

-- the text of a member
unfoldable pub value : JobStatus → String
value queued = "queued"
value fetching_metadata = "fetching_metadata"
value fetching_subtitles = "fetching_subtitles"
value downloading_audio = "downloading_audio"
value transcribing = "transcribing"
value waiting_for_model = "waiting_for_model"
value cleaning_transcript = "cleaning_transcript"
value chunking = "chunking"
value summarizing_chunks = "summarizing_chunks"
value generating_report = "generating_report"
value indexing = "indexing"
value retry_wait = "retry_wait"
value completed = "completed"
value failed = "failed"
value cancelled = "cancelled"

-- `status in TERMINAL_JOB_STATUSES`
unfoldable pub is_terminal : JobStatus → Bool
is_terminal completed = true
is_terminal failed = true
is_terminal cancelled = true
is_terminal _ = false

-- `status in ACTIVE_JOB_STATUSES`
unfoldable pub is_active : JobStatus → Bool
unfolding is_terminal
is_active s = not (is_terminal s)

pub same_self : (a : JobStatus) → same a a ≡ true
unfolding same
same_self a = ground arith

pub same→eq : (a b : JobStatus) → same a b ≡ true → a ≡ b
unfolding same
same→eq queued b h = ground arith
same→eq fetching_metadata b h = ground arith
same→eq fetching_subtitles b h = ground arith
same→eq downloading_audio b h = ground arith
same→eq transcribing b h = ground arith
same→eq _ b h = ground arith
