-- ===== src/Lib.antt =====
-- EvoBlue Video MCP: the persistent core of the local engine (src/evoblue_video_mcp). A user
-- submits the URL of a video; the engine keeps it as a job in SQLite, and workers take jobs under
-- leases, run them stage by stage and commit what each stage makes; jobs that need a speech model
-- are parked until the model is downloaded and installed. The parts meet in the database: every
-- operation is one IMMEDIATE transaction, hence one function of the tables, and any interleaving of
-- workers, heartbeats, sweeps and requests is a sequence of such operations.
--
-- Prelude: Boolean tests, lists and options that all parts share. Outcome: a value or an exception.
--
-- Sql: the database. SQLAlchemy and SQLite are not part of the repository, so a table is an
-- abstract type with insert, update ... where ... returning, delete and order by, and IsLawful
-- states their documented meaning. Sql/Memory gives tables kept as lists, which meet the laws, and
-- the samples run on them. Sql/Keys has the lemmas on unique keys.
--
-- Jobs (src/evoblue_video_mcp/jobs): States is states.py; Transitions is transitions.py, where
-- build_allowed computes the table as _build_allowed does, the last assignment for RETRY_WAIT
-- included; Graph is the diagram as a relation; Facts has what the queue uses of single states.
--
-- Storage (src/evoblue_video_mcp/storage/models.py and the first part of storage/repository.py):
-- Models has the records; Session has _get, _get_required and the compare-and-swap that the guarded
-- updates are made of; Claims has enqueue_job, claim_job and claim_next_job; Leases has
-- advance_job, mark_failure, mark_cancelled, pin_job_asr_route and renew_lease; Sweeps has
-- recover_stale_jobs, fail_exhausted_retries, land_dangling_cancellations, resume_waiting_jobs and
-- request_cancellation; Listing has list_jobs; Settings the row of settings and
-- list_waiting_model_ids; Committing what the commit of an artifact gives; Artifacts has
-- commit_artifact_and_advance, get_artifact and save_artifact_inline over the queue with its
-- artifacts. The other files carry proofs: Invariant, Rules, RowSteps, HolderSteps, ClaimSteps,
-- AdvanceSteps, Enqueue, ArtifactSteps and Operations that each operation keeps the table
-- consistent; Exact, Results and Claiming what it returns and writes; Fencing, Recovery and History
-- what follows for workers and runs. History has the operations as the worker and the application
-- call them: claim_job of a parked job, which would lease it, a stage of advance_job that does not
-- run, and an artifact committed with the move to WAITING_FOR_MODEL are left out, since no caller
-- does that.
--
-- Downloads (src/evoblue_video_mcp/storage/model_download.py and the last part of
-- storage/repository.py): Status and Diagram are the state machine; Registry has the three tables
-- and the write with its check of the revision; Installs and Transfers have the operations. Fit,
-- Writes, Backed, Sound, Preserve and Runs carry the invariant; Results, Completing and Refusals
-- say what the operations give.
--
-- Runtime (src/evoblue_video_mcp/runtime/worker.py): Stage has StageOutcome and the display
-- columns, Worker the loop of run_worker_once over the queue of Storage. A handler is an argument:
-- a function of the job and the queue that returns an outcome or raises, and changes the queue as
-- heartbeats, requests and other workers may while it runs; Gate
-- (src/evoblue_video_mcp/runtime/bootstrap.py) has the factory of the handlers and a turn of the
-- loop over the calls; IsTame of Handled says what is relied on. Rounds, Moves, Success and Ends
-- follow one round, Runs the whole call. The loop runs on fuel: each round that goes on moves the
-- job to a later state, and there are 15 states.
--
-- Web (src/evoblue_video_mcp/web/app.py): Lists has the routes /api/jobs and /api/jobs/unified with
-- their response models, Documents the query list_report_documents of storage/report_repository.py,
-- Slices what the unified page is. Bridge (src/evoblue_video_mcp/mcp/listing.py): Wire has the
-- rows, Pages the builders of pages; Windows says what an accepted page is, Accepting which rows
-- are accepted, Served that the engine's page is. Pydantic's validation of a row and the JSON
-- between the two processes are arguments.
--
-- Application (src/evoblue_video_mcp/application): Submit is submit.py and has _find_reusable and
-- submit_video, Reuse what they promise; Blockers is queue_blockers.py, compared with the worker's
-- gate. Transcript (src/evoblue_video_mcp/transcript/chunker.py): Chunker has chunk_text with
-- str.strip and str.rfind on lists of code points, Bounds its proofs. Its loop runs on fuel, one
-- more than the length of the stripped text: each round takes at least one code point off.
--
-- Config (src/evoblue_video_mcp/application/client_config, merge_json.py and backup.py): Json has
-- the values that Python's json module gives and dictionaries in their order, Merge the merge and
-- the removal of the engine's entry with the proofs that the code runs after a write. Dicts and
-- Equality are the lemmas on dictionaries, Intact that these proofs pass, Printed what is read
-- back, Entries the results. Backups is backup.py for one target, with its backups as a list and
-- their names as time and tag; Restoring says what a restore leaves.
--
-- Asr (src/evoblue_video_mcp/asr/routing.py): Routing has route_asr, Choice what it chooses.
--
-- Checks: sample data, and the theorems at concrete inputs.
--
-- Conventions: a point in time is a whole number of clock ticks, and so are sizes and counters,
-- which the code keeps as float and int; a text column that holds the value of an enumeration is
-- that enumeration; random ids, digests and primary keys are arguments. A read gives the row as it
-- stands in the table: the identity map of a session, by which an object read earlier may be stale,
-- is not modelled.
--
-- Not modelled: the handlers of the worker's stages, the index of reports, the ASR installer, the
-- tools of the bridge, the other routes of the web API, the TOML and file parts of the client
-- configuration, and all that only calls the network, the file system or a library.
mod Prelude
pub mod Sql
pub mod Outcome
pub mod Jobs
pub mod Storage
pub mod Runtime
pub mod Downloads
pub mod Transcript
pub mod Application
mod Checks
pub mod Bridge
pub mod Web
pub mod Config
pub mod Asr
