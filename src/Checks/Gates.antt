-- ===== src/Checks/Gates.antt =====
-- A queued job with settings that are complete, and saving them.
use evoblue_video_mcp.Prelude.{[], ◌≡◌, ℕ, true, ◌⊎◌, none, some, String}
use evoblue_video_mcp.Sql.Memory.{memory, memory-IsLawful}
use evoblue_video_mcp.Runtime.Worker.{Handlers}
use evoblue_video_mcp.Runtime.Gate.{SecretStore}
use evoblue_video_mcp.Storage.Settings.{
  AppSettings, save_app_settings, get_app_settings, save_app_settings_result,
}
use evoblue_video_mcp.Application.Blockers.{Moves, Blocked, job_blocker_result}
use evoblue_video_mcp.Checks.Samples.{queue}

abbrev settings : AppSettings
settings = record {
  id = 1;
  setup_completed = true;
  report_directory = none;
  llm_provider = some "openai";
  llm_base_url = some "https://api.example.com";
  llm_model = some "m";
  llm_credential_ref = some "ref";
  llm_credential_origin = none;
  asr_provider = none;
  whisper_cpp_executable = none;
  updated_at = 1;
}

abbrev secrets : SecretStore
secrets reference = some (some "key")

-- handlers of no stage
abbrev idle_handlers : AppSettings → String → Handlers memory
idle_handlers s key status = none

abbrev ticks : ℕ → ℕ
ticks n = n

job_blocker_result_example :
    Moves memory secrets idle_handlers "w" 30 ticks ticks 16 none "8321" (some settings) queue
    ⊎ Blocked memory secrets idle_handlers "w" 30 ticks ticks 16 none "8321" (some settings) queue
job_blocker_result_example =
    job_blocker_result memory secrets idle_handlers "w" 30 ticks ticks 16 none "8321"
      (some settings) queue

-- The first save adds the row.
save_app_settings_result_example :
    get_app_settings memory (save_app_settings memory settings []).1 ≡ some settings
save_app_settings_result_example = (save_app_settings_result memory memory-IsLawful settings []).1
