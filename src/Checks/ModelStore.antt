-- ===== src/Checks/ModelStore.antt =====
-- Sample models and downloads, and the theorems on them at concrete inputs.
use evoblue_video_mcp.Prelude.{ℕ, true, ◌⊎◌, none, some, [], ◌∷◌, ◌≡◌, ◌≤◌, ◌↔◌, refl, arith}
use evoblue_video_mcp.Outcome.{ok, err, value_error}
use evoblue_video_mcp.Sql.Memory.{memory, memory-IsLawful}
use evoblue_video_mcp.Downloads.Status.{
  ModelDownloadStatus, downloading, verifying, installing, completed, is_allowed, is_over, is_same,
}
use evoblue_video_mcp.Downloads.Registry.{
  ModelInstall, ActiveModel, ModelDownload, Registry, get_installation, get_download_operation,
  is_install,
}
use evoblue_video_mcp.Downloads.Installs.{uninstall_model}
use evoblue_video_mcp.Downloads.Diagram.{◌⇒◌, is_allowed_iff}
use evoblue_video_mcp.Downloads.Transfers.{
  new_download, create_download_operation, Changes, advance_download_operation,
  update_download_progress, restart_download,
}
use evoblue_video_mcp.Downloads.Fit.{is_counted}
use evoblue_video_mcp.Downloads.Sound.{IsSound}
use evoblue_video_mcp.Downloads.Runs.{ModelRun, idle, next, create, advance, reached-IsSound}
use evoblue_video_mcp.Downloads.Results.{
  update_download_progress_result, advance_download_operation_result,
}
use evoblue_video_mcp.Downloads.Completing.{complete_installation_result, Completes, Declines}
use evoblue_video_mcp.Downloads.Refusals.{
  over_takes_no_write, stale_writes_change_nothing, uninstall_model_result,
}

abbrev download_in : ModelDownloadStatus → ℕ → ModelDownload
download_in status bytes = record {
  operation_id = "op";
  model_id = "small";
  version = "2";
  source_url = "https://models/small";
  source_kind = "primary";
  expected_sha256 = "abc";
  expected_size_bytes = 10;
  downloaded_bytes = bytes;
  temp_path = none;
  etag = none;
  last_modified = none;
  status = status;
  error_code = none;
  error_detail = none;
  revision = 3;
  created_at = 1;
  updated_at = 2;
}

abbrev old_version : ModelInstall
old_version = record {
  model_id = "small";
  version = "1";
  installed_path = "/models/small/1";
  installed_at = 0;
}

abbrev old_active : ActiveModel
old_active = record { model_id = "small"; active_version = "1"; updated_at = 0 }

abbrev registry : ModelDownload → Registry memory
registry d = record { installs = old_version ∷ []; actives = old_active ∷ []; downloads = d ∷ [] }

abbrev empty : Registry memory
empty = record { installs = []; actives = []; downloads = [] }

abbrev no_changes : Changes
no_changes = record {
  temp_path = none;
  etag = none;
  last_modified = none;
  error_code = none;
  error_detail = none;
}

registry-IsSound :
    (status : ModelDownloadStatus) (bytes : ℕ)
    → bytes ≤ 10
    → (is_counted status ≡ true → bytes ≡ 10)
    → IsSound memory (registry (download_in status bytes))
registry-IsSound status bytes fits counted = record {
  tracked = record {
    operations = λ k. ((λ _. tt), tt);
    flights = λ m. ((λ _. tt), tt);
    fits = (record { within = fits; complete = counted }, tt);
  };
  backed = record {
    installs = λ m v. ((λ _. tt), tt);
    actives = λ m. ((λ _. tt), tt);
    backed = (unfold is_install in refl, tt);
  };
}

loading-IsSound : IsSound memory (registry (download_in downloading 4))
unfolding is_counted
loading-IsSound = registry-IsSound downloading 4 (omega arith) (λ c. cc)

placing-IsSound : IsSound memory (registry (download_in installing 10))
placing-IsSound = registry-IsSound installing 10 (omega arith) (λ c. refl)

read_loading :
    get_download_operation memory "op" (registry (download_in downloading 4))
    ≡ some (download_in downloading 4)
unfolding get_download_operation
read_loading = refl

read_placing :
    get_download_operation memory "op" (registry (download_in installing 10))
    ≡ some (download_in installing 10)
unfolding get_download_operation
read_placing = refl

read_done :
    get_download_operation memory "op" (registry (download_in completed 10))
    ≡ some (download_in completed 10)
unfolding get_download_operation
read_done = refl

update_download_progress_result_example :
    (update_download_progress memory "op" 7 5 none none none
      (some 3)
      (registry (download_in downloading 4))).0
    ≡ ok (record (download_in downloading 4) { downloaded_bytes = 7; revision = 4; updated_at = 5 })
unfolding is_same
update_download_progress_result_example =
    (update_download_progress_result memory memory-IsLawful "op" 7 5 none none none (some 3)
      (registry (download_in downloading 4)) (download_in downloading 4) loading-IsSound
      read_loading).0

-- four of ten bytes are not ready for verification
advance_download_operation_result_example :
    (advance_download_operation memory "op" verifying 5 no_changes none
      (registry (download_in downloading 4))).0
    ≡ err value_error
unfolding is_allowed is_same
advance_download_operation_result_example =
    (advance_download_operation_result memory memory-IsLawful "op" verifying 5 no_changes none
      (registry (download_in downloading 4)) (download_in downloading 4) loading-IsSound
      read_loading).0

complete_installation_result_example :
    Completes memory "op" "small" "2" "/models/small/2" 5
      (registry (download_in installing 10))
      (download_in installing 10)
    ⊎ Declines memory "op" "small" "2" "/models/small/2" 5
        (registry (download_in installing 10))
        (download_in installing 10)
complete_installation_result_example =
    complete_installation_result memory memory-IsLawful "op" "small" "2" "/models/small/2" 5
      (registry (download_in installing 10)) (download_in installing 10) placing-IsSound
      read_placing

over_takes_no_write_example :
    (restart_download memory "op" 5 (registry (download_in completed 10))).1
    ≡ registry (download_in completed 10)
unfolding is_over
over_takes_no_write_example =
    (over_takes_no_write memory "op" "small" "2" "/p" "https://other" "mirror" verifying 7 5
      no_changes none none none none (registry (download_in completed 10))
      (download_in completed 10) read_done refl).2

-- a second writer, who still expects revision 2
stale_writes_change_nothing_example :
    (update_download_progress memory "op" 7 5 none none none
      (some 2)
      (registry (download_in downloading 4))).1
    ≡ registry (download_in downloading 4)
stale_writes_change_nothing_example =
    (stale_writes_change_nothing memory memory-IsLawful "op" verifying 7 5 no_changes none none none
      2 (registry (download_in downloading 4)) (download_in downloading 4) loading-IsSound
      read_loading refl).1

uninstall_model_result_example :
    get_installation memory "small" "1"
      (uninstall_model memory "small" (registry (download_in downloading 4))).1
    ≡ none
uninstall_model_result_example =
    (uninstall_model_result memory memory-IsLawful "small" "1" "large"
      (registry (download_in downloading 4)) refl).0

run :
    ModelRun memory empty
      (advance_download_operation memory "op" downloading 5 no_changes none
        (create_download_operation memory
          (new_download "op" "small" "2" "https://models/small" "primary" "abc" 10 1 none none)
          empty).1).1
run =
    next (next idle (create "op" "small" "2" "https://models/small" "primary" "abc" 10 1 none none))
      (advance "op" downloading 5 no_changes none)

reached-IsSound_example :
    IsSound memory
      (advance_download_operation memory "op" downloading 5 no_changes none
        (create_download_operation memory
          (new_download "op" "small" "2" "https://models/small" "primary" "abc" 10 1 none none)
          empty).1).1
reached-IsSound_example = reached-IsSound memory memory-IsLawful empty _ refl refl refl run

is_allowed_iff_example : is_allowed installing completed ≡ true ↔ installing ⇒ completed
is_allowed_iff_example = is_allowed_iff installing completed
