-- ===== src/Checks/JobStates.antt =====
-- The theorems of Jobs at concrete states.
use evoblue_video_mcp.Prelude.{true, ◌≡◌, ◌↔◌}
use evoblue_video_mcp.Jobs.States.{queued, retry_wait, fetching_metadata, completed}
use evoblue_video_mcp.Jobs.Transitions.{is_valid_transition}
use evoblue_video_mcp.Jobs.Graph.{◌⟶◌, ◌⟶*◌, is_valid_transition_iff, ⟶*-completed}

is_valid_transition_iff_example :
    (is_valid_transition queued fetching_metadata ≡ true) ↔ (queued ⟶ fetching_metadata)
is_valid_transition_iff_example = is_valid_transition_iff queued fetching_metadata

⟶*-completed_example : retry_wait ⟶* completed
⟶*-completed_example = ⟶*-completed retry_wait (λ e. cc) (λ e. cc)
