-- ===== src/Runtime/Gate.antt =====
-- runtime/bootstrap.py: the handlers that the settings allow, and one turn of the worker's loop. The
-- credential store raises or gives a secret or None; what build_handlers makes is an argument.
use evoblue_video_mcp.Prelude.{
  ℕ, Bool, true, false, ◌&&◌, not, Option, none, some, String, str_eq, if◌then◌else◌,
}
use evoblue_video_mcp.Outcome.{Outcome, ok, err, Error, lease_lost}
use evoblue_video_mcp.Sql.{Sql}
use evoblue_video_mcp.Storage.Models.{Job}
use evoblue_video_mcp.Storage.Artifacts.{Queue}
use evoblue_video_mcp.Storage.Settings.{AppSettings}
use evoblue_video_mcp.Runtime.Worker.{Handlers, run_worker_once}

-- a text column counts as true if it is there and not empty
abbrev pub is_truthy : Option String → Bool
is_truthy none = false
is_truthy (some s) = not (str_eq s "")

-- `get_secret`: none if it raises
abbrev pub SecretStore : Type 0
SecretStore = String → Option (Option String)

-- `get_secret(settings.llm_credential_ref)`
abbrev pub secret_of : SecretStore → Option String → Option (Option String)
secret_of get_secret none = none
secret_of get_secret (some reference) = get_secret reference

-- the settings name a provider, a URL, a model and a credential
unfoldable pub is_complete : AppSettings → Bool
is_complete s =
    s.setup_completed
    && (is_truthy s.llm_provider
        && (is_truthy s.llm_base_url && (is_truthy s.llm_model && is_truthy s.llm_credential_ref)))

abbrev pub is_lease_lost : Error → Bool
is_lease_lost lease_lost = true
is_lease_lost e = false

module _ (S : Sql) (get_secret : SecretStore)
    (build_handlers : AppSettings → String → Handlers S) where
  -- the handlers for a secret that was read
  unfoldable pub with_secret : AppSettings → Option (Option String) → Option (Handlers S)
  with_secret settings none = none
  with_secret settings (some none) = none
  with_secret settings (some (some key)) =
      if str_eq key "" then none else some (build_handlers settings key)

  -- `ProductionHandlerFactory.__call__`, whose call of register_available_asr_providers before the secret
  -- is read is left out: it fills a registry that neither the queue nor the settings hold
  unfoldable pub handler_factory : Option AppSettings → Option (Handlers S)
  unfolding is_complete with_secret
  handler_factory none = none
  handler_factory (some settings) =
      if is_complete settings
      then with_secret settings (secret_of get_secret settings.llm_credential_ref)
      else none

  module _ (owner : String) (lease_seconds : ℕ) (clock next_id : ℕ → ℕ) (fuel : ℕ) where
    -- what follows a call of `run_worker_once`: whether the loop sleeps, and the queue
    unfoldable pub after_worker : Option (Outcome (Option Job) × Queue S) → Option (Bool × Queue S)
    after_worker none = none
    after_worker (some (err e, q)) = some (not (is_lease_lost e), q)
    after_worker (some (ok none, q)) = some (true, q)
    after_worker (some (ok (some job), q)) = some (false, q)

    -- one turn of `run_runtime_worker_loop`
    unfoldable pub worker_turn : Option AppSettings → Queue S → Option (Bool × Queue S)
    unfolding handler_factory after_worker run_worker_once
    worker_turn settings q = elim (handler_factory settings) [
      | none ↦ some (true, q)
      | some handlers ↦
          after_worker (run_worker_once S owner lease_seconds clock next_id handlers fuel q)
    ]
