-- ===== src/Application/Blockers.antt =====
-- application/queue_blockers.py: why a job does not move. A store that does not answer in time counts
-- as one that raises.
use Prim.Native.String.{◌++◌ as ◌<>◌}
use evoblue_video_mcp.Prelude.{
  ℕ, ◌&&◌, Bool, true, false, ◌⊎◌, inl, inr, Option, none, some, String, str_eq, Bool-cases,
  Option-cases, &&-eq_true, if◌then◌else◌, ◌≡◌, refl,
}
use evoblue_video_mcp.Sql.{Sql}
use evoblue_video_mcp.Storage.Artifacts.{Queue}
use evoblue_video_mcp.Storage.Settings.{AppSettings}
use evoblue_video_mcp.Runtime.Worker.{Handlers, run_worker_once}
use evoblue_video_mcp.Runtime.Gate.{
  is_truthy, SecretStore, secret_of, is_complete, with_secret, handler_factory, after_worker,
  worker_turn,
}

pub record Blocker : Type 0 where
  pub reason : String
  pub message : String

-- `_stored_key_exists`: none if it is unknown
unfoldable pub stored_key_exists : Option SecretStore → Option String → Option Bool
stored_key_exists none reference = some false
stored_key_exists (some get_secret) reference =
    if is_truthy reference
    then elim (secret_of get_secret reference) [ none ↦ none | some value ↦ some (is_truthy value) ]
    else some false

abbrev pub model_name : Option String → String
model_name none = "推荐的 ASR 模型"
model_name (some s) = if str_eq s "" then "推荐的 ASR 模型" else s

abbrev pub keyring_error : Blocker
keyring_error = record {
  reason = "keyring_error";
  message = "任务在排队但不会开始: 系统凭据库暂时不可读, 请稍后重试或重启 EvoBlue";
}

abbrev pub llm_key_unavailable : String → Blocker
llm_key_unavailable port = record {
  reason = "llm_key_unavailable";
  message = "任务在排队但不会开始: API Key 未配置, 请到 WebUI 设置页补齐 (http://127.0.0.1:" <> (port <> "/settings)");
}

-- the last part of `job_blocker`, for the answer about the key
unfoldable pub key_blocker : String → Option Bool → Option Blocker
key_blocker port none = some keyring_error
key_blocker port (some false) = some (llm_key_unavailable port)
key_blocker port (some true) = none

unfoldable pub setup_incomplete : String → Blocker
setup_incomplete port = record {
  reason = "setup_incomplete";
  message = "任务在排队但不会开始: 请先在 WebUI 完成初始设置 (http://127.0.0.1:" <> (port <> "/settings), 保存后任务自动开始");
}

-- `row.setup_completed` and the four texts of its settings
unfoldable pub is_set_up : AppSettings → Bool
is_set_up row =
    row.setup_completed
    && (is_truthy row.llm_provider
        && (is_truthy row.llm_base_url
            && (is_truthy row.llm_model && is_truthy row.llm_credential_ref)))

-- `job_blocker`; the port is given as text, the row as get_app_settings reads it
unfoldable pub job_blocker :
    String → Option String → Option SecretStore → String → Option AppSettings → Option Blocker
unfolding stored_key_exists key_blocker setup_incomplete is_set_up
job_blocker status recommendation store port row =
    if str_eq status "waiting_for_model"
    then some (record {
      reason = "waiting_for_model";
      message =
          "等待本地语音模型就绪: 到 WebUI 模型页安装 "
          <> (model_name recommendation
              <> (" (http://127.0.0.1:" <> (port <> "/models), 安装完成后任务自动继续")));
    })
    else if str_eq status "queued"
    then elim row [
      | none ↦ some (setup_incomplete port)
      | some settings ↦
          if is_set_up settings
          then key_blocker port (stored_key_exists store settings.llm_credential_ref)
          else some (setup_incomplete port)
    ]
    else none

set_up-eq : (s : AppSettings) → is_complete s ≡ is_set_up s
unfolding is_complete is_set_up
set_up-eq s = refl

names_credential : (s : AppSettings) → is_set_up s ≡ true → is_truthy s.llm_credential_ref ≡ true
unfolding is_set_up
names_credential s h =
    let first = (&&-eq_true s.setup_completed _ h).1 in
    let second = (&&-eq_true (is_truthy s.llm_provider) _ first).1 in
    let third = (&&-eq_true (is_truthy s.llm_base_url) _ second).1 in
    (&&-eq_true (is_truthy s.llm_model) (is_truthy s.llm_credential_ref) third).1

module _ (S : Sql) (get_secret : SecretStore) (build_handlers : AppSettings → String → Handlers S)
    (owner : String) (lease_seconds : ℕ) (clock next_id : ℕ → ℕ) (fuel : ℕ)
    (recommendation : Option String) (port : String) (row : Option AppSettings) (q : Queue S) where
  abbrev pub blocker : Option Blocker
  blocker = job_blocker "queued" recommendation (some get_secret) port row

  abbrev pub turn : Option (Bool × Queue S)
  turn = worker_turn S get_secret build_handlers owner lease_seconds clock next_id fuel row q

  -- a job in the queue is not blocked, and the worker's turn tries to claim one
  pub record Moves : Type 0 where
    pub unblocked : blocker ≡ none
    pub handlers : Handlers S
    pub built : handler_factory S get_secret build_handlers row ≡ some handlers
    pub works :
        turn
        ≡ after_worker S get_secret build_handlers owner lease_seconds clock next_id fuel
            (run_worker_once S owner lease_seconds clock next_id handlers fuel q)

  -- it is blocked, and the turn leaves the queue as it is and sleeps
  pub record Blocked : Type 0 where
    pub why : Blocker
    pub blocked : blocker ≡ some why
    pub sleeps : turn ≡ some (true, q)

  -- the gate of the worker is shut
  shut :
      (why : Blocker)
      → blocker ≡ some why
      → handler_factory S get_secret build_handlers row ≡ none
      → Blocked
  unfolding worker_turn
  shut why e f = record { why = why; blocked = e; sleeps = rw (f, worker_turn) refl }

  -- the gate is open
  open_ :
      (handlers : Handlers S)
      → blocker ≡ none
      → handler_factory S get_secret build_handlers row ≡ some handlers
      → Moves
  unfolding worker_turn
  open_ handlers e f = record {
    unblocked = e;
    handlers = handlers;
    built = f;
    works = rw (f, worker_turn) refl;
  }

  -- What job_blocker says of a queued job is what the worker does, for the same settings and
  -- answers of the credential store: either it names no blocker, the factory builds handlers and
  -- the turn of the worker is a call of run_worker_once with them; or it names one, and the turn
  -- claims nothing, leaves the queue as it is and sleeps.
  pub job_blocker_result : Moves ⊎ Blocked
  unfolding job_blocker handler_factory stored_key_exists with_secret key_blocker
  job_blocker_result = elim (Option-cases row) [
    | inl e ↦ inr (shut (setup_incomplete port) (rw e refl) (rw e refl))
    | inr (settings, e) ↦ elim (Bool-cases (is_set_up settings)) [
      | inr f ↦
          inr (shut (setup_incomplete port) (rw (e, f) refl) (rw (e, set_up-eq settings, f) refl))
      | inl f ↦
          let there = names_credential settings f in
          elim (Option-cases (secret_of get_secret settings.llm_credential_ref)) [
            | inl g ↦ inr (
                shut keyring_error (rw (e, f, there, g) refl)
                  (rw (e, set_up-eq settings, f, g) refl))
            | inr (value, g) ↦ elim (Option-cases value) [
              | inl v ↦ inr (
                  shut (llm_key_unavailable port) (rw (e, f, there, g, v) refl)
                    (rw (e, set_up-eq settings, f, g, v) refl))
              | inr (key, v) ↦ elim (Bool-cases (str_eq key "")) [
                | inl b ↦ inr (
                    shut (llm_key_unavailable port) (rw (e, f, there, g, v, b) refl)
                      (rw (e, set_up-eq settings, f, g, v, b) refl))
                | inr b ↦ inl (
                    open_ (build_handlers settings key) (rw (e, f, there, g, v, b) refl)
                      (rw (e, set_up-eq settings, f, g, v, b) refl))
              ]
            ]
          ]
    ]
  ]
