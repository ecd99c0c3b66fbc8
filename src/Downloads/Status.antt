-- ===== src/Downloads/Status.antt =====
-- storage/model_download.py
use evoblue_video_mcp.Prelude.{
  ℕ, Bool, true, false, List, [], ◌∷◌, ◌++◌, ◌==◌, any, if◌then◌else◌, ◌≡◌, arith,
}
use evoblue_video_mcp.Outcome.{Outcome, ok, err, transition_error}

pub data ModelDownloadStatus : Type 0 where
  pending downloading verifying installing completed failed cancelled : ModelDownloadStatus

-- The place of a member in the enumeration, by which members are compared.
unfoldable pub place : ModelDownloadStatus → ℕ
place pending = 0
place downloading = 1
place verifying = 2
place installing = 3
place completed = 4
place failed = 5
place cancelled = 6

-- `==` on members
unfoldable pub is_same : ModelDownloadStatus → ModelDownloadStatus → Bool
unfolding place
is_same a b = place a == place b

-- `status in TERMINAL_DOWNLOAD_STATUSES`
unfoldable pub is_over : ModelDownloadStatus → Bool
is_over completed = true
is_over failed = true
is_over cancelled = true
is_over _ = false

-- `status in ACTIVE_DOWNLOAD_STATUSES`
unfoldable pub in_flight : ModelDownloadStatus → Bool
in_flight pending = true
in_flight downloading = true
in_flight verifying = true
in_flight installing = true
in_flight _ = false

abbrev pub DownloadEdge : Type 0
DownloadEdge = ModelDownloadStatus × ModelDownloadStatus

-- `_LINEAR_CHAIN`
unfoldable pub download_chain : List DownloadEdge
download_chain =
    (pending, downloading)
    ∷ (downloading, verifying)
    ∷ (verifying, installing)
    ∷ (installing, completed)
    ∷ []

-- `_ABORTABLE`
unfoldable pub abortable : List ModelDownloadStatus
abortable = pending ∷ downloading ∷ verifying ∷ installing ∷ []

-- the targets of `src` in a list of edges
unfoldable pub chain_targets : ModelDownloadStatus → List DownloadEdge → List ModelDownloadStatus
unfolding is_same
chain_targets src [] = []
chain_targets src ((a, b) ∷ edges) =
    let rest = chain_targets src edges in if is_same a src then b ∷ rest else rest

-- `_build_allowed()[src]`
unfoldable pub allowed_targets : ModelDownloadStatus → List ModelDownloadStatus
unfolding chain_targets download_chain abortable is_same
allowed_targets src =
    chain_targets src download_chain
    ++ (if any (λ s. is_same s src) abortable then failed ∷ cancelled ∷ [] else [])

-- `dst in ALLOWED_DOWNLOAD_TRANSITIONS[src]`
unfoldable pub is_allowed : ModelDownloadStatus → ModelDownloadStatus → Bool
unfolding allowed_targets is_same
is_allowed src dst = any (λ s. is_same s dst) (allowed_targets src)

-- `validate_transition`, which the repository imports as `validate_download_transition`
unfoldable pub validate_download : ModelDownloadStatus → ModelDownloadStatus → Outcome (Unit {0})
unfolding is_allowed
validate_download src dst = if is_allowed src dst then ok tt else err transition_error

pub is_same→eq : (a b : ModelDownloadStatus) → is_same a b ≡ true → a ≡ b
unfolding is_same place
is_same→eq pending b h = ground arith
is_same→eq downloading b h = ground arith
is_same→eq verifying b h = ground arith
is_same→eq installing b h = ground arith
is_same→eq completed b h = ground arith
is_same→eq failed b h = ground arith
is_same→eq cancelled b h = ground arith
