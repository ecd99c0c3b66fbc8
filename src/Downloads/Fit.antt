-- ===== src/Downloads/Fit.antt =====
-- What holds of every download, and how one write may change it.
use evoblue_video_mcp.Prelude.{
  ℕ, ◌==◌, ◌+◌, ◌≤◌, Bool, true, false, ◌||◌, not, ◌⊎◌, inl, inr, Option, String, ◌≡◌, refl, arith,
}
use evoblue_video_mcp.Downloads.Status.{
  ModelDownloadStatus, pending, downloading, verifying, installing, completed, failed, cancelled,
  is_same, in_flight, is_allowed,
}
use evoblue_video_mcp.Downloads.Diagram.{
  ◌⇒◌, start, verify, install, finish, break_off, withdraw, edge_of_table,
}
use evoblue_video_mcp.Downloads.Registry.{ModelDownload}
use evoblue_video_mcp.Downloads.Transfers.{
  restarted, switched, installed, Changes, moved, progressed, may_restart, is_early, is_refused,
}

-- the bytes of a download in such a state have been counted in full
unfoldable pub is_counted : ModelDownloadStatus → Bool
is_counted verifying = true
is_counted installing = true
is_counted completed = true
is_counted _ = false

pub record IsFit (d : ModelDownload) : Type 0 where
  pub within : d.downloaded_bytes ≤ d.expected_size_bytes
  pub complete : is_counted d.status ≡ true → d.downloaded_bytes ≡ d.expected_size_bytes

-- One write that was admitted: the row was in flight, what it downloads stays, the revision is next.
pub record Proceeds (x y : ModelDownload) : Type 0 where
  pub same_operation : y.operation_id ≡ x.operation_id
  pub same_model : y.model_id ≡ x.model_id
  pub same_version : y.version ≡ x.version
  pub same_sha256 : y.expected_sha256 ≡ x.expected_sha256
  pub same_size : y.expected_size_bytes ≡ x.expected_size_bytes
  pub next_revision : y.revision ≡ x.revision + 1
  pub was_in_flight : in_flight x.status ≡ true
  pub fits : IsFit x → IsFit y

early_states :
    (s : ModelDownloadStatus)
    → (is_same s pending || is_same s downloading) ≡ true
    → (in_flight s ≡ true) × (is_counted s ≡ false)
unfolding is_same in_flight is_counted
early_states pending h = (refl, refl)
early_states downloading h = (refl, refl)
early_states verifying h = cc
early_states installing h = cc
early_states completed h = cc
early_states failed h = cc
early_states cancelled h = cc

edge_facts :
    {a b : ModelDownloadStatus}
    → a ⇒ b
    → (in_flight a ≡ true)
      × (is_counted b ≡ true → (is_counted a ≡ true) ⊎ (is_same b verifying ≡ true))
unfolding in_flight is_counted is_same
edge_facts start = (refl, (λ h. cc))
edge_facts verify = (refl, (λ h. inr refl))
edge_facts install = (refl, (λ h. inl refl))
edge_facts finish = (refl, (λ h. inl refl))
edge_facts (break_off h) = (h, (λ k. cc))
edge_facts (withdraw h) = (h, (λ k. cc))

pub restarted-Proceeds :
    (now : ℕ) (d : ModelDownload) → may_restart d ≡ true → Proceeds d (restarted d.revision now d)
unfolding may_restart restarted
restarted-Proceeds now d h =
    let (flies, uncounted) = early_states d.status h in
    record {
      same_operation = refl;
      same_model = refl;
      same_version = refl;
      same_sha256 = refl;
      same_size = refl;
      next_revision = refl;
      was_in_flight = flies;
      fits = λ f. record { within = omega arith; complete = λ c. cc (c, uncounted) };
    }

pub switched-Proceeds :
    (source_url source_kind : String) (now : ℕ) (d : ModelDownload)
    → may_restart d ≡ true
    → Proceeds d (switched d.revision source_url source_kind now d)
unfolding may_restart switched
switched-Proceeds source_url source_kind now d h =
    let (flies, uncounted) = early_states d.status h in
    record {
      same_operation = refl;
      same_model = refl;
      same_version = refl;
      same_sha256 = refl;
      same_size = refl;
      next_revision = refl;
      was_in_flight = flies;
      fits = λ f. record { within = omega arith; complete = λ c. cc (c, uncounted) };
    }

pub installed-Proceeds :
    (now : ℕ) (d : ModelDownload)
    → is_allowed d.status completed ≡ true
    → Proceeds d (installed d.revision now d)
unfolding installed
installed-Proceeds now d h =
    let (flies, counted) = edge_facts (edge_of_table d.status completed h) in
    record {
      same_operation = refl;
      same_model = refl;
      same_version = refl;
      same_sha256 = refl;
      same_size = refl;
      next_revision = refl;
      was_in_flight = flies;
      fits = λ f. record {
        within = f.within;
        complete = λ c. elim (counted c) [ inl k ↦ f.complete k | inr k ↦ unfold is_same in cc k ];
      };
    }

pub moved-Proceeds :
    (to_status : ModelDownloadStatus) (now : ℕ) (c : Changes) (d : ModelDownload)
    → is_allowed d.status to_status ≡ true
    → is_early to_status d ≡ false
    → Proceeds d (moved to_status d.revision now c d)
unfolding moved is_early
moved-Proceeds to_status now c d h early =
    let (flies, counted) = edge_facts (edge_of_table d.status to_status h) in
    record {
      same_operation = refl;
      same_model = refl;
      same_version = refl;
      same_sha256 = refl;
      same_size = refl;
      next_revision = refl;
      was_in_flight = flies;
      fits = λ f. record {
        within = f.within;
        complete = λ k. elim (counted k) [
          | inl was ↦ f.complete was
          | inr verifies ↦ all_here (rw verifies at early)
        ];
      };
    }
  where
    all_here :
        not (d.downloaded_bytes == d.expected_size_bytes) ≡ false
        → d.downloaded_bytes ≡ d.expected_size_bytes
    all_here e = ground arith

pub progressed-Proceeds :
    (bytes now : ℕ) (temp_path etag last_modified : Option String) (d : ModelDownload)
    → is_refused bytes d ≡ false
    → Proceeds d (progressed bytes d.revision now temp_path etag last_modified d)
unfolding progressed is_refused
progressed-Proceeds bytes now temp_path etag last_modified d h =
    let loads : is_same d.status downloading ≡ true = ground arith in
    let bounded : bytes ≤ d.expected_size_bytes = ground arith in
    let (flies, uncounted) = early_states d.status (ground arith) in
    record {
      same_operation = refl;
      same_model = refl;
      same_version = refl;
      same_sha256 = refl;
      same_size = refl;
      next_revision = refl;
      was_in_flight = flies;
      fits = λ f. record { within = bounded; complete = λ c. cc (c, uncounted) };
    }
