-- ===== src/Downloads/Diagram.antt =====
-- The transition diagram of storage/model_download.py as a relation.
use evoblue_video_mcp.Prelude.{true, ◌≡◌, ◌↔◌, refl}
use evoblue_video_mcp.Downloads.Status.{
  ModelDownloadStatus, pending, downloading, verifying, installing, completed, failed, cancelled,
  is_allowed, in_flight,
}

infix 40 ◌⇒◌
pub data ◌⇒◌ : ModelDownloadStatus → ModelDownloadStatus → Type 0 where
  start : pending ⇒ downloading
  verify : downloading ⇒ verifying
  install : verifying ⇒ installing
  finish : installing ⇒ completed
  break_off : {s : ModelDownloadStatus} → in_flight s ≡ true → s ⇒ failed
  withdraw : {s : ModelDownloadStatus} → in_flight s ≡ true → s ⇒ cancelled

pub edge_of_table : (a b : ModelDownloadStatus) → is_allowed a b ≡ true → a ⇒ b
unfolding is_allowed in_flight
edge_of_table pending downloading h = start
edge_of_table downloading verifying h = verify
edge_of_table verifying installing h = install
edge_of_table installing completed h = finish
edge_of_table pending failed h = break_off refl
edge_of_table downloading failed h = break_off refl
edge_of_table verifying failed h = break_off refl
edge_of_table installing failed h = break_off refl
edge_of_table pending cancelled h = withdraw refl
edge_of_table downloading cancelled h = withdraw refl
edge_of_table verifying cancelled h = withdraw refl
edge_of_table installing cancelled h = withdraw refl
edge_of_table pending _ h = cc
edge_of_table downloading _ h = cc
edge_of_table verifying _ h = cc
edge_of_table installing _ h = cc
edge_of_table completed _ h = cc
edge_of_table failed _ h = cc
edge_of_table cancelled _ h = cc

aborts :
    (s : ModelDownloadStatus)
    → in_flight s ≡ true
    → (is_allowed s failed ≡ true) × (is_allowed s cancelled ≡ true)
unfolding is_allowed in_flight
aborts pending h = (refl, refl)
aborts downloading h = (refl, refl)
aborts verifying h = (refl, refl)
aborts installing h = (refl, refl)
aborts _ h = cc

table_of_edge : {a b : ModelDownloadStatus} → a ⇒ b → is_allowed a b ≡ true
unfolding is_allowed in_flight
table_of_edge start = refl
table_of_edge verify = refl
table_of_edge install = refl
table_of_edge finish = refl
table_of_edge (break_off h) = (aborts _ h).0
table_of_edge (withdraw h) = (aborts _ h).1

-- The table that _build_allowed computes for downloads allows exactly the edges of the diagram:
-- the chain from PENDING to COMPLETED, and from each state in flight to FAILED and CANCELLED.
pub is_allowed_iff : (a b : ModelDownloadStatus) → is_allowed a b ≡ true ↔ a ⇒ b
is_allowed_iff a b = ((λ h. edge_of_table a b h), (λ e. table_of_edge e))
